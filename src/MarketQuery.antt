-- ===== src/MarketQuery.antt =====
-- include/eventbook/api/market_query.hpp and src/api/market_query.cpp: the markets of the venue, page
-- by page. `std::to_string` is a parameter.
pub mod Encoding
pub mod Parameters
pub mod Paging
mod Examples
use eventbook.Prelude.{
  ℕ, zero, suc, ◌+◌, ◌-◌, ◌/◌, ◌%◌, ◌++◌, leb, ◌==◌, Bool, true, false, ◌&&◌, ◌||◌, Option, none,
  some, List, [], ◌∷◌, if◌then◌else◌, Bytes, bytes_eq, codes, Result, ok, failure,
}
use eventbook.Prelude.Int.{ℤ}
use eventbook.Json.{JsonLibrary}
use eventbook.Market.{Market, MarketPage, MarketParseError}
use eventbook.Market.Reading.{parse_market_page}
use eventbook.Rest.{HttpTransport, HttpResponse, KalshiEnvironment, RestError, get}

abbrev pub markets_path : Bytes
markets_path = codes "/markets"

abbrev pub in_span : ℕ → ℕ → ℕ → Bool
in_span low high c = leb low c && leb c high

unfoldable pub is_unreserved : ℕ → Bool
is_unreserved c =
    in_span b'A' b'Z' c
    || in_span b'a' b'z' c
    || in_span b'0' b'9' c
    || (c == b'-')
    || (c == b'_')
    || (c == b'.')
    || (c == b'~')

-- `kHexDigits[n]`.
abbrev pub hex_digit : ℕ → ℕ
hex_digit n = if leb n 9 then b'0' + n else b'A' + (n - 10)

unfoldable pub percent_encode : Bytes → Bytes
unfolding is_unreserved
percent_encode [] = []
percent_encode (c ∷ s) =
    let rest = percent_encode s in
    if is_unreserved c then c ∷ rest else b'%' ∷ hex_digit (c / 16) ∷ hex_digit (c % 16) ∷ rest

abbrev pub separator : Bytes → Bytes
separator [] = []
separator (c ∷ query) = b'&' ∷ []

unfoldable pub append_parameter : Bytes → Bytes → Bytes → Bytes
unfolding percent_encode
append_parameter query key value = query ++ separator query ++ key ++ b'=' ∷ percent_encode value

pub data MarketStatusFilter : Type 0 where
  unopened open_markets closed settled : MarketStatusFilter

unfoldable pub to_query_value : MarketStatusFilter → Bytes
to_query_value unopened = codes "unopened"
to_query_value open_markets = codes "open"
to_query_value closed = codes "closed"
to_query_value settled = codes "settled"

pub record SeriesTicker : Type 0 where
  pub value : Bytes

pub record MarketQuery : Type 0 where
  pub series_ticker : Option SeriesTicker
  pub status : Option MarketStatusFilter
  pub limit : ℤ

abbrev pub append_series : Option SeriesTicker → Bytes → Bytes
append_series none query = query
append_series (some ticker) query = append_parameter query (codes "series_ticker") ticker.value

abbrev pub append_status : Option MarketStatusFilter → Bytes → Bytes
append_status none query = query
append_status (some filter) query = append_parameter query (codes "status") (to_query_value filter)

abbrev pub append_cursor : Bytes → Bytes → Bytes
append_cursor [] query = query
append_cursor (c ∷ cursor) query = append_parameter query (codes "cursor") (c ∷ cursor)

unfoldable pub build_market_query : (ℤ → Bytes) → MarketQuery → Bytes → Bytes
unfolding append_parameter to_query_value
build_market_query to_string query cursor = append_cursor cursor (
    append_status query.status (
      append_series query.series_ticker
        (append_parameter [] (codes "limit") (to_string query.limit))))

-- With what each kind carries.
pub data MarketQueryError : Type 0 where
  rest : RestError → MarketQueryError
  parse : MarketParseError → MarketQueryError
  cursor_not_advancing page_limit_reached : MarketQueryError

module _ (lib : JsonLibrary) (http : HttpTransport) (to_string : ℤ → Bytes)
    (environment : KalshiEnvironment) where
  unfoldable pub page_of : Result HttpResponse RestError → Result MarketPage MarketQueryError
  page_of (failure e) = failure (rest e)
  page_of (ok response) = elim (parse_market_page lib response.body) [
    | failure e ↦ failure (parse e)
    | ok page ↦ ok page
  ]

  unfoldable pub fetch_market_page :
      MarketQuery → Bytes → http.World → Result MarketPage MarketQueryError × http.World
  unfolding build_market_query page_of
  fetch_market_page query cursor world =
      let (response, world') =
        get http environment markets_path (build_market_query to_string query cursor) world in
      (page_of response, world')

  -- A turn of the loop after the answer, with what the turns behind it do.
  abbrev pub after_page :
      (List Market → Bytes → http.World → Result (List Market) MarketQueryError × http.World)
      → List Market
      → Bytes
      → Result MarketPage MarketQueryError × http.World
      → Result (List Market) MarketQueryError × http.World
  after_page turns markets cursor (failure e, world) = (failure e, world)
  after_page turns markets cursor (ok page, world) =
      if bytes_eq page.cursor []
      then (ok (markets ++ page.markets), world)
      else if bytes_eq page.cursor cursor
      then (failure cursor_not_advancing, world)
      else turns (markets ++ page.markets) page.cursor world

  -- The loop: the pages that may still be asked for, the markets so far and the cursor.
  unfoldable pub fetch_from :
      ℕ
      → MarketQuery
      → List Market
      → Bytes
      → http.World
      → Result (List Market) MarketQueryError × http.World
  unfolding fetch_market_page
  fetch_from zero query markets cursor world = (failure page_limit_reached, world)
  fetch_from (suc left) query markets cursor world =
      after_page (fetch_from left query) markets cursor (fetch_market_page query cursor world)

  unfoldable pub fetch_all_markets :
      MarketQuery → ℕ → http.World → Result (List Market) MarketQueryError × http.World
  unfolding fetch_from
  fetch_all_markets query max_pages world = fetch_from max_pages query [] [] world
