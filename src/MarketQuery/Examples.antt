-- ===== src/MarketQuery/Examples.antt =====
-- A query with a series and a cursor, and a venue with one empty page.
use eventbook.Prelude.{◌≡◌, ◌↔◌, ◌++◌, Option, none, some, [], ◌∷◌, Bytes, codes, ok, arith}
use eventbook.Prelude.Int.{ℤ, pos}
use eventbook.Json.Writer.{Built, text, array, object, end, stop, field}
use eventbook.Json.Tokens.{token_json, token_writer}
use eventbook.Rest.{HttpTransport, production}
use eventbook.MarketQuery.{MarketQuery, open_markets, build_market_query, fetch_all_markets}
use eventbook.MarketQuery.Parameters.{
  read_parameters, series_parameter, status_parameter, cursor_parameter,
  read_parameters-build_market_query,
}
use eventbook.MarketQuery.Paging.{Pages, fetch_all_markets_iff}

abbrev series_query : MarketQuery
series_query = record {
  series_ticker = some (record { value = codes "A&B" });
  status = some open_markets;
  limit = pos 100;
}

abbrev hundred : ℤ → Bytes
hundred z = codes "100"

read_parameters-build_market_query_example :
    read_parameters (build_market_query hundred series_query (codes "a="))
    ≡ (codes "limit", codes "100") ∷ []
      ++ series_parameter series_query.series_ticker
      ++ status_parameter series_query.status
      ++ cursor_parameter (codes "a=")
read_parameters-build_market_query_example =
    read_parameters-build_market_query hundred series_query (codes "a=")
      (omega arith, (omega arith, (omega arith, tt)))
      (omega arith, (omega arith, (omega arith, tt))) (omega arith, (omega arith, tt))

abbrev written : Built → Bytes
written document = or_empty (token_writer.dump document)
  where
    or_empty : Option Bytes → Bytes
    or_empty none = []
    or_empty (some s) = s

-- It answers every request with an empty page, the last.
abbrev empty_venue : HttpTransport
empty_venue = record {
  World = Unit;
  send = λ world request. (
    ok (record {
      status_code = pos 200;
      body =
          written
            (object (field (codes "markets") (array end) (field (codes "cursor") (text []) stop)));
    }),
    world,
  );
}

fetch_all_markets_iff_example :
    (fetch_all_markets token_json empty_venue hundred production series_query 2 tt ≡ (ok [], tt))
    ↔ Pages token_json empty_venue hundred production series_query 2 [] tt [] tt
fetch_all_markets_iff_example =
    fetch_all_markets_iff token_json empty_venue hundred production series_query 2 [] tt tt
