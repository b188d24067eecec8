-- ===== src/MarketQuery/Parameters.antt =====
-- The query's text read back, as a server reads it: parameters between `&`, a key and a value around
-- `=`.
use eventbook.Prelude.{
  ℕ, ltb, &&_true, ◌++◌, ◌==◌, ◌≡◌, refl, Bool, true, false, not, ◌&&◌, Option, none, some, List,
  [], ◌∷◌, All, All-append, map, if◌then◌else◌, Bytes, codes, arith, Bool-cases, ==_iff, inl, inr,
  ap, sym, ◌∙◌, append-nil, append_assoc,
}
use eventbook.Prelude.Int.{ℤ}
use eventbook.Json.Writer.{is_ascii}
use eventbook.MarketQuery.{
  MarketQuery, percent_encode, append_parameter, append_series, append_status, append_cursor,
  to_query_value, build_market_query, MarketStatusFilter, unopened, open_markets, closed, settled,
  SeriesTicker,
}
use eventbook.MarketQuery.Encoding.{
  percent_decode, percent_decode-percent_encode, IsBytes, IsValue, percent_encode-IsValue,
}

abbrev pub cons_first : ℕ → List Bytes → List Bytes
cons_first c [] = (c ∷ []) ∷ []
cons_first c (part ∷ parts) = (c ∷ part) ∷ parts

-- The parts between the separators: one more than there are separators.
unfoldable pub split_on : ℕ → Bytes → List Bytes
split_on sep [] = [] ∷ []
split_on sep (c ∷ s) =
    let parts = split_on sep s in if c == sep then [] ∷ parts else cons_first c parts

-- The text before the first `=`, and the decoded text behind it.
unfoldable pub key_and_value : Bytes → Bytes × Bytes
key_and_value [] = ([], [])
key_and_value (c ∷ s) =
    let (key, value) = key_and_value s in
    if c == b'=' then ([], percent_decode s) else (c ∷ key, value)

unfoldable pub read_parameters : Bytes → List (Bytes × Bytes)
unfolding split_on key_and_value
read_parameters [] = []
read_parameters (c ∷ s) = map key_and_value (split_on b'&' (c ∷ s))

abbrev Lacks : ℕ → Bytes → Type 0
Lacks sep s = All (λ c. (c == sep) ≡ false) s

split_on-Lacks : (sep : ℕ) (s : Bytes) → Lacks sep s → split_on sep s ≡ s ∷ []
unfolding split_on
split_on-Lacks sep [] h = refl
split_on-Lacks sep (c ∷ s) h = rw (split_on-Lacks sep s h.1, h.0) refl

abbrev IsCons : List Bytes → Type 0
IsCons [] = ⊥
IsCons (part ∷ parts) = Unit

split_on-IsCons : (sep : ℕ) (s : Bytes) → IsCons (split_on sep s)
unfolding split_on
split_on-IsCons sep [] = tt
split_on-IsCons sep (c ∷ s) = elim (Bool-cases (c == sep)) [
  | inl e ↦ rw e tt
  | inr e ↦ rw e (cons_first-IsCons c (split_on sep s))
]
  where
    cons_first-IsCons : (c : ℕ) (parts : List Bytes) → IsCons (cons_first c parts)
    cons_first-IsCons c [] = tt
    cons_first-IsCons c (part ∷ parts) = tt

cons_first-append :
    (c : ℕ) (parts : List Bytes) (part : Bytes)
    → IsCons parts
    → cons_first c (parts ++ part ∷ []) ≡ cons_first c parts ++ part ∷ []
cons_first-append c [] part h = absurd h
cons_first-append c (p ∷ parts) part h = refl

split_on-append :
    (sep : ℕ) (x y : Bytes) → Lacks sep y → split_on sep (x ++ sep ∷ y) ≡ split_on sep x ++ y ∷ []
unfolding split_on
split_on-append sep [] y h = rw ((==_iff sep sep).1 refl, split_on-Lacks sep y h) refl
split_on-append sep (c ∷ x) y h =
    let later = split_on-append sep x y h in
    elim (Bool-cases (c == sep)) [
      | inl e ↦ rw (e, later) refl
      | inr e ↦ rw (e, later) (cons_first-append c (split_on sep x) y (split_on-IsCons sep x))
    ]

Lacks-append : (sep : ℕ) (xs ys : Bytes) → Lacks sep xs → Lacks sep ys → Lacks sep (xs ++ ys)
Lacks-append sep xs ys h k = All-append (λ c. (c == sep) ≡ false) xs ys h k

key_and_value-parameter :
    (key value : Bytes)
    → Lacks b'=' key
    → IsBytes value
    → key_and_value (key ++ b'=' ∷ percent_encode value) ≡ (key, value)
unfolding key_and_value
key_and_value-parameter [] value h bytes =
    ap (λ v. ([], v)) (percent_decode-percent_encode value bytes)
key_and_value-parameter (c ∷ key) value h bytes =
    rw (h.0, key_and_value-parameter key value h.1 bytes) refl

map-append : {A B : Type 0} (f : A → B) (xs ys : List A) → map f (xs ++ ys) ≡ map f xs ++ map f ys
map-append f [] ys = refl
map-append f (x ∷ xs) ys = rw (map-append f xs ys) refl

abbrev lacks : ℕ → Bytes → Bool
lacks sep [] = true
lacks sep (c ∷ s) = not (c == sep) && lacks sep s

lacks-Lacks : (sep : ℕ) (s : Bytes) → lacks sep s ≡ true → Lacks sep s
lacks-Lacks sep [] h = tt
lacks-Lacks sep (c ∷ s) h =
    let both = &&_true (not (c == sep)) (lacks sep s) h in (ground arith, lacks-Lacks sep s both.1)

-- A key of a letter or more without the structuring characters.
abbrev pub is_key : Bytes → Bool
is_key [] = false
is_key (c ∷ key) = lacks b'&' (c ∷ key) && lacks b'=' (c ∷ key)

is_key-Lacks :
    (c : ℕ) (key : Bytes) → is_key (c ∷ key) ≡ true → Lacks b'&' (c ∷ key) × Lacks b'=' (c ∷ key)
is_key-Lacks c key h =
    let both = &&_true (lacks b'&' (c ∷ key)) (lacks b'=' (c ∷ key)) h in
    (lacks-Lacks b'&' (c ∷ key) both.0, lacks-Lacks b'=' (c ∷ key) both.1)

value-Lacks : (value : Bytes) → IsValue value → Lacks b'&' value
value-Lacks [] h = tt
value-Lacks (c ∷ value) h = (h.0.0, value-Lacks value h.1)

parameter-Lacks :
    (key value : Bytes)
    → Lacks b'&' key
    → IsBytes value
    → Lacks b'&' (key ++ b'=' ∷ percent_encode value)
parameter-Lacks key value h bytes =
    Lacks-append b'&' key (b'=' ∷ percent_encode value) h
      (refl, value-Lacks (percent_encode value) (percent_encode-IsValue value bytes))

one_text :
    (query key value : Bytes)
    → query ++ b'&' ∷ [] ++ key ++ b'=' ∷ percent_encode value
      ≡ query ++ b'&' ∷ (key ++ b'=' ∷ percent_encode value)
one_text query key value =
    append_assoc (query ++ b'&' ∷ []) key (b'=' ∷ percent_encode value)
    ∙ append_assoc query (b'&' ∷ []) (key ++ b'=' ∷ percent_encode value)

pub read_parameters-append_parameter :
    (query key value : Bytes)
    → is_key key ≡ true
    → IsBytes value
    → read_parameters (append_parameter query key value)
      ≡ read_parameters query ++ (key, value) ∷ []
unfolding read_parameters append_parameter
read_parameters-append_parameter query [] value h bytes = cc
read_parameters-append_parameter [] (k ∷ key) value h bytes =
    ap (map key_and_value) (
      split_on-Lacks b'&' ((k ∷ key) ++ b'=' ∷ percent_encode value)
        (parameter-Lacks (k ∷ key) value (is_key-Lacks k key h).0 bytes))
    ∙ ap (λ p. p ∷ []) (key_and_value-parameter (k ∷ key) value (is_key-Lacks k key h).1 bytes)
read_parameters-append_parameter (c ∷ s) (k ∷ key) value h bytes =
    ap (λ t. map key_and_value (split_on b'&' t)) (one_text (c ∷ s) (k ∷ key) value)
    ∙ ap (map key_and_value) (
        split_on-append b'&' (c ∷ s) ((k ∷ key) ++ b'=' ∷ percent_encode value)
          (parameter-Lacks (k ∷ key) value (is_key-Lacks k key h).0 bytes))
    ∙ map-append key_and_value (split_on b'&' (c ∷ s))
        (((k ∷ key) ++ b'=' ∷ percent_encode value) ∷ [])
    ∙ ap (λ p. map key_and_value (split_on b'&' (c ∷ s)) ++ p ∷ [])
        (key_and_value-parameter (k ∷ key) value (is_key-Lacks k key h).1 bytes)

read_parameters_nil : (rest : List (Bytes × Bytes)) → read_parameters [] ++ rest ≡ rest
unfolding read_parameters
read_parameters_nil rest = refl

-- The parameters that a query stands for.
abbrev pub series_parameter : Option SeriesTicker → List (Bytes × Bytes)
series_parameter none = []
series_parameter (some ticker) = (codes "series_ticker", ticker.value) ∷ []

abbrev pub status_parameter : Option MarketStatusFilter → List (Bytes × Bytes)
status_parameter none = []
status_parameter (some filter) = (codes "status", to_query_value filter) ∷ []

abbrev pub cursor_parameter : Bytes → List (Bytes × Bytes)
cursor_parameter [] = []
cursor_parameter (c ∷ cursor) = (codes "cursor", c ∷ cursor) ∷ []

abbrev pub IsTicker : Option SeriesTicker → Type 0
IsTicker none = Unit
IsTicker (some ticker) = IsBytes ticker.value

read_parameters-append_series :
    (o : Option SeriesTicker) (query : Bytes)
    → IsTicker o
    → read_parameters (append_series o query) ≡ read_parameters query ++ series_parameter o
read_parameters-append_series none query h = sym (append-nil (read_parameters query))
read_parameters-append_series (some ticker) query h =
    read_parameters-append_parameter query (codes "series_ticker") ticker.value refl h

filter_bytes : (filter : MarketStatusFilter) → is_ascii (to_query_value filter) ≡ true
unfolding to_query_value
filter_bytes unopened = refl
filter_bytes open_markets = refl
filter_bytes closed = refl
filter_bytes settled = refl

is_ascii-IsBytes : (s : Bytes) → is_ascii s ≡ true → IsBytes s
is_ascii-IsBytes [] h = tt
is_ascii-IsBytes (c ∷ s) h =
    let both = &&_true (ltb c 128) (is_ascii s) h in (ground arith, is_ascii-IsBytes s both.1)

read_parameters-append_status :
    (o : Option MarketStatusFilter) (query : Bytes)
    → read_parameters (append_status o query) ≡ read_parameters query ++ status_parameter o
read_parameters-append_status none query = sym (append-nil (read_parameters query))
read_parameters-append_status (some filter) query =
    read_parameters-append_parameter query (codes "status") (to_query_value filter) refl
      (is_ascii-IsBytes (to_query_value filter) (filter_bytes filter))

read_parameters-append_cursor :
    (cursor query : Bytes)
    → IsBytes cursor
    → read_parameters (append_cursor cursor query)
      ≡ read_parameters query ++ cursor_parameter cursor
read_parameters-append_cursor [] query h = sym (append-nil (read_parameters query))
read_parameters-append_cursor (c ∷ cursor) query h =
    read_parameters-append_parameter query (codes "cursor") (c ∷ cursor) refl h

-- Where the limit's text, the series and the cursor are bytes, a server that reads the query's text finds
-- the limit, the series, the status and the cursor, each as it was given, in this order, and nothing
-- else.
pub read_parameters-build_market_query :
    (to_string : ℤ → Bytes) (query : MarketQuery) (cursor : Bytes)
    → IsBytes (to_string query.limit)
    → IsTicker query.series_ticker
    → IsBytes cursor
    → read_parameters (build_market_query to_string query cursor)
      ≡ (codes "limit", to_string query.limit) ∷ []
        ++ series_parameter query.series_ticker
        ++ status_parameter query.status
        ++ cursor_parameter cursor
unfolding build_market_query
read_parameters-build_market_query to_string query cursor limit ticker bytes =
    let start = append_parameter [] (codes "limit") (to_string query.limit) in
    let with_series = append_series query.series_ticker start in
    let with_status = append_status query.status with_series in
    read_parameters-append_cursor cursor with_status bytes
    ∙ ap (λ t. t ++ cursor_parameter cursor)
        (read_parameters-append_status query.status with_series
          ∙ ap (λ t. t ++ status_parameter query.status)
              (read_parameters-append_series query.series_ticker start ticker
                ∙ ap (λ t. t ++ series_parameter query.series_ticker)
                    (read_parameters-append_parameter [] (codes "limit") (to_string query.limit)
                        refl limit
                      ∙ read_parameters_nil ((codes "limit", to_string query.limit) ∷ []))))
