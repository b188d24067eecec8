-- ===== src/MarketQuery/Paging.antt =====
-- `fetch_all_markets` against a chain of pages.
use eventbook.Prelude.{
  ℕ, zero, suc, ◌++◌, ◌≡◌, ◌↔◌, ◌⊎◌, refl, inl, inr, false, List, [], Bytes, bytes_eq, bytes_eq_iff,
  Result, ok, failure, Bool-cases, ap, sym, ◌∙◌, subst, append_assoc,
}
use eventbook.Prelude.Int.{ℤ}
use eventbook.Json.{JsonLibrary}
use eventbook.Market.{Market, MarketPage}
use eventbook.Rest.{HttpTransport, KalshiEnvironment}
use eventbook.MarketQuery.{
  MarketQuery, MarketQueryError, fetch_market_page, after_page, fetch_from, fetch_all_markets,
}

module _ (lib : JsonLibrary) (http : HttpTransport) (to_string : ℤ → Bytes)
    (environment : KalshiEnvironment) (query : MarketQuery) where
  abbrev page_at : Bytes → http.World → Result MarketPage MarketQueryError × http.World
  page_at cursor world = fetch_market_page lib http to_string environment query cursor world

  abbrev loop :
      ℕ → List Market → Bytes → http.World → Result (List Market) MarketQueryError × http.World
  loop left markets cursor world =
      fetch_from lib http to_string environment left query markets cursor world

  -- From a cursor on there are so many pages at most. Each gives the next cursor, which is another one;
  -- the last gives none. The markets are those of the pages, in order.
  abbrev pub Pages : ℕ → Bytes → http.World → List Market → http.World → Type 0
  Pages zero cursor world markets after = ⊥
  Pages (suc left) cursor world markets after =
      (page : MarketPage) × (next : http.World) × (page_at cursor world ≡ (ok page, next))
      × (((page.cursor ≡ []) × (markets ≡ page.markets) × (after ≡ next))
          ⊎ ((bytes_eq page.cursor [] ≡ false)
              × (bytes_eq page.cursor cursor ≡ false)
              × ((later : List Market) × (markets ≡ page.markets ++ later)
                  × Pages left page.cursor next later after)))

  abbrev turn :
      ℕ
      → List Market
      → Bytes
      → Result MarketPage MarketQueryError × http.World
      → Result (List Market) MarketQueryError × http.World
  turn left markets cursor answer =
      after_page lib http to_string environment (loop left) markets cursor answer

  abbrev answer_with : List Market → http.World → Result (List Market) MarketQueryError × http.World
  answer_with markets world = (ok markets, world)

  loop-Pages :
      (left : ℕ) (before markets : List Market) (cursor : Bytes) (world after : http.World)
      → Pages left cursor world markets after
      → loop left before cursor world ≡ (ok (before ++ markets), after)
  unfolding fetch_from
  loop-Pages zero before markets cursor world after h = absurd h
  loop-Pages (suc left) before markets cursor world after (page, next, e, inl (last, same, ended)) =
      ap (turn left before cursor) e ∙ rw ((bytes_eq_iff page.cursor []).1 last, same, ended) refl
  loop-Pages (suc left) before markets cursor world after
        (page, next, e, inr (some_cursor, other, (later, same, rest))) =
      ap (turn left before cursor) e
      ∙ rw (some_cursor, other, same)
          (loop-Pages left (before ++ page.markets) later page.cursor next after rest
            ∙ ap (λ m. (ok m, after)) (append_assoc before page.markets later))

  same_markets :
      (xs ys : List Market) (w v : http.World) → answer_with xs w ≡ answer_with ys v → xs ≡ ys
  same_markets xs ys w v e = cc

  -- A turn that ends in markets, where the turns behind it end in a chain of pages.
  turn-ok :
      (left : ℕ) (before result : List Market) (cursor : Bytes) (world after : http.World)
      → ((gathered : List Market) (next_cursor : Bytes) (next : http.World)
          → loop left gathered next_cursor next ≡ (ok result, after)
          → (markets : List Market) × (result ≡ gathered ++ markets)
            × Pages left next_cursor next markets after)
      → (answer : Result MarketPage MarketQueryError × http.World) → page_at cursor world ≡ answer
      → turn left before cursor answer ≡ (ok result, after)
      → (markets : List Market) × (result ≡ before ++ markets)
        × Pages (suc left) cursor world markets after
  turn-ok left before result cursor world after later_pages (failure error, next) e turned = cc
  turn-ok left before result cursor world after later_pages (ok page, next) e turned =
      elim (Bool-cases (bytes_eq page.cursor [])) [
        | inl last ↦
            let ended = rw last at turned in
            (
              page.markets,
              sym (same_markets (before ++ page.markets) result next after ended),
              (
                page,
                next,
                e,
                inl ((bytes_eq_iff page.cursor []).0 last, refl, sym (ap (λ p. p.1) ended)),
              ),
            )
        | inr some_cursor ↦ elim (Bool-cases (bytes_eq page.cursor cursor)) [
          | inl same ↦ let stopped = rw (some_cursor, same) at turned in cc
          | inr other ↦
              let (later, same, pages) =
                later_pages (before ++ page.markets) page.cursor next
                  (rw (some_cursor, other) at turned) in
              (
                page.markets ++ later,
                same ∙ append_assoc before page.markets later,
                (page, next, e, inr (some_cursor, other, (later, refl, pages))),
              )
        ]
      ]

  loop-ok :
      (left : ℕ) (before result : List Market) (cursor : Bytes) (world after : http.World)
      → loop left before cursor world ≡ (ok result, after)
      → (markets : List Market) × (result ≡ before ++ markets)
        × Pages left cursor world markets after
  unfolding fetch_from
  loop-ok zero before result cursor world after h = cc
  loop-ok (suc left) before result cursor world after h =
      turn-ok left before result cursor world after
        (λ gathered next_cursor next. loop-ok left gathered result next_cursor next after)
        (page_at cursor world) refl h

  -- Fetching succeeds with some markets exactly when they are those of a chain of at most max_pages
  -- pages from the empty cursor on, each page with another cursor than the one before and the last with
  -- none.
  pub fetch_all_markets_iff :
      (max_pages : ℕ) (markets : List Market) (world after : http.World)
      → (fetch_all_markets lib http to_string environment query max_pages world
          ≡ (ok markets, after))
        ↔ Pages max_pages [] world markets after
  unfolding fetch_all_markets
  fetch_all_markets_iff max_pages markets world after = (
    λ h.
        let (found, same, pages) = loop-ok max_pages [] markets [] world after h in
        subst (λ m. Pages max_pages [] world m after) (sym same) pages,
    λ pages. loop-Pages max_pages [] markets [] world after pages,
  )
