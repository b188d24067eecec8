-- ===== src/Replay/Observations.antt =====
-- What the records of a recording hold for the market that observes them.
use eventbook.Prelude.{
  ◌+◌, ◌%◌, ◌^◌, ◌≡◌, refl, ◌++◌, Option, some, List, [], ◌∷◌, length, length-append, ok, failure,
  arith, ap, sym, ◌∙◌, append_assoc,
}
use eventbook.Events.{LocalTimestamp}
use eventbook.Json.{JsonLibrary}
use eventbook.WsProtocol.{StdSort}
use eventbook.WsProtocol.Messages.{parse_ws_message}
use eventbook.MarketState.{MarketState}
use eventbook.MarketState.DownTime.{Observation, received, disconnected, observe, observe_all}
use eventbook.Journal.{JournalRecord, JournalRecordKind, message, connection_lost}
use eventbook.Replay.{SessionMetadata}
use eventbook.Replay.Segments.{Replay, state_or_new}

module _ (lib : JsonLibrary) (std : StdSort) where
  -- What the live path observed when a record was written.
  abbrev pub observation_at : JournalRecordKind → SessionMetadata → JournalRecord → List Observation
  observation_at message m entry =
      elim (parse_ws_message lib std entry.payload m.price_convention) [
        | failure e ↦ []
        | ok event ↦ received event entry.local_receive_time ∷ []
      ]
  observation_at connection_lost m entry = disconnected entry.local_receive_time ∷ []
  observation_at _ m entry = []

  abbrev pub observations : SessionMetadata → List JournalRecord → List Observation
  observations m [] = []
  observations m (entry ∷ entries) = observation_at entry.kind m entry ++ observations m entries

  abbrev pub last_time_of : Option LocalTimestamp → List JournalRecord → Option LocalTimestamp
  last_time_of last [] = last
  last_time_of last (entry ∷ entries) = last_time_of (some entry.local_receive_time) entries

  -- The replay after these records is the market after their observations.
  abbrev pub Follows : SessionMetadata → Replay → Replay → List JournalRecord → Type 0
  Follows m r r' entries =
      (r'.metadata ≡ some m)
      × (state_or_new m r'.state ≡ observe_all (state_or_new m r.state) (observations m entries))
      × (r'.last_time ≡ last_time_of r.last_time entries)
      × (r'.records % 2 ^ 64 ≡ (r.records + length entries) % 2 ^ 64)

  observations-append :
      (m : SessionMetadata) (xs ys : List JournalRecord)
      → observations m (xs ++ ys) ≡ observations m xs ++ observations m ys
  observations-append m [] ys = refl
  observations-append m (x ∷ xs) ys =
      rw (observations-append m xs ys)
        (sym (append_assoc (observation_at x.kind m x) (observations m xs) (observations m ys)))

  observe_all-append :
      (xs ys : List Observation) (s : MarketState)
      → observe_all s (xs ++ ys) ≡ observe_all (observe_all s xs) ys
  observe_all-append [] ys s = refl
  observe_all-append (x ∷ xs) ys s = observe_all-append xs ys (observe s x)

  last_time_of-append :
      (xs ys : List JournalRecord) (t : Option LocalTimestamp)
      → last_time_of t (xs ++ ys) ≡ last_time_of (last_time_of t xs) ys
  last_time_of-append [] ys t = refl
  last_time_of-append (x ∷ xs) ys t = last_time_of-append xs ys (some x.local_receive_time)

  pub Follows-append :
      (m : SessionMetadata) (r r' r'' : Replay) (xs ys : List JournalRecord)
      → Follows m r r' xs
      → Follows m r' r'' ys
      → Follows m r r'' (xs ++ ys)
  Follows-append m r r' r'' xs ys (known, state, last, count) (known', state', last', count') = (
    known',
    state'
        ∙ ap (λ s. observe_all s (observations m ys)) state
        ∙ sym (observe_all-append (observations m xs) (observations m ys) (state_or_new m r.state))
        ∙ ap (observe_all (state_or_new m r.state)) (sym (observations-append m xs ys)),
    last' ∙ ap (λ t. last_time_of t ys) last ∙ sym (last_time_of-append xs ys r.last_time),
    omega (arith, count, count', length-append xs ys),
  )
