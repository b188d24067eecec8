-- ===== src/Replay/Records.antt =====
-- The replay of records against their observations.
use eventbook.Prelude.{
  ◌≡◌, refl, ◌++◌, false, none, some, List, [], ◌∷◌, Bytes, ok, failure, arith, sym, ◌∙◌, subst,
  Result-cases, inl, inr,
}
use eventbook.Events.{MarketEvent}
use eventbook.Json.{JsonLibrary}
use eventbook.WsProtocol.{StdSort, WsParseError}
use eventbook.WsProtocol.Messages.{parse_ws_message}
use eventbook.MarketState.{MarketState, apply, on_disconnected, increment}
use eventbook.Journal.{
  JournalRecord, JournalRecordKind, session_started, message, connection_lost, gap_detected,
  snapshot_applied, session_ended,
}
use eventbook.Replay.{SessionMetadata, ReplayOptions}
use eventbook.Replay.Metadata.{decode_session_metadata}
use eventbook.Replay.Segments.{
  Segment, Replay, state_or_new, note_record, count_lifecycle, start_session, replay_message,
  replay_market, replay_record, replay_records, replay_segment, replay_all,
}
use eventbook.Replay.Observations.{observation_at, Follows, Follows-append}

pub nil_is_not_cons : (x : JournalRecord) (xs : List JournalRecord) → [] ≡ x ∷ xs → ⊥
nil_is_not_cons x xs e = cc

cons_head : (x y : JournalRecord) (xs ys : List JournalRecord) → (x ∷ xs) ≡ y ∷ ys → x ≡ y
cons_head x y xs ys e = cc

module _ (lib : JsonLibrary) (std : StdSort) where
  module _ (options : ReplayOptions) (lenient : options.stop_on_parse_failure ≡ false) where
    replay_message-failure :
        (m : SessionMetadata) (r : Replay) (state : MarketState) (entry : JournalRecord)
        (error : WsParseError)
        → parse_ws_message lib std entry.payload m.price_convention ≡ failure error
        → replay_message lib std options m r state entry
          ≡ ok (record r {
            messages = increment r.messages;
            state = some state;
            parse_failures = increment r.parse_failures;
          })
    unfolding replay_message
    replay_message-failure m r state entry error p = rw (p, replay_message, lenient) refl

    replay_message-event :
        (m : SessionMetadata) (r : Replay) (state : MarketState) (entry : JournalRecord)
        (event : MarketEvent)
        → parse_ws_message lib std entry.payload m.price_convention ≡ ok event
        → replay_message lib std options m r state entry
          ≡ ok (record r {
            messages = increment r.messages;
            state = some ((apply state event entry.local_receive_time).0);
          })
    unfolding replay_message
    replay_message-event m r state entry event p = rw (p, replay_message) refl

    replay_record-Follows :
        (path : Bytes) (m : SessionMetadata) (r : Replay) (entry : JournalRecord)
        → r.metadata ≡ some m
        → (r' : Replay) × (replay_record lib std options path r entry ≡ ok r')
          × Follows lib std m r r' (entry ∷ [])
    unfolding replay_record start_session replay_market replay_message
    replay_record-Follows path m r entry known = by_kind entry.kind refl
      where
        noted : Replay
        noted = note_record r entry

        as_message :
            entry.kind ≡ message
            → replay_record lib std options path r entry
              ≡ replay_message lib std options m noted (state_or_new m r.state) entry
        as_message e = simp (e, replay_record, known)

        by_kind :
            (k : JournalRecordKind)
            → entry.kind ≡ k
            → (r' : Replay) × (replay_record lib std options path r entry ≡ ok r')
              × Follows lib std m r r' (entry ∷ [])
        by_kind session_started e = (
          count_lifecycle noted,
          rw (e, replay_record, known) refl,
          (known, rw e refl, refl, omega arith),
        )
        by_kind message e =
            elim (Result-cases (parse_ws_message lib std entry.payload m.price_convention)) [
              | inl (error, p) ↦ (
                record noted {
                  messages = increment r.messages;
                  state = some (state_or_new m r.state);
                  parse_failures = increment r.parse_failures;
                },
                as_message e
                    ∙ replay_message-failure m noted (state_or_new m r.state) entry error p,
                (known, rw (e, observation_at, p) refl, refl, omega arith),
              )
              | inr (event, p) ↦ (
                record noted {
                  messages = increment r.messages;
                  state = some ((apply (state_or_new m r.state) event entry.local_receive_time).0);
                },
                as_message e ∙ replay_message-event m noted (state_or_new m r.state) entry event p,
                (known, rw (e, observation_at, p) refl, refl, omega arith),
              )
            ]
        by_kind connection_lost e = (
          record (count_lifecycle noted) {
            state = some (on_disconnected (state_or_new m r.state) entry.local_receive_time);
          },
          rw (e, replay_record, known) refl,
          (known, rw e refl, refl, omega arith),
        )
        by_kind gap_detected e = (
          record (count_lifecycle noted) { state = some (state_or_new m r.state) },
          rw (e, replay_record, known) refl,
          (known, rw e refl, refl, omega arith),
        )
        by_kind snapshot_applied e = (
          record (count_lifecycle noted) { state = some (state_or_new m r.state) },
          rw (e, replay_record, known) refl,
          (known, rw e refl, refl, omega arith),
        )
        by_kind session_ended e = (
          record (count_lifecycle noted) { state = some (state_or_new m r.state) },
          rw (e, replay_record, known) refl,
          (known, rw e refl, refl, omega arith),
        )

    -- With the metadata known, and from the record that holds them.
    replay_records-Follows :
        (path : Bytes) (m : SessionMetadata) (entries : List JournalRecord) (r : Replay)
        → r.metadata ≡ some m
        → (r' : Replay) × (replay_records lib std options path r entries ≡ ok r')
          × Follows lib std m r r' entries
    unfolding replay_records
    replay_records-Follows path m [] r known = (r, refl, (known, refl, refl, omega arith))
    replay_records-Follows path m (entry ∷ entries) r known =
        let (r', e, first) = replay_record-Follows path m r entry known in
        let (r'', e', rest) = replay_records-Follows path m entries r' first.0 in
        (
          r'',
          rw (e, replay_records) e',
          Follows-append lib std m r r' r'' (entry ∷ []) entries first rest,
        )

    -- The contents of segments that are read to their ends.
    abbrev pub AllRead : List Segment → List JournalRecord → Type 0
    AllRead [] entries = entries ≡ []
    AllRead (segment ∷ segments) entries =
        (xs ys : List JournalRecord) × (segment.content ≡ ok (xs, none))
        × (entries ≡ xs ++ ys)
        × AllRead segments ys

    replay_segment-records :
        (segment : Segment) (r r' : Replay) (xs : List JournalRecord)
        → segment.content ≡ ok (xs, none)
        → replay_records lib std options segment.path
            (record r { segments = increment r.segments })
            xs
          ≡ ok r'
        → replay_segment lib std options r segment ≡ ok r'
    unfolding replay_segment
    replay_segment-records segment r r' xs content e = rw (replay_segment, content, e) refl

    replay_all-Follows :
        (m : SessionMetadata) (segments : List Segment) (entries : List JournalRecord) (r : Replay)
        → r.metadata ≡ some m
        → AllRead segments entries
        → (r' : Replay) × (replay_all lib std options r segments ≡ ok r')
          × Follows lib std m r r' entries
    unfolding replay_all
    replay_all-Follows m [] entries r known e =
        (r, refl, (known, rw e refl, rw e refl, rw e (omega arith)))
    replay_all-Follows m (segment ∷ segments) entries r known (xs, ys, content, e, all_read) =
        let (r', read, first) =
          replay_records-Follows segment.path m xs (record r { segments = increment r.segments })
            known in
        let (r'', read', rest) = replay_all-Follows m segments ys r' first.0 all_read in
        (
          r'',
          rw (replay_segment-records segment r r' xs content read, replay_all) read',
          subst (Follows lib std m r r'') (sym e)
              (Follows-append lib std m r r' r'' xs ys first rest),
        )

    replay_record-session :
        (path : Bytes) (m : SessionMetadata) (r : Replay) (first : JournalRecord)
        → r.metadata ≡ none
        → first.kind ≡ session_started
        → decode_session_metadata lib first.payload ≡ ok m
        → (r' : Replay) × (replay_record lib std options path r first ≡ ok r')
          × Follows lib std m r r' (first ∷ [])
    unfolding replay_record start_session
    replay_record-session path m r first unknown kind decoded = (
      record (count_lifecycle (note_record r first)) { metadata = some m },
      rw (kind, replay_record, unknown, decoded) refl,
      (refl, rw kind refl, refl, omega arith),
    )

    pub replay_all-session :
        (m : SessionMetadata) (segments : List Segment) (first : JournalRecord)
        (entries rest : List JournalRecord) (r : Replay)
        → r.metadata ≡ none
        → first.kind ≡ session_started
        → decode_session_metadata lib first.payload ≡ ok m
        → entries ≡ first ∷ rest
        → AllRead segments entries
        → (r' : Replay) × (replay_all lib std options r segments ≡ ok r')
          × Follows lib std m r r' entries
    unfolding replay_all
    replay_all-session m [] first entries rest r unknown kind decoded starts e =
        absurd (nil_is_not_cons first rest (sym e ∙ starts))
    replay_all-session m (segment ∷ segments) first entries rest r unknown kind decoded starts
          ([], ys, content, e, all_read) =
        let r0 : Replay = record r { segments = increment r.segments } in
        let (r', read, follows) =
          replay_all-session m segments first ys rest r0 unknown kind decoded (sym e ∙ starts)
            all_read in
        (
          r',
          rw (replay_segment-records segment r r0 [] content refl, replay_all) read,
          subst (Follows lib std m r r') (sym e) follows,
        )
    replay_all-session m (segment ∷ segments) first entries rest r unknown kind decoded starts
          (x ∷ xs, ys, content, e, all_read) =
        let r0 : Replay = record r { segments = increment r.segments } in
        let same : first ≡ x = cons_head first x rest (xs ++ ys) (sym starts ∙ e) in
        let (r1, read1, follows1) =
          replay_record-session segment.path m r0 x unknown
            (subst (λ y. y.kind ≡ session_started) same kind)
            (subst (λ y. decode_session_metadata lib y.payload ≡ ok m) same decoded) in
        let (r2, read2, follows2) = replay_records-Follows segment.path m xs r1 follows1.0 in
        let (r3, read3, follows3) = replay_all-Follows m segments ys r2 follows2.0 all_read in
        (
          r3,
          rw
              (
                replay_segment-records segment r r2 (x ∷ xs) content
                    (rw (read1, replay_records) read2),
                replay_all,
              )
              read3,
          subst (Follows lib std m r r3) (sym e) (
              Follows-append lib std m r0 r2 r3 (x ∷ xs) ys
                (Follows-append lib std m r0 r1 r2 (x ∷ []) xs follows1 follows2) follows3),
        )
