-- ===== src/Replay/Live.antt =====
-- A replay against the live path: the same observations, in the same order, by the same market state.
use eventbook.Prelude.{
  ◌%◌, ◌^◌, ◌≡◌, refl, false, Option, none, some, List, [], ◌∷◌, length, ok, arith, ap, sym, ◌∙◌,
}
use eventbook.Events.{LocalTimestamp}
use eventbook.Json.{JsonLibrary}
use eventbook.WsProtocol.{StdSort}
use eventbook.MarketState.{MarketState, new_state, finish}
use eventbook.MarketState.DownTime.{observe_all}
use eventbook.OrderBook.Digest.{state_hash}
use eventbook.Journal.{JournalRecord, session_started}
use eventbook.Replay.{SessionMetadata, ReplayOptions, ReplayResult}
use eventbook.Replay.Metadata.{decode_session_metadata}
use eventbook.Replay.Segments.{
  Segment, Replay, start_replay, state_or_new, finish_at, end_state, result_of, replay_segments,
}
use eventbook.Replay.Observations.{observations, last_time_of}
use eventbook.Replay.Records.{nil_is_not_cons, AllRead, replay_all-session}

module _ (lib : JsonLibrary) (std : StdSort) where
  -- The market that the live path ended with.
  abbrev pub live_end : SessionMetadata → List JournalRecord → MarketState
  live_end m entries =
      finish_at (last_time_of lib std none entries)
        (observe_all (new_state m.market_ticker m.price_grid) (observations lib std m entries))

  module _ (options : ReplayOptions) (lenient : options.stop_on_parse_failure ≡ false) where
    finish_at-new_state :
        (m : SessionMetadata) (t : Option LocalTimestamp)
        → finish_at t (new_state m.market_ticker m.price_grid)
          ≡ new_state m.market_ticker m.price_grid
    unfolding finish new_state
    finish_at-new_state m none = refl
    finish_at-new_state m (some at) = refl

    end_state-finish :
        (m : SessionMetadata) (r : Replay)
        → end_state lib std options m r ≡ finish_at r.last_time (state_or_new m r.state)
    end_state-finish m r = by_state r.state refl
      where
        by_state :
            (o : Option MarketState)
            → r.state ≡ o
            → end_state lib std options m r ≡ finish_at r.last_time (state_or_new m r.state)
        by_state none e = rw (e, end_state) (sym (finish_at-new_state m r.last_time))
        by_state (some s) e = rw (e, end_state) refl

    result_of-known :
        (m : SessionMetadata) (r : Replay)
        → r.metadata ≡ some m
        → (result : ReplayResult) × (result_of lib std options r ≡ ok result)
          × (result.metadata ≡ m)
          × (result.market ≡ (end_state lib std options m r).stats)
          × (result.final_state_hash ≡ state_hash (end_state lib std options m r).book)
          × (result.records ≡ r.records)
    unfolding result_of
    result_of-known m r known = (
      record {
        metadata = m;
        segments = r.segments;
        records = r.records;
        messages = r.messages;
        lifecycle_records = r.lifecycle_records;
        parse_failures = r.parse_failures;
        market = (end_state lib std options m r).stats;
        final_state_hash = state_hash (end_state lib std options m r).book;
        first_record_time = r.first_record_time;
        last_record_time = r.last_time;
      },
      rw (known, result_of) refl,
      refl,
      refl,
      refl,
      refl,
    )

    -- Segments that are read to their ends, whose first record is that of a session and decodes, and
    -- where neither the metadata are overridden nor a parse failure stops: the replay gives the metadata,
    -- the number of records, and the statistics and the digest of the market that observed what the
    -- records hold and was finished at the last one's time, however the records are cut into segments.
    pub replay_segments-live_end :
        (m : SessionMetadata) (segments : List Segment) (first : JournalRecord)
        (rest : List JournalRecord)
        → options.metadata_override ≡ none
        → first.kind ≡ session_started
        → decode_session_metadata lib first.payload ≡ ok m
        → AllRead lib std options lenient segments (first ∷ rest)
        → (result : ReplayResult) × (replay_segments lib std options segments ≡ ok result)
          × (result.metadata ≡ m)
          × (result.market ≡ (live_end m (first ∷ rest)).stats)
          × (result.final_state_hash ≡ state_hash (live_end m (first ∷ rest)).book)
          × (result.records % 2 ^ 64 ≡ length (first ∷ rest) % 2 ^ 64)
    unfolding replay_segments result_of
    replay_segments-live_end m [] first rest none_given kind decoded all_read =
        absurd (nil_is_not_cons first rest (sym all_read))
    replay_segments-live_end m (segment ∷ segments) first rest none_given kind decoded all_read =
        let (r, read, (known, state, last, count)) =
          replay_all-session lib std options lenient m (segment ∷ segments) first (first ∷ rest)
            rest (start_replay options) none_given kind decoded refl all_read in
        let (result, e, metadata, market, hash, records) = result_of-known m r known in
        let ended : end_state lib std options m r ≡ live_end m (first ∷ rest) =
          end_state-finish m r
          ∙ ap (λ t. finish_at t (state_or_new m r.state)) last
          ∙ ap (finish_at (last_time_of lib std none (first ∷ rest))) state in
        (
          result,
          rw (read, replay_segments) e,
          metadata,
          market ∙ ap (λ s. s.stats) ended,
          hash ∙ ap (λ s. state_hash s.book) ended,
          omega (arith, records, count),
        )
