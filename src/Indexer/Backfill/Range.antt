-- ===== src/Indexer/Backfill/Range.antt =====
-- A run of BackfillService.ts ends, and what it marks.
use audio_block_backend.Base.{
  ℕ, zero, suc, ◌+◌, ◌-◌, ◌≤◌, ◌<◌, max, ◌≡◌, inl, inr, false, none, List, arith, ltb, Bool-cases,
  Option-cases,
}
use audio_block_backend.Indexer.Cursors.{
  IndexerCursor, get_cursor, get_backfill_status, is_backfill_completed, update_backfill_progress,
  complete_backfill, change_backfill,
}
use audio_block_backend.Indexer.Reader.{EventsPage, EventReaderServer}
use audio_block_backend.Indexer.Backfill.{
  Options, State, Outcome, finished, threw, unfinished, process_batch, next_from, next_stale, stops,
  fetch_range, fetch_all_in_range, finalize, run_from, run,
}

module _ (server : EventReaderServer) (o : Options) where
  -- The run has returned or thrown, in a state with the property.
  abbrev pub EndsIn : (State → Type 0) → Outcome → Type 0
  EndsIn P (finished s) = P s
  EndsIn P (threw s) = P s
  EndsIn P unfinished = ⊥

  -- The contract has no backfill record.
  abbrev pub IsUnmarked : State → Type 0
  IsUnmarked s = get_backfill_status o.contract_id o.network s.backfills ≡ none

  next_from-gt :
      (from : ℕ) (page : EventsPage) → 0 < o.batch_size → from < next_from server o from page
  unfolding next_from
  next_from-gt from page h = ground arith

  process_batch-IsUnmarked :
      (page : EventsPage) (n : ℕ) (s : State)
      → get_backfill_status o.contract_id o.network s.backfills ≡ none
      → get_backfill_status o.contract_id o.network (process_batch server o page n s).backfills
        ≡ none
  unfolding process_batch update_backfill_progress change_backfill
  process_batch-IsUnmarked page n s h = rw (h, change_backfill) h

  complete_backfill-IsUnmarked :
      (s : State)
      → IsUnmarked s
      → IsUnmarked (record s { backfills = complete_backfill o.contract_id o.network s.backfills })
  unfolding complete_backfill change_backfill
  complete_backfill-IsUnmarked s h = rw (h, change_backfill) h

  stops_lem :
      (from stale : ℕ) (page : EventsPage)
      → stops server o from stale page ≡ false
      → next_from server o from page ≤ o.end_ledger
  unfolding stops
  stops_lem from stale page e = ground (arith, e)

  fetch_all_in_range-EndsIn :
      (P : State → Type 0)
      → ((page : EventsPage) (n : ℕ) (s : State) → P s → P (process_batch server o page n s))
      → (fuel from stale : ℕ) (s : State) → 0 < o.batch_size
      → o.end_ledger < fuel + from
      → 0 < fuel
      → P s
      → EndsIn P (fetch_all_in_range server o fuel from stale s)
  unfolding fetch_all_in_range
  fetch_all_in_range-EndsIn P step zero from stale s pos room some_fuel h = absurd (omega arith)
  fetch_all_in_range-EndsIn P step (suc fuel) from stale s pos room some_fuel h =
      elim (Bool-cases (ltb o.end_ledger from)) [
        | inl e ↦ rw (e, fetch_all_in_range) h
        | inr e ↦ elim (Option-cases (fetch_range server o from)) [
          | inl f ↦ rw (e, f, fetch_all_in_range) h
          | inr (page, f) ↦
              let h' = step page (next_from server o from page) s h in
              elim (Bool-cases (stops server o from stale page)) [
                | inl g ↦ rw (e, f, g, fetch_all_in_range) h'
                | inr g ↦
                    let more = next_from-gt from page pos in
                    let within = stops_lem from stale page g in
                    rw (e, f, g, fetch_all_in_range)
                      (fetch_all_in_range-EndsIn P step fuel (next_from server o from page)
                        (next_stale server o from stale page) _ pos (omega (arith, more, room))
                        (omega (arith, more, room, within)) h')
              ]
        ]
      ]

  finalize-EndsIn :
      (P : State → Type 0)
      → ((s : State)
          → P s
          → P (record s { backfills = complete_backfill o.contract_id o.network s.backfills }))
      → (r : Outcome) → EndsIn P r
      → EndsIn P (finalize server o r)
  unfolding finalize
  finalize-EndsIn P last (finished s) h = last s h
  finalize-EndsIn P last (threw s) h = h
  finalize-EndsIn P last unfinished h = h

  run_from-EndsIn :
      (P : State → Type 0)
      → ((page : EventsPage) (n : ℕ) (s : State) → P s → P (process_batch server o page n s))
      → ((s : State)
          → P s
          → P (record s { backfills = complete_backfill o.contract_id o.network s.backfills }))
      → ((s : State) (rows : List IndexerCursor) (i n : ℕ)
          → P s
          → P (record s { cursors = rows; imported = i; current_ledger = n }))
      → (fuel from : ℕ) (s : State) → 0 < o.batch_size
      → o.end_ledger < fuel + from
      → 0 < fuel
      → P s
      → EndsIn P (run_from server o fuel from s)
  unfolding run_from
  run_from-EndsIn P step last begins fuel from s pos room some_fuel h = finalize-EndsIn P last _ (
      fetch_all_in_range-EndsIn P step fuel from 0
        (record s { imported = 0; current_ledger = from - 1 }) pos room some_fuel
        (begins s s.cursors 0 (from - 1) h))

  run-EndsIn :
      (P : State → Type 0)
      → ((page : EventsPage) (n : ℕ) (s : State) → P s → P (process_batch server o page n s))
      → ((s : State)
          → P s
          → P (record s { backfills = complete_backfill o.contract_id o.network s.backfills }))
      → ((s : State) (rows : List IndexerCursor) (i n : ℕ)
          → P s
          → P (record s { cursors = rows; imported = i; current_ledger = n }))
      → (fuel : ℕ) (s : State) → 0 < o.batch_size
      → o.end_ledger < fuel
      → P s
      → EndsIn P (run server o fuel s)
  unfolding run
  run-EndsIn P step last begins fuel s pos room h =
      let (cursor, cursors) = get_cursor o.contract_id o.network s.cursors in
      elim (Bool-cases (is_backfill_completed o.contract_id o.network s.backfills)) [
        | inl e ↦ rw (e, run) h
        | inr e ↦
            rw (e, run)
              (run_from-EndsIn P step last begins fuel
                (max o.start_ledger (cursor.last_processed_ledger + 1))
                (record s { cursors = cursors }) pos (omega (arith, room)) (omega (arith, room))
                (begins s cursors s.imported s.current_ledger h))
      ]

  -- A run always ends, since each page moves the start of the range on: with more fuel than the last
  -- ledger and a positive batch size, it returns or throws.
  pub run_ends :
      (fuel : ℕ) (s : State)
      → 0 < o.batch_size
      → o.end_ledger < fuel
      → EndsIn (λ _. Unit) (run server o fuel s)
  run_ends fuel s pos room =
      run-EndsIn (λ _. Unit) (λ page n s h. tt) (λ s h. tt) (λ s rows i n h. tt) fuel s pos room tt

  -- With a positive batch size and more fuel than the last ledger: where the contract has no
  -- backfill record, a run returns or throws without one too, so that the backfill is not marked
  -- as completed.
  pub run-IsUnmarked :
      (fuel : ℕ) (s : State)
      → 0 < o.batch_size
      → o.end_ledger < fuel
      → IsUnmarked s
      → EndsIn IsUnmarked (run server o fuel s)
  run-IsUnmarked fuel s pos room h =
      run-EndsIn IsUnmarked process_batch-IsUnmarked complete_backfill-IsUnmarked
        (λ s rows i n h. h) fuel s pos room h
