-- ===== src/Indexer/Backfill.antt =====
-- src/services/Soroban/BackfillService.ts, with `fetchAllInRange` of
-- src/services/Soroban/SorobanEventReader.ts, whose callback it gives. Ledgers start at 1, so that
-- `from - 1` is not negative.
pub mod Range
use audio_block_backend.Base.{
  ℕ, zero, suc, ◌+◌, ◌-◌, max, Bool, true, false, ◌||◌, Option, none, some, List, [], ◌∷◌, String,
  ltb, leb, if◌then◌else◌,
}
use audio_block_backend.Indexer.Events.{InsertIndexedEvent, Store, Save, upsert_event}
use audio_block_backend.Indexer.Cursors.{
  IndexerCursor, get_cursor, record_progress, BackfillStatus, is_backfill_completed,
  update_backfill_progress, complete_backfill,
}
use audio_block_backend.Indexer.Reader.{ContractEvent, EventsPage, EventReaderServer, fetch_events}

-- The options of a run, its decoder, and the database's answers to the saves.
pub record Options : Type 0 where
  pub contract_id : String
  pub network : String
  pub start_ledger : ℕ
  pub end_ledger : ℕ
  pub batch_size : ℕ
  pub decode : ContractEvent → Option InsertIndexedEvent
  pub db : ℕ → Save
  pub now : ℕ

-- The tables, and the state of the run.
pub record State : Type 0 where
  pub store : Store
  pub cursors : List IndexerCursor
  pub backfills : List BackfillStatus
  pub imported : ℕ
  pub current_ledger : ℕ

pub data Outcome : Type 0 where
  finished threw : State → Outcome
  unfinished : Outcome

module _ (server : EventReaderServer) (o : Options) where
  -- The events that are decoded are saved, and those saved are counted; an error is passed over.
  unfoldable pub import_events : List ContractEvent → Store → ℕ × Store
  import_events [] st = (0, st)
  import_events (ev ∷ events) st = elim (o.decode ev) [
    | none ↦ import_events events st
    | some dto ↦
        let (row, st') = upsert_event o.db o.now dto st in
        let (n, st'') = import_events events st' in (elim row [ none ↦ n | some r ↦ suc n ], st'')
  ]

  unfoldable pub highest : ℕ → List ContractEvent → ℕ
  highest top [] = top
  highest top (ev ∷ events) = highest (max top ev.ledger) events

  unfoldable pub process_batch : EventsPage → ℕ → State → State
  unfolding import_events highest
  process_batch page next_start s =
      let (n, store) = import_events page.events s.store in
      let current = max s.current_ledger (highest s.current_ledger page.events) in
      record {
        store = store;
        cursors =
            record_progress o.contract_id o.network (max current (next_start - 1)) n none s.cursors;
        backfills = update_backfill_progress o.contract_id o.network (s.imported + n) s.backfills;
        imported = s.imported + n;
        current_ledger = current;
      }

  unfoldable pub next_from : ℕ → EventsPage → ℕ
  unfolding highest
  next_from from page =
      let top = highest (from - 1) page.events in
      if leb from top then top + 1 else from + o.batch_size

  -- The number of pages in a row that brought no new ledger.
  unfoldable pub next_stale : ℕ → ℕ → EventsPage → ℕ
  unfolding highest
  next_stale from stale page = if ltb (highest (from - 1) page.events) from then stale + 1 else 0

  unfoldable pub stops : ℕ → ℕ → EventsPage → Bool
  unfolding next_from next_stale
  stops from stale page =
      leb 3 (next_stale from stale page) || ltb o.end_ledger (next_from from page)

  unfoldable pub fetch_range : ℕ → Option EventsPage
  fetch_range from =
      fetch_events server (o.contract_id ∷ []) none (some from) (some o.end_ledger)
        (some o.batch_size)

  unfoldable pub fetch_all_in_range : ℕ → ℕ → ℕ → State → Outcome
  unfolding fetch_range process_batch next_from next_stale stops
  fetch_all_in_range zero from stale s = unfinished
  fetch_all_in_range (suc fuel) from stale s = elim (ltb o.end_ledger from) [
    | true ↦ finished s
    | false ↦ elim (fetch_range from) [
      | none ↦ threw s
      | some page ↦
          let s' = process_batch page (next_from from page) s in
          elim (stops from stale page) [
            | true ↦ finished s'
            | false ↦ fetch_all_in_range fuel (next_from from page) (next_stale from stale page) s'
          ]
    ]
  ]

  unfoldable pub finalize : Outcome → Outcome
  finalize (finished s) =
      finished (record s { backfills = complete_backfill o.contract_id o.network s.backfills })
  finalize (threw s) = threw s
  finalize unfinished = unfinished

  unfoldable pub run_from : ℕ → ℕ → State → Outcome
  unfolding fetch_all_in_range finalize
  run_from fuel from s =
      finalize
        (fetch_all_in_range fuel from 0 (record s { imported = 0; current_ledger = from - 1 }))

  unfoldable pub run : ℕ → State → Outcome
  unfolding run_from
  run fuel s =
      let (cursor, cursors) = get_cursor o.contract_id o.network s.cursors in
      let resumed =
        run_from fuel (max o.start_ledger (cursor.last_processed_ledger + 1))
          (record s { cursors = cursors }) in
      if is_backfill_completed o.contract_id o.network s.backfills then threw s else resumed
