-- ===== src/Indexer/Cursors.antt =====
-- src/services/IndexerService.ts over the tables of IndexerCursor and BackfillStatus. The gauges and
-- counters for Prometheus are left out but for the lag, which is computed here; `now` is the time.
pub mod Progress
pub mod Backfill
use audio_block_backend.Base.{
  ℕ, ◌+◌, ◌-◌, Bool, true, false, ◌&&◌, Option, none, some, List, map, String, if◌then◌else◌,
  find_row, save_row, str_eq,
}

pub record IndexerCursor : Type 0 where
  pub contract_id : String
  pub network : String
  pub last_processed_ledger : ℕ
  pub last_processed_event_id : Option String
  pub events_processed : ℕ
  pub error_count : ℕ
  pub last_error : Option String
  pub last_error_at : Option ℕ

abbrev pub is_cursor : String → String → IndexerCursor → Bool
is_cursor contract_id network c = str_eq contract_id c.contract_id && str_eq network c.network

unfoldable pub new_cursor : String → String → IndexerCursor
new_cursor contract_id network = record {
  contract_id = contract_id;
  network = network;
  last_processed_ledger = 0;
  last_processed_event_id = none;
  events_processed = 0;
  error_count = 0;
  last_error = none;
  last_error_at = none;
}

-- The cursor, and the table with it.
unfoldable pub get_cursor :
    String → String → List IndexerCursor → IndexerCursor × List IndexerCursor
get_cursor contract_id network rows = elim (find_row (is_cursor contract_id network) rows) [
  | some c ↦ (c, rows)
  | none ↦
      let c = new_cursor contract_id network in (c, save_row (is_cursor contract_id network) c rows)
]

unfoldable pub save_cursor : IndexerCursor → List IndexerCursor → List IndexerCursor
save_cursor c rows = save_row (is_cursor c.contract_id c.network) c rows

unfoldable pub record_progress :
    String → String → ℕ → ℕ → Option String → List IndexerCursor → List IndexerCursor
unfolding get_cursor save_cursor new_cursor
record_progress contract_id network ledger event_count event_id rows =
    let (c, rows') = get_cursor contract_id network rows in
    save_cursor
      (record c {
        last_processed_ledger = ledger;
        last_processed_event_id = elim event_id [
          | none ↦ c.last_processed_event_id
          | some e ↦ some e
        ];
        events_processed = c.events_processed + event_count;
      })
      rows'

unfoldable pub record_error : String → String → String → ℕ → List IndexerCursor → List IndexerCursor
unfolding get_cursor save_cursor new_cursor
record_error contract_id network message now rows =
    let (c, rows') = get_cursor contract_id network rows in
    save_cursor
      (record c {
        error_count = c.error_count + 1;
        last_error = some message;
        last_error_at = some now;
      })
      rows'

unfoldable pub advance_cursor : String → String → ℕ → List IndexerCursor → List IndexerCursor
unfolding record_progress
advance_cursor contract_id network ledger rows =
    record_progress contract_id network ledger 0 none rows

-- `Math.max(0, current - last)`
unfoldable pub lag : ℕ → IndexerCursor → ℕ
lag current c = current - c.last_processed_ledger

unfoldable pub update_lag_metrics : ℕ → List IndexerCursor → List (String × String × ℕ)
unfolding lag
update_lag_metrics current rows = map (λ c. (c.network, c.contract_id, lag current c)) rows

pub record BackfillStatus : Type 0 where
  pub contract_id : String
  pub network : String
  pub completed : Bool
  pub start_ledger : Option ℕ
  pub end_ledger : Option ℕ
  pub events_imported : ℕ
  pub error_message : Option String

abbrev pub is_backfill : String → String → BackfillStatus → Bool
is_backfill contract_id network b = str_eq contract_id b.contract_id && str_eq network b.network

unfoldable pub get_backfill_status : String → String → List BackfillStatus → Option BackfillStatus
get_backfill_status contract_id network rows = find_row (is_backfill contract_id network) rows

unfoldable pub is_backfill_completed : String → String → List BackfillStatus → Bool
unfolding get_backfill_status
is_backfill_completed contract_id network rows =
    elim (get_backfill_status contract_id network rows) [ none ↦ false | some b ↦ b.completed ]

unfoldable pub save_backfill : BackfillStatus → List BackfillStatus → List BackfillStatus
save_backfill b rows = save_row (is_backfill b.contract_id b.network) b rows

-- The record as it stands at the start of a run.
unfoldable pub started : String → String → ℕ → ℕ → BackfillStatus
started contract_id network start_ledger end_ledger = record {
  contract_id = contract_id;
  network = network;
  completed = false;
  start_ledger = some start_ledger;
  end_ledger = some end_ledger;
  events_imported = 0;
  error_message = none;
}

-- `none` where it throws: a completed backfill is not started again.
unfoldable pub start_backfill :
    String → String → ℕ → ℕ → List BackfillStatus → Option (List BackfillStatus)
unfolding is_backfill_completed save_backfill started
start_backfill contract_id network start_ledger end_ledger rows =
    if is_backfill_completed contract_id network rows
    then none
    else some (save_backfill (started contract_id network start_ledger end_ledger) rows)

-- Load the record, if there is one, change it and save it.
unfoldable pub change_backfill :
    String → String → (BackfillStatus → BackfillStatus) → List BackfillStatus → List BackfillStatus
unfolding get_backfill_status save_backfill
change_backfill contract_id network change rows =
    elim (get_backfill_status contract_id network rows) [
      | none ↦ rows
      | some b ↦ save_backfill (change b) rows
    ]

unfoldable pub update_backfill_progress :
    String → String → ℕ → List BackfillStatus → List BackfillStatus
unfolding change_backfill
update_backfill_progress contract_id network events_imported rows =
    change_backfill contract_id network (λ b. record b { events_imported = events_imported }) rows

unfoldable pub complete_backfill : String → String → List BackfillStatus → List BackfillStatus
unfolding change_backfill
complete_backfill contract_id network rows =
    change_backfill contract_id network (λ b. record b { completed = true }) rows

unfoldable pub fail_backfill : String → String → String → List BackfillStatus → List BackfillStatus
unfolding change_backfill
fail_backfill contract_id network message rows =
    change_backfill contract_id network (λ b. record b { error_message = some message }) rows
