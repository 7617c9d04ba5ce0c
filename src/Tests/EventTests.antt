-- ===== src/Tests/EventTests.antt =====
-- services/IndexedEventService.ts and services/IndexerService.ts on small tables.
use audio_block_backend.Base.{
  ◌+◌, ◌≡◌, refl, sym, ap, true, none, some, [], ◌∷◌, String, find_row, str_eq,
}
use audio_block_backend.Indexer.Events.{
  InsertIndexedEvent, IndexedEvent, Store, Save, saved, failed, upsert_event, event_of,
}
use audio_block_backend.Indexer.Events
use audio_block_backend.Indexer.Events.Dedup.{
  IsDeduped, upsert_event-IsDeduped, upsert_event_idempotent,
}
use audio_block_backend.Indexer.Cursors.{
  IndexerCursor, is_cursor, record_progress, record_error, BackfillStatus, get_backfill_status,
}
use audio_block_backend.Indexer.Cursors.Progress.{current, current-record_progress, record-other}
use audio_block_backend.Indexer.Cursors.Backfill.{
  starts, imports, completes, fails, run, last_status, run-last_status, IsDone, completed_forever,
}

abbrev minted : InsertIndexedEvent
minted = record {
  network = none;
  contract_id = some "C1";
  contract_type = some "nft";
  event_type = "mint";
  event_id = some "e1";
  address = none;
  tx_hash = some "aa";
  ledger = some 7;
  payload = none;
  old_data = none;
}

abbrev stored : Store
stored = record { rows = []; next_seq = 1; saves = 0 }

upsert_event-IsDeduped_example : IsDeduped (upsert_event (λ _. saved) 5 minted stored).1.rows
upsert_event-IsDeduped_example = upsert_event-IsDeduped (λ _. saved) 5 minted stored tt

upsert_event_idempotent_test :
    (e : IndexedEvent) × (upsert_event
        (λ _. failed)
        9
        minted
        (upsert_event (λ _. saved) 5 minted stored).1
      ≡ (some e, (upsert_event (λ _. saved) 5 minted stored).1))
unfolding Events.upsert_event Events.find_one Events.insert_new
upsert_event_idempotent_test =
    upsert_event_idempotent (λ _. saved) (λ _. failed) 5 9 minted stored (event_of minted 1 5) refl

abbrev at_six : IndexerCursor
at_six = record {
  contract_id = "C1";
  network = "testnet";
  last_processed_ledger = 6;
  last_processed_event_id = none;
  events_processed = 2;
  error_count = 0;
  last_error = none;
  last_error_at = none;
}

current-record_progress_test :
    let x = current "C1" "testnet" (at_six ∷ []) in
    current "C1" "testnet" (record_progress "C1" "testnet" 9 3 none (at_six ∷ [])) ≡ record x {
      last_processed_ledger = 9;
      last_processed_event_id = x.last_processed_event_id;
      events_processed = x.events_processed + 3;
    }
current-record_progress_test = current-record_progress "C1" "testnet" 9 3 none (at_six ∷ [])

other_contract : ◌≡◌ {A = String} "C2" "C1" × ◌≡◌ {A = String} "testnet" "testnet" → ⊥
other_contract (e, _) = cc (sym (ap (λ s. str_eq s "C1") e))

record-other_test :
    (find_row (is_cursor "C1" "testnet") (record_progress "C2" "testnet" 9 3 none (at_six ∷ []))
      ≡ find_row (is_cursor "C1" "testnet") (at_six ∷ []))
    × (find_row (is_cursor "C1" "testnet") (record_error "C2" "testnet" "timeout" 5 (at_six ∷ []))
        ≡ find_row (is_cursor "C1" "testnet") (at_six ∷ []))
record-other_test =
    record-other "C2" "testnet" "C1" "testnet" "timeout" 9 3 5 none (at_six ∷ []) other_contract

abbrev done_backfill : BackfillStatus
done_backfill = record {
  contract_id = "C1";
  network = "testnet";
  completed = true;
  start_ledger = some 1;
  end_ledger = some 9;
  events_imported = 4;
  error_message = none;
}

run-last_status_test :
    let calls = starts 1 9 ∷ imports 4 ∷ completes ∷ [] in
    get_backfill_status "C1" "testnet" (run "C1" "testnet" calls [])
    ≡ last_status "C1" "testnet" calls (get_backfill_status "C1" "testnet" [])
run-last_status_test = run-last_status "C1" "testnet" (starts 1 9 ∷ imports 4 ∷ completes ∷ []) []

completed_forever_test : IsDone (some 1) (some 9) (
    get_backfill_status "C1" "testnet"
      (run "C1" "testnet" (starts 20 30 ∷ fails "x" ∷ []) (done_backfill ∷ [])))
unfolding get_backfill_status find_row
completed_forever_test =
    completed_forever "C1" "testnet" (some 1) (some 9) (starts 20 30 ∷ fails "x" ∷ [])
      (done_backfill ∷ []) (refl, refl, refl)
