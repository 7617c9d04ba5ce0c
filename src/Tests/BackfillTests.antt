-- ===== src/Tests/BackfillTests.antt =====
-- services/Soroban/BackfillService.ts over a server that has no events.
use audio_block_backend.Base.{refl, none, some, [], arith, find_row}
use audio_block_backend.Indexer.Events.{saved}
use audio_block_backend.Indexer.Cursors.{get_backfill_status}
use audio_block_backend.Indexer.Reader.{EventReaderServer}
use audio_block_backend.Indexer.Backfill.{Options, State, run}
use audio_block_backend.Indexer.Backfill.Range.{EndsIn, IsUnmarked, run_ends, run-IsUnmarked}

abbrev quiet : EventReaderServer
quiet = record {
  get_events = λ _. some (record { events = []; cursor = none; latest_ledger = 9 });
  get_latest_ledger = some 9;
}

abbrev options : Options
options = record {
  contract_id = "C1";
  network = "testnet";
  start_ledger = 1;
  end_ledger = 5;
  batch_size = 2;
  decode = λ _. none;
  db = λ _. saved;
  now = 10;
}

abbrev before : State
before = record {
  store = record { rows = []; next_seq = 1; saves = 0 };
  cursors = [];
  backfills = [];
  imported = 0;
  current_ledger = 0;
}

run_ends_example : EndsIn quiet options (λ _. Unit) (run quiet options 6 before)
run_ends_example = run_ends quiet options 6 before (omega arith) (omega arith)

run-IsUnmarked_example :
    EndsIn quiet options (IsUnmarked quiet options) (run quiet options 6 before)
unfolding get_backfill_status find_row
run-IsUnmarked_example = run-IsUnmarked quiet options 6 before (omega arith) (omega arith) refl
