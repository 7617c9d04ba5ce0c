-- ===== src/Tests/IndexerTests.antt =====
-- workers/indexer/IndexerWorker.ts: a server whose pages lead back to the same cursor, with a queue
-- of two and batches of one.
use audio_block_backend.Base.{
  ℕ, ◌≡◌, refl, ap, ◌∙◌, subst, true, false, none, some, List, [], ◌∷◌, map, arith, String,
  if◌then◌else◌, some_unique, str_eq, non_empty,
}
use audio_block_backend.Indexer.Events.{InsertIndexedEvent, Save, saved, failed}
use audio_block_backend.Indexer.Reader.{
  RawEvent, ContractEvent, EventsPage, Response, EventReaderServer, fetch_events, page_of,
  normalized, normalize_event, keep_contract,
}
use audio_block_backend.Indexer.Worker.{
  IndexerContract, Env, State, returned, flush_queue, persist_progress, highest_ledger,
}
use audio_block_backend.Indexer.Worker.Flush.{Flushed, flush_queue-Flushed}
use audio_block_backend.Indexer.Worker.Persist.{Persisted, persist_progress-Persisted}
use audio_block_backend.Indexer.Worker.Poll.{fetch_page, drain_pages, no_tally, contains}
use audio_block_backend.Indexer.Worker.Poll.Drain.{LeadsTo, Settled, drain_pages_ends}
use audio_block_backend.Indexer.Worker.Poll.Progress.{persist_progress_passes_failures}
use audio_block_backend.Indexer.Cursors.Progress.{current}

abbrev raw : String → ℕ → RawEvent
raw id ledger = record {
  id = some id;
  ledger = some ledger;
  tx_hash = some "aa";
  contract_id = some "C1";
  native = some ("mint" ∷ [], "1");
}

-- One event is unreadable, since it has no ledger.
abbrev answer : Response
answer = record {
  events = raw "e1" 7 ∷ record (raw "e2" 8) { ledger = none } ∷ raw "e3" 9 ∷ raw "e4" 9 ∷ [];
  cursor = some "c1";
  latest_ledger = 20;
}

abbrev cycling : EventReaderServer
cycling = record { get_events = λ _. some answer; get_latest_ledger = some 20 }

abbrev dto_of : ContractEvent → InsertIndexedEvent
dto_of ev = record {
  network = some "testnet";
  contract_id = ev.contract_id;
  contract_type = some "nft";
  event_type = "mint";
  event_id = some ev.id;
  address = none;
  tx_hash = some ev.tx_hash;
  ledger = some ev.ledger;
  payload = some ev.value;
  old_data = none;
}

abbrev contract : IndexerContract
contract = record {
  contract_type = "nft";
  contract_id = "C1";
  decode = λ ev. if str_eq ev.id "e4" then none else some (dto_of ev);
}

abbrev env_of : Save → Env
env_of save = record {
  network = "testnet";
  page_size = 200;
  max_queue_size = 2;
  write_batch_size = 1;
  db = λ _. save;
  cursor_saved = λ _. true;
  error_saved = true;
  now = 1000;
  stopped = λ _. false;
  failure = "timeout";
}

abbrev idle : State
idle = record {
  store = record { rows = []; next_seq = 1; saves = 0 };
  cursors = [];
  guard = record { cursor = some 5; config = record { overlap_window = 10; gap_threshold = 100 } };
  queue_depth = 0;
  queue = record { max_size = 2; items = []; waiters = []; woken = [] };
  processed = 0;
  skipped = 0;
  errors = 0;
}

abbrev known : List String
known = "c1" ∷ []

abbrev page : EventsPage
page = record {
  events =
      record {
        id = "e1";
        ledger = 7;
        tx_hash = "aa";
        contract_id = some "C1";
        topic = "mint" ∷ [];
        value = "1";
      }
      ∷ record {
        id = "e3";
        ledger = 9;
        tx_hash = "aa";
        contract_id = some "C1";
        topic = "mint" ∷ [];
        value = "1";
      }
      ∷ record {
        id = "e4";
        ledger = 9;
        tx_hash = "aa";
        contract_id = some "C1";
        topic = "mint" ∷ [];
        value = "1";
      }
      ∷ [];
  cursor = "c1";
  latest_ledger = 20;
}

fetch_test : fetch_events cycling ("C1" ∷ []) (some "c1") none none (some 200) ≡ some page
unfolding fetch_events page_of normalized normalize_event keep_contract
fetch_test = refl

-- Every page that the server gives leads to the known cursor.
known_cursor :
    (ids : List String) (p : EventsPage) (c : String)
    → some (page_of ids answer) ≡ some p
    → non_empty p.cursor ≡ some c
    → contains known c ≡ true
unfolding page_of
known_cursor ids p c e f =
    let same : page_of ids answer ≡ p = some_unique _ refl e in
    let here : "c1" ≡ c =
      some_unique (some "c1") refl (ap (λ (q : EventsPage). non_empty q.cursor) same ∙ f) in
    subst (λ x. contains known x ≡ true) here refl

leads : LeadsTo (env_of saved) cycling contract known
unfolding fetch_page fetch_events
leads c c' p e f = known_cursor (contract.contract_id ∷ []) p c' e f

drain_pages_ends_test :
    Settled
      (env_of saved)
      cycling
      contract
      0
      (some "c1")
      []
      no_tally
      (drain_pages (env_of saved) cycling contract 2 0 5 (some "c1") [] idle no_tally)
drain_pages_ends_test =
    drain_pages_ends (env_of saved) cycling contract known 2 5 (some "c1") idle leads
      (λ c e. subst (λ x. contains known x ≡ true) (some_unique _ refl e) refl) (omega arith)
      (record { batch = omega arith; size = omega arith; empty = refl })

persist_progress-Persisted_example :
    Persisted
      (env_of saved)
      contract
      page
      5
      true
      idle
      (persist_progress (env_of saved) contract page 5 true idle)
persist_progress-Persisted_example =
    persist_progress-Persisted (env_of saved) contract page 5 true idle (omega arith) (omega arith)
      refl

abbrev buffered : State
buffered = record idle {
  queue = record { max_size = 2; items = map dto_of page.events; waiters = []; woken = [] };
}

flush_queue-Flushed_test : Flushed (env_of saved) buffered (flush_queue (env_of saved) buffered)
flush_queue-Flushed_test = flush_queue-Flushed (env_of saved) buffered (omega arith)

persist_progress_passes_failures_example :
    (t : State) × (persist_progress (env_of failed) contract page 5 true idle ≡ some (returned t))
    × ((current "C1" "testnet" t.cursors).last_processed_ledger
        ≡ highest_ledger (env_of failed) 5 page.events)
unfolding highest_ledger
persist_progress_passes_failures_example =
    persist_progress_passes_failures (env_of failed) contract page 5 true idle (omega arith)
      (omega arith) refl (omega arith)
