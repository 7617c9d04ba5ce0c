-- ===== src/Indexer/Worker/Poll.antt =====
-- IndexerWorker.pollOnce: the first page of the ledger range, the pages behind it by their cursors,
-- and what is recorded when the server or the save of the cursor throws.
pub mod Trail
pub mod Drain
pub mod Outcomes
pub mod Initial
pub mod Progress
use audio_block_backend.Base.{
  ℕ, zero, suc, ◌+◌, ◌-◌, ◌*◌, ◌/◌, ◌%◌, ◌^◌, ◌≤◌, ◌<◌, min, max, compare, Ordering, ◌≡◌, refl, sym,
  ap, ◌∙◌, subst, fun_ext, ◌≢◌, ◌↔◌, ◌⊎◌, inl, inr, Bool, true, false, not, ◌&&◌, ◌||◌, Option,
  none, some, List, [], ◌∷◌, ◌++◌, map, append-nil, append_assoc, arith, String, eq_iff, ltb, leb,
  ◌==◌, if◌then◌else◌, ltb→lt, lt→ltb, leb→le, ==_iff, tests, Bool-cases, Option-cases, List-cases,
  or-false_right, some_unique, Outcome, Ensures, refuse, ◌>>=◌, >>=-ok_inv, ◌>>◌, >>=-Ensures,
  refuse-Ensures, Ensures-ok, Ensures-weaken, find_row, save_row, select_rows, delete_rows,
  count_rows, find_row_fits, find_row-save_row, find_row-save_row_other, find_row-delete_rows,
  find_row-delete_rows_other, find_row-append, find_row-append_some, count_rows-append,
  count_option, count_rows-save_row, select_rows-append, select_rows-delete_rows_other,
  select_rows-map_other, find_row-map, count_rows-map, count_rows-delete_rows, count_rows-none,
  delete_rows-append, find_row-append_other, find_row-uncounted, save_row-append, str_eq,
  str_eq_refl, ◌+s◌, non_empty, or_text, or_else, decimal, join_with, length, get_elem?, set,
  length-append, length-set, get_elem?-set_self, get_elem?-set_ne, get_or, take, drop, replicate,
  take-append-drop, length-take, length-drop, length-replicate, length-map, take-eq_self, trim, ok,
  err, gives, throws,
}
use audio_block_backend.Indexer.Queue.{Queue}
use audio_block_backend.Indexer.Queue
use audio_block_backend.Indexer.Guard.{set_cursor, get_overlap_start}
use audio_block_backend.Indexer.Events.{InsertIndexedEvent}
use audio_block_backend.Indexer.Cursors.{get_cursor, record_error}
use audio_block_backend.Indexer.Reader.{EventsPage, EventReaderServer, fetch_events}
use audio_block_backend.Indexer.Worker.{
  IndexerContract, Env, State, returned, thrown, flush_queue, persist_progress,
}

-- The local variables of `drainPages` and `pollInitialPage`.
pub record Tally : Type 0 where
  pub fetched : ℕ
  pub processed : ℕ
  pub skipped : ℕ
  pub errors : ℕ
  pub cursor : Option String

abbrev pub no_tally : Tally
no_tally = record { fetched = 0; processed = 0; skipped = 0; errors = 0; cursor = none }

-- A part of a cycle returns, throws, or is still running when the fuel is used up.
pub data Run : Type 0 where
  done : Tally → State → Run
  threw : State → Run
  unfinished : Run

pub record PollOutcome : Type 0 where
  pub contract_type : String
  pub events_fetched : ℕ
  pub events_processed : ℕ
  pub events_skipped : ℕ
  pub errors : ℕ
  pub cursor : Option String
  pub latest_ledger : ℕ

abbrev pub contains : List String → String → Bool
contains [] c = false
contains (x ∷ xs) c = str_eq x c || contains xs c

-- `new BoundedEventQueue(this.maxQueueSize)`
unfoldable pub fresh_queue : ℕ → State → Option State
fresh_queue max_size s = elim (Queue.make {A = InsertIndexedEvent} max_size) [
  | none ↦ none
  | some q ↦ some (record s { queue = q })
]

unfoldable pub add_page : EventsPage → State → Tally → Tally
add_page page s t = record {
  fetched = t.fetched + length page.events;
  processed = t.processed + s.processed;
  skipped = t.skipped + s.skipped;
  errors = t.errors + s.errors;
  cursor = elim (non_empty page.cursor) [ none ↦ t.cursor | some c ↦ some c ];
}

unfoldable pub add_flush : State → Tally → Tally
add_flush s t = record t { processed = t.processed + s.processed; errors = t.errors + s.errors }

abbrev pub zero_counts : State → State
zero_counts s = record s { processed = 0; skipped = 0; errors = 0 }

module _ (env : Env) (server : EventReaderServer) (contract : IndexerContract) where
  unfoldable pub fetch_page : String → Option EventsPage
  fetch_page cursor =
      fetch_events server (contract.contract_id ∷ []) (some cursor) none none (some env.page_size)

  unfoldable pub poll_initial_page : Option ℕ → ℕ → ℕ → State → Run
  unfolding fresh_queue add_page
  poll_initial_page none latest prev s = done no_tally s
  poll_initial_page (some start) latest prev s =
      elim (fetch_events server (contract.contract_id ∷ []) none (some start) (some latest)
        (some env.page_size)) [
          | none ↦ threw s
          | some page ↦ elim (fresh_queue env.max_queue_size s) [
            | none ↦ threw s
            | some t ↦ elim (persist_progress env contract page prev (env.cursor_saved 0) t) [
              | none ↦ unfinished
              | some r ↦ elim r [
                | returned u ↦ done (add_page page u no_tally) u
                | thrown u ↦ threw u
              ]
            ]
          ]
        ]

  -- `while (queue.isFull && !this.stopped)`: a flush empties the queue, so that one round does.
  unfoldable pub make_room : ℕ → State → Tally → Option (State × Tally)
  unfolding add_flush
  make_room pages s t =
      if Queue.is_full s.queue && not (env.stopped pages)
      then elim (flush_queue env (zero_counts s)) [
        | none ↦ none
        | some u ↦ if Queue.is_full u.queue then none else some (u, add_flush u t)
      ]
      else some (s, t)

  -- Behind the loop: what is still buffered is written.
  unfoldable pub finish : State → Tally → Run
  unfolding add_flush
  finish s t =
      if Queue.is_empty s.queue
      then done t (record s { queue_depth = Queue.size s.queue })
      else elim (flush_queue env (zero_counts s)) [
        | none ↦ unfinished
        | some u ↦ done (add_flush u t) (record u { queue_depth = Queue.size u.queue })
      ]

  -- The loop, with a round for each page; `seen` are the cursors that it has followed.
  unfoldable pub drain_pages : ℕ → ℕ → ℕ → Option String → List String → State → Tally → Run
  unfolding finish make_room fetch_page add_page
  drain_pages fuel pages prev none seen s t = finish s t
  drain_pages zero pages prev (some c) seen s t = unfinished
  drain_pages (suc fuel) pages prev (some c) seen s t =
      elim (env.stopped pages || contains seen c) [
        | true ↦ finish s t
        | false ↦ elim (make_room pages s t) [
          | none ↦ unfinished
          | some (s', t') ↦ elim (fetch_page c) [
            | none ↦ threw s'
            | some page ↦
                elim (persist_progress env contract page prev (env.cursor_saved (suc pages)) s') [
                  | none ↦ unfinished
                  | some r ↦ elim r [
                    | returned u ↦
                        drain_pages fuel (suc pages) prev (non_empty page.cursor) (c ∷ seen) u
                          (add_page page u t')
                    | thrown u ↦ threw u
                  ]
                ]
          ]
        ]
      ]

  unfoldable pub failed_poll : State → Tally → PollOutcome × State
  failed_poll s t = (
    record {
      contract_type = contract.contract_type;
      events_fetched = t.fetched;
      events_processed = t.processed;
      events_skipped = t.skipped;
      errors = t.errors + 1;
      cursor = t.cursor;
      latest_ledger = 0;
    },
    record s {
      cursors =
          if env.error_saved
          then record_error contract.contract_id env.network env.failure env.now s.cursors
          else s.cursors;
    },
  )

  unfoldable pub outcome_of : ℕ → Tally → Tally → PollOutcome
  outcome_of latest i d = record {
    contract_type = contract.contract_type;
    events_fetched = i.fetched + d.fetched;
    events_processed = i.processed + d.processed;
    events_skipped = i.skipped + d.skipped;
    errors = i.errors + d.errors;
    cursor = elim d.cursor [ none ↦ i.cursor | some c ↦ some c ];
    latest_ledger = latest;
  }

  -- The end of `pollOnce` after the drain: its `return`, or its `catch`.
  unfoldable pub poll_result : ℕ → Tally → Run → Option (PollOutcome × State)
  unfolding outcome_of failed_poll
  poll_result latest i (done d u) = some (outcome_of latest i d, u)
  poll_result latest i (threw u) = some (failed_poll u i)
  poll_result latest i unfinished = none

  unfoldable pub drain_after : ℕ → ℕ → ℕ → Tally → State → Option (PollOutcome × State)
  unfolding fresh_queue drain_pages poll_result
  drain_after fuel latest prev i s = elim (fresh_queue env.max_queue_size s) [
    | none ↦ some (failed_poll s i)
    | some t ↦ poll_result latest i (drain_pages fuel 0 prev i.cursor [] t no_tally)
  ]

  -- What follows the first page.
  unfoldable pub poll_after : ℕ → ℕ → ℕ → Run → Option (PollOutcome × State)
  unfolding drain_after failed_poll
  poll_after fuel latest prev (done i t) = drain_after fuel latest prev i t
  poll_after fuel latest prev (threw t) = some (failed_poll t no_tally)
  poll_after fuel latest prev unfinished = none

  -- The cycle once the tip is asked for; `none` where that throws.
  unfoldable pub poll_range : Option ℕ → ℕ → ℕ → State → Option (PollOutcome × State)
  unfolding poll_initial_page poll_after failed_poll
  poll_range none fuel prev s = some (failed_poll s no_tally)
  poll_range (some latest) fuel prev s =
      poll_after fuel latest prev
        (poll_initial_page (get_overlap_start latest s.guard) latest prev s)

  -- One cycle; `none` where the fuel is used up.
  unfoldable pub poll_once : ℕ → State → Option (PollOutcome × State)
  unfolding poll_range
  poll_once fuel s =
      let (stored, cursors) = get_cursor contract.contract_id env.network s.cursors in
      poll_range server.get_latest_ledger fuel stored.last_processed_ledger
        (record s { cursors = cursors; guard = set_cursor stored.last_processed_ledger s.guard })
