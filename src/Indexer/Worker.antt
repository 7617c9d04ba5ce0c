-- ===== src/Indexer/Worker.antt =====
-- src/workers/indexer/IndexerWorker.ts: one poll cycle of one contract. The timers of `start` and
-- the log are left out.
pub mod Flush
pub mod Persist
pub mod Poll
use audio_block_backend.Base.{
  ℕ, zero, suc, ◌+◌, ◌-◌, ◌*◌, ◌/◌, ◌%◌, ◌^◌, ◌≤◌, ◌<◌, min, max, compare, Ordering, ◌≡◌, refl, sym,
  ap, ◌∙◌, subst, fun_ext, ◌≢◌, ◌↔◌, ◌⊎◌, inl, inr, Bool, true, false, not, ◌&&◌, ◌||◌, Option,
  none, some, List, [], ◌∷◌, ◌++◌, map, append-nil, append_assoc, arith, String, eq_iff, ltb, leb,
  ◌==◌, if◌then◌else◌, ltb→lt, lt→ltb, leb→le, ==_iff, tests, Bool-cases, Option-cases, List-cases,
  or-false_right, some_unique, Outcome, Ensures, refuse, ◌>>=◌, >>=-ok_inv, ◌>>◌, >>=-Ensures,
  refuse-Ensures, Ensures-ok, Ensures-weaken, find_row, save_row, select_rows, delete_rows,
  count_rows, find_row_fits, find_row-save_row, find_row-save_row_other, find_row-delete_rows,
  find_row-delete_rows_other, find_row-append, find_row-append_some, count_rows-append,
  count_option, count_rows-save_row, select_rows-append, select_rows-delete_rows_other,
  select_rows-map_other, find_row-map, count_rows-map, count_rows-delete_rows, count_rows-none,
  delete_rows-append, find_row-append_other, find_row-uncounted, save_row-append, str_eq,
  str_eq_refl, ◌+s◌, non_empty, or_text, or_else, decimal, join_with, length, get_elem?, set,
  length-append, length-set, get_elem?-set_self, get_elem?-set_ne, get_or, take, drop, replicate,
  take-append-drop, length-take, length-drop, length-replicate, length-map, take-eq_self, trim, ok,
  err, gives, throws,
}
use audio_block_backend.Indexer.Queue.{Queue}
use audio_block_backend.Indexer.Queue
use audio_block_backend.Indexer.Guard.{ReorgGuard, update_cursor}
use audio_block_backend.Indexer.Events.{IndexedEvent, InsertIndexedEvent, Store, Save, upsert_event}
use audio_block_backend.Indexer.Cursors.{IndexerCursor, record_progress}
use audio_block_backend.Indexer.Reader.{ContractEvent, EventsPage}

pub record IndexerContract : Type 0 where
  pub contract_type : String
  pub contract_id : String
  pub decode : ContractEvent → Option InsertIndexedEvent

-- What a cycle runs in: the configuration, the database's answers to the saves of events, to those of
-- the cursor (one at most for each page of the cycle, by its number) and to that of an error, the
-- time, whether `stop` has been called when a number of pages has been drained, and the message of an
-- error that is thrown.
pub record Env : Type 0 where
  pub network : String
  pub page_size : ℕ
  pub max_queue_size : ℕ
  pub write_batch_size : ℕ
  pub db : ℕ → Save
  pub cursor_saved : ℕ → Bool
  pub error_saved : Bool
  pub now : ℕ
  pub stopped : ℕ → Bool
  pub failure : String

-- The tables, the worker's guard for the contract and its depth gauge, the queue at hand, and the
-- counters of the call at hand.
pub record State : Type 0 where
  pub store : Store
  pub cursors : List IndexerCursor
  pub guard : ReorgGuard
  pub queue_depth : ℕ
  pub queue : Queue InsertIndexedEvent
  pub processed : ℕ
  pub skipped : ℕ
  pub errors : ℕ

-- `persistProgress` returns, or throws the error of the save of the cursor.
pub data Persisting : Type 0 where
  returned : State → Persisting
  thrown : State → Persisting

unfoldable pub counted : Option IndexedEvent → Store → State → State
counted none store s = record s { store = store; errors = s.errors + 1 }
counted (some row) store s = record s { store = store; processed = s.processed + 1 }

module _ (env : Env) where
  -- The body of the inner loop of `flushQueue`: an error is counted and does not stop the batch.
  unfoldable pub write_one : InsertIndexedEvent → State → State
  unfolding counted
  write_one dto s =
      let (row, store) = upsert_event env.db env.now dto s.store in counted row store s

  unfoldable pub write_batch : List InsertIndexedEvent → State → State
  write_batch [] s = s
  write_batch (dto ∷ batch) s = write_batch batch (write_one dto s)

  unfoldable pub flush_round : State → State
  unfolding write_batch
  flush_round s =
      let (batch, q) = Queue.dequeue_batch env.write_batch_size s.queue in
      let s' = write_batch batch (record s { queue = q }) in
      record s' { queue_depth = Queue.size q }

  -- `none`: the queue is not empty when the rounds are used up.
  unfoldable pub flush_loop : ℕ → State → Option State
  unfolding flush_round
  flush_loop zero s = if Queue.is_empty s.queue then some s else none
  flush_loop (suc n) s =
      let rest = flush_loop n (flush_round s) in if Queue.is_empty s.queue then some s else rest

  -- A round takes at least one item, so there are at most as many rounds as items.
  unfoldable pub flush_queue : State → Option State
  unfolding flush_loop
  flush_queue s = flush_loop (length s.queue.items) s

  unfoldable pub push_one : InsertIndexedEvent → State → State
  push_one dto s =
      let q = (Queue.try_enqueue dto s.queue).0 in
      record s { queue = q; queue_depth = Queue.size q }

  -- Where the queue is full it is flushed first.
  unfoldable pub buffer_one : InsertIndexedEvent → State → Option State
  unfolding flush_queue push_one
  buffer_one dto s =
      if Queue.is_full s.queue
      then elim (flush_queue s) [ none ↦ none | some t ↦ some (push_one dto t) ]
      else some (push_one dto s)

  unfoldable pub buffer_events :
      (ContractEvent → Option InsertIndexedEvent) → List ContractEvent → State → Option State
  unfolding buffer_one
  buffer_events decode [] s = some s
  buffer_events decode (ev ∷ events) s = elim (decode ev) [
    | none ↦ buffer_events decode events (record s { skipped = s.skipped + 1 })
    | some dto ↦ elim (buffer_one dto s) [ none ↦ none | some t ↦ buffer_events decode events t ]
  ]

  -- `page.events.reduce((max, ev) => Math.max(max, ev.ledger), prevLedger)`
  unfoldable pub highest_ledger : ℕ → List ContractEvent → ℕ
  highest_ledger top [] = top
  highest_ledger top (ev ∷ events) = highest_ledger (max top ev.ledger) events

  -- A save of the cursor that fails is thrown, before the guard is updated.
  unfoldable pub advance : IndexerContract → ℕ → Bool → List ContractEvent → State → Persisting
  unfolding highest_ledger
  advance contract prev_ledger saves events s =
      let highest = highest_ledger prev_ledger events in
      if ltb 0 s.processed || ltb prev_ledger highest
      then (if saves
          then returned (record s {
            cursors =
                record_progress contract.contract_id env.network highest s.processed none s.cursors;
            guard = update_cursor highest s.guard;
          })
          else thrown s)
      else returned s

  -- The queue is the one in the state, shared or fresh.
  unfoldable pub persist_progress :
      IndexerContract → EventsPage → ℕ → Bool → State → Option Persisting
  unfolding buffer_events flush_queue advance
  persist_progress contract page prev_ledger saves s =
      elim (buffer_events contract.decode page.events
        (record s { processed = 0; skipped = 0; errors = 0 })) [
          | none ↦ none
          | some t ↦ elim (flush_queue t) [
            | none ↦ none
            | some u ↦ some (advance contract prev_ledger saves page.events u)
          ]
        ]
