-- ===== src/Indexer/Worker/Persist.antt =====
-- IndexerWorker.persistProgress loses no event that the decoder reads, whatever the sizes of the
-- queue and of the batches.
pub mod Buffer
use audio_block_backend.Base.{
  ℕ, zero, suc, ◌+◌, ◌-◌, ◌*◌, ◌/◌, ◌%◌, ◌^◌, ◌≤◌, ◌<◌, min, max, compare, Ordering, ◌≡◌, refl, sym,
  ap, ◌∙◌, subst, fun_ext, ◌≢◌, ◌↔◌, ◌⊎◌, inl, inr, Bool, true, false, not, ◌&&◌, ◌||◌, Option,
  none, some, List, [], ◌∷◌, ◌++◌, map, append-nil, append_assoc, arith, String, eq_iff, ltb, leb,
  ◌==◌, if◌then◌else◌, ltb→lt, lt→ltb, leb→le, ==_iff, tests, Bool-cases, Option-cases, List-cases,
  or-false_right, some_unique, Outcome, Ensures, refuse, ◌>>=◌, >>=-ok_inv, ◌>>◌, >>=-Ensures,
  refuse-Ensures, Ensures-ok, Ensures-weaken, find_row, save_row, select_rows, delete_rows,
  count_rows, find_row_fits, find_row-save_row, find_row-save_row_other, find_row-delete_rows,
  find_row-delete_rows_other, find_row-append, find_row-append_some, count_rows-append,
  count_option, count_rows-save_row, select_rows-append, select_rows-delete_rows_other,
  select_rows-map_other, find_row-map, count_rows-map, count_rows-delete_rows, count_rows-none,
  delete_rows-append, find_row-append_other, find_row-uncounted, save_row-append, str_eq,
  str_eq_refl, ◌+s◌, non_empty, or_text, or_else, decimal, join_with, length, get_elem?, set,
  length-append, length-set, get_elem?-set_self, get_elem?-set_ne, get_or, take, drop, replicate,
  take-append-drop, length-take, length-drop, length-replicate, length-map, take-eq_self, trim, ok,
  err, gives, throws,
}
use audio_block_backend.Indexer.Queue.{Queue}
use audio_block_backend.Indexer.Queue
use audio_block_backend.Indexer.Cursors.{IndexerCursor, record_progress}
use audio_block_backend.Indexer.Events.{InsertIndexedEvent}
use audio_block_backend.Indexer.Reader.{ContractEvent, EventsPage}
use audio_block_backend.Indexer.Worker.{
  IndexerContract, Env, State, write_batch, highest_ledger, advance, persist_progress, Persisting,
  returned, thrown,
}
use audio_block_backend.Indexer.Worker.Flush.{
  SameWrites, SameWrites-trans, write_batch-counts, pending_of_nil, flush_queue-Flushed,
}
use audio_block_backend.Indexer.Worker.Persist.Buffer.{
  decoded, unreadable, decoded-unreadable, buffer_events-Wrote,
}

module _ (env : Env) where
  -- The counters as a call of `persistProgress` sets them at its start.
  pub start : State → State
  start s = record s { processed = 0; skipped = 0; errors = 0 }

  -- The cursor goes to the highest ledger of the page, if something was stored or it is new.
  unfoldable pub progress :
      IndexerContract → ℕ → List ContractEvent → ℕ → List IndexerCursor → List IndexerCursor
  progress contract prev events processed rows =
      let highest = highest_ledger env prev events in
      if ltb 0 processed || ltb prev highest
      then record_progress contract.contract_id env.network highest processed none rows
      else rows

  -- Something was stored or is new, so that the cursor is to be saved.
  abbrev pub is_due : ℕ → List ContractEvent → ℕ → Bool
  is_due prev events processed = ltb 0 processed || ltb prev (highest_ledger env prev events)

  -- What one call of `persistProgress` has done, from an empty queue.
  pub record Persisted (contract : IndexerContract) (page : EventsPage) (prev : ℕ) (saves : Bool)
      (s : State) (o : Option Persisting) : Type 0 where
    pub end : State
    pub returns :
        o
        ≡ some (
            if not saves && is_due prev page.events end.processed then thrown end else returned end)
    pub emptied : end.queue.items ≡ []
    pub sized : 0 < end.queue.max_size
    pub writes : SameWrites end (write_batch env (decoded contract.decode page.events) (start s))
    pub skips : end.skipped ≡ unreadable contract.decode page.events
    pub counted : end.processed + end.skipped + end.errors ≡ length page.events
    pub cursors :
        end.cursors
        ≡ (if saves then progress contract prev page.events end.processed s.cursors else s.cursors)

  -- The state that `advance` leaves.
  after : Persisting → State
  after (returned s) = s
  after (thrown s) = s

  advance_keeps :
      (contract : IndexerContract) (prev : ℕ) (saves : Bool) (events : List ContractEvent)
      (s : State)
      → let t = after (advance env contract prev saves events s) in
        (t.store ≡ s.store)
        × (t.queue ≡ s.queue)
        × (t.processed ≡ s.processed)
        × (t.skipped ≡ s.skipped)
        × (t.errors ≡ s.errors)
  unfolding advance after
  advance_keeps contract prev saves events s = ground arith

  advance_returns :
      (contract : IndexerContract) (prev : ℕ) (saves : Bool) (events : List ContractEvent)
      (s : State)
      → let t = after (advance env contract prev saves events s) in
        advance env contract prev saves events s
        ≡ (if not saves && is_due prev events t.processed then thrown t else returned t)
  unfolding advance after
  advance_returns contract prev saves events s = ground arith

  advance_cursors :
      (contract : IndexerContract) (prev : ℕ) (saves : Bool) (events : List ContractEvent)
      (s : State)
      → (after (advance env contract prev saves events s)).cursors
        ≡ (if saves then progress contract prev events s.processed s.cursors else s.cursors)
  unfolding advance progress after
  advance_cursors contract prev saves events s = ground arith

  -- With positive sizes, `persistProgress` on an empty queue ends; it throws just where the cursor
  -- is due and its save fails, and otherwise the cursor goes to the highest ledger if it is due.
  -- The table then holds what one pass over the decoded events makes of it, in their order, and
  -- each event of the page is counted exactly once: as processed, as skipped (those that the
  -- decoder does not read), or as an error.
  pub persist_progress-Persisted :
      (contract : IndexerContract) (page : EventsPage) (prev : ℕ) (saves : Bool) (s : State)
      → 0 < env.write_batch_size
      → 0 < s.queue.max_size
      → s.queue.items ≡ []
      → Persisted contract page prev saves s (persist_progress env contract page prev saves s)
  unfolding persist_progress start
  persist_progress-Persisted contract page prev saves s batch size e =
      let f =
        buffer_events-Wrote env contract.decode page.events (start s)
          (record { batch = batch; size = size; room = omega (arith, ap length e) }) in
      let g = flush_queue-Flushed env f.end batch in
      let same = SameWrites-trans g.writes f.writes in
      let (store, queue, processed, skipped, errors) =
        advance_keeps contract prev saves page.events g.end in
      let t = after (advance env contract prev saves page.events g.end) in
      let base = pending_of_nil env (start s) e in
      let all : SameWrites g.end (write_batch env (decoded contract.decode page.events) (start s)) =
        rw base at same in
      let skips : g.end.skipped ≡ unreadable contract.decode page.events =
        omega (arith, g.keeps.skipped, f.skips) in
      rw (f.returns, g.returns, persist_progress)
        (record {
          end = t;
          returns = ap some (advance_returns contract prev saves page.events g.end);
          sized = omega (
            arith,
            ap (λ (q : Queue InsertIndexedEvent). q.max_size) queue,
            g.keeps.max_size,
            f.has_room.size,
          );
          cursors =
              advance_cursors contract prev saves page.events g.end
              ∙ ap
                  (λ n.
                    if saves
                    then progress contract prev page.events n g.end.cursors
                    else g.end.cursors)
                  (sym processed)
              ∙ ap
                  (λ rows.
                    if saves then progress contract prev page.events t.processed rows else rows)
                  (g.keeps.cursors ∙ f.cursors);
          emptied = ap (λ (q : Queue InsertIndexedEvent). q.items) queue ∙ g.emptied;
          writes = record {
            store = store ∙ all.store;
            processed = processed ∙ all.processed;
            errors = errors ∙ all.errors;
          };
          skips = skipped ∙ skips;
          counted = omega (
            arith,
            processed,
            skipped,
            errors,
            all.processed,
            all.errors,
            skips,
            write_batch-counts env (decoded contract.decode page.events) (start s),
            decoded-unreadable contract.decode page.events,
          );
        })
