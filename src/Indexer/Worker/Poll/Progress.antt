-- ===== src/Indexer/Worker/Poll/Progress.antt =====
-- A whole cycle of IndexerWorker.pollOnce.
use audio_block_backend.Base.{
  ℕ, ◌<◌, ◌≡◌, ap, ◌∙◌, Bool, true, false, none, some, List, [], arith, if◌then◌else◌,
}
use audio_block_backend.Indexer.Cursors.{IndexerCursor, record_progress}
use audio_block_backend.Indexer.Cursors.Progress.{current, current-record_progress}
use audio_block_backend.Indexer.Reader.{ContractEvent, EventsPage}
use audio_block_backend.Indexer.Worker.{
  IndexerContract, Env, State, highest_ledger, persist_progress, returned, thrown,
}
use audio_block_backend.Indexer.Worker.Persist.{persist_progress-Persisted, progress, is_due}

progress_moves :
    (env : Env) (contract : IndexerContract) (prev n : ℕ) (events : List ContractEvent)
    (rows : List IndexerCursor)
    → prev < highest_ledger env prev events
    → progress env contract prev events n rows
      ≡ record_progress contract.contract_id env.network
          (highest_ledger env prev events)
          n
          none
          rows
unfolding progress
progress_moves env contract prev n events rows h = ground arith

lost_of_beyond :
    (env : Env) (prev : ℕ) (events : List ContractEvent) (t : State)
    → prev < highest_ledger env prev events
    → some (if is_due env prev events t.processed then thrown t else returned t) ≡ some (thrown t)
lost_of_beyond env prev events t h = ground arith

-- With positive sizes and an empty queue, a page with an event beyond the cursor moves the cursor
-- to the page's highest ledger whatever the database answers to the saves of the events, failures of
-- all of them included, if it takes the save of the cursor; if not, the call throws and the cursor
-- stays.
pub persist_progress_passes_failures :
    (env : Env) (contract : IndexerContract) (page : EventsPage) (prev : ℕ) (saves : Bool)
    (s : State)
    → 0 < env.write_batch_size
    → 0 < s.queue.max_size
    → s.queue.items ≡ []
    → prev < highest_ledger env prev page.events
    → (t : State) × (persist_progress env contract page prev saves s
        ≡ some (if saves then returned t else thrown t))
      × ((current contract.contract_id env.network t.cursors).last_processed_ledger ≡ (
          if saves
          then highest_ledger env prev page.events
          else (current contract.contract_id env.network s.cursors).last_processed_ledger))
persist_progress_passes_failures env contract page prev true s batch size e h =
    let p = persist_progress-Persisted env contract page prev true s batch size e in
    let moved =
      p.cursors ∙ progress_moves env contract prev p.end.processed page.events s.cursors h in
    (
      p.end,
      p.returns,
      ap (λ rows. (current contract.contract_id env.network rows).last_processed_ledger) moved
          ∙ ap (λ (c : IndexerCursor). c.last_processed_ledger)
              (current-record_progress contract.contract_id env.network
                (highest_ledger env prev page.events) p.end.processed none s.cursors),
    )
persist_progress_passes_failures env contract page prev false s batch size e h =
    let p = persist_progress-Persisted env contract page prev false s batch size e in
    (
      p.end,
      p.returns ∙ lost_of_beyond env prev page.events p.end h,
      ap (λ rows. (current contract.contract_id env.network rows).last_processed_ledger) p.cursors,
    )
