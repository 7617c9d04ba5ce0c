-- ===== src/Indexer/Worker/Poll/Initial.antt =====
-- The first page of a cycle, IndexerWorker.pollInitialPage.
use audio_block_backend.Base.{
  ℕ, zero, suc, ◌<◌, ◌≡◌, refl, sym, ◌∙◌, inl, inr, true, false, not, ◌&&◌, Option, none, some,
  List, [], ◌∷◌, arith, String, Bool-cases, Option-cases, non_empty,
}
use audio_block_backend.Indexer.Queue.{Queue}
use audio_block_backend.Indexer.Queue
use audio_block_backend.Indexer.Reader.{EventsPage, EventReaderServer}
use audio_block_backend.Indexer.Worker.{IndexerContract, Env, State}
use audio_block_backend.Indexer.Worker.Persist.{persist_progress-Persisted, is_due}
use audio_block_backend.Indexer.Worker.Poll.{
  Tally, Run, done, threw, contains, add_page, no_tally, fresh_queue, poll_initial_page,
}
use audio_block_backend.Indexer.Worker.Poll.Drain.{add_page-Adds, Adds-none, not_saved}
use audio_block_backend.Indexer.Worker.Poll.Trail.{first_fetch}
use audio_block_backend.Indexer.Worker.Poll.Outcomes.{Counts}

pub fresh_queue_lem :
    (n : ℕ) (s : State)
    → 0 < n
    → (t : State) × (fresh_queue n s ≡ some t) × (t.queue.items ≡ []) × (0 < t.queue.max_size)
unfolding fresh_queue Queue.make
fresh_queue_lem zero s h = absurd (omega arith)
fresh_queue_lem (suc n) s h = (
  record s { queue = record { max_size = suc n; items = []; waiters = []; woken = [] } },
  refl,
  refl,
  omega arith,
)

module _ (env : Env) (server : EventReaderServer) (contract : IndexerContract) where
  -- The first page: none is due, or it is read and written, or the server or the save of the
  -- cursor throws.
  pub data Started (known : List String) (latest : ℕ) (range : Option ℕ) : Run → Type 0 where
    idle : {s : State} → range ≡ none → Started known latest range (done no_tally s)
    first :
        {start : ℕ} {page : EventsPage} {i : Tally} {s : State}
        → range ≡ some start
        → first_fetch env server contract start latest ≡ some page
        → Counts env server contract (page ∷ []) i
        → i.cursor ≡ non_empty page.cursor
        → ((c : String) → i.cursor ≡ some c → contains known c ≡ true)
        → Started known latest range (done i s)
    first_threw :
        {start : ℕ} {s : State}
        → range ≡ some start
        → first_fetch env server contract start latest ≡ none
        → Started known latest range (threw s)
    first_lost :
        {start : ℕ} {page : EventsPage} {s : State}
        → range ≡ some start
        → first_fetch env server contract start latest ≡ some page
        → env.cursor_saved 0 ≡ false
        → Started known latest range (threw s)

  -- The first page leads to a known cursor too.
  abbrev pub StartsAt : List String → Type 0
  StartsAt known =
      (start latest : ℕ) (c : String) (page : EventsPage)
      → first_fetch env server contract start latest ≡ some page
      → non_empty page.cursor ≡ some c
      → contains known c ≡ true

  add_page-first :
      (page : EventsPage) (s : State) → (add_page page s no_tally).cursor ≡ non_empty page.cursor
  unfolding add_page
  add_page-first page s = ground arith

  pub poll_initial_page-Started :
      (known : List String) (range : Option ℕ) (latest prev : ℕ) (s : State)
      → StartsAt known
      → 0 < env.write_batch_size
      → 0 < env.max_queue_size
      → Started known latest range (poll_initial_page env server contract range latest prev s)
  unfolding poll_initial_page
  poll_initial_page-Started known none latest prev s starts batch size = idle refl
  poll_initial_page-Started known (some start) latest prev s starts batch size =
      elim (Option-cases (first_fetch env server contract start latest)) [
        | inl e ↦ rw (e, poll_initial_page) (first_threw refl e)
        | inr (page, e) ↦
            let (t, made, empty, sized) = fresh_queue_lem env.max_queue_size s size in
            let p =
              persist_progress-Persisted env contract page prev (env.cursor_saved 0) t batch sized
                empty in
            rw (e, made, p.returns, poll_initial_page)
              (elim (Bool-cases
                (not (env.cursor_saved 0) && is_due env prev page.events p.end.processed)) [
                  | inl lost ↦ rw (lost, poll_initial_page) (first_lost refl e (not_saved _ _ lost))
                  | inr kept ↦
                      rw (kept, poll_initial_page)
                        (first refl e
                          (add_page-Adds env server contract page [] p.end no_tally
                            (add_page page p.end no_tally) p.skips p.counted
                            (Adds-none env server contract _))
                          (add_page-first page p.end)
                          (λ c f.
                            starts start latest c page e (sym (add_page-first page p.end) ∙ f)))
                ])
      ]
