-- ===== src/Indexer/Worker/Poll/Outcomes.antt =====
-- The outcome of a cycle of IndexerWorker.pollOnce, made of the tallies of its parts.
use audio_block_backend.Base.{
  ℕ, ◌≡◌, refl, ap, ◌∙◌, subst, Bool, true, false, Option, none, some, List, [], ◌∷◌, arith, String,
  non_empty,
}
use audio_block_backend.Indexer.Reader.{EventsPage, EventReaderServer}
use audio_block_backend.Indexer.Worker.{IndexerContract, Env, State}
use audio_block_backend.Indexer.Worker.Poll.{
  Tally, Run, done, threw, unfinished, no_tally, PollOutcome, failed_poll, outcome_of, poll_result,
}
use audio_block_backend.Indexer.Worker.Poll.Drain.{Settled}
use audio_block_backend.Indexer.Guard.{ReorgGuard, get_overlap_start}
use audio_block_backend.Indexer.Worker.Poll.Trail.{
  Follows, no_cursor, Adds, Tells, Cycle, nothing_new, drained, drain_throws, first_fetch,
  or_cursor, cursor_after,
}

or_cursor_elim : (d i : Option String) → elim d [ none ↦ i | some c ↦ some c ] ≡ or_cursor d i
or_cursor_elim none i = refl
or_cursor_elim (some c) i = refl

or_cursor_assoc :
    (a b c : Option String) → or_cursor (or_cursor a b) c ≡ or_cursor a (or_cursor b c)
or_cursor_assoc none b c = refl
or_cursor_assoc (some d) b c = refl

cursor_after_or :
    (pages : List EventsPage) (d i : Option String)
    → or_cursor (cursor_after d pages) i ≡ cursor_after (or_cursor d i) pages
cursor_after_or [] d i = refl
cursor_after_or (p ∷ pages) d i =
    cursor_after_or pages (or_cursor (non_empty p.cursor) d) i
    ∙ ap (λ c. cursor_after c pages) (or_cursor_assoc (non_empty p.cursor) d i)

module _ (env : Env) (server : EventReaderServer) (contract : IndexerContract) where
  -- A cycle ends, and its outcome tells the pages that it has read.
  abbrev pub Ends : ReorgGuard → Option (PollOutcome × State) → Type 0
  Ends guard none = ⊥
  Ends guard (some (o, s)) =
      (pages : List EventsPage) × (failed : Bool) × (latest : ℕ) × Cycle env server contract guard
        pages failed latest
      × Tells contract.decode pages failed latest o

  -- A tally of some pages, from nothing.
  abbrev pub Counts : List EventsPage → Tally → Type 0
  Counts = λ pages t. Adds contract.decode pages no_tally t

  pub failed_poll-Tells :
      (pages : List EventsPage) (s : State) (t : Tally)
      → Counts pages t
      → Tells contract.decode pages true 0 (failed_poll env server contract s t).0
  unfolding failed_poll
  failed_poll-Tells pages s t a = record {
    fetched = omega (arith, a.fetched);
    skipped = omega (arith, a.skipped);
    accounted = omega (arith, a.fetched, a.skipped, a.written);
    cursor = a.cursor;
    latest_ledger = refl;
  }

  outcome_of-Tells :
      (latest : ℕ) (page : EventsPage) (pages : List EventsPage) (i d : Tally)
      → Counts (page ∷ []) i
      → Counts pages d
      → Tells contract.decode
          (page ∷ pages)
          false
          latest
          (outcome_of env server contract latest i d)
  unfolding outcome_of
  outcome_of-Tells latest page pages i d a b = record {
    fetched = omega (arith, a.fetched, b.fetched);
    skipped = omega (arith, a.skipped, b.skipped);
    accounted = omega (arith, a.fetched, a.skipped, a.written, b.fetched, b.skipped, b.written);
    cursor =
        or_cursor_elim d.cursor i.cursor
        ∙ ap (λ c. or_cursor c i.cursor) b.cursor
        ∙ cursor_after_or pages none i.cursor
        ∙ ap (λ c. cursor_after c pages) a.cursor;
    latest_ledger = refl;
  }

  pub poll_result-Ends :
      (guard : ReorgGuard) (start latest : ℕ) (page : EventsPage) (i : Tally) (r : Run)
      → server.get_latest_ledger ≡ some latest
      → get_overlap_start latest guard ≡ some start
      → first_fetch env server contract start latest ≡ some page
      → Counts (page ∷ []) i
      → Settled env server contract 0 (non_empty page.cursor) [] no_tally r
      → Ends guard (poll_result env server contract latest i r)
  unfolding poll_result
  poll_result-Ends guard start latest page i (done d u) tip due e a (pages, f, b) =
      (page ∷ pages, false, latest, drained tip due e f, outcome_of-Tells latest page pages i d a b)
  poll_result-Ends guard start latest page i (threw u) tip due e a (pages, f) =
      (page ∷ [], true, 0, drain_throws tip due e f, failed_poll-Tells (page ∷ []) u i a)
  poll_result-Ends guard start latest page i unfinished tip due e a h = h

  follows_none :
      {n : ℕ} {seen : List String} {pages : List EventsPage} {failed : Bool}
      → Follows env server contract n none seen pages failed
      → (pages ≡ []) × (failed ≡ false)
  follows_none no_cursor = (refl, refl)

  -- Nothing is due: there is no page.
  pub poll_result-idle :
      (guard : ReorgGuard) (latest : ℕ) (r : Run)
      → server.get_latest_ledger ≡ some latest
      → get_overlap_start latest guard ≡ none
      → Settled env server contract 0 none [] no_tally r
      → Ends guard (poll_result env server contract latest no_tally r)
  unfolding poll_result outcome_of
  poll_result-idle guard latest (done d u) tip due (pages, f, b) =
      let e : Counts [] d = subst (λ ps. Counts ps d) (follows_none f).0 b in
      (
        [],
        false,
        latest,
        nothing_new tip due,
        record {
          fetched = omega (arith, e.fetched);
          skipped = omega (arith, e.skipped);
          accounted = omega (arith, e.fetched, e.skipped, e.written);
          cursor = or_cursor_elim d.cursor none ∙ ap (λ c. or_cursor c none) e.cursor;
          latest_ledger = refl;
        },
      )
  poll_result-idle guard latest (threw u) tip due (pages, f) = cc ((follows_none f).1)
  poll_result-idle guard latest unfinished tip due h = h
