-- ===== src/Indexer/Worker/Poll/Drain.antt =====
-- IndexerWorker.drainPages ends, and accounts for every event.
use audio_block_backend.Base.{
  ℕ, zero, suc, ◌+◌, ◌≤◌, ◌<◌, ◌≡◌, refl, ap, ◌∙◌, inl, inr, Bool, true, false, not, ◌&&◌, ◌||◌,
  Option, none, some, List, [], ◌∷◌, arith, String, eq_iff, if◌then◌else◌, Bool-cases, Option-cases,
  or-false_right, non_empty, length,
}
use audio_block_backend.Indexer.Queue.Fifo.{is_empty_of_nil, not_full_of_nil}
use audio_block_backend.Indexer.Reader.{EventsPage, EventReaderServer}
use audio_block_backend.Indexer.Worker.{IndexerContract, Env, State}
use audio_block_backend.Indexer.Worker.Persist.{persist_progress-Persisted, is_due}
use audio_block_backend.Indexer.Worker.Persist.Buffer.{unreadable}
use audio_block_backend.Indexer.Worker.Poll.Trail.{
  Follows, no_cursor, stops, throws_at, save_fails, reads, Adds, cursor_after, or_cursor,
}
use audio_block_backend.Indexer.Worker.Poll.{
  Tally, Run, done, threw, unfinished, contains, add_page, fetch_page, make_room, finish,
  drain_pages, no_tally,
}

-- How many of the known cursors have not been followed.
unseen : List String → List String → ℕ
unseen [] seen = 0
unseen (k ∷ known) seen = let rest = unseen known seen in if contains seen k then rest else suc rest

unseen-le_length : (known seen : List String) → unseen known seen ≤ length known
unfolding unseen
unseen-le_length [] seen = omega arith
unseen-le_length (k ∷ known) seen = ground (arith, unseen-le_length known seen)

unseen-le : (c : String) (known seen : List String) → unseen known (c ∷ seen) ≤ unseen known seen
unfolding unseen
unseen-le c [] seen = omega arith
unseen-le c (k ∷ known) seen = ground (arith, unseen-le c known seen)

-- Following a known cursor for the first time leaves fewer.
unseen-lt :
    (c : String) (known seen : List String)
    → contains known c ≡ true
    → contains seen c ≡ false
    → unseen known (c ∷ seen) < unseen known seen
unfolding unseen
unseen-lt c [] seen h e = cc
unseen-lt c (k ∷ known) seen h e =
    ground (arith, eq_iff k c, eq_iff c k, unseen-le c known seen, unseen-lt c known seen)

pub not_saved : (saves due : Bool) → (not saves && due) ≡ true → saves ≡ false
not_saved true due e = cc
not_saved false due e = refl

module _ (env : Env) (server : EventReaderServer) (contract : IndexerContract) where
  -- The server's pages lead only to cursors of a finite list.
  abbrev pub LeadsTo : List String → Type 0
  LeadsTo known =
      (c c' : String) (page : EventsPage)
      → fetch_page env server contract c ≡ some page
      → non_empty page.cursor ≡ some c'
      → contains known c' ≡ true

  -- The loop has ended, with the events of the pages that it has read added to its tally, or by a
  -- throw of the server.
  abbrev pub Settled : ℕ → Option String → List String → Tally → Run → Type 0
  Settled n next seen t (done t' s) =
      (pages : List EventsPage) × Follows env server contract n next seen pages false
      × Adds contract.decode pages t t'
  Settled n next seen t (threw s) =
      (pages : List EventsPage) × Follows env server contract n next seen pages true
  Settled n next seen t unfinished = ⊥

  -- Between two pages the queue is empty.
  pub record IsIdle (s : State) : Type 0 where
    pub batch : 0 < env.write_batch_size
    pub size : 0 < s.queue.max_size
    pub empty : s.queue.items ≡ []

  pub Adds-none : (t : Tally) → Adds contract.decode [] t t
  Adds-none t = record {
    fetched = omega arith;
    skipped = omega arith;
    written = omega arith;
    cursor = refl;
  }

  finish-Settled :
      (n : ℕ) (next : Option String) (seen : List String) (s : State) (t : Tally)
      → s.queue.items ≡ []
      → Follows env server contract n next seen [] false
      → Settled n next seen t (finish env server contract s t)
  unfolding finish
  finish-Settled n next seen s t e f = rw (is_empty_of_nil s.queue e, finish) ([], f, Adds-none t)

  make_room_lem :
      (pages : ℕ) (s : State) (t : Tally)
      → IsIdle s
      → make_room env server contract pages s t ≡ some (s, t)
  unfolding make_room
  make_room_lem pages s t h = rw (not_full_of_nil s.queue h.empty h.size, make_room)

  pub add_page-cursor :
      (page : EventsPage) (s : State) (t : Tally)
      → (add_page page s t).cursor ≡ or_cursor (non_empty page.cursor) t.cursor
  unfolding add_page
  add_page-cursor page s t = elim (Option-cases (non_empty page.cursor)) [
    | inl e ↦ rw (add_page, e)
    | inr (c, e) ↦ rw (add_page, e)
  ]

  -- A page, and what follows.
  pub add_page-Adds :
      (page : EventsPage) (pages : List EventsPage) (s : State) (t t' : Tally)
      → s.skipped ≡ unreadable contract.decode page.events
      → s.processed + s.skipped + s.errors ≡ length page.events
      → Adds contract.decode pages (add_page page s t) t'
      → Adds contract.decode (page ∷ pages) t t'
  unfolding add_page
  add_page-Adds page pages s t t' skips counts a = record {
    fetched = omega (arith, a.fetched);
    skipped = omega (arith, a.skipped, skips);
    written = omega (arith, a.written, skips, counts);
    cursor = a.cursor ∙ ap (λ c. cursor_after c pages) (add_page-cursor page s t);
  }

  read_on :
      (n : ℕ) (c : String) (seen : List String) (page : EventsPage) (s : State) (t : Tally)
      (r : Run)
      → (env.stopped n || contains seen c) ≡ false
      → fetch_page env server contract c ≡ some page
      → s.skipped ≡ unreadable contract.decode page.events
      → s.processed + s.skipped + s.errors ≡ length page.events
      → Settled (suc n) (non_empty page.cursor) (c ∷ seen) (add_page page s t) r
      → Settled n (some c) seen t r
  read_on n c seen page s t (done t' u) on e skips counts (pages, f, a) =
      (page ∷ pages, reads on e f, add_page-Adds page pages s t t' skips counts a)
  read_on n c seen page s t (threw u) on e skips counts (pages, f) = (page ∷ pages, reads on e f)
  read_on n c seen page s t unfinished on e skips counts h = h

  drain_pages-Settled :
      (known : List String) (fuel pages prev : ℕ) (next : Option String) (seen : List String)
      (s : State) (t : Tally)
      → LeadsTo known
      → ((c : String) → next ≡ some c → contains known c ≡ true)
      → unseen known seen < fuel
      → IsIdle s
      → Settled pages next seen t (drain_pages env server contract fuel pages prev next seen s t)
  unfolding drain_pages
  drain_pages-Settled known fuel pages prev none seen s t leads first room h =
      finish-Settled pages none seen s t h.empty no_cursor
  drain_pages-Settled known zero pages prev (some c) seen s t leads first room h =
      absurd (omega arith)
  drain_pages-Settled known (suc fuel) pages prev (some c) seen s t leads first room h =
      elim (Bool-cases (env.stopped pages || contains seen c)) [
        | inl out ↦
            rw (out, drain_pages) (finish-Settled pages (some c) seen s t h.empty (stops out))
        | inr on ↦
            rw (on, make_room_lem pages s t h, drain_pages)
              (elim (Option-cases (fetch_page env server contract c)) [
                | inl e ↦ rw (e, drain_pages) ([], throws_at on e)
                | inr (page, e) ↦
                    let p =
                      persist_progress-Persisted env contract page prev
                        (env.cursor_saved (suc pages)) s h.batch h.size h.empty in
                    let more : unseen known (c ∷ seen) < fuel = omega (
                      arith,
                      unseen-lt c known seen (first c refl)
                          (or-false_right (env.stopped pages) (contains seen c) on),
                    ) in
                    rw (e, p.returns, drain_pages)
                      (elim (Bool-cases (
                        not (env.cursor_saved (suc pages))
                        && is_due env prev page.events p.end.processed)) [
                          | inl lost ↦
                              rw (lost, drain_pages) ([], save_fails on e (not_saved _ _ lost))
                          | inr kept ↦
                              rw (kept, drain_pages)
                                (read_on pages c seen page p.end t _ on e p.skips p.counted (
                                  drain_pages-Settled known fuel (suc pages) prev
                                    (non_empty page.cursor) (c ∷ seen) p.end (add_page page p.end t)
                                    leads (λ c' f. leads c c' page e f) more
                                    (record {
                                      batch = h.batch;
                                      size = p.sized;
                                      empty = p.emptied;
                                    })))
                        ])
              ])
      ]

  -- If the server's cursors are among finitely many, a drain with more fuel than these ends, in
  -- spite of cycles among them; and if it did not throw, its tally is that of the pages that it has
  -- read along the cursors. The sizes of the queue and of the batches are positive.
  pub drain_pages_ends :
      (known : List String) (fuel prev : ℕ) (next : Option String) (s : State)
      → LeadsTo known
      → ((c : String) → next ≡ some c → contains known c ≡ true)
      → length known < fuel
      → IsIdle s
      → Settled 0 next [] no_tally (drain_pages env server contract fuel 0 prev next [] s no_tally)
  drain_pages_ends known fuel prev next s leads first room h =
      drain_pages-Settled known fuel 0 prev next [] s no_tally leads first
        (omega (arith, unseen-le_length known [])) h
