-- ===== src/Indexer/Worker/Flush.antt =====
-- The write queue of IndexerWorker.ts is emptied in order, whatever the batch size.
use audio_block_backend.Base.{
  ℕ, zero, suc, ◌+◌, ◌≤◌, ◌<◌, min, ◌≡◌, refl, sym, ap, ◌∙◌, inl, inr, false, Option, none, some,
  List, [], ◌∷◌, ◌++◌, arith, List-cases, length, take, drop, take-append-drop, length-drop,
}
use audio_block_backend.Indexer.Queue.{Queue}
use audio_block_backend.Indexer.Queue
use audio_block_backend.Indexer.Queue.Fifo.{dequeue_batch_lem, is_empty_of_nil, is_empty_of_cons}
use audio_block_backend.Indexer.Events.{IndexedEvent, InsertIndexedEvent, Store, upsert_event}
use audio_block_backend.Indexer.Worker.{
  Env, State, counted, write_one, flush_round, flush_loop, flush_queue, write_batch,
}

-- Two states agree on all that a write reads and changes.
pub record SameWrites (s t : State) : Type 0 where
  pub store : s.store ≡ t.store
  pub processed : s.processed ≡ t.processed
  pub errors : s.errors ≡ t.errors

-- What a write leaves alone.
pub record Keeps (s t : State) : Type 0 where
  pub skipped : t.skipped ≡ s.skipped
  pub cursors : t.cursors ≡ s.cursors
  pub guard : t.guard ≡ s.guard
  pub max_size : t.queue.max_size ≡ s.queue.max_size

pub SameWrites-refl : (s : State) → SameWrites s s
SameWrites-refl s = record { store = refl; processed = refl; errors = refl }

pub SameWrites-trans : {s t u : State} → SameWrites s t → SameWrites t u → SameWrites s u
SameWrites-trans h k = record {
  store = h.store ∙ k.store;
  processed = h.processed ∙ k.processed;
  errors = h.errors ∙ k.errors;
}

pub Keeps-trans : {s t u : State} → Keeps s t → Keeps t u → Keeps s u
Keeps-trans h k = record {
  skipped = k.skipped ∙ h.skipped;
  cursors = k.cursors ∙ h.cursors;
  guard = k.guard ∙ h.guard;
  max_size = k.max_size ∙ h.max_size;
}

counted-SameWrites :
    (row : Option IndexedEvent) (store : Store) (s t : State)
    → SameWrites s t
    → SameWrites (counted row store s) (counted row store t)
unfolding counted
counted-SameWrites none store s t h = record {
  store = refl;
  processed = h.processed;
  errors = omega (arith, h.errors);
}
counted-SameWrites (some row) store s t h = record {
  store = refl;
  processed = omega (arith, h.processed);
  errors = h.errors;
}

counted-Keeps :
    (row : Option IndexedEvent) (store : Store) (s : State)
    → ((counted row store s).queue ≡ s.queue) × Keeps s (counted row store s)
unfolding counted
counted-Keeps none store s =
    (refl, record { skipped = refl; cursors = refl; guard = refl; max_size = refl })
counted-Keeps (some row) store s =
    (refl, record { skipped = refl; cursors = refl; guard = refl; max_size = refl })

counted_sum :
    (row : Option IndexedEvent) (store : Store) (s : State)
    → (counted row store s).processed + (counted row store s).errors ≡ s.processed + s.errors + 1
unfolding counted
counted_sum none store s = omega arith
counted_sum (some row) store s = omega arith

module _ (env : Env) where
  write_one-SameWrites :
      (dto : InsertIndexedEvent) (s t : State)
      → SameWrites s t
      → SameWrites (write_one env dto s) (write_one env dto t)
  unfolding write_one
  write_one-SameWrites dto s t h =
      simp h.store (counted-SameWrites (upsert_event env.db env.now dto t.store).0 _ s t h)

  pub write_one-queue :
      (dto : InsertIndexedEvent) (s : State)
      → ((write_one env dto s).queue ≡ s.queue) × Keeps s (write_one env dto s)
  unfolding write_one
  write_one-queue dto s = counted-Keeps (upsert_event env.db env.now dto s.store).0 _ s

  pub write_batch-SameWrites :
      (batch : List InsertIndexedEvent) (s t : State)
      → SameWrites s t
      → SameWrites (write_batch env batch s) (write_batch env batch t)
  unfolding write_batch
  write_batch-SameWrites [] s t h = h
  write_batch-SameWrites (dto ∷ batch) s t h =
      write_batch-SameWrites batch _ _ (write_one-SameWrites dto s t h)

  pub write_batch-queue :
      (batch : List InsertIndexedEvent) (s : State)
      → ((write_batch env batch s).queue ≡ s.queue) × Keeps s (write_batch env batch s)
  unfolding write_batch
  write_batch-queue [] s =
      (refl, record { skipped = refl; cursors = refl; guard = refl; max_size = refl })
  write_batch-queue (dto ∷ batch) s =
      let (q, k) = write_batch-queue batch (write_one env dto s) in
      let (q', k') = write_one-queue dto s in (q ∙ q', Keeps-trans k' k)

  pub write_batch-append :
      (xs ys : List InsertIndexedEvent) (s : State)
      → write_batch env (xs ++ ys) s ≡ write_batch env ys (write_batch env xs s)
  unfolding write_batch
  write_batch-append [] ys s = refl
  write_batch-append (x ∷ xs) ys s = write_batch-append xs ys (write_one env x s)

  write_one_sum :
      (dto : InsertIndexedEvent) (s : State)
      → (write_one env dto s).processed + (write_one env dto s).errors ≡ s.processed + s.errors + 1
  unfolding write_one
  write_one_sum dto s = counted_sum (upsert_event env.db env.now dto s.store).0 _ s

  -- Each event that is written is counted once, as processed or as an error.
  pub write_batch-counts :
      (batch : List InsertIndexedEvent) (s : State)
      → (write_batch env batch s).processed + (write_batch env batch s).errors
        ≡ s.processed + s.errors + length batch
  unfolding write_batch
  write_batch-counts [] s = omega arith
  write_batch-counts (dto ∷ batch) s =
      omega (arith, write_batch-counts batch (write_one env dto s), write_one_sum dto s)

  -- The state once all that is buffered is written.
  unfoldable pub pending : State → State
  pending s = write_batch env s.queue.items s

  -- One round takes a batch off the front and writes it.
  flush_round_lem :
      (s : State)
      → 0 < env.write_batch_size
      → Queue.is_empty s.queue ≡ false
      → let k = min env.write_batch_size (length s.queue.items) in
        ((flush_round env s).queue.items ≡ drop k s.queue.items)
        × SameWrites (flush_round env s) (write_batch env (take k s.queue.items) s)
        × Keeps s (flush_round env s)
  unfolding flush_round
  flush_round_lem s pos e =
      let q : Queue InsertIndexedEvent = record {
        max_size = s.queue.max_size;
        items = drop (min env.write_batch_size (length s.queue.items)) s.queue.items;
        waiters = [];
        woken = s.queue.woken ++ s.queue.waiters;
      } in
      let b = take (min env.write_batch_size (length s.queue.items)) s.queue.items in
      let (same, kept) = write_batch-queue b (record s { queue = q }) in
      let writes =
        write_batch-SameWrites b (record s { queue = q }) s
          (record { store = refl; processed = refl; errors = refl }) in
      rw (dequeue_batch_lem env.write_batch_size s.queue pos e, flush_round)
        (
          ap (λ (p : Queue InsertIndexedEvent). p.items) same,
          record { store = writes.store; processed = writes.processed; errors = writes.errors },
          record {
            skipped = kept.skipped;
            cursors = kept.cursors;
            guard = kept.guard;
            max_size = kept.max_size;
          },
        )

  pub record Flushed (s : State) (o : Option State) : Type 0 where
    pub end : State
    pub returns : o ≡ some end
    pub emptied : end.queue.items ≡ []
    pub writes : SameWrites end (pending s)
    pub keeps : Keeps s end

  pub pending_of_nil : (s : State) → s.queue.items ≡ [] → pending s ≡ s
  unfolding pending write_batch
  pending_of_nil s e = ap (λ l. write_batch env l s) e

  Flushed-of_nil : (s : State) → s.queue.items ≡ [] → Flushed s (some s)
  Flushed-of_nil s e = record {
    end = s;
    returns = refl;
    emptied = e;
    writes = rw (pending_of_nil s e) (SameWrites-refl s);
    keeps = record { skipped = refl; cursors = refl; guard = refl; max_size = refl };
  }

  -- Writing the front in one round and then the rest writes all.
  pending-flush_round :
      (s : State)
      → 0 < env.write_batch_size
      → Queue.is_empty s.queue ≡ false
      → SameWrites (pending (flush_round env s)) (pending s)
  unfolding pending flush_round
  pending-flush_round s pos e =
      let k = min env.write_batch_size (length s.queue.items) in
      let (left, same, kept) = flush_round_lem s pos e in
      let all : write_batch env s.queue.items s
          ≡ write_batch env (drop k s.queue.items) (write_batch env (take k s.queue.items) s) =
        ap (λ l. write_batch env l s) (sym (take-append-drop k s.queue.items))
        ∙ write_batch-append (take k s.queue.items) (drop k s.queue.items) s in
      rw (left, all) (write_batch-SameWrites (drop k s.queue.items) _ _ same)

  Flushed-flush_round :
      (s : State) (o : Option State)
      → 0 < env.write_batch_size
      → Queue.is_empty s.queue ≡ false
      → Flushed (flush_round env s) o
      → Flushed s o
  Flushed-flush_round s o pos e f = record {
    end = f.end;
    returns = f.returns;
    emptied = f.emptied;
    writes = SameWrites-trans f.writes (pending-flush_round s pos e);
    keeps = Keeps-trans (flush_round_lem s pos e).2 f.keeps;
  }

  flush_loop-Flushed :
      (n : ℕ) (s : State)
      → 0 < env.write_batch_size
      → length s.queue.items ≤ n
      → Flushed s (flush_loop env n s)
  unfolding flush_loop
  flush_loop-Flushed zero s pos h = elim (List-cases s.queue.items) [
    | inl e ↦ simp (is_empty_of_nil s.queue e) (Flushed-of_nil s e)
    | inr (x, xs, e) ↦ absurd (omega (arith, ap length e))
  ]
  flush_loop-Flushed (suc n) s pos h = elim (List-cases s.queue.items) [
    | inl e ↦ simp (is_empty_of_nil s.queue e) (Flushed-of_nil s e)
    | inr (x, xs, e) ↦
        let full = is_empty_of_cons s.queue e in
        let (left, _, _) = flush_round_lem s pos full in
        simp full (
          Flushed-flush_round s _ pos full (
            flush_loop-Flushed n (flush_round env s) pos (
              omega (
                arith,
                ap length e,
                ap length left,
                length-drop (min env.write_batch_size (length s.queue.items)) s.queue.items,
              ))))
  ]

  -- With a positive batch size `flushQueue` ends with an empty queue, and has written what was in
  -- it in order, as one pass over it does, whatever the batch size; it leaves the cursors, the guard
  -- and the count of skipped events alone.
  pub flush_queue-Flushed : (s : State) → 0 < env.write_batch_size → Flushed s (flush_queue env s)
  unfolding flush_queue
  flush_queue-Flushed s pos = flush_loop-Flushed (length s.queue.items) s pos (omega arith)
