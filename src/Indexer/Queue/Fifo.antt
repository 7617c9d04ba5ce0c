-- ===== src/Indexer/Queue/Fifo.antt =====
-- BoundedEventQueue.ts loses, repeats and reorders nothing.
use audio_block_backend.Base.{
  ℕ, ◌<◌, min, ◌≡◌, refl, sym, ap, ◌∙◌, true, false, List, [], ◌∷◌, ◌++◌, append-nil, append_assoc,
  arith, ◌==◌, if◌then◌else◌, length, take, drop, take-append-drop,
}
use audio_block_backend.Indexer.Queue.{
  Queue, is_empty, is_full, try_enqueue, enqueue, resume, dequeue_batch, drain, clear,
}

pub data Call {ℓ} (A : Type ℓ) : Type ℓ where
  tries waits : A → Call A
  resumes : Call A
  takes : ℕ → Call A
  drains clears : Call A

module _ {ℓ} {A : Type ℓ} where
  -- What a call puts in, as its caller sees it: by the result of `tryEnqueue`, or as the item whose
  -- `enqueue` returns.
  pub entered : Call A → Queue A → List A
  entered (tries a) q = if (try_enqueue a q).1 then a ∷ [] else []
  entered (waits a) q = if is_full q then [] else a ∷ []
  entered resumes q = elim q.woken [ [] ↦ [] | a ∷ rest ↦ if is_full q then [] else a ∷ [] ]
  entered (takes n) q = []
  entered drains q = []
  entered clears q = []

  -- What a call hands to its caller, or drops where it clears the queue.
  pub removed : Call A → Queue A → List A
  removed (takes n) q = (dequeue_batch n q).0
  removed drains q = (drain q).0
  removed clears q = q.items
  removed _ q = []

  pub after : Call A → Queue A → Queue A
  after (tries a) q = (try_enqueue a q).0
  after (waits a) q = enqueue a q
  after resumes q = resume q
  after (takes n) q = (dequeue_batch n q).1
  after drains q = (drain q).1
  after clears q = clear q

  pub run : List (Call A) → Queue A → Queue A
  run [] q = q
  run (c ∷ cs) q = run cs (after c q)

  pub all_entered : List (Call A) → Queue A → List A
  all_entered [] q = []
  all_entered (c ∷ cs) q = entered c q ++ all_entered cs (after c q)

  pub all_removed : List (Call A) → Queue A → List A
  all_removed [] q = []
  all_removed (c ∷ cs) q = removed c q ++ all_removed cs (after c q)

  -- A batch from a queue that is not empty is its front, and the rest stays.
  pub dequeue_batch_lem :
      (n : ℕ) (q : Queue A)
      → 0 < n
      → is_empty q ≡ false
      → let k = min n (length q.items) in
        dequeue_batch n q ≡ (
          take k q.items,
          record {
            max_size = q.max_size;
            items = drop k q.items;
            waiters = [];
            woken = q.woken ++ q.waiters;
          },
        )
  unfolding dequeue_batch
  dequeue_batch_lem n q pos e = ground arith

  step_takes :
      (n : ℕ) (q : Queue A) → q.items ++ [] ≡ (dequeue_batch n q).0 ++ (dequeue_batch n q).1.items
  unfolding dequeue_batch
  step_takes n q =
      ground (arith, append-nil q.items, take-append-drop (min n (length q.items)) q.items)

  step_fifo : (c : Call A) (q : Queue A) → q.items ++ entered c q ≡ removed c q ++ (after c q).items
  unfolding entered removed after try_enqueue enqueue resume dequeue_batch drain clear
  step_fifo (tries a) q = ground (arith, append-nil q.items)
  step_fifo (waits a) q = ground (arith, append-nil q.items)
  step_fifo resumes q = ground (arith, append-nil q.items)
  step_fifo (takes n) q = step_takes n q
  step_fifo drains q = step_takes (length q.items) q
  step_fifo clears q = refl

  -- Over any interleaving of all the calls that change the queue, what was in the queue and what
  -- entered it is, in this order, what left it and what is still there; what leaves is what a batch
  -- or a drain hands over, and what a clear drops.
  pub run_fifo :
      (cs : List (Call A)) (q : Queue A)
      → q.items ++ all_entered cs q ≡ all_removed cs q ++ (run cs q).items
  unfolding run all_entered all_removed
  run_fifo [] q = append-nil q.items
  run_fifo (c ∷ cs) q =
      sym (append_assoc q.items (entered c q) _)
      ∙ ap (λ l. l ++ all_entered cs (after c q)) (step_fifo c q)
      ∙ append_assoc (removed c q) (after c q).items _
      ∙ ap (λ l. removed c q ++ l) (run_fifo cs (after c q))
      ∙ sym (append_assoc (removed c q) _ _)

  pub is_empty_of_nil : (q : Queue A) → q.items ≡ [] → is_empty q ≡ true
  unfolding is_empty
  is_empty_of_nil q e = ap (λ l. length l == 0) e

  pub is_empty_of_cons : (q : Queue A) {x : A} {xs : List A} → q.items ≡ x ∷ xs → is_empty q ≡ false
  unfolding is_empty
  is_empty_of_cons q {xs} e = ap (λ l. length l == 0) e ∙ ground arith

  pub not_full_of_nil : (q : Queue A) → q.items ≡ [] → 0 < q.max_size → is_full q ≡ false
  unfolding is_full
  not_full_of_nil q e h = ground (arith, ap length e)
