-- ===== src/Indexer/Queue/Bounds.antt =====
-- The memory bound of BoundedEventQueue.ts, and its wake-ups.
use audio_block_backend.Base.{
  ℕ, suc, ◌≤◌, ◌<◌, min, ◌≡◌, ◌⊎◌, inl, inr, some, List, [], ◌∷◌, ◌++◌, arith, List-cases, length,
  length-append, drop, length-drop,
}
use audio_block_backend.Indexer.Queue.{
  Queue, make, try_enqueue, enqueue, resume, dequeue_batch, drain, clear,
}

module _ {ℓ} {A : Type ℓ} where
  -- At most `max_size` items are held, and nobody sleeps while there is space.
  pub record IsSound (q : Queue A) : Type ℓ where
    pub positive : 0 < q.max_size
    pub bounded : length q.items ≤ q.max_size
    pub awake : (q.waiters ≡ []) ⊎ (q.max_size ≤ length q.items)

  pub data Step : Queue A → Queue A → Type ℓ where
    tries : (a : A) (q : Queue A) → Step q (try_enqueue a q).0
    waits : (a : A) (q : Queue A) → Step q (enqueue a q)
    resumes : (q : Queue A) → Step q (resume q)
    takes : (n : ℕ) (q : Queue A) → Step q (dequeue_batch n q).1
    drains : (q : Queue A) → Step q (drain q).1
    wipes : (q : Queue A) → Step q (clear q)

  pub data Reach (q : Queue A) : Queue A → Type ℓ where
    here : Reach q q
    next : {r s : Queue A} → Reach q r → Step r s → Reach q s

  pub make-IsSound : (n : ℕ) {q : Queue A} → make n ≡ some q → IsSound q
  unfolding make
  make-IsSound ℕ.zero e = ground arith
  make-IsSound (suc n) e = ground arith

  pub try_enqueue-IsSound : (a : A) (q : Queue A) → IsSound q → IsSound (try_enqueue a q).0
  unfolding try_enqueue
  try_enqueue-IsSound a q v = ground (arith, length-append q.items (a ∷ []))

  pub enqueue-IsSound : (a : A) (q : Queue A) → IsSound q → IsSound (enqueue a q)
  unfolding enqueue
  enqueue-IsSound a q v = ground (arith, length-append q.items (a ∷ []))

  pub resume-IsSound : (q : Queue A) → IsSound q → IsSound (resume q)
  unfolding resume
  resume-IsSound q v = elim (List-cases q.woken) [
    | inl e ↦ rw (e, resume) v
    | inr (a, rest, e) ↦
        rw (e, resume)
          (enqueue-IsSound a (record q { woken = rest })
            (record { positive = v.positive; bounded = v.bounded; awake = v.awake }))
  ]

  pub dequeue_batch-IsSound : (n : ℕ) (q : Queue A) → IsSound q → IsSound (dequeue_batch n q).1
  unfolding dequeue_batch
  dequeue_batch-IsSound n q v = ground (arith, length-drop (min n (length q.items)) q.items)

  pub clear-IsSound : (q : Queue A) → IsSound q → IsSound (clear q)
  unfolding clear
  clear-IsSound q v = ground arith

  Step-IsSound : {q r : Queue A} → Step q r → IsSound q → IsSound r
  Step-IsSound (tries a q) v = try_enqueue-IsSound a q v
  Step-IsSound (waits a q) v = enqueue-IsSound a q v
  Step-IsSound (resumes q) v = resume-IsSound q v
  Step-IsSound (takes n q) v = dequeue_batch-IsSound n q v
  Step-IsSound (drains q) v = unfold drain in dequeue_batch-IsSound (length q.items) q v
  Step-IsSound (wipes q) v = clear-IsSound q v

  Reach-IsSound : {q r : Queue A} → Reach q r → IsSound q → IsSound r
  Reach-IsSound here v = v
  Reach-IsSound (next h s) v = Step-IsSound s (Reach-IsSound h v)

  -- From the constructor on, whatever the producers and the consumer do in whatever order, at most
  -- `max_size` items are held, and no producer is suspended while there is space.
  pub queue_bounded : (n : ℕ) {q r : Queue A} → make n ≡ some q → Reach q r → IsSound r
  queue_bounded n e h = Reach-IsSound h (make-IsSound n e)

  -- From a queue within its bounds on which producers are suspended and none is about to resume, a
  -- batch of a positive size wakes every one of them, and the oldest then gets its item in, behind
  -- what is left.
  pub dequeue_batch_unblocks :
      (n : ℕ) (q : Queue A) (a : A) (ws : List A)
      → IsSound q
      → 0 < n
      → q.waiters ≡ a ∷ ws
      → q.woken ≡ []
      → let r = resume (dequeue_batch n q).1 in
        (r.items ≡ drop (min n (length q.items)) q.items ++ a ∷ [])
        × (r.waiters ≡ [])
        × (r.woken ≡ ws)
  unfolding resume dequeue_batch
  dequeue_batch_unblocks n q a ws v pos e f =
      ground (arith, length-drop (min n (length q.items)) q.items)
