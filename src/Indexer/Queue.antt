-- ===== src/Indexer/Queue.antt =====
-- src/workers/indexer/BoundedEventQueue.ts. A producer that waits inside `enqueue` is the item that
-- it holds: `waiters` are suspended, `woken` have been resolved and not yet resumed.
pub mod Bounds
pub mod Fifo
use audio_block_backend.Base.{
  ℕ, zero, suc, min, Bool, true, false, ◌||◌, Option, none, some, List, [], ◌∷◌, ◌++◌, leb, ◌==◌,
  if◌then◌else◌, length, take, drop,
}

pub record Queue {ℓ} (A : Type ℓ) : Type ℓ where
  pub max_size : ℕ
  pub items : List A
  pub waiters : List A
  pub woken : List A

module _ {ℓ} {A : Type ℓ} where
  -- The constructor throws on a size that is not positive.
  unfoldable pub make : ℕ → Option (Queue A)
  make zero = none
  make (suc n) = some (record { max_size = suc n; items = []; waiters = []; woken = [] })

  unfoldable pub size : Queue A → ℕ
  size q = length q.items

  unfoldable pub is_full : Queue A → Bool
  is_full q = leb q.max_size (length q.items)

  unfoldable pub is_empty : Queue A → Bool
  is_empty q = length q.items == 0

  unfoldable pub try_enqueue : A → Queue A → Queue A × Bool
  unfolding is_full
  try_enqueue a q =
      if is_full q then (q, Bool.false) else (record q { items = q.items ++ a ∷ [] }, Bool.true)

  -- One test of the loop in `enqueue`: push, or suspend again.
  unfoldable pub enqueue : A → Queue A → Queue A
  unfolding is_full
  enqueue a q =
      if is_full q
      then record q { waiters = q.waiters ++ a ∷ [] }
      else record q { items = q.items ++ a ∷ [] }

  -- The event loop resumes the oldest producer whose promise is resolved.
  unfoldable pub resume : Queue A → Queue A
  unfolding enqueue
  resume q = elim q.woken [ [] ↦ q | a ∷ rest ↦ enqueue a (record q { woken = rest }) ]

  unfoldable pub notify_space_available : Queue A → Queue A
  notify_space_available q = record q { waiters = []; woken = q.woken ++ q.waiters }

  unfoldable pub dequeue_batch : ℕ → Queue A → List A × Queue A
  unfolding notify_space_available is_empty
  dequeue_batch n q =
      if n == 0 || is_empty q
      then ([], q)
      else (let k = min n (length q.items) in
          (take k q.items, notify_space_available (record q { items = drop k q.items })))

  unfoldable pub drain : Queue A → List A × Queue A
  unfolding dequeue_batch
  drain q = dequeue_batch (length q.items) q

  unfoldable pub clear : Queue A → Queue A
  unfolding notify_space_available
  clear q = notify_space_available (record q { items = [] })
