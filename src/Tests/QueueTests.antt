-- ===== src/Tests/QueueTests.antt =====
-- workers/indexer/BoundedEventQueue.ts and services/Soroban/IndexerReorgGuard.ts.
use audio_block_backend.Base.{
  ℕ, ◌+◌, ◌≤◌, ◌<◌, min, ◌≡◌, refl, ◌↔◌, inr, none, some, List, [], ◌∷◌, ◌++◌, arith, drop,
}
use audio_block_backend.Indexer.Queue.{Queue}
use audio_block_backend.Indexer.Queue
use audio_block_backend.Indexer.Queue.Bounds.{
  IsSound, here, next, waits, queue_bounded, dequeue_batch_unblocks,
}
use audio_block_backend.Indexer.Queue.Fifo.{Call, run, all_entered, all_removed, run_fifo}
use audio_block_backend.Indexer.Guard.{ReorgGuard, set_cursor, get_overlap_start}
use audio_block_backend.Indexer.Guard.Range.{
  get_overlap_start-none_iff, get_overlap_start_no_gap, get_overlap_start-le_latest,
  deep_reorg-empty_range,
}

abbrev one : Queue ℕ
one = record { max_size = 1; items = []; waiters = []; woken = [] }

-- The second producer has to wait.
abbrev full : Queue ℕ
full = record { max_size = 1; items = 3 ∷ []; waiters = 4 ∷ []; woken = [] }

full_test : Queue.enqueue 4 (Queue.enqueue 3 one) ≡ full
unfolding Queue.enqueue
full_test = refl

queue_bounded_example : IsSound (Queue.enqueue 4 (Queue.enqueue 3 one))
unfolding Queue.make
queue_bounded_example =
    queue_bounded 1 refl (next (next here (waits 3 one)) (waits 4 (Queue.enqueue 3 one)))

full-IsSound : IsSound full
full-IsSound = record { positive = omega arith; bounded = omega arith; awake = inr (omega arith) }

dequeue_batch_unblocks_test :
    let r = Queue.resume (Queue.dequeue_batch 1 full).1 in
    (r.items ≡ drop (min 1 1) (3 ∷ []) ++ 4 ∷ []) × (r.waiters ≡ []) × (r.woken ≡ [])
dequeue_batch_unblocks_test =
    dequeue_batch_unblocks 1 full 4 [] full-IsSound (omega arith) refl refl

abbrev calls : List (Call ℕ)
calls =
    Call.waits 3
    ∷ Call.waits 4
    ∷ Call.takes 1
    ∷ Call.resumes
    ∷ Call.drains
    ∷ Call.waits 5
    ∷ Call.clears
    ∷ []

run_fifo_example : [] ++ all_entered calls one ≡ all_removed calls one ++ (run calls one).items
run_fifo_example = run_fifo calls one

abbrev guard : ReorgGuard
guard = record { cursor = none; config = record { overlap_window = 10; gap_threshold = 100 } }

get_overlap_start-none_iff_test :
    (get_overlap_start 50 (set_cursor 50 guard) ≡ none) ↔ ◌≡◌ {A = ℕ} 50 50
get_overlap_start-none_iff_test = get_overlap_start-none_iff guard 50 50

get_overlap_start_no_gap_example : (1 ≤ 190) × (190 ≤ 200 + 1) × (200 ≤ 190 + 10)
unfolding get_overlap_start set_cursor
get_overlap_start_no_gap_example = get_overlap_start_no_gap guard 200 500 190 refl

get_overlap_start-le_latest_test : 201 ≤ 250
unfolding get_overlap_start set_cursor
get_overlap_start-le_latest_test = get_overlap_start-le_latest guard 200 250 201 (omega arith) refl

deep_reorg-empty_range_example :
    (start : ℕ) × (get_overlap_start 180 (set_cursor 200 guard) ≡ some start) × (180 < start)
deep_reorg-empty_range_example = deep_reorg-empty_range guard 200 180 (omega arith)
