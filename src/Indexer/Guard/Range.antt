-- ===== src/Indexer/Guard/Range.antt =====
-- The ledger range that IndexerReorgGuard.ts asks for.
use audio_block_backend.Base.{ℕ, ◌+◌, ◌-◌, ◌≤◌, ◌<◌, max, ◌≡◌, ◌↔◌, none, some, arith}
use audio_block_backend.Indexer.Guard.{ReorgGuard, set_cursor, get_overlap_start, update_cursor}

-- Nothing is fetched exactly when the RPC's tip is the cursor.
pub get_overlap_start-none_iff :
    (g : ReorgGuard) (cursor latest : ℕ)
    → (get_overlap_start latest (set_cursor cursor g) ≡ none) ↔ (latest ≡ cursor)
unfolding get_overlap_start set_cursor
get_overlap_start-none_iff g cursor latest = ground arith

-- Whatever the tip, a range that is asked for begins at a real ledger and at the ledger after the
-- cursor at the latest, so it skips nothing; and when it goes back, it goes back by the window at
-- most.
pub get_overlap_start_no_gap :
    (g : ReorgGuard) (cursor latest start : ℕ)
    → get_overlap_start latest (set_cursor cursor g) ≡ some start
    → (1 ≤ start) × (start ≤ cursor + 1) × (cursor ≤ start + g.overlap_window)
unfolding get_overlap_start set_cursor
get_overlap_start_no_gap g cursor latest start e = ground arith

-- With a tip beyond the cursor the range is never empty.
pub get_overlap_start-le_latest :
    (g : ReorgGuard) (cursor latest start : ℕ)
    → cursor < latest
    → get_overlap_start latest (set_cursor cursor g) ≡ some start
    → start ≤ latest
unfolding get_overlap_start set_cursor
get_overlap_start-le_latest g cursor latest start h e = ground arith

-- A tip that has fallen behind the cursor by more than the window gives a range that ends before
-- it begins, whatever the cursor.
pub deep_reorg-empty_range :
    (g : ReorgGuard) (cursor latest : ℕ)
    → latest + g.overlap_window < cursor
    → (start : ℕ) × (get_overlap_start latest (set_cursor cursor g) ≡ some start) × (latest < start)
unfolding get_overlap_start set_cursor
deep_reorg-empty_range g cursor latest h =
    (max 1 (cursor - g.overlap_window), ground arith, omega arith)

-- The guard's cursor never goes back.
pub update_cursor-monotone :
    (g : ReorgGuard) (cursor ledger : ℕ)
    → (update_cursor ledger (set_cursor cursor g)).cursor ≡ some (max cursor ledger)
unfolding update_cursor set_cursor
update_cursor-monotone g cursor ledger = ground arith
