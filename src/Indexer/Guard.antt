-- ===== src/Indexer/Guard.antt =====
-- src/services/Soroban/IndexerReorgGuard.ts. Ledger numbers are natural numbers; `-` stops at 0,
-- where the source goes below it, and the `max 1` over each difference makes the two agree.
pub mod Range
use audio_block_backend.Base.{ℕ, ◌+◌, ◌-◌, ◌*◌, max, Option, none, some, ltb, ◌==◌, if◌then◌else◌}

pub record ReorgGuardConfig : Type 0 where
  pub overlap_window : ℕ
  pub gap_threshold : ℕ

pub record ReorgGuard : Type 0 where
  pub cursor : Option ℕ
  pub config : ReorgGuardConfig
  pub open config use *

unfoldable pub make : ReorgGuardConfig → ReorgGuard
make c = record { cursor = none; config = c }

unfoldable pub set_cursor : ℕ → ReorgGuard → ReorgGuard
set_cursor ledger g = record g { cursor = some ledger }

unfoldable pub overlap_from : ℕ → ℕ → ReorgGuardConfig → Option ℕ
overlap_from cursor latest c =
    if ltb latest cursor
    then some (max 1 (cursor - c.overlap_window))
    else (if latest == cursor
        then none
        else (if ltb c.gap_threshold (latest - cursor)
            then some (max 1 (cursor - c.overlap_window))
            else some (cursor + 1)))

unfoldable pub get_overlap_start : ℕ → ReorgGuard → Option ℕ
unfolding overlap_from
get_overlap_start latest g = elim g.cursor [
  | none ↦ some (max 1 (latest - g.overlap_window))
  | some cursor ↦ overlap_from cursor latest g.config
]

unfoldable pub update_cursor : ℕ → ReorgGuard → ReorgGuard
update_cursor ledger g = elim g.cursor [
  | none ↦ record g { cursor = some ledger }
  | some cursor ↦ if ltb cursor ledger then record g { cursor = some ledger } else g
]
