-- ===== src/Tests/RoyaltyTests.antt =====
-- services/RoyaltyPayoutService.ts and services/CollaborationService.ts: one song of two.
use audio_block_backend.Base.{
  ℕ, ◌+◌, ◌≤◌, ◌<◌, ◌≡◌, refl, none, some, List, [], ◌∷◌, arith, find_row, select_rows, decimal,
  length,
}
use audio_block_backend.Royalty.{
  RoyaltyPayout, RoyaltyPayoutEvent, User, Collaborator, key_of, split_of, build_splits, new_payout,
  reconcile_payout,
}
use audio_block_backend.Royalty.Splits.{
  Expects, sum, total_amount, total_bps, shares_of, build_splits-le_gross, build_splits_dust,
  build_splits_over_gross,
}
use audio_block_backend.Royalty.Reconciled.{reconcile_payout_idempotent}
use audio_block_backend.Collaborators.{
  Song, AddCollaboratorInput, add_collaborator, throws, validation, get_song, may_manage,
  add_allowed, add_checked, list_collaborators, shares_within_100, total_share,
}
use audio_block_backend.Collaborators.Shares.{Fair}
use audio_block_backend.Collaborators.Runs.{begin, next, adds, Reach-Fair}

abbrev users : List User
users =
    record { id = "u1"; stellar_public_key = some "G1" }
    ∷ record { id = "u2"; stellar_public_key = some "G2" }
    ∷ []

abbrev shared : ℕ → ℕ → List Collaborator
shared a b =
    record { user_id = "u1"; share_bps = a } ∷ record { user_id = "u2"; share_bps = b } ∷ []

build_test :
    build_splits decimal 1001 users (shared 5000 5000)
    ≡ record {
      recipient_public_key = "G1";
      share_bps = 5000;
      expected_amount = "500";
      actual_amount = none;
    }
      ∷ record {
        recipient_public_key = "G2";
        share_bps = 5000;
        expected_amount = "500";
        actual_amount = none;
      }
      ∷ []
unfolding build_splits key_of split_of find_row decimal
build_test = refl

build_splits-le_gross_example :
    (ns : List ℕ) × Expects decimal 1001 (build_splits decimal 1001 users (shared 5000 5000)) ns
    × (sum ns ≤ 1001)
unfolding shares_of
build_splits-le_gross_example =
    build_splits-le_gross decimal 1001 users (shared 5000 5000) (omega arith)

build_splits_dust_test :
    let splits = build_splits decimal 1001 users (shared 5000 5000) in
    (total_amount 1001 splits ≤ 1001) × (1001 ≤ total_amount 1001 splits + length splits)
unfolding total_bps build_splits key_of split_of find_row
build_splits_dust_test = build_splits_dust decimal 1001 users (shared 5000 5000) refl

build_splits_over_gross_test :
    50000 < total_amount 50000 (build_splits decimal 50000 users (shared 6001 4000))
unfolding total_bps build_splits key_of split_of find_row
build_splits_over_gross_test =
    build_splits_over_gross decimal 50000 users (shared 6001 4000) refl (omega arith)

abbrev paid_event : RoyaltyPayoutEvent
paid_event = record {
  sale_event_id = "s1";
  on_chain_event_id = "e1";
  recipient_public_key = "G1";
  amount_stroops = "500";
}

abbrev paid : List RoyaltyPayoutEvent
paid = paid_event ∷ []

abbrev payout : RoyaltyPayout
payout = new_payout "s1" none "500" (
    record {
      recipient_public_key = "G1";
      share_bps = 10000;
      expected_amount = "500";
      actual_amount = none;
    }
    ∷ [])

reconcile_payout_idempotent_test :
    reconcile_payout 9 paid (reconcile_payout 9 paid payout) ≡ reconcile_payout 9 paid payout
reconcile_payout_idempotent_test = reconcile_payout_idempotent 9 paid payout

abbrev songs : List Song
songs = record { id = "song"; artist_id = "u1"; mint_status = none } ∷ []

abbrev input : AddCollaboratorInput
input = record { user_id = "u2"; role = "mixer"; royalty_share = 10001 }

too_much_test :
    (add_collaborator "song" "u1" (record input { royalty_share = 10002 }) songs []).0
    ≡ throws validation
unfolding add_collaborator may_manage get_song find_row add_allowed add_checked shares_within_100
    list_collaborators select_rows total_share
too_much_test = refl

Reach-Fair_example : Fair (add_collaborator "song" "u1" input songs []).1
Reach-Fair_example = Reach-Fair (next begin (adds "song" "u1" input songs))
