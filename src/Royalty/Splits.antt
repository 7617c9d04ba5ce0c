-- ===== src/Royalty/Splits.antt =====
-- The amounts of the splits that RoyaltyPayoutService.ts expects.
use audio_block_backend.Base.{
  ℕ, ◌+◌, ◌*◌, ◌≤◌, ◌<◌, ◌≡◌, refl, ap, inl, inr, List, [], ◌∷◌, arith, String, Option-cases,
  length,
}
use native.Mathlib.Nat.{mul-le-mul_left}
use audio_block_backend.Royalty.{
  amount_of, RoyaltySplit, User, Collaborator, key_of, split_of, build_splits,
}

-- What is paid out by all splits.
pub total_amount : ℕ → List RoyaltySplit → ℕ
total_amount gross [] = 0
total_amount gross (s ∷ splits) = amount_of gross s.share_bps + total_amount gross splits

unfoldable pub total_bps : List RoyaltySplit → ℕ
total_bps [] = 0
total_bps (s ∷ splits) = s.share_bps + total_bps splits

-- The shares of all collaborators, with or without a key.
unfoldable pub shares_of : List Collaborator → ℕ
shares_of [] = 0
shares_of (c ∷ cs) = c.share_bps + shares_of cs

amount_of_bounds :
    (gross bps : ℕ)
    → (10000 * amount_of gross bps ≤ gross * bps)
      × (gross * bps < 10000 * amount_of gross bps + 10000)
unfolding amount_of
amount_of_bounds gross bps = omega arith

total_amount_bounds :
    (gross : ℕ) (splits : List RoyaltySplit)
    → (10000 * total_amount gross splits ≤ gross * total_bps splits)
      × (gross * total_bps splits ≤ 10000 * total_amount gross splits + 9999 * length splits)
unfolding total_amount total_bps
total_amount_bounds gross [] = omega arith
total_amount_bounds gross (s ∷ splits) =
    omega (arith, total_amount_bounds gross splits, amount_of_bounds gross s.share_bps)

total_bps-build_splits :
    (text : ℕ → String) (gross : ℕ) (users : List User) (cs : List Collaborator)
    → total_bps (build_splits text gross users cs) ≤ shares_of cs
unfolding total_bps shares_of build_splits split_of
total_bps-build_splits text gross users [] = omega arith
total_bps-build_splits text gross users (c ∷ cs) = elim (Option-cases (key_of users c)) [
  | inl e ↦ rw (e, build_splits) (omega (arith, total_bps-build_splits text gross users cs))
  | inr (k, e) ↦ rw (e, build_splits) (omega (arith, total_bps-build_splits text gross users cs))
]

total_amount-le :
    (text : ℕ → String) (gross : ℕ) (users : List User) (cs : List Collaborator)
    → shares_of cs ≤ 10000
    → total_amount gross (build_splits text gross users cs) ≤ gross
total_amount-le text gross users cs h =
    let splits = build_splits text gross users cs in
    let within : total_bps splits ≤ 10000 =
      omega (arith, h, total_bps-build_splits text gross users cs) in
    omega (arith, total_amount_bounds gross splits, mul-le-mul_left gross within)

-- The amounts that the splits record: each is the text of the split's share of the gross amount,
-- rounded down.
pub data Expects (text : ℕ → String) (gross : ℕ) : List RoyaltySplit → List ℕ → Type 0 where
  no_more : Expects text gross [] []
  and_one :
      {s : RoyaltySplit} {splits : List RoyaltySplit} {n : ℕ} {ns : List ℕ}
      → s.expected_amount ≡ text n
      → 10000 * n ≤ gross * s.share_bps
      → gross * s.share_bps < 10000 * n + 10000
      → Expects text gross splits ns
      → Expects text gross (s ∷ splits) (n ∷ ns)

abbrev pub sum : List ℕ → ℕ
sum [] = 0
sum (n ∷ ns) = n + sum ns

build_splits-Expects :
    (text : ℕ → String) (gross : ℕ) (users : List User) (cs : List Collaborator)
    → let splits = build_splits text gross users cs in
      (ns : List ℕ) × Expects text gross splits ns × (sum ns ≡ total_amount gross splits)
unfolding build_splits split_of total_amount
build_splits-Expects text gross users [] = ([], no_more, refl)
build_splits-Expects text gross users (c ∷ cs) =
    let (ns, e, same) = build_splits-Expects text gross users cs in
    elim (Option-cases (key_of users c)) [
      | inl f ↦ rw (f, build_splits) (ns, e, same)
      | inr (k, f) ↦
          let (low, high) = amount_of_bounds gross c.share_bps in
          rw (f, build_splits)
            (amount_of gross c.share_bps ∷ ns, and_one refl low high e, omega (arith, same))
    ]

-- While the collaborators' shares, rounded to hundredths of a percent, sum up to 100% at most, the
-- splits record the texts of amounts that sum up to the gross amount at most, each the split's share
-- of it, rounded down.
pub build_splits-le_gross :
    (text : ℕ → String) (gross : ℕ) (users : List User) (cs : List Collaborator)
    → shares_of cs ≤ 10000
    → (ns : List ℕ) × Expects text gross (build_splits text gross users cs) ns × (sum ns ≤ gross)
build_splits-le_gross text gross users cs h =
    let (ns, e, same) = build_splits-Expects text gross users cs in
    (ns, e, omega (arith, same, total_amount-le text gross users cs h))

-- Where the splits have 100%, what rounding leaves undistributed is one unit for each split at most.
pub build_splits_dust :
    (text : ℕ → String) (gross : ℕ) (users : List User) (cs : List Collaborator)
    → total_bps (build_splits text gross users cs) ≡ 10000
    → let splits = build_splits text gross users cs in
      (total_amount gross splits ≤ gross) × (gross ≤ total_amount gross splits + length splits)
build_splits_dust text gross users cs h =
    let splits = build_splits text gross users cs in
    let all : gross * total_bps splits ≡ gross * 10000 = ap (λ n. gross * n) h in
    omega (arith, total_amount_bounds gross splits, all)

-- Where the splits have the 100.01% that the tolerance lets pass, and the gross amount is above 9999
-- units for each split, they pay out more than the gross amount.
pub build_splits_over_gross :
    (text : ℕ → String) (gross : ℕ) (users : List User) (cs : List Collaborator)
    → let splits = build_splits text gross users cs in
      total_bps splits ≡ 10001 → 9999 * length splits < gross → gross < total_amount gross splits
build_splits_over_gross text gross users cs h k =
    let splits = build_splits text gross users cs in
    let all : gross * total_bps splits ≡ gross * 10001 = ap (λ n. gross * n) h in
    omega (arith, total_amount_bounds gross splits, all, k)
