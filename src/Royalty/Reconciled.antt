-- ===== src/Royalty/Reconciled.antt =====
-- What RoyaltyPayoutService.ts makes of the events of the royalty contract.
use audio_block_backend.Base.{
  ℕ, ◌≡◌, refl, ap, ◌∙◌, ◌≢◌, Option, List, [], ◌∷◌, map, String, select_rows,
}
use audio_block_backend.Royalty.{
  RoyaltySplit, RoyaltyPayout, RoyaltyPayoutEvent, is_of_sale, with_actual, mismatched,
  settle_payout, first_event_id, reconcile_payout,
}

-- No event pays the recipient.
pub data Unpaid (key : String) : List RoyaltyPayoutEvent → Type 0 where
  no_event : Unpaid key []
  of_other :
      {e : RoyaltyPayoutEvent} {events : List RoyaltyPayoutEvent}
      → e.recipient_public_key ≢ key
      → Unpaid key events
      → Unpaid key (e ∷ events)

-- The last event that pays the recipient has the amount.
pub data LastPaid (key amount : String) : List RoyaltyPayoutEvent → Type 0 where
  last :
      {e : RoyaltyPayoutEvent} {events : List RoyaltyPayoutEvent}
      → e.recipient_public_key ≡ key
      → e.amount_stroops ≡ amount
      → Unpaid key events
      → LastPaid key amount (e ∷ events)
  later :
      {e : RoyaltyPayoutEvent} {events : List RoyaltyPayoutEvent}
      → LastPaid key amount events
      → LastPaid key amount (e ∷ events)

-- For each split the last event of the recipient gives just the expected amount.
pub data AllPaid (events : List RoyaltyPayoutEvent) : List RoyaltySplit → Type 0 where
  no_split : AllPaid events []
  and_split :
      {s : RoyaltySplit} {splits : List RoyaltySplit}
      → LastPaid s.recipient_public_key s.expected_amount events
      → AllPaid events splits
      → AllPaid events (s ∷ splits)

with_actual-with_actual :
    (events : List RoyaltyPayoutEvent) (splits : List RoyaltySplit)
    → map (with_actual events) (map (with_actual events) splits) ≡ map (with_actual events) splits
unfolding with_actual
with_actual-with_actual events [] = refl
with_actual-with_actual events (s ∷ splits) =
    ap (λ l. with_actual events s ∷ l) (with_actual-with_actual events splits)

settle_payout_keeps :
    (now : ℕ) (o : Option String) (results bad : List RoyaltySplit) (p : RoyaltyPayout)
    → ((settle_payout now o results bad p).sale_event_id ≡ p.sale_event_id)
      × ((settle_payout now o results bad p).expected_splits ≡ results)
unfolding settle_payout
settle_payout_keeps now o results [] p = (refl, refl)
settle_payout_keeps now o results (s ∷ bad) p = (refl, refl)

settle_payout-settle_payout :
    (now : ℕ) (o : Option String) (results bad : List RoyaltySplit) (p : RoyaltyPayout)
    → settle_payout now o results bad (settle_payout now o results bad p)
      ≡ settle_payout now o results bad p
unfolding settle_payout
settle_payout-settle_payout now o results [] p = refl
settle_payout-settle_payout now o results (s ∷ bad) p = refl

-- The payout `q` settled by the events of the sale and the splits of another.
settled_by :
    ℕ → List RoyaltyPayoutEvent → String → List RoyaltySplit → RoyaltyPayout → RoyaltyPayout
settled_by now events sale splits q =
    let of_sale = select_rows (is_of_sale sale) events in
    let results = map (with_actual of_sale) splits in
    settle_payout now (first_event_id of_sale) results (select_rows mismatched results) q

-- Reconciling again with the same events at the same time changes nothing.
pub reconcile_payout_idempotent :
    (now : ℕ) (events : List RoyaltyPayoutEvent) (p : RoyaltyPayout)
    → reconcile_payout now events (reconcile_payout now events p) ≡ reconcile_payout now events p
unfolding reconcile_payout settled_by
reconcile_payout_idempotent now events p =
    let of_sale = select_rows (is_of_sale p.sale_event_id) events in
    let results = map (with_actual of_sale) p.expected_splits in
    let bad = select_rows mismatched results in
    let o = first_event_id of_sale in
    let q = settle_payout now o results bad p in
    let (sale, splits) = settle_payout_keeps now o results bad p in
    ap (λ (k : String × List RoyaltySplit). settled_by now events k.0 k.1 q)
      (λ i. (sale i, splits i))
    ∙ ap (λ (r : List RoyaltySplit). settle_payout now o r (select_rows mismatched r) q)
        (with_actual-with_actual of_sale p.expected_splits)
    ∙ settle_payout-settle_payout now o results bad p
