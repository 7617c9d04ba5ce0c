-- ===== src/Projector/Rows.antt =====
-- The rows that EventProjector.ts takes for its next batch.
use audio_block_backend.Base.{
  ℕ, ◌≤◌, ◌<◌, ◌≡◌, refl, ap, ◌∙◌, inl, inr, true, false, ◌&&◌, List, [], ◌∷◌, ◌++◌, arith, ltb,
  lt→ltb, Bool-cases, select_rows, take,
}
use audio_block_backend.Indexer.Events.{IndexedEvent}
use audio_block_backend.Projector.{is_settled, is_after, next_events, last_seq}

-- Sequence numbers above `b`, each larger than the one before.
abbrev pub AscendingFrom : ℕ → List IndexedEvent → Type 0
AscendingFrom b [] = Unit
AscendingFrom b (r ∷ rows) = (b < r.ingest_seq) × AscendingFrom r.ingest_seq rows

-- The rows that have settled when a step looks.
unfoldable pub settled : ℕ → ℕ → List IndexedEvent → List IndexedEvent
settled settle now rows = select_rows (is_settled settle now) rows

last_seq-ge : (b : ℕ) (xs ys : List IndexedEvent) → AscendingFrom b (xs ++ ys) → b ≤ last_seq b xs
unfolding last_seq
last_seq-ge b [] ys h = omega arith
last_seq-ge b (x ∷ xs) ys h = omega (arith, last_seq-ge x.ingest_seq xs ys h.1, h.0)

select_after-all :
    (last b : ℕ) (rows : List IndexedEvent)
    → last ≤ b
    → AscendingFrom b rows
    → select_rows (is_after last) rows ≡ rows
unfolding select_rows
select_after-all last b [] le h = refl
select_after-all last b (r ∷ rows) le h =
    let t : ltb last r.ingest_seq ≡ true = lt→ltb last r.ingest_seq (omega (arith, h.0)) in
    rw (t, select_after-all last r.ingest_seq rows (omega (arith, h.0)) h.1)

-- What stands after the last of `xs` is `ys`.
pub select_after-append :
    (b : ℕ) (xs ys : List IndexedEvent)
    → AscendingFrom b (xs ++ ys)
    → select_rows (is_after (last_seq b xs)) (xs ++ ys) ≡ ys
unfolding select_rows last_seq
select_after-append b [] ys h = select_after-all b b ys (omega arith) h
select_after-append b (x ∷ xs) ys h =
    let t : ltb (last_seq x.ingest_seq xs) x.ingest_seq ≡ false =
      ground (arith, last_seq-ge x.ingest_seq xs ys h.1) in
    rw (t, select_after-append x.ingest_seq xs ys h.1)

pub last_seq-append :
    (b : ℕ) (xs ys : List IndexedEvent) → last_seq b (xs ++ ys) ≡ last_seq (last_seq b xs) ys
unfolding last_seq
last_seq-append b [] ys = refl
last_seq-append b (x ∷ xs) ys = last_seq-append x.ingest_seq xs ys

select-settled :
    (last settle now : ℕ) (rows : List IndexedEvent)
    → select_rows (λ r. is_after last r && is_settled settle now r) rows
      ≡ select_rows (is_after last) (settled settle now rows)
unfolding select_rows settled
select-settled last settle now [] = refl
select-settled last settle now (r ∷ rows) = elim (Bool-cases (is_settled settle now r)) [
  | inl e ↦ elim (Bool-cases (is_after last r)) [
    | inl f ↦ rw (e, f, select-settled last settle now rows)
    | inr f ↦ rw (e, f, select-settled last settle now rows)
  ]
  | inr e ↦ elim (Bool-cases (is_after last r)) [
    | inl f ↦ rw (e, f, select-settled last settle now rows)
    | inr f ↦ rw (e, f, select-settled last settle now rows)
  ]
]

-- Where the settled rows are `xs` and then `ys`, and `xs` has been applied, the next batch is the
-- front of `ys`.
pub next_events-append :
    (size settle now : ℕ) (rows xs ys : List IndexedEvent)
    → settled settle now rows ≡ xs ++ ys
    → AscendingFrom 0 (xs ++ ys)
    → next_events size settle now (last_seq 0 xs) rows ≡ take size ys
unfolding next_events
next_events-append size settle now rows xs ys e h = ap (take size) (
    select-settled (last_seq 0 xs) settle now rows
    ∙ ap (select_rows (is_after (last_seq 0 xs))) e
    ∙ select_after-append 0 xs ys h)
