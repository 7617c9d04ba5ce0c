-- ===== src/Projector.antt =====
-- src/services/EventProjector.ts over the interface of src/services/projections/EventProjection.ts.
-- A projection's read model and its checkpoint are changed in one transaction under a lock, so each
-- batch is one step. `view` and `clock` give the rows of `indexed_events`, in the order of
-- `ingestSeq`, and the time that a step sees.
pub mod Rows
pub mod Replay
pub mod Counts
use audio_block_backend.Base.{
  ℕ, zero, suc, ◌+◌, ◌≡◌, Bool, true, false, ◌&&◌, Option, none, some, List, [], ◌∷◌, ◌++◌, String,
  ltb, leb, ◌==◌, if◌then◌else◌, select_rows, str_eq, non_empty, or_text, length, take,
}
use audio_block_backend.Indexer.Events.{IndexedEvent}

-- What the projector relies on of a projection: applying a batch after another is applying both at
-- once, and a reset forgets all.
pub record EventProjection : Type 1 where
  pub name : String
  pub Model : Type 0
  pub reset : Model → Model
  pub apply : List IndexedEvent → Model → Model
  pub apply-append :
      (xs ys : List IndexedEvent) (m : Model) → apply (xs ++ ys) m ≡ apply ys (apply xs m)
  pub apply-nil : (m : Model) → apply [] m ≡ m
  pub reset-eq : (m n : Model) → reset m ≡ reset n

pub record ProjectionCheckpoint : Type 0 where
  pub last_ingest_seq : ℕ
  pub events_applied : ℕ
  pub last_rebuilt_at : Option ℕ

-- A projection that has no stored checkpoint begins with this one.
abbrev pub new_checkpoint : ProjectionCheckpoint
new_checkpoint = record { last_ingest_seq = 0; events_applied = 0; last_rebuilt_at = none }

pub record ProjectionRunResult : Type 0 where
  pub projection : String
  pub events_applied : ℕ
  pub last_ingest_seq : ℕ
  pub rebuilt : Bool

-- `indexedAt <= now - settleMs`
unfoldable pub is_settled : ℕ → ℕ → IndexedEvent → Bool
is_settled settle now r = leb (r.indexed_at + settle) now

abbrev pub is_after : ℕ → IndexedEvent → Bool
is_after last r = ltb last r.ingest_seq

unfoldable pub next_events : ℕ → ℕ → ℕ → ℕ → List IndexedEvent → List IndexedEvent
unfolding is_settled
next_events batch_size settle now last rows =
    take batch_size (select_rows (λ r. is_after last r && is_settled settle now r) rows)

-- `events[events.length - 1].ingestSeq`, and `last` where there is none.
unfoldable pub last_seq : ℕ → List IndexedEvent → ℕ
last_seq last [] = last
last_seq last (r ∷ rows) = last_seq r.ingest_seq rows

module _ (p : EventProjection) (batch_size settle : ℕ) where
  open p use {Model, reset, apply}

  -- The stored read model and checkpoint.
  pub record Stored : Type 0 where
    pub model : Model
    pub checkpoint : ProjectionCheckpoint

  unfoldable pub apply_events : List IndexedEvent → Stored → ℕ × Stored
  unfolding last_seq
  apply_events [] s = (0, s)
  apply_events (r ∷ rows) s = (
    length (r ∷ rows),
    record {
      model = apply (r ∷ rows) s.model;
      checkpoint = record s.checkpoint {
        last_ingest_seq = last_seq s.checkpoint.last_ingest_seq (r ∷ rows);
        events_applied = s.checkpoint.events_applied + length (r ∷ rows);
      };
    },
  )

  unfoldable pub apply_next_batch : ℕ → List IndexedEvent → Stored → ℕ × Stored
  unfolding next_events apply_events
  apply_next_batch now rows s =
      apply_events (next_events batch_size settle now s.checkpoint.last_ingest_seq rows) s

  -- The loops of `catchUpOne` and `rebuildOne`: a batch that is not full is the last. `none` where
  -- the fuel is used up.
  unfoldable pub apply_batches :
      (ℕ → ℕ) → (ℕ → List IndexedEvent) → ℕ → ℕ → ℕ → Stored → Option (ℕ × Stored)
  unfolding apply_next_batch
  apply_batches clock view zero i total s = none
  apply_batches clock view (suc fuel) i total s =
      let (applied, s') = apply_next_batch (clock i) (view i) s in
      let rest = apply_batches clock view fuel (suc i) (total + applied) s' in
      if ltb applied batch_size then some (total + applied, s') else rest

  unfoldable pub run_result : Bool → ℕ × Stored → ProjectionRunResult
  run_result rebuilt (total, s) = record {
    projection = p.name;
    events_applied = total;
    last_ingest_seq = s.checkpoint.last_ingest_seq;
    rebuilt = rebuilt;
  }

  unfoldable pub catch_up_one :
      (ℕ → ℕ) → (ℕ → List IndexedEvent) → ℕ → Stored → Option (ProjectionRunResult × Stored)
  unfolding apply_batches run_result
  catch_up_one clock view fuel s = elim (apply_batches clock view fuel 0 0 s) [
    | none ↦ none
    | some r ↦ some (run_result false r, r.1)
  ]

  unfoldable pub reset_stored : ℕ → Stored → Stored
  reset_stored now s = record {
    model = reset s.model;
    checkpoint = record { last_ingest_seq = 0; events_applied = 0; last_rebuilt_at = some now };
  }

  unfoldable pub rebuild_one :
      (ℕ → ℕ) → (ℕ → List IndexedEvent) → ℕ → Stored → Option (ProjectionRunResult × Stored)
  unfolding apply_batches run_result reset_stored
  rebuild_one clock view fuel s =
      elim (apply_batches clock view fuel 0 0 (reset_stored (clock 0) s)) [
        | none ↦ none
        | some r ↦ some (run_result true r, r.1)
      ]

-- The projections that a call names: all of them without a name; `none` where it throws.
unfoldable pub select : Option String → List String → Option (List String)
select name projections = elim (non_empty (or_text name "")) [
  | none ↦ some projections
  | some n ↦
      let found = select_rows (λ p. str_eq p n) projections in
      if length found == 0 then none else some found
]
