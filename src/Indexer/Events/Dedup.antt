-- ===== src/Indexer/Events/Dedup.antt =====
-- IndexedEventService.ts inserts each on-chain event once.
use audio_block_backend.Base.{
  ℕ, ◌≡◌, refl, ◌⊎◌, inl, inr, true, Option, none, some, List, [], ◌∷◌, ◌++◌, arith, String,
  Bool-cases, Option-cases, str_eq_refl,
}
use audio_block_backend.Indexer.Events.{
  InsertIndexedEvent, IndexedEvent, Store, Save, saved, raced, vanished, failed, Where, fits,
  find_one, network_of, event_id_of, where_of, event_of, insert_new, upsert_event, text_fits,
  ledger_fits,
}

text_fits_refl : (o : Option String) → text_fits o o ≡ true
text_fits_refl none = refl
text_fits_refl (some s) = str_eq_refl s

ledger_fits_refl : (o : Option ℕ) → ledger_fits o o ≡ true
ledger_fits_refl none = refl
ledger_fits_refl (some n) = ground arith

pub fits-event_of :
    (dto : InsertIndexedEvent) (seq now : ℕ) → fits (where_of dto) (event_of dto seq now) ≡ true
unfolding fits where_of event_of
fits-event_of dto seq now = rw (
  str_eq_refl (network_of dto),
  str_eq_refl (event_id_of dto),
  text_fits_refl dto.contract_id,
  ledger_fits_refl dto.ledger,
)

find_one-append :
    (w : Where) (rows : List IndexedEvent) (r : IndexedEvent)
    → fits w r ≡ true
    → (e : IndexedEvent) × (find_one w (rows ++ r ∷ []) ≡ some e)
unfolding find_one
find_one-append w [] r h = (r, rw h)
find_one-append w (x ∷ rows) r h = elim (Bool-cases (fits w x)) [
  | inl e ↦ (x, rw e)
  | inr e ↦ let (y, f) = find_one-append w rows r h in (y, rw e f)
]

-- Two rows agree on the columns of the unique constraint.
pub record SameKey (r s : IndexedEvent) : Type 0 where
  pub network : r.network ≡ s.network
  pub contract_id : r.contract_id ≡ s.contract_id
  pub ledger : r.ledger ≡ s.ledger
  pub event_id : r.event_id ≡ s.event_id

abbrev pub NoneLike : IndexedEvent → List IndexedEvent → Type 0
NoneLike r [] = Unit
NoneLike r (s ∷ rows) = ¬ SameKey s r × NoneLike r rows

abbrev pub NotAgain : IndexedEvent → List IndexedEvent → Type 0
NotAgain r [] = Unit
NotAgain r (s ∷ rows) = ¬ SameKey r s × NotAgain r rows

-- No two rows agree on the columns of the unique constraint.
abbrev pub IsDeduped : List IndexedEvent → Type 0
IsDeduped [] = Unit
IsDeduped (r ∷ rows) = NotAgain r rows × IsDeduped rows

fits-SameKey : (w : Where) (r s : IndexedEvent) → SameKey r s → fits w r ≡ fits w s
unfolding fits
fits-SameKey w r s k = rw (k.network, k.event_id, k.contract_id, k.ledger)

NoneLike-of_find_one :
    (w : Where) (r : IndexedEvent) (rows : List IndexedEvent)
    → fits w r ≡ true
    → find_one w rows ≡ none
    → NoneLike r rows
unfolding find_one
NoneLike-of_find_one w r [] h e = tt
NoneLike-of_find_one w r (s ∷ rows) h e = elim (Bool-cases (fits w s)) [
  | inl yes_fits ↦ absurd (ground arith)
  | inr not_fits ↦
      (λ k. cc (fits-SameKey w s r k), NoneLike-of_find_one w r rows h (rw not_fits at e))
]

NotAgain-append :
    (r s : IndexedEvent) (rows : List IndexedEvent)
    → NotAgain r rows
    → ¬ SameKey r s
    → NotAgain r (rows ++ s ∷ [])
NotAgain-append r s [] h k = (k, tt)
NotAgain-append r s (x ∷ rows) h k = (h.0, NotAgain-append r s rows h.1 k)

IsDeduped-append :
    (rows : List IndexedEvent) (r : IndexedEvent)
    → IsDeduped rows
    → NoneLike r rows
    → IsDeduped (rows ++ r ∷ [])
IsDeduped-append [] r h k = (tt, tt)
IsDeduped-append (x ∷ rows) r h k =
    (NotAgain-append x r rows h.0 k.0, IsDeduped-append rows r h.1 k.1)

insert_new-IsDeduped :
    (s : Save) (dto : InsertIndexedEvent) (now : ℕ) (st : Store)
    → IsDeduped st.rows
    → NoneLike (event_of dto st.next_seq now) st.rows
    → IsDeduped (insert_new s dto now st).1.rows
unfolding insert_new
insert_new-IsDeduped saved dto now st h k = IsDeduped-append st.rows _ h k
insert_new-IsDeduped raced dto now st h k = IsDeduped-append st.rows _ h k
insert_new-IsDeduped vanished dto now st h k = h
insert_new-IsDeduped failed dto now st h k = h

-- Whatever the database answers, a call never stores two rows that agree on network, contract,
-- ledger and event id.
pub upsert_event-IsDeduped :
    (db : ℕ → Save) (now : ℕ) (dto : InsertIndexedEvent) (st : Store)
    → IsDeduped st.rows
    → IsDeduped (upsert_event db now dto st).1.rows
unfolding upsert_event
upsert_event-IsDeduped db now dto st h = elim (Option-cases (find_one (where_of dto) st.rows)) [
  | inl e ↦
      rw (e, upsert_event)
        (insert_new-IsDeduped (db st.saves) dto now st h
          (NoneLike-of_find_one (where_of dto) _ st.rows (fits-event_of dto st.next_seq now) e))
  | inr (r, e) ↦ rw (e, upsert_event) h
]

insert_new-finds :
    (s : Save) (dto : InsertIndexedEvent) (now : ℕ) (st : Store) (r : IndexedEvent)
    → (insert_new s dto now st).0 ≡ some r
    → (e : IndexedEvent) × (find_one (where_of dto) (insert_new s dto now st).1.rows ≡ some e)
unfolding insert_new
insert_new-finds saved dto now st r h =
    find_one-append (where_of dto) st.rows _ (fits-event_of dto st.next_seq now)
insert_new-finds raced dto now st r h = (r, h)
insert_new-finds vanished dto now st r h = cc
insert_new-finds failed dto now st r h = cc

-- After a call that returned a row, a repeated call of the same event returns a row and changes
-- nothing, whatever the database would answer.
pub upsert_event_idempotent :
    (db again : ℕ → Save) (now later : ℕ) (dto : InsertIndexedEvent) (st : Store) (r : IndexedEvent)
    → (upsert_event db now dto st).0 ≡ some r
    → (e : IndexedEvent) × (upsert_event again later dto (upsert_event db now dto st).1
        ≡ (some e, (upsert_event db now dto st).1))
unfolding upsert_event
upsert_event_idempotent db again now later dto st r h =
    let (e, found) = stays (Option-cases (find_one (where_of dto) st.rows)) in
    (e, rw (found, upsert_event))
  where
    stays :
        (find_one (where_of dto) st.rows ≡ none)
          ⊎ ((x : IndexedEvent) × (find_one (where_of dto) st.rows ≡ some x))
        → (e : IndexedEvent) × (find_one (where_of dto) (upsert_event db now dto st).1.rows
            ≡ some e)
    stays (inl f) =
        rw (f, upsert_event)
          (insert_new-finds (db st.saves) dto now st r (rw (f, upsert_event) at h))
    stays (inr (x, f)) = (x, rw (f, upsert_event) f)
