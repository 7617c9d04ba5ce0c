-- ===== src/Base/Table.antt =====
-- A database table as the list of its rows: what a repository's `findOne`, `save` and `delete` do.
-- A condition is a Boolean test on rows.
use Prim.Native.Nat.{ℕ, suc, ◌+◌, ◌≤◌}
use mathlib.Core.Path.{◌≡◌, refl}
use mathlib.Core.Logic.{inl, inr}
use mathlib.Core.Bool.{Bool, true, false}
use mathlib.Core.Option
use mathlib.Core.Option.{Option, none, some}
use mathlib.Core.List.{List, [], ◌∷◌, ◌++◌, map}
use native.Mathlib.Omega.{arith}
use audio_block_backend.Base.Tests.{if◌then◌else◌, Bool-cases}

module _ {ℓ} {R : Type ℓ} where
  unfoldable pub find_row : (R → Bool) → List R → Option R
  find_row p [] = none
  find_row p (r ∷ rows) = if p r then some r else find_row p rows

  -- The row that fits is replaced; where none fits, the new one is inserted.
  unfoldable pub save_row : (R → Bool) → R → List R → List R
  save_row p r [] = r ∷ []
  save_row p r (x ∷ rows) = if p x then r ∷ rows else x ∷ save_row p r rows

  unfoldable pub select_rows : (R → Bool) → List R → List R
  select_rows p [] = []
  select_rows p (r ∷ rows) = let rest = select_rows p rows in if p r then r ∷ rest else rest

  unfoldable pub delete_rows : (R → Bool) → List R → List R
  delete_rows p [] = []
  delete_rows p (r ∷ rows) = let rest = delete_rows p rows in if p r then rest else r ∷ rest

  unfoldable pub count_rows : (R → Bool) → List R → ℕ
  count_rows p [] = 0
  count_rows p (r ∷ rows) = let rest = count_rows p rows in if p r then suc rest else rest

  pub find_row_fits : (p : R → Bool) (rows : List R) (r : R) → find_row p rows ≡ some r → p r ≡ true
  unfolding find_row
  find_row_fits p [] r e = cc
  find_row_fits p (x ∷ rows) r e = elim (Bool-cases (p x)) [
    | inl h ↦ ground arith
    | inr h ↦ find_row_fits p rows r (rw h at e)
  ]

  pub find_row-save_row :
      (p : R → Bool) (r : R) (rows : List R) → p r ≡ true → find_row p (save_row p r rows) ≡ some r
  unfolding find_row save_row
  find_row-save_row p r [] h = rw h
  find_row-save_row p r (x ∷ rows) h = elim (Bool-cases (p x)) [
    | inl e ↦ rw (e, h)
    | inr e ↦ rw (e, e, find_row-save_row p r rows h)
  ]

  -- A search that the saved row, old and new, does not fit is not changed by the save.
  pub find_row-save_row_other :
      (p q : R → Bool) (r : R) (rows : List R)
      → ((x : R) → p x ≡ true → q x ≡ false)
      → q r ≡ false
      → find_row q (save_row p r rows) ≡ find_row q rows
  unfolding find_row save_row
  find_row-save_row_other p q r [] apart h = rw h
  find_row-save_row_other p q r (x ∷ rows) apart h = elim (Bool-cases (p x)) [
    | inl e ↦ rw (e, h, apart x e)
    | inr e ↦ rw (e, find_row-save_row_other p q r rows apart h)
  ]

  pub find_row-delete_rows : (p : R → Bool) (rows : List R) → find_row p (delete_rows p rows) ≡ none
  unfolding find_row delete_rows
  find_row-delete_rows p [] = refl
  find_row-delete_rows p (x ∷ rows) = elim (Bool-cases (p x)) [
    | inl e ↦ rw (e, find_row-delete_rows p rows)
    | inr e ↦ rw (e, e, find_row-delete_rows p rows)
  ]

  pub find_row-delete_rows_other :
      (p q : R → Bool) (rows : List R)
      → ((x : R) → p x ≡ true → q x ≡ false)
      → find_row q (delete_rows p rows) ≡ find_row q rows
  unfolding find_row delete_rows
  find_row-delete_rows_other p q [] apart = refl
  find_row-delete_rows_other p q (x ∷ rows) apart = elim (Bool-cases (p x)) [
    | inl e ↦ rw (e, apart x e, find_row-delete_rows_other p q rows apart)
    | inr e ↦ rw (e, find_row-delete_rows_other p q rows apart)
  ]

  pub find_row-append :
      (p : R → Bool) (rows : List R) (r : R)
      → find_row p rows ≡ none
      → find_row p (rows ++ r ∷ []) ≡ (if p r then some r else none)
  unfolding find_row
  find_row-append p [] r e = refl
  find_row-append p (x ∷ rows) r e = elim (Bool-cases (p x)) [
    | inl h ↦ absurd (ground arith)
    | inr h ↦ rw h (find_row-append p rows r (rw h at e))
  ]

  pub find_row-append_some :
      (p : R → Bool) (rows more : List R) (r : R)
      → find_row p rows ≡ some r
      → find_row p (rows ++ more) ≡ some r
  unfolding find_row
  find_row-append_some p [] more r e = cc
  find_row-append_some p (x ∷ rows) more r e = elim (Bool-cases (p x)) [
    | inl h ↦ rw h (rw h at e)
    | inr h ↦ rw h (find_row-append_some p rows more r (rw h at e))
  ]

  pub count_rows-append :
      (p : R → Bool) (xs ys : List R) → count_rows p (xs ++ ys) ≡ count_rows p xs + count_rows p ys
  unfolding count_rows
  count_rows-append p [] ys = omega arith
  count_rows-append p (x ∷ xs) ys = ground (arith, count_rows-append p xs ys)

  -- 1 for a row that fits.
  abbrev pub count_option : (R → Bool) → Option R → ℕ
  count_option f none = 0
  count_option f (some r) = if f r then 1 else 0

  -- A save takes the replaced row out of a count and the saved one into it.
  pub count_rows-save_row :
      (p f : R → Bool) (y : R) (rows : List R)
      → count_rows f (save_row p y rows) + count_option f (find_row p rows)
        ≡ count_rows f rows + count_option f (some y)
  unfolding count_rows save_row find_row
  count_rows-save_row p f y [] = ground arith
  count_rows-save_row p f y (x ∷ rows) = elim (Bool-cases (p x)) [
    | inl e ↦ rw e (ground arith)
    | inr e ↦ rw e (ground (arith, count_rows-save_row p f y rows))
  ]

  pub select_rows-append :
      (p : R → Bool) (xs ys : List R)
      → select_rows p (xs ++ ys) ≡ select_rows p xs ++ select_rows p ys
  unfolding select_rows
  select_rows-append p [] ys = refl
  select_rows-append p (x ∷ xs) ys = elim (Bool-cases (p x)) [
    | inl e ↦ rw (e, select_rows-append p xs ys)
    | inr e ↦ rw (e, select_rows-append p xs ys)
  ]

  pub select_rows-delete_rows_other :
      (p q : R → Bool) (rows : List R)
      → ((x : R) → p x ≡ true → q x ≡ false)
      → select_rows q (delete_rows p rows) ≡ select_rows q rows
  unfolding select_rows delete_rows
  select_rows-delete_rows_other p q [] apart = refl
  select_rows-delete_rows_other p q (x ∷ rows) apart = elim (Bool-cases (p x)) [
    | inl e ↦ rw (e, apart x e, select_rows-delete_rows_other p q rows apart)
    | inr e ↦ rw (e, select_rows-delete_rows_other p q rows apart)
  ]

  -- A change of rows that are not selected.
  pub select_rows-map_other :
      (q : R → Bool) (f : R → R) (rows : List R)
      → ((x : R) → q (f x) ≡ q x)
      → ((x : R) → q x ≡ true → f x ≡ x)
      → select_rows q (map f rows) ≡ select_rows q rows
  unfolding select_rows
  select_rows-map_other q f [] same idle = refl
  select_rows-map_other q f (x ∷ rows) same idle = elim (Bool-cases (q x)) [
    | inl e ↦ rw (same x, e, idle x e, select_rows-map_other q f rows same idle)
    | inr e ↦ rw (same x, e, select_rows-map_other q f rows same idle)
  ]

  pub find_row-map :
      (q : R → Bool) (f : R → R) (rows : List R)
      → ((x : R) → q (f x) ≡ q x)
      → find_row q (map f rows) ≡ Option.map f (find_row q rows)
  unfolding find_row
  find_row-map q f [] same = refl
  find_row-map q f (x ∷ rows) same = elim (Bool-cases (q x)) [
    | inl e ↦ rw (same x, e)
    | inr e ↦ rw (same x, e, find_row-map q f rows same)
  ]

  pub count_rows-map :
      (q : R → Bool) (f : R → R) (rows : List R)
      → ((x : R) → q (f x) ≡ q x)
      → count_rows q (map f rows) ≡ count_rows q rows
  unfolding count_rows
  count_rows-map q f [] same = refl
  count_rows-map q f (x ∷ rows) same = ground (arith, same x, count_rows-map q f rows same)

  pub count_rows-delete_rows :
      (p f : R → Bool) (rows : List R) → count_rows f (delete_rows p rows) ≤ count_rows f rows
  unfolding count_rows delete_rows
  count_rows-delete_rows p f [] = omega arith
  count_rows-delete_rows p f (x ∷ rows) = ground (arith, count_rows-delete_rows p f rows)

  pub count_rows-none :
      (p : R → Bool) (rows : List R) → find_row p rows ≡ none → count_rows p rows ≡ 0
  unfolding count_rows find_row
  count_rows-none p [] e = refl
  count_rows-none p (x ∷ rows) e = elim (Bool-cases (p x)) [
    | inl h ↦ absurd (ground arith)
    | inr h ↦ rw h (count_rows-none p rows (rw h at e))
  ]

  -- What is appended is deleted again.
  pub delete_rows-append :
      (p : R → Bool) (rows : List R) (r : R)
      → find_row p rows ≡ none
      → p r ≡ true
      → delete_rows p (rows ++ r ∷ []) ≡ rows
  unfolding delete_rows find_row
  delete_rows-append p [] r e h = rw h
  delete_rows-append p (x ∷ rows) r e h = elim (Bool-cases (p x)) [
    | inl f ↦ absurd (ground arith)
    | inr f ↦ rw (f, delete_rows-append p rows r (rw f at e) h)
  ]

  pub find_row-append_other :
      (p : R → Bool) (rows : List R) (r : R)
      → p r ≡ false
      → find_row p (rows ++ r ∷ []) ≡ find_row p rows
  unfolding find_row
  find_row-append_other p [] r h = rw h
  find_row-append_other p (x ∷ rows) r h = ground (arith, find_row-append_other p rows r h)

  -- A row that is found does not fit a test that no row fits.
  pub find_row-uncounted :
      (p f : R → Bool) (rows : List R) {r : R}
      → count_rows f rows ≡ 0
      → find_row p rows ≡ some r
      → f r ≡ false
  unfolding count_rows find_row
  find_row-uncounted p f [] h e = cc
  find_row-uncounted p f (x ∷ rows) h e = elim (Bool-cases (p x)) [
    | inl g ↦ ground (arith, h, g, e)
    | inr g ↦ find_row-uncounted p f rows (ground (arith, h)) (rw g at e)
  ]

  pub save_row-append :
      (p : R → Bool) (rows : List R) (r y : R)
      → find_row p rows ≡ none
      → p r ≡ true
      → save_row p y (rows ++ r ∷ []) ≡ rows ++ y ∷ []
  unfolding save_row find_row
  save_row-append p [] r y e h = rw h
  save_row-append p (x ∷ rows) r y e h = elim (Bool-cases (p x)) [
    | inl g ↦ absurd (ground arith)
    | inr g ↦ rw (g, save_row-append p rows r y (rw g at e) h)
  ]
