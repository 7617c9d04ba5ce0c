-- ===== src/Subscriptions/Rows.antt =====
-- Searches of a table from its newest row, where a test fits one row at most.
use audio_block_backend.Pages.{newest_first}
use audio_block_backend.Base.{
  suc, ◌≤◌, ◌≡◌, refl, sym, ◌∙◌, inl, inr, Bool, true, none, some, List, [], ◌∷◌, ◌++◌, arith,
  Bool-cases, find_row, count_rows, find_row-append, count_rows-append, find_row-append_other,
  find_row-uncounted,
}

module _ {R : Type 0} where
  pub newest_first-append :
      (rows : List R) (r : R) → newest_first (rows ++ r ∷ []) ≡ r ∷ newest_first rows
  unfolding newest_first
  newest_first-append [] r = refl
  newest_first-append (x ∷ rows) r = rw (newest_first-append rows r)

  pub count_rows-newest_first :
      (p : R → Bool) (rows : List R) → count_rows p (newest_first rows) ≡ count_rows p rows
  unfolding newest_first count_rows
  count_rows-newest_first p [] = refl
  count_rows-newest_first p (x ∷ rows) =
      let e = count_rows-append p (newest_first rows) (x ∷ []) in
      let ih = count_rows-newest_first p rows in ground (arith, e, ih)

  pub find_row-count_zero :
      (p : R → Bool) (rows : List R) → count_rows p rows ≡ 0 → find_row p rows ≡ none
  unfolding count_rows find_row
  find_row-count_zero p [] h = refl
  find_row-count_zero p (x ∷ rows) h = elim (Bool-cases (p x)) [
    | inl e ↦ absurd (ground arith)
    | inr e ↦ rw e (find_row-count_zero p rows (rw e at h))
  ]

  -- The row that one test finds is the one that another finds, if only one row fits the other.
  pub find_row-sole :
      (p q : R → Bool) (rows : List R) {r : R}
      → count_rows q rows ≤ 1
      → find_row p rows ≡ some r
      → q r ≡ true
      → find_row q rows ≡ some r
  unfolding count_rows find_row
  find_row-sole p q [] h e f = cc
  find_row-sole p q (x ∷ rows) {r} h e f = elim (Bool-cases (q x)) [
    | inl g ↦ elim (Bool-cases (p x)) [
      | inl k ↦ rw g (rw k at e)
      | inr k ↦
          let h' : suc (count_rows q rows) ≤ 1 = rw g at h in
          let e' : find_row p rows ≡ some r = rw k at e in
          let none_fits = find_row-uncounted p q rows (omega arith) e' in cc
    ]
    | inr g ↦ elim (Bool-cases (p x)) [
      | inl k ↦ ground arith
      | inr k ↦ rw g (find_row-sole p q rows (rw g at h) (rw k at e) f)
    ]
  ]

  pub find_row-newest_first :
      (q : R → Bool) (rows : List R)
      → count_rows q rows ≤ 1
      → find_row q (newest_first rows) ≡ find_row q rows
  unfolding newest_first count_rows find_row
  find_row-newest_first q [] h = refl
  find_row-newest_first q (x ∷ rows) h = elim (Bool-cases (q x)) [
    | inl e ↦
        let h' : suc (count_rows q rows) ≤ 1 = rw e at h in
        let c : count_rows q (newest_first rows) ≡ 0 =
          omega (arith, count_rows-newest_first q rows) in
        let f = find_row-append q (newest_first rows) x (find_row-count_zero q _ c) in rw (f, e)
    | inr e ↦
        let h' : count_rows q rows ≤ 1 = rw e at h in
        rw (e, find_row-append_other q (newest_first rows) x e, find_row-newest_first q rows h')
  ]

  -- The newest row that fits a test is the one that has its key.
  pub find_row-newest :
      (p q : R → Bool) (rows : List R) {r : R}
      → count_rows q rows ≤ 1
      → find_row p (newest_first rows) ≡ some r
      → q r ≡ true
      → find_row q rows ≡ some r
  find_row-newest p q rows h e f =
      let h' : count_rows q (newest_first rows) ≤ 1 =
        omega (arith, count_rows-newest_first q rows) in
      sym (find_row-newest_first q rows h) ∙ find_row-sole p q (newest_first rows) h' e f
