-- ===== src/Playlists/Sorted.antt =====
-- Rows in the order of a key, as `ORDER BY` gives them.
use audio_block_backend.Playlists.{PlaylistSong}
use audio_block_backend.Playlists.Songs.{insert_ascending, ascending, next_position}
use audio_block_backend.Playlists.Positions.{occurs}
use audio_block_backend.Playlists.Orders.{song_ids}
use audio_block_backend.Base.{
  ℕ, suc, ◌+◌, ◌≤◌, ◌<◌, ◌≡◌, refl, sym, ap, ◌∙◌, subst, inl, inr, Bool, true, false, some, List,
  [], ◌∷◌, ◌++◌, arith, String, eq_iff, leb, leb→le, Bool-cases, delete_rows, str_eq, get_elem?,
}

module _ {A : Type 0} (key : A → ℕ) where
  abbrev pub Above : ℕ → List A → Type 0
  Above n [] = Unit
  Above n (a ∷ rows) = (n ≤ key a) × Above n rows

  abbrev pub Sorted : List A → Type 0
  Sorted [] = Unit
  Sorted (a ∷ rows) = Above (key a) rows × Sorted rows

  Above-le : (m n : ℕ) (rows : List A) → m ≤ n → Above n rows → Above m rows
  Above-le m n [] h v = tt
  Above-le m n (a ∷ rows) h (v, w) = (omega arith, Above-le m n rows h w)

  Above-delete_rows :
      (p : A → Bool) (n : ℕ) (rows : List A) → Above n rows → Above n (delete_rows p rows)
  unfolding delete_rows
  Above-delete_rows p n [] v = tt
  Above-delete_rows p n (a ∷ rows) (v, w) = elim (Bool-cases (p a)) [
    | inl e ↦ rw e (Above-delete_rows p n rows w)
    | inr e ↦ rw e (v, Above-delete_rows p n rows w)
  ]

  Above-insert :
      (n : ℕ) (a : A) (rows : List A)
      → n ≤ key a
      → Above n rows
      → Above n (insert_ascending key a rows)
  unfolding insert_ascending
  Above-insert n a [] h v = (h, tt)
  Above-insert n a (b ∷ rows) h (v, w) = elim (Bool-cases (leb (key a) (key b))) [
    | inl e ↦ rw e (h, (v, w))
    | inr e ↦ rw e (v, Above-insert n a rows h w)
  ]

  Sorted-insert : (a : A) (rows : List A) → Sorted rows → Sorted (insert_ascending key a rows)
  unfolding insert_ascending
  Sorted-insert a [] v = (tt, tt)
  Sorted-insert a (b ∷ rows) (v, w) = elim (Bool-cases (leb (key a) (key b))) [
    | inl e ↦
        let h : key a ≤ key b = leb→le _ _ e in
        rw e ((h, Above-le (key a) (key b) rows h v), (v, w))
    | inr e ↦ rw e (Above-insert (key b) a rows (ground (arith, e)) v, Sorted-insert a rows w)
  ]

  pub ascending-Sorted : (rows : List A) → Sorted (ascending key rows)
  unfolding ascending
  ascending-Sorted [] = tt
  ascending-Sorted (a ∷ rows) = Sorted-insert a (ascending key rows) (ascending-Sorted rows)

  insert_ascending_front :
      (a : A) (rows : List A) → Above (key a) rows → insert_ascending key a rows ≡ a ∷ rows
  unfolding insert_ascending
  insert_ascending_front a [] v = refl
  insert_ascending_front a (b ∷ rows) (v, w) = ground (arith, v)

  delete_rows-insert_gone :
      (p : A → Bool) (a : A) (rows : List A)
      → p a ≡ true
      → delete_rows p (insert_ascending key a rows) ≡ delete_rows p rows
  unfolding delete_rows insert_ascending
  delete_rows-insert_gone p a [] h = rw h
  delete_rows-insert_gone p a (b ∷ rows) h = elim (Bool-cases (leb (key a) (key b))) [
    | inl e ↦ rw (e, h)
    | inr e ↦ rw (e, delete_rows-insert_gone p a rows h)
  ]

  delete_rows-insert_kept :
      (p : A → Bool) (a : A) (rows : List A)
      → p a ≡ false
      → Sorted rows
      → delete_rows p (insert_ascending key a rows) ≡ insert_ascending key a (delete_rows p rows)
  unfolding delete_rows insert_ascending
  delete_rows-insert_kept p a [] h v = rw h
  delete_rows-insert_kept p a (b ∷ rows) h (v, w) = elim (Bool-cases (leb (key a) (key b))) [
    | inl e ↦
        let low = Above-le (key a) (key b) rows (leb→le _ _ e) v in
        let front =
          insert_ascending_front a (delete_rows p rows) (Above-delete_rows p (key a) rows low) in
        elim (Bool-cases (p b)) [ inl f ↦ rw (e, h, f, front) | inr f ↦ rw (e, h, f, e) ]
    | inr e ↦ elim (Bool-cases (p b)) [
      | inl f ↦ rw (e, f, delete_rows-insert_kept p a rows h w)
      | inr f ↦ rw (e, f, e, delete_rows-insert_kept p a rows h w)
    ]
  ]

  -- A deletion commutes with the sorting.
  pub ascending-delete_rows :
      (p : A → Bool) (rows : List A)
      → ascending key (delete_rows p rows) ≡ delete_rows p (ascending key rows)
  unfolding delete_rows ascending
  ascending-delete_rows p [] = refl
  ascending-delete_rows p (a ∷ rows) = elim (Bool-cases (p a)) [
    | inl e ↦
        rw e
          (ascending-delete_rows p rows ∙ sym (delete_rows-insert_gone p a (ascending key rows) e))
    | inr e ↦ rw e (
        ap (insert_ascending key a) (ascending-delete_rows p rows)
        ∙ sym (delete_rows-insert_kept p a (ascending key rows) e (ascending-Sorted rows)))
  ]

  insert_ascending-last :
      (a e : A) (rows : List A)
      → key a ≤ key e
      → insert_ascending key a (rows ++ e ∷ []) ≡ insert_ascending key a rows ++ e ∷ []
  unfolding insert_ascending
  insert_ascending-last a e [] h = ground (arith, h)
  insert_ascending-last a e (b ∷ rows) h = ground (arith, insert_ascending-last a e rows h)

-- What is appended after the last position is last.
pub ascending-append :
    (e : PlaylistSong) (rows : List PlaylistSong)
    → next_position rows ≤ e.position
    → ascending (λ (x : PlaylistSong). x.position) (rows ++ e ∷ [])
      ≡ ascending (λ (x : PlaylistSong). x.position) rows ++ e ∷ []
unfolding ascending insert_ascending next_position
ascending-append e [] h = refl
ascending-append e (a ∷ rows) h =
    ap (insert_ascending (λ (x : PlaylistSong). x.position) a)
      (ascending-append e rows (omega arith))
    ∙ insert_ascending-last (λ (x : PlaylistSong). x.position) a e
        (ascending (λ (x : PlaylistSong). x.position) rows) (omega arith)

pub occurs-get_elem? :
    (t : String) (ids : List String) → 0 < occurs t ids → (i : ℕ) × (get_elem? ids i ≡ some t)
unfolding occurs
occurs-get_elem? t [] h = absurd (omega arith)
occurs-get_elem? t (s ∷ ids) h = elim (Bool-cases (str_eq t s)) [
  | inl e ↦ (0, ap some (sym ((eq_iff t s).0 e)))
  | inr e ↦ let (i, f) = occurs-get_elem? t ids (ground (arith, h, e)) in (suc i, f)
]

-- Texts in the order of their ranks: the order is unique where each rank is had once.
module _ (rank : String → ℕ) where
  Least : ℕ → List String → Type 0
  Least n ids = (t : String) → 0 < occurs t ids → n ≤ rank t

  pub Ranked : List String → Type 0
  Ranked [] = Unit
  Ranked (s ∷ ids) = Least (rank s) ids × Ranked ids

  pub StrictlyRanked : List String → Type 0
  StrictlyRanked [] = Unit
  StrictlyRanked (s ∷ ids) = Least (suc (rank s)) ids × StrictlyRanked ids

  abbrev pub Agree : List PlaylistSong → Type 0
  Agree [] = Unit
  Agree (e ∷ rows) = (rank e.song_id ≡ e.position) × Agree rows

  Agree-Least :
      (n : ℕ) (rows : List PlaylistSong)
      → Above (λ (e : PlaylistSong). e.position) n rows
      → Agree rows
      → Least n (song_ids rows)
  unfolding Least occurs
  Agree-Least n [] v w t h = absurd (omega arith)
  Agree-Least n (e ∷ rows) (v, v') (w, w') t h = elim (Bool-cases (str_eq t e.song_id)) [
    | inl f ↦
        let same : rank t ≡ e.position = ap rank ((eq_iff t e.song_id).0 f) ∙ w in
        omega (arith, same, v)
    | inr f ↦ Agree-Least n rows v' w' t (ground (arith, h, f))
  ]

  -- Rows sorted by positions that are the ranks.
  pub Agree-Ranked :
      (rows : List PlaylistSong)
      → Sorted (λ (e : PlaylistSong). e.position) rows
      → Agree rows
      → Ranked (song_ids rows)
  unfolding Ranked
  Agree-Ranked [] v w = tt
  Agree-Ranked (e ∷ rows) (v, v') (w, w') = (
    subst (λ n. Least n (song_ids rows)) (sym w) (Agree-Least e.position rows v w'),
    Agree-Ranked rows v' w',
  )

  Agree-insert :
      (e : PlaylistSong) (rows : List PlaylistSong)
      → rank e.song_id ≡ e.position
      → Agree rows
      → Agree (insert_ascending (λ (x : PlaylistSong). x.position) e rows)
  unfolding insert_ascending
  Agree-insert e [] h v = (h, tt)
  Agree-insert e (x ∷ rows) h (v, w) = elim (Bool-cases (leb e.position x.position)) [
    | inl f ↦ rw f (h, (v, w))
    | inr f ↦ rw f (v, Agree-insert e rows h w)
  ]

  pub Agree-ascending :
      (rows : List PlaylistSong)
      → Agree rows
      → Agree (ascending (λ (x : PlaylistSong). x.position) rows)
  unfolding ascending
  Agree-ascending [] v = tt
  Agree-ascending (e ∷ rows) (v, w) =
      Agree-insert e (ascending (λ (x : PlaylistSong). x.position) rows) v (Agree-ascending rows w)

  -- An order whose ranks are the indices.
  pub StrictlyRanked-indices :
      (ids : List String) (n : ℕ)
      → ((i : ℕ) (s : String) → get_elem? ids i ≡ some s → rank s ≡ n + i)
      → StrictlyRanked ids
  unfolding StrictlyRanked Least
  StrictlyRanked-indices [] n h = tt
  StrictlyRanked-indices (s ∷ ids) n h = (
    λ t k. let (i, e) = occurs-get_elem? t ids k in omega (arith, h 0 s refl, h (suc i) t e),
    StrictlyRanked-indices ids (suc n) (λ i t e. h (suc i) t e ∙ omega arith),
  )

  pub Ranked-unique :
      (xs ys : List String)
      → Ranked xs
      → StrictlyRanked ys
      → ((t : String) → occurs t xs ≡ occurs t ys)
      → xs ≡ ys
  unfolding Ranked StrictlyRanked Least occurs
  Ranked-unique [] [] v w same = refl
  Ranked-unique [] (y ∷ ys) v w same = absurd (ground (arith, same y, eq_iff y y))
  Ranked-unique (x ∷ xs) [] v w same = absurd (ground (arith, same x, eq_iff x x))
  Ranked-unique (x ∷ xs) (y ∷ ys) (v, v') (w, w') same =
      let e : x ≡ y =
        ground (arith, same x, same y, v y, w x, eq_iff x y, eq_iff y x, eq_iff x x, eq_iff y y) in
      let rest : (t : String) → occurs t xs ≡ occurs t ys = λ t. ground (arith, same t, e) in
      λ i. e i ∷ Ranked-unique xs ys v' w' rest i
