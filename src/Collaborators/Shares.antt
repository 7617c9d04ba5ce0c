-- ===== src/Collaborators/Shares.antt =====
-- The shares of a song's collaborators in CollaborationService.ts.
use audio_block_backend.Base.{
  ℕ, ◌+◌, ◌≤◌, ◌≡◌, refl, sym, ap, subst, inl, inr, Bool, not, Option, none, some, List, [], ◌∷◌,
  arith, String, eq_iff, if◌then◌else◌, Bool-cases, Option-cases, find_row, save_row, select_rows,
  count_rows, find_row_fits, count_option, count_rows-save_row, str_eq,
}
use audio_block_backend.Collaborators.{
  SongCollaborator, is_of, is_listed, list_collaborators, total_share, share_limit,
  save_collaborator, is_active_of,
}

-- What an active collaborator of the song has of it.
abbrev pub share_in : String → SongCollaborator → ℕ
share_in song c = if is_listed song c then c.royalty_share else 0

-- The shares that have been given away of a song.
pub given : String → List SongCollaborator → ℕ
given song [] = 0
given song (c ∷ rows) = share_in song c + given song rows

unfoldable pub share_option : String → Option SongCollaborator → ℕ
share_option song none = 0
share_option song (some c) = share_in song c

given-save_row :
    (song : String) (p : SongCollaborator → Bool) (y : SongCollaborator)
    (rows : List SongCollaborator)
    → given song (save_row p y rows) + share_option song (find_row p rows)
      ≡ given song rows + share_in song y
unfolding given save_row find_row share_option
given-save_row song p y [] = omega arith
given-save_row song p y (x ∷ rows) = elim (Bool-cases (p x)) [
  | inl e ↦ rw e (omega arith)
  | inr e ↦ rw e (omega (arith, given-save_row song p y rows))
]

pub total_share-list_collaborators :
    (song : String) (rows : List SongCollaborator)
    → total_share (list_collaborators song rows) ≡ given song rows
unfolding total_share list_collaborators given select_rows
total_share-list_collaborators song [] = refl
total_share-list_collaborators song (c ∷ rows) =
    ground (arith, total_share-list_collaborators song rows)

count_rows_of_none :
    (p : SongCollaborator → Bool) (rows : List SongCollaborator)
    → find_row p rows ≡ none
    → count_rows p rows ≡ 0
unfolding find_row count_rows
count_rows_of_none p [] e = refl
count_rows_of_none p (x ∷ rows) e = elim (Bool-cases (p x)) [
  | inl h ↦ absurd (cc (rw h at e))
  | inr h ↦ rw h (count_rows_of_none p rows (rw h at e))
]

find_row_of_count :
    (song user : String) (rows : List SongCollaborator)
    → count_rows (is_of song user) rows ≡ 0
    → find_row (is_active_of song user) rows ≡ none
unfolding find_row count_rows
find_row_of_count song user [] e = refl
find_row_of_count song user (x ∷ rows) e = elim (Bool-cases (is_of song user x)) [
  | inl h ↦ absurd (ground (arith, h))
  | inr h ↦ rw h (find_row_of_count song user rows (rw h at e))
]

-- What the others have, where one user is left out.
unfoldable pub others : String → String → List SongCollaborator → ℕ
others song user rows = total_share (
    select_rows (λ (x : SongCollaborator). not (str_eq user x.user_id))
      (list_collaborators song rows))

pub given-others :
    (song user : String) (rows : List SongCollaborator)
    → count_rows (is_of song user) rows ≤ 1
    → given song rows
      ≡ others song user rows + share_option song (find_row (is_active_of song user) rows)
unfolding others given total_share list_collaborators select_rows find_row count_rows share_option
given-others song user [] h = refl
given-others song user (x ∷ rows) h = elim (Bool-cases (is_of song user x)) [
  | inl e ↦
      let alone : count_rows (is_of song user) rows ≡ 0 = ground (arith, e) in
      let nobody = find_row_of_count song user rows alone in
      let rest = given-others song user rows (omega (arith, alone)) in
      ground (arith, e, nobody, rest, ap (share_option song) nobody)
  | inr e ↦ let rest = given-others song user rows (ground (arith, e)) in ground (arith, e, rest)
]

-- Each user has one row of a song at most, and the active shares of a song are within the limit.
pub record Fair (rows : List SongCollaborator) : Type 0 where
  pub unique : (song user : String) → count_rows (is_of song user) rows ≤ 1
  pub within : (song : String) → given song rows ≤ share_limit

saved_once :
    (y : SongCollaborator) (rows : List SongCollaborator)
    → count_rows (is_of y.song_id y.user_id) rows ≤ 1
    → count_rows (is_of y.song_id y.user_id) (save_collaborator y rows) ≤ 1
unfolding save_collaborator
saved_once y rows h =
    let p = is_of y.song_id y.user_id in
    let sum = count_rows-save_row p p y rows in
    elim (Option-cases (find_row p rows)) [
      | inl e ↦ ground (arith, sum, ap (count_option p) e, count_rows_of_none p rows e)
      | inr (r, e) ↦ ground (arith, sum, ap (count_option p) e, find_row_fits p rows r e)
    ]

save_unique :
    (y : SongCollaborator) (rows : List SongCollaborator)
    → ((song user : String) → count_rows (is_of song user) rows ≤ 1)
    → (song user : String) → count_rows (is_of song user) (save_collaborator y rows) ≤ 1
unfolding save_collaborator
save_unique y rows unique song user =
    let sum = count_rows-save_row (is_of y.song_id y.user_id) (is_of song user) y rows in
    elim (Bool-cases (is_of song user y)) [
      | inr e ↦ ground (arith, sum, e, unique song user)
      | inl e ↦
          let same_song : song ≡ y.song_id =
            ground (arith, eq_iff song y.song_id, eq_iff user y.user_id) in
          let same_user : user ≡ y.user_id =
            ground (arith, eq_iff song y.song_id, eq_iff user y.user_id) in
          subst (λ s. count_rows (is_of s user) (save_collaborator y rows) ≤ 1) (sym same_song)
            (subst (λ u. count_rows (is_of y.song_id u) (save_collaborator y rows) ≤ 1)
              (sym same_user) (saved_once y rows (unique y.song_id y.user_id)))
    ]

pub save_collaborator-Fair :
    (y : SongCollaborator) (rows : List SongCollaborator)
    → Fair rows
    → ((song : String)
        → given song rows + share_in song y
          ≤ share_limit + share_option song (find_row (is_of y.song_id y.user_id) rows))
    → Fair (save_collaborator y rows)
unfolding save_collaborator
save_collaborator-Fair y rows v h = record {
  unique = λ song user. save_unique y rows v.unique song user;
  within = λ song. omega (arith, given-save_row song (is_of y.song_id y.user_id) y rows, h song);
}

-- The one row of an active user is the one that a search by the key finds.
pub find_row-active :
    (song user : String) (rows : List SongCollaborator) (c : SongCollaborator)
    → count_rows (is_of song user) rows ≤ 1
    → find_row (is_active_of song user) rows ≡ some c
    → find_row (is_of song user) rows ≡ some c
unfolding find_row count_rows
find_row-active song user [] c h e = absurd (cc e)
find_row-active song user (x ∷ rows) c h e = elim (Bool-cases (is_of song user x)) [
  | inl f ↦
      let alone : count_rows (is_of song user) rows ≡ 0 = ground (arith, f) in
      let nobody = find_row_of_count song user rows alone in ground (arith, f, e, nobody)
  | inr f ↦ rw f (find_row-active song user rows c (ground (arith, f)) (rw f at e))
]

pub given_nil : (song : String) → given song [] ≡ 0
unfolding given
given_nil song = refl
