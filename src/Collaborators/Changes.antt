-- ===== src/Collaborators/Changes.antt =====
-- A new row, or a new share, in CollaborationService.ts keeps the shares within their limit.
use audio_block_backend.Base.{
  ℕ, ◌+◌, ◌≤◌, ◌≡◌, refl, sym, ap, ◌∙◌, subst, ◌⊎◌, inl, inr, true, false, ◌&&◌, Option, none, some,
  List, arith, String, eq_iff, Bool-cases, Option-cases, find_row, find_row_fits, str_eq,
}
use audio_block_backend.Collaborators.{
  SongCollaborator, Song, AddCollaboratorInput, is_active, is_of, is_listed, list_collaborators,
  share_limit, shares_within_100, save_collaborator, may_manage, added_row, add_checked,
  add_allowed, add_collaborator, is_active_of, is_role,
}
use audio_block_backend.Collaborators.Shares.{
  share_in, given, share_option, total_share-list_collaborators, others, given-others, Fair,
  save_collaborator-Fair, find_row-active,
}

added_fits :
    (song : String) (input : AddCollaboratorInput) (rows : List SongCollaborator)
    (o : Option SongCollaborator)
    → shares_within_100 (list_collaborators song rows) input.royalty_share ≡ true
    → Fair rows
    → (s : String) (k : ℕ) → given s rows + share_in s (added_row song input o) ≤ share_limit + k
unfolding shares_within_100 added_row
added_fits song input rows o f v s k = elim (Bool-cases (str_eq s song)) [
  | inl e ↦
      let same : s ≡ song = ground (arith, eq_iff s song) in
      ground (arith, f, e, total_share-list_collaborators song rows, ap (λ x. given x rows) same)
  | inr e ↦ ground (arith, e, v.within s)
]

add_checked-Fair :
    (song : String) (input : AddCollaboratorInput) (rows : List SongCollaborator)
    (o : Option SongCollaborator)
    → find_row (is_of song input.user_id) rows ≡ o
    → ((s : String) → share_option s o ≡ 0)
    → Fair rows
    → Fair (add_checked song input o rows).1
unfolding add_checked added_row
add_checked-Fair song input rows o e idle v =
    elim (Bool-cases (shares_within_100 (list_collaborators song rows) input.royalty_share)) [
      | inr f ↦ rw (f, add_checked) v
      | inl f ↦
          rw (f, add_checked)
            (save_collaborator-Fair (added_row song input o) rows v
              (λ s. added_fits song input rows o f v s _))
    ]

replace_fits :
    (song user : String) (c d : SongCollaborator) (rows : List SongCollaborator)
    → Fair rows
    → find_row (is_active_of song user) rows ≡ some c
    → song ≡ c.song_id
    → d.song_id ≡ c.song_id
    → d.status ≡ c.status
    → (d.royalty_share ≡ c.royalty_share) ⊎ (others song user rows + d.royalty_share ≤ share_limit)
    → (s : String) → given s rows + share_in s d ≤ share_limit + share_option s (some c)
unfolding share_option
replace_fits song user c d rows v e song_c same_song same_status (inl same) s =
    let listed : is_listed s d ≡ is_listed s c =
      λ i. str_eq s (same_song i) && is_active (record d { status = same_status i }) in
    ground (arith, listed, same, v.within s)
replace_fits song user c d rows v e song_c same_song same_status (inr room) s =
    let listed : is_listed s d ≡ is_listed s c =
      λ i. str_eq s (same_song i) && is_active (record d { status = same_status i }) in
    let sum =
      given-others song user rows (v.unique song user)
      ∙ ap (λ o. others song user rows + share_option song o) e in
    elim (Bool-cases (str_eq s c.song_id)) [
      | inl f ↦
          let same : s ≡ song = ground (arith, f, eq_iff s c.song_id, song_c) in
          ground
            (arith, sum, ap (λ x. given x rows) same, ap (λ x. share_in x c) same, room, listed)
      | inr f ↦ ground (arith, f, listed, v.within s)
    ]

-- The row of one user is replaced by one that keeps the key, and whose share fits.
pub replace-Fair :
    (song user : String) (c d : SongCollaborator) (rows : List SongCollaborator)
    → Fair rows
    → find_row (is_active_of song user) rows ≡ some c
    → d.song_id ≡ c.song_id
    → d.user_id ≡ c.user_id
    → d.status ≡ c.status
    → (d.royalty_share ≡ c.royalty_share) ⊎ (others song user rows + d.royalty_share ≤ share_limit)
    → Fair (save_collaborator d rows)
replace-Fair song user c d rows v e same_song same_user same_status fits =
    let fit = find_row_fits (is_active_of song user) rows c e in
    let song_c : song ≡ c.song_id =
      ground (arith, fit, eq_iff song c.song_id, eq_iff user c.user_id) in
    let user_c : user ≡ c.user_id =
      ground (arith, fit, eq_iff song c.song_id, eq_iff user c.user_id) in
    let here = find_row-active song user rows c (v.unique song user) e in
    let found : find_row (is_of d.song_id d.user_id) rows ≡ some c =
      subst (λ (k : String × String). find_row (is_of k.0 k.1) rows ≡ some c)
        (λ i. ((song_c ∙ sym same_song) i, (user_c ∙ sym same_user) i)) here in
    save_collaborator-Fair d rows v (λ s.
      subst (λ o. given s rows + share_in s d ≤ share_limit + share_option s o) (sym found)
        (replace_fits song user c d rows v e song_c same_song same_status fits s))

-- A search of an active row that finds nothing active has no share.
idle_share : (s : String) (c : SongCollaborator) → is_active c ≡ false → share_option s (some c) ≡ 0
unfolding share_option
idle_share s c e = ground (arith, e)

add_allowed-Fair :
    (song : String) (input : AddCollaboratorInput) (rows : List SongCollaborator)
    → Fair rows
    → Fair (add_allowed song input rows).1
unfolding add_allowed share_option
add_allowed-Fair song input rows v = elim (Bool-cases (is_role input.role)) [
  | inr e ↦ rw (e, add_allowed) v
  | inl e ↦ elim (Option-cases (find_row (is_of song input.user_id) rows)) [
    | inl f ↦ rw (e, f, add_allowed) (add_checked-Fair song input rows none f (λ s. refl) v)
    | inr (c, f) ↦ elim (Bool-cases (is_active c)) [
      | inl g ↦ rw (e, f, g, add_allowed) v
      | inr g ↦
          rw (e, f, g, add_allowed)
            (add_checked-Fair song input rows (some c) f (λ s. idle_share s c g) v)
    ]
  ]
]

pub add_collaborator-Fair :
    (song requester : String) (input : AddCollaboratorInput) (songs : List Song)
    (rows : List SongCollaborator)
    → Fair rows
    → Fair (add_collaborator song requester input songs rows).1
unfolding add_collaborator
add_collaborator-Fair song requester input songs rows v =
    elim (Option-cases (may_manage song requester songs)) [
      | inr (x, e) ↦ rw (e, add_collaborator) v
      | inl e ↦ rw (e, add_collaborator) (add_allowed-Fair song input rows v)
    ]
