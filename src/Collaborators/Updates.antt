-- ===== src/Collaborators/Updates.antt =====
-- The updates of a collaborator in CollaborationService.ts.
use audio_block_backend.Base.{
  ℕ, ◌+◌, ◌≤◌, ◌≡◌, refl, ap, ◌∙◌, subst, ◌⊎◌, inl, inr, Bool, true, not, Option, none, some, List,
  arith, String, leb→le, Bool-cases, Option-cases, some_unique, find_row, select_rows, str_eq,
}
use audio_block_backend.Collaborators.{
  SongCollaborator, Song, list_collaborators, share_limit, shares_within_100, may_manage,
  is_active_of, is_role, set_role, set_share, update_found, update_collaborator,
}
use audio_block_backend.Collaborators.Shares.{others, Fair}
use audio_block_backend.Collaborators.Changes.{replace-Fair}

-- The key and the status are kept.
record Keeps (c d : SongCollaborator) : Type 0 where
  song : d.song_id ≡ c.song_id
  user : d.user_id ≡ c.user_id
  status : d.status ≡ c.status

Keeps-trans : {c d e : SongCollaborator} → Keeps c d → Keeps d e → Keeps c e
Keeps-trans h k = record {
  song = k.song ∙ h.song;
  user = k.user ∙ h.user;
  status = k.status ∙ h.status;
}

set_role-Keeps :
    (role : Option String) (c d : SongCollaborator) → set_role role c ≡ some d → Keeps c d
unfolding set_role
set_role-Keeps none c d e =
    let same : c ≡ d = some_unique _ refl e in
    subst (Keeps c) same (record { song = refl; user = refl; status = refl })
set_role-Keeps (some r) c d e = elim (Bool-cases (is_role r)) [
  | inl f ↦
      let same : record c { role = r } ≡ d = some_unique _ refl (rw f at e) in
      subst (Keeps c) same (record { song = refl; user = refl; status = refl })
  | inr f ↦ absurd (cc (rw f at e))
]

set_role_share :
    (role : Option String) (c d : SongCollaborator)
    → set_role role c ≡ some d
    → d.royalty_share ≡ c.royalty_share
unfolding set_role
set_role_share none c d e = ap (λ (x : SongCollaborator). x.royalty_share) (some_unique _ e refl)
set_role_share (some r) c d e = elim (Bool-cases (is_role r)) [
  | inl f ↦ ap (λ (x : SongCollaborator). x.royalty_share) (some_unique _ (rw f at e) refl)
  | inr f ↦ absurd (cc (rw f at e))
]

-- The check of a new share against the shares of the others.
abbrev has_room : String → String → ℕ → List SongCollaborator → Bool
has_room song target n rows =
    shares_within_100
      (select_rows (λ (x : SongCollaborator). not (str_eq target x.user_id))
        (list_collaborators song rows))
      n

room_left :
    (song target : String) (n : ℕ) (rows : List SongCollaborator)
    → has_room song target n rows ≡ true
    → others song target rows + n ≤ share_limit
unfolding shares_within_100 others
room_left song target n rows e = leb→le _ share_limit e

set_share-Keeps :
    (song target : String) (share : Option ℕ) (rows : List SongCollaborator)
    (c d : SongCollaborator)
    → set_share song target share rows c ≡ some d
    → Keeps c d
unfolding set_share
set_share-Keeps song target none rows c d e =
    let same : c ≡ d = some_unique _ refl e in
    subst (Keeps c) same (record { song = refl; user = refl; status = refl })
set_share-Keeps song target (some n) rows c d e = elim (Bool-cases (has_room song target n rows)) [
  | inl f ↦
      let same : record c { royalty_share = n } ≡ d = some_unique _ refl (rw f at e) in
      subst (Keeps c) same (record { song = refl; user = refl; status = refl })
  | inr f ↦ absurd (cc (rw f at e))
]

share_fits :
    (song target : String) (share : Option ℕ) (rows : List SongCollaborator)
    (c c' d : SongCollaborator)
    → c'.royalty_share ≡ c.royalty_share
    → set_share song target share rows c' ≡ some d
    → (d.royalty_share ≡ c.royalty_share)
      ⊎ (others song target rows + d.royalty_share ≤ share_limit)
unfolding set_share
share_fits song target none rows c c' d same e =
    inl (ap (λ (x : SongCollaborator). x.royalty_share) (some_unique _ e refl) ∙ same)
share_fits song target (some n) rows c c' d same e =
    elim (Bool-cases (has_room song target n rows)) [
      | inl f ↦
          let new =
            ap (λ (x : SongCollaborator). x.royalty_share) (some_unique _ (rw f at e) refl) in
          inr (omega (arith, new, room_left song target n rows f))
      | inr f ↦ absurd (cc (rw f at e))
    ]

update_found-Fair :
    (song target : String) (role : Option String) (share : Option ℕ) (rows : List SongCollaborator)
    (c : SongCollaborator)
    → find_row (is_active_of song target) rows ≡ some c
    → Fair rows
    → Fair (update_found song target role share rows c).1
unfolding update_found
update_found-Fair song target role share rows c e v = elim (Option-cases (set_role role c)) [
  | inl f ↦ rw (f, update_found) v
  | inr (c', f) ↦ elim (Option-cases (set_share song target share rows c')) [
    | inl g ↦ rw (f, g, update_found) v
    | inr (d, g) ↦
        let k =
          Keeps-trans (set_role-Keeps role c c' f)
            (set_share-Keeps song target share rows c' d g) in
        rw (f, g, update_found)
          (replace-Fair song target c d rows v e k.song k.user k.status
            (share_fits song target share rows c c' d (set_role_share role c c' f) g))
  ]
]

pub update_collaborator-Fair :
    (song target requester : String) (role : Option String) (share : Option ℕ) (songs : List Song)
    (rows : List SongCollaborator)
    → Fair rows
    → Fair (update_collaborator song target requester role share songs rows).1
unfolding update_collaborator
update_collaborator-Fair song target requester role share songs rows v =
    elim (Option-cases (may_manage song requester songs)) [
      | inr (x, e) ↦ rw (e, update_collaborator) v
      | inl e ↦ elim (Option-cases (find_row (is_active_of song target) rows)) [
        | inl f ↦ rw (e, f, update_collaborator) v
        | inr (c, f) ↦
            rw (e, f, update_collaborator) (update_found-Fair song target role share rows c f v)
      ]
    ]
