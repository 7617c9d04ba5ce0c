-- ===== src/Playlists/Permission.antt =====
-- src/services/PlaylistService.ts: what a call may change is what its caller may edit.
use audio_block_backend.Playlists.{
  PlaylistCollaborator, PlaylistFollow, Store, Error, is_invited, is_found, find_playlist,
  get_owned_playlist, get_readable_playlist,
}
use audio_block_backend.Playlists.Songs.{
  CatalogueSong, Number, reordered, moved, reorder, move_song,
}
use audio_block_backend.Playlists.Sharing.{
  AddCollaboratorInput, role_of, add_collaborator, update_collaborator_role, remove_collaborator,
  is_follow, is_following, follow_playlist, unfollow_playlist,
}
use audio_block_backend.Playlists.Calls.{
  Call, updates, removes, adds, drops, reorders, moves, invites, changes_role, uninvites, follows,
  unfollows, caller, state_of, state_of-Ensures, run,
}
use audio_block_backend.Playlists.Access.{
  Owns, MayEdit, get_owned_playlist-Owns, find_playlist-eq-ok,
}
use audio_block_backend.Playlists.Frame.{
  Unchanged, Invites, Edited, update-Edited, remove-Edited, add_song-Edited, remove_song-Edited,
  reordered-Edited, moved-Edited,
}
use audio_block_backend.Base.{
  ℕ, ◌≡◌, refl, subst, ◌⊎◌, inl, inr, Bool, true, false, not, ◌&&◌, some, List, arith, String,
  eq_iff, Bool-cases, Option-cases, Outcome, Ensures, >>=-Ensures, refuse-Ensures, Ensures-ok,
  find_row, delete_rows, find_row_fits, find_row-save_row_other, find_row-delete_rows_other,
  find_row-append_other, str_eq, or_else, ok, gives, throws,
}

reorder-Edited :
    (now : ℕ) (catalogue : List CatalogueSong) (id user : String) (ids : List String) (st : Store)
    → Ensures (Edited user id st) (state_of (reorder now catalogue id user ids st))
unfolding reorder
reorder-Edited now catalogue id user ids st = state_of-Ensures (
    >>=-Ensures (reordered id user ids st)
      (λ st' e. gives (Ensures-ok (reordered-Edited id user ids st) e)))

move_song-Edited :
    (now : ℕ) (catalogue : List CatalogueSong) (id user song : String) (wanted : Number)
    (st : Store)
    → Ensures (Edited user id st) (state_of (move_song now catalogue id user song wanted st))
unfolding move_song
move_song-Edited now catalogue id user song wanted st = state_of-Ensures (
    >>=-Ensures (moved id user song wanted st)
      (λ st' e. gives (Ensures-ok (moved-Edited id user song wanted st) e)))

-- What a call leaves: a playlist that the caller may not edit, with its songs, and the invitations
-- of others to a playlist that the caller does not own.
pub record Kept (user : String) (st st' : Store) : Type 0 where
  pub playlists : (id : String) → MayEdit user id st ⊎ Unchanged id st st'
  pub invites : Invites user st st'

Edited-Kept : (user id : String) (st st' : Store) → Edited user id st st' → Kept user st st'
Edited-Kept user id st st' e = record {
  playlists = λ x. elim (Bool-cases (str_eq id x)) [
    | inl h ↦ inl (subst (λ i. MayEdit user i st) ((eq_iff id x).0 h) e.may_edit)
    | inr h ↦ inr (e.elsewhere x h)
  ];
  invites = e.invites;
}

edits :
    (user id : String) {st : Store} {o : Outcome Error Store} {st' : Store}
    → Ensures (Edited user id st) o
    → o ≡ ok st'
    → Kept user st st'
edits user id {st} {st' = st'} h e = Edited-Kept user id st st' (Ensures-ok h e)

invites-Kept :
    (user id target : String) (st : Store) (rows : List PlaylistCollaborator)
    → Owns user id st ⊎ (str_eq target user ≡ true)
    → ((x v : String)
        → (str_eq id x && str_eq target v) ≡ false
        → find_row (is_invited x v) rows ≡ find_row (is_invited x v) st.collaborators)
    → Kept user st (record st { collaborators = rows })
invites-Kept user id target st rows may others = record {
  playlists = λ x. inr (record { playlists = refl; songs = refl });
  invites = λ x v. elim (Bool-cases (str_eq id x && str_eq target v)) [
    | inr h ↦ inr (inr (others x v h))
    | inl h ↦ elim may [
      | inl o ↦ inl (subst (λ i. Owns user i st) ((eq_iff id x).0 (ground (arith, h))) o)
      | inr e ↦ inr (inl (ground (arith, h, e, eq_iff target v, eq_iff target user, eq_iff v user)))
    ]
  ];
}

-- The rows of two different invitations.
other_invitation :
    (id x target v : String) (c : PlaylistCollaborator)
    → (str_eq id x && str_eq target v) ≡ false
    → is_invited id target c ≡ true
    → is_invited x v c ≡ false
other_invitation id x target v c h e = ground (
  arith,
  h,
  e,
  eq_iff id x,
  eq_iff target v,
  eq_iff id c.playlist_id,
  eq_iff x c.playlist_id,
  eq_iff target c.user_id,
  eq_iff v c.user_id,
)

add_collaborator-Kept :
    (id owner : String) (input : AddCollaboratorInput) (st : Store)
    → Ensures
        (λ (r : PlaylistCollaborator × Store). Kept owner st r.1)
        (add_collaborator id owner input st)
unfolding add_collaborator
add_collaborator-Kept id owner input st = >>=-Ensures (get_owned_playlist id owner st) (λ p f.
    refuse-Ensures (str_eq input.user_id "") _ (λ _.
      refuse-Ensures (str_eq input.user_id owner) _ (λ _.
        elim (Option-cases (role_of (or_else input.role "editor"))) [
          | inl e ↦ rw e throws
          | inr (role, e) ↦ rw e (
              refuse-Ensures (is_found (find_row (is_invited id input.user_id) st.collaborators)) _
                (λ _. gives (
                  invites-Kept owner id input.user_id st _
                    (inl (get_owned_playlist-Owns id owner st f))
                    (λ x v h. find_row-append_other (is_invited x v) st.collaborators _ (
                      ground (
                        arith,
                        h,
                        eq_iff id x,
                        eq_iff x id,
                        eq_iff input.user_id v,
                        eq_iff v input.user_id,
                      ))))))
        ])))

update_role-Kept :
    (id owner user role : String) (st : Store)
    → Ensures
        (λ (r : PlaylistCollaborator × Store). Kept owner st r.1)
        (update_collaborator_role id owner user role st)
unfolding update_collaborator_role
update_role-Kept id owner user role st = >>=-Ensures (get_owned_playlist id owner st) (λ p f.
    elim (Option-cases (role_of role)) [
      | inl e ↦ rw e throws
      | inr (r, e) ↦ elim (Option-cases (find_row (is_invited id user) st.collaborators)) [
        | inl e' ↦ rw (e, e') throws
        | inr (c, e') ↦
            rw (e, e')
              (gives (
                invites-Kept owner id user st _ (inl (get_owned_playlist-Owns id owner st f))
                  (λ x v h.
                    find_row-save_row_other (is_invited id user) (is_invited x v) _ st.collaborators
                      (λ y. other_invitation id x user v y h)
                      (other_invitation id x user v c h
                        (find_row_fits (is_invited id user) st.collaborators c e')))))
      ]
    ])

remove_collaborator-Kept :
    (id requester user : String) (st : Store)
    → Ensures (Kept requester st) (remove_collaborator id requester user st)
unfolding remove_collaborator
remove_collaborator-Kept id requester user st = >>=-Ensures (find_playlist id st) (λ p f.
    refuse-Ensures (not (str_eq p.user_id requester) && not (str_eq requester user)) _ (λ g.
      refuse-Ensures (not (is_found (find_row (is_invited id user) st.collaborators))) _ (λ _.
        gives (
          invites-Kept requester id user st _
            (elim (Bool-cases (str_eq p.user_id requester)) [
              | inl o ↦
                  inl (record { playlist = p; found = find_playlist-eq-ok id st f; owner = o })
              | inr o ↦ inr (ground (arith, g, o, eq_iff requester user, eq_iff user requester))
            ])
            (λ x v h.
              find_row-delete_rows_other (is_invited id user) (is_invited x v) st.collaborators
                (λ y. other_invitation id x user v y h))))))

-- A change of the followers alone.
follows-Kept :
    (user : String) (st : Store) (rows : List PlaylistFollow)
    → Kept user st (record st { follows = rows })
follows-Kept user st rows = record {
  playlists = λ x. inr (record { playlists = refl; songs = refl });
  invites = λ x v. inr (inr refl);
}

follow_playlist-Kept :
    (user id : String) (st : Store)
    → Ensures (λ (r : (Bool × ℕ) × Store). Kept user st r.1) (follow_playlist user id st)
unfolding follow_playlist
follow_playlist-Kept user id st = >>=-Ensures (get_readable_playlist id (some user) st) (λ p f.
    refuse-Ensures (str_eq p.user_id user) _ (λ _. elim (Bool-cases (is_following user id st)) [
      | inl e ↦ rw e (gives (follows-Kept user st st.follows))
      | inr e ↦ rw e (gives (follows-Kept user st _))
    ]))

-- A call that is answered has changed a playlist and its songs only where its caller is the owner or
-- an editor of the playlist, and an invitation of another user only where its caller is the owner.
pub run-Kept : (c : Call) (st : Store) {st' : Store} → run c st ≡ ok st' → Kept (caller c) st st'
unfolding run unfollow_playlist
run-Kept (updates id user input) st e =
    edits user id (state_of-Ensures (update-Edited id user input st)) e
run-Kept (removes id user) st e = edits user id (remove-Edited id user st) e
run-Kept (adds catalogue id user song) st e =
    edits user id (state_of-Ensures (add_song-Edited catalogue id user song st)) e
run-Kept (drops id user song) st e = edits user id (remove_song-Edited id user song st) e
run-Kept (reorders now catalogue id user ids) st e =
    edits user id (reorder-Edited now catalogue id user ids st) e
run-Kept (moves now catalogue id user song wanted) st e =
    edits user id (move_song-Edited now catalogue id user song wanted st) e
run-Kept (invites id owner input) st e =
    Ensures-ok (state_of-Ensures (add_collaborator-Kept id owner input st)) e
run-Kept (changes_role id owner user role) st e =
    Ensures-ok (state_of-Ensures (update_role-Kept id owner user role st)) e
run-Kept (uninvites id requester user) st e =
    Ensures-ok (remove_collaborator-Kept id requester user st) e
run-Kept (follows user id) st e = Ensures-ok (state_of-Ensures (follow_playlist-Kept user id st)) e
run-Kept (unfollows user id) st {st'} e =
    subst (Kept user st) (ground arith)
      (follows-Kept user st (delete_rows (is_follow user id) st.follows))
