-- ===== src/Playlists/Runs.antt =====
-- src/services/PlaylistService.ts: what holds of the tables whatever is called.
use audio_block_backend.Playlists.{
  Playlist, PlaylistCollaborator, Store, CreatePlaylistInput, is_invited, is_found, find_playlist,
  get_owned_playlist, get_readable_playlist, create, remove,
}
use audio_block_backend.Playlists.Songs.{is_entry, reordered, reorder, moved, move_song}
use audio_block_backend.Playlists.Sharing.{
  AddCollaboratorInput, role_of, add_collaborator, update_collaborator_role, remove_collaborator,
  is_follow, is_following, follow_playlist, unfollow_playlist,
}
use audio_block_backend.Playlists.Calls.{
  Call, updates, removes, adds, drops, reorders, moves, invites, changes_role, uninvites, follows,
  unfollows, state_of-Ensures, run,
}
use audio_block_backend.Playlists.Rules.{
  KeepsRules, is_unruly, update-KeepsRules, create-KeepsRules,
}
use audio_block_backend.Playlists.Once.{
  Sound, collaborators-Sound, follows-Sound, playlists-Sound, once-append, once-delete,
  add_song-Sound, remove_song-Sound, reordered-Sound, moved-Sound,
}
use audio_block_backend.Base.{
  ℕ, ◌≤◌, ◌≡◌, refl, sym, ap, ◌∙◌, subst, inl, inr, Bool, not, ◌&&◌, some, List, [], arith, String,
  eq_iff, if◌then◌else◌, Option-cases, Ensures, >>=-Ensures, refuse-Ensures, Ensures-ok,
  Ensures-weaken, find_row, save_row, count_rows, count_option, count_rows-save_row,
  count_rows-delete_rows, str_eq, or_else, ok, gives, throws,
}

KeepsRules-Sound : (st st' : Store) → Sound st → KeepsRules st st' → Sound st'
unfolding KeepsRules
KeepsRules-Sound st st' v (rows, e, h) = subst Sound (sym e) (playlists-Sound rows v h)

create-Sound :
    (id user : String) (input : CreatePlaylistInput) (st : Store)
    → Sound st
    → Ensures (λ (r : Playlist × Store). Sound r.1) (create id user input st)
create-Sound id user input st v =
    Ensures-weaken (λ r. KeepsRules-Sound st r.1 v) (create-KeepsRules id user input st v.ruled)

remove-Sound : (id user : String) (st : Store) → Sound st → Ensures Sound (remove id user st)
unfolding remove
remove-Sound id user st v = >>=-Ensures (get_owned_playlist id user st) (λ p f. gives (record {
  songs_once = once-delete is_entry _ st.songs v.songs_once;
  invited_once = once-delete is_invited _ st.collaborators v.invited_once;
  follows_once = once-delete is_follow _ st.follows v.follows_once;
  ruled = omega (arith, v.ruled, count_rows-delete_rows _ is_unruly st.playlists);
}))

add_collaborator-Sound :
    (id owner : String) (input : AddCollaboratorInput) (st : Store)
    → Sound st
    → Ensures (λ (r : PlaylistCollaborator × Store). Sound r.1) (add_collaborator id owner input st)
unfolding add_collaborator
add_collaborator-Sound id owner input st v = >>=-Ensures (get_owned_playlist id owner st) (λ p f.
    refuse-Ensures (str_eq input.user_id "") _ (λ _.
      refuse-Ensures (str_eq input.user_id owner) _ (λ _.
        elim (Option-cases (role_of (or_else input.role "editor"))) [
          | inl e ↦ rw e throws
          | inr (role, e) ↦
              elim (Option-cases (find_row (is_invited id input.user_id) st.collaborators)) [
                | inr (c, e') ↦ rw (e, e') throws
                | inl e' ↦
                    rw (e, e')
                      (gives (
                        collaborators-Sound _ v (
                          once-append is_invited st.collaborators _ id input.user_id
                            (λ x y h. (
                              ground (arith, h, eq_iff x id),
                              ground (arith, h, eq_iff y input.user_id),
                            ))
                            e' v.invited_once)))
              ]
        ])))

-- A row replaced by one with the same key.
same_key_once :
    (id u : String) (c d : PlaylistCollaborator) (rows : List PlaylistCollaborator)
    → find_row (is_invited id u) rows ≡ some c
    → d.playlist_id ≡ c.playlist_id
    → d.user_id ≡ c.user_id
    → ((x y : String) → count_rows (is_invited x y) rows ≤ 1)
    → (x y : String) → count_rows (is_invited x y) (save_row (is_invited id u) d rows) ≤ 1
same_key_once id u c d rows e same same' once x y =
    let here = count_rows-save_row (is_invited id u) (is_invited x y) d rows in
    let was : count_option (is_invited x y) (find_row (is_invited id u) rows)
        ≡ count_option (is_invited x y) (some d) =
      ap (count_option (is_invited x y)) e
      ∙ ap (λ (k : String × String). if str_eq x k.0 && str_eq y k.1 then 1 else 0)
          (λ i. (sym same i, sym same' i)) in
    omega (arith, here, was, once x y)

update_role-Sound :
    (id owner user role : String) (st : Store)
    → Sound st
    → Ensures
        (λ (r : PlaylistCollaborator × Store). Sound r.1)
        (update_collaborator_role id owner user role st)
unfolding update_collaborator_role
update_role-Sound id owner user role st v = >>=-Ensures (get_owned_playlist id owner st) (λ p f.
    elim (Option-cases (role_of role)) [
      | inl e ↦ rw e throws
      | inr (r, e) ↦ elim (Option-cases (find_row (is_invited id user) st.collaborators)) [
        | inl e' ↦ rw (e, e') throws
        | inr (c, e') ↦
            rw (e, e')
              (gives (
                collaborators-Sound _ v
                  (same_key_once id user c _ st.collaborators e' refl refl v.invited_once)))
      ]
    ])

remove_collaborator-Sound :
    (id requester user : String) (st : Store)
    → Sound st
    → Ensures Sound (remove_collaborator id requester user st)
unfolding remove_collaborator
remove_collaborator-Sound id requester user st v = >>=-Ensures (find_playlist id st) (λ p f.
    refuse-Ensures (not (str_eq p.user_id requester) && not (str_eq requester user)) _ (λ g.
      refuse-Ensures (not (is_found (find_row (is_invited id user) st.collaborators))) _ (λ _.
        gives (
          collaborators-Sound _ v
            (once-delete is_invited (is_invited id user) st.collaborators v.invited_once)))))

follow_playlist-Sound :
    (user id : String) (st : Store)
    → Sound st
    → Ensures (λ (r : (Bool × ℕ) × Store). Sound r.1) (follow_playlist user id st)
unfolding follow_playlist is_following
follow_playlist-Sound user id st v = >>=-Ensures (get_readable_playlist id (some user) st) (λ p f.
    refuse-Ensures (str_eq p.user_id user) _ (λ _.
      elim (Option-cases (find_row (is_follow user id) st.follows)) [
        | inr (x, e) ↦ rw e (gives v)
        | inl e ↦ rw e (
            gives (
              follows-Sound _ v (
                once-append is_follow st.follows _ user id
                  (λ x y h. (ground (arith, h, eq_iff x user), ground (arith, h, eq_iff y id))) e
                  v.follows_once)))
      ]))

run-Sound : (c : Call) (st : Store) → Sound st → Ensures Sound (run c st)
unfolding run reorder move_song unfollow_playlist
run-Sound (updates id user input) st v =
    state_of-Ensures
      (Ensures-weaken (λ r. KeepsRules-Sound st r.1 v) (update-KeepsRules id user input st v.ruled))
run-Sound (removes id user) st v = remove-Sound id user st v
run-Sound (adds catalogue id user song) st v =
    state_of-Ensures (add_song-Sound catalogue id user song st v)
run-Sound (drops id user song) st v = remove_song-Sound id user song st v
run-Sound (reorders now catalogue id user ids) st v = state_of-Ensures (
    >>=-Ensures (reordered id user ids st)
      (λ st' e. gives (Ensures-ok (reordered-Sound id user ids st v) e)))
run-Sound (moves now catalogue id user song wanted) st v = state_of-Ensures (
    >>=-Ensures (moved id user song wanted st)
      (λ st' e. gives (Ensures-ok (moved-Sound id user song wanted st v) e)))
run-Sound (invites id owner input) st v =
    state_of-Ensures (add_collaborator-Sound id owner input st v)
run-Sound (changes_role id owner user role) st v =
    state_of-Ensures (update_role-Sound id owner user role st v)
run-Sound (uninvites id requester user) st v = remove_collaborator-Sound id requester user st v
run-Sound (follows user id) st v = state_of-Ensures (follow_playlist-Sound user id st v)
run-Sound (unfollows user id) st v =
    gives (follows-Sound _ v (once-delete is_follow (is_follow user id) st.follows v.follows_once))

-- The states that calls lead to from empty tables, calls that throw left out.
pub data Reach : Store → Type 0 where
  begin : Reach (record { playlists = []; songs = []; collaborators = []; follows = [] })
  creates :
      {st st' : Store} {p : Playlist}
      → Reach st
      → (id user : String) (input : CreatePlaylistInput) → create id user input st ≡ ok (p, st')
      → Reach st'
  calls : {st st' : Store} → Reach st → (c : Call) → run c st ≡ ok st' → Reach st'

-- Whatever is called by whomever, no playlist has a song twice, no user is invited to a playlist or
-- follows it twice, and each playlist that a rule resolves has a rule with a criterion and a whole,
-- positive number of days, if any.
pub reached-Sound : {st : Store} → Reach st → Sound st
unfolding count_rows
reached-Sound begin = record {
  songs_once = λ id s. omega arith;
  invited_once = λ id u. omega arith;
  follows_once = λ u id. omega arith;
  ruled = refl;
}
reached-Sound (creates {st} r id user input e) =
    Ensures-ok (create-Sound id user input st (reached-Sound r)) e
reached-Sound (calls {st} r c e) = Ensures-ok (run-Sound c st (reached-Sound r)) e
