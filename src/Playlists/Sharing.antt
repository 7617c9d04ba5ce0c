-- ===== src/Playlists/Sharing.antt =====
-- src/services/PlaylistService.ts: collaborators and followers of a playlist, and the listings.
use audio_block_backend.Playlists.{
  Playlist, PlaylistCollaboratorRole, editor, viewer, PlaylistCollaborator, PlaylistFollow, Store,
  Error, collaborator_user_required, collaborator_is_owner, collaborator_role_invalid,
  collaborator_exists, collaborator_not_found, collaborator_remove_forbidden, playlist_follow_self,
  is_invited, is_found, find_playlist, get_owned_playlist, get_readable_playlist,
}
use audio_block_backend.Playlists.Songs.{count_followers}
use audio_block_backend.Pages.{Page, page_of, newest_first}
use audio_block_backend.Base.{
  ℕ, Bool, true, false, not, ◌&&◌, Option, none, some, List, [], ◌∷◌, ◌++◌, map, String,
  if◌then◌else◌, Outcome, ◌>>=◌, ◌>>◌, refuse, find_row, save_row, select_rows, delete_rows, str_eq,
  or_else, ok, err,
}

pub record AddCollaboratorInput : Type 0 where
  pub user_id : String
  pub role : Option String

abbrev pub role_of : String → Option PlaylistCollaboratorRole
role_of s =
    if str_eq s "editor" then some editor else (if str_eq s "viewer" then some viewer else none)

unfoldable pub list_collaborators :
    String → Option String → Store → Outcome Error (List PlaylistCollaborator)
unfolding get_readable_playlist
list_collaborators id reader st = do
  _ ← get_readable_playlist id reader st
  ok (select_rows (λ (c : PlaylistCollaborator). str_eq id c.playlist_id) st.collaborators)

unfoldable pub add_collaborator :
    String → String → AddCollaboratorInput → Store → Outcome Error (PlaylistCollaborator × Store)
unfolding get_owned_playlist
add_collaborator id owner input st = do
  _ ← get_owned_playlist id owner st
  refuse (str_eq input.user_id "") collaborator_user_required
  refuse (str_eq input.user_id owner) collaborator_is_owner
  elim (role_of (or_else input.role "editor")) [
    | none ↦ err collaborator_role_invalid
    | some role ↦ do
      refuse (is_found (find_row (is_invited id input.user_id) st.collaborators))
          collaborator_exists
      let c : PlaylistCollaborator = record {
        playlist_id = id;
        user_id = input.user_id;
        role = role;
      }
      ok (c, record st { collaborators = st.collaborators ++ c ∷ [] })
  ]

unfoldable pub update_collaborator_role :
    String → String → String → String → Store → Outcome Error (PlaylistCollaborator × Store)
unfolding get_owned_playlist
update_collaborator_role id owner user role st = do
  _ ← get_owned_playlist id owner st
  elim (role_of role) [
    | none ↦ err collaborator_role_invalid
    | some r ↦ elim (find_row (is_invited id user) st.collaborators) [
      | none ↦ err collaborator_not_found
      | some c ↦
          let d : PlaylistCollaborator = record c { role = r } in
          ok (d, record st { collaborators = save_row (is_invited id user) d st.collaborators })
    ]
  ]

unfoldable pub remove_collaborator : String → String → String → Store → Outcome Error Store
unfolding find_playlist
remove_collaborator id requester user st = do
  p ← find_playlist id st
  refuse (not (str_eq p.user_id requester) && not (str_eq requester user))
      collaborator_remove_forbidden
  refuse (not (is_found (find_row (is_invited id user) st.collaborators))) collaborator_not_found
  ok (record st { collaborators = delete_rows (is_invited id user) st.collaborators })

abbrev pub is_follow : String → String → PlaylistFollow → Bool
is_follow user id f = str_eq user f.user_id && str_eq id f.playlist_id

unfoldable pub is_following : String → String → Store → Bool
is_following user id st = is_found (find_row (is_follow user id) st.follows)

-- Whether the follow is new, and the number of followers after it.
unfoldable pub follow_playlist : String → String → Store → Outcome Error ((Bool × ℕ) × Store)
unfolding get_readable_playlist is_following count_followers
follow_playlist user id st = do
  p ← get_readable_playlist id (some user) st
  refuse (str_eq p.user_id user) playlist_follow_self
  let st' : Store = record st {
    follows = st.follows ++ record { user_id = user; playlist_id = id } ∷ [];
  }
  ok (
      if is_following user id st
      then ((false, count_followers id st), st)
      else ((true, count_followers id st'), st'))

unfoldable pub unfollow_playlist : String → String → Store → Store
unfollow_playlist user id st = record st { follows = delete_rows (is_follow user id) st.follows }

unfoldable pub list_for_user : String → ℕ → ℕ → Store → Page (Playlist × ℕ)
unfolding page_of newest_first count_followers
list_for_user user page limit st = page_of page limit (
    map (λ (p : Playlist). (p, count_followers p.id st))
      (newest_first (select_rows (λ (p : Playlist). str_eq user p.user_id) st.playlists)))

unfoldable pub list_followed_playlists : String → ℕ → ℕ → Store → Page PlaylistFollow
unfolding page_of newest_first
list_followed_playlists user page limit st =
    page_of page limit
      (newest_first (select_rows (λ (f : PlaylistFollow). str_eq user f.user_id) st.follows))
