-- ===== src/Playlists/Access.antt =====
-- src/services/PlaylistService.ts: who may change what.
use audio_block_backend.Playlists.{
  Playlist, Store, is_named, is_editor_collaborator, find_playlist, get_owned_playlist,
  get_editable_playlist,
}
use audio_block_backend.Base.{
  ◌≡◌, ap, ◌∙◌, true, ◌||◌, some, arith, String, >>=-ok_inv, find_row, str_eq, ok,
}

pub record Owns (user id : String) (st : Store) : Type 0 where
  pub playlist : Playlist
  pub found : find_row (is_named id) st.playlists ≡ some playlist
  pub owner : str_eq playlist.user_id user ≡ true

pub record MayEdit (user id : String) (st : Store) : Type 0 where
  pub playlist : Playlist
  pub found : find_row (is_named id) st.playlists ≡ some playlist
  pub allowed : (str_eq playlist.user_id user || is_editor_collaborator id user st) ≡ true

pub Owns-MayEdit : {user id : String} {st : Store} → Owns user id st → MayEdit user id st
Owns-MayEdit o = record {
  playlist = o.playlist;
  found = o.found;
  allowed = ground (arith, o.owner);
}

pub find_playlist-eq-ok :
    (id : String) (st : Store) {p : Playlist}
    → find_playlist id st ≡ ok p
    → find_row (is_named id) st.playlists ≡ some p
unfolding find_playlist
find_playlist-eq-ok id st e = ground arith

pub get_editable_playlist-MayEdit :
    (id user : String) (st : Store) {p : Playlist}
    → get_editable_playlist id user st ≡ ok p
    → MayEdit user id st × (find_row (is_named id) st.playlists ≡ some p)
unfolding get_editable_playlist
get_editable_playlist-MayEdit id user st {p} e =
    let (q, f, g) = >>=-ok_inv (find_playlist id st) e in
    let same : q ≡ p = ground arith in
    let there = find_playlist-eq-ok id st f in
    (record { playlist = q; found = there; allowed = ground arith }, there ∙ ap some same)

pub get_owned_playlist-Owns :
    (id user : String) (st : Store) {p : Playlist}
    → get_owned_playlist id user st ≡ ok p
    → Owns user id st
unfolding get_owned_playlist
get_owned_playlist-Owns id user st e =
    let (q, f, g) = >>=-ok_inv (find_playlist id st) e in
    record { playlist = q; found = find_playlist-eq-ok id st f; owner = ground arith }
