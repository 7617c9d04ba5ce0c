-- ===== src/Playlists/Calls.antt =====
-- The calls of src/services/PlaylistService.ts that change a stored playlist, its songs, its
-- collaborators or its followers.
use audio_block_backend.Playlists.{Store, Error, UpdatePlaylistInput, update, remove}
use audio_block_backend.Playlists.Songs.{
  CatalogueSong, Number, add_song, remove_song, reorder, move_song,
}
use audio_block_backend.Playlists.Sharing.{
  AddCollaboratorInput, add_collaborator, update_collaborator_role, remove_collaborator,
  follow_playlist, unfollow_playlist,
}
use audio_block_backend.Base.{ℕ, List, String, Outcome, Ensures, ok, err, gives, throws}

pub data Call : Type 0 where
  updates : String → String → UpdatePlaylistInput → Call
  removes : String → String → Call
  adds : List CatalogueSong → String → String → String → Call
  drops : String → String → String → Call
  reorders : ℕ → List CatalogueSong → String → String → List String → Call
  moves : ℕ → List CatalogueSong → String → String → String → Number → Call
  invites : String → String → AddCollaboratorInput → Call
  changes_role : String → String → String → String → Call
  uninvites : String → String → String → Call
  follows : String → String → Call
  unfollows : String → String → Call

-- The user that calls.
abbrev pub caller : Call → String
caller (updates id user input) = user
caller (removes id user) = user
caller (adds catalogue id user song) = user
caller (drops id user song) = user
caller (reorders now catalogue id user ids) = user
caller (moves now catalogue id user song wanted) = user
caller (invites id owner input) = owner
caller (changes_role id owner user role) = owner
caller (uninvites id requester user) = requester
caller (follows user id) = user
caller (unfollows user id) = user

abbrev pub state_of : {A : Type 0} → Outcome Error (A × Store) → Outcome Error Store
state_of (ok (a, st)) = ok st
state_of (err e) = err e

unfoldable pub run : Call → Store → Outcome Error Store
run (updates id user input) st = state_of (update id user input st)
run (removes id user) st = remove id user st
run (adds catalogue id user song) st = state_of (add_song catalogue id user song st)
run (drops id user song) st = remove_song id user song st
run (reorders now catalogue id user ids) st = state_of (reorder now catalogue id user ids st)
run (moves now catalogue id user song wanted) st =
    state_of (move_song now catalogue id user song wanted st)
run (invites id owner input) st = state_of (add_collaborator id owner input st)
run (changes_role id owner user role) st = state_of (update_collaborator_role id owner user role st)
run (uninvites id requester user) st = remove_collaborator id requester user st
run (follows user id) st = state_of (follow_playlist user id st)
run (unfollows user id) st = ok (unfollow_playlist user id st)

pub state_of-Ensures :
    {A : Type 0} {P : Store → Type 0} {o : Outcome Error (A × Store)}
    → Ensures (λ (r : A × Store). P r.1) o
    → Ensures P (state_of o)
state_of-Ensures (gives h) = gives h
state_of-Ensures throws = throws
