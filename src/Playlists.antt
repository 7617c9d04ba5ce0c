-- ===== src/Playlists.antt =====
-- src/services/PlaylistService.ts over the tables of src/entities/Playlist.ts, PlaylistSong.ts,
-- PlaylistCollaborator.ts and PlaylistFollow.ts: the state, who may read and change a playlist, and
-- its creation, update and deletion. A call gives what it returns with the new state, or the error
-- that it throws: each check comes before the first write, so that a call that throws changes
-- nothing. A row's generated id is an argument; the stamps of time are left out.
pub mod Songs
pub mod Sharing
pub mod Calls
pub mod Access
pub mod Positions
pub mod Orders
pub mod Sorted
pub mod Follows
pub mod Rules
pub mod Reading
pub mod Refine
pub mod Once
pub mod Runs
pub mod Listed
pub mod Moves
pub mod Frame
pub mod Permission
use audio_block_backend.Base.{
  ℕ, Bool, true, false, not, ◌&&◌, ◌||◌, Option, none, some, List, [], ◌∷◌, ◌++◌, String, ltb, leb,
  if◌then◌else◌, Outcome, ◌>>=◌, ◌>>◌, refuse, find_row, save_row, delete_rows, str_eq, non_empty,
  or_else, trim, ok, err,
}

-- A number of days as the client sends it; a fraction is given by its milliseconds.
pub data Days : Type 0 where
  whole : ℕ → Days
  fraction : ℕ → Days
  negative : Days

pub record PlaylistRule : Type 0 where
  pub tags : Option (List String)
  pub genres : Option (List String)
  pub saved_within_days : Option Days

pub record Playlist : Type 0 where
  pub id : String
  pub user_id : String
  pub name : String
  pub description : Option String
  pub is_public : Bool
  pub cover_image_url : Option String
  pub is_rule_based : Bool
  pub rule : Option PlaylistRule

pub record PlaylistSong : Type 0 where
  pub playlist_id : String
  pub song_id : String
  pub position : ℕ

pub data PlaylistCollaboratorRole : Type 0 where
  editor viewer : PlaylistCollaboratorRole

pub record PlaylistCollaborator : Type 0 where
  pub playlist_id : String
  pub user_id : String
  pub role : PlaylistCollaboratorRole

pub record PlaylistFollow : Type 0 where
  pub user_id : String
  pub playlist_id : String

pub record Store : Type 0 where
  pub playlists : List Playlist
  pub songs : List PlaylistSong
  pub collaborators : List PlaylistCollaborator
  pub follows : List PlaylistFollow

-- The errors by their codes; the conflict and the missing collaborator have none of their own.
pub data Error : Type 0 where
  playlist_not_found playlist_private not_playlist_owner not_playlist_editor : Error
  playlist_name_required playlist_rule_empty playlist_rule_invalid playlist_rule_based : Error
  song_not_found playlist_song_not_found playlist_reorder_invalid : Error
  collaborator_user_required collaborator_is_owner collaborator_role_invalid : Error
  collaborator_exists collaborator_not_found collaborator_remove_forbidden : Error
  playlist_follow_self : Error

pub record CreatePlaylistInput : Type 0 where
  pub name : Option String
  pub description : Option String
  pub is_public : Option Bool
  pub cover_image_url : Option String
  pub is_rule_based : Option Bool
  pub rule : Option PlaylistRule

-- A rule may be missing, or null.
pub record UpdatePlaylistInput : Type 0 where
  pub name : Option String
  pub description : Option String
  pub is_public : Option Bool
  pub cover_image_url : Option String
  pub is_rule_based : Option Bool
  pub rule : Option (Option PlaylistRule)

abbrev pub is_named : String → Playlist → Bool
is_named id p = str_eq id p.id

abbrev pub is_editor : PlaylistCollaboratorRole → Bool
is_editor editor = true
is_editor viewer = false

abbrev pub is_invited : String → String → PlaylistCollaborator → Bool
is_invited id user c = str_eq id c.playlist_id && str_eq user c.user_id

abbrev pub is_found {ℓ} : {A : Type ℓ} → Option A → Bool
is_found none = false
is_found (some a) = true

unfoldable pub is_collaborator : String → String → Store → Bool
is_collaborator id user st = is_found (find_row (is_invited id user) st.collaborators)

unfoldable pub is_editor_collaborator : String → String → Store → Bool
is_editor_collaborator id user st = is_found (
    find_row (λ (c : PlaylistCollaborator). is_invited id user c && is_editor c.role)
      st.collaborators)

-- An empty viewer is no viewer.
unfoldable pub can_read : Playlist → Option String → Store → Bool
unfolding is_collaborator
can_read p reader st = p.is_public || (elim reader [
  | none ↦ false
  | some user ↦ not (str_eq user "") && (str_eq p.user_id user || is_collaborator p.id user st)
])

unfoldable pub find_playlist : String → Store → Outcome Error Playlist
find_playlist id st = elim (find_row (is_named id) st.playlists) [
  | none ↦ err playlist_not_found
  | some p ↦ ok p
]

unfoldable pub get_owned_playlist : String → String → Store → Outcome Error Playlist
unfolding find_playlist
get_owned_playlist id user st = do
  p ← find_playlist id st
  refuse (not (str_eq p.user_id user)) not_playlist_owner
  ok p

unfoldable pub get_editable_playlist : String → String → Store → Outcome Error Playlist
unfolding find_playlist is_editor_collaborator
get_editable_playlist id user st = do
  p ← find_playlist id st
  refuse (not (str_eq p.user_id user || is_editor_collaborator id user st)) not_playlist_editor
  ok p

unfoldable pub get_readable_playlist : String → Option String → Store → Outcome Error Playlist
unfolding find_playlist can_read
get_readable_playlist id reader st = do
  p ← find_playlist id st
  refuse (not (can_read p reader st)) playlist_private
  ok p

abbrev pub is_listed : Option (List String) → Bool
is_listed none = false
is_listed (some []) = false
is_listed (some (s ∷ rest)) = true

abbrev pub is_positive : Option Days → Bool
is_positive none = false
is_positive (some (whole n)) = ltb 0 n
is_positive (some (fraction ms)) = true
is_positive (some negative) = false

abbrev pub is_improper : Option Days → Bool
is_improper none = false
is_improper (some (whole n)) = leb n 0
is_improper (some (fraction ms)) = true
is_improper (some negative) = true

abbrev pub empty_rule : PlaylistRule
empty_rule = record { tags = none; genres = none; saved_within_days = none }

abbrev pub has_criteria : PlaylistRule → Bool
has_criteria r = is_listed r.tags || is_listed r.genres || is_positive r.saved_within_days

unfoldable pub assert_valid_rule : Bool → Option PlaylistRule → Outcome Error (Unit {0})
assert_valid_rule false rule = ok tt
assert_valid_rule true rule = do
  let r = or_else rule empty_rule
  refuse (not (has_criteria r)) playlist_rule_empty
  refuse (is_improper r.saved_within_days) playlist_rule_invalid

-- `s?.trim() || undefined`
unfoldable pub trimmed : Option String → Option String
unfolding trim
trimmed none = none
trimmed (some s) = non_empty (trim s)

abbrev pub cover_of : Option String → Option String
cover_of none = none
cover_of (some s) = non_empty s

unfoldable pub create :
    String → String → CreatePlaylistInput → Store → Outcome Error (Playlist × Store)
unfolding assert_valid_rule trimmed
create id user input st = elim (trimmed input.name) [
  | none ↦ err playlist_name_required
  | some name ↦ do
    let is_rule_based = or_else input.is_rule_based false
    assert_valid_rule is_rule_based input.rule
    let p : Playlist = record {
      id = id;
      user_id = user;
      name = name;
      description = trimmed input.description;
      is_public = or_else input.is_public true;
      cover_image_url = cover_of input.cover_image_url;
      is_rule_based = is_rule_based;
      rule = if is_rule_based then input.rule else none;
    }
    ok (p, record st { playlists = st.playlists ++ p ∷ [] })
]

unfoldable pub set_name : Option String → Playlist → Outcome Error Playlist
unfolding trim
set_name none p = ok p
set_name (some s) p =
    if str_eq (trim s) "" then err playlist_name_required else ok (record p { name = trim s })

abbrev pub set_details : UpdatePlaylistInput → Playlist → Playlist
unfolding trim
set_details input p = record p {
  description = elim input.description [ none ↦ p.description | some s ↦ some (trim s) ];
  is_public = or_else input.is_public p.is_public;
  cover_image_url = elim input.cover_image_url [ none ↦ p.cover_image_url | some s ↦ some s ];
}

-- The rule that is checked: a missing one counts as null.
abbrev pub given_rule : Option (Option PlaylistRule) → Option PlaylistRule
given_rule none = none
given_rule (some rule) = rule

unfoldable pub set_rule :
    Option Bool → Option (Option PlaylistRule) → Playlist → Outcome Error Playlist
unfolding assert_valid_rule
set_rule (some is_rule_based) rule p = do
  assert_valid_rule is_rule_based (given_rule rule)
  ok (record p {
    is_rule_based = is_rule_based;
    rule = if is_rule_based then or_else rule p.rule else none;
  })
set_rule none (some rule) p = do
  assert_valid_rule p.is_rule_based rule
  ok (record p { rule = rule })
set_rule none none p = ok p

unfoldable pub save_playlist : Playlist → Store → Store
save_playlist p st = record st { playlists = save_row (is_named p.id) p st.playlists }

unfoldable pub update :
    String → String → UpdatePlaylistInput → Store → Outcome Error (Playlist × Store)
unfolding get_editable_playlist set_name set_rule save_playlist
update id user input st = do
  p ← get_editable_playlist id user st
  named ← set_name input.name p
  changed ← set_rule input.is_rule_based input.rule (set_details input named)
  ok (changed, save_playlist changed st)

-- The foreign keys delete the rows of the playlist with it.
unfoldable pub remove : String → String → Store → Outcome Error Store
unfolding get_owned_playlist
remove id user st = do
  _ ← get_owned_playlist id user st
  ok (record {
    playlists = delete_rows (is_named id) st.playlists;
    songs = delete_rows (λ (e : PlaylistSong). str_eq id e.playlist_id) st.songs;
    collaborators =
        delete_rows (λ (c : PlaylistCollaborator). str_eq id c.playlist_id) st.collaborators;
    follows = delete_rows (λ (f : PlaylistFollow). str_eq id f.playlist_id) st.follows;
  })
