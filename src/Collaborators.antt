-- ===== src/Collaborators.antt =====
-- src/services/CollaborationService.ts over the tables of src/entities/SongCollaborator.ts and of
-- the songs. A share is a number of hundredths of a percent, as shares are with two decimals at most;
-- the notifications are left out. A call gives the row that it saved, or the error that it throws,
-- and the table.
pub mod Shares
pub mod Changes
pub mod Updates
pub mod Runs
use audio_block_backend.Base.{
  ℕ, ◌+◌, Bool, true, false, not, ◌&&◌, ◌||◌, Option, none, some, List, [], ◌∷◌, String, leb,
  if◌then◌else◌, find_row, save_row, select_rows, str_eq, or_else,
}

pub data CollaboratorStatus : Type 0 where
  pending active removed : CollaboratorStatus

pub data DisputeStatus : Type 0 where
  undisputed disputed resolved : DisputeStatus

pub data AppError : Type 0 where
  not_found authorization conflict validation : AppError

pub data Result (A : Type 0) : Type 0 where
  done : A → Result A
  throws : AppError → Result A

pub record Song : Type 0 where
  pub id : String
  pub artist_id : String
  pub mint_status : Option String

pub record SongCollaborator : Type 0 where
  pub song_id : String
  pub user_id : String
  pub role : String
  pub royalty_share : ℕ
  pub status : CollaboratorStatus
  pub dispute_status : DisputeStatus

pub record AddCollaboratorInput : Type 0 where
  pub user_id : String
  pub role : String
  pub royalty_share : ℕ

abbrev pub is_active : SongCollaborator → Bool
is_active c = elim c.status [ pending ↦ false | active ↦ true | removed ↦ false ]

abbrev pub is_of : String → String → SongCollaborator → Bool
is_of song user c = str_eq song c.song_id && str_eq user c.user_id

abbrev pub is_listed : String → SongCollaborator → Bool
is_listed song c = str_eq song c.song_id && is_active c

abbrev pub is_role : String → Bool
is_role s =
    str_eq s "primary"
    || str_eq s "featured"
    || str_eq s "producer"
    || str_eq s "writer"
    || str_eq s "mixer"

abbrev pub is_minted : Song → Bool
is_minted song =
    str_eq (or_else song.mint_status "") "pending" || str_eq (or_else song.mint_status "") "minted"

unfoldable pub get_song : String → List Song → Option Song
get_song id songs = find_row (λ (s : Song). str_eq id s.id) songs

-- The rows without those whose song does not exist are not looked at: the caller has the song.
unfoldable pub list_collaborators : String → List SongCollaborator → List SongCollaborator
list_collaborators song rows = select_rows (is_listed song) rows

unfoldable pub total_share : List SongCollaborator → ℕ
total_share [] = 0
total_share (c ∷ rows) = c.royalty_share + total_share rows

-- 100% and the tolerance of 0.01%.
abbrev pub share_limit : ℕ
share_limit = 10001

unfoldable pub shares_within_100 : List SongCollaborator → ℕ → Bool
unfolding total_share
shares_within_100 others share = leb (total_share others + share) share_limit

unfoldable pub save_collaborator : SongCollaborator → List SongCollaborator → List SongCollaborator
save_collaborator c rows = save_row (is_of c.song_id c.user_id) c rows

-- The checks that come before a change of the song's collaborators.
unfoldable pub may_manage : String → String → List Song → Option AppError
unfolding get_song
may_manage song_id requester songs = elim (get_song song_id songs) [
  | none ↦ some not_found
  | some song ↦
      if not (str_eq song.artist_id requester)
      then some authorization
      else (if is_minted song then some conflict else none)
]

unfoldable pub added_row :
    String → AddCollaboratorInput → Option SongCollaborator → SongCollaborator
added_row song_id input existing = record {
  song_id = song_id;
  user_id = input.user_id;
  role = input.role;
  royalty_share = input.royalty_share;
  status = active;
  dispute_status = elim existing [ none ↦ undisputed | some c ↦ c.dispute_status ];
}

unfoldable pub add_checked :
    String
    → AddCollaboratorInput
    → Option SongCollaborator
    → List SongCollaborator
    → Result SongCollaborator × List SongCollaborator
unfolding list_collaborators shares_within_100 save_collaborator added_row
add_checked song_id input existing rows =
    if shares_within_100 (list_collaborators song_id rows) input.royalty_share
    then (
      done (added_row song_id input existing),
      save_collaborator (added_row song_id input existing) rows,
    )
    else (throws validation, rows)

unfoldable pub add_allowed :
    String
    → AddCollaboratorInput
    → List SongCollaborator
    → Result SongCollaborator × List SongCollaborator
unfolding add_checked
add_allowed song_id input rows =
    if not (is_role input.role)
    then (throws validation, rows)
    else elim (find_row (is_of song_id input.user_id) rows) [
      | none ↦ add_checked song_id input none rows
      | some c ↦
          if is_active c then (throws conflict, rows) else add_checked song_id input (some c) rows
    ]

unfoldable pub add_collaborator :
    String
    → String
    → AddCollaboratorInput
    → List Song
    → List SongCollaborator
    → Result SongCollaborator × List SongCollaborator
unfolding may_manage add_allowed
add_collaborator song_id requester input songs rows = elim (may_manage song_id requester songs) [
  | some e ↦ (throws e, rows)
  | none ↦ add_allowed song_id input rows
]

abbrev pub is_active_of : String → String → SongCollaborator → Bool
is_active_of song user c = is_of song user c && is_active c

unfoldable pub set_role : Option String → SongCollaborator → Option SongCollaborator
set_role none c = some c
set_role (some r) c = if is_role r then some (record c { role = r }) else none

-- The shares of the others are those of the song's other users.
unfoldable pub set_share :
    String → String → Option ℕ → List SongCollaborator → SongCollaborator → Option SongCollaborator
unfolding list_collaborators shares_within_100
set_share song_id target none rows c = some c
set_share song_id target (some share) rows c =
    if shares_within_100
      (select_rows (λ (x : SongCollaborator). not (str_eq target x.user_id))
        (list_collaborators song_id rows))
      share
    then some (record c { royalty_share = share })
    else none

unfoldable pub update_found :
    String
    → String
    → Option String
    → Option ℕ
    → List SongCollaborator
    → SongCollaborator
    → Result SongCollaborator × List SongCollaborator
unfolding set_role set_share save_collaborator
update_found song_id target role share rows c = elim (set_role role c) [
  | none ↦ (throws validation, rows)
  | some c' ↦ elim (set_share song_id target share rows c') [
    | none ↦ (throws validation, rows)
    | some d ↦ (done d, save_collaborator d rows)
  ]
]

unfoldable pub update_collaborator :
    String
    → String
    → String
    → Option String
    → Option ℕ
    → List Song
    → List SongCollaborator
    → Result SongCollaborator × List SongCollaborator
unfolding may_manage update_found
update_collaborator song_id target requester role share songs rows =
    elim (may_manage song_id requester songs) [
      | some e ↦ (throws e, rows)
      | none ↦ elim (find_row (is_active_of song_id target) rows) [
        | none ↦ (throws not_found, rows)
        | some c ↦ update_found song_id target role share rows c
      ]
    ]

unfoldable pub set_dispute :
    DisputeStatus
    → AppError
    → String
    → String
    → List SongCollaborator
    → Result SongCollaborator × List SongCollaborator
unfolding save_collaborator
set_dispute status error song_id user rows = elim (find_row (is_active_of song_id user) rows) [
  | none ↦ (throws error, rows)
  | some c ↦
      let d : SongCollaborator = record c { dispute_status = status } in
      (done d, save_collaborator d rows)
]

unfoldable pub dispute_split :
    String
    → String
    → List Song
    → List SongCollaborator
    → Result SongCollaborator × List SongCollaborator
unfolding get_song set_dispute
dispute_split song_id requester songs rows = elim (get_song song_id songs) [
  | none ↦ (throws not_found, rows)
  | some song ↦ set_dispute disputed authorization song_id requester rows
]

unfoldable pub resolve_dispute :
    String
    → String
    → String
    → List Song
    → List SongCollaborator
    → Result SongCollaborator × List SongCollaborator
unfolding get_song set_dispute
resolve_dispute song_id target requester songs rows = elim (get_song song_id songs) [
  | none ↦ (throws not_found, rows)
  | some song ↦
      if not (str_eq song.artist_id requester)
      then (throws authorization, rows)
      else set_dispute resolved not_found song_id target rows
]
