-- ===== src/Tokens.antt =====
-- src/services/RefreshTokenService.ts over the table `refresh_tokens`, which has one row for a user
-- and a family. Random tokens and the time of a call are arguments; times are in milliseconds.
pub mod Rotation
use audio_block_backend.Base.{
  ℕ, ◌+◌, ◌*◌, Bool, not, ◌&&◌, Option, none, some, List, String, ltb, leb, if◌then◌else◌, find_row,
  save_row, delete_rows, str_eq,
}

pub record RefreshToken : Type 0 where
  pub user_id : String
  pub family : String
  pub token : String
  pub rotation : ℕ
  pub created_at : ℕ
  pub expires_at : ℕ

abbrev pub refresh_token_expiry : ℕ
refresh_token_expiry = 7 * 24 * 60 * 60 * 1000

abbrev pub max_rotations : ℕ
max_rotations = 100

abbrev pub is_of_family : String → String → RefreshToken → Bool
is_of_family user family r = str_eq user r.user_id && str_eq family r.family

-- `SELECT … WHERE user_id = $1 AND family = $2 AND expires_at > NOW()`
unfoldable pub get_refresh_token : String → String → ℕ → List RefreshToken → Option RefreshToken
get_refresh_token user family now rows =
    find_row (λ r. is_of_family user family r && ltb now r.expires_at) rows

unfoldable pub new_row : String → String → String → ℕ → ℕ → RefreshToken
new_row user token family rotation now = record {
  user_id = user;
  family = family;
  token = token;
  rotation = rotation;
  created_at = now;
  expires_at = now + refresh_token_expiry;
}

-- `INSERT … ON CONFLICT (user_id, family) DO UPDATE`
unfoldable pub store_refresh_token :
    String → String → String → ℕ → ℕ → List RefreshToken → List RefreshToken
unfolding new_row
store_refresh_token user token family rotation now rows =
    save_row (is_of_family user family) (new_row user token family rotation now) rows

unfoldable pub revoke_refresh_token : String → String → List RefreshToken → List RefreshToken
revoke_refresh_token user family rows = delete_rows (is_of_family user family) rows

unfoldable pub revoke_all_user_tokens : String → List RefreshToken → List RefreshToken
revoke_all_user_tokens user rows = delete_rows (λ r. str_eq user r.user_id) rows

-- The fresh family and token are given.
unfoldable pub create_refresh_token :
    String → String → String → ℕ → List RefreshToken → List RefreshToken
unfolding store_refresh_token
create_refresh_token user family token now rows = store_refresh_token user token family 0 now rows

-- What a rotation does with the stored row; `fresh` is the token that would be handed out.
unfoldable pub rotate_stored :
    String
    → String
    → String
    → String
    → ℕ
    → RefreshToken
    → List RefreshToken
    → Option String × List RefreshToken
unfolding revoke_refresh_token store_refresh_token
rotate_stored user current family fresh now stored rows =
    if not (str_eq stored.token current)
    then (none, revoke_refresh_token user family rows)
    else (if leb max_rotations stored.rotation
        then (none, revoke_refresh_token user family rows)
        else (some fresh, store_refresh_token user fresh family (stored.rotation + 1) now rows))

unfoldable pub rotate_refresh_token :
    String → String → String → String → ℕ → List RefreshToken → Option String × List RefreshToken
unfolding get_refresh_token rotate_stored
rotate_refresh_token user current family fresh now rows =
    elim (get_refresh_token user family now rows) [
      | none ↦ (none, revoke_refresh_token user family rows)
      | some stored ↦ rotate_stored user current family fresh now stored rows
    ]
