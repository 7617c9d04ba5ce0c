-- ===== src/Tests/TokensTests.antt =====
-- services/RefreshTokenService.ts: a session that rotates and one whose old token is used again.
use audio_block_backend.Base.{
  ℕ, ◌+◌, ◌<◌, ◌≡◌, refl, sym, ap, ◌≢◌, ◌⊎◌, none, some, List, [], ◌∷◌, arith, String, find_row,
  save_row, delete_rows, str_eq,
}
use audio_block_backend.Tokens.{
  RefreshToken, max_rotations, get_refresh_token, store_refresh_token, create_refresh_token,
  rotate_refresh_token, new_row,
}
use audio_block_backend.Tokens.Rotation.{
  IsRevoked, rotate_cases, reuse_detected, IsBounded, rotates, Step-IsBounded, get-store,
}

abbrev row : String → ℕ → RefreshToken
row token rotation = record {
  user_id = "u1";
  family = "f1";
  token = token;
  rotation = rotation;
  created_at = 1000;
  expires_at = 604801000;
}

abbrev session : List RefreshToken
session = row "t1" 0 ∷ []

create_test : create_refresh_token "u1" "f1" "t1" 1000 [] ≡ session
unfolding create_refresh_token save_row
create_test = refl

rotate_test : rotate_refresh_token "u1" "t1" "f1" "t2" 1000 session ≡ (some "t2", row "t2" 1 ∷ [])
unfolding rotate_refresh_token find_row save_row
rotate_test = refl

last_rotation_test : rotate_refresh_token "u1" "t9" "f1" "t10" 1000 (row "t9" 100 ∷ []) ≡ (none, [])
unfolding rotate_refresh_token find_row delete_rows
last_rotation_test = refl

rotate_cases_example :
    let r = rotate_refresh_token "u1" "t1" "f1" "t2" 1000 session in
    ((stored : RefreshToken) × (get_refresh_token "u1" "f1" 1000 session ≡ some stored)
      × (stored.token ≡ "t1")
      × (stored.rotation < max_rotations)
      × (r.0 ≡ some "t2")
      × (r.1 ≡ store_refresh_token "u1" "t2" "f1" (stored.rotation + 1) 1000 session))
    ⊎ ((r.0 ≡ none)
        × IsRevoked "u1" "f1" r.1
        × ¬ (
            (stored : RefreshToken) × (get_refresh_token "u1" "f1" 1000 session ≡ some stored)
            × (stored.token ≡ "t1")
            × (stored.rotation < max_rotations)))
rotate_cases_example = rotate_cases "u1" "t1" "f1" "t2" 1000 session

t2-ne-t1 : ◌≢◌ {A = String} "t2" "t1"
t2-ne-t1 e = cc (sym (ap (λ s. str_eq s "t1") e))

reuse_detected_test :
    let after =
      rotate_refresh_token "u1" "t1" "f1" "t3" 2000
        (rotate_refresh_token "u1" "t1" "f1" "t2" 1000 session).1 in
    (after.0 ≡ none) × ((rotate_refresh_token "u1" "t2" "f1" "t4" 3000 after.1).0 ≡ none)
unfolding rotate_refresh_token find_row save_row
reuse_detected_test =
    reuse_detected "u1" "t1" "f1" "t2" "t3" "t4" "t2" 1000 2000 3000 session refl t2-ne-t1
      (omega arith)

Step-IsBounded_test : IsBounded (rotate_refresh_token "u1" "t1" "f1" "t2" 1000 session).1
Step-IsBounded_test = Step-IsBounded (rotates "u1" "t1" "f1" "t2" 1000 session) (omega arith)

get-store_example :
    get_refresh_token "u1" "f1" 2000 (store_refresh_token "u1" "t2" "f1" 1 1000 session)
    ≡ some (new_row "u1" "t2" "f1" 1 1000)
get-store_example = get-store "u1" "f1" "t2" 1 1000 2000 session (omega arith)
