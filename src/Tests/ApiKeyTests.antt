-- ===== src/Tests/ApiKeyTests.antt =====
-- src/services/ApiKeyService.ts: a moderator with a key.
use audio_block_backend.ApiKeys.Grants.{key_has_permission-allowed}
use audio_block_backend.ApiKeys.{
  listener, key_has_permission, moderator, upload, standard, User, ApiKey, ApiKeyView, Store,
  permission_exceeds_role, key_revoked, Env, is_api_key_format, raw_key, create_api_key,
  revoke_api_key, validate_api_key, new_key, to_view, assert_permissions_allowed_for_role,
  role_has_permission, includes, insert, hex_from,
}
use audio_block_backend.ApiKeys.Limits.{Limited, creates, revokes, after_all, after_all-Limited}
use audio_block_backend.ApiKeys.Trips.{create_api_key-Trip}
use audio_block_backend.Base.{
  ◌≡◌, refl, false, not, [], ◌∷◌, arith, String, find_row, count_rows, str_eq, ok, err,
}

abbrev secret : String
secret = "0123456789abcdef0123456789abcdef0123456789abcdef0123456789abcdef"

abbrev env : Env
env = record {
  now = 7;
  row_id = "k1";
  secret = secret;
  hash = λ s. s;
  from_hex = λ s. s;
  is_uuid = λ s. not (str_eq s "");
}

abbrev start : Store
start = record { users = record { id = "m"; role = moderator } ∷ []; keys = [] }

start-Limited : Limited start
unfolding Limited count_rows
start-Limited user = omega arith

after_all-Limited_example :
    Limited
      (after_all ((env, creates "m" "ci" [] [] standard) ∷ (env, revokes "m" "k1") ∷ []) start)
after_all-Limited_example =
    after_all-Limited ((env, creates "m" "ci" [] [] standard) ∷ (env, revokes "m" "k1") ∷ []) start
      start-Limited

abbrev issued : ApiKey
issued = new_key env "m" "ci" (upload ∷ []) ("jobs:view" ∷ []) standard

abbrev later_store : Store
later_store = record { users = record { id = "m"; role = moderator } ∷ []; keys = issued ∷ [] }

create_api_key-Trip_example :
    (holder : User) × (validate_api_key env (raw_key secret) later_store ≡ ok (issued, holder))
    × (assert_permissions_allowed_for_role holder.role ("jobs:view" ∷ []) ≡ ok tt)
    × ((after : ApiKeyView × Store) × (revoke_api_key (record env { now = 9 }) "m" "k1" later_store
          ≡ ok after)
        × (validate_api_key (record env { now = 9 }) (raw_key secret) after.1 ≡ err key_revoked))
unfolding create_api_key new_key is_api_key_format find_row count_rows insert
    assert_permissions_allowed_for_role role_has_permission includes hex_from
create_api_key-Trip_example =
    create_api_key-Trip env "m" "ci" (upload ∷ []) ("jobs:view" ∷ []) standard start later_store
      (to_view issued) (raw_key secret) refl refl refl refl 9

beyond_role :
    create_api_key env "m" "ci" [] ("role:assign" ∷ []) standard start ≡ err permission_exceeds_role
unfolding create_api_key find_row assert_permissions_allowed_for_role role_has_permission includes
beyond_role = refl

abbrev owner : User
owner = record { id = "m"; role = moderator }

key_has_permission-allowed_example :
    key_has_permission issued owner "jobs:view" ≡ includes "jobs:view" issued.permissions
unfolding assert_permissions_allowed_for_role role_has_permission includes new_key
key_has_permission-allowed_example = key_has_permission-allowed issued owner "jobs:view" refl

-- A listener keeps nothing of what the key lists.
downgraded : key_has_permission issued (record { id = "m"; role = listener }) "jobs:view" ≡ false
unfolding key_has_permission role_has_permission includes new_key
downgraded = refl
