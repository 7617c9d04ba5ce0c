-- ===== src/ApiKeys.antt =====
-- src/services/ApiKeyService.ts and src/utils/apiKeyCrypto.ts over the table of
-- src/entities/ApiKey.ts, with the permissions of src/types/Permissions.ts. The random secret, the
-- hash, the decoding of hexadecimal text and the pattern of a UUID are given by an environment. The
-- database inserts no row with the id or the hash of another.
pub mod Limits
pub mod Grants
pub mod Trips
use Prim.Native.String.{len, slice}
use text.Mathlib.Text.{starts_with}
use audio_block_backend.Pages.{newest_first}
use audio_block_backend.Base.{
  ℕ, zero, suc, ◌+◌, ◌-◌, ◌*◌, ◌/◌, ◌%◌, ◌^◌, ◌≤◌, ◌<◌, min, max, compare, Ordering, ◌≡◌, refl, sym,
  ap, ◌∙◌, subst, fun_ext, ◌≢◌, ◌↔◌, ◌⊎◌, inl, inr, Bool, true, false, not, ◌&&◌, ◌||◌, Option,
  none, some, List, [], ◌∷◌, ◌++◌, map, append-nil, append_assoc, arith, String, eq_iff, ltb, leb,
  ◌==◌, if◌then◌else◌, ltb→lt, lt→ltb, leb→le, ==_iff, tests, Bool-cases, Option-cases, List-cases,
  or-false_right, some_unique, Outcome, Ensures, refuse, ◌>>=◌, >>=-ok_inv, ◌>>◌, >>=-Ensures,
  refuse-Ensures, Ensures-ok, Ensures-weaken, find_row, save_row, select_rows, delete_rows,
  count_rows, find_row_fits, find_row-save_row, find_row-save_row_other, find_row-delete_rows,
  find_row-delete_rows_other, find_row-append, find_row-append_some, count_rows-append,
  count_option, count_rows-save_row, select_rows-append, select_rows-delete_rows_other,
  select_rows-map_other, find_row-map, count_rows-map, count_rows-delete_rows, count_rows-none,
  delete_rows-append, find_row-append_other, find_row-uncounted, save_row-append, str_eq,
  str_eq_refl, ◌+s◌, non_empty, or_text, or_else, decimal, join_with, length, get_elem?, set,
  length-append, length-set, get_elem?-set_self, get_elem?-set_ne, get_or, take, drop, replicate,
  take-append-drop, length-take, length-drop, length-replicate, length-map, take-eq_self, trim, ok,
  err, gives, throws,
}

pub data UserRole : Type 0 where
  listener artist moderator admin super_admin : UserRole

pub data Permission : Type 0 where
  content_moderate content_moderate_bulk jobs_view search_manage user_manage : Permission
  role_assign verification_review transaction_logs_view ai_usage_view : Permission

abbrev pub permission_text : Permission → String
permission_text content_moderate = "content:moderate"
permission_text content_moderate_bulk = "content:moderate:bulk"
permission_text jobs_view = "jobs:view"
permission_text search_manage = "search:manage"
permission_text user_manage = "user:manage"
permission_text role_assign = "role:assign"
permission_text verification_review = "verification:review"
permission_text transaction_logs_view = "transaction-logs:view"
permission_text ai_usage_view = "ai-usage:view"

abbrev pub all_permissions : List Permission
all_permissions =
    content_moderate ∷ content_moderate_bulk ∷ jobs_view ∷ search_manage ∷ user_manage ∷ role_assign
    ∷ verification_review ∷ transaction_logs_view ∷ ai_usage_view ∷ []

abbrev pub role_permissions : UserRole → List Permission
role_permissions listener = []
role_permissions artist = []
role_permissions moderator = content_moderate ∷ jobs_view ∷ verification_review ∷ []
role_permissions admin =
    content_moderate ∷ content_moderate_bulk ∷ jobs_view ∷ search_manage ∷ user_manage ∷ role_assign
    ∷ verification_review ∷ transaction_logs_view ∷ ai_usage_view ∷ []
role_permissions super_admin = all_permissions

unfoldable pub includes : String → List String → Bool
includes s [] = false
includes s (t ∷ ts) = str_eq s t || includes s ts

-- Permissions are compared by their texts, as the source casts any text to one.
unfoldable pub role_has_permission : UserRole → String → Bool
unfolding includes
role_has_permission role s = includes s (map permission_text (role_permissions role))

pub data ApiKeyScope : Type 0 where
  read_only upload admin_scope : ApiKeyScope

abbrev pub scope_eq : ApiKeyScope → ApiKeyScope → Bool
scope_eq read_only read_only = true
scope_eq upload upload = true
scope_eq admin_scope admin_scope = true
scope_eq _ _ = false

pub data RateLimitTier : Type 0 where
  standard high unlimited : RateLimitTier

pub record User : Type 0 where
  pub id : String
  pub role : UserRole

pub record ApiKey : Type 0 where
  pub id : String
  pub user_id : String
  pub name : String
  pub key_hash : String
  pub key_prefix : String
  pub scopes : List ApiKeyScope
  pub permissions : List String
  pub rate_limit_tier : RateLimitTier
  pub revoked_at : Option ℕ
  pub created_at : ℕ

pub record ApiKeyView : Type 0 where
  pub id : String
  pub name : String
  pub key_prefix : String
  pub scopes : List ApiKeyScope
  pub permissions : List String
  pub rate_limit_tier : RateLimitTier
  pub revoked_at : Option ℕ
  pub created_at : ℕ

pub record Store : Type 0 where
  pub users : List User
  pub keys : List ApiKey

pub data Error : Type 0 where
  invalid_id name_required name_too_long user_not_found unknown_permission : Error
  permission_exceeds_role key_limit duplicate_key key_not_found invalid_key key_revoked : Error

pub record Env : Type 0 where
  pub now : ℕ
  pub row_id : String
  pub secret : String
  pub hash : String → String
  pub from_hex : String → String
  pub is_uuid : String → Bool

abbrev pub raw_key : String → String
raw_key secret = "abk_" +s secret

abbrev pub hex_digits : List String
hex_digits =
    "0" ∷ "1" ∷ "2" ∷ "3" ∷ "4" ∷ "5" ∷ "6" ∷ "7" ∷ "8" ∷ "9" ∷ "a" ∷ "b" ∷ "c" ∷ "d" ∷ "e" ∷ "f"
    ∷ []

-- The next `n` characters from a place on are hexadecimal digits.
unfoldable pub hex_from : ℕ → ℕ → String → Bool
unfolding includes
hex_from zero at s = true
hex_from (suc n) at s = includes (slice s at (at + 1)) hex_digits && hex_from n (at + 1) s

unfoldable pub is_api_key_format : String → Bool
unfolding hex_from
is_api_key_format s = starts_with s "abk_" && (len s == 68) && hex_from 64 4 s

unfoldable pub timing_safe_equal_hex : Env → String → String → Bool
timing_safe_equal_hex env a b =
    if not (len (env.from_hex a) == len (env.from_hex b)) || (len (env.from_hex a) == 0)
    then false
    else str_eq (env.from_hex a) (env.from_hex b)

abbrev pub to_view : ApiKey → ApiKeyView
to_view k = record {
  id = k.id;
  name = k.name;
  key_prefix = k.key_prefix;
  scopes = k.scopes;
  permissions = k.permissions;
  rate_limit_tier = k.rate_limit_tier;
  revoked_at = k.revoked_at;
  created_at = k.created_at;
}

abbrev pub is_user : String → User → Bool
is_user id u = str_eq id u.id

abbrev pub is_id : String → ApiKey → Bool
is_id id k = str_eq id k.id

abbrev pub has_hash : String → ApiKey → Bool
has_hash hash k = str_eq hash k.key_hash

abbrev pub is_unrevoked : ApiKey → Bool
is_unrevoked k = elim k.revoked_at [ none ↦ true | some t ↦ false ]

abbrev pub is_active_of : String → ApiKey → Bool
is_active_of user k = str_eq user k.user_id && is_unrevoked k

abbrev pub given : {A : Type 0} → Error → Option A → Outcome Error A
given e none = err e
given e (some a) = ok a

unfoldable pub assert_permissions_allowed_for_role :
    UserRole → List String → Outcome Error (Unit {0})
unfolding role_has_permission includes
assert_permissions_allowed_for_role role [] = ok tt
assert_permissions_allowed_for_role role (p ∷ ps) = do
  refuse (not (includes p (map permission_text all_permissions))) unknown_permission
  refuse (not (role_has_permission role p)) permission_exceeds_role
  assert_permissions_allowed_for_role role ps

abbrev pub max_active_keys_per_user : ℕ
max_active_keys_per_user = 20

unfoldable pub insert : ApiKey → Store → Outcome Error Store
insert k st = elim (find_row (is_id k.id) st.keys) [
  | some other ↦ err duplicate_key
  | none ↦ elim (find_row (has_hash k.key_hash) st.keys) [
    | some other ↦ err duplicate_key
    | none ↦ ok (record st { keys = st.keys ++ k ∷ [] })
  ]
]

unfoldable pub new_key :
    Env → String → String → List ApiKeyScope → List String → RateLimitTier → ApiKey
new_key env user name scopes permissions tier = record {
  id = env.row_id;
  user_id = user;
  name = name;
  key_hash = env.hash (raw_key env.secret);
  key_prefix = "abk_" +s slice env.secret 0 8;
  scopes = scopes;
  permissions = permissions;
  rate_limit_tier = tier;
  revoked_at = none;
  created_at = env.now;
}

-- The view of the new key, with the raw key, and the tables.
unfoldable pub create_api_key :
    Env
    → String
    → String
    → List ApiKeyScope
    → List String
    → RateLimitTier
    → Store
    → Outcome Error ((ApiKeyView × String) × Store)
unfolding assert_permissions_allowed_for_role insert new_key
create_api_key env user_id name scopes permissions tier st = do
  refuse (not (env.is_uuid user_id)) invalid_id
  refuse (str_eq name "") name_required
  refuse (ltb 100 (len name)) name_too_long
  user ← given user_not_found (find_row (is_user user_id) st.users)
  assert_permissions_allowed_for_role user.role permissions
  refuse (leb max_active_keys_per_user (count_rows (is_active_of user_id) st.keys)) key_limit
  st' ← insert (new_key env user_id name scopes permissions tier) st
  ok ((to_view (new_key env user_id name scopes permissions tier), raw_key env.secret), st')

abbrev pub is_listed : String → Bool → ApiKey → Bool
is_listed user revoked k = str_eq user k.user_id && (revoked || is_unrevoked k)

unfoldable pub list_api_keys : Env → String → Bool → Store → Outcome Error (List ApiKeyView)
list_api_keys env user include_revoked st = do
  refuse (not (env.is_uuid user)) invalid_id
  ok (map to_view (newest_first (select_rows (is_listed user include_revoked) st.keys)))

abbrev pub own_key : String → Option ApiKey → Outcome Error ApiKey
own_key user none = err key_not_found
own_key user (some k) = if str_eq user k.user_id then ok k else err key_not_found

unfoldable pub revoked : Env → ApiKey → Store → ApiKeyView × Store
revoked env k st = elim k.revoked_at [
  | some t ↦ (to_view k, st)
  | none ↦
      let k' : ApiKey = record k { revoked_at = some env.now } in
      (to_view k', record st { keys = save_row (is_id k.id) k' st.keys })
]

unfoldable pub revoke_api_key : Env → String → String → Store → Outcome Error (ApiKeyView × Store)
unfolding revoked
revoke_api_key env user id st = do
  refuse (not (env.is_uuid user)) invalid_id
  refuse (not (env.is_uuid id)) invalid_id
  k ← own_key user (find_row (is_id id) st.keys)
  ok (revoked env k st)

unfoldable pub validate_api_key : Env → String → Store → Outcome Error (ApiKey × User)
unfolding is_api_key_format timing_safe_equal_hex
validate_api_key env raw st = do
  refuse (not (is_api_key_format raw)) invalid_key
  k ← given invalid_key (find_row (has_hash (env.hash raw)) st.keys)
  refuse (not (timing_safe_equal_hex env k.key_hash (env.hash raw))) invalid_key
  refuse (not (is_unrevoked k)) key_revoked
  u ← given user_not_found (find_row (is_user k.user_id) st.users)
  ok (k, u)

unfoldable pub includes_scope : ApiKeyScope → List ApiKeyScope → Bool
includes_scope s [] = false
includes_scope s (t ∷ ts) = scope_eq s t || includes_scope s ts

unfoldable pub key_has_scope : ApiKey → ApiKeyScope → Bool
unfolding includes_scope
key_has_scope k s = includes_scope s k.scopes || includes_scope admin_scope k.scopes

unfoldable pub key_has_permission : ApiKey → User → String → Bool
unfolding includes role_has_permission
key_has_permission k u p = includes p k.permissions && role_has_permission u.role p
