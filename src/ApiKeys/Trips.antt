-- ===== src/ApiKeys/Trips.antt =====
-- src/services/ApiKeyService.ts: a key from its creation to its end.
use Prim.Native.String.{len}
use audio_block_backend.ApiKeys.{
  ApiKey, ApiKeyView, ApiKeyScope, RateLimitTier, User, Store, Error, Env, invalid_id,
  name_required, name_too_long, user_not_found, key_limit, key_revoked, is_active_of, is_unrevoked,
  is_id, has_hash, is_user, given, raw_key, to_view, is_api_key_format, timing_safe_equal_hex,
  assert_permissions_allowed_for_role, insert, new_key, create_api_key, revoked, revoke_api_key,
  validate_api_key, max_active_keys_per_user,
}
use audio_block_backend.Base.{
  ℕ, ◌≡◌, refl, sym, ap, ◌∙◌, subst, inl, inr, Bool, true, false, not, Option, none, some, List, [],
  ◌∷◌, ◌++◌, String, ltb, leb, ◌==◌, ==_iff, Option-cases, Ensures, refuse, ◌>>=◌, ◌>>◌,
  >>=-Ensures, refuse-Ensures, Ensures-ok, find_row, save_row, count_rows, find_row-append,
  save_row-append, str_eq, str_eq_refl, ok, err, gives, throws,
}

-- The tables after the key `k` of the owner has been put in.
pub record Issued (k : ApiKey) (owner : User) (st : Store) : Type 0 where
  pub before : List ApiKey
  pub holds : st.keys ≡ before ++ k ∷ []
  pub own_id : find_row (is_id k.id) before ≡ none
  pub own_hash : find_row (has_hash k.key_hash) before ≡ none
  pub owned : find_row (is_user k.user_id) st.users ≡ some owner

insert-Issued :
    (k : ApiKey) (owner : User) (st : Store)
    → find_row (is_user k.user_id) st.users ≡ some owner
    → Ensures (Issued k owner) (insert k st)
unfolding insert
insert-Issued k owner st o = elim (Option-cases (find_row (is_id k.id) st.keys)) [
  | inr (x, e) ↦ rw (insert, e) throws
  | inl e ↦ elim (Option-cases (find_row (has_hash k.key_hash) st.keys)) [
    | inr (x, f) ↦ rw (insert, e, f) throws
    | inl f ↦
        rw (insert, e, f)
          (gives (record { before = st.keys; holds = refl; own_id = e; own_hash = f; owned = o }))
  ]
]

given-some : {A : Type 0} (e : Error) (o : Option A) {a : A} → given e o ≡ ok a → o ≡ some a
given-some e none h = cc
given-some e (some b) h = cc

-- What a creation has done: the owner is there, and holds all the permissions that were asked for.
pub record Created (is_uuid : String → Bool) (k : ApiKey) (raw secret : String) (view : ApiKeyView)
    (st : Store) : Type 0 where
  pub user_valid : not (is_uuid k.user_id) ≡ false
  pub owner : User
  pub issued : Issued k owner st
  pub allowed : assert_permissions_allowed_for_role owner.role k.permissions ≡ ok tt
  pub same_raw : raw ≡ raw_key secret
  pub same_view : view ≡ to_view k

pub create_api_key-Created :
    (env : Env) (user name : String) (scopes : List ApiKeyScope) (permissions : List String)
    (tier : RateLimitTier) (st : Store)
    → Ensures
        (λ (r : (ApiKeyView × String) × Store).
          Created env.is_uuid
            (new_key env user name scopes permissions tier)
            r.0.1
            env.secret
            r.0.0
            r.1)
        (create_api_key env user name scopes permissions tier st)
unfolding create_api_key new_key
create_api_key-Created env user name scopes permissions tier st =
    let k = new_key env user name scopes permissions tier in
    let full = leb max_active_keys_per_user (count_rows (is_active_of user) st.keys) in
    refuse-Ensures (not (env.is_uuid user)) invalid_id (λ valid.
      refuse-Ensures (str_eq name "") name_required (λ _.
        refuse-Ensures (ltb 100 (len name)) name_too_long (λ _.
          >>=-Ensures (given user_not_found (find_row (is_user user) st.users)) (λ u o.
            >>=-Ensures (assert_permissions_allowed_for_role u.role permissions) (λ _ a.
              refuse-Ensures full key_limit (λ _. >>=-Ensures (insert k st) (λ st' e.
                gives (record {
                  user_valid = valid;
                  owner = u;
                  issued = Ensures-ok (insert-Issued k u st (given-some user_not_found _ o)) e;
                  allowed = a;
                  same_raw = refl;
                  same_view = refl;
                }))))))))

module _ (k : ApiKey) (owner : User) (st : Store) (w : Issued k owner st) where
  Issued-found : find_row (has_hash k.key_hash) st.keys ≡ some k
  Issued-found =
      ap (find_row (has_hash k.key_hash)) w.holds
      ∙ find_row-append (has_hash k.key_hash) w.before k w.own_hash
      ∙ rw (str_eq_refl k.key_hash) refl

  Issued-by_id : find_row (is_id k.id) st.keys ≡ some k
  Issued-by_id =
      ap (find_row (is_id k.id)) w.holds
      ∙ find_row-append (is_id k.id) w.before k w.own_id
      ∙ rw (str_eq_refl k.id) refl

abbrev pub ended_at : ℕ → ApiKey → ApiKey
ended_at now k = record k { revoked_at = some now }

-- What a validation comes to, once the key is found by its hash.
validate_api_key-found :
    (env : Env) (raw : String) (k : ApiKey) (st : Store)
    → is_api_key_format raw ≡ true
    → find_row (has_hash (env.hash raw)) st.keys ≡ some k
    → timing_safe_equal_hex env k.key_hash (env.hash raw) ≡ true
    → validate_api_key env raw st ≡ (
        refuse (not (is_unrevoked k)) key_revoked
        >> (given user_not_found (find_row (is_user k.user_id) st.users) >>= (λ u. ok (k, u))))
unfolding validate_api_key
validate_api_key-found env raw k st f e t = rw (validate_api_key, f, e, t) refl

timing_safe_equal_hex-same :
    (env : Env) (h : String)
    → (len (env.from_hex h) == 0) ≡ false
    → timing_safe_equal_hex env h h ≡ true
unfolding timing_safe_equal_hex
timing_safe_equal_hex-same env h e =
    let same = (==_iff (len (env.from_hex h)) (len (env.from_hex h))).1 refl in
    rw (timing_safe_equal_hex, same, e, str_eq_refl (env.from_hex h)) refl

module _ (env : Env) (raw : String) (k : ApiKey) (owner : User) (st : Store) (w : Issued k owner st)
    (h : k.key_hash ≡ env.hash raw) (f : is_api_key_format raw ≡ true)
    (e : (len (env.from_hex (env.hash raw)) == 0) ≡ false) (n : k.revoked_at ≡ none) where
  same_hash : timing_safe_equal_hex env k.key_hash (env.hash raw) ≡ true
  same_hash =
      subst (λ x. timing_safe_equal_hex env x (env.hash raw) ≡ true) (sym h)
        (timing_safe_equal_hex-same env (env.hash raw) e)

  Issued-valid : validate_api_key env raw st ≡ ok (k, owner)
  Issued-valid =
      let found =
        subst (λ x. find_row (has_hash x) st.keys ≡ some k) h (Issued-found k owner st w) in
      let active : not (is_unrevoked k) ≡ false =
        ap (λ o. not (elim o [ none ↦ true | some t ↦ false ])) n in
      validate_api_key-found env raw k st f found same_hash ∙ rw (active, w.owned) refl

  abbrev ended : ApiKey
  ended = ended_at env.now k

  Issued-revoked :
      validate_api_key env raw (record st { keys = save_row (is_id k.id) ended st.keys })
      ≡ err key_revoked
  Issued-revoked =
      let saved =
        ap (save_row (is_id k.id) ended) w.holds
        ∙ save_row-append (is_id k.id) w.before k ended w.own_id (str_eq_refl k.id) in
      let there : find_row (has_hash k.key_hash) (save_row (is_id k.id) ended st.keys)
          ≡ some ended =
        ap (find_row (has_hash k.key_hash)) saved
        ∙ find_row-append (has_hash k.key_hash) w.before ended w.own_hash
        ∙ rw (str_eq_refl k.key_hash) refl in
      let found =
        subst (λ x. find_row (has_hash x) (save_row (is_id k.id) ended st.keys) ≡ some ended) h
          there in
      validate_api_key-found env raw ended _ f found same_hash

revoke_api_key-own :
    (env : Env) (k : ApiKey) (st : Store)
    → not (env.is_uuid k.user_id) ≡ false
    → env.is_uuid k.id ≡ true
    → find_row (is_id k.id) st.keys ≡ some k
    → k.revoked_at ≡ none
    → revoke_api_key env k.user_id k.id st
      ≡ ok (
        to_view (ended_at env.now k),
        record st { keys = save_row (is_id k.id) (ended_at env.now k) st.keys },
      )
unfolding revoke_api_key revoked
revoke_api_key-own env k st a b e n =
    let own = str_eq_refl k.user_id in simp (revoke_api_key, a, b, e, own, revoked, n)

-- A key that has been created is valid with its raw form, for an owner that is in the table of users
-- and whose role holds all its permissions, and once the owner has revoked it, at any time, a
-- validation says that it is revoked. It is assumed that the raw key has the form of a key, that its
-- hash is hexadecimal text that is not empty, and that the id of the row is a UUID.
pub create_api_key-Trip :
    (env : Env) (user name : String) (scopes : List ApiKeyScope) (permissions : List String)
    (tier : RateLimitTier) (st st' : Store) (view : ApiKeyView) (raw : String)
    → create_api_key env user name scopes permissions tier st ≡ ok ((view, raw), st')
    → is_api_key_format (raw_key env.secret) ≡ true
    → (len (env.from_hex (env.hash (raw_key env.secret))) == 0) ≡ false
    → env.is_uuid env.row_id ≡ true
    → (later : ℕ)
    → (owner : User) × (validate_api_key env raw st'
        ≡ ok (new_key env user name scopes permissions tier, owner))
      × (assert_permissions_allowed_for_role owner.role permissions ≡ ok tt)
      × ((after : ApiKeyView × Store) × (revoke_api_key
              (record env { now = later })
              user
              view.id
              st'
            ≡ ok after)
          × (validate_api_key (record env { now = later }) raw after.1 ≡ err key_revoked))
unfolding new_key
create_api_key-Trip env user name scopes permissions tier st st' view raw e f g u later =
    let k = new_key env user name scopes permissions tier in
    let env' : Env = record env { now = later } in
    let c = Ensures-ok (create_api_key-Created env user name scopes permissions tier st) e in
    let raw' = raw_key env.secret in
    let w = c.issued in
    let valid = Issued-valid env raw' k c.owner st' w refl f g refl in
    let by_id = Issued-by_id k c.owner st' w in
    let gone = revoke_api_key-own env' k st' c.user_valid u by_id refl in
    let refused = Issued-revoked env' raw' k c.owner st' w refl f g refl in
    let end : ApiKeyView × Store = (
      to_view (ended_at later k),
      record st' { keys = save_row (is_id k.id) (ended_at later k) st'.keys },
    ) in
    (
      c.owner,
      subst (λ x. validate_api_key env x st' ≡ ok (k, c.owner)) (sym c.same_raw) valid,
      c.allowed,
      (
        end,
        subst (λ (v : ApiKeyView). revoke_api_key env' user v.id st' ≡ ok end) (sym c.same_view)
            gone,
        subst (λ x. validate_api_key env' x end.1 ≡ err key_revoked) (sym c.same_raw) refused,
      ),
    )
