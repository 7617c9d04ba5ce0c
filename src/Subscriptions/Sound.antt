-- ===== src/Subscriptions/Sound.antt =====
-- src/services/SubscriptionService.ts: a save and an insertion keep the tables sound, and what a
-- read of the current subscription leaves.
use audio_block_backend.Pages.{newest_first}
use audio_block_backend.Subscriptions.Rows.{count_rows-newest_first, find_row-newest}
use audio_block_backend.Subscriptions.{
  Subscription, expired, Store, Env, is_active, is_active_of, newest_active, is_id, is_over,
  current, finalize_trial_transition, billed, save, saved_row, insert,
}
use audio_block_backend.Base.{
  ◌+◌, ◌≤◌, ◌≡◌, refl, sym, ap, ◌∙◌, subst, inl, inr, Bool, true, false, Option, none, some, [],
  ◌∷◌, ◌++◌, arith, String, eq_iff, ltb, Bool-cases, Option-cases, Ensures, find_row, save_row,
  count_rows, find_row_fits, find_row-save_row, count_rows-append, count_option,
  count_rows-save_row, count_rows-none, str_eq, str_eq_refl, gives,
}

-- No two rows have an id, and a user has one active subscription at most.
pub record Sound (st : Store) : Type 0 where
  pub ids_once : (id : String) → count_rows (is_id id) st ≤ 1
  pub active_once : (user : String) → count_rows (is_active_of user) st ≤ 1

saved_row-same :
    (b : Bool) (o : Option Subscription) (s : Subscription)
    → ((saved_row b o s).id ≡ s.id)
      × ((saved_row b o s).user_id ≡ s.user_id)
      × ((saved_row b o s).status ≡ s.status)
unfolding saved_row
saved_row-same false o s = (refl, refl, refl)
saved_row-same true none s = (refl, refl, refl)
saved_row-same true (some old) s = (refl, refl, refl)

still_active :
    (user : String) (y x : Subscription)
    → y.user_id ≡ x.user_id
    → (is_active y.status ≡ true → is_active x.status ≡ true)
    → is_active_of user y ≡ true
    → is_active_of user x ≡ true
still_active user y x same still h = ground (arith, same, still)

save_row-once :
    (p q : Subscription → Bool) (x y : Subscription) (st : Store)
    → find_row p st ≡ some x
    → count_rows q st ≤ 1
    → (q y ≡ true → q x ≡ true)
    → count_rows q (save_row p y st) ≤ 1
save_row-once p q x y st e h k =
    let c = count_rows-save_row p q y st in
    let c' : count_rows q (save_row p y st) + count_option q (some x)
        ≡ count_rows q st + count_option q (some y) =
      rw e at c in
    ground (arith, c', k)

pub save-Sound :
    (env : Env) (s x : Subscription) (st : Store)
    → Sound st
    → find_row (is_id s.id) st ≡ some x
    → s.user_id ≡ x.user_id
    → (is_active s.status ≡ true → is_active x.status ≡ true)
    → Sound (save env s st).1
unfolding save
save-Sound env s x st v e same still =
    let row = saved_row env.skips_undefined (find_row (is_id s.id) st) s in
    let (i, u, t) = saved_row-same env.skips_undefined (find_row (is_id s.id) st) s in
    let own : s.id ≡ x.id = (eq_iff s.id x.id).0 (find_row_fits (is_id s.id) st x e) in
    record {
      ids_once = λ id.
          save_row-once (is_id s.id) (is_id id) x row st e (v.ids_once id)
            (λ h. subst (λ k. str_eq id k ≡ true) (i ∙ own) h);
      active_once = λ user.
          save_row-once (is_id s.id) (is_active_of user) x row st e (v.active_once user)
            (still_active user row x (u ∙ same) (λ h. still (subst (λ k. is_active k ≡ true) t h)));
    }

append-once :
    (q : Subscription → Bool) (y : Subscription) (st : Store)
    → count_rows q st ≤ 1
    → (q y ≡ true → count_rows q st ≡ 0)
    → count_rows q (st ++ y ∷ []) ≤ 1
unfolding count_rows
append-once q y st h k = let c = count_rows-append q st (y ∷ []) in ground (arith, c, k)

pub insert-Sound :
    (s : Subscription) (st : Store)
    → Sound st
    → count_rows (is_active_of s.user_id) st ≡ 0
    → Sound (insert s st).1
unfolding insert
insert-Sound s st v h = elim (Option-cases (find_row (is_id s.id) st)) [
  | inr (x, e) ↦ rw (insert, e) v
  | inl e ↦
      rw (insert, e)
        (record {
          ids_once = λ id. append-once (is_id id) s st (v.ids_once id) (λ f.
              let same : s.id ≡ id = sym ((eq_iff id s.id).0 f) in
              subst (λ k. count_rows (is_id k) st ≡ 0) same (count_rows-none (is_id s.id) st e));
          active_once = λ user. append-once (is_active_of user) s st (v.active_once user) (λ f.
              let same : s.user_id ≡ user =
                ground (arith, eq_iff user s.user_id, eq_iff s.user_id user) in
              subst (λ k. count_rows (is_active_of k) st ≡ 0) same h);
        })
]

-- What a read of the current subscription gives: none is active, or the one that it gives is in the
-- table and active there.
pub data Current (user : String) (st : Store) : Option Subscription → Type 0 where
  nothing : count_rows (is_active_of user) st ≡ 0 → Current user st none
  held :
      {s x : Subscription}
      → find_row (is_id s.id) st ≡ some x
      → is_active_of user s ≡ true
      → is_active_of user x ≡ true
      → Current user st (some s)

pub newest_active-none :
    (user : String) (st : Store)
    → newest_active user st ≡ none
    → count_rows (is_active_of user) st ≡ 0
unfolding newest_active
newest_active-none user st e =
    sym (count_rows-newest_first (is_active_of user) st) ∙ count_rows-none _ (newest_first st) e

pub newest_active-found :
    (user : String) (st : Store) {s : Subscription}
    → Sound st
    → newest_active user st ≡ some s
    → (find_row (is_id s.id) st ≡ some s) × (is_active_of user s ≡ true)
unfolding newest_active
newest_active-found user st {s} v e = (
  find_row-newest (is_active_of user) (is_id s.id) st (v.ids_once s.id) e (str_eq_refl s.id),
  find_row_fits (is_active_of user) (newest_first st) s e,
)

save_row-ends :
    (p q : Subscription → Bool) (x y : Subscription) (st : Store)
    → find_row p st ≡ some x
    → count_rows q st ≤ 1
    → q x ≡ true
    → q y ≡ false
    → count_rows q (save_row p y st) ≡ 0
save_row-ends p q x y st e h fits off =
    let c = count_rows-save_row p q y st in
    let c' : count_rows q (save_row p y st) + count_option q (some x)
        ≡ count_rows q st + count_option q (some y) =
      rw e at c in
    ground (arith, c', fits, off)

-- A save of the active row as one that is not active leaves the user without an active row.
pub save-ends :
    (env : Env) (user : String) (s x : Subscription) (st : Store)
    → Sound st
    → find_row (is_id s.id) st ≡ some x
    → is_active_of user x ≡ true
    → is_active s.status ≡ false
    → count_rows (is_active_of user) (save env s st).1 ≡ 0
unfolding save
save-ends env user s x st v e a n =
    let row = saved_row env.skips_undefined (find_row (is_id s.id) st) s in
    let (i, u, t) = saved_row-same env.skips_undefined (find_row (is_id s.id) st) s in
    let off : is_active row.status ≡ false = ap is_active t ∙ n in
    save_row-ends (is_id s.id) (is_active_of user) x row st e (v.active_once user) a
      (ground (arith, off))

-- A save of the active row as one that still is active is found there.
pub save-holds :
    (env : Env) (user : String) (s : Subscription) (st : Store)
    → is_active_of user s ≡ true
    → Current user (save env s st).1 (some s)
unfolding save
save-holds env user s st a =
    let row = saved_row env.skips_undefined (find_row (is_id s.id) st) s in
    let (i, u, t) = saved_row-same env.skips_undefined (find_row (is_id s.id) st) s in
    let own : is_id s.id row ≡ true =
      subst (λ k. str_eq s.id k ≡ true) (sym i) (str_eq_refl s.id) in
    held (find_row-save_row (is_id s.id) row st own) a
      (still_active user s row (sym u) (λ h. ap is_active t ∙ h) a)

-- A read of the active row.
pub current-Current :
    (env : Env) (user : String) (s : Subscription) (st : Store)
    → Sound st
    → find_row (is_id s.id) st ≡ some s
    → is_active_of user s ≡ true
    → Sound (current env s st).1 × Ensures (Current user (current env s st).1) (current env s st).0
unfolding current finalize_trial_transition save billed
current-Current env user s st v e a =
    let over : Subscription = record s { status = expired } in
    elim (Bool-cases (is_over env.now s)) [
      | inl f ↦
          rw (current, f)
            (
              save-Sound env over s st v e refl (λ h. cc),
              gives (nothing (save-ends env user over s st v e a refl)),
            )
      | inr f ↦ elim (Option-cases s.trial_ends_at) [
        | inl g ↦ rw (current, f, g) (v, gives (held e a a))
        | inr (t, g) ↦ elim (Bool-cases (ltb env.now t)) [
          | inl k ↦ rw (current, f, g, k) (v, gives (held e a a))
          | inr k ↦
              rw (current, f, g, k, finalize_trial_transition, g)
                (
                  save-Sound env (billed t s) s st v e refl (λ h. h),
                  gives (save-holds env user (billed t s) st a),
                )
        ]
      ]
    ]
