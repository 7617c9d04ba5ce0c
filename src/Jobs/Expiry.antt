-- ===== src/Jobs/Expiry.antt =====
-- src/services/JobQueueService.ts: the record of a completed job is dropped when its time is up.
use audio_block_backend.Jobs.{
  Job, JobStatus, completed, JobQueue, status_code, same_status, is_job, get_job, expire,
}
use audio_block_backend.Jobs.Moves.{IdsOnce}
use audio_block_backend.Jobs.Table.{with_status, one_if, places}
use audio_block_backend.Jobs.Sound.{Sound, IsIn}
use audio_block_backend.Base.{
  ℕ, suc, ◌+◌, ◌≤◌, ◌≡◌, refl, sym, ap, ◌∙◌, subst, inl, inr, Bool, Option, none, some, List, [],
  ◌∷◌, arith, String, eq_iff, if◌then◌else◌, Bool-cases, some_unique, find_row, delete_rows,
  count_rows, find_row-delete_rows, find_row-delete_rows_other, count_option,
  count_rows-delete_rows, str_eq,
}

delete_rows-uncounted :
    (p : Job → Bool) (rows : List Job) → count_rows p rows ≡ 0 → delete_rows p rows ≡ rows
unfolding count_rows delete_rows
delete_rows-uncounted p [] h = refl
delete_rows-uncounted p (x ∷ rows) h = elim (Bool-cases (p x)) [
  | inl e ↦ absurd (ground (arith, h, e))
  | inr e ↦ rw (e, delete_rows-uncounted p rows (rw e at h)) refl
]

-- The one record that goes is taken out of a count.
count_rows-delete_one :
    (p f : Job → Bool) (rows : List Job) {r : Job}
    → count_rows p rows ≤ 1
    → find_row p rows ≡ some r
    → count_rows f (delete_rows p rows) + count_option f (some r) ≡ count_rows f rows
unfolding count_rows delete_rows find_row
count_rows-delete_one p f [] h e = cc
count_rows-delete_one p f (x ∷ rows) {r} h e = elim (Bool-cases (p x)) [
  | inl g ↦
      let h' : suc (count_rows p rows) ≤ 1 = rw g at h in
      let same : x ≡ r = some_unique _ refl (rw g at e) in
      let rest = delete_rows-uncounted p rows (omega arith) in rw (g, rest, ← same) (ground arith)
  | inr g ↦
      let ih = count_rows-delete_one p f rows (rw g at h) (rw g at e) in rw g (ground (arith, ih))
]

abbrev without : String → JobQueue → JobQueue
without id q = record q { records = delete_rows (is_job id) q.records }

get_job-without :
    (id k : String) (q : JobQueue)
    → get_job k (without id q) ≡ (if str_eq id k then none else get_job k q)
unfolding get_job
get_job-without id k q = elim (Bool-cases (str_eq id k)) [
  | inl e ↦
      let same : id ≡ k = (eq_iff id k).0 e in
      rw e (
        subst (λ x. find_row (is_job x) (delete_rows (is_job id) q.records) ≡ none) same
          (find_row-delete_rows (is_job id) q.records))
  | inr e ↦ rw e (
      find_row-delete_rows_other (is_job id) (is_job k) q.records
        (λ x h. ground (arith, h, e, eq_iff id x.id, eq_iff k x.id, eq_iff id k)))
]

with_status-without :
    (s : JobStatus) (id : String) (job : Job) (q : JobQueue)
    → IdsOnce q
    → get_job id q ≡ some job
    → with_status s (without id q) + one_if s (some job) ≡ with_status s q
unfolding with_status get_job
with_status-without s id job q once e =
    count_rows-delete_one (is_job id) (λ (j : Job). same_status j.status s) q.records (once id) e

places-without : (k id : String) (q : JobQueue) → places k (without id q) ≡ places k q
unfolding places
places-without k id q = refl

kept_job :
    (id k : String) (q : JobQueue) (j : Job)
    → get_job k (without id q) ≡ some j
    → get_job k q ≡ some j
kept_job id k q j e =
    let f : (if str_eq id k then none else get_job k q) ≡ some j =
      sym (get_job-without id k q) ∙ e in
    elim (Bool-cases (str_eq id k)) [ inl h ↦ absurd (cc (rw h at f)) | inr h ↦ rw h at f ]

without-Sound :
    {gone : ℕ} {held : Option Job} (id : String) (job : Job) (q : JobQueue)
    → get_job id q ≡ some job
    → IsIn completed job
    → Sound gone held q
    → Sound (gone + 1) held (without id q)
without-Sound {gone} {held} id job q e c v = record {
  located = λ k. ground (
    arith,
    places-without k id q,
    get_job-without id k q,
    v.located k,
    v.located id,
    eq_iff id k,
    e,
    c,
  );
  dead = λ k. ground (arith, get_job-without id k q, v.dead k, v.dead id, eq_iff id k, e, c);
  counted = λ s. ground (arith, v.counted s, with_status-without s id job q v.ids e, c);
  ids = λ k. omega (arith, v.ids k, count_rows-delete_rows (is_job id) (is_job k) q.records);
  kept = λ j f. (
    elim (Bool-cases (str_eq id j.id)) [
      | inl h ↦
          let same : j ≡ job =
            some_unique _ (ap (λ k. get_job k q) ((eq_iff id j.id).0 h) ∙ (v.kept j f).0) e in
          absurd (ground (arith, (v.kept j f).1, c, ap (λ (x : Job). status_code x.status) same))
      | inr h ↦ get_job-without id j.id q ∙ rw h (v.kept j f).0
    ],
    (v.kept j f).1,
  );
  alone = λ k j f r. v.alone k j (kept_job id k q j f) r;
  tries = λ k j f. v.tries k j (kept_job id k q j f);
}

pub expire-Sound :
    {gone : ℕ} {held : Option Job} (id : String) (job : Job) (q : JobQueue)
    → get_job id q ≡ some job
    → IsIn completed job
    → Sound gone held q
    → Sound (gone + 1) held (expire id q)
unfolding expire
expire-Sound id job q e c v = rw (expire, e, c) (without-Sound id job q e c v)
