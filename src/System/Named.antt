-- ===== src/System/Named.antt =====
-- An idempotency key goes on naming its job until a cleanupJobs takes steps.
use vpsops.Base.{
  ℕ, suc, length, Map, ◌≡◌, refl, sym, ap, subst, ◌∙◌, inl, inr, ◌⊎◌, Bool, true, false, Bool-cases,
  Option-cases, Option, none, some, List, [], ◌∷◌, count_if, get_elem?, is_empty, Text, text_eq,
  text_eq-true, lookup, lookup-insert, ℤ, arith,
}
use vpsops.Types.{RunRequest, RunResult, AuthInfo, LimitsConfig}
use vpsops.Os.{Os, Json}
use vpsops.Job.{Job, request_cancel, mark_running, set_cancel, set_result}
use vpsops.Lifecycle.{
  Lifecycle, idempotency_index_key, entry, new_job, register, release_job, reusable, prepare_job,
  cancel_job,
}
use vpsops.Lifecycle.Prepare.{Unlocked, unchanged, admitted, prepare_job-Effect}
use vpsops.Lifecycle.Idempotency.{prepare_job-again}
use vpsops.System.{
  Phase, queued, started, armed, ran, checked, saved, published, released, System, Action, submit,
  advance, cancel, guard, clean_up, step, run, run_job, run_task, finish,
}
use vpsops.System.Invariant.{Inv}
use vpsops.System.Reach.{step-Inv}
use vpsops.System.Cancel.{Lasting, StickyAt, some_eq}
use vpsops.System.Sticky.{true-false, step-StickyAt}

-- The steps of a cleanupJobs.
abbrev pub is_cleanup : Action → Bool
is_cleanup (submit req h auth remote id now) = false
is_cleanup (advance q res) = false
is_cleanup (cancel id) = false
is_cleanup guard = false
is_cleanup (clean_up i now) = true

-- The hash of the request that made the job.
abbrev pub HasHash : Text → Job → Phase → Type 0
HasHash h j ph = j.hash ≡ h

pub HasHash-Lasting : (h : Text) → Lasting (HasHash h)
unfolding request_cancel mark_running set_cancel set_result
HasHash-Lasting h = record {
  canceling = λ j ph e. ground (arith, e);
  start = λ j e. ground (arith, e);
  arm = λ j e. ground (arith, e);
  wait = λ j r e. e;
  test = λ j r e. e;
  save = λ j r e. e;
  publish = λ j j' r n f e. ground (arith, n, f, e);
  release = λ j e. e;
}

lookup-Unlocked :
    (l l1 : Lifecycle) (key : Text) → Unlocked l l1 key → l1.idempotency ≡ l.idempotency
lookup-Unlocked l l1 key (inl e) = rw e refl
lookup-Unlocked l l1 key (inr (p, j, e, d, same)) = rw same refl

-- A new job under another key, or under none.
lookup-register :
    (l : Lifecycle) (req : RunRequest) (j : Job) (key : Text) (p : ℕ)
    → lookup key l.idempotency ≡ some p
    → (is_empty req.idempotency_key ≡ true)
      ⊎ (text_eq (idempotency_index_key j.token_id req.idempotency_key) key ≡ false)
    → lookup key (register l req j).idempotency ≡ some p
unfolding register
lookup-register l req j key p e (inl empty) = ground (arith, e, empty)
lookup-register l req j key p e (inr other) =
    let index_key = idempotency_index_key j.token_id req.idempotency_key in
    ground (arith, e, other, lookup-insert index_key key (length l.heap) l.idempotency)

pub entry_found :
    (key : Text) (m : Map ℕ) (heap : List Job) (p : ℕ) (j : Job)
    → lookup key m ≡ some p
    → get_elem? heap p ≡ some j
    → entry key m heap ≡ some (p, j)
unfolding entry
entry_found key m heap p j e f = ground (arith, e, f)

-- A request that no job answers has no key, or another.
other_key :
    (os : Os) (json : Json) (l : Lifecycle) (req : RunRequest) (auth : AuthInfo) (key : Text)
    (p : ℕ) (j : Job)
    → entry key l.idempotency l.heap ≡ some (p, j)
    → reusable os json l req auth ≡ none
    → (is_empty req.idempotency_key ≡ true)
      ⊎ (text_eq (idempotency_index_key auth.token_id req.idempotency_key) key ≡ false)
other_key os json l req auth key p j here none_ = elim (Bool-cases (is_empty req.idempotency_key)) [
  | inl empty ↦ inl empty
  | inr keyed ↦
      let index_key = idempotency_index_key auth.token_id req.idempotency_key in
      elim (Bool-cases (text_eq index_key key)) [
        | inr other ↦ inr other
        | inl same ↦
            let found : entry key l.idempotency l.heap ≡ none =
              ap (λ k. entry k l.idempotency l.heap) (sym (text_eq-true index_key key same))
              ∙ (rw keyed at none_) in
            absurd (some-none (sym here ∙ found))
      ]
]
  where
    some-none : {x : ℕ × Job} → some x ≡ none → ⊥
    some-none e = cc

module _ (os : Os) (json : Json) (limits : LimitsConfig) (p : ℕ) (h key : Text) where
  -- The key names job `p`, which was made for a request with the hash `h`.
  pub record Named (s : System os json) : Type 0 where
    pub job : StickyAt os json limits p (HasHash h) s
    pub index : lookup key s.lifecycle.idempotency ≡ some p

  prepare_job-index :
      (s : System os json) (req : RunRequest) (req_hash : Text) (auth : AuthInfo)
      (remote job_id : Text) (now : ℤ)
      → Named s
      → lookup key
          (prepare_job os json s.lifecycle req req_hash auth remote job_id now s.fs).0.idempotency
        ≡ some p
  unfolding new_job
  prepare_job-index s req req_hash auth remote job_id now n =
      elim (Option-cases (reusable os json s.lifecycle req auth)) [
        | inr ((q, k), found) ↦
            rw
              (prepare_job-again os json s.lifecycle req req_hash auth remote job_id now s.fs q k
                found)
              n.index
        | inl none_ ↦
            let other =
              other_key os json s.lifecycle req auth key p n.job.job
                (entry_found key s.lifecycle.idempotency s.lifecycle.heap p n.job.job n.index
                  n.job.at_heap)
                none_ in
            elim (prepare_job-Effect os json s.lifecycle req req_hash auth remote job_id now s.fs) [
              | unchanged u old ↦ rw (lookup-Unlocked s.lifecycle _ req.lock_key u) n.index
              | admitted l1 u f room new out ↦
                  ap (λ (l : Lifecycle). lookup key l.idempotency) new
                  ∙ lookup-register (record l1 { sem = suc l1.sem }) req _ key p
                      (ap (lookup key) (lookup-Unlocked s.lifecycle l1 req.lock_key u) ∙ n.index)
                      other
            ]
      ]

  cancel_job-index : (l : Lifecycle) (id : Text) → (cancel_job l id).0.idempotency ≡ l.idempotency
  unfolding cancel_job
  cancel_job-index l id = ground arith

  finish-index :
      (s : System os json) (q : ℕ) (k : Job)
      → (finish os json s q k).lifecycle.idempotency ≡ s.lifecycle.idempotency
  unfolding finish release_job
  finish-index s q k = ground arith

  abbrev Indexed : System os json → Type 0
  Indexed s = lookup key s.lifecycle.idempotency ≡ some p

  run_job-index :
      (s s' : System os json) (q : ℕ) (k : Job) (ph : Phase) (res : RunResult)
      → Indexed s
      → run_job os json s q k ph res ≡ some s'
      → Indexed s'
  unfolding run_job
  run_job-index s s' q k queued res i r = subst Indexed (some_eq r) i
  run_job-index s s' q k started res i r = subst Indexed (some_eq r) i
  run_job-index s s' q k armed res i r = subst Indexed (some_eq r) i
  run_job-index s s' q k (ran x) res i r = subst Indexed (some_eq r) i
  run_job-index s s' q k (checked x) res i r = subst Indexed (some_eq r) i
  run_job-index s s' q k (saved x) res i r = elim (Option-cases (set_result k x)) [
    | inl none_ ↦ absurd (ground (arith, none_, r))
    | inr (k', set_) ↦ subst Indexed (some_eq (rw (set_, run_job) at r)) i
  ]
  run_job-index s s' q k published res i r =
      subst Indexed (some_eq r) (ap (lookup key) (finish-index s q k) ∙ i)
  run_job-index s s' q k released res i r = subst Indexed (some_eq r) i

  run_task-index :
      (s s' : System os json) (q : ℕ) (k : Option Job) (ph : Option Phase) (res : RunResult)
      → Indexed s
      → run_task os json s q k ph res ≡ some s'
      → Indexed s'
  run_task-index s s' q none ph res i r = subst Indexed (some_eq r) i
  run_task-index s s' q (some k) none res i r = subst Indexed (some_eq r) i
  run_task-index s s' q (some k) (some ph) res i r = run_job-index s s' q k ph res i r

  step-index :
      (s s' : System os json) (a : Action)
      → is_cleanup a ≡ false
      → Named s
      → step os json s a ≡ some s'
      → Indexed s'
  unfolding step
  step-index s s' (submit req req_hash auth remote job_id now) c n e =
      subst Indexed (some_eq e) (prepare_job-index s req req_hash auth remote job_id now n)
  step-index s s' (advance q res) c n e =
      run_task-index s s' q (get_elem? s.lifecycle.heap q) (get_elem? s.phases q) res n.index e
  step-index s s' (cancel id) c n e =
      subst Indexed (some_eq e) (ap (lookup key) (cancel_job-index s.lifecycle id) ∙ n.index)
  step-index s s' guard c n e = subst Indexed (some_eq e) n.index
  step-index s s' (clean_up i now) c n e = absurd (true-false c)

  pub run-Named :
      (s s' : System os json) (as' : List Action)
      → Inv os json limits s
      → Named s
      → count_if is_cleanup as' ≡ 0
      → run os json s as' ≡ some s'
      → Named s'
  unfolding run
  run-Named s s' [] i n c e = subst Named (some_eq e) n
  run-Named s s' (a ∷ as') i n c e =
      let (s1, e1, i1) = step-Inv os json limits s a i in
      let calm : is_cleanup a ≡ false = ground (arith, c) in
      let n1 : Named s1 = record {
        job = step-StickyAt os json limits p (HasHash h) (HasHash-Lasting h) s s1 a i n.job e1;
        index = step-index s s1 a calm n e1;
      } in
      run-Named s1 s' as' i1 n1 (ground (arith, c)) (rw (e1, run) at e)
