-- ===== src/System/Sticky.antt =====
-- What lasts through all that happens to a job stays true of it, whatever action follows.
use vpsops.Base.{
  ℕ, ◌≡◌, ◌≢◌, refl, sym, subst, ◌∙◌, inl, inr, true, false, Option, none, some, List, [], ◌∷◌,
  ◌++◌, length, get_elem?, get_elem?-set, get_elem?-append_one, get_elem?-bound, set, ◌==◌, ==_iff,
  Text, ℤ, arith, Option-cases, Bool-cases,
}
use vpsops.Types.{RunRequest, RunResult, LimitsConfig, AuthInfo}
use vpsops.Os.{Os, Json}
use vpsops.Job.{Job, request_cancel}
use vpsops.Lifecycle.{register, entry, cancel_job}
use vpsops.Lifecycle.Prepare.{unchanged, admitted, prepare_job-Effect}
use vpsops.Lifecycle.Locks.{entry-some, heap-Unlocked}
use vpsops.System.{
  Phase, queued, System, Action, submit, advance, cancel, guard, clean_up, step, run, run_task,
  run_job,
}
use vpsops.System.Paired.{enter_old}
use vpsops.System.Invariant.{Inv}
use vpsops.System.Housekeeping.{guard-Same, clean_up-Same}
use vpsops.System.Reach.{step-Inv}
use vpsops.System.Cancel.{Lasting, StickyAt, run_job-own, run_job-other, Same-StickyAt, some_eq}

pub true-false : true ≡ false → ⊥
true-false e = cc

append_old {ℓ} :
    {A : Type ℓ} (xs : List A) (x v : A) (p : ℕ)
    → get_elem? xs p ≡ some v
    → get_elem? (xs ++ x ∷ []) p ≡ some v
append_old xs x v p h =
    ground (arith, get_elem?-append_one xs p x, get_elem?-bound xs p v h, ==_iff (length xs) p)

module _ (os : Os) (json : Json) (limits : LimitsConfig) (p : ℕ) (K : Job → Phase → Type 0)
    (law : Lasting K) where
  submit-StickyAt :
      (s s' : System os json) (req : RunRequest) (req_hash : Text) (auth : AuthInfo)
      (remote job_id : Text) (now : ℤ)
      → StickyAt os json limits p K s
      → step os json s (submit req req_hash auth remote job_id now) ≡ some s'
      → StickyAt os json limits p K s'
  unfolding step register
  submit-StickyAt s s' req req_hash auth remote job_id now t e =
      subst (StickyAt os json limits p K) (some_eq e)
        (elim (prepare_job-Effect os json s.lifecycle req req_hash auth remote job_id now s.fs) [
          | unchanged u old ↦ record {
            job = t.job;
            phase = t.phase;
            at_heap = rw (heap-Unlocked s.lifecycle _ req.lock_key u) t.at_heap;
            at_phases = rw (enter_old _ s.phases old) t.at_phases;
            sticks = t.sticks;
          }
          | admitted l1 u f room new out ↦ record {
            job = t.job;
            phase = t.phase;
            at_heap =
                rw (new, heap-Unlocked s.lifecycle l1 req.lock_key u)
                  (append_old s.lifecycle.heap _ t.job p t.at_heap);
            at_phases = rw out (append_old s.phases queued t.phase p t.at_phases);
            sticks = t.sticks;
          }
        ])

  cancel-StickyAt :
      (s s' : System os json) (job_id : Text)
      → StickyAt os json limits p K s
      → step os json s (cancel job_id) ≡ some s'
      → StickyAt os json limits p K s'
  unfolding step cancel_job
  cancel-StickyAt s s' job_id t e =
      subst (StickyAt os json limits p K) (some_eq e)
        (elim (Option-cases (entry job_id s.lifecycle.jobs s.lifecycle.heap)) [
          | inl f ↦ rw (f, cancel_job) t
          | inr ((q, k), f) ↦
              let at = (entry-some job_id s.lifecycle.jobs s.lifecycle.heap q k f).1 in
              rw (f, cancel_job) (cancel_at q k at)
        ])
    where
      cancel_at :
          (q : ℕ) (k : Job)
          → get_elem? s.lifecycle.heap q ≡ some k
          → StickyAt os json limits p K (record s {
            lifecycle = record s.lifecycle { heap = set s.lifecycle.heap q (request_cancel k).0 };
          })
      cancel_at q k here = elim (Bool-cases (q == p)) [
        | inl same ↦
            let q_p : q ≡ p = (==_iff q p).0 same in
            let one : t.job ≡ k = some_eq (sym t.at_heap ∙ rw (← q_p) here) in
            record {
              job = (request_cancel k).0;
              phase = t.phase;
              at_heap = ground (
                arith,
                same,
                get_elem?-set s.lifecycle.heap q p (request_cancel k).0
                    (get_elem?-bound s.lifecycle.heap q k here),
              );
              at_phases = t.at_phases;
              sticks = law.canceling k t.phase (subst (λ (x : Job). K x t.phase) one t.sticks);
            }
        | inr other ↦ record {
          job = t.job;
          phase = t.phase;
          at_heap = ground (
            arith,
            other,
            t.at_heap,
            get_elem?-set s.lifecycle.heap q p (request_cancel k).0
                (get_elem?-bound s.lifecycle.heap q k here),
          );
          at_phases = t.at_phases;
          sticks = t.sticks;
        }
      ]

  advance-StickyAt :
      (s s' : System os json) (q : ℕ) (res : RunResult)
      → Inv os json limits s
      → StickyAt os json limits p K s
      → step os json s (advance q res) ≡ some s'
      → StickyAt os json limits p K s'
  unfolding step
  advance-StickyAt s s' q res i t e = elim (Bool-cases (q == p)) [
    | inl same ↦
        let q_p : q ≡ p = (==_iff q p).0 same in
        let own : run_job os json s p t.job t.phase res ≡ some s' =
          rw (q_p, t.at_heap, t.at_phases) at e in
        run_job-own os json limits p K s s' t.job t.phase res i t.at_heap t.at_phases law t.sticks
          own
    | inr other ↦
        task (get_elem? s.lifecycle.heap q) (get_elem? s.phases q) refl refl
          (λ q_p. true-false (sym ((==_iff q p).1 q_p) ∙ other)) e
  ]
    where
      task :
          (k : Option Job) (ph : Option Phase)
          → get_elem? s.lifecycle.heap q ≡ k
          → get_elem? s.phases q ≡ ph
          → q ≢ p
          → run_task os json s q k ph res ≡ some s'
          → StickyAt os json limits p K s'
      task none ph a b n r = subst (StickyAt os json limits p K) (some_eq r) t
      task (some k) none a b n r = subst (StickyAt os json limits p K) (some_eq r) t
      task (some k) (some ph) a b n r =
          Same-StickyAt os json limits p K s s' t
            (run_job-other os json limits p K s s' q k ph res a b n r)

  pub step-StickyAt :
      (s s' : System os json) (a : Action)
      → Inv os json limits s
      → StickyAt os json limits p K s
      → step os json s a ≡ some s'
      → StickyAt os json limits p K s'
  step-StickyAt s s' (submit req req_hash auth remote job_id now) i t e =
      submit-StickyAt s s' req req_hash auth remote job_id now t e
  step-StickyAt s s' (advance q res) i t e = advance-StickyAt s s' q res i t e
  step-StickyAt s s' (cancel job_id) i t e = cancel-StickyAt s s' job_id t e
  step-StickyAt s s' guard i t e =
      Same-StickyAt os json limits p K s s' t (guard-Same os json s s' p e)
  step-StickyAt s s' (clean_up n now) i t e =
      Same-StickyAt os json limits p K s s' t (clean_up-Same os json s s' p n now e)

  pub run-StickyAt :
      (s s' : System os json) (as' : List Action)
      → Inv os json limits s
      → StickyAt os json limits p K s
      → run os json s as' ≡ some s'
      → StickyAt os json limits p K s' × Inv os json limits s'
  unfolding run
  run-StickyAt s s' [] i t e =
      (subst (StickyAt os json limits p K) (some_eq e) t, subst (Inv os json limits) (some_eq e) i)
  run-StickyAt s s' (a ∷ as') i t e =
      let (s1, e1, i1) = step-Inv os json limits s a i in
      run-StickyAt s1 s' as' i1 (step-StickyAt s s1 a i t e1) (rw (e1, run) at e)
