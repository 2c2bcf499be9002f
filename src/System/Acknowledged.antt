-- ===== src/System/Acknowledged.antt =====
-- An acknowledged cancellation against every later schedule: when it is final, and when it is lost.
use vpsops.Base.{
  ℕ, ◌≡◌, sym, ap, subst, ◌∙◌, true, none, some, List, get_elem?, get_elem?-set, get_elem?-bound,
  Text, arith,
}
use vpsops.Types.{RunResult, LimitsConfig, StorageConfig, state_canceled}
use vpsops.Os.{Os, Json, ok}
use vpsops.Store.{JobStore}
use vpsops.Job.{Job, request_cancel}
use vpsops.Lifecycle.{Lifecycle, new_lifecycle, entry, cancel_job}
use vpsops.Lifecycle.Locks.{entry-some}
use vpsops.System.{
  Phase, queued, started, armed, ran, checked, saved, published, released, System, Action, cancel,
  step, run, init,
}
use vpsops.System.Paired.{Agrees, Paired-Agrees, has_result, no_result}
use vpsops.System.Invariant.{Inv}
use vpsops.System.Reach.{step-Inv, reached-Inv}
use vpsops.System.Cancel.{Sticks, Sticks-Lasting, is_untested, StickyAt, some_eq}
use vpsops.System.Sticky.{true-false, run-StickyAt}

-- A published job whose cancellation sticks has a canceled result.
Sticks-result :
    (j : Job) (ph : Phase) (r : RunResult)
    → Agrees j ph
    → Sticks j ph
    → j.result ≡ some r
    → r.state ≡ state_canceled
Sticks-result j published r a (x, e, c) f = let one : x ≡ r = cc in rw (← one) c
Sticks-result j released r a (x, e, c) f = let one : x ≡ r = cc in rw (← one) c
Sticks-result j queued r a h f = absurd (true-false (ap has_result (sym f) ∙ a.result))
Sticks-result j started r a h f = absurd (true-false (ap has_result (sym f) ∙ a.result))
Sticks-result j armed r a h f = absurd (true-false (ap has_result (sym f) ∙ a.result))
Sticks-result j (ran x) r a h f = absurd (true-false (ap has_result (sym f) ∙ a.result))
Sticks-result j (checked x) r a h f = absurd (true-false (ap has_result (sym f) ∙ a.result))
Sticks-result j (saved x) r a h f = absurd (true-false (ap has_result (sym f) ∙ a.result))

Sticks-requested :
    (j : Job) (ph : Phase)
    → j.result ≡ none
    → is_untested ph ≡ true
    → Sticks (request_cancel j).0 ph
unfolding request_cancel
Sticks-requested j queued e h = ground arith
Sticks-requested j started e h = ground arith
Sticks-requested j armed e h = ground arith
Sticks-requested j (ran r) e h = ground arith
Sticks-requested j (checked r) e h = cc
Sticks-requested j (saved r) e h = cc
Sticks-requested j published e h = cc
Sticks-requested j released e h = cc

untested-Agrees : (j : Job) (ph : Phase) → Agrees j ph → is_untested ph ≡ true → j.result ≡ none
untested-Agrees j queued a h = no_result j.result a.result
untested-Agrees j started a h = no_result j.result a.result
untested-Agrees j armed a h = no_result j.result a.result
untested-Agrees j (ran r) a h = no_result j.result a.result
untested-Agrees j (checked r) a h = cc
untested-Agrees j (saved r) a h = cc
untested-Agrees j published a h = cc
untested-Agrees j released a h = cc

pub cancel_acknowledged :
    (l : Lifecycle) (job_id : Text) (p : ℕ) (j : Job)
    → entry job_id l.jobs l.heap ≡ some (p, j)
    → j.result ≡ none
    → (cancel_job l job_id).1 ≡ ok (some p)
unfolding cancel_job request_cancel
cancel_acknowledged l job_id p j e n = rw (e, cancel_job) (ground arith)

pub cancel_sets :
    (os : Os) (json : Json) (limits : LimitsConfig) (s s1 : System os json) (job_id : Text) (p : ℕ)
    (j : Job) (ph : Phase) (K : Job → Phase → Type 0)
    → entry job_id s.lifecycle.jobs s.lifecycle.heap ≡ some (p, j)
    → get_elem? s.lifecycle.heap p ≡ some j
    → get_elem? s.phases p ≡ some ph
    → K (request_cancel j).0 ph
    → step os json s (cancel job_id) ≡ some s1
    → StickyAt os json limits p K s1
unfolding step cancel_job
cancel_sets os json limits s s1 job_id p j ph K names at_heap at_ph sticks e =
    subst (StickyAt os json limits p K) (some_eq e) (
      rw (names, cancel_job)
        (record {
          job = (request_cancel j).0;
          phase = ph;
          at_heap = ground (
            arith,
            get_elem?-set s.lifecycle.heap p p (request_cancel j).0
                (get_elem?-bound s.lifecycle.heap p j at_heap),
          );
          at_phases = at_ph;
          sticks = sticks;
        }))

pub step_to-Inv :
    (os : Os) (json : Json) (limits : LimitsConfig) (s s1 : System os json) (a : Action)
    → Inv os json limits s
    → step os json s a ≡ some s1
    → Inv os json limits s1
step_to-Inv os json limits s s1 a i e =
    let (s', e', i') = step-Inv os json limits s a i in
    subst (Inv os json limits) (some_eq (sym e' ∙ e)) i'

result_canceled :
    (os : Os) (json : Json) (limits : LimitsConfig) (p : ℕ) (s : System os json) (j : Job)
    (r : RunResult)
    → Inv os json limits s
    → StickyAt os json limits p Sticks s
    → get_elem? s.lifecycle.heap p ≡ some j
    → j.result ≡ some r
    → r.state ≡ state_canceled
result_canceled os json limits p s j r i t here result =
    Sticks-result t.job t.phase r
      (Paired-Agrees s.lifecycle.heap s.phases p t.job t.phase i.paired t.at_heap t.at_phases)
      t.sticks (ap (λ (x : Job). x.result) (some_eq (sym t.at_heap ∙ here)) ∙ result)

-- In a state that a schedule reaches, let `job_id` name job `p`, whose goroutine has not yet tested
-- for a cancellation. Then cancelJob acknowledges, and after any further schedule a result that the
-- job has is in state "canceled".
pub cancel_final :
    (os : Os) (json : Json) (store : JobStore) (storage : StorageConfig) (limits : LimitsConfig)
    (fs : os.Fs) (before later : List Action) (s s1 s2 : System os json) (job_id : Text) (p : ℕ)
    (j j2 : Job) (ph : Phase) (r : RunResult)
    → run os json (init os json (new_lifecycle store storage limits) fs) before ≡ some s
    → entry job_id s.lifecycle.jobs s.lifecycle.heap ≡ some (p, j)
    → get_elem? s.phases p ≡ some ph
    → is_untested ph ≡ true
    → step os json s (cancel job_id) ≡ some s1
    → run os json s1 later ≡ some s2
    → get_elem? s2.lifecycle.heap p ≡ some j2
    → j2.result ≡ some r
    → ((cancel_job s.lifecycle job_id).1 ≡ ok (some p)) × (r.state ≡ state_canceled)
cancel_final os json store storage limits fs before later s s1 s2 job_id p j j2 ph r reached names
      at_ph untested canceled ran_on here result =
    let i = reached-Inv os json store storage limits fs before s reached in
    let at_heap = (entry-some job_id s.lifecycle.jobs s.lifecycle.heap p j names).1 in
    let a = Paired-Agrees s.lifecycle.heap s.phases p j ph i.paired at_heap at_ph in
    let open_ = untested-Agrees j ph a untested in
    let t =
      cancel_sets os json limits s s1 job_id p j ph Sticks names at_heap at_ph
        (Sticks-requested j ph open_ untested) canceled in
    let (t2, i2) =
      run-StickyAt os json limits p Sticks Sticks-Lasting s1 s2 later
        (step_to-Inv os json limits s s1 (cancel job_id) i canceled) t ran_on in
    (
      cancel_acknowledged s.lifecycle job_id p j names open_,
      result_canceled os json limits p s2 j2 r i2 t2 here result,
    )
