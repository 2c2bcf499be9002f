-- ===== src/System/LateCancel.antt =====
-- A cancellation that comes after runJob has tested for one.
use vpsops.Base.{
  ℕ, ◌≡◌, ◌≤◌, ◌⊎◌, refl, ap, inl, inr, none, some, List, get_elem?, get_elem?-set, get_elem?-bound,
  set, count_if, Text, arith,
}
use vpsops.Types.{RunResult, LimitsConfig, StorageConfig, state_canceled}
use vpsops.Os.{Os, Json, ok}
use vpsops.Store.{JobStore}
use vpsops.Job.{Job, request_cancel, set_result}
use vpsops.Lifecycle.{new_lifecycle, entry, cancel_job}
use vpsops.Lifecycle.Locks.{entry-some}
use vpsops.System.{
  Phase, queued, started, armed, ran, checked, saved, published, released, System, Action, cancel,
  step, run, init,
}
use vpsops.System.Paired.{Agrees, Paired-Agrees, no_result}
use vpsops.System.Cancel.{Lasting}
use vpsops.System.Sticky.{run-StickyAt}
use vpsops.System.Reach.{reached-Inv, run-Inv}
use vpsops.System.Rank.{is_step_of, rank, rank_of}
use vpsops.System.Progress.{run-ranked}
use vpsops.System.Acknowledged.{cancel_acknowledged, cancel_sets, step_to-Inv}

set_self {ℓ} :
    {A : Type ℓ} (xs : List A) (p : ℕ) (old x : A)
    → get_elem? xs p ≡ some old
    → get_elem? (set xs p x) p ≡ some x
set_self xs p old x h = ground (arith, get_elem?-set xs p p x (get_elem?-bound xs p old h))

-- The cancellation has been tested for, and the result of the job is `r`, set or still to be set.
abbrev Fixed : RunResult → Job → Phase → Type 0
Fixed r j (checked x) = x ≡ r
Fixed r j (saved x) = x ≡ r
Fixed r j published = (j.result ≡ some r) × (j.state ≡ r.state)
Fixed r j released = (j.result ≡ some r) × (j.state ≡ r.state)
Fixed r j _ = ⊥

Fixed-request_cancel :
    (r : RunResult) (j : Job) (ph : Phase) → Fixed r j ph → Fixed r (request_cancel j).0 ph
unfolding request_cancel
Fixed-request_cancel r j queued h = h
Fixed-request_cancel r j started h = h
Fixed-request_cancel r j armed h = h
Fixed-request_cancel r j (ran x) h = h
Fixed-request_cancel r j (checked x) h = h
Fixed-request_cancel r j (saved x) h = h
Fixed-request_cancel r j published (e, f) = (ground (arith, e), ground (arith, e, f))
Fixed-request_cancel r j released (e, f) = (ground (arith, e), ground (arith, e, f))

Fixed-Lasting : (r : RunResult) → Lasting (Fixed r)
unfolding set_result
Fixed-Lasting r = record {
  canceling = Fixed-request_cancel r;
  start = λ j h. h;
  arm = λ j h. h;
  wait = λ j x h. h;
  test = λ j x h. absurd h;
  save = λ j x h. h;
  publish = λ j j' x n e same. (ground (arith, n, e, same), ground (arith, n, e, same));
  release = λ j h. h;
}

-- One step before its end, a job has the result.
Fixed-over :
    (r : RunResult) (j : Job) (ph : Phase)
    → Fixed r j ph
    → rank ph ≤ 1
    → (j.result ≡ some r) × (j.state ≡ r.state)
Fixed-over r j published h le = h
Fixed-over r j released h le = h
Fixed-over r j (checked x) h le = absurd (omega (arith, le))
Fixed-over r j (saved x) h le = absurd (omega (arith, le))
Fixed-over r j queued h le = absurd h
Fixed-over r j started h le = absurd h
Fixed-over r j armed h le = absurd h
Fixed-over r j (ran x) h le = absurd h

-- What is known of a job between the test and setResult.
tested :
    (r : RunResult) (j : Job) (ph : Phase)
    → Agrees j ph
    → (ph ≡ checked r) ⊎ (ph ≡ saved r)
    → (j.result ≡ none) × Fixed r (request_cancel j).0 ph × (rank ph ≤ 3)
tested r j ph a (inl e) = rw e (no_result j.result (rw e at a.result), refl, omega arith)
tested r j ph a (inr e) = rw e (no_result j.result (rw e at a.result), refl, omega arith)

request_cancel-shown : (j : Job) → j.result ≡ none → (request_cancel j).0.state ≡ state_canceled
unfolding request_cancel
request_cancel-shown j n = ground arith

module _ (os : Os) (json : Json) (s : System os json) (p : ℕ) where
  abbrev canceled_state : Job → System os json
  canceled_state j1 = record s {
    lifecycle = record s.lifecycle { heap = set s.lifecycle.heap p j1 };
  }

  step-cancel :
      (job_id : Text) (j : Job)
      → entry job_id s.lifecycle.jobs s.lifecycle.heap ≡ some (p, j)
      → step os json s (cancel job_id) ≡ some (canceled_state (request_cancel j).0)
  unfolding step cancel_job
  step-cancel job_id j names = rw (names, cancel_job) refl

-- In a state that a schedule reaches, let `job_id` name a job whose goroutine has tested for a
-- cancellation and gone on with the result `r`, which may be saved, but is not set. Then cancelJob
-- still acknowledges and the job shows state "canceled"; and after any further schedule in which the
-- goroutine gets two steps, the job has the result `r` and its state all the same.
pub late_cancel_lost :
    (os : Os) (json : Json) (store : JobStore) (storage : StorageConfig) (limits : LimitsConfig)
    (fs : os.Fs) (before later : List Action) (s : System os json) (job_id : Text) (p : ℕ) (j : Job)
    (ph : Phase) (r : RunResult)
    → run os json (init os json (new_lifecycle store storage limits) fs) before ≡ some s
    → entry job_id s.lifecycle.jobs s.lifecycle.heap ≡ some (p, j)
    → get_elem? s.phases p ≡ some ph
    → (ph ≡ checked r) ⊎ (ph ≡ saved r)
    → 2 ≤ count_if (is_step_of p) later
    → (s1 s2 : System os json) × (j1 j2 : Job) × ((cancel_job s.lifecycle job_id).1 ≡ ok (some p))
      × (step os json s (cancel job_id) ≡ some s1)
      × (get_elem? s1.lifecycle.heap p ≡ some j1)
      × (j1.state ≡ state_canceled)
      × (run os json s1 later ≡ some s2)
      × (get_elem? s2.lifecycle.heap p ≡ some j2)
      × (j2.result ≡ some r)
      × (j2.state ≡ r.state)
late_cancel_lost os json store storage limits fs before later s job_id p j ph r reached names at_ph
      late steps =
    let i = reached-Inv os json store storage limits fs before s reached in
    let at_heap = (entry-some job_id s.lifecycle.jobs s.lifecycle.heap p j names).1 in
    let a = Paired-Agrees s.lifecycle.heap s.phases p j ph i.paired at_heap at_ph in
    let (open_, fixed, near) = tested r j ph a late in
    let j1 = (request_cancel j).0 in
    let s1 = canceled_state os json s p j1 in
    let canceled = step-cancel os json s p job_id j names in
    let t =
      cancel_sets os json limits s s1 job_id p j ph (Fixed r) names at_heap at_ph fixed canceled in
    let i1 = step_to-Inv os json limits s s1 (cancel job_id) i canceled in
    let (s2, ran_on, i0) = run-Inv os json limits s1 later i1 in
    let (t2, i2) =
      run-StickyAt os json limits p (Fixed r) (Fixed-Lasting r) s1 s2 later i1 t ran_on in
    let (i3, there, ranked) =
      run-ranked os json limits s1 s2 later p i1 (get_elem?-bound s.phases p ph at_ph) ran_on in
    let over : rank t2.phase ≤ 1 =
      omega (arith, ranked, steps, near, ap rank_of at_ph, ap rank_of t2.at_phases) in
    let (result, state) = Fixed-over r t2.job t2.phase t2.sticks over in
    (
      s1,
      s2,
      j1,
      t2.job,
      cancel_acknowledged s.lifecycle job_id p j names open_,
      canceled,
      set_self s.lifecycle.heap p j j1 at_heap,
      request_cancel-shown j open_,
      ran_on,
      t2.at_heap,
      result,
      state,
    )
