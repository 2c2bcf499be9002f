-- ===== src/System/Cancel.antt =====
-- What becomes of a job whose cancellation was acknowledged.
use vpsops.Base.{
  ℕ, ◌≡◌, ◌≢◌, refl, ap, subst, ◌∙◌, inl, inr, Bool, true, false, none, some, List, get_elem?,
  get_elem?-set, get_elem?-bound, set, ==_iff, arith, Option-cases, if◌then◌else◌,
}
use vpsops.Types.{RunResult, LimitsConfig, state_canceled}
use vpsops.Os.{Os, Json}
use vpsops.Job.{Job, request_cancel, set_result, mark_running, set_cancel, was_cancel_requested}
use vpsops.Lifecycle.Locks.{release_job-parts}
use vpsops.System.{
  Phase, queued, started, armed, ran, checked, saved, published, released, System, finish, run_job,
  with_job, as_canceled,
}
use vpsops.System.Paired.{Paired-Agrees, no_result, set_result-open}
use vpsops.System.Invariant.{Inv}

-- The cancellation of a job sticks: it is still to be tested for, or it is in the job's result.
abbrev pub Sticks : Job → Phase → Type 0
Sticks j (checked r) = r.state ≡ state_canceled
Sticks j (saved r) = r.state ≡ state_canceled
Sticks j published = (r : RunResult) × (j.result ≡ some r) × (r.state ≡ state_canceled)
Sticks j released = (r : RunResult) × (j.result ≡ some r) × (r.state ≡ state_canceled)
Sticks j _ = j.cancel_requested ≡ true

-- runJob has not tested for a cancellation yet.
abbrev pub is_untested : Phase → Bool
is_untested queued = true
is_untested started = true
is_untested armed = true
is_untested (ran r) = true
is_untested _ = false

pub some_eq {ℓ} : {A : Type ℓ} {a b : A} → some a ≡ some b → a ≡ b
some_eq h = cc

none-some {ℓ} : {A : Type ℓ} {a : A} → none ≡ some a → ⊥
none-some h = cc

-- What is true of a job in its phase and lasts through all that happens to it.
pub record Lasting (K : Job → Phase → Type 0) : Type 0 where
  pub canceling : (j : Job) (ph : Phase) → K j ph → K (request_cancel j).0 ph
  pub start : (j : Job) → K j queued → K (mark_running j) started
  pub arm : (j : Job) → K j started → K (set_cancel j) armed
  pub wait : (j : Job) (r : RunResult) → K j armed → K j (ran r)
  pub test :
      (j : Job) (r : RunResult)
      → K j (ran r)
      → K j (checked (if was_cancel_requested j then as_canceled r else r))
  pub save : (j : Job) (r : RunResult) → K j (checked r) → K j (saved r)
  pub publish :
      (j j' : Job) (r : RunResult)
      → j.result ≡ none
      → set_result j r ≡ some j'
      → K j (saved r)
      → K j' published
  pub release : (j : Job) → K j published → K j released

Sticks-request_cancel : (j : Job) (ph : Phase) → Sticks j ph → Sticks (request_cancel j).0 ph
unfolding request_cancel
Sticks-request_cancel j queued h = ground arith
Sticks-request_cancel j started h = ground arith
Sticks-request_cancel j armed h = ground arith
Sticks-request_cancel j (ran r) h = ground arith
Sticks-request_cancel j (checked r) h = h
Sticks-request_cancel j (saved r) h = h
Sticks-request_cancel j published (r, e, c) = (r, ground arith, c)
Sticks-request_cancel j released (r, e, c) = (r, ground arith, c)

pub Sticks-Lasting : Lasting Sticks
unfolding mark_running set_cancel was_cancel_requested set_result
Sticks-Lasting = record {
  canceling = Sticks-request_cancel;
  start = λ j h. ground arith;
  arm = λ j h. ground arith;
  wait = λ j r h. h;
  test = λ j r h. ground arith;
  save = λ j r h. h;
  publish = λ j j' r n e h. (r, ground (arith, n, e), h);
  release = λ j h. h;
}

module _ (os : Os) (json : Json) (limits : LimitsConfig) (p : ℕ) (K : Job → Phase → Type 0) where
  -- It is true of job `p` in a state.
  pub record StickyAt (s : System os json) : Type 0 where
    pub job : Job
    pub phase : Phase
    pub at_heap : get_elem? s.lifecycle.heap p ≡ some job
    pub at_phases : get_elem? s.phases p ≡ some phase
    pub sticks : K job phase

  pub with_job-StickyAt :
      (s : System os json) (j : Job) (ph old : Phase) (j0 : Job)
      → get_elem? s.lifecycle.heap p ≡ some j0
      → get_elem? s.phases p ≡ some old
      → K j ph
      → StickyAt (with_job os json s p j ph)
  with_job-StickyAt s j ph old j0 e f h = record {
    job = j;
    phase = ph;
    at_heap =
        ground
          (arith, get_elem?-set s.lifecycle.heap p p j (get_elem?-bound s.lifecycle.heap p j0 e));
    at_phases = ground (arith, get_elem?-set s.phases p p ph (get_elem?-bound s.phases p old f));
    sticks = h;
  }

  finish-frame :
      (s : System os json) (q : ℕ) (k : Job)
      → ((finish os json s q k).lifecycle.heap ≡ s.lifecycle.heap)
        × ((finish os json s q k).phases ≡ set s.phases q released)
  unfolding finish
  finish-frame s q k = ((release_job-parts s.lifecycle q k).0, refl)

  -- The goroutine of the job itself.
  pub run_job-own :
      (s s' : System os json) (j : Job) (ph : Phase) (res : RunResult)
      → Inv os json limits s
      → get_elem? s.lifecycle.heap p ≡ some j
      → get_elem? s.phases p ≡ some ph
      → Lasting K
      → K j ph
      → run_job os json s p j ph res ≡ some s'
      → StickyAt s'
  unfolding run_job
  run_job-own s s' j queued res i e f law h r =
      subst StickyAt (some_eq r)
        (with_job-StickyAt s (mark_running j) started queued j e f (law.start j h))
  run_job-own s s' j started res i e f law h r =
      subst StickyAt (some_eq r)
        (with_job-StickyAt s (set_cancel j) armed started j e f (law.arm j h))
  run_job-own s s' j armed res i e f law h r =
      subst StickyAt (some_eq r) (with_job-StickyAt s j (ran res) armed j e f (law.wait j res h))
  run_job-own s s' j (ran x) res i e f law h r =
      subst StickyAt (some_eq r) (with_job-StickyAt s j _ (ran x) j e f (law.test j x h))
  run_job-own s s' j (checked x) res i e f law h r =
      let t = with_job-StickyAt s j (saved x) (checked x) j e f (law.save j x h) in
      subst StickyAt (some_eq r) (record {
        job = t.job;
        phase = t.phase;
        at_heap = t.at_heap;
        at_phases = t.at_phases;
        sticks = t.sticks;
      })
  run_job-own s s' j (saved x) res i e f law h r =
      let a = Paired-Agrees s.lifecycle.heap s.phases p j (saved x) i.paired e f in
      let (j', set_, done, result, key) =
        set_result-open j x (no_result j.result a.result) a.done in
      subst StickyAt (some_eq (ground (arith, set_, r))) (
        with_job-StickyAt s j' published (saved x) j e f
          (law.publish j j' x (no_result j.result a.result) set_ h))
  run_job-own s s' j published res i e f law h r =
      let (heap, phases) = finish-frame s p j in
      subst StickyAt (some_eq r) (record {
        job = j;
        phase = released;
        at_heap = rw heap e;
        at_phases = rw phases (
            ground (
              arith,
              get_elem?-set s.phases p p released (get_elem?-bound s.phases p published f),
            ));
        sticks = law.release j h;
      })
  run_job-own s s' j released res i e f law h r =
      subst StickyAt (some_eq r)
        (record { job = j; phase = released; at_heap = e; at_phases = f; sticks = h })

  set_other {ℓ} :
      {A : Type ℓ} (xs : List A) (q : ℕ) (x old : A)
      → get_elem? xs q ≡ some old
      → q ≢ p
      → get_elem? (set xs q x) p ≡ get_elem? xs p
  set_other xs q x old e n =
      ground (arith, get_elem?-set xs q p x (get_elem?-bound xs q old e), ==_iff q p)

  -- What a state shows of job `p`.
  abbrev pub Same : System os json → System os json → Type 0
  Same s s' =
      (get_elem? s'.lifecycle.heap p ≡ get_elem? s.lifecycle.heap p)
      × (get_elem? s'.phases p ≡ get_elem? s.phases p)

  -- The goroutine of another job.
  pub run_job-other :
      (s s' : System os json) (q : ℕ) (k : Job) (ph : Phase) (res : RunResult)
      → get_elem? s.lifecycle.heap q ≡ some k
      → get_elem? s.phases q ≡ some ph
      → q ≢ p
      → run_job os json s q k ph res ≡ some s'
      → Same s s'
  unfolding run_job
  run_job-other s s' q k queued res e f n r =
      subst (Same s) (some_eq r)
        (set_other s.lifecycle.heap q _ k e n, set_other s.phases q _ _ f n)
  run_job-other s s' q k started res e f n r =
      subst (Same s) (some_eq r)
        (set_other s.lifecycle.heap q _ k e n, set_other s.phases q _ _ f n)
  run_job-other s s' q k armed res e f n r =
      subst (Same s) (some_eq r)
        (set_other s.lifecycle.heap q _ k e n, set_other s.phases q _ _ f n)
  run_job-other s s' q k (ran x) res e f n r =
      subst (Same s) (some_eq r)
        (set_other s.lifecycle.heap q _ k e n, set_other s.phases q _ _ f n)
  run_job-other s s' q k (checked x) res e f n r =
      subst (Same s) (some_eq r)
        (set_other s.lifecycle.heap q _ k e n, set_other s.phases q _ _ f n)
  run_job-other s s' q k (saved x) res e f n r = elim (Option-cases (set_result k x)) [
    | inl none_ ↦ absurd (none-some (rw (none_, run_job) at r))
    | inr (k', set_) ↦
        subst (Same s) (some_eq (rw (set_, run_job) at r))
          (set_other s.lifecycle.heap q _ k e n, set_other s.phases q _ _ f n)
  ]
  run_job-other s s' q k published res e f n r =
      let (heap, phases) = finish-frame s q k in
      subst (Same s) (some_eq r)
        (ap (λ (h : List Job). get_elem? h p) heap, rw phases (set_other s.phases q _ _ f n))
  run_job-other s s' q k released res e f n r = subst (Same s) (some_eq r) (refl, refl)

  pub Same-StickyAt : (s s' : System os json) → StickyAt s → Same s s' → StickyAt s'
  Same-StickyAt s s' t (a, b) = record {
    job = t.job;
    phase = t.phase;
    at_heap = a ∙ t.at_heap;
    at_phases = b ∙ t.at_phases;
    sticks = t.sticks;
  }
