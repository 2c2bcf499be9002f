-- ===== src/System/Reach.antt =====
-- What every schedule of requests, cancellations and goroutines gives.
use vpsops.Base.{
  ℕ, ◌≤◌, ◌≡◌, refl, subst, false, Option, none, some, List, [], ◌∷◌, get_elem?, is_empty, arith,
  pos_part,
}
use vpsops.Types.{StorageConfig, LimitsConfig}
use vpsops.Os.{Os, Json}
use vpsops.Store.{JobStore}
use vpsops.Job.{Job}
use vpsops.Lifecycle.{new_lifecycle}
use vpsops.Lifecycle.Locks.{LocksHeld-exclusive}
use vpsops.System.{Phase, System, Action, submit, advance, cancel, guard, clean_up, step, run, init}
use vpsops.System.Housekeeping.{guard-Inv, clean_up-Inv}
use vpsops.System.Paired.{slots}
use vpsops.System.Invariant.{Inv, submit-Inv, cancel-Inv, run_job-Inv}

module _ (os : Os) (json : Json) (limits : LimitsConfig) where
  pub step-Inv :
      (s : System os json) (a : Action)
      → Inv os json limits s
      → (s' : System os json) × (step os json s a ≡ some s') × Inv os json limits s'
  step-Inv s (submit req req_hash auth remote job_id now) h =
      submit-Inv os json limits s req req_hash auth remote job_id now h
  step-Inv s (cancel job_id) h = cancel-Inv os json limits s job_id h
  step-Inv s guard h = guard-Inv os json limits s h
  step-Inv s (clean_up i now) h = clean_up-Inv os json limits s i now h
  step-Inv s (advance p res) h =
      task (get_elem? s.lifecycle.heap p) (get_elem? s.phases p) refl refl
    where
      task :
          (j : Option Job) (ph : Option Phase)
          → get_elem? s.lifecycle.heap p ≡ j
          → get_elem? s.phases p ≡ ph
          → (s' : System os json) × (step os json s (advance p res) ≡ some s')
            × Inv os json limits s'
      task none ph e f = (s, unfold step in rw e, h)
      task (some j) none e f = (s, unfold step in rw (e, f), h)
      task (some j) (some ph) e f =
          let (s', done, i) = run_job-Inv os json limits s p j ph res h e f in
          (s', unfold step in rw (e, f) done, i)

  pub run-Inv :
      (s : System os json) (as' : List Action)
      → Inv os json limits s
      → (s' : System os json) × (run os json s as' ≡ some s') × Inv os json limits s'
  unfolding run
  run-Inv s [] h = (s, refl, h)
  run-Inv s (a ∷ as') h =
      let (s1, e, h1) = step-Inv s a h in
      let (s', f, h') = run-Inv s1 as' h1 in (s', rw (e, run) f, h')

  pub init-Inv :
      (store : JobStore) (storage : StorageConfig) (fs : os.Fs)
      → Inv os json limits (init os json (new_lifecycle store storage limits) fs)
  unfolding init new_lifecycle
  init-Inv store storage fs = record {
    slots_taken = refl;
    capped = omega arith;
    paired = tt;
    locked = record { held = λ p j e d ne. cc };
    clean = refl;
    configured = refl;
  }

-- The invariant in every state that a schedule reaches.
pub reached-Inv :
    (os : Os) (json : Json) (store : JobStore) (storage : StorageConfig) (limits : LimitsConfig)
    (fs : os.Fs) (actions : List Action) (s : System os json)
    → run os json (init os json (new_lifecycle store storage limits) fs) actions ≡ some s
    → Inv os json limits s
reached-Inv os json store storage limits fs actions s e =
    let (s', e', h) = run-Inv os json limits _ actions (init-Inv os json limits store storage fs) in
    same_state s' s _ e' e h
  where
    same_state :
        (s1 s2 : System os json) (o : Option (System os json))
        → o ≡ some s1
        → o ≡ some s2
        → Inv os json limits s1
        → Inv os json limits s2
    same_state s1 s2 o e1 e2 h1 = let one : s1 ≡ s2 = cc in subst (Inv os json limits) one h1

-- Whatever requests, cancellations, cleanups and steps of job goroutines follow one another on a new
-- lifecycle, and whatever the file system answers: nothing panics (no channel is closed twice), no
-- slot fails to be released, and the slots in use are those of the jobs not yet released, never more
-- than the configured concurrency.
pub run-slots :
    (os : Os) (json : Json) (store : JobStore) (storage : StorageConfig) (limits : LimitsConfig)
    (fs : os.Fs) (actions : List Action)
    → (s : System os json) × (run os json
          (init os json (new_lifecycle store storage limits) fs)
          actions
        ≡ some s)
      × (s.release_failures ≡ 0)
      × (s.lifecycle.sem ≡ slots s.phases)
      × (s.lifecycle.sem ≤ pos_part limits.concurrency)
run-slots os json store storage limits fs actions =
    let (s, e, h) = run-Inv os json limits _ actions (init-Inv os json limits store storage fs) in
    (
      s,
      e,
      h.clean,
      h.slots_taken,
      subst (λ (c : LimitsConfig). s.lifecycle.sem ≤ pos_part c.concurrency) h.configured h.capped,
    )

-- In every state that a schedule reaches, two jobs that are not done and asked for the same lock key
-- are the same job.
pub run-exclusive :
    (os : Os) (json : Json) (store : JobStore) (storage : StorageConfig) (limits : LimitsConfig)
    (fs : os.Fs) (actions : List Action) (s : System os json) (p q : ℕ) (j k : Job)
    → run os json (init os json (new_lifecycle store storage limits) fs) actions ≡ some s
    → get_elem? s.lifecycle.heap p ≡ some j
    → get_elem? s.lifecycle.heap q ≡ some k
    → j.done ≡ false
    → k.done ≡ false
    → is_empty j.lock_key ≡ false
    → j.lock_key ≡ k.lock_key
    → p ≡ q
run-exclusive os json store storage limits fs actions s p q j k e hp hq dj dk ne same =
    let h = reached-Inv os json store storage limits fs actions s e in
    LocksHeld-exclusive s.lifecycle.heap s.lifecycle.locks p q j k h.locked hp hq dj dk ne same
