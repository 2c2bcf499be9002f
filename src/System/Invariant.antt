-- ===== src/System/Invariant.antt =====
-- What holds of the daemon's jobs between two steps, whatever the interleaving.
use vpsops.Base.{
  ℕ, suc, ◌≤◌, ◌<◌, ◌≡◌, refl, sym, ap, ◌∙◌, inl, inr, true, false, some, [], ◌∷◌, ◌++◌, ℤ,
  get_elem?, set, Text, arith, Option-cases,
}
use vpsops.Types.{RunRequest, RunResult, AuthInfo, LimitsConfig}
use vpsops.Os.{Os, Json}
use vpsops.Job.{Job, mark_running, set_cancel, request_cancel}
use vpsops.Lifecycle.{
  Lifecycle, capacity, entry, register, new_job, release_job, release_slot, cancel_job,
}
use vpsops.Lifecycle.Prepare.{IsFree, unchanged, admitted, Unlocked, prepare_job-Effect}
use vpsops.Lifecycle.Locks.{
  LocksHeld, LocksHeld-set, LocksHeld-Unlocked, LocksHeld-register, LocksHeld-release_job,
  entry-some,
}
use vpsops.System.{
  Phase, queued, started, armed, ran, checked, saved, published, released, System, with_job, finish,
  run_job, submit, cancel, step,
}
use vpsops.System.Paired.{
  has_result, Agrees, Paired, slot_of, slots, Paired-append, Paired-set, Paired-Agrees,
  Paired-phase, set_same, slots-append, slots-set, enter_old, Unlocked-frame, no_result,
  set_result-open,
}

module _ (os : Os) (json : Json) (config : LimitsConfig) where
  pub record Inv (s : System os json) : Type 0 where
    pub slots_taken : s.lifecycle.sem ≡ slots s.phases
    pub capped : s.lifecycle.sem ≤ capacity s.lifecycle
    pub paired : Paired s.lifecycle.heap s.phases
    pub locked : LocksHeld s.lifecycle.heap s.lifecycle.locks
    pub clean : s.release_failures ≡ 0
    pub configured : s.lifecycle.limits ≡ config

  -- A phase change that keeps the slot.
  with_job-Inv :
      (s : System os json) (p : ℕ) (j j' : Job) (old ph : Phase)
      → Inv s
      → get_elem? s.lifecycle.heap p ≡ some j
      → get_elem? s.phases p ≡ some old
      → slot_of old ≡ slot_of ph
      → j'.lock_key ≡ j.lock_key
      → (j'.done ≡ false → j.done ≡ false)
      → Agrees j' ph
      → Inv (with_job os json s p j' ph)
  with_job-Inv s p j j' old ph h e f same key d a = record {
    slots_taken = omega (arith, h.slots_taken, slots-set s.phases p old ph f);
    capped = h.capped;
    paired = Paired-set s.lifecycle.heap s.phases p j' ph h.paired a;
    locked = LocksHeld-set s.lifecycle.heap s.lifecycle.locks p j j' e key d h.locked;
    clean = h.clean;
    configured = h.configured;
  }

  release_job-frame :
      (l : Lifecycle) (p n : ℕ) (j : Job)
      → l.sem ≡ suc n
      → let (l', done) = release_job l p j in
        (l'.sem ≡ n) × (done ≡ true) × (l'.heap ≡ l.heap) × (l'.limits ≡ l.limits)
  unfolding release_job release_slot
  release_job-frame l p n j e = ground arith

  finish-Inv :
      (s : System os json) (p : ℕ) (j : Job)
      → Inv s
      → get_elem? s.lifecycle.heap p ≡ some j
      → get_elem? s.phases p ≡ some published
      → Inv (finish os json s p j)
  unfolding finish
  finish-Inv s p j h e f =
      let agrees = Paired-Agrees s.lifecycle.heap s.phases p j published h.paired e f in
      let freed = slots-set s.phases p published released f in
      let used : s.lifecycle.sem ≡ suc (slots (set s.phases p released)) =
        omega (arith, h.slots_taken, freed) in
      let (sem, done, heap, limits) = release_job-frame s.lifecycle p _ j used in
      let repaired =
        Paired-set s.lifecycle.heap s.phases p j released h.paired
          (record { done = agrees.done; result = agrees.result }) in
      record {
        slots_taken = sem;
        capped = rw (sem, limits) (omega (arith, h.capped, used));
        paired = rw heap (rw (set_same s.lifecycle.heap p j e) at repaired);
        locked = LocksHeld-release_job s.lifecycle p j e agrees.done h.locked;
        clean = rw (done, h.clean);
        configured = limits ∙ h.configured;
      }

  -- One step of a goroutine.
  pub run_job-Inv :
      (s : System os json) (p : ℕ) (j : Job) (ph : Phase) (res : RunResult)
      → Inv s
      → get_elem? s.lifecycle.heap p ≡ some j
      → get_elem? s.phases p ≡ some ph
      → (s' : System os json) × (run_job os json s p j ph res ≡ some s') × Inv s'
  unfolding run_job mark_running set_cancel
  run_job-Inv s p j queued res h e f =
      let a = Paired-Agrees s.lifecycle.heap s.phases p j queued h.paired e f in
      (
        _,
        refl,
        with_job-Inv s p j _ queued started h e f refl (ground arith) (ground arith) (ground arith),
      )
  run_job-Inv s p j started res h e f =
      let a = Paired-Agrees s.lifecycle.heap s.phases p j started h.paired e f in
      (
        _,
        refl,
        with_job-Inv s p j _ started armed h e f refl (ground arith) (ground arith) (ground arith),
      )
  run_job-Inv s p j armed res h e f =
      let a = Paired-Agrees s.lifecycle.heap s.phases p j armed h.paired e f in
      (_, refl, with_job-Inv s p j _ armed (ran res) h e f refl refl (λ d. d) (ground arith))
  run_job-Inv s p j (ran r) res h e f =
      let a = Paired-Agrees s.lifecycle.heap s.phases p j (ran r) h.paired e f in
      (_, refl, with_job-Inv s p j _ (ran r) (checked _) h e f refl refl (λ d. d) (ground arith))
  run_job-Inv s p j (checked r) res h e f =
      let a = Paired-Agrees s.lifecycle.heap s.phases p j (checked r) h.paired e f in
      let i = with_job-Inv s p j j (checked r) (saved r) h e f refl refl (λ d. d) (ground arith) in
      (
        _,
        refl,
        record {
          slots_taken = i.slots_taken;
          capped = i.capped;
          paired = i.paired;
          locked = i.locked;
          clean = i.clean;
          configured = i.configured;
        },
      )
  run_job-Inv s p j (saved r) res h e f =
      let a = Paired-Agrees s.lifecycle.heap s.phases p j (saved r) h.paired e f in
      let (j', set_, done, result, key) =
        set_result-open j r (no_result j.result a.result) a.done in
      (
        with_job os json s p j' published,
        ground (arith, set_),
        with_job-Inv s p j j' (saved r) published h e f refl key (λ d. ground arith)
            (record { done = done; result = rw result refl }),
      )
  run_job-Inv s p j published res h e f = (_, refl, finish-Inv s p j h e f)
  run_job-Inv s p j released res h e f = (s, refl, h)

  -- A request that is refused, or answered with the job of its idempotency key.
  unchanged-Inv :
      (s : System os json) (l1 : Lifecycle) (key : Text) (fs : os.Fs)
      → Inv s
      → Unlocked s.lifecycle l1 key
      → Inv (record s { lifecycle = l1; fs = fs })
  unchanged-Inv s l1 key fs h u =
      let (sem, heap, limits) = Unlocked-frame s.lifecycle l1 key u in
      record {
        slots_taken = sem ∙ h.slots_taken;
        capped = rw (sem, limits) h.capped;
        paired = rw heap h.paired;
        locked = LocksHeld-Unlocked s.lifecycle l1 key u h.locked;
        clean = h.clean;
        configured = limits ∙ h.configured;
      }

  -- A request that gets a new job.
  admitted-Inv :
      (s : System os json) (l1 : Lifecycle) (req : RunRequest) (j : Job) (fs : os.Fs)
      → Inv s
      → Unlocked s.lifecycle l1 req.lock_key
      → IsFree s.lifecycle req.lock_key
      → l1.sem < capacity l1
      → j.lock_key ≡ req.lock_key
      → Agrees j queued
      → Inv (record s {
        lifecycle = register (record l1 { sem = suc l1.sem }) req j;
        phases = s.phases ++ queued ∷ [];
        fs = fs;
      })
  unfolding register
  admitted-Inv s l1 req j fs h u f room key a =
      let (sem, heap, limits) = Unlocked-frame s.lifecycle l1 req.lock_key u in
      record {
        slots_taken = omega (arith, sem, h.slots_taken, slots-append s.phases queued);
        capped = room;
        paired = rw heap (Paired-append s.lifecycle.heap s.phases j queued h.paired a);
        locked = LocksHeld-register s.lifecycle l1 req j (suc l1.sem) h.locked u f key;
        clean = h.clean;
        configured = limits ∙ h.configured;
      }

  pub submit-Inv :
      (s : System os json) (req : RunRequest) (req_hash : Text) (auth : AuthInfo)
      (remote job_id : Text) (now : ℤ)
      → Inv s
      → (s' : System os json) × (step os json s (submit req req_hash auth remote job_id now)
          ≡ some s')
        × Inv s'
  unfolding step new_job
  submit-Inv s req req_hash auth remote job_id now h =
      elim (prepare_job-Effect os json s.lifecycle req req_hash auth remote job_id now s.fs) [
        | unchanged u old ↦
            (_, refl, rw (enter_old _ s.phases old) (unchanged-Inv s _ req.lock_key _ h u))
        | admitted l1 u f room new out ↦ (
          _,
          refl,
          rw (out, new)
              (admitted-Inv s l1 req (new_job job_id req.lock_key req_hash auth remote now) _ h u f
                room refl (record { done = refl; result = refl })),
        )
      ]

  -- cancelJob sets no result and closes nothing.
  request_cancel-frame :
      (j : Job)
      → let j' = (request_cancel j).0 in
        (j'.done ≡ j.done) × (j'.result ≡ j.result) × (j'.lock_key ≡ j.lock_key)
  unfolding request_cancel
  request_cancel-frame j = ground arith

  cancel_job-Inv :
      (s : System os json) (p : ℕ) (j : Job)
      → Inv s
      → get_elem? s.lifecycle.heap p ≡ some j
      → Inv (record s {
        lifecycle = record s.lifecycle { heap = set s.lifecycle.heap p (request_cancel j).0 };
      })
  cancel_job-Inv s p j h e =
      let (ph, f) = Paired-phase s.lifecycle.heap s.phases p j h.paired e in
      let a = Paired-Agrees s.lifecycle.heap s.phases p j ph h.paired e f in
      let (done, result, key) = request_cancel-frame j in
      let i =
        with_job-Inv s p j (request_cancel j).0 ph ph h e f refl key (λ d. sym done ∙ d)
          (record { done = done ∙ a.done; result = ap has_result result ∙ a.result }) in
      let paired = rw (set_same s.phases p ph f) at i.paired in
      record {
        slots_taken = h.slots_taken;
        capped = h.capped;
        paired = paired;
        locked = i.locked;
        clean = h.clean;
        configured = h.configured;
      }

  pub cancel-Inv :
      (s : System os json) (job_id : Text)
      → Inv s
      → (s' : System os json) × (step os json s (cancel job_id) ≡ some s') × Inv s'
  unfolding step cancel_job
  cancel-Inv s job_id h = elim (Option-cases (entry job_id s.lifecycle.jobs s.lifecycle.heap)) [
    | inl e ↦ (s, rw (e, cancel_job), h)
    | inr ((p, j), e) ↦ (
      _,
      rw (e, cancel_job) refl,
      cancel_job-Inv s p j h (entry-some job_id s.lifecycle.jobs s.lifecycle.heap p j e).1,
    )
  ]
