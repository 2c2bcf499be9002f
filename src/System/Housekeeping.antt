-- ===== src/System/Housekeeping.antt =====
-- A cleanup in memory and on disk leaves alone what the invariant of the jobs speaks of.
use vpsops.Base.{
  ℕ, ◌≡◌, refl, sym, ap, subst, Bool-cases, Option, none, some, inl, inr, List, Text, Map,
  get_elem?, is_empty, ℤ,
}
use vpsops.Types.{LimitsConfig}
use vpsops.Os.{Os, Json}
use vpsops.Lifecycle.{Lifecycle}
use vpsops.Lifecycle.Prune.{prune_memory, stale_ids, delete_ids, forget}
use vpsops.System.{Cleaning, guarded, swept, ended, System, guard, clean_up, run_cleaning, step}
use vpsops.System.Invariant.{Inv}

some_same {ℓ} : {A : Type ℓ} {x y : A} → some x ≡ some y → x ≡ y
some_same e = cc

-- pruneMemory touches the maps of jobs and of idempotency keys only.
prune_memory-keeps :
    (os : Os) (l : Lifecycle) (ids : List Text) (now : ℤ)
    → (jobs idempotency : Map ℕ) × (prune_memory os l ids now
        ≡ record l { jobs = jobs; idempotency = idempotency })
unfolding prune_memory
prune_memory-keeps os l ids now = elim (Bool-cases (is_empty (stale_ids os l ids now))) [
  | inl e ↦ (l.jobs, l.idempotency, rw e refl)
  | inr e ↦
      let ids' = stale_ids os l ids now in
      (delete_ids ids' l.jobs, forget ids' l.heap l.idempotency, rw e refl)
]

module _ (os : Os) (json : Json) where
  -- Only the two maps, the file system and the cleanups differ.
  record Kept (s s' : System os json) : Type 0 where
    pub jobs : Map ℕ
    pub idempotency : Map ℕ
    pub lifecycle : s'.lifecycle ≡ record s.lifecycle { jobs = jobs; idempotency = idempotency }
    pub phases : s'.phases ≡ s.phases
    pub release_failures : s'.release_failures ≡ s.release_failures

  run_cleaning-Kept :
      (s : System os json) (i : ℕ) (c : Option Cleaning) (now : ℤ)
      → Kept s (run_cleaning os json s i c now)
  unfolding run_cleaning
  run_cleaning-Kept s i none now = record {
    jobs = s.lifecycle.jobs;
    idempotency = s.lifecycle.idempotency;
    lifecycle = refl;
    phases = refl;
    release_failures = refl;
  }
  run_cleaning-Kept s i (some (guarded protected)) now = record {
    jobs = s.lifecycle.jobs;
    idempotency = s.lifecycle.idempotency;
    lifecycle = refl;
    phases = refl;
    release_failures = refl;
  }
  run_cleaning-Kept s i (some (swept ids)) now =
      let (jobs, idempotency, e) = prune_memory-keeps os s.lifecycle ids now in
      record {
        jobs = jobs;
        idempotency = idempotency;
        lifecycle = e;
        phases = refl;
        release_failures = refl;
      }
  run_cleaning-Kept s i (some ended) now = record {
    jobs = s.lifecycle.jobs;
    idempotency = s.lifecycle.idempotency;
    lifecycle = refl;
    phases = refl;
    release_failures = refl;
  }

  Kept-Inv :
      (limits : LimitsConfig) (s s' : System os json)
      → Kept s s'
      → Inv os json limits s
      → Inv os json limits s'
  Kept-Inv limits s s' k h = record {
    slots_taken = rw (k.lifecycle, k.phases) h.slots_taken;
    capped = rw k.lifecycle h.capped;
    paired = rw (k.lifecycle, k.phases) h.paired;
    locked = rw k.lifecycle h.locked;
    clean = rw k.release_failures h.clean;
    configured = rw k.lifecycle h.configured;
  }

  Kept-Same :
      (s s' : System os json) (p : ℕ)
      → Kept s s'
      → (get_elem? s'.lifecycle.heap p ≡ get_elem? s.lifecycle.heap p)
        × (get_elem? s'.phases p ≡ get_elem? s.phases p)
  Kept-Same s s' p k = (rw k.lifecycle refl, rw k.phases refl)

  pub clean_up-Same :
      (s s' : System os json) (p i : ℕ) (now : ℤ)
      → step os json s (clean_up i now) ≡ some s'
      → (get_elem? s'.lifecycle.heap p ≡ get_elem? s.lifecycle.heap p)
        × (get_elem? s'.phases p ≡ get_elem? s.phases p)
  unfolding step
  clean_up-Same s s' p i now e =
      Kept-Same s s' p
        (subst (Kept s) (some_same e) (run_cleaning-Kept s i (get_elem? s.cleanings i) now))

  pub guard-Same :
      (s s' : System os json) (p : ℕ)
      → step os json s guard ≡ some s'
      → (get_elem? s'.lifecycle.heap p ≡ get_elem? s.lifecycle.heap p)
        × (get_elem? s'.phases p ≡ get_elem? s.phases p)
  unfolding step
  guard-Same s s' p e =
      let same = some_same e in
      (
        ap (λ (t : System os json). get_elem? t.lifecycle.heap p) (sym same),
        ap (λ (t : System os json). get_elem? t.phases p) (sym same),
      )

  pub clean_up-Inv :
      (limits : LimitsConfig) (s : System os json) (i : ℕ) (now : ℤ)
      → Inv os json limits s
      → (s' : System os json) × (step os json s (clean_up i now) ≡ some s') × Inv os json limits s'
  unfolding step
  clean_up-Inv limits s i now h =
      (_, refl, Kept-Inv limits s _ (run_cleaning-Kept s i (get_elem? s.cleanings i) now) h)

  pub guard-Inv :
      (limits : LimitsConfig) (s : System os json)
      → Inv os json limits s
      → (s' : System os json) × (step os json s guard ≡ some s') × Inv os json limits s'
  unfolding step
  guard-Inv limits s h = (
    _,
    refl,
    record {
      slots_taken = h.slots_taken;
      capped = h.capped;
      paired = h.paired;
      locked = h.locked;
      clean = h.clean;
      configured = h.configured;
    },
  )
