-- ===== src/System.antt =====
-- The daemon's jobs as interleavings: requests call prepareJob and cancelJob, and each admitted job
-- has a goroutine, runJob of internal/execd/server.go, that takes its steps one at a time. A step
-- is what runJob does under one lock, or one call of the store. The cleanupJobs that ends runJob
-- runs in steps of its own, and may start at any time.
pub mod Paired
pub mod Invariant
pub mod Housekeeping
pub mod Reach
pub mod Cancel
pub mod Sticky
pub mod Acknowledged
pub mod LateCancel
pub mod Named
pub mod Idempotent
pub mod Rank
pub mod Progress
pub mod Tests
use vpsops.Base.{
  ℕ, zero, suc, Bool, true, false, Option, none, some, List, [], ◌∷◌, ◌++◌, get_elem?, set,
  if◌then◌else◌, Text, codes, ℤ, negsuc,
}
use vpsops.Types.{RunRequest, RunResult, AuthInfo, state_canceled}
use vpsops.Os.{Os, Json}
use vpsops.Store.{save_result}
use vpsops.Job.{Job, mark_running, set_cancel, set_result, was_cancel_requested}
use vpsops.Lifecycle.{Lifecycle, Prepared, prepared, refused, prepare_job, release_job, cancel_job}
use vpsops.Store.Cleanup.{Protected}
use vpsops.Lifecycle.Prune.{protected_ids, clean_store, prune_memory}

-- How far runJob of a job has come: before markRunning, before setCancel, in runViaChild, with its
-- result, with the result that the cancellation test leaves, with that result saved, with it set,
-- and with the slot released.
pub data Phase : Type 0 where
  queued started armed : Phase
  ran checked saved : RunResult → Phase
  published released : Phase

-- The fields that runJob overwrites where a cancellation was requested.
abbrev pub as_canceled : RunResult → RunResult
as_canceled res = record res {
  state = state_canceled;
  exit_code = negsuc 0;
  error = codes "job canceled";
}

-- How far a cleanupJobs has come: with protectedIDs, with what the store deleted, and at its end.
pub data Cleaning : Type 0 where
  guarded : Protected → Cleaning
  swept : List Text → Cleaning
  ended : Cleaning

pub data Action : Type 0 where
  -- handleRun up to prepareJob: the request, its hash, who sends it, the fresh id and the time.
  submit : RunRequest → Text → AuthInfo → Text → Text → ℤ → Action
  -- The next step of the goroutine of job `p`; the result is runViaChild's, if it is its turn.
  advance : ℕ → RunResult → Action
  -- cancelJob
  cancel : Text → Action
  -- cleanupJobs begins with protectedIDs.
  guard : Action
  -- The next step of a cleanupJobs, and the time.
  clean_up : ℕ → ℤ → Action

-- `go s.runJob(j, req)`, for a job that is not reused.
abbrev pub enter : Prepared → List Phase → List Phase
enter (prepared p true) phases = phases
enter (prepared p false) phases = phases ++ queued ∷ []
enter (refused e) phases = phases

module _ (os : Os) (json : Json) where
  open os use {Fs}

  pub record System : Type 0 where
    pub lifecycle : Lifecycle
    pub phases : List Phase
    pub fs : Fs
    -- How often "job_release_failed" was logged.
    pub release_failures : ℕ
    pub cleanings : List Cleaning

  abbrev pub with_job : System → ℕ → Job → Phase → System
  with_job s p j phase = record s {
    lifecycle = record s.lifecycle { heap = set s.lifecycle.heap p j };
    phases = set s.phases p phase;
  }

  -- The deferred releaseJob of job `p`.
  unfoldable pub finish : System → ℕ → Job → System
  finish s p j =
      let (l', done) = release_job s.lifecycle p j in
      record s {
        lifecycle = l';
        phases = set s.phases p released;
        release_failures = if done then s.release_failures else suc s.release_failures;
      }

  -- runJob from one phase to the next; `none` is a panic.
  unfoldable pub run_job : System → ℕ → Job → Phase → RunResult → Option System
  unfolding finish
  run_job s p j queued res = some (with_job s p (mark_running j) started)
  run_job s p j started res = some (with_job s p (set_cancel j) armed)
  run_job s p j armed res = some (with_job s p j (ran res))
  run_job s p j (ran r) res =
      some (with_job s p j (checked (if was_cancel_requested j then as_canceled r else r)))
  run_job s p j (checked r) res =
      some (record (with_job s p j (saved r)) {
        fs = (save_result os json s.lifecycle.store r s.fs).1;
      })
  run_job s p j (saved r) res = elim (set_result j r) [
    | none ↦ none
    | some j' ↦ some (with_job s p j' published)
  ]
  run_job s p j published res = some (finish s p j)
  run_job s p j released res = some s

  abbrev pub run_task : System → ℕ → Option Job → Option Phase → RunResult → Option System
  run_task s p none phase res = some s
  run_task s p (some j) none res = some s
  run_task s p (some j) (some phase) res = run_job s p j phase res

  -- cleanupJobs from one step to the next; an error of the store ends it.
  unfoldable pub run_cleaning : System → ℕ → Option Cleaning → ℤ → System
  run_cleaning s i none now = s
  run_cleaning s i (some (guarded protected)) now =
      let (deleted, fs') = clean_store os json s.lifecycle protected now s.fs in
      record s {
        fs = fs';
        cleanings = set s.cleanings i (elim deleted [ none ↦ ended | some ids ↦ swept ids ]);
      }
  run_cleaning s i (some (swept ids)) now = record s {
    lifecycle = prune_memory os s.lifecycle ids now;
    cleanings = set s.cleanings i ended;
  }
  run_cleaning s i (some ended) now = s

  unfoldable pub step : System → Action → Option System
  unfolding run_job run_cleaning
  step s (submit req req_hash auth remote job_id now) =
      let (l', outcome, fs') =
        prepare_job os json s.lifecycle req req_hash auth remote job_id now s.fs in
      some (record s { lifecycle = l'; phases = enter outcome s.phases; fs = fs' })
  step s (advance p res) = run_task s p (get_elem? s.lifecycle.heap p) (get_elem? s.phases p) res
  step s (cancel job_id) = some (record s { lifecycle = (cancel_job s.lifecycle job_id).0 })
  step s guard =
      some (record s { cleanings = s.cleanings ++ guarded (protected_ids s.lifecycle) ∷ [] })
  step s (clean_up i now) = some (run_cleaning s i (get_elem? s.cleanings i) now)

  unfoldable pub run : System → List Action → Option System
  run s [] = some s
  run s (a ∷ as') = elim (step s a) [ none ↦ none | some s' ↦ run s' as' ]

  unfoldable pub init : Lifecycle → Fs → System
  init l fs = record { lifecycle = l; phases = []; fs = fs; release_failures = 0; cleanings = [] }
