-- ===== src/Lifecycle.antt =====
-- internal/execd/job_lifecycle.go: admission of jobs, their slots, locks and idempotency keys. Jobs
-- live on a heap, a pointer being an index; the maps hold pointers, as in the source. What the
-- semaphore channel holds is a number. `mu` makes each method one step; the clock's reading and a
-- fresh job id are arguments.
pub mod Prepare
pub mod Locks
pub mod Idempotency
pub mod Prune
use vpsops.Base.{
  ℕ, zero, suc, Bool, true, false, Option, none, some, List, [], ◌∷◌, ◌++◌, length, get_elem?, set,
  is_empty, ◌==◌, ltb, not, ◌&&◌, if◌then◌else◌, Text, codes, text_eq, Map, lookup, insert, delete,
  ℤ, pos_part,
}
use vpsops.Types.{
  RunRequest, RunResult, JobMetadata, StorageConfig, LimitsConfig, AuthInfo, state_queued,
}
use vpsops.Os.{Os, Json, OsError, not_exist, Result, ok, err}
use vpsops.Store.{JobStore, create, save_metadata, read_metadata, remove}
use vpsops.Job.{Job, job_done, request_cancel}

pub record Lifecycle : Type 0 where
  pub store : JobStore
  pub storage : StorageConfig
  pub limits : LimitsConfig
  pub sem : ℕ
  pub heap : List Job
  pub jobs : Map ℕ
  pub idempotency : Map ℕ
  pub locks : Map ℕ

-- newJobLifecycle. For a negative number of slots `make` panics, which Validate excludes; here it
-- gives no slot.
unfoldable pub new_lifecycle : JobStore → StorageConfig → LimitsConfig → Lifecycle
new_lifecycle store storage limits = record {
  store = store;
  storage = storage;
  limits = limits;
  sem = 0;
  heap = [];
  jobs = [];
  idempotency = [];
  locks = [];
}

-- The capacity of `sem`: make(chan struct{}, limits.Concurrency).
abbrev pub capacity : Lifecycle → ℕ
capacity l = pos_part l.limits.concurrency

-- idempotencyIndexKey
unfoldable pub idempotency_index_key : Text → Text → Text
idempotency_index_key token_id key = token_id ++ (b':' ∷ key)

abbrev pub deref : Option ℕ → List Job → Option (ℕ × Job)
deref none heap = none
deref (some p) heap = elim (get_elem? heap p) [ none ↦ none | some j ↦ some (p, j) ]

-- A map's entry with the job that it points to; nil is `none`.
unfoldable pub entry : Text → Map ℕ → List Job → Option (ℕ × Job)
entry key m heap = deref (lookup key m) heap

pub data PrepareError : Type 0 where
  busy lock_busy idempotency_conflict : PrepareError
  store_failed : OsError → PrepareError

pub data Prepared : Type 0 where
  prepared : ℕ → Bool → Prepared
  refused : PrepareError → Prepared

-- releaseSlotLocked: `none` is errConcurrencySlotPanic.
unfoldable pub release_slot : ℕ → Option ℕ
release_slot zero = none
release_slot (suc n) = some n

-- The error of releaseSlotLocked dropped, as prepareJob does.
abbrev pub after_release : ℕ → ℕ
after_release n = elim (release_slot n) [ none ↦ n | some m ↦ m ]

-- The lock's part of prepareJob: the locks, without a lock whose job is done; `none` if it is held.
unfoldable pub take_lock : Lifecycle → Text → Option Lifecycle
take_lock l lock_key = if is_empty lock_key then some l else elim (entry lock_key l.locks l.heap) [
  | none ↦ some l
  | some (p, existing) ↦
      if job_done existing then some (record l { locks = delete lock_key l.locks }) else none
]

-- m[key] = p, unless the key is empty.
abbrev pub insert_key : Text → Text → ℕ → Map ℕ → Map ℕ
insert_key guarded key p m = if is_empty guarded then m else insert key p m

unfoldable pub new_job : Text → Text → Text → AuthInfo → Text → ℤ → Job
new_job id lock_key hash auth remote now = record {
  id = id;
  state = state_queued;
  result = none;
  done = false;
  started = now;
  hash = hash;
  token_id = auth.token_id;
  remote = remote;
  lock_key = lock_key;
  has_cancel = false;
  context_canceled = false;
  cancel_requested = false;
}

-- The last part of prepareJob: the new job enters the maps.
unfoldable pub register : Lifecycle → RunRequest → Job → Lifecycle
unfolding idempotency_index_key
register l req j =
    let p = length l.heap in
    record l {
      heap = l.heap ++ j ∷ [];
      jobs = insert j.id p l.jobs;
      locks = insert_key req.lock_key req.lock_key p l.locks;
      idempotency =
          insert_key req.idempotency_key (idempotency_index_key j.token_id req.idempotency_key) p
            l.idempotency;
    }

module _ (os : Os) (json : Json) where
  open os use {Fs}

  -- The part of prepareJob that writes the job's directory, `l` having taken a slot.
  unfoldable pub persist : Lifecycle → RunRequest → Job → Fs → Lifecycle × Prepared × Fs
  persist l req j fs =
      let (created, fs1) = create os json l.store j.id req fs in
      elim created [
        | err e ↦ (record l { sem = after_release l.sem }, refused (store_failed e), fs1)
        | ok u ↦
            let (saved, fs2) =
              save_metadata os json l.store
                (record {
                  job_id = j.id;
                  token_id = j.token_id;
                  privilege = req.privilege;
                  remote_addr = j.remote;
                  lock_key = req.lock_key;
                  idempotency_key = req.idempotency_key;
                  request_hash = j.hash;
                  created_at = j.started;
                })
                fs1 in
            elim saved [
              | err e ↦ (
                record l { sem = after_release l.sem },
                refused (store_failed e),
                (remove os json l.store j.id fs2).1,
              )
              | ok v ↦ (register l req j, prepared (length l.heap) false, fs2)
            ]
      ]

  -- The part of prepareJob below the idempotency key.
  unfoldable pub admit :
      Lifecycle → RunRequest → Text → AuthInfo → Text → Text → ℤ → Fs → Lifecycle × Prepared × Fs
  admit l req req_hash auth remote job_id now fs = elim (take_lock l req.lock_key) [
    | none ↦ (l, refused lock_busy, fs)
    | some l1 ↦
        if ltb l1.sem (capacity l1)
        then persist (record l1 { sem = suc l1.sem }) req
            (new_job job_id req.lock_key req_hash auth remote now) fs
        else (l1, refused busy, fs)
  ]

  -- The job that the request's idempotency key names.
  abbrev pub reusable : Lifecycle → RunRequest → AuthInfo → Option (ℕ × Job)
  reusable l req auth =
      if is_empty req.idempotency_key
      then none
      else entry (idempotency_index_key auth.token_id req.idempotency_key) l.idempotency l.heap

  -- prepareJob
  unfoldable pub prepare_job :
      Lifecycle → RunRequest → Text → AuthInfo → Text → Text → ℤ → Fs → Lifecycle × Prepared × Fs
  prepare_job l req req_hash auth remote job_id now fs = elim (reusable l req auth) [
    | some (p, existing) ↦
        if text_eq existing.hash req_hash
        then (l, prepared p true, fs)
        else (l, refused idempotency_conflict, fs)
    | none ↦ admit l req req_hash auth remote job_id now fs
  ]

  -- getJob
  unfoldable pub get_job : Lifecycle → Text → Option (ℕ × Job)
  get_job l job_id = entry job_id l.jobs l.heap

  -- authorizeJobAccess
  unfoldable pub authorize_job_access : Lifecycle → AuthInfo → Text → Fs → Result Bool
  authorize_job_access l auth job_id fs =
      if auth.allow_root then ok true else elim (get_job l job_id) [
        | some (p, j) ↦ ok (text_eq j.token_id auth.token_id)
        | none ↦ elim (read_metadata os json l.store job_id fs) [
          | err e ↦ err e
          | ok meta ↦ ok (text_eq meta.token_id auth.token_id)
        ]
      ]

-- l.locks[key] == p
abbrev pub points_to : Option ℕ → ℕ → Bool
points_to none p = false
points_to (some q) p = q == p

-- The locks after releaseJob of the job that `p` points to: its lock is given up if it is still its own.
unfoldable pub locks_after_release : Map ℕ → ℕ → Job → Map ℕ
locks_after_release locks p j =
    if not (is_empty j.lock_key) && points_to (lookup j.lock_key locks) p
    then delete j.lock_key locks
    else locks

-- releaseJob. The test is false if the slot could not be released (errConcurrencySlotPanic).
unfoldable pub release_job : Lifecycle → ℕ → Job → Lifecycle × Bool
release_job l p j =
    let l' = record l { locks = locks_after_release l.locks p j } in
    elim (release_slot l.sem) [ none ↦ (l', false) | some n ↦ (record l' { sem = n }, true) ]

-- cancelJob: `err not_exist` is os.ErrNotExist, `ok none` is errJobNotCancelable.
unfoldable pub cancel_job : Lifecycle → Text → Lifecycle × Result (Option ℕ)
cancel_job l job_id = elim (entry job_id l.jobs l.heap) [
  | none ↦ (l, err not_exist)
  | some (p, j) ↦
      let (j', requested) = request_cancel j in
      (record l { heap = set l.heap p j' }, ok (if requested then some p else none))
]

-- runningCount
unfoldable pub running_count : Lifecycle → ℕ
running_count l = l.sem
