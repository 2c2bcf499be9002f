-- ===== src/System/Tests.antt =====
-- A file system that keeps files in a map, and schedules with two requests for the same lock.
use vpsops.Base.{
  ℕ, ◌≡◌, refl, true, false, none, some, List, [], ◌∷◌, ◌++◌, ◌≤◌, Text, Map, lookup, delete,
  insert, pos, codes, text_eq, get_elem?, arith, ◌≢◌, if◌then◌else◌, inl,
}
use vpsops.Types.{
  RunRequest, RunResult, StorageConfig, LimitsConfig, AuthInfo, privilege_user, state_succeeded,
  state_canceled,
}
use vpsops.Os.{Os, Json, Result, ok, err, not_exist}
use vpsops.Path.{clean, join}
use vpsops.Store.{
  JobStore, is_job_id, job_dir, create, save_metadata, save_result, write_json_atomic,
  mkdir_existing,
}
use vpsops.Job.{
  Job, request_cancel, set_result, job_done, mark_running, set_cancel, was_cancel_requested,
}
use vpsops.Lifecycle.{
  Lifecycle, Prepared, prepared, refused, idempotency_conflict, new_lifecycle, entry, prepare_job,
  cancel_job, release_job, new_job, register, admit, persist, take_lock, release_slot,
  locks_after_release, idempotency_index_key,
}
use vpsops.Lifecycle.Idempotency.{prepare_job-other_token}
use vpsops.System.{
  armed, checked, released, System, Action, submit, advance, cancel, guard, clean_up, step, run,
  run_job, init, finish,
}
use vpsops.System.Paired.{slots}
use vpsops.System.Reach.{run-slots, run-exclusive}
use vpsops.System.Acknowledged.{cancel_final}
use vpsops.System.Idempotent.{submit-idempotent}
use vpsops.System.Progress.{run-finishes}
use vpsops.System.LateCancel.{late_cancel_lost}

abbrev done : Result (Unit {0})
done = ok tt

abbrev pub files : Os
files = record {
  Fs = Map Text;
  mkdir_all = λ p m. (done, m);
  mkdir = λ p m. (done, m);
  write_file = λ p b m. (done, insert p b m);
  rename = λ p q m. elim (lookup p m) [
    | none ↦ (err not_exist, m)
    | some b ↦ (done, insert q b (delete p m))
  ];
  remove_all = λ p m. (done, m);
  create_file = λ p m. (done, insert p [] m);
  read_file = λ p m. elim (lookup p m) [ none ↦ err not_exist | some b ↦ ok b ];
  read_dir = λ p m. ok [];
  mod_time = λ p m. ok (pos 0);
  walk_dir = λ p m. ok [];
  sort_slice = λ less xs. xs;
  sort_strings = λ ids. ids;
}

abbrev pub plain : Json
plain = record {
  encode_request = λ r. some r.cmd;
  encode_metadata = λ m. some m.token_id;
  encode_result = λ r. some r.state;
  decode_metadata = λ b. none;
  decode_result = λ b. none;
}

abbrev pub jobs_dir : JobStore
jobs_dir = record { dir = codes "/jobs" }

abbrev keep_all : StorageConfig
keep_all = record {
  job_dir = codes "/jobs";
  log_dir = codes "/log";
  retention_days = pos 0;
  max_total_job_bytes = pos 0;
}

abbrev two_slots : LimitsConfig
two_slots = record {
  default_timeout_sec = pos 30;
  max_timeout_sec = pos 300;
  default_wait_sec = pos 25;
  max_wait_sec = pos 60;
  default_kill_grace_sec = pos 3;
  max_request_bytes = pos 131_072;
  max_cmd_bytes = pos 8192;
  max_stdin_bytes = pos 65_536;
  default_stdout_bytes = pos 262_144;
  default_stderr_bytes = pos 262_144;
  max_stdout_bytes = pos 1_048_576;
  max_stderr_bytes = pos 1_048_576;
  default_stdout_log_bytes = pos 1_048_576;
  default_stderr_log_bytes = pos 1_048_576;
  max_stdout_log_bytes = pos 16_777_216;
  max_stderr_log_bytes = pos 16_777_216;
  concurrency = pos 2;
  max_jobs_retained = pos 0;
}

abbrev request : Text → Text → RunRequest
request key lock = record {
  mode = codes "shell";
  cmd = codes "uptime";
  argv = [];
  privilege = privilege_user;
  root = none;
  cwd = codes "/tmp";
  env = [];
  stdin = [];
  timeout_sec = pos 30;
  wait_sec = pos 25;
  kill_grace_sec = pos 3;
  max_stdout_bytes = pos 1024;
  max_stderr_bytes = pos 1024;
  max_stdout_log_bytes = pos 4096;
  max_stderr_log_bytes = pos 4096;
  idempotency_key = key;
  lock_key = lock;
  wait_sec_set = false;
}

abbrev pub result : RunResult
result = record {
  job_id = codes "job-0001";
  state = state_succeeded;
  exit_code = pos 0;
  signal = none;
  timed_out = false;
  stdout = codes "up";
  stderr = [];
  stdout_truncated = false;
  stderr_truncated = false;
  stdout_log_truncated = false;
  stderr_log_truncated = false;
  duration_ms = pos 1;
  started_at = pos 1;
  finished_at = pos 2;
  error = [];
}

abbrev pub admin : AuthInfo
admin = record { token_id = codes "ops"; allow_root = true }

abbrev pub start : Lifecycle
start = new_lifecycle jobs_dir keep_all two_slots

abbrev pub deploy : RunRequest
deploy = request (codes "k1") (codes "deploy")

abbrev first : Action
first = submit deploy (codes "h1") admin (codes "peer") (codes "job-0001") (pos 1)

abbrev second : Action
second =
    submit (request (codes "k2") (codes "deploy")) (codes "h2") admin (codes "peer")
      (codes "job-0002") (pos 2)

-- The state after a schedule of requests that does not panic.
abbrev reached : List Action → System files plain
reached actions = elim (run files plain (init files plain start []) actions) [
  | none ↦ init files plain start []
  | some s ↦ s
]

abbrev job_at : System files plain → ℕ → Job
job_at s p = elim (get_elem? s.lifecycle.heap p) [
  | none ↦ new_job [] [] [] admin [] (pos 0)
  | some j ↦ j
]

abbrev pub after_submit : Lifecycle × Prepared × Map Text
after_submit =
    prepare_job files plain start deploy (codes "h1") admin (codes "peer") (codes "job-0001")
      (pos 1) []

-- Another token, whose id goes on with a colon.
abbrev other : AuthInfo
other = record { token_id = codes "ops:k"; allow_root = false }

abbrev after_joined : Lifecycle × Prepared × Map Text
after_joined =
    prepare_job files plain start (request (codes "k:1") []) (codes "h1") admin (codes "peer")
      (codes "job-0001") (pos 1) []

prepare_job-other_token_example :
    (other.token_id ≢ admin.token_id)
    × (prepare_job files plain after_joined.0
          (request (codes "1") [])
          (codes "h2")
          other
          (codes "peer")
          (codes "job-0002")
          (pos 2)
          []
        ≡ (
          after_joined.0,
          if text_eq (codes "h1") (codes "h2")
              then prepared 0 true
              else refused idempotency_conflict,
          [],
        ))
unfolding prepare_job text_eq entry lookup new_lifecycle admit take_lock persist create job_dir
    is_job_id new_job insert join save_metadata
prepare_job-other_token_example =
    prepare_job-other_token files plain start after_joined.0 (request (codes "k:1") [])
      (request (codes "1") []) (codes "h1") (codes "h2") (codes "k") admin other (codes "peer")
      (codes "peer") (codes "job-0001") (codes "job-0002") (pos 1) (pos 2) [] after_joined.2 [] 0
      refl refl refl refl

run-slots_example :
    (s : System files plain) × (run files plain
        (init files plain start [])
        (first ∷ second ∷ guard ∷ clean_up 0 (pos 9) ∷ advance 0 result ∷ [])
      ≡ some s)
    × (s.release_failures ≡ 0)
    × (s.lifecycle.sem ≡ slots s.phases)
    × (s.lifecycle.sem ≤ 2)
run-slots_example =
    run-slots files plain jobs_dir keep_all two_slots []
      (first ∷ second ∷ guard ∷ clean_up 0 (pos 9) ∷ advance 0 result ∷ [])

-- The second request, for the lock of the first, is refused, and leaves one job.
abbrev contended : System files plain
contended = reached (first ∷ second ∷ [])

abbrev first_job : ℕ
first_job = 0

run-exclusive_example : first_job ≡ first_job
unfolding step run prepare_job text_eq entry lookup new_lifecycle admit take_lock persist create
    job_dir is_job_id new_job insert join save_metadata init register delete job_done mark_running
    request_cancel set_cancel set_result was_cancel_requested cancel_job idempotency_index_key
    locks_after_release release_job release_slot clean mkdir_existing save_result write_json_atomic
    finish run_job
run-exclusive_example =
    run-exclusive files plain jobs_dir keep_all two_slots [] (first ∷ second ∷ []) contended
      first_job first_job (job_at contended 0) (job_at contended 0) refl refl refl refl refl refl
      refl

abbrev to_child : List Action
to_child = first ∷ advance 0 result ∷ advance 0 result ∷ []

abbrev to_end : List Action
to_end =
    advance 0 result
    ∷ advance 0 result
    ∷ advance 0 result
    ∷ advance 0 result
    ∷ advance 0 result
    ∷ []

abbrev in_child : System files plain
in_child = reached to_child

abbrev canceled_in_child : System files plain
canceled_in_child = reached (to_child ++ cancel (codes "job-0001") ∷ [])

abbrev ended : System files plain
ended = reached (to_child ++ cancel (codes "job-0001") ∷ to_end)

abbrev result_at : System files plain → ℕ → RunResult
result_at s p = elim (job_at s p).result [ none ↦ result | some r ↦ r ]

cancel_final_example :
    ((cancel_job in_child.lifecycle (codes "job-0001")).1 ≡ ok (some 0))
    × ((result_at ended 0).state ≡ state_canceled)
unfolding step run prepare_job text_eq entry lookup new_lifecycle admit take_lock persist create
    job_dir is_job_id new_job insert join save_metadata init register delete job_done mark_running
    request_cancel set_cancel set_result was_cancel_requested cancel_job idempotency_index_key
    locks_after_release release_job release_slot clean mkdir_existing save_result write_json_atomic
    finish run_job
cancel_final_example =
    cancel_final files plain jobs_dir keep_all two_slots [] to_child to_end in_child
      canceled_in_child ended (codes "job-0001") 0 (job_at in_child 0) (job_at ended 0) armed
      (result_at ended 0) refl refl refl refl refl refl refl refl

-- The goroutine ends, while a second request comes.
abbrev to_publication : List Action
to_publication = advance 0 result ∷ second ∷ advance 0 result ∷ advance 0 result ∷ []

abbrev to_checked : List Action
to_checked = first ∷ advance 0 result ∷ advance 0 result ∷ advance 0 result ∷ advance 0 result ∷ []

abbrev after_test : System files plain
after_test = reached to_checked

late_cancel_lost_example :
    (s1 s2 : System files plain) × (j1 j2 : Job) × ((cancel_job after_test.lifecycle
        (codes "job-0001")).1
      ≡ ok (some 0))
    × (step files plain after_test (cancel (codes "job-0001")) ≡ some s1)
    × (get_elem? s1.lifecycle.heap 0 ≡ some j1)
    × (j1.state ≡ state_canceled)
    × (run files plain s1 to_publication ≡ some s2)
    × (get_elem? s2.lifecycle.heap 0 ≡ some j2)
    × (j2.result ≡ some result)
    × (j2.state ≡ state_succeeded)
unfolding step run prepare_job text_eq entry lookup new_lifecycle admit take_lock persist create
    job_dir is_job_id new_job insert join save_metadata init register delete job_done mark_running
    request_cancel set_cancel set_result was_cancel_requested cancel_job idempotency_index_key
    locks_after_release release_job release_slot clean mkdir_existing save_result write_json_atomic
    finish run_job
late_cancel_lost_example =
    late_cancel_lost files plain jobs_dir keep_all two_slots [] to_checked to_publication after_test
      (codes "job-0001") 0 (job_at after_test 0) (checked result) result refl refl refl (inl refl)
      (omega arith)

-- The first job is canceled and runs to its end, while a second request is refused.
abbrev without_cleanup : List Action
without_cleanup =
    cancel (codes "job-0001") ∷ second ∷ guard ∷ advance 0 result ∷ advance 0 result ∷ to_end

abbrev long_after : System files plain
long_after = reached (first ∷ without_cleanup)

submit-idempotent_example :
    prepare_job files plain long_after.lifecycle
      (request (codes "k1") [])
      (codes "h3")
      admin
      (codes "peer")
      (codes "job-0009")
      (pos 9)
      []
    ≡ (long_after.lifecycle, refused idempotency_conflict, [])
unfolding step run prepare_job text_eq entry lookup new_lifecycle admit take_lock persist create
    job_dir is_job_id new_job insert join save_metadata init register delete job_done mark_running
    request_cancel set_cancel set_result was_cancel_requested cancel_job idempotency_index_key
    locks_after_release release_job release_slot clean mkdir_existing save_result write_json_atomic
    finish run_job
submit-idempotent_example =
    submit-idempotent files plain jobs_dir keep_all two_slots [] [] [] without_cleanup
      (init files plain start []) (reached (first ∷ [])) long_after deploy (request (codes "k1") [])
      (codes "h1") (codes "h3") admin (codes "peer") (codes "peer") (codes "job-0001")
      (codes "job-0009") (pos 1) (pos 9) 0 refl refl refl refl refl refl (omega arith)

-- The first job's goroutine runs to its end, while the job is canceled and a second request comes.
abbrev mixed : List Action
mixed =
    advance 0 result
    ∷ advance 0 result
    ∷ cancel (codes "job-0001")
    ∷ advance 0 result
    ∷ second
    ∷ advance 0 result
    ∷ advance 0 result
    ∷ guard
    ∷ advance 0 result
    ∷ advance 0 result
    ∷ []

run-finishes_example :
    (s' : System files plain) × (j' : Job) × (run files plain (reached (first ∷ [])) mixed
      ≡ some s')
    × (get_elem? s'.lifecycle.heap 0 ≡ some j')
    × (get_elem? s'.phases 0 ≡ some released)
    × (s'.lifecycle.sem ≡ slots s'.phases)
    × (j'.done ≡ true)
    × ((r : RunResult) × (j'.result ≡ some r))
unfolding step run prepare_job text_eq entry lookup new_lifecycle admit take_lock persist create
    job_dir is_job_id new_job insert join save_metadata init register delete idempotency_index_key
    clean mkdir_existing write_json_atomic
run-finishes_example =
    run-finishes files plain jobs_dir keep_all two_slots [] (first ∷ []) mixed
      (reached (first ∷ [])) 0 (job_at (reached (first ∷ [])) 0) refl refl (omega arith)
