-- ===== src/Runner/Tests.antt =====
-- A job whose payload says hello and exits, with codecs of one message each.
use vpsops.Base.{
  ℕ, ◌≡◌, ◌≢◌, ◌↔◌, ap, refl, ◌⊎◌, inr, true, false, Option, none, some, [], ◌∷◌, ◌++◌, take,
  is_empty, Text, codes, text_eq, trim_space, lookup, insert, delete, strip_prefix, to_lower,
  has_prefix, contains, reverse, pos, ◌≤ℤ◌, ◌+ℤ◌, ◌-ℤ◌, wrap64, leb_ℤ, ltb_ℤ, is_zero, arith,
}
use vpsops.Types.{
  RunResult, AuthInfo, privilege_user, privilege_root, state_succeeded, state_failed,
}
use vpsops.Limiter.{duration_seconds, record_success}
use vpsops.Capped.{Sink, copy_tee, write_tee, new_capped_tee_writer}
use vpsops.Capped.Tee.{Accepts}
use vpsops.Auth.{authenticate, identified, find_token}
use vpsops.Validation.{
  normalize_request, choose_privilege, choose_mode, check_command, check_limits, choose_times,
  choose_sizes, check_context, normalize_cwd, allow_cwd, find_prefix, path_has_prefix, check_argv,
  check_shell, choose_root, is_control_key, is_env_key, resolved_prefix, validate_control_key,
  validate_entry, validate_env,
}
use vpsops.Validation.Request.{normalize_request-Fits}
use vpsops.Validation.Tests.{config, links, uptime, normalized}
use vpsops.Path.{clean, join, is_abs}
use vpsops.Store.{
  is_job_id, job_dir, create, save_metadata, write_json_atomic, mkdir_existing, open_output,
}
use vpsops.Lifecycle.{
  new_job, prepare_job, entry, new_lifecycle, admit, take_lock, persist, register,
  idempotency_index_key,
}
use vpsops.Auth.Tests.{with_token}
use vpsops.Http.{
  peer_address, client_address, forwarded_address, before_comma, decode_run_request, request_hash,
}
use vpsops.Server.{handle_run, start_run, check_run, authenticate_request}
use vpsops.System.Tests.{files, plain, jobs_dir, deploy}
use vpsops.Child.{
  ChildSpec, ChildResult, ChildJson, Command, Exec, PayloadRun, Ran, Launch, not_started, ran,
  in_time, WaitError, WaitStatus, exited, default_times, payload_command, payload_result,
  run_payload, child_main,
}
use vpsops.Child.Payload.{Reports, Kept, NotStarted, run_payload-Reports}
use vpsops.Child.Exit.{child_main-code}
use vpsops.Runner.{
  HelperRun, Sudo, helper_ran, helper_command, helper_timeout, child_spec_from_request,
  decode_child_result, run_via_child, new_job_id,
}
use vpsops.Runner.Helper.{decode_child_result-failed}
use vpsops.Runner.Refinement.{Agrees, run_via_child-Agrees}
use vpsops.Runner.Deadlines.{helper_timeout-outlasts}
use vpsops.Runner.Privilege.{user_args, root_args, helper_command-root}
use vpsops.Runner.JobId.{new_job_id-admitted}
use vpsops.Server.Tests.{net, served, valid_request, server}

-- A destination in memory.
abbrev memory : Sink
memory = record { State = Text; write = λ s p. (s ++ p, true); contents = λ s. s }

memory-Accepts : Accepts memory
memory-Accepts = record { succeeds = λ s p. refl; appends = λ s p. refl }

abbrev hello : Exec
hello cmd timeout grace =
    ran
      (record { stdout = codes "hello " ∷ codes "world" ∷ []; stderr = []; ending = in_time none })

abbrev spec : ChildSpec
spec = child_spec_from_request deploy config

abbrev hello_run : PayloadRun Text
hello_run = run_payload memory hello spec [] []

-- The result of a payload that succeeds.
abbrev pub success : ChildResult
success = record {
  state = state_succeeded;
  exit_code = pos 0;
  signal = none;
  timed_out = false;
  stdout_log_truncated = false;
  stderr_log_truncated = false;
  error = [];
}

abbrev code_in : Option WaitStatus → ℕ
code_in (some (exited (pos n))) = n
code_in s = 2

-- The messages of this job: the specification is `s`, the result `r`.
abbrev messages : ChildJson
messages = record {
  encode_spec = λ s. inr (codes "s");
  decode_spec = λ b. inr spec;
  encode_child = λ r. some (codes "r");
  decode_child = λ b. inr success;
}

run_payload-Reports_example :
    let times = default_times spec in
    ((payload_command times ≡ none)
      × NotStarted memory [] [] (codes "argv[0] is required") hello_run)
    ⊎ ((cmd : Command) × (launch : Launch) × (payload_command times ≡ some cmd)
        × (hello cmd (duration_seconds times.timeout_sec) (duration_seconds times.kill_grace_sec)
            ≡ launch)
        × (((e : Text) × (launch ≡ not_started e) × NotStarted memory [] [] e hello_run)
            ⊎ ((r : Ran) × (launch ≡ ran r)
                × Kept memory spec [] [] r hello_run
                × Reports r.ending hello_run.result hello_run.signals)))
unfolding child_spec_from_request
run_payload-Reports_example =
    run_payload-Reports memory hello spec [] [] memory-Accepts (omega arith) (omega arith)

child_main-code_example :
    let (code, written, run) = child_main memory hello messages privilege_user (codes "s") [] [] in
    (pos 0 ≤ℤ code)
    × (code ≤ℤ pos 125)
    × ((code ≡ pos 0) ↔ ((r : PayloadRun Text) × (run ≡ some r) × (r.result.exit_code ≡ pos 0)))
    × ((r : PayloadRun Text)
        → run ≡ some r
        → (spec' : ChildSpec) × (messages.decode_spec (take 1_048_576 (codes "s")) ≡ inr spec')
          × (spec'.privilege ≡ privilege_user)
          × (r ≡ run_payload memory hello spec' [] []))
child_main-code_example = child_main-code memory hello messages privilege_user (codes "s") [] []

abbrev killed_helper : Option WaitError
killed_helper =
    some
      (record { status = some (exited (pos 1)); is_deadline = false; text = codes "exit status 1" })

decode_child_result-failed_example :
    let res = decode_child_result messages [] killed_helper in
    ((messages.decode_child (trim_space []) ≡ inr res) × (is_empty res.state ≡ false))
    ⊎ ((res.state ≡ state_failed) × (res.exit_code ≢ pos 0))
decode_child_result-failed_example =
    decode_child_result-failed messages [] killed_helper
      (λ h. absurd (omega (arith, ap (λ (x : Option WaitStatus). code_in x) h)))

-- What the daemon reads of the helper.
abbrev helped : HelperRun
helped = record {
  stdout = codes "hello wo" ∷ codes "rld" ∷ [];
  stderr = [];
  result = inr (codes "r");
  wait = none;
}

abbrev sudo : Sudo
sudo cmd timeout = helper_ran helped

abbrev log_path : Text → Text
log_path name = codes "/jobs/job-0001/" ++ name

abbrev ran_job : RunResult
ran_job =
    (run_via_child files plain (λ e. codes "error") messages memory (λ path. []) sudo config
      jobs_dir (codes "job-0001") deploy (pos 1) (pos 2) []).0

run_via_child-Agrees_example : (hello_run ≡ hello_run) × Agrees memory deploy hello_run ran_job
unfolding clean join job_dir is_job_id text_eq ltb_ℤ is_zero trim_space child_main copy_tee
    write_tee leb_ℤ new_capped_tee_writer wrap64 ◌-ℤ◌ ◌+ℤ◌ payload_result open_output run_payload
    payload_command child_spec_from_request default_times insert lookup delete
run_via_child-Agrees_example =
    run_via_child-Agrees files plain (λ e. codes "error") messages memory memory (λ path. []) sudo
      hello config jobs_dir (codes "job-0001") deploy (pos 1) (pos 2) []
      (log_path (codes "stdout.log")) (log_path (codes "stderr.log")) (codes "s") (codes "r")
      (pos 0) [] [] helped hello_run memory-Accepts (omega arith) (omega arith) refl refl refl refl
      refl refl refl refl refl (omega arith)
      (record { stdout = refl; stderr = refl; result = refl })

helper_timeout-outlasts_example :
    let spec' = default_times (child_spec_from_request normalized config) in
    (spec'.timeout_sec ≡ pos 30)
    × (spec'.kill_grace_sec ≡ pos 3)
    × ((duration_seconds spec'.timeout_sec +ℤ duration_seconds spec'.kill_grace_sec)
          +ℤ pos 15_000_000_000
        ≤ℤ helper_timeout normalized)
unfolding handle_run authenticate_request authenticate has_prefix text_eq trim_space strip_prefix
    to_lower decode_run_request normalize_request choose_privilege choose_mode check_command ltb_ℤ
    check_limits choose_times is_zero choose_sizes check_context normalize_cwd is_abs clean
    allow_cwd find_prefix path_has_prefix contains check_argv check_shell choose_root is_control_key
    is_env_key resolved_prefix validate_control_key validate_entry validate_env find_token
    peer_address record_success client_address forwarded_address request_hash prepare_job entry
    lookup new_lifecycle admit take_lock persist create job_dir is_job_id new_job insert join
    save_metadata write_json_atomic mkdir_existing register idempotency_index_key start_run
    check_run delete before_comma
helper_timeout-outlasts_example =
    helper_timeout-outlasts links config normalized
      (normalize_request-Fits links (uptime (codes "HTTP_PROXY")) normalized config refl)
      (omega arith)

helper_command-root_example :
    (who : AuthInfo) × (authenticate reverse (codes "Bearer abc") with_token ≡ identified who)
    × ((helper_command with_token normalized (codes "s")).path ≡ with_token.helpers.sudo_path)
    × ((helper_command with_token normalized (codes "s")).stdin ≡ some (codes "s"))
    × (((text_eq normalized.privilege privilege_root ≡ true)
          × (who.allow_root ≡ true)
          × ((helper_command with_token normalized (codes "s")).args ≡ root_args with_token))
        ⊎ ((text_eq normalized.privilege privilege_root ≡ false)
            × ((helper_command with_token normalized (codes "s")).args ≡ user_args with_token)))
unfolding handle_run authenticate_request authenticate has_prefix text_eq trim_space strip_prefix
    to_lower decode_run_request normalize_request choose_privilege choose_mode check_command ltb_ℤ
    check_limits choose_times is_zero choose_sizes check_context normalize_cwd is_abs clean
    allow_cwd find_prefix path_has_prefix contains check_argv check_shell choose_root is_control_key
    is_env_key resolved_prefix validate_control_key validate_entry validate_env find_token
    peer_address record_success client_address forwarded_address request_hash prepare_job entry
    lookup new_lifecycle admit take_lock persist create job_dir is_job_id new_job insert join
    save_metadata write_json_atomic mkdir_existing register idempotency_index_key start_run
    check_run delete before_comma
helper_command-root_example =
    helper_command-root files plain net links server served.0 valid_request (codes "job-0001")
      (pos 1) [] served.2 0 normalized (codes "s") refl

new_job_id-admitted_example :
    is_job_id (new_job_id (codes "20250102T030405") (some (0 ∷ 1 ∷ 2 ∷ 3 ∷ 4 ∷ 5 ∷ 6 ∷ 255 ∷ [])))
    ≡ true
new_job_id-admitted_example =
    new_job_id-admitted (codes "20250102T030405") (some (0 ∷ 1 ∷ 2 ∷ 3 ∷ 4 ∷ 5 ∷ 6 ∷ 255 ∷ [])) refl
      refl (refl, omega arith)
