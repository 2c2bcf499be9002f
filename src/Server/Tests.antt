-- ===== src/Server/Tests.antt =====
-- A daemon with one token, and a request for uptime from one client.
use vpsops.Base.{
  ◌≤◌, ap, sym, ◌∙◌, lookup-insert, text_eq_refl, ◌≡◌, refl, ◌⊎◌, ◌&&◌, not, true, false, Option,
  none, some, List, [], ◌∷◌, ◌++◌, ◌*◌, reverse, map, get_elem?, if◌then◌else◌, Text, Map, codes,
  text_eq, has_prefix, trim_space, ℤ, pos, ◌-ℤ◌, ◌+ℤ◌, ◌≤ℤ◌, ltb, ltb_ℤ, is_zero, contains, arith,
  insert, lookup, delete, strip_prefix, to_lower,
}
use vpsops.Types.{AuthInfo, privilege_root, state_succeeded}
use vpsops.Limiter.{
  Limiter, new_limiter, record_success, record_failure_and_exceeded, duration_seconds,
}
use vpsops.Limiter.Window.{count_after}
use vpsops.Limiter.History.{history}
use vpsops.Path.{clean, join, is_abs}
use vpsops.Auth.{authenticate, identified, find_token, invalid_bearer_token}
use vpsops.Auth.Tests.{with_token}
use vpsops.Os.{Result, ok, Json}
use vpsops.Server.Stored.{Renames, show_job-saved}
use vpsops.Store.{
  save_result, is_job_id, job_dir, create, save_metadata, write_json_atomic, mkdir_existing,
}
use vpsops.Lifecycle.{
  new_job, prepare_job, entry, new_lifecycle, admit, take_lock, persist, register,
  idempotency_index_key, get_job, authorize_job_access,
}
use vpsops.Validation.{
  normalize_request, choose_privilege, choose_mode, check_command, check_limits, choose_times,
  choose_sizes, check_context, normalize_cwd, allow_cwd, find_prefix, path_has_prefix, check_argv,
  check_shell, choose_root, is_control_key, is_env_key, resolved_prefix, validate_control_key,
  validate_entry, validate_env,
}
use vpsops.Validation.Request.{Fits, normalize_request-Fits}
use vpsops.Validation.Tests.{uptime, links, normalized}
use vpsops.System.Tests.{result, files, plain, start}
use vpsops.Http.{
  summary_body, Request, Packages, Response, decoded, at_eof, summary_body, write_json,
  peer_address, client_address, forwarded_address, before_comma, decode_run_request, request_hash,
}
use vpsops.Server.{
  Server, stopped, rate_limited, unauthorized, Started, answered, handle_run, start_run, check_run,
  write_timeout, authenticate_request,
}
use vpsops.Server.Jobs.{check_job, show_job, serve_job, handle_job, get_job_route, cancel_route}
use vpsops.Server.Access.{MayAccess, handle_job-MayAccess, handlers-refused}
use vpsops.Server.Refusals.{SameJobs, handle_run-answered}
use vpsops.Server.{prepare_error}
use vpsops.Lifecycle.{lock_busy}
use vpsops.Job.{job_done}
use vpsops.Http.{write_error, write_error_retry}
use vpsops.Server.Run.{handle_run-Fits}
use vpsops.Server.Throttle.{event_of, serve_all, authenticate_request-throttled}
use vpsops.Server.Timeouts.{write_timeout-outlasts}

abbrev pub net : Packages
net = record {
  split_host_port = λ s. some s;
  is_loopback_ip = λ s. text_eq s (codes "::1");
  parse_int = λ s. some (pos 3);
  sha256_hex = reverse;
  decode_request = λ b. decoded (uptime (codes "HTTP_PROXY"));
  decode_second = λ b. at_eof;
  has_key = λ b k. decoded true;
  marshal_request = λ r. some r.cmd;
}

abbrev asking : Text → Text → Request
asking authorization job_id = record {
  remote_addr = codes "192.0.2.1";
  authorization = authorization;
  x_forwarded_for = codes "198.51.100.1, ::1";
  x_real_ip = [];
  path_job_id = job_id;
  query_tail_bytes = codes "3";
  body = λ limit. some (codes "{}");
}

abbrev pub valid_request : Request
valid_request = asking (codes "Bearer abc") (codes "job-0001")

abbrev pub server : Server
server = record { cfg = with_token; lifecycle = start; limiter = none }

-- The server after a request, the answer, and the files.
abbrev pub served : Server × Started × Map Text
served =
    elim (handle_run files plain net links server valid_request (codes "job-0001") (pos 1) []) [
      | none ↦ (server, answered unauthorized, [])
      | some outcome ↦ outcome
    ]

handle_run-Fits_example :
    (who : AuthInfo) × (authenticate reverse (codes "Bearer abc") with_token ≡ identified who)
    × Fits links with_token normalized
    × ((text_eq normalized.privilege privilege_root && not who.allow_root) ≡ false)
    × (get_elem? served.0.lifecycle.heap 0
        ≡ some (
            new_job
              (codes "job-0001")
              normalized.lock_key
              (request_hash net normalized)
              who
              (client_address net valid_request)
              (pos 1)))
unfolding handle_run authenticate_request authenticate has_prefix text_eq trim_space strip_prefix
    to_lower decode_run_request normalize_request choose_privilege choose_mode check_command ltb_ℤ
    check_limits choose_times is_zero choose_sizes check_context normalize_cwd is_abs clean
    allow_cwd find_prefix path_has_prefix contains check_argv check_shell choose_root is_control_key
    is_env_key resolved_prefix validate_control_key validate_entry validate_env find_token
    peer_address record_success client_address forwarded_address request_hash prepare_job entry
    lookup new_lifecycle admit take_lock persist create job_dir is_job_id new_job insert join
    save_metadata write_json_atomic mkdir_existing register idempotency_index_key start_run
    check_run delete before_comma
handle_run-Fits_example =
    handle_run-Fits files plain net links server served.0 valid_request (codes "job-0001") (pos 1)
      [] served.2 0 normalized refl

-- The reply to a request for the job's summary.
abbrev shown : Server × Response
shown = elim (handle_job files plain net get_job_route served.0 valid_request (pos 2) served.2) [
  | none ↦ (server, unauthorized)
  | some outcome ↦ outcome
]

handle_job-MayAccess_example :
    (who : AuthInfo) × (authenticate reverse (codes "Bearer abc") with_token ≡ identified who)
    × (is_job_id (codes "job-0001") ≡ true)
    × MayAccess files plain served.0.lifecycle who (codes "job-0001") served.2
unfolding handle_run authenticate_request authenticate has_prefix text_eq trim_space strip_prefix
    to_lower decode_run_request normalize_request choose_privilege choose_mode check_command ltb_ℤ
    check_limits choose_times is_zero choose_sizes check_context normalize_cwd is_abs clean
    allow_cwd find_prefix path_has_prefix contains check_argv check_shell choose_root is_control_key
    is_env_key resolved_prefix validate_control_key validate_entry validate_env find_token
    peer_address record_success client_address forwarded_address request_hash prepare_job entry
    lookup new_lifecycle admit take_lock persist create job_dir is_job_id new_job insert join
    save_metadata write_json_atomic mkdir_existing register idempotency_index_key start_run
    check_run delete before_comma handle_job check_job authorize_job_access get_job serve_job
    show_job
handle_job-MayAccess_example =
    handle_job-MayAccess files plain net get_job_route served.0 shown.0 valid_request (pos 2)
      served.2 shown.1 refl refl

abbrev no_files : Map Text
no_files = []

abbrev bad_request_of : Request
bad_request_of = asking (codes "Bearer xyz") (codes "job-0001")

handlers-refused_example :
    (server.lifecycle ≡ server.lifecycle)
    × (server.lifecycle ≡ server.lifecycle)
    × (no_files ≡ no_files)
    × ((unauthorized ≡ rate_limited) ⊎ (unauthorized ≡ unauthorized))
    × ((answered unauthorized ≡ answered rate_limited)
        ⊎ (answered unauthorized ≡ answered unauthorized))
unfolding handle_run authenticate_request authenticate has_prefix text_eq trim_space strip_prefix
    to_lower decode_run_request normalize_request choose_privilege choose_mode check_command ltb_ℤ
    check_limits choose_times is_zero choose_sizes check_context normalize_cwd is_abs clean
    allow_cwd find_prefix path_has_prefix contains check_argv check_shell choose_root is_control_key
    is_env_key resolved_prefix validate_control_key validate_entry validate_env find_token
    peer_address record_success client_address forwarded_address request_hash prepare_job entry
    lookup new_lifecycle admit take_lock persist create job_dir is_job_id new_job insert join
    save_metadata write_json_atomic mkdir_existing register idempotency_index_key start_run
    check_run delete before_comma handle_job record_failure_and_exceeded
handlers-refused_example =
    handlers-refused files plain net links cancel_route server server server bad_request_of
      (codes "job-0002") (pos 1) no_files no_files invalid_bearer_token unauthorized
      (answered unauthorized) refl refl refl

-- The log of the job's output.
abbrev logs : Map Text
logs = (codes "/jobs/job-0001/stdout.log", codes "hello") ∷ []

write_timeout-outlasts_example :
    duration_seconds (pos 0) +ℤ pos 5_000_000_000 ≤ℤ write_timeout with_token
unfolding handle_run authenticate_request authenticate has_prefix text_eq trim_space strip_prefix
    to_lower decode_run_request normalize_request choose_privilege choose_mode check_command ltb_ℤ
    check_limits choose_times is_zero choose_sizes check_context normalize_cwd is_abs clean
    allow_cwd find_prefix path_has_prefix contains check_argv check_shell choose_root is_control_key
    is_env_key resolved_prefix validate_control_key validate_entry validate_env find_token
    peer_address record_success client_address forwarded_address request_hash prepare_job entry
    lookup new_lifecycle admit take_lock persist create job_dir is_job_id new_job insert join
    save_metadata write_json_atomic mkdir_existing register idempotency_index_key start_run
    check_run delete before_comma
write_timeout-outlasts_example =
    write_timeout-outlasts links with_token normalized
      (normalize_request-Fits links (uptime (codes "HTTP_PROXY")) normalized with_token refl)
      (omega arith)

-- The answer to a second request for the lock that the first job holds.
handle_run-answered_example :
    (400 ≤ (prepare_error lock_busy).status) × SameJobs served.0.lifecycle served.0.lifecycle
unfolding handle_run authenticate_request authenticate has_prefix text_eq trim_space strip_prefix
    to_lower decode_run_request normalize_request choose_privilege choose_mode check_command ltb_ℤ
    check_limits choose_times is_zero choose_sizes check_context normalize_cwd is_abs clean
    allow_cwd find_prefix path_has_prefix contains check_argv check_shell choose_root is_control_key
    is_env_key resolved_prefix validate_control_key validate_entry validate_env find_token
    peer_address record_success client_address forwarded_address request_hash prepare_job entry
    lookup new_lifecycle admit take_lock persist create job_dir is_job_id new_job insert join
    save_metadata write_json_atomic mkdir_existing register idempotency_index_key start_run
    check_run delete before_comma job_done prepare_error write_error write_error_retry
handle_run-answered_example =
    handle_run-answered files plain net links served.0 served.0 valid_request (codes "job-0002")
      (pos 2) served.2 served.2 (prepare_error lock_busy) refl

abbrev attempts : List (Request × ℤ)
attempts = (bad_request_of, pos 1) ∷ (valid_request, pos 2) ∷ (bad_request_of, pos 3) ∷ []

authenticate_request-throttled_example :
    (l l' : Option Limiter) × (serve_all net with_token (new_limiter with_token.security) attempts
      ≡ some l)
    × (authenticate_request net with_token l bad_request_of (pos 4)
        ≡ some (
          l',
          stopped (
              if ltb 10 (
                count_after (pos 4 -ℤ pos (60 * 1_000_000_000)) (
                  history (codes "192.0.2.1") [] (map (event_of net with_token) attempts)
                  ++ pos 4 ∷ []))
              then rate_limited
              else unauthorized),
        ))
unfolding handle_run authenticate_request authenticate has_prefix text_eq trim_space strip_prefix
    to_lower decode_run_request normalize_request choose_privilege choose_mode check_command ltb_ℤ
    check_limits choose_times is_zero choose_sizes check_context normalize_cwd is_abs clean
    allow_cwd find_prefix path_has_prefix contains check_argv check_shell choose_root is_control_key
    is_env_key resolved_prefix validate_control_key validate_entry validate_env find_token
    peer_address record_success client_address forwarded_address request_hash prepare_job entry
    lookup new_lifecycle admit take_lock persist create job_dir is_job_id new_job insert join
    save_metadata write_json_atomic mkdir_existing register idempotency_index_key start_run
    check_run delete before_comma
authenticate_request-throttled_example =
    authenticate_request-throttled net with_token 10 60 (pos 0) (pos 4) attempts bad_request_of
      invalid_bearer_token refl (omega arith) (omega arith) (omega arith) (omega arith)
      (omega arith) refl

-- The file system in memory keeps the contract.
abbrev written : Map Text → Result (Unit {0}) × Map Text
written m = (ok tt, m)

written-some : (a b : Map Text) → written a ≡ written b → a ≡ b
written-some a b h = ap (λ (x : Result (Unit {0}) × Map Text). x.1) h

inserted : (k b : Text) (m : Map Text) → lookup k (insert k b m) ≡ some b
inserted k b m = rw (lookup-insert k k b m, text_eq_refl k) refl

files-Renames : Renames files
files-Renames = record {
  reads = λ tmp path b fs fs1 fs2 w r.
      let found : lookup tmp fs1 ≡ some b =
        ap (lookup tmp) (sym (written-some (insert tmp b fs) fs1 w)) ∙ inserted tmp b fs in
      let renamed : insert path b (delete tmp fs1) ≡ fs2 =
        written-some (insert path b (delete tmp fs1)) fs2 (rw (files, found) at r) in
      let read : lookup path fs2 ≡ some b =
        ap (lookup path) (sym renamed) ∙ inserted path b (delete tmp fs1) in
      rw (files, read) refl;
}

-- A codec that keeps the state of a result, and knows one result.
abbrev one_result : Json
one_result = record plain { decode_result = λ b. some result }

show_job-saved_example :
    show_job files one_result net start
      (codes "job-0001")
      (save_result files one_result start.store result []).1
    ≡ write_json 200 (
        summary_body (record {
          job_id = codes "job-0001";
          state = state_succeeded;
          started_at = pos 1;
          finished_at = some (pos 2);
          result = some result;
        }))
unfolding save_result job_dir is_job_id text_eq join clean write_json_atomic insert lookup delete
    new_lifecycle get_job entry
show_job-saved_example =
    show_job-saved files one_result net start result state_succeeded no_files
      (save_result files one_result start.store result no_files).1 files-Renames refl refl refl refl
