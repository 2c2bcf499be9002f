-- ===== src/Runner.antt =====
-- internal/execd/runner.go: the daemon's side of a job. The helper process is a parameter: what its
-- pipes give, and what cmd.Wait() says. What the copies write to the job's log files goes to a
-- `Sink`. Times are arguments.
pub mod Helper
pub mod Refinement
pub mod Deadlines
pub mod Privilege
pub mod JobId
pub mod Tests
use vpsops.Base.{
  ℕ, ◌/◌, ◌^◌, suc, Bool, true, false, Option, none, some, List, [], ◌∷◌, ◌++◌, ◌&&◌, ◌||◌, not,
  is_empty, take, map, if◌then◌else◌, ltb, leb, ◌==◌, ◌+◌, ◌-◌, ◌*◌, ◌%◌, Text, codes, text_eq,
  trim_space, ◌⊎◌, inl, inr, ℤ, pos, negsuc, ◌+ℤ◌, ◌-ℤ◌, ltb_ℤ, leb_ℤ, is_zero, wrap64,
}
use vpsops.Types.{RunRequest, RunResult, Config, privilege_root, state_failed, state_start_failed}
use vpsops.Limiter.{duration_seconds}
use vpsops.Os.{Os, Json, OsError, Result, ok, err}
use vpsops.Store.{JobStore, open_output}
use vpsops.Validation.{clean_env}
use vpsops.Capped.{Sink, CappedBuffer, new_capped_buffer, write_buffer}
use vpsops.Child.{ChildSpec, ChildResult, ChildJson, WaitError, Command, exit_status}

-- hex.EncodeToString
abbrev pub hex_digit : ℕ → ℕ
hex_digit n = if ltb n 10 then b'0' + n else b'a' + (n - 10)

abbrev pub hex_encode : List ℕ → Text
hex_encode [] = []
hex_encode (c ∷ cs) = hex_digit (c / 16) ∷ hex_digit (c % 16) ∷ hex_encode cs

-- newJobID: the time's text in the layout 20060102T150405 and eight random bytes, `none` where
-- rand.Reader fails
unfoldable pub new_job_id : Text → Option (List ℕ) → Text
new_job_id now none = now
new_job_id now (some b) = now ++ b'-' ∷ hex_encode b

-- childSpecFromRequest
unfoldable pub child_spec_from_request : RunRequest → Config → ChildSpec
child_spec_from_request req cfg = record {
  mode = req.mode;
  cmd = req.cmd;
  argv = req.argv;
  privilege = req.privilege;
  cwd = req.cwd;
  env = clean_env req.env req.privilege cfg;
  stdin = req.stdin;
  timeout_sec = req.timeout_sec;
  kill_grace_sec = req.kill_grace_sec;
  max_stdout_log_bytes = req.max_stdout_log_bytes;
  max_stderr_log_bytes = req.max_stderr_log_bytes;
  execution = cfg.execution;
}

-- sudoHelperArgs
unfoldable pub sudo_helper_args : Config → Text → List Text
sudo_helper_args cfg privilege =
    codes "-n"
    ∷ codes "-C"
    ∷ codes "4"
    ∷ (if text_eq privilege privilege_root
        then cfg.helpers.root_child_path ∷ []
        else codes "-u" ∷ cfg.execution.run_user ∷ cfg.helpers.run_child_path ∷ [])

-- protocolFailureExit
unfoldable pub protocol_failure_exit : Option WaitError → ℤ × Option Text
protocol_failure_exit none =
    let (code, signal) = exit_status none in (if is_zero code then negsuc 0 else code, signal)
protocol_failure_exit (some e) = exit_status (some e)

-- The results of decodeChildResult where the helper has not kept to the protocol.
unfoldable pub protocol_failure : Option WaitError → Text → ChildResult
unfolding protocol_failure_exit
protocol_failure wait_err error =
    let (exit_code, signal) = protocol_failure_exit wait_err in
    record {
      state = state_failed;
      exit_code = exit_code;
      signal = signal;
      timed_out = false;
      stdout_log_truncated = false;
      stderr_log_truncated = false;
      error = error;
    }

-- decodeChildResult
unfoldable pub decode_child_result : ChildJson → Text → Option WaitError → ChildResult
decode_child_result json bytes wait_err =
    let trimmed = trim_space bytes in
    if not (is_empty trimmed)
    then elim (json.decode_child trimmed) [
      | inl e ↦ protocol_failure wait_err (codes "invalid child result: " ++ e)
      | inr child ↦
          if not (is_empty child.state)
          then child
          else protocol_failure wait_err (codes "invalid child result: missing state")
    ]
    else protocol_failure wait_err (codes "missing child result" ++ wait_note wait_err)
  where
    wait_note : Option WaitError → Text
    wait_note none = []
    wait_note (some e) = codes ": " ++ e.text

-- internalFailure, and the result of a failed Start
unfoldable pub internal_failure : Text → ℤ → ℤ → Text → RunResult
internal_failure job_id started now error = record {
  job_id = job_id;
  state = state_start_failed;
  exit_code = negsuc 0;
  signal = none;
  timed_out = false;
  stdout = [];
  stderr = [];
  stdout_truncated = false;
  stderr_truncated = false;
  stdout_log_truncated = false;
  stderr_log_truncated = false;
  duration_ms = pos 0;
  started_at = started;
  finished_at = now;
  error = error;
}

-- The timeout of helperContext, in nanoseconds.
unfoldable pub helper_timeout : RunRequest → ℤ
helper_timeout req =
    let extra = wrap64 (wrap64 (req.timeout_sec +ℤ req.kill_grace_sec) +ℤ pos 15) in
    duration_seconds (if ltb_ℤ extra (pos 30) then pos 30 else extra)

-- finished.Sub(started).Milliseconds(): the difference saturates, the division truncates.
unfoldable pub milliseconds_between : ℤ → ℤ → ℤ
milliseconds_between started finished = saturated (finished -ℤ started)
  where
    saturated : ℤ → ℤ
    saturated (pos n) = pos ((if ltb n (2 ^ 63) then n else 2 ^ 63 - 1) / 1_000_000)
    saturated (negsuc n) =
        let ms = (if ltb n (2 ^ 63) then suc n else 2 ^ 63) / 1_000_000 in
        if ms == 0 then pos 0 else negsuc (ms - 1)

-- io.Copy into io.MultiWriter(file, buf): a chunk that the file refuses ends the copy, and does not
-- get to the buffer.
unfoldable pub copy_both :
    (sink : Sink) → sink.State → CappedBuffer → List Text → sink.State × CappedBuffer
copy_both sink file buf [] = (file, buf)
copy_both sink file buf (p ∷ ps) =
    let (file', done) = sink.write file p in
    let rest = copy_both sink file' (write_buffer buf p).0 ps in if done then rest else (file', buf)

-- What the helper leaves: the chunks of its two streams, what the pipe of the result holds (or the
-- error of reading it), and the error of cmd.Wait().
pub record HelperRun : Type 0 where
  pub stdout : List Text
  pub stderr : List Text
  pub result : Text ⊎ Text
  pub wait : Option WaitError

-- `no_helper` is the error of the first of StdoutPipe, StderrPipe, os.Pipe and Start that fails.
pub data HelperLaunch : Type 0 where
  no_helper : Text → HelperLaunch
  helper_ran : HelperRun → HelperLaunch

-- What sudo does with its command within a time, in nanoseconds.
abbrev pub Sudo : Type 0
Sudo = Command → ℤ → HelperLaunch

-- The command of runViaChild.
unfoldable pub helper_command : Config → RunRequest → Text → Command
helper_command cfg req spec = record {
  path = cfg.helpers.sudo_path;
  args = sudo_helper_args cfg req.privilege;
  dir = [];
  env = none;
  stdin = some spec;
  wait_delay = duration_seconds (wrap64 (req.kill_grace_sec +ℤ pos 2));
}

module _ (json : ChildJson) (files : Sink) where
  -- The end of runViaChild, behind cmd.Wait().
  unfoldable pub helper_result :
      Text → RunRequest → ℤ → ℤ → files.State → files.State → HelperRun → RunResult
  helper_result job_id req started finished stdout_file stderr_file r = elim r.result [
    | inl e ↦ internal_failure job_id started finished e
    | inr bytes ↦
        let out =
          (copy_both files stdout_file (new_capped_buffer req.max_stdout_bytes) r.stdout).1 in
        let err =
          (copy_both files stderr_file (new_capped_buffer req.max_stderr_bytes) r.stderr).1 in
        let child = decode_child_result json (take 65_536 bytes) r.wait in
        record {
          job_id = job_id;
          state = child.state;
          exit_code = child.exit_code;
          signal = child.signal;
          timed_out = child.timed_out;
          stdout = out.buf;
          stderr = err.buf;
          stdout_truncated = out.truncated;
          stderr_truncated = err.truncated;
          stdout_log_truncated = child.stdout_log_truncated;
          stderr_log_truncated = child.stderr_log_truncated;
          duration_ms = milliseconds_between started finished;
          started_at = started;
          finished_at = finished;
          error = child.error;
        }
  ]

module _ (os : Os) (stored : Json) (error_text : OsError → Text) (json : ChildJson) (files : Sink)
    (open_file : Text → files.State) (sudo : Sudo) where
  open os use {Fs}

  -- runViaChild under helperContext: the result, and the file system with the two log files created
  unfoldable pub run_via_child : Config → JobStore → Text → RunRequest → ℤ → ℤ → Fs → RunResult × Fs
  unfolding helper_result
  run_via_child cfg store job_id req started finished fs =
      let (out_file, fs1) = open_output os stored store job_id (codes "stdout.log") fs in
      elim out_file [
        | err e ↦ (internal_failure job_id started finished (error_text e), fs1)
        | ok out_path ↦
            let (err_file, fs2) = open_output os stored store job_id (codes "stderr.log") fs1 in
            elim err_file [
              | err e ↦ (internal_failure job_id started finished (error_text e), fs2)
              | ok err_path ↦ elim (json.encode_spec (child_spec_from_request req cfg)) [
                | inl e ↦ (internal_failure job_id started finished e, fs2)
                | inr spec ↦ elim (sudo (helper_command cfg req spec) (helper_timeout req)) [
                  | no_helper e ↦ (internal_failure job_id started finished e, fs2)
                  | helper_ran r ↦ (
                    helper_result json files job_id req started finished (open_file out_path)
                        (open_file err_path) r,
                    fs2,
                  )
                ]
              ]
            ]
      ]
