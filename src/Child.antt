-- ===== src/Child.antt =====
-- internal/execd/child.go: the helper process that sudo starts, and the payload that it runs. What
-- package os/exec and the payload do is a parameter: which case of each `select` comes first is
-- part of it, so that a theorem holds for every order.
pub mod Payload
pub mod Exit
use vpsops.Base.{
  ℕ, Bool, true, false, Option, none, some, List, [], ◌∷◌, ◌++◌, ◌&&◌, ◌||◌, not, is_empty, take,
  if◌then◌else◌, Text, codes, text_eq, ◌⊎◌, inl, inr, ℤ, pos, negsuc, ◌+ℤ◌, ltb_ℤ, leb_ℤ, is_zero,
  wrap64,
}
use vpsops.Types.{
  ExecutionConfig, state_succeeded, state_failed, state_timed_out, state_start_failed,
}
use vpsops.Limiter.{duration_seconds}
use vpsops.Capped.{Sink, new_capped_tee_writer, copy_tee}

-- childSpec of types.go, but for its field Extra, which nothing sets or reads
pub record ChildSpec : Type 0 where
  pub mode : Text
  pub cmd : Text
  pub argv : List Text
  pub privilege : Text
  pub cwd : Text
  pub env : List Text
  pub stdin : Text
  pub timeout_sec : ℤ
  pub kill_grace_sec : ℤ
  pub max_stdout_log_bytes : ℤ
  pub max_stderr_log_bytes : ℤ
  pub execution : ExecutionConfig

-- childResult of types.go
pub record ChildResult : Type 0 where
  pub state : Text
  pub exit_code : ℤ
  pub signal : Option Text
  pub timed_out : Bool
  pub stdout_log_truncated : Bool
  pub stderr_log_truncated : Bool
  pub error : Text

-- A syscall.WaitStatus: ExitStatus() is -1 unless the process has exited.
pub data WaitStatus : Type 0 where
  exited : ℤ → WaitStatus
  signaled : Text → WaitStatus
  stopped_or_continued : WaitStatus

-- An error of cmd.Wait(): the status where it is an *exec.ExitError that holds one, whether it is
-- context.DeadlineExceeded, and its text.
pub record WaitError : Type 0 where
  pub status : Option WaitStatus
  pub is_deadline : Bool
  pub text : Text

-- An *exec.Cmd before Start: `none` in place of Env stands for the environment of the daemon. The
-- payload and the helper each lead a process group of their own.
pub record Command : Type 0 where
  pub path : Text
  pub args : List Text
  pub dir : Text
  pub env : Option (List Text)
  pub stdin : Option Text
  pub wait_delay : ℤ

-- How the wait for the payload ends, with the error of cmd.Wait(): before the timeout, after it but
-- before the grace is over, or later.
pub data Ending : Type 0 where
  in_time within_grace after_grace : Option WaitError → Ending

-- What is read of each of the payload's output streams, chunk by chunk, and the end.
pub record Ran : Type 0 where
  pub stdout : List Text
  pub stderr : List Text
  pub ending : Ending

-- `not_started` is the error of the first of StdoutPipe, StderrPipe and Start that fails.
pub data Launch : Type 0 where
  not_started : Text → Launch
  ran : Ran → Launch

pub data Signal : Type 0 where
  sigterm sigkill : Signal

-- The codec of what passes between the two processes: json.Marshal, Decode of the first value and
-- json.Unmarshal, each with the text of its error, and Encode, `none` for an error.
pub record ChildJson : Type 0 where
  pub encode_spec : ChildSpec → Text ⊎ Text
  pub decode_spec : Text → Text ⊎ ChildSpec
  pub encode_child : ChildResult → Option Text
  pub decode_child : Text → Text ⊎ ChildResult

-- exitStatus
unfoldable pub exit_status : Option WaitError → ℤ × Option Text
exit_status none = (pos 0, none)
exit_status (some e) = elim e.status [
  | some (signaled s) ↦ (negsuc 0, some s)
  | some (exited code) ↦ (code, none)
  | some stopped_or_continued ↦ (negsuc 0, none)
  | none ↦ (negsuc 0, none)
]

abbrev pub start_failure : Text → ChildResult
start_failure error = record {
  state = state_start_failed;
  exit_code = negsuc 0;
  signal = none;
  timed_out = false;
  stdout_log_truncated = false;
  stderr_log_truncated = false;
  error = error;
}

-- stringsReader
unfoldable pub strings_reader : Text → Option Text
strings_reader s = if is_empty s then none else some s

-- The defaults at the start of runPayload.
unfoldable pub default_times : ChildSpec → ChildSpec
default_times spec = record spec {
  timeout_sec = if ltb_ℤ spec.timeout_sec (pos 1) then pos 30 else spec.timeout_sec;
  kill_grace_sec = if ltb_ℤ spec.kill_grace_sec (pos 1) then pos 3 else spec.kill_grace_sec;
}

-- The command of runPayload; `none` is its "argv[0] is required".
unfoldable pub payload_command : ChildSpec → Option Command
unfolding strings_reader
payload_command spec =
    elim (if text_eq spec.mode (codes "argv")
      then argv_command spec.argv
      else some (spec.execution.shell_path, spec.execution.shell_args ++ spec.cmd ∷ [])) [
        | none ↦ none
        | some (path, args) ↦ some (record {
          path = path;
          args = args;
          dir = spec.cwd;
          env = some spec.env;
          stdin = strings_reader spec.stdin;
          wait_delay = duration_seconds (wrap64 (spec.kill_grace_sec +ℤ pos 1));
        })
      ]
  where
    argv_command : List Text → Option (Text × List Text)
    argv_command [] = none
    argv_command (path ∷ args) = if is_empty path then none else some (path, args)

-- waitErr and timedOut behind the select, and the signals that the process group got.
unfoldable pub await_payload : Ending → Option WaitError × Bool × List Signal
await_payload (in_time e) = (e, false, [])
await_payload (within_grace e) = (e, true, sigterm ∷ [])
await_payload (after_grace e) = (e, true, sigterm ∷ sigkill ∷ [])

-- The result that runPayload builds from waitErr, timedOut and the flags of the writers.
unfoldable pub payload_result : Option WaitError → Bool → Bool → Bool → ChildResult
unfolding exit_status
payload_result wait_err timed_out stdout_truncated stderr_truncated =
    let (exit_code, signal) = exit_status wait_err in
    record {
      state =
          if timed_out
          then state_timed_out
          else if failed_wait wait_err || not (is_zero exit_code)
          then state_failed
          else state_succeeded;
      exit_code = exit_code;
      signal = signal;
      timed_out = timed_out;
      stdout_log_truncated = stdout_truncated;
      stderr_log_truncated = stderr_truncated;
      error = wait_text wait_err;
    }
  where
    failed_wait : Option WaitError → Bool
    failed_wait none = false
    failed_wait (some e) = true

    wait_text : Option WaitError → Text
    wait_text none = []
    wait_text (some e) = if e.is_deadline then [] else e.text

-- What os/exec does with a payload's command, given the timeout and the grace in nanoseconds.
abbrev pub Exec : Type 0
Exec = Command → ℤ → ℤ → Launch

-- What a run of the payload leaves: the result, what the helper's own output streams hold, and the
-- signals sent.
pub record PayloadRun (S : Type 0) : Type 0 where
  pub result : ChildResult
  pub stdout : S
  pub stderr : S
  pub signals : List Signal

module _ (sink : Sink) (exec : Exec) where
  open sink use {State}

  -- runPayload
  unfoldable pub run_payload : ChildSpec → State → State → PayloadRun State
  unfolding await_payload
  run_payload given stdout stderr =
      let spec = default_times given in
      elim (payload_command spec) [
        | none ↦ record {
          result = start_failure (codes "argv[0] is required");
          stdout = stdout;
          stderr = stderr;
          signals = [];
        }
        | some cmd ↦
            elim (exec cmd (duration_seconds spec.timeout_sec)
              (duration_seconds spec.kill_grace_sec)) [
                | not_started e ↦ record {
                  result = start_failure e;
                  stdout = stdout;
                  stderr = stderr;
                  signals = [];
                }
                | ran r ↦
                    let out =
                      (copy_tee sink (new_capped_tee_writer sink stdout spec.max_stdout_log_bytes)
                        r.stdout).0 in
                    let err =
                      (copy_tee sink (new_capped_tee_writer sink stderr spec.max_stderr_log_bytes)
                        r.stderr).0 in
                    let (wait_err, timed_out, signals) = await_payload r.ending in
                    record {
                      result = payload_result wait_err timed_out out.truncated err.truncated;
                      stdout = out.dst;
                      stderr = err.dst;
                      signals = signals;
                    }
              ]
      ]

  -- writeChildResult: what stands in the pipe behind file descriptor 3
  unfoldable pub write_child_result : ChildJson → ChildResult → Text
  write_child_result json res = elim (json.encode_child res) [ none ↦ [] | some b ↦ b ]

  -- ChildMain: the exit code, what it writes to the result's pipe, and the run of the payload if
  -- there was one
  unfoldable pub child_main :
      ChildJson → Text → Text → State → State → ℤ × Text × Option (PayloadRun State)
  unfolding write_child_result
  child_main json privilege input stdout stderr = elim (json.decode_spec (take 1_048_576 input)) [
    | inl e ↦ (pos 125, write_child_result json (start_failure (codes "decode spec: " ++ e)), none)
    | inr spec ↦
        if not (text_eq spec.privilege privilege)
        then (pos 125, write_child_result json (start_failure (codes "privilege mismatch")), none)
        else (let run = run_payload spec stdout stderr in
            (
              if text_eq run.result.state state_succeeded
                  then pos 0
                  else if leb_ℤ (pos 0) run.result.exit_code && leb_ℤ run.result.exit_code (pos 125)
                  then run.result.exit_code
                  else pos 125,
              write_child_result json run.result,
              some run,
            ))
  ]
