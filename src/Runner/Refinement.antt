-- ===== src/Runner/Refinement.antt =====
-- The daemon and the helper together: what a job's result says is what the payload has done.
use vpsops.Base.{
  ◌≤◌, ◌^◌, ◌≡◌, refl, sym, ap, ◌∙◌, inl, inr, Bool, false, Option, none, some, Option-cases, List,
  length, take, is_empty, ltb, Text, codes, trim_space, ℤ, pos, pos_part, ◌<ℤ◌, is_zero,
}
use vpsops.Types.{RunRequest, RunResult, Config}
use vpsops.Limiter.{duration_seconds}
use vpsops.Os.{Os, Json, OsError, ok}
use vpsops.Store.{JobStore, open_output}
use vpsops.Capped.{Sink, new_capped_buffer, copy_tee, new_capped_tee_writer}
use vpsops.Capped.Prefix.{concat, write_all-concat}
use vpsops.Capped.Tee.{Accepts}
use vpsops.Child.{
  ChildSpec, ChildJson, Exec, PayloadRun, Ending, in_time, within_grace, after_grace, exit_status,
  default_times, payload_command, run_payload, child_main, await_payload, payload_result,
}
use vpsops.Child.Payload.{Launch-cases}
use vpsops.Child.Exit.{child_main-code}
use vpsops.Runner.{
  HelperRun, Sudo, helper_ran, helper_result, helper_command, helper_timeout,
  child_spec_from_request, copy_both, run_via_child,
}
use vpsops.Runner.Helper.{decode_child_result-write, copy_both-write_all}

payload_result-state :
    (ending : Ending) (o s : Bool)
    → let (e, t, signals) = await_payload ending in is_empty (payload_result e t o s).state ≡ false
unfolding await_payload payload_result exit_status is_zero
payload_result-state (in_time none) o s = refl
payload_result-state (in_time (some e)) o s = refl
payload_result-state (within_grace e) o s = refl
payload_result-state (after_grace e) o s = refl

-- Every result of a payload names a state.
run_payload-state :
    (sink : Sink) (exec : Exec) (given : ChildSpec) (stdout stderr : sink.State)
    → is_empty (run_payload sink exec given stdout stderr).result.state ≡ false
unfolding run_payload
run_payload-state sink exec given stdout stderr =
    let spec = default_times given in
    elim (Option-cases (payload_command spec)) [
      | inl bad ↦ rw (run_payload, bad) refl
      | inr (cmd, good) ↦
          elim (Launch-cases
            (exec cmd (duration_seconds spec.timeout_sec) (duration_seconds spec.kill_grace_sec))) [
              | inl (e, failed) ↦ rw (run_payload, good, failed) refl
              | inr (r, started) ↦
                  rw (run_payload, good, started)
                    (payload_result-state r.ending
                      (copy_tee sink (new_capped_tee_writer sink stdout spec.max_stdout_log_bytes)
                        r.stdout).0.truncated
                      (copy_tee sink (new_capped_tee_writer sink stderr spec.max_stderr_log_bytes)
                        r.stderr).0.truncated)
            ]
    ]

-- The result of a job agrees with what its payload's run has left.
pub record Agrees (sink : Sink) (req : RunRequest) (run : PayloadRun sink.State) (res : RunResult)
    : Type 0 where
  pub state : res.state ≡ run.result.state
  pub exit_code : res.exit_code ≡ run.result.exit_code
  pub signal : res.signal ≡ run.result.signal
  pub timed_out : res.timed_out ≡ run.result.timed_out
  pub error : res.error ≡ run.result.error
  pub stdout : res.stdout ≡ take (pos_part req.max_stdout_bytes) (sink.contents run.stdout)
  pub stderr : res.stderr ≡ take (pos_part req.max_stderr_bytes) (sink.contents run.stderr)
  pub stdout_truncated :
      res.stdout_truncated ≡ ltb (pos_part req.max_stdout_bytes) (length (sink.contents run.stdout))
  pub stderr_truncated :
      res.stderr_truncated ≡ ltb (pos_part req.max_stderr_bytes) (length (sink.contents run.stderr))
  pub log_truncated :
      (res.stdout_log_truncated ≡ run.result.stdout_log_truncated)
      × (res.stderr_log_truncated ≡ run.result.stderr_log_truncated)

-- The pipes between a helper and the daemon: the daemon reads what the helper has written.
pub record Piped (sink : Sink) (written : Text) (run : PayloadRun sink.State) (r : HelperRun)
    : Type 0 where
  pub stdout : concat r.stdout ≡ sink.contents run.stdout
  pub stderr : concat r.stderr ≡ sink.contents run.stderr
  pub result : r.result ≡ inr written

-- What the daemon keeps of a stream.
kept_stream :
    (files : Sink) (file : files.State) (limit : ℤ) (ps : List Text) (whole : Text)
    → Accepts files
    → limit <ℤ pos (2 ^ 63)
    → concat ps ≡ whole
    → let buf = (copy_both files file (new_capped_buffer limit) ps).1 in
      (buf.buf ≡ take (pos_part limit) whole)
      × (buf.truncated ≡ ltb (pos_part limit) (length whole))
kept_stream files file limit ps whole law l same =
    rw (copy_both-write_all files file (new_capped_buffer limit) ps law, sym same)
      (write_all-concat limit ps l)

-- The end of a helper whose result is decoded.
helper_result-Agrees :
    (json : ChildJson) (files sink : Sink) (job_id : Text) (req : RunRequest) (started finished : ℤ)
    (f g : files.State) (r : HelperRun) (run : PayloadRun sink.State) (written : Text)
    → Accepts files
    → req.max_stdout_bytes <ℤ pos (2 ^ 63)
    → req.max_stderr_bytes <ℤ pos (2 ^ 63)
    → json.decode_child (trim_space written) ≡ inr run.result
    → is_empty (trim_space written) ≡ false
    → length written ≤ 65_536
    → is_empty run.result.state ≡ false
    → Piped sink written run r
    → Agrees sink req run (helper_result json files job_id req started finished f g r)
unfolding helper_result
helper_result-Agrees json files sink job_id req started finished f g r run written files_law lo le
      decodes visible short named pipes =
    let read =
      decode_child_result-write json run.result written r.wait decodes visible short named in
    let (outs, out_cut) =
      kept_stream files f req.max_stdout_bytes r.stdout (sink.contents run.stdout) files_law lo
        pipes.stdout in
    let (errs, err_cut) =
      kept_stream files g req.max_stderr_bytes r.stderr (sink.contents run.stderr) files_law le
        pipes.stderr in
    rw (helper_result, pipes.result, read)
      (record {
        state = refl;
        exit_code = refl;
        signal = refl;
        timed_out = refl;
        error = refl;
        stdout = outs;
        stderr = errs;
        stdout_truncated = out_cut;
        stderr_truncated = err_cut;
        log_truncated = (refl, refl);
      })

-- Both processes of a job, joined by pipes that lose nothing. Let the two log files open and take
-- all that is written to them, the request go through to the helper, the helper run, and its result
-- be encoded in at most 64 KiB that are not blank and decode to that result again. Then the result
-- of runViaChild says of the payload's run of exactly this request (with the environment cleaned)
-- what the helper says: its state, exit code, signal, timeout, error and truncation of the logs; and
-- it shows the first bytes, up to the request's limits, of what the helper has passed on, marked as
-- truncated exactly when there is more.
pub run_via_child-Agrees :
    (os : Os) (stored : Json) (error_text : OsError → Text) (json : ChildJson) (files sink : Sink)
    (open_file : Text → files.State) (sudo : Sudo) (exec : Exec) (cfg : Config) (store : JobStore)
    (job_id : Text) (req : RunRequest) (started finished : ℤ) (fs : os.Fs)
    (out_path err_path input written : Text) (code : ℤ) (stdout stderr : sink.State) (r : HelperRun)
    (run : PayloadRun sink.State)
    → Accepts files
    → req.max_stdout_bytes <ℤ pos (2 ^ 63)
    → req.max_stderr_bytes <ℤ pos (2 ^ 63)
    → (open_output os stored store job_id (codes "stdout.log") fs).0 ≡ ok out_path
    → (open_output os stored store job_id
        (codes "stderr.log")
        (open_output os stored store job_id (codes "stdout.log") fs).1).0
      ≡ ok err_path
    → json.encode_spec (child_spec_from_request req cfg) ≡ inr input
    → json.decode_spec (take 1_048_576 input) ≡ inr (child_spec_from_request req cfg)
    → sudo (helper_command cfg req input) (helper_timeout req) ≡ helper_ran r
    → child_main sink exec json req.privilege input stdout stderr ≡ (code, written, some run)
    → json.encode_child run.result ≡ some written
    → json.decode_child (trim_space written) ≡ inr run.result
    → is_empty (trim_space written) ≡ false
    → length written ≤ 65_536
    → Piped sink written run r
    → (run ≡ run_payload sink exec (child_spec_from_request req cfg) stdout stderr)
      × Agrees sink req run
          (run_via_child os stored error_text json files open_file sudo cfg store job_id req started
            finished fs).0
unfolding run_via_child
run_via_child-Agrees os stored error_text json files sink open_file sudo exec cfg store job_id req
      started finished fs out_path err_path input written code stdout stderr r run files_law lo le
      opened_out opened_err sent received helped child encoded decodes visible short pipes =
    let spec = child_spec_from_request req cfg in
    let (low, high, zero_code, asked) =
      child_main-code sink exec json req.privilege input stdout stderr in
    let (spec', decoded, named, same) =
      asked run (ap (λ (x : ℤ × Text × Option (PayloadRun sink.State)). x.2) child) in
    let same_spec : spec' ≡ spec = let both : inr spec' ≡ inr spec = sym decoded ∙ received in cc in
    let same_run : run ≡ run_payload sink exec spec stdout stderr =
      same ∙ ap (λ s. run_payload sink exec s stdout stderr) same_spec in
    let named_state : is_empty run.result.state ≡ false =
      ap (λ (x : PayloadRun sink.State). is_empty x.result.state) same_run
      ∙ run_payload-state sink exec spec stdout stderr in
    (
      same_run,
      rw (run_via_child, opened_out, opened_err, sent, helped)
          (helper_result-Agrees json files sink job_id req started finished (open_file out_path)
            (open_file err_path) r run written files_law lo le decodes visible short named_state
            pipes),
    )
