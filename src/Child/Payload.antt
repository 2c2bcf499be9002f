-- ===== src/Child/Payload.antt =====
-- What the helper makes of a payload's run: the states, the signals and the exit code.
use vpsops.Base.{
  ◌^◌, ◌≡◌, ◌≢◌, ◌↔◌, refl, sym, ap, ◌⊎◌, inl, inr, Bool, true, false, Option, none, some,
  Option-cases, List, [], ◌∷◌, ◌++◌, length, take, ltb, Text, text_eq, pos, negsuc, pos_part, ◌<ℤ◌,
  is_zero, ℤ, codes, if◌then◌else◌,
}
use vpsops.Types.{state_succeeded, state_failed, state_timed_out, state_start_failed}
use vpsops.Limiter.{duration_seconds}
use vpsops.Capped.{Sink, copy_tee, new_capped_tee_writer}
use vpsops.Capped.Tee.{Accepts, copy_tee-concat}
use vpsops.Capped.Prefix.{concat}
use vpsops.Child.{
  ChildSpec, ChildResult, Command, Launch, not_started, ran, Ran, Ending, in_time, within_grace,
  after_grace, Signal, sigterm, sigkill, WaitStatus, exited, signaled, stopped_or_continued,
  WaitError, Exec, PayloadRun, default_times, payload_command, exit_status, payload_result,
  await_payload, run_payload,
}

pub Launch-cases : (l : Launch) → ((e : Text) × (l ≡ not_started e)) ⊎ ((r : Ran) × (l ≡ ran r))
Launch-cases (not_started e) = inl (e, refl)
Launch-cases (ran r) = inr (r, refl)

-- The states of the results are told apart.
timed_out-succeeded : state_timed_out ≢ state_succeeded
unfolding text_eq
timed_out-succeeded h = let d : true ≡ false = ap (text_eq state_timed_out) h in absurd cc

failed-succeeded : state_failed ≢ state_succeeded
unfolding text_eq
failed-succeeded h = let d : true ≡ false = ap (text_eq state_failed) h in absurd cc

failed-timed_out : state_failed ≢ state_timed_out
unfolding text_eq
failed-timed_out h = let d : true ≡ false = ap (text_eq state_failed) h in absurd cc

in_time-after_grace : (e f : Option WaitError) → in_time e ≢ after_grace f
in_time-after_grace e f h = cc

in_time-within : (e f : Option WaitError) → in_time e ≢ within_grace f
in_time-within e f h = cc

within-after_grace : (e f : Option WaitError) → within_grace e ≢ after_grace f
within-after_grace e f h = cc

in_time-some : (e : WaitError) → in_time (some e) ≢ in_time none
in_time-some e h = cc

-- The error of cmd.Wait() with which the wait ends.
abbrev pub wait_of : Ending → Option WaitError
wait_of (in_time e) = e
wait_of (within_grace e) = e
wait_of (after_grace e) = e

-- The exit code and the signal that belong to the status in an error of cmd.Wait().
abbrev pub StatusOf : Option WaitStatus → ℤ → Option Text → Type 0
StatusOf none code signal = (code ≡ negsuc 0) × (signal ≡ none)
StatusOf (some (exited n)) code signal = (code ≡ n) × (signal ≡ none)
StatusOf (some (signaled s)) code signal = (code ≡ negsuc 0) × (signal ≡ some s)
StatusOf (some stopped_or_continued) code signal = (code ≡ negsuc 0) × (signal ≡ none)

-- The exit code, the signal and the error text that belong to the outcome of cmd.Wait().
abbrev pub ExitOf : Option WaitError → ChildResult → Type 0
ExitOf none res = (res.exit_code ≡ pos 0) × (res.signal ≡ none) × (res.error ≡ [])
ExitOf (some e) res =
    StatusOf e.status res.exit_code res.signal
    × (res.error ≡ (if e.is_deadline then [] else e.text))

-- What the result and the signals say of the wait's end.
pub record Reports (ending : Ending) (res : ChildResult) (signals : List Signal) : Type 0 where
  pub success : (res.state ≡ state_succeeded) ↔ (ending ≡ in_time none)
  pub failure : (res.state ≡ state_failed) ↔ ((e : WaitError) × (ending ≡ in_time (some e)))
  pub success_code : res.state ≡ state_succeeded → res.exit_code ≡ pos 0
  pub timeout : (res.state ≡ state_timed_out) ↔ (res.timed_out ≡ true)
  pub punctual : (res.timed_out ≡ false) ↔ ((e : Option WaitError) × (ending ≡ in_time e))
  pub spared : (signals ≡ []) ↔ (res.timed_out ≡ false)
  pub termed : (signals ≡ sigterm ∷ []) ↔ ((e : Option WaitError) × (ending ≡ within_grace e))
  pub killed :
      (signals ≡ sigterm ∷ sigkill ∷ []) ↔ ((e : Option WaitError) × (ending ≡ after_grace e))
  pub exit : ExitOf (wait_of ending) res

exit_status-StatusOf :
    (e : WaitError) (status : Option WaitStatus)
    → e.status ≡ status
    → let (code, signal) = exit_status (some e) in StatusOf status code signal
unfolding exit_status
exit_status-StatusOf e none h = rw h (refl, refl)
exit_status-StatusOf e (some (exited n)) h = rw h (refl, refl)
exit_status-StatusOf e (some (signaled s)) h = rw h (refl, refl)
exit_status-StatusOf e (some stopped_or_continued) h = rw h (refl, refl)

payload_result-ExitOf :
    (wait_err : Option WaitError) (late o s : Bool)
    → ExitOf wait_err (payload_result wait_err late o s)
unfolding payload_result exit_status
payload_result-ExitOf none late o s = (refl, refl, refl)
payload_result-ExitOf (some e) late o s = (exit_status-StatusOf e e.status refl, refl)

pub payload_result-Reports :
    (ending : Ending) (o s : Bool)
    → let (e, t, signals) = await_payload ending in Reports ending (payload_result e t o s) signals
unfolding payload_result await_payload exit_status is_zero
payload_result-Reports (in_time none) o s = record {
  success = (λ h. refl, λ h. refl);
  failure = (λ h. absurd (failed-succeeded (sym h)), λ h. absurd (in_time-some h.0 (sym h.1)));
  success_code = λ h. refl;
  timeout = (λ h. absurd (timed_out-succeeded (sym h)), λ h. absurd cc);
  punctual = (λ h. (none, refl), λ h. refl);
  spared = (λ h. refl, λ h. refl);
  termed = (λ h. absurd cc, λ h. absurd (in_time-within none h.0 h.1));
  killed = (λ h. absurd cc, λ h. absurd (in_time-after_grace none h.0 h.1));
  exit = payload_result-ExitOf none false o s;
}
payload_result-Reports (in_time (some e)) o s = record {
  success = (λ h. absurd (failed-succeeded h), λ h. absurd (in_time-some e h));
  failure = (λ h. (e, refl), λ h. refl);
  success_code = λ h. absurd (failed-succeeded h);
  timeout = (λ h. absurd (failed-timed_out h), λ h. absurd cc);
  punctual = (λ h. (some e, refl), λ h. refl);
  spared = (λ h. refl, λ h. refl);
  termed = (λ h. absurd cc, λ h. absurd (in_time-within (some e) h.0 h.1));
  killed = (λ h. absurd cc, λ h. absurd (in_time-after_grace (some e) h.0 h.1));
  exit = payload_result-ExitOf (some e) false o s;
}
payload_result-Reports (within_grace e) o s = record {
  success = (λ h. absurd (timed_out-succeeded h), λ h. absurd (in_time-within none e (sym h)));
  failure =
      (λ h. absurd (failed-timed_out (sym h)), λ h. absurd (in_time-within (some h.0) e (sym h.1)));
  success_code = λ h. absurd (timed_out-succeeded h);
  timeout = (λ h. refl, λ h. refl);
  punctual = (λ h. absurd cc, λ h. absurd (in_time-within h.0 e (sym h.1)));
  spared = (λ h. absurd cc, λ h. absurd cc);
  termed = (λ h. (e, refl), λ h. refl);
  killed = (λ h. absurd cc, λ h. absurd (within-after_grace e h.0 h.1));
  exit = payload_result-ExitOf e true o s;
}
payload_result-Reports (after_grace e) o s = record {
  success = (λ h. absurd (timed_out-succeeded h), λ h. absurd (in_time-after_grace none e (sym h)));
  failure = (
    λ h. absurd (failed-timed_out (sym h)),
    λ h. absurd (in_time-after_grace (some h.0) e (sym h.1)),
  );
  success_code = λ h. absurd (timed_out-succeeded h);
  timeout = (λ h. refl, λ h. refl);
  punctual = (λ h. absurd cc, λ h. absurd (in_time-after_grace h.0 e (sym h.1)));
  spared = (λ h. absurd cc, λ h. absurd cc);
  termed = (λ h. absurd cc, λ h. absurd (within-after_grace h.0 e (sym h.1)));
  killed = (λ h. (e, refl), λ h. refl);
  exit = payload_result-ExitOf e true o s;
}

-- What runPayload leaves of a payload that has run.
pub record Kept (sink : Sink) (given : ChildSpec) (stdout stderr : sink.State) (r : Ran)
    (run : PayloadRun sink.State) : Type 0 where
  pub out :
      sink.contents run.stdout
      ≡ sink.contents stdout ++ take (pos_part given.max_stdout_log_bytes) (concat r.stdout)
  pub err :
      sink.contents run.stderr
      ≡ sink.contents stderr ++ take (pos_part given.max_stderr_log_bytes) (concat r.stderr)
  pub out_cut :
      run.result.stdout_log_truncated
      ≡ ltb (pos_part given.max_stdout_log_bytes) (length (concat r.stdout))
  pub err_cut :
      run.result.stderr_log_truncated
      ≡ ltb (pos_part given.max_stderr_log_bytes) (length (concat r.stderr))

-- A payload that the helper cannot start, for the reason `error`, leaves nothing.
pub record NotStarted (sink : Sink) (stdout stderr : sink.State) (error : Text)
    (run : PayloadRun sink.State) : Type 0 where
  pub state : run.result.state ≡ state_start_failed
  pub exit_code : run.result.exit_code ≡ negsuc 0
  pub error_text : run.result.error ≡ error
  pub timed_out : run.result.timed_out ≡ false
  pub streams : (run.stdout ≡ stdout) × (run.stderr ≡ stderr)
  pub signals : run.signals ≡ []

-- Whatever the payload does and whichever case of a select comes first: if there is no command to
-- run or it cannot be started, the state is start_failed with that error, no signal is sent and no
-- output is passed on. If it runs, the helper passes on the first bytes of each stream up to its
-- int64 limit, to destinations that take all that they are given, and reports truncation exactly
-- when there were more; the state is succeeded exactly if the wait ended in time without an error,
-- failed exactly if it ended in time with one, and timed_out exactly if it did not end in time. The
-- process group gets SIGTERM alone exactly if the wait ended within the grace, and SIGTERM and then
-- SIGKILL exactly if it ended later. Exit code, signal and error text are those of the wait's error.
pub run_payload-Reports :
    (sink : Sink) (exec : Exec) (given : ChildSpec) (stdout stderr : sink.State)
    → Accepts sink
    → given.max_stdout_log_bytes <ℤ pos (2 ^ 63)
    → given.max_stderr_log_bytes <ℤ pos (2 ^ 63)
    → let run = run_payload sink exec given stdout stderr in
      let spec = default_times given in
      ((payload_command spec ≡ none)
        × NotStarted sink stdout stderr (codes "argv[0] is required") run)
      ⊎ ((cmd : Command) × (launch : Launch) × (payload_command spec ≡ some cmd)
          × (exec cmd (duration_seconds spec.timeout_sec) (duration_seconds spec.kill_grace_sec)
              ≡ launch)
          × (((e : Text) × (launch ≡ not_started e) × NotStarted sink stdout stderr e run)
              ⊎ ((r : Ran) × (launch ≡ ran r)
                  × Kept sink given stdout stderr r run
                  × Reports r.ending run.result run.signals)))
unfolding run_payload default_times payload_result
run_payload-Reports sink exec given stdout stderr law lo le =
    let spec = default_times given in
    elim (Option-cases (payload_command spec)) [
      | inl bad ↦ inl (
        bad,
        rw (run_payload, bad)
            (record {
              state = refl;
              exit_code = refl;
              error_text = refl;
              timed_out = refl;
              streams = (refl, refl);
              signals = refl;
            }),
      )
      | inr (cmd, good) ↦
          elim (Launch-cases
            (exec cmd (duration_seconds spec.timeout_sec) (duration_seconds spec.kill_grace_sec))) [
              | inl (e, failed) ↦ inr (
                cmd,
                not_started e,
                good,
                failed,
                inl (
                  e,
                  refl,
                  rw (run_payload, good, failed)
                      (record {
                        state = refl;
                        exit_code = refl;
                        error_text = refl;
                        timed_out = refl;
                        streams = (refl, refl);
                        signals = refl;
                      }),
                ),
              )
              | inr (r, started) ↦
                  let (out_done, out, out_cut) =
                    copy_tee-concat sink stdout given.max_stdout_log_bytes r.stdout law lo in
                  let (err_done, err, err_cut) =
                    copy_tee-concat sink stderr given.max_stderr_log_bytes r.stderr law le in
                  inr (
                    cmd,
                    ran r,
                    good,
                    started,
                    inr (
                      r,
                      refl,
                      rw (run_payload, good, started)
                          (record { out = out; err = err; out_cut = out_cut; err_cut = err_cut }),
                      rw (run_payload, good, started)
                          (payload_result-Reports r.ending
                            (copy_tee sink
                              (new_capped_tee_writer sink stdout given.max_stdout_log_bytes)
                              r.stdout).0.truncated
                            (copy_tee sink
                              (new_capped_tee_writer sink stderr given.max_stderr_log_bytes)
                              r.stderr).0.truncated),
                    ),
                  )
            ]
    ]
