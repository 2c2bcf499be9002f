-- ===== src/Child/Exit.antt =====
-- The exit code of the helper process.
use vpsops.Base.{
  ◌≡◌, ◌≢◌, ◌↔◌, refl, sym, ap, ◌∙◌, inl, inr, true, false, Bool-cases, Sum-cases, none, some,
  Option-cases, ◌&&◌, take, if◌then◌else◌, Text, text_eq, text_eq-true, ℤ, pos, pos_part, ◌≤ℤ◌,
  leb_ℤ, arith,
}
use vpsops.Types.{state_succeeded, state_start_failed}
use vpsops.Limiter.{duration_seconds}
use vpsops.Capped.{Sink, copy_tee, new_capped_tee_writer}
use vpsops.Child.{
  ChildSpec, ChildJson, Exec, PayloadRun, default_times, payload_command, run_payload, child_main,
}
use vpsops.Child.Payload.{Launch-cases, payload_result-Reports}

start_failed-succeeded : state_start_failed ≢ state_succeeded
unfolding text_eq
start_failed-succeeded h = let d : true ≡ false = ap (text_eq state_start_failed) h in absurd cc

-- A payload that succeeded has exit code 0.
run_payload-success_code :
    (sink : Sink) (exec : Exec) (given : ChildSpec) (stdout stderr : sink.State)
    → (run_payload sink exec given stdout stderr).result.state ≡ state_succeeded
    → (run_payload sink exec given stdout stderr).result.exit_code ≡ pos 0
unfolding run_payload
run_payload-success_code sink exec given stdout stderr =
    let spec = default_times given in
    elim (Option-cases (payload_command spec)) [
      | inl bad ↦ rw (run_payload, bad) (λ h. absurd (start_failed-succeeded h))
      | inr (cmd, good) ↦
          elim (Launch-cases
            (exec cmd (duration_seconds spec.timeout_sec) (duration_seconds spec.kill_grace_sec))) [
              | inl (e, failed) ↦
                  rw (run_payload, good, failed) (λ h. absurd (start_failed-succeeded h))
              | inr (r, started) ↦
                  rw (run_payload, good, started)
                    (payload_result-Reports r.ending
                      (copy_tee sink (new_capped_tee_writer sink stdout spec.max_stdout_log_bytes)
                        r.stdout).0.truncated
                      (copy_tee sink (new_capped_tee_writer sink stderr spec.max_stderr_log_bytes)
                        r.stderr).0.truncated).success_code
            ]
    ]

-- The exit code of ChildMain for a result.
code_of_result :
    (state : Text) (code : ℤ)
    → (state ≡ state_succeeded → code ≡ pos 0)
    → let exit =
        if text_eq state state_succeeded
        then pos 0
        else if leb_ℤ (pos 0) code && leb_ℤ code (pos 125)
        then code
        else pos 125 in
      (pos 0 ≤ℤ exit) × (exit ≤ℤ pos 125) × ((exit ≡ pos 0) ↔ (code ≡ pos 0))
unfolding leb_ℤ
code_of_result state code h = elim (Bool-cases (text_eq state state_succeeded)) [
  | inl same ↦
      let zero_code = h (text_eq-true state state_succeeded same) in
      rw same (omega arith, omega arith, (λ e. zero_code, λ e. refl))
  | inr differs ↦
      rw differs (ground arith, ground arith, (λ e. ground (arith, e), λ e. ground (arith, e)))
]

none-some {ℓ} : {A : Type ℓ} (a : A) → none ≢ some a
none-some a h = cc

some_inj {ℓ} : {A : Type ℓ} (a b : A) → some a ≡ some b → a ≡ b
some_inj a b h = cc

-- The helper's exit code lies between 0 and 125, and is 0 exactly if a payload was run and its
-- result has exit code 0. A specification that does not decode, or that names another privilege
-- than the helper's, runs no payload.
pub child_main-code :
    (sink : Sink) (exec : Exec) (json : ChildJson) (privilege input : Text)
    (stdout stderr : sink.State)
    → let (code, written, run) = child_main sink exec json privilege input stdout stderr in
      (pos 0 ≤ℤ code)
      × (code ≤ℤ pos 125)
      × ((code ≡ pos 0)
          ↔ ((r : PayloadRun sink.State) × (run ≡ some r) × (r.result.exit_code ≡ pos 0)))
      × ((r : PayloadRun sink.State)
          → run ≡ some r
          → (spec : ChildSpec) × (json.decode_spec (take 1_048_576 input) ≡ inr spec)
            × (spec.privilege ≡ privilege)
            × (r ≡ run_payload sink exec spec stdout stderr))
unfolding child_main
child_main-code sink exec json privilege input stdout stderr =
    elim (Sum-cases (json.decode_spec (take 1_048_576 input))) [
      | inl (e, bad) ↦
          rw (child_main, bad)
            (
              omega arith,
              omega arith,
              (λ e. absurd (omega (arith, ap pos_part e)), λ r. absurd (none-some r.0 r.1)),
              λ r h. absurd (none-some r h),
            )
      | inr (spec, good) ↦ elim (Bool-cases (text_eq spec.privilege privilege)) [
        | inr other ↦
            rw (child_main, good, other)
              (
                omega arith,
                omega arith,
                (λ e. absurd (omega (arith, ap pos_part e)), λ r. absurd (none-some r.0 r.1)),
                λ r h. absurd (none-some r h),
              )
        | inl same ↦
            let result = (run_payload sink exec spec stdout stderr).result in
            let (low, high, zero_code) =
              code_of_result result.state result.exit_code
                (run_payload-success_code sink exec spec stdout stderr) in
            rw (child_main, good, same)
              (
                low,
                high,
                (
                  λ e. (run_payload sink exec spec stdout stderr, refl, zero_code.0 e),
                  λ r. zero_code.1 (
                      ap (λ (x : PayloadRun sink.State). x.result.exit_code)
                        (some_inj (run_payload sink exec spec stdout stderr) r.0 r.1)
                      ∙ r.2),
                ),
                λ r h. (
                  spec,
                  refl,
                  text_eq-true spec.privilege privilege same,
                  sym (some_inj (run_payload sink exec spec stdout stderr) r h),
                ),
              )
      ]
    ]
