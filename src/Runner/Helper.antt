-- ===== src/Runner/Helper.antt =====
-- What the daemon makes of the helper's exit and of what it reads from the result's pipe.
use vpsops.Base.{
  ◌≤◌, ◌≡◌, ◌≢◌, refl, ap, ◌⊎◌, inl, inr, false, Bool-cases, Sum-cases, Option, none, some, List,
  [], ◌∷◌, length, take, take_all, is_empty, Text, trim_space, ℤ, pos, negsuc, is_zero,
}
use vpsops.Types.{state_failed}
use vpsops.Capped.{Sink, CappedBuffer, write_buffer, write_all}
use vpsops.Capped.Tee.{Accepts}
use vpsops.Child.{
  ChildResult, ChildJson, WaitError, WaitStatus, exited, signaled, stopped_or_continued,
  exit_status,
}
use vpsops.Runner.{protocol_failure, decode_child_result, copy_both}

-- The daemon reads a result with a state that the helper has written, however the helper has exited,
-- if it fits into the 64 KiB that are read.
pub decode_child_result-write :
    (json : ChildJson) (r : ChildResult) (b : Text) (wait_err : Option WaitError)
    → json.decode_child (trim_space b) ≡ inr r
    → is_empty (trim_space b) ≡ false
    → length b ≤ 65_536
    → is_empty r.state ≡ false
    → decode_child_result json (take 65_536 b) wait_err ≡ r
unfolding decode_child_result
decode_child_result-write json r b wait_err decodes visible short named =
    let whole : take 65_536 b ≡ b = take_all 65_536 b short in
    rw (whole, visible, decodes, named) refl

-- The cases of exitStatus.
abbrev status_code : Option WaitStatus → ℤ × Option Text
status_code s = elim s [
  | some (signaled t) ↦ (negsuc 0, some t)
  | some (exited code) ↦ (code, none)
  | some stopped_or_continued ↦ (negsuc 0, none)
  | none ↦ (negsuc 0, none)
]

-- An *exec.ExitError reports an unsuccessful exit.
abbrev pub Unsuccessful : Option WaitError → Type 0
Unsuccessful none = Unit
Unsuccessful (some e) = e.status ≢ some (exited (pos 0))

protocol_failure-code :
    (wait_err : Option WaitError) (error : Text)
    → Unsuccessful wait_err
    → (protocol_failure wait_err error).exit_code ≢ pos 0
unfolding protocol_failure exit_status is_zero
protocol_failure-code none error u h = cc
protocol_failure-code (some e) error u h = by_status e.status u h
  where
    by_status : (s : Option WaitStatus) → s ≢ some (exited (pos 0)) → (status_code s).0 ≢ pos 0
    by_status none u h = cc
    by_status (some (exited code)) u h = u (ap (λ c. some (exited c)) h)
    by_status (some (signaled t)) u h = cc
    by_status (some stopped_or_continued) u h = cc

pub copy_both-write_all :
    (files : Sink) (file : files.State) (buf : CappedBuffer) (ps : List Text)
    → Accepts files
    → (copy_both files file buf ps).1 ≡ write_all buf ps
unfolding copy_both write_all
copy_both-write_all files file buf [] law = refl
copy_both-write_all files file buf (p ∷ ps) law =
    rw (law.succeeds file p)
      (copy_both-write_all files (files.write file p).0 (write_buffer buf p).0 ps law)

-- Whatever the pipe of the result holds, and however the helper has exited: either it holds a result
-- with a state, which is what counts, or the job has failed, with an exit code that is not 0 if only
-- an unsuccessful exit is an error of cmd.Wait().
pub decode_child_result-failed :
    (json : ChildJson) (bytes : Text) (wait_err : Option WaitError)
    → Unsuccessful wait_err
    → let res = decode_child_result json bytes wait_err in
      ((json.decode_child (trim_space bytes) ≡ inr res) × (is_empty res.state ≡ false))
      ⊎ ((res.state ≡ state_failed) × (res.exit_code ≢ pos 0))
unfolding decode_child_result protocol_failure
decode_child_result-failed json bytes wait_err u = elim (Bool-cases (is_empty (trim_space bytes))) [
  | inl blank ↦ rw (decode_child_result, blank) (inr (refl, protocol_failure-code wait_err [] u))
  | inr text ↦ elim (Sum-cases (json.decode_child (trim_space bytes))) [
    | inl (e, bad) ↦
        rw (decode_child_result, text, bad) (inr (refl, protocol_failure-code wait_err [] u))
    | inr (child, good) ↦ elim (Bool-cases (is_empty child.state)) [
      | inl nameless ↦
          rw (decode_child_result, text, good, nameless)
            (inr (refl, protocol_failure-code wait_err [] u))
      | inr named ↦ rw (decode_child_result, text, good, named) (inl (refl, named))
    ]
  ]
]
