-- ===== src/Validation/Accepted.antt =====
-- The stages of normalizeRequest, each where it accepts.
use vpsops.Base.{
  ◌≤◌, ◌≡◌, ◌⊎◌, inl, inr, Bool, true, false, Bool-cases, Option, List, [], ◌∷◌, length, is_empty,
  Text, codes, text_eq, text_eq-true, contains, trim_space, ℤ, pos, ◌≤ℤ◌, ltb_ℤ, ltb_ℤ-false, arith,
  All,
}
use vpsops.Types.{RunRequest, LimitsConfig, EnvConfig, privilege_user, privilege_root}
use vpsops.Validation.{
  Invalid, accepted, is_control_key, is_env_key, validate_control_key, validate_entry, validate_env,
  choose_root, choose_privilege, choose_mode, total_length, no_program, check_shell, check_argv,
  check_command, outside, choose_times, choose_sizes,
}
use vpsops.Validation.Inversion.{bind-accepted}

pub outside-Within :
    (low value high : ℤ) → outside low value high ≡ false → (low ≤ℤ value) × (value ≤ℤ high)
outside-Within low value high h =
    let both : (ltb_ℤ value low ≡ false) × (ltb_ℤ high value ≡ false) = ground (arith, h) in
    (ltb_ℤ-false value low both.0, ltb_ℤ-false high value both.1)

-- The command of a request in either mode.
abbrev pub CommandFits : RunRequest → LimitsConfig → Type 0
CommandFits req l =
    ((req.mode ≡ codes "shell")
      × (is_empty (trim_space req.cmd) ≡ false)
      × (pos (length req.cmd) ≤ℤ l.max_cmd_bytes))
    ⊎ ((req.mode ≡ codes "argv")
        × (no_program req.argv ≡ false)
        × (pos (total_length req.argv) ≤ℤ l.max_cmd_bytes))

-- A variable of the environment.
abbrev pub EntryFits : EnvConfig → Text × Text → Type 0
EntryFits cfg (k, v) =
    (is_env_key k ≡ true)
    × (contains cfg.deny k ≡ false)
    × ((is_empty cfg.allow ≡ true) ⊎ (contains cfg.allow k ≡ true))
    × (length v ≤ 4096)

pub choose_privilege-known :
    (root : Option Bool) (given privilege : Text)
    → choose_privilege root given ≡ accepted privilege
    → (text_eq privilege privilege_user ≡ true) ⊎ (text_eq privilege privilege_root ≡ true)
unfolding choose_privilege
choose_privilege-known root given privilege h =
    let (asked, e, h1) = bind-accepted (choose_root root given) _ privilege h in grind arith

pub choose_mode-known :
    (given mode : Text)
    → choose_mode given ≡ accepted mode
    → (text_eq mode (codes "shell") ≡ true) ⊎ (text_eq mode (codes "argv") ≡ true)
unfolding choose_mode
choose_mode-known given mode h = grind arith

validate_entry-Fits :
    (k v : Text) (cfg : EnvConfig) (u : Unit {0})
    → validate_entry k v cfg ≡ accepted u
    → EntryFits cfg (k, v)
unfolding validate_entry
validate_entry-Fits k v cfg u h = ground (arith, h)

pub choose_times-Within :
    (req timed : RunRequest) (l : LimitsConfig)
    → choose_times req l ≡ accepted timed
    → (timed ≡ record req {
      timeout_sec = timed.timeout_sec;
      wait_sec = timed.wait_sec;
      kill_grace_sec = timed.kill_grace_sec;
    })
      × (outside (pos 1) timed.timeout_sec l.max_timeout_sec ≡ false)
      × (outside (pos 0) timed.wait_sec l.max_wait_sec ≡ false)
      × (outside (pos 1) timed.kill_grace_sec (pos 30) ≡ false)
unfolding choose_times
choose_times-Within req timed l h = ground (arith, h)

pub choose_sizes-Within :
    (req sized : RunRequest) (l : LimitsConfig)
    → choose_sizes req l ≡ accepted sized
    → (sized ≡ record req {
      max_stdout_bytes = sized.max_stdout_bytes;
      max_stderr_bytes = sized.max_stderr_bytes;
      max_stdout_log_bytes = sized.max_stdout_log_bytes;
      max_stderr_log_bytes = sized.max_stderr_log_bytes;
    })
      × (outside (pos 0) sized.max_stdout_bytes l.max_stdout_bytes ≡ false)
      × (outside (pos 0) sized.max_stderr_bytes l.max_stderr_bytes ≡ false)
      × (outside sized.max_stdout_bytes sized.max_stdout_log_bytes l.max_stdout_log_bytes ≡ false)
      × (outside sized.max_stderr_bytes sized.max_stderr_log_bytes l.max_stderr_log_bytes ≡ false)
unfolding choose_sizes
choose_sizes-Within req sized l h = ground (arith, h)

pub validate_env-Fits :
    (env : List (Text × Text)) (cfg : EnvConfig) (u : Unit {0})
    → validate_env env cfg ≡ accepted u
    → All (EntryFits cfg) env
unfolding validate_env
validate_env-Fits [] cfg u h = tt
validate_env-Fits ((k, v) ∷ env) cfg u h =
    let (u1, e, h1) = bind-accepted (validate_entry k v cfg) _ u h in
    (validate_entry-Fits k v cfg u1 e, validate_env-Fits env cfg u h1)

pub validate_control_key-valid :
    (e : Invalid) (value : Text) (u : Unit {0})
    → validate_control_key e value ≡ accepted u
    → (is_empty value ≡ true) ⊎ (is_control_key value ≡ true)
unfolding validate_control_key
validate_control_key-valid e value u h = ground (arith, h)

check_shell-Fits :
    (cmd : Text) (l : LimitsConfig) (u : Unit {0})
    → check_shell cmd l ≡ accepted u
    → (is_empty (trim_space cmd) ≡ false) × (pos (length cmd) ≤ℤ l.max_cmd_bytes)
unfolding check_shell ltb_ℤ
check_shell-Fits cmd l u h = ground (arith, h)

check_argv-Fits :
    (argv : List Text) (l : LimitsConfig) (u : Unit {0})
    → check_argv argv l ≡ accepted u
    → (no_program argv ≡ false) × (pos (total_length argv) ≤ℤ l.max_cmd_bytes)
unfolding check_argv ltb_ℤ
check_argv-Fits argv l u h = ground (arith, h)

pub check_command-Fits :
    (mode : Text) (req : RunRequest) (l : LimitsConfig) (u : Unit {0})
    → (text_eq mode (codes "shell") ≡ true) ⊎ (text_eq mode (codes "argv") ≡ true)
    → check_command mode req l ≡ accepted u
    → CommandFits (record req { mode = mode }) l
unfolding check_command
check_command-Fits mode req l u known h = elim (Bool-cases (text_eq mode (codes "shell"))) [
  | inl shell ↦
      let chosen : check_shell req.cmd l ≡ accepted u = ground (arith, h, shell) in
      let (given, fits) = check_shell-Fits req.cmd l u chosen in
      inl (text_eq-true mode (codes "shell") shell, given, fits)
  | inr other ↦
      let chosen : check_argv req.argv l ≡ accepted u = ground (arith, h, other) in
      let argv : text_eq mode (codes "argv") ≡ true = ground (arith, known, other) in
      let (given, fits) = check_argv-Fits req.argv l u chosen in
      inr (text_eq-true mode (codes "argv") argv, given, fits)
]
