-- ===== src/Validation.antt =====
-- internal/execd/validation.go: what a request may ask for. filepath.EvalSymlinks is a parameter,
-- `none` being its error. A request is given back with its defaults filled in.
pub mod Inversion
pub mod Accepted
pub mod Cwd
pub mod Request
pub mod Tests
use vpsops.Base.{
  ℕ, ◌+◌, ◌≡◌, refl, Bool, true, false, Option, none, some, List, [], ◌∷◌, ◌++◌, length, is_empty,
  ◌&&◌, ◌||◌, not, leb, ltb, ◌==◌, if◌then◌else◌, Text, codes, text_eq, has_prefix, trim_space,
  contains, ℤ, pos, is_zero, ltb_ℤ,
}
use vpsops.Types.{
  RunRequest, LimitsConfig, ExecutionConfig, EnvConfig, Config, privilege_user, privilege_root,
}
use vpsops.Path.{clean, is_abs}
use vpsops.Store.{is_alphanumeric, all_of}

-- The errors of normalizeRequest, in the order of the code.
pub data Invalid : Type 0 where
  root_conflict_privilege root_conflict_root privilege_unknown mode_unknown : Invalid
  cmd_required cmd_too_large argv_required argv_too_large stdin_too_large : Invalid
  timeout_range wait_range kill_grace_range : Invalid
  stdout_range stderr_range stdout_log_range stderr_log_range : Invalid
  cwd_not_absolute cwd_missing cwd_outside : Invalid
  env_key_invalid env_key_denied env_key_not_allowed env_value_too_large : Invalid
  lock_key_invalid idempotency_key_invalid : Invalid

pub data Checked {ℓ} (A : Type ℓ) : Type ℓ where
  accepted : A → Checked A
  rejected : Invalid → Checked A

infixl 5 ◌>>=◌
abbrev pub ◌>>=◌ {ℓ κ} : {A : Type ℓ} {B : Type κ} → Checked A → (A → Checked B) → Checked B
accepted a >>= f = f a
rejected e >>= f = rejected e

-- if bad { return errors.New(...) }
abbrev pub reject_if : Bool → Invalid → Checked (Unit {0})
reject_if true e = rejected e
reject_if false e = accepted tt

-- The class [A-Za-z0-9_.@:/-] of controlKeyRe.
abbrev pub is_control_char : ℕ → Bool
is_control_char c =
    is_alphanumeric c || c == b'_' || c == b'.' || c == b'@' || c == b':' || c == b'/' || c == b'-'

-- controlKeyRe: ^[A-Za-z0-9][A-Za-z0-9_.@:/-]{0,200}$
unfoldable pub is_control_key : Text → Bool
is_control_key [] = false
is_control_key (c ∷ s) = is_alphanumeric c && leb (length s) 200 && all_of is_control_char s

-- envKeyRe: ^[A-Z_][A-Z0-9_]*$
abbrev pub is_env_start : ℕ → Bool
is_env_start c = (leb b'A' c && leb c b'Z') || c == b'_'

unfoldable pub is_env_key : Text → Bool
is_env_key [] = false
is_env_key (c ∷ s) = is_env_start c && all_of (λ d. is_env_start d || (leb b'0' d && leb d b'9')) s

-- validateControlKey; the error is that of the key's name.
unfoldable pub validate_control_key : Invalid → Text → Checked (Unit {0})
validate_control_key e value = reject_if (not (is_empty value) && not (is_control_key value)) e

-- One round of validateEnv.
unfoldable pub validate_entry : Text → Text → EnvConfig → Checked (Unit {0})
validate_entry k v cfg = do
  u1 ← reject_if (not (is_env_key k)) env_key_invalid
  u2 ← reject_if (contains cfg.deny k) env_key_denied
  u3 ← reject_if (not (is_empty cfg.allow) && not (contains cfg.allow k)) env_key_not_allowed
  reject_if (ltb 4096 (length v)) env_value_too_large

-- validateEnv
unfoldable pub validate_env : List (Text × Text) → EnvConfig → Checked (Unit {0})
validate_env [] cfg = accepted tt
validate_env ((k, v) ∷ env) cfg = do u ← validate_entry k v cfg; validate_env env cfg

-- pathHasPrefix
unfoldable pub path_has_prefix : Text → Text → Bool
path_has_prefix path prefix =
    if text_eq prefix (codes "/")
    then true
    else text_eq path prefix || has_prefix path (prefix ++ b'/' ∷ [])

-- The prefix as normalizeCwd compares with it.
unfoldable pub resolved_prefix : (Text → Option Text) → Text → Text
resolved_prefix eval_symlinks prefix = elim (eval_symlinks (clean prefix)) [
  | none ↦ clean prefix
  | some resolved ↦ resolved
]

-- The loop of normalizeCwd.
unfoldable pub find_prefix : (Text → Option Text) → Text → List Text → Checked Text
find_prefix eval_symlinks cleaned [] = rejected cwd_outside
find_prefix eval_symlinks cleaned (prefix ∷ prefixes) =
    let rest = find_prefix eval_symlinks cleaned prefixes in
    if path_has_prefix cleaned (resolved_prefix eval_symlinks prefix)
    then accepted cleaned
    else rest

abbrev pub or_missing : Option Text → Checked Text
or_missing none = rejected cwd_missing
or_missing (some path) = accepted path

-- The directory of a request that names none.
abbrev pub default_cwd : Text → Text
default_cwd privilege = if text_eq privilege privilege_root then codes "/" else codes "/tmp"

-- The end of normalizeCwd.
unfoldable pub allow_cwd : (Text → Option Text) → Text → Text → ExecutionConfig → Checked Text
allow_cwd eval_symlinks cleaned privilege cfg =
    if text_eq privilege privilege_root && cfg.allow_any_cwd_for_root
    then accepted cleaned
    else find_prefix eval_symlinks cleaned cfg.allowed_cwd_prefixes_for_user

-- normalizeCwd
unfoldable pub normalize_cwd : (Text → Option Text) → Text → Text → ExecutionConfig → Checked Text
normalize_cwd eval_symlinks given privilege cfg = do
  let cwd = if is_empty given then default_cwd privilege else given
  u ← reject_if (not (is_abs cwd)) cwd_not_absolute
  cleaned ← or_missing (eval_symlinks (clean cwd))
  allow_cwd eval_symlinks cleaned privilege cfg

-- normalizeRequest's choice of the privilege: first what `root` says, then the default.
unfoldable pub choose_root : Option Bool → Text → Checked Text
choose_root none privilege = accepted privilege
choose_root (some true) privilege =
    if not (is_empty privilege) && not (text_eq privilege privilege_root)
    then rejected root_conflict_privilege
    else accepted privilege_root
choose_root (some false) privilege =
    if text_eq privilege privilege_root
    then rejected root_conflict_root
    else accepted (if is_empty privilege then privilege_user else privilege)

abbrev pub or_default : Text → Text → Text
or_default value default = if is_empty value then default else value

unfoldable pub choose_privilege : Option Bool → Text → Checked Text
unfolding choose_root
choose_privilege root given = do
  asked ← choose_root root given
  let privilege = or_default asked privilege_user
  u ←
      reject_if (not (text_eq privilege privilege_user) && not (text_eq privilege privilege_root))
        privilege_unknown
  accepted privilege

-- Its choice of the mode.
unfoldable pub choose_mode : Text → Checked Text
choose_mode given = do
  let mode = or_default given (codes "shell")
  u ←
      reject_if (not (text_eq mode (codes "shell")) && not (text_eq mode (codes "argv")))
        mode_unknown
  accepted mode

abbrev pub total_length : List Text → ℕ
total_length [] = 0
total_length (a ∷ as') = length a + total_length as'

-- len(argv) == 0 || argv[0] == ""
abbrev pub no_program : List Text → Bool
no_program [] = true
no_program (a ∷ as') = is_empty a

-- Its tests of the command, for either mode.
unfoldable pub check_shell : Text → LimitsConfig → Checked (Unit {0})
check_shell cmd limits = do
  u ← reject_if (is_empty (trim_space cmd)) cmd_required
  reject_if (ltb_ℤ limits.max_cmd_bytes (pos (length cmd))) cmd_too_large

unfoldable pub check_argv : List Text → LimitsConfig → Checked (Unit {0})
check_argv argv limits = do
  u ← reject_if (no_program argv) argv_required
  reject_if (ltb_ℤ limits.max_cmd_bytes (pos (total_length argv))) argv_too_large

unfoldable pub check_command : Text → RunRequest → LimitsConfig → Checked (Unit {0})
unfolding check_shell check_argv
check_command mode req limits =
    if text_eq mode (codes "shell") then check_shell req.cmd limits else check_argv req.argv limits

-- if value == 0 { value = default }
abbrev pub if_zero : ℤ → ℤ → ℤ
if_zero value default = if is_zero value then default else value

abbrev pub outside : ℤ → ℤ → ℤ → Bool
outside low value high = ltb_ℤ value low || ltb_ℤ high value

-- Its times and sizes.
unfoldable pub choose_times : RunRequest → LimitsConfig → Checked RunRequest
choose_times req l = do
  let timeout = if_zero req.timeout_sec l.default_timeout_sec
  u1 ← reject_if (outside (pos 1) timeout l.max_timeout_sec) timeout_range
  let wait = if req.wait_sec_set then req.wait_sec else if_zero req.wait_sec l.default_wait_sec
  u2 ← reject_if (outside (pos 0) wait l.max_wait_sec) wait_range
  let grace = if_zero req.kill_grace_sec l.default_kill_grace_sec
  u3 ← reject_if (outside (pos 1) grace (pos 30)) kill_grace_range
  accepted (record req { timeout_sec = timeout; wait_sec = wait; kill_grace_sec = grace })

unfoldable pub choose_sizes : RunRequest → LimitsConfig → Checked RunRequest
choose_sizes req l = do
  let out = if_zero req.max_stdout_bytes l.default_stdout_bytes
  let err = if_zero req.max_stderr_bytes l.default_stderr_bytes
  let out_log = if_zero req.max_stdout_log_bytes l.default_stdout_log_bytes
  let err_log = if_zero req.max_stderr_log_bytes l.default_stderr_log_bytes
  u1 ← reject_if (outside (pos 0) out l.max_stdout_bytes) stdout_range
  u2 ← reject_if (outside (pos 0) err l.max_stderr_bytes) stderr_range
  u3 ← reject_if (outside out out_log l.max_stdout_log_bytes) stdout_log_range
  u4 ← reject_if (outside err err_log l.max_stderr_log_bytes) stderr_log_range
  accepted (record req {
    max_stdout_bytes = out;
    max_stderr_bytes = err;
    max_stdout_log_bytes = out_log;
    max_stderr_log_bytes = err_log;
  })

-- normalizeRequest from the standard input to the sizes.
unfoldable pub check_limits : RunRequest → LimitsConfig → Checked RunRequest
check_limits req l = do
  u ← reject_if (ltb_ℤ l.max_stdin_bytes (pos (length req.stdin))) stdin_too_large
  timed ← choose_times req l
  choose_sizes timed l

-- The rest of it.
unfoldable pub check_context : (Text → Option Text) → RunRequest → Config → Checked RunRequest
check_context eval_symlinks req cfg = do
  cwd ← normalize_cwd eval_symlinks req.cwd req.privilege cfg.execution
  u1 ← validate_env req.env cfg.env
  u2 ← validate_control_key lock_key_invalid req.lock_key
  u3 ← validate_control_key idempotency_key_invalid req.idempotency_key
  accepted (record req { cwd = cwd })

-- normalizeRequest
unfoldable pub normalize_request : (Text → Option Text) → RunRequest → Config → Checked RunRequest
normalize_request eval_symlinks req cfg = do
  privilege ← choose_privilege req.root req.privilege
  mode ← choose_mode req.mode
  u ← check_command mode req cfg.limits
  sized ← check_limits (record req { privilege = privilege; mode = mode }) cfg.limits
  check_context eval_symlinks sized cfg

-- cleanEnv
unfoldable pub clean_env : List (Text × Text) → Text → Config → List Text
clean_env req_env privilege cfg =
    let home =
      if text_eq privilege privilege_root
      then cfg.execution.root_home
      else cfg.execution.run_home in
    (codes "PATH=" ++ cfg.execution.fixed_path)
    ∷ codes "LANG=C.UTF-8"
    ∷ (codes "HOME=" ++ home)
    ∷ entries req_env
  where
    entries : List (Text × Text) → List Text
    entries [] = []
    entries ((k, v) ∷ env) = (k ++ b'=' ∷ v) ∷ entries env
