-- ===== src/Validation/Request.antt =====
-- What normalizeRequest promises of a request that it accepts.
use vpsops.Base.{
  ◌≡◌, refl, ◌⊎◌, inl, inr, true, false, Option, some, length, is_empty, ◌&&◌, Text, text_eq,
  text_eq-true, pos, ◌≤ℤ◌, ltb_ℤ, ltb_ℤ-false, All, subst, sym,
}
use vpsops.Types.{RunRequest, LimitsConfig, Config, privilege_user, privilege_root}
use vpsops.Validation.{
  accepted, ◌>>=◌, is_control_key, validate_control_key, validate_env, choose_privilege,
  choose_mode, check_command, outside, choose_times, choose_sizes, normalize_cwd, normalize_request,
  check_limits, check_context, stdin_too_large, lock_key_invalid, idempotency_key_invalid,
}
use vpsops.Validation.Inversion.{bind-accepted, reject_if-accepted}
use vpsops.Validation.Cwd.{Allowed, normalize_cwd-Allowed}
use vpsops.Validation.Accepted.{
  CommandFits, EntryFits, outside-Within, choose_privilege-known, choose_mode-known,
  choose_times-Within, choose_sizes-Within, validate_env-Fits, validate_control_key-valid,
  check_command-Fits,
}

-- The limits and rules that an accepted request keeps.
pub record Fits (links : Text → Option Text) (cfg : Config) (r : RunRequest) : Type 0 where
  pub privilege_known : (r.privilege ≡ privilege_user) ⊎ (r.privilege ≡ privilege_root)
  pub command : CommandFits r cfg.limits
  pub stdin_fits : pos (length r.stdin) ≤ℤ cfg.limits.max_stdin_bytes
  pub timeout : (pos 1 ≤ℤ r.timeout_sec) × (r.timeout_sec ≤ℤ cfg.limits.max_timeout_sec)
  pub wait : (pos 0 ≤ℤ r.wait_sec) × (r.wait_sec ≤ℤ cfg.limits.max_wait_sec)
  pub kill_grace : (pos 1 ≤ℤ r.kill_grace_sec) × (r.kill_grace_sec ≤ℤ pos 30)
  pub stdout : (pos 0 ≤ℤ r.max_stdout_bytes) × (r.max_stdout_bytes ≤ℤ cfg.limits.max_stdout_bytes)
  pub stderr : (pos 0 ≤ℤ r.max_stderr_bytes) × (r.max_stderr_bytes ≤ℤ cfg.limits.max_stderr_bytes)
  pub stdout_log :
      (r.max_stdout_bytes ≤ℤ r.max_stdout_log_bytes)
      × (r.max_stdout_log_bytes ≤ℤ cfg.limits.max_stdout_log_bytes)
  pub stderr_log :
      (r.max_stderr_bytes ≤ℤ r.max_stderr_log_bytes)
      × (r.max_stderr_log_bytes ≤ℤ cfg.limits.max_stderr_log_bytes)
  pub cwd_resolved : (path : Text) × (links path ≡ some r.cwd)
  pub cwd_allowed :
      ((text_eq r.privilege privilege_root && cfg.execution.allow_any_cwd_for_root) ≡ true)
      ⊎ Allowed links cfg.execution.allowed_cwd_prefixes_for_user r.cwd
  pub environment : All (EntryFits cfg.env) r.env
  pub lock_key_valid : (is_empty r.lock_key ≡ true) ⊎ (is_control_key r.lock_key ≡ true)
  pub idempotency_key_valid :
      (is_empty r.idempotency_key ≡ true) ⊎ (is_control_key r.idempotency_key ≡ true)

-- What check_limits leaves as it was, and the ranges that it ensures.
record Limited (l : LimitsConfig) (req r : RunRequest) : Type 0 where
  pub kept :
      (r.privilege ≡ req.privilege)
      × (r.mode ≡ req.mode)
      × (r.cmd ≡ req.cmd)
      × (r.argv ≡ req.argv)
      × (r.stdin ≡ req.stdin)
  pub small : ltb_ℤ l.max_stdin_bytes (pos (length req.stdin)) ≡ false
  pub timeout : outside (pos 1) r.timeout_sec l.max_timeout_sec ≡ false
  pub wait : outside (pos 0) r.wait_sec l.max_wait_sec ≡ false
  pub kill_grace : outside (pos 1) r.kill_grace_sec (pos 30) ≡ false
  pub out : outside (pos 0) r.max_stdout_bytes l.max_stdout_bytes ≡ false
  pub err : outside (pos 0) r.max_stderr_bytes l.max_stderr_bytes ≡ false
  pub out_log : outside r.max_stdout_bytes r.max_stdout_log_bytes l.max_stdout_log_bytes ≡ false
  pub err_log : outside r.max_stderr_bytes r.max_stderr_log_bytes l.max_stderr_log_bytes ≡ false

Limited-join :
    (l : LimitsConfig) (req timed r : RunRequest)
    → ltb_ℤ l.max_stdin_bytes (pos (length req.stdin)) ≡ false
    → choose_times req l ≡ accepted timed
    → choose_sizes timed l ≡ accepted r
    → Limited l req r
Limited-join l req timed r small t s =
    let (timed_is, timeout, wait, grace) = choose_times-Within req timed l t in
    let (sized_is, out, err, out_log, err_log) = choose_sizes-Within timed r l s in
    record {
      kept = (
        rw (sized_is, timed_is) refl,
        rw (sized_is, timed_is) refl,
        rw (sized_is, timed_is) refl,
        rw (sized_is, timed_is) refl,
        rw (sized_is, timed_is) refl,
      );
      small = small;
      timeout = rw sized_is timeout;
      wait = rw sized_is wait;
      kill_grace = rw sized_is grace;
      out = out;
      err = err;
      out_log = out_log;
      err_log = err_log;
    }

check_limits-Limited :
    (req r : RunRequest) (l : LimitsConfig) → check_limits req l ≡ accepted r → Limited l req r
unfolding check_limits
check_limits-Limited req r l h =
    let (small, h1) =
      reject_if-accepted (ltb_ℤ l.max_stdin_bytes (pos (length req.stdin))) stdin_too_large
        (choose_times req l >>= (λ timed. choose_sizes timed l)) r h in
    let (timed, t, s) = bind-accepted (choose_times req l) (λ timed. choose_sizes timed l) r h1 in
    Limited-join l req timed r small t s

-- What check_context ensures; but for the directory the request is as it was.
record InContext (links : Text → Option Text) (cfg : Config) (req r : RunRequest) : Type 0 where
  pub moved : r ≡ record req { cwd = r.cwd }
  pub resolved : (path : Text) × (links path ≡ some r.cwd)
  pub allowed :
      ((text_eq req.privilege privilege_root && cfg.execution.allow_any_cwd_for_root) ≡ true)
      ⊎ Allowed links cfg.execution.allowed_cwd_prefixes_for_user r.cwd
  pub environment : All (EntryFits cfg.env) req.env
  pub lock_key_valid : (is_empty req.lock_key ≡ true) ⊎ (is_control_key req.lock_key ≡ true)
  pub idempotency_key_valid :
      (is_empty req.idempotency_key ≡ true) ⊎ (is_control_key req.idempotency_key ≡ true)

accepted_eq {ℓ} : {A : Type ℓ} {x y : A} → accepted x ≡ accepted y → x ≡ y
accepted_eq e = cc

check_context-InContext :
    (links : Text → Option Text) (req r : RunRequest) (cfg : Config)
    → check_context links req cfg ≡ accepted r
    → InContext links cfg req r
unfolding check_context
check_context-InContext links req r cfg h =
    let (cwd, w, h1) =
      bind-accepted (normalize_cwd links req.cwd req.privilege cfg.execution) _ r h in
    let (u1, env, h2) = bind-accepted (validate_env req.env cfg.env) _ r h1 in
    let (u2, lock, h3) =
      bind-accepted (validate_control_key lock_key_invalid req.lock_key) _ r h2 in
    let (u3, key, h4) =
      bind-accepted (validate_control_key idempotency_key_invalid req.idempotency_key) _ r h3 in
    let moved : record req { cwd = cwd } ≡ r = accepted_eq h4 in
    let (resolved, allowed) =
      normalize_cwd-Allowed links req.cwd req.privilege cwd cfg.execution w in
    subst (InContext links cfg req) moved (record {
      moved = refl;
      resolved = resolved;
      allowed = allowed;
      environment = validate_env-Fits req.env cfg.env u1 env;
      lock_key_valid = validate_control_key-valid lock_key_invalid req.lock_key u2 lock;
      idempotency_key_valid =
          validate_control_key-valid idempotency_key_invalid req.idempotency_key u3 key;
    })

-- The parts together, for the request `base` with its privilege and mode, and `sized` with its limits.
Fits-join :
    (links : Text → Option Text) (cfg : Config) (base sized r : RunRequest)
    → (base.privilege ≡ privilege_user) ⊎ (base.privilege ≡ privilege_root)
    → CommandFits base cfg.limits
    → Limited cfg.limits base sized
    → InContext links cfg sized r
    → Fits links cfg r
Fits-join links cfg base sized r known command h c =
    let (kept_privilege, kept_mode, kept_cmd, kept_argv, kept_stdin) = h.kept in
    subst (Fits links cfg) (sym c.moved) (record {
      privilege_known = rw kept_privilege known;
      command = rw (kept_mode, kept_cmd, kept_argv) command;
      stdin_fits =
          rw kept_stdin (ltb_ℤ-false cfg.limits.max_stdin_bytes (pos (length base.stdin)) h.small);
      timeout = outside-Within (pos 1) sized.timeout_sec cfg.limits.max_timeout_sec h.timeout;
      wait = outside-Within (pos 0) sized.wait_sec cfg.limits.max_wait_sec h.wait;
      kill_grace = outside-Within (pos 1) sized.kill_grace_sec (pos 30) h.kill_grace;
      stdout = outside-Within (pos 0) sized.max_stdout_bytes cfg.limits.max_stdout_bytes h.out;
      stderr = outside-Within (pos 0) sized.max_stderr_bytes cfg.limits.max_stderr_bytes h.err;
      stdout_log =
          outside-Within sized.max_stdout_bytes sized.max_stdout_log_bytes
            cfg.limits.max_stdout_log_bytes h.out_log;
      stderr_log =
          outside-Within sized.max_stderr_bytes sized.max_stderr_log_bytes
            cfg.limits.max_stderr_log_bytes h.err_log;
      cwd_resolved = c.resolved;
      cwd_allowed = c.allowed;
      environment = c.environment;
      lock_key_valid = c.lock_key_valid;
      idempotency_key_valid = c.idempotency_key_valid;
    })

privilege_text :
    (p : Text)
    → (text_eq p privilege_user ≡ true) ⊎ (text_eq p privilege_root ≡ true)
    → (p ≡ privilege_user) ⊎ (p ≡ privilege_root)
privilege_text p (inl h) = inl (text_eq-true p privilege_user h)
privilege_text p (inr h) = inr (text_eq-true p privilege_root h)

-- A request that normalizeRequest accepts keeps every limit of the configuration and the rules for
-- its privilege, command, directory, environment and keys, whatever it left to the defaults.
pub normalize_request-Fits :
    (links : Text → Option Text) (req r : RunRequest) (cfg : Config)
    → normalize_request links req cfg ≡ accepted r
    → Fits links cfg r
unfolding normalize_request
normalize_request-Fits links req r cfg h =
    let (privilege, p, h1) = bind-accepted (choose_privilege req.root req.privilege) _ r h in
    let (mode, m, h2) = bind-accepted (choose_mode req.mode) _ r h1 in
    let (u, c, h3) = bind-accepted (check_command mode req cfg.limits) _ r h2 in
    let base : RunRequest = record req { privilege = privilege; mode = mode } in
    let (sized, s, h4) = bind-accepted (check_limits base cfg.limits) _ r h3 in
    Fits-join links cfg base sized r
      (privilege_text privilege (choose_privilege-known req.root req.privilege privilege p))
      (check_command-Fits mode req cfg.limits u (choose_mode-known req.mode mode m) c)
      (check_limits-Limited base sized cfg.limits s) (check_context-InContext links sized r cfg h4)
