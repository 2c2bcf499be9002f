-- ===== src/Settings.antt =====
-- Validate and DefaultConfig of internal/execd/config.go. encoding/hex is a parameter: the test
-- whether DecodeString succeeds.
pub mod Valid
pub mod Load
pub mod Tests
use vpsops.Base.{
  ℕ, Bool, true, false, List, [], ◌∷◌, length, is_empty, ◌&&◌, ◌||◌, not, leb, ltb, ◌==◌,
  if◌then◌else◌, Text, codes, contains, ℤ, pos, ltb_ℤ, is_zero,
}
use vpsops.Types.{
  TokenConfig, LimitsConfig, ExecutionConfig, EnvConfig, StorageConfig, HelpersConfig, Config,
}
use vpsops.Limiter.{SecurityConfig}
use vpsops.Store.{is_alphanumeric, all_of}

-- tokenIDRe of internal/execd/validation.go: ^[A-Za-z0-9][A-Za-z0-9_.:-]{0,79}$
abbrev pub is_token_id_char : ℕ → Bool
is_token_id_char c = is_alphanumeric c || c == b'_' || c == b'.' || c == b':' || c == b'-'

unfoldable pub is_token_id : Text → Bool
is_token_id [] = false
is_token_id (c ∷ s) = is_alphanumeric c && leb (length s) 79 && all_of is_token_id_char s

-- The errors of Validate, in the order of the code.
pub data ConfigError : Type 0 where
  listen_required token_required token_id_required token_id_invalid token_id_duplicate : ConfigError
  token_hash_length token_hash_invalid concurrency_too_small timeout_limits wait_limits :
      ConfigError
  auth_failure_negative auth_failure_window_required shell_required run_user_required : ConfigError
  storage_required helpers_required : ConfigError

pub data Verdict : Type 0 where
  valid : Verdict
  invalid : ConfigError → Verdict

-- if bad { return errors.New(...) }, and what comes next
infixr 2 ◌andthen◌
abbrev pub ◌andthen◌ : Verdict → Verdict → Verdict
valid andthen next = next
invalid e andthen next = invalid e

abbrev pub fail_if : Bool → ConfigError → Verdict
fail_if true e = invalid e
fail_if false e = valid

-- One round of the loop over the tokens.
unfoldable pub validate_token : (Text → Bool) → List Text → TokenConfig → Verdict
validate_token is_hex seen t =
    fail_if (is_empty t.id) token_id_required
    andthen fail_if (not (is_token_id t.id)) token_id_invalid
    andthen fail_if (contains seen t.id) token_id_duplicate
    andthen fail_if (not (length t.sha256 == 64)) token_hash_length
    andthen fail_if (not (is_hex t.sha256)) token_hash_invalid

-- The loop, `seen` being the ids so far.
unfoldable pub validate_tokens : (Text → Bool) → List Text → List TokenConfig → Verdict
validate_tokens is_hex seen [] = valid
validate_tokens is_hex seen (t ∷ ts) =
    validate_token is_hex seen t andthen validate_tokens is_hex (t.id ∷ seen) ts

-- The limits, and with them the throttling of failures.
unfoldable pub validate_limits : LimitsConfig → SecurityConfig → Verdict
validate_limits l s =
    fail_if (ltb_ℤ l.concurrency (pos 1)) concurrency_too_small
    andthen fail_if
        (ltb_ℤ l.max_timeout_sec (pos 1)
          || ltb_ℤ l.default_timeout_sec (pos 1)
          || ltb_ℤ l.max_timeout_sec l.default_timeout_sec)
        timeout_limits
    andthen fail_if
        (ltb_ℤ l.max_wait_sec (pos 0)
          || ltb_ℤ l.default_wait_sec (pos 0)
          || ltb_ℤ l.max_wait_sec l.default_wait_sec)
        wait_limits
    andthen fail_if (ltb_ℤ s.auth_failure_limit (pos 0) || ltb_ℤ s.auth_failure_window_sec (pos 0))
        auth_failure_negative
    andthen fail_if (ltb_ℤ (pos 0) s.auth_failure_limit && is_zero s.auth_failure_window_sec)
        auth_failure_window_required

-- The paths and the user.
unfoldable pub validate_paths : ExecutionConfig → StorageConfig → HelpersConfig → Verdict
validate_paths e s h =
    fail_if (is_empty e.shell_path || is_empty e.shell_args) shell_required
    andthen fail_if (is_empty e.run_user) run_user_required
    andthen fail_if (is_empty s.job_dir || is_empty s.log_dir) storage_required
    andthen fail_if
        (is_empty h.sudo_path || is_empty h.run_child_path || is_empty h.root_child_path)
        helpers_required

-- Validate
unfoldable pub validate : (Text → Bool) → Config → Verdict
unfolding validate_limits validate_paths
validate is_hex c =
    fail_if (is_empty c.listen) listen_required
    andthen fail_if (is_empty c.tokens) token_required
    andthen validate_tokens is_hex [] c.tokens
    andthen validate_limits c.limits c.security
    andthen validate_paths c.execution c.storage c.helpers

-- DefaultConfig
unfoldable pub default_config : Config
default_config = record {
  listen = codes "127.0.0.1:7843";
  tokens = [];
  limits = record {
    default_timeout_sec = pos 30;
    max_timeout_sec = pos 300;
    default_wait_sec = pos 25;
    max_wait_sec = pos 60;
    default_kill_grace_sec = pos 3;
    max_request_bytes = pos 131_072;
    max_cmd_bytes = pos 8192;
    max_stdin_bytes = pos 65_536;
    default_stdout_bytes = pos 262_144;
    default_stderr_bytes = pos 262_144;
    max_stdout_bytes = pos 1_048_576;
    max_stderr_bytes = pos 1_048_576;
    default_stdout_log_bytes = pos 1_048_576;
    default_stderr_log_bytes = pos 1_048_576;
    max_stdout_log_bytes = pos 16_777_216;
    max_stderr_log_bytes = pos 16_777_216;
    concurrency = pos 2;
    max_jobs_retained = pos 1000;
  };
  security = record { auth_failure_limit = pos 10; auth_failure_window_sec = pos 60 };
  execution = record {
    shell_path = codes "/bin/bash";
    shell_args =
        codes "--noprofile" ∷ codes "--norc" ∷ codes "-o" ∷ codes "pipefail" ∷ codes "-c" ∷ [];
    fixed_path = codes "/usr/local/sbin:/usr/local/bin:/usr/sbin:/usr/bin:/sbin:/bin";
    allow_any_cwd_for_root = true;
    allowed_cwd_prefixes_for_user =
        codes "/opt" ∷ codes "/srv" ∷ codes "/var/www" ∷ codes "/tmp" ∷ codes "/var/log" ∷ [];
    run_user = codes "aiops-run";
    root_home = codes "/root";
    run_home = codes "/var/lib/aiops-run";
  };
  env = record {
    allow = codes "HTTP_PROXY" ∷ codes "HTTPS_PROXY" ∷ codes "NO_PROXY" ∷ [];
    deny =
        codes "LD_PRELOAD"
        ∷ codes "LD_LIBRARY_PATH"
        ∷ codes "BASH_ENV"
        ∷ codes "ENV"
        ∷ codes "GIT_SSH_COMMAND"
        ∷ codes "SSH_AUTH_SOCK"
        ∷ codes "PYTHONPATH"
        ∷ codes "NODE_OPTIONS"
        ∷ [];
  };
  storage = record {
    job_dir = codes "/var/lib/aiops-execd/jobs";
    log_dir = codes "/var/log/aiops-execd";
    retention_days = pos 7;
    max_total_job_bytes = pos 104_857_600;
  };
  helpers = record {
    sudo_path = codes "/usr/bin/sudo";
    run_child_path = codes "/usr/local/libexec/aiops-execd-run-child";
    root_child_path = codes "/usr/local/libexec/aiops-execd-root-child";
  };
}
