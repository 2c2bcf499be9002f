-- ===== src/Validation/Tests.antt =====
-- A request in a directory below an allowed one, which is reached through a symbolic link.
use vpsops.Base.{
  ◌⊎◌, ◌&&◌, ◌≡◌, refl, true, false, Option, some, [], ◌∷◌, Text, codes, text_eq, pos,
  if◌then◌else◌, trim_space, has_prefix, contains, ltb_ℤ, is_zero,
}
use vpsops.Types.{RunRequest, Config, privilege_user, privilege_root}
use vpsops.Path.{clean, is_abs}
use vpsops.Validation.{
  rejected, env_key_denied, normalize_request, choose_privilege, choose_mode, check_command,
  check_limits, check_context, choose_times, choose_sizes, normalize_cwd, allow_cwd, find_prefix,
  path_has_prefix, check_argv, check_shell, choose_root, is_control_key, is_env_key,
  resolved_prefix, validate_control_key, validate_entry, validate_env,
}
use vpsops.Validation.Cwd.{Allowed, normalize_cwd-Allowed}
use vpsops.Validation.Request.{Fits, normalize_request-Fits}

abbrev pub config : Config
config = record {
  listen = codes "127.0.0.1:7843";
  tokens = [];
  limits = record {
    default_timeout_sec = pos 30;
    max_timeout_sec = pos 300;
    default_wait_sec = pos 25;
    max_wait_sec = pos 60;
    default_kill_grace_sec = pos 3;
    max_request_bytes = pos 131_072;
    max_cmd_bytes = pos 8192;
    max_stdin_bytes = pos 65_536;
    default_stdout_bytes = pos 262_144;
    default_stderr_bytes = pos 262_144;
    max_stdout_bytes = pos 1_048_576;
    max_stderr_bytes = pos 1_048_576;
    default_stdout_log_bytes = pos 1_048_576;
    default_stderr_log_bytes = pos 1_048_576;
    max_stdout_log_bytes = pos 16_777_216;
    max_stderr_log_bytes = pos 16_777_216;
    concurrency = pos 2;
    max_jobs_retained = pos 1000;
  };
  security = record { auth_failure_limit = pos 10; auth_failure_window_sec = pos 60 };
  execution = record {
    shell_path = codes "/bin/bash";
    shell_args = codes "-c" ∷ [];
    fixed_path = codes "/usr/bin:/bin";
    allow_any_cwd_for_root = true;
    allowed_cwd_prefixes_for_user = codes "/opt" ∷ codes "/srv/" ∷ [];
    run_user = codes "aiops-run";
    root_home = codes "/root";
    run_home = codes "/var/lib/aiops-run";
  };
  env = record { allow = codes "HTTP_PROXY" ∷ []; deny = codes "LD_PRELOAD" ∷ [] };
  storage = record {
    job_dir = codes "/jobs";
    log_dir = codes "/log";
    retention_days = pos 7;
    max_total_job_bytes = pos 104_857_600;
  };
  helpers = record {
    sudo_path = codes "/usr/bin/sudo";
    run_child_path = codes "/run-child";
    root_child_path = codes "/root-child";
  };
}

-- /app is a link to /srv/app.
abbrev pub links : Text → Option Text
links path = if text_eq path (codes "/app") then some (codes "/srv/app") else some path

abbrev pub uptime : Text → RunRequest
uptime key = record {
  mode = [];
  cmd = codes "uptime";
  argv = [];
  privilege = [];
  root = some false;
  cwd = codes "/app/";
  env = (key, codes "http://proxy") ∷ [];
  stdin = [];
  timeout_sec = pos 0;
  wait_sec = pos 0;
  kill_grace_sec = pos 0;
  max_stdout_bytes = pos 0;
  max_stderr_bytes = pos 0;
  max_stdout_log_bytes = pos 0;
  max_stderr_log_bytes = pos 0;
  idempotency_key = [];
  lock_key = codes "deploy";
  wait_sec_set = true;
}

abbrev pub normalized : RunRequest
normalized = record (uptime (codes "HTTP_PROXY")) {
  mode = codes "shell";
  privilege = privilege_user;
  cwd = codes "/srv/app";
  timeout_sec = pos 30;
  kill_grace_sec = pos 3;
  max_stdout_bytes = pos 262_144;
  max_stderr_bytes = pos 262_144;
  max_stdout_log_bytes = pos 1_048_576;
  max_stderr_log_bytes = pos 1_048_576;
}

normalize_request-Fits_example : Fits links config normalized
unfolding normalize_request choose_privilege text_eq choose_mode check_command trim_space ltb_ℤ
    check_limits choose_times is_zero choose_sizes check_context normalize_cwd is_abs clean
    allow_cwd find_prefix path_has_prefix contains has_prefix check_argv check_shell choose_root
    is_control_key is_env_key resolved_prefix validate_control_key validate_entry validate_env
normalize_request-Fits_example =
    normalize_request-Fits links (uptime (codes "HTTP_PROXY")) normalized config refl

normalize_cwd-Allowed_example :
    ((path : Text) × (links path ≡ some (codes "/srv/app")))
    × (((text_eq privilege_user privilege_root && config.execution.allow_any_cwd_for_root) ≡ true)
        ⊎ Allowed links config.execution.allowed_cwd_prefixes_for_user (codes "/srv/app"))
unfolding text_eq normalize_cwd is_abs clean allow_cwd find_prefix path_has_prefix has_prefix
    resolved_prefix
normalize_cwd-Allowed_example =
    normalize_cwd-Allowed links (codes "/app/") privilege_user (codes "/srv/app") config.execution
      refl

denied : normalize_request links (uptime (codes "LD_PRELOAD")) config ≡ rejected env_key_denied
unfolding normalize_request choose_privilege text_eq choose_mode check_command trim_space ltb_ℤ
    check_limits choose_times is_zero choose_sizes check_context normalize_cwd is_abs clean
    allow_cwd find_prefix path_has_prefix contains has_prefix check_argv check_shell choose_root
    is_control_key is_env_key resolved_prefix validate_control_key validate_entry validate_env
denied = refl
