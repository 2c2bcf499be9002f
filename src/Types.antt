-- ===== src/Types.antt =====
-- internal/execd/types.go and the configuration records of internal/execd/config.go. A Go `int` or
-- `int64` is an integer, a `time.Time` a number of nanoseconds, a pointer an `Option`, and a
-- `map[string]string` an association list in the order in which Go's `range` visits it.
use vpsops.Base.{Bool, Option, List, Text, ℤ, codes}
use vpsops.Limiter.{SecurityConfig}

abbrev pub privilege_user : Text
privilege_user = codes "user"

abbrev pub privilege_root : Text
privilege_root = codes "root"

abbrev pub state_queued : Text
state_queued = codes "queued"

abbrev pub state_running : Text
state_running = codes "running"

abbrev pub state_succeeded : Text
state_succeeded = codes "succeeded"

abbrev pub state_failed : Text
state_failed = codes "failed"

abbrev pub state_timed_out : Text
state_timed_out = codes "timed_out"

abbrev pub state_canceled : Text
state_canceled = codes "canceled"

abbrev pub state_start_failed : Text
state_start_failed = codes "start_failed"

pub record RunRequest : Type 0 where
  pub mode : Text
  pub cmd : Text
  pub argv : List Text
  pub privilege : Text
  pub root : Option Bool
  pub cwd : Text
  pub env : List (Text × Text)
  pub stdin : Text
  pub timeout_sec : ℤ
  pub wait_sec : ℤ
  pub kill_grace_sec : ℤ
  pub max_stdout_bytes : ℤ
  pub max_stderr_bytes : ℤ
  pub max_stdout_log_bytes : ℤ
  pub max_stderr_log_bytes : ℤ
  pub idempotency_key : Text
  pub lock_key : Text
  pub wait_sec_set : Bool

pub record RunResult : Type 0 where
  pub job_id : Text
  pub state : Text
  pub exit_code : ℤ
  pub signal : Option Text
  pub timed_out : Bool
  pub stdout : Text
  pub stderr : Text
  pub stdout_truncated : Bool
  pub stderr_truncated : Bool
  pub stdout_log_truncated : Bool
  pub stderr_log_truncated : Bool
  pub duration_ms : ℤ
  pub started_at : ℤ
  pub finished_at : ℤ
  pub error : Text

pub record JobSummary : Type 0 where
  pub job_id : Text
  pub state : Text
  pub started_at : ℤ
  pub finished_at : Option ℤ
  pub result : Option RunResult

pub record JobMetadata : Type 0 where
  pub job_id : Text
  pub token_id : Text
  pub privilege : Text
  pub remote_addr : Text
  pub lock_key : Text
  pub idempotency_key : Text
  pub request_hash : Text
  pub created_at : ℤ

pub record TokenConfig : Type 0 where
  pub id : Text
  pub sha256 : Text
  pub allow_root : Bool

pub record LimitsConfig : Type 0 where
  pub default_timeout_sec : ℤ
  pub max_timeout_sec : ℤ
  pub default_wait_sec : ℤ
  pub max_wait_sec : ℤ
  pub default_kill_grace_sec : ℤ
  pub max_request_bytes : ℤ
  pub max_cmd_bytes : ℤ
  pub max_stdin_bytes : ℤ
  pub default_stdout_bytes : ℤ
  pub default_stderr_bytes : ℤ
  pub max_stdout_bytes : ℤ
  pub max_stderr_bytes : ℤ
  pub default_stdout_log_bytes : ℤ
  pub default_stderr_log_bytes : ℤ
  pub max_stdout_log_bytes : ℤ
  pub max_stderr_log_bytes : ℤ
  pub concurrency : ℤ
  pub max_jobs_retained : ℤ

pub record ExecutionConfig : Type 0 where
  pub shell_path : Text
  pub shell_args : List Text
  pub fixed_path : Text
  pub allow_any_cwd_for_root : Bool
  pub allowed_cwd_prefixes_for_user : List Text
  pub run_user : Text
  pub root_home : Text
  pub run_home : Text

pub record EnvConfig : Type 0 where
  pub allow : List Text
  pub deny : List Text

pub record StorageConfig : Type 0 where
  pub job_dir : Text
  pub log_dir : Text
  pub retention_days : ℤ
  pub max_total_job_bytes : ℤ

pub record HelpersConfig : Type 0 where
  pub sudo_path : Text
  pub run_child_path : Text
  pub root_child_path : Text

pub record Config : Type 0 where
  pub listen : Text
  pub tokens : List TokenConfig
  pub limits : LimitsConfig
  pub security : SecurityConfig
  pub execution : ExecutionConfig
  pub env : EnvConfig
  pub storage : StorageConfig
  pub helpers : HelpersConfig

-- AuthInfo of internal/execd/auth.go
pub record AuthInfo : Type 0 where
  pub token_id : Text
  pub allow_root : Bool
