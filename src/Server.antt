-- ===== src/Server.antt =====
-- NewServer and handleRun of internal/execd/server.go; the handlers of jobs are in Server/Jobs. A
-- handler takes the server and the file system, and gives the server, the reply and the file
-- system; `none` is a panic. What handlers log is not modelled. Arguments that the code reads from
-- its surroundings: the time, a fresh job id, and what filepath.EvalSymlinks gives at that moment.
pub mod Jobs
pub mod Access
pub mod Run
pub mod Refusals
pub mod Tail
pub mod Throttle
pub mod Stored
pub mod Timeouts
pub mod Tests
use vpsops.Base.{
  ℕ, Bool, true, false, get_elem?, Option, none, some, List, [], ◌∷◌, ◌&&◌, ◌||◌, not,
  if◌then◌else◌, Text, codes, text_eq, ◌⊎◌, inl, inr, ℤ, pos, ◌+ℤ◌, ◌-ℤ◌, ltb_ℤ, wrap64,
}
use vpsops.Types.{RunRequest, RunResult, JobSummary, Config, AuthInfo, privilege_root}
use vpsops.Limiter.{
  Limiter, new_limiter, record_failure_and_exceeded, record_success, duration_seconds,
}
use vpsops.Auth.{Authenticated, identified, refused, authenticate}
use vpsops.Validation.{Checked, accepted, rejected, normalize_request}
use vpsops.Path.{clean}
use vpsops.Os.{Os, Json, OsError, Result, ok, err}
use vpsops.Store.{is_job_id, new_job_store, read_result, read_output_tail}
use vpsops.Store.Cleanup.{cleanup, Protected}
use vpsops.Job.{Job, summary}
use vpsops.Lifecycle.{
  Lifecycle, new_lifecycle, Prepared, prepared, PrepareError, busy, lock_busy, idempotency_conflict,
  store_failed, prepare_job, get_job, authorize_job_access, cancel_job, running_count,
}
use vpsops.Lifecycle.Prune.{package_sort}
use vpsops.Http.{
  Request, Packages, Response, Body, Health, Decoded, decoded, undecodable, Message, literal,
  of_invalid, of_decode, error_body, health_body, result_body, summary_body, output_body,
  write_json, write_error, write_error_retry, peer_address, client_address, parse_tail_bytes,
  decode_run_request, request_decode_error_code, request_hash,
}

pub record Server : Type 0 where
  pub cfg : Config
  pub lifecycle : Lifecycle
  pub limiter : Option Limiter

abbrev pub max_ℤ : ℤ → ℤ → ℤ
max_ℤ a b = if ltb_ℤ a b then b else a

-- The http.Server's WriteTimeout.
unfoldable pub write_timeout : Config → ℤ
write_timeout cfg = duration_seconds (max_ℤ (pos 60) (wrap64 (cfg.limits.max_wait_sec +ℤ pos 5)))

-- handleHealth
unfoldable pub handle_health : Server → Response
handle_health s =
    let running = running_count s.lifecycle in
    write_json 200 (
      health_body (record {
        concurrency = s.cfg.limits.concurrency;
        running_jobs = running;
        available_slots = max_ℤ (pos 0) (s.cfg.limits.concurrency -ℤ pos running);
      }))

-- How far a handler's guards let a request through.
pub data Gate : Type 0 where
  stopped : Response → Gate
  passed : AuthInfo → Gate

abbrev pub bad_request : Text → Text → Response
bad_request code message = write_error 400 code (literal message)

abbrev pub not_found : Response
not_found = write_error 404 (codes "job_not_found") (literal (codes "job not found"))

abbrev pub unauthorized : Response
unauthorized = write_error 401 (codes "unauthorized") (literal (codes "unauthorized"))

abbrev pub rate_limited : Response
rate_limited =
    write_error 429 (codes "auth_rate_limited") (literal (codes "too many authentication failures"))

-- authenticateRequest: the limiter, and the gate
unfoldable pub authenticate_request :
    Packages → Config → Option Limiter → Request → ℤ → Option (Option Limiter × Gate)
authenticate_request net cfg limiter r now =
    let peer = peer_address net r in
    elim (authenticate net.sha256_hex r.authorization cfg) [
      | identified auth ↦ some (record_success limiter peer, passed auth)
      | refused e ↦ elim (record_failure_and_exceeded limiter peer now) [
        | none ↦ none
        | some (limiter', exceeded) ↦
            some (limiter', stopped (if exceeded then rate_limited else unauthorized))
      ]
    ]

-- What the answer to a request with a body is, before there is a job to wait for.
pub data Started : Type 0 where
  answered : Response → Started
  -- The job, whether it is reused, and the request that runJob gets.
  waits_for : ℕ → Bool → RunRequest → Started

-- The replies to the errors of prepareJob.
unfoldable pub prepare_error : PrepareError → Response
prepare_error busy =
    write_error_retry 409 (codes "executor_busy") (literal (codes "executor is busy")) 1
prepare_error lock_busy = write_error 409 (codes "lock_busy") (literal (codes "lock_key is busy"))
prepare_error idempotency_conflict =
    write_error 409 (codes "idempotency_conflict")
      (literal (codes "idempotency key reused with different request"))
prepare_error (store_failed e) =
    write_error 500 (codes "prepare_failed") (literal (codes "prepare job failed"))

-- The end of handleRun: either the job is done or the wait is over.
unfoldable pub respond_run : Bool → Job → Response
respond_run true j = write_json 200 (result_body (summary j).result)
respond_run false j = write_json 202 (summary_body (summary j))

-- The guards of handleRun behind its authentication, up to the request that prepareJob gets.
unfoldable pub check_run :
    Packages → (Text → Option Text) → Config → AuthInfo → Request → Response ⊎ RunRequest
check_run net links cfg auth r = elim (r.body cfg.limits.max_request_bytes) [
  | none ↦
      inl (
        write_error 413 (codes "request_body_too_large") (literal (codes "request body too large")))
  | some body ↦ elim (decode_run_request net body) [
    | undecodable e ↦ inl (
        if text_eq (request_decode_error_code e) (codes "invalid_json")
        then bad_request (codes "invalid_json") (codes "invalid json")
        else write_error 400 (codes "invalid_request") (of_decode e))
    | decoded req ↦ elim (normalize_request links req cfg) [
      | rejected e ↦ inl (write_error 400 (codes "invalid_request") (of_invalid e))
      | accepted req' ↦
          if text_eq req'.privilege privilege_root && not auth.allow_root
          then inl (
              write_error 403 (codes "forbidden_root")
                (literal (codes "root privilege requires root-capable token")))
          else inr req'
    ]
  ]
]

module _ (os : Os) (json : Json) (net : Packages) where
  open os use {Fs}

  -- handleRun up to its select
  unfoldable pub start_run :
      (Text → Option Text) → Server → AuthInfo → Request → Text → ℤ → Fs → Server × Started × Fs
  unfolding check_run
  start_run links s auth r job_id now fs = elim (check_run net links s.cfg auth r) [
    | inl reply ↦ (s, answered reply, fs)
    | inr req ↦
        let (lifecycle, outcome, fs') =
          prepare_job os json s.lifecycle req (request_hash net req) auth (client_address net r)
            job_id now fs in
        (
          record s { lifecycle = lifecycle },
          elim outcome [
            | prepared p reused ↦ waits_for p reused req
            | Prepared.refused e ↦ answered (prepare_error e)
          ],
          fs',
        )
  ]

  unfoldable pub handle_run :
      (Text → Option Text) → Server → Request → Text → ℤ → Fs → Option (Server × Started × Fs)
  unfolding start_run
  handle_run links s r job_id now fs = elim (authenticate_request net s.cfg s.limiter r now) [
    | none ↦ none
    | some (limiter, gate) ↦
        let s' = record s { limiter = limiter } in
        some (elim gate [
          | stopped reply ↦ (s', answered reply, fs)
          | passed auth ↦ start_run links s' auth r job_id now fs
        ])
  ]

  -- NewServer: the first Cleanup's report is only logged.
  unfoldable pub new_server : Config → ℤ → Fs → Result Server × Fs
  new_server cfg now fs =
      let (made, fs1) = os.mkdir_all cfg.storage.log_dir fs in
      elim made [
        | err e ↦ (err e, fs1)
        | ok u ↦
            let (opened, fs2) = new_job_store os json cfg.storage.job_dir fs1 in
            elim opened [
              | err e ↦ (err e, fs2)
              | ok store ↦ (
                ok (record {
                  cfg = cfg;
                  lifecycle = new_lifecycle store cfg.storage cfg.limits;
                  limiter = new_limiter cfg.security;
                }),
                (cleanup os json (package_sort os) store cfg.storage cfg.limits (λ id. false) now
                    fs2).1,
              )
            ]
      ]
