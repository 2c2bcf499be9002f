-- ===== src/Server/Jobs.antt =====
-- handleJob, handleCancel and handleOutput of internal/execd/server.go, which share their guards.
use vpsops.Base.{ℕ, get_elem?, Option, none, some, not, if◌then◌else◌, Text, codes, inl, inr, ℤ}
use vpsops.Types.{Config, AuthInfo}
use vpsops.Path.{clean}
use vpsops.Os.{Os, Json, ok, err}
use vpsops.Store.{is_job_id, read_result, read_output_tail}
use vpsops.Job.{summary}
use vpsops.Lifecycle.{Lifecycle, get_job, authorize_job_access, cancel_job}
use vpsops.Http.{
  Request, Packages, Response, literal, summary_body, output_body, write_json, write_error,
  parse_tail_bytes,
}
use vpsops.Server.{
  Server, Gate, stopped, passed, bad_request, not_found, max_ℤ, authenticate_request,
}

-- The routes of NewServer that name a job.
pub data JobRoute : Type 0 where
  get_job_route cancel_route stdout_route stderr_route : JobRoute

module _ (os : Os) (json : Json) (net : Packages) where
  open os use {Fs}

  -- The guards that handleJob, handleCancel and handleOutput begin with, behind the authentication.
  unfoldable pub check_job : Lifecycle → AuthInfo → Text → Fs → Gate
  check_job l auth job_id fs =
      if not (is_job_id job_id)
      then stopped (bad_request (codes "invalid_job_id") (codes "invalid job_id"))
      else elim (authorize_job_access os json l auth job_id fs) [
        | err e ↦ stopped not_found
        | ok allowed ↦
            if allowed
            then passed auth
            else stopped (write_error 403 (codes "forbidden") (literal (codes "forbidden")))
      ]

  -- The end of handleJob.
  unfoldable pub show_job : Lifecycle → Text → Fs → Response
  show_job l job_id fs = elim (get_job os json l job_id) [
    | some (p, j) ↦ write_json 200 (summary_body (summary j))
    | none ↦ elim (read_result os json l.store job_id fs) [
      | err e ↦ not_found
      | ok res ↦ write_json 200 (
          summary_body (record {
            job_id = job_id;
            state = res.state;
            started_at = res.started_at;
            finished_at = some res.finished_at;
            result = some res;
          }))
    ]
  ]

  -- The job that a pointer of the heap stands for, as cancelJob returns it.
  abbrev pub summary_at : Lifecycle → ℕ → Response
  summary_at l p = elim (get_elem? l.heap p) [
    | none ↦ not_found
    | some j ↦ write_json 200 (summary_body (summary j))
  ]

  -- The end of handleCancel.
  unfoldable pub request_job_cancel : Lifecycle → Text → Lifecycle × Response
  request_job_cancel l job_id =
      let (l', outcome) = cancel_job l job_id in
      (
        l',
        elim outcome [
          | err e ↦ not_found
          | ok canceled ↦ elim canceled [
            | none ↦
                write_error 409 (codes "job_not_cancelable")
                  (literal (codes "job is not cancelable"))
            | some p ↦ summary_at l' p
          ]
        ],
      )

  -- The end of handleOutput for a file name.
  unfoldable pub show_output : Config → Lifecycle → Text → Request → Fs → Response
  show_output cfg l name r fs =
      elim (parse_tail_bytes net r
        (max_ℤ cfg.limits.max_stdout_log_bytes cfg.limits.max_stderr_log_bytes)) [
          | inr message ↦ bad_request (codes "invalid_tail_bytes") message
          | inl tail_bytes ↦
              elim (read_output_tail os json l.store r.path_job_id (clean name) tail_bytes fs) [
                | err e ↦
                    write_error 404 (codes "output_not_found") (literal (codes "output not found"))
                | ok b ↦ write_json 200 (output_body b)
              ]
        ]

  -- The handlers of these routes, behind the guards that they share.
  unfoldable pub serve_job : JobRoute → Config → Lifecycle → Request → Fs → Lifecycle × Response
  serve_job get_job_route cfg l r fs = (l, show_job l r.path_job_id fs)
  serve_job cancel_route cfg l r fs = request_job_cancel l r.path_job_id
  serve_job stdout_route cfg l r fs = (l, show_output cfg l (codes "stdout.log") r fs)
  serve_job stderr_route cfg l r fs = (l, show_output cfg l (codes "stderr.log") r fs)

  -- handleJob, handleCancel, and handleOutput of either name: none of them writes a file
  unfoldable pub handle_job : JobRoute → Server → Request → ℤ → Fs → Option (Server × Response)
  unfolding check_job serve_job
  handle_job route s r now fs = elim (authenticate_request net s.cfg s.limiter r now) [
    | none ↦ none
    | some (limiter, gate) ↦
        let s' = record s { limiter = limiter } in
        some (elim gate [
          | stopped reply ↦ (s', reply)
          | passed auth ↦ elim (check_job s.lifecycle auth r.path_job_id fs) [
            | stopped reply ↦ (s', reply)
            | passed auth' ↦
                let (l, reply) = serve_job route s.cfg s.lifecycle r fs in
                (record s' { lifecycle = l }, reply)
          ]
        ])
  ]
