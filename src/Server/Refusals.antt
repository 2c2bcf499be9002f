-- ===== src/Server/Refusals.antt =====
-- What a request for a job leaves behind when it is refused.
use vpsops.Base.{
  ◌≤◌, ◌≡◌, refl, sym, ap, subst, ◌∙◌, inl, inr, false, Sum-cases, Option, some, Text, ℤ, arith,
}
use vpsops.Types.{Config, AuthInfo, RunRequest}
use vpsops.Os.{Os, Json}
use vpsops.Job.{Job}
use vpsops.Limiter.{record_success}
use vpsops.Auth.{authenticate}
use vpsops.Lifecycle.{
  Lifecycle, new_job, Prepared, prepared, prepare_job, PrepareError, busy, lock_busy,
  idempotency_conflict, store_failed,
}
use vpsops.Lifecycle.Prepare.{Unlocked, Effect, unchanged, admitted, prepare_job-Effect}
use vpsops.Http.{
  Request, Packages, Response, peer_address, client_address, request_hash, write_error,
  write_error_retry,
}
use vpsops.Server.{
  Server, answered, authenticate_request, check_run, start_run, handle_run, prepare_error,
}
use vpsops.Server.Access.{Authenticated-cases}
use vpsops.Server.Run.{Prepared-cases}

-- Another lifecycle with the same jobs and as many slots in use.
pub record SameJobs (l l' : Lifecycle) : Type 0 where
  pub sem : l'.sem ≡ l.sem
  pub heap : l'.heap ≡ l.heap
  pub jobs : l'.jobs ≡ l.jobs
  pub idempotency : l'.idempotency ≡ l.idempotency

same_lifecycle : (l l' : Lifecycle) → l' ≡ l → SameJobs l l'
same_lifecycle l l' e = rw e (record { sem = refl; heap = refl; jobs = refl; idempotency = refl })

Unlocked-SameJobs : (l l' : Lifecycle) (key : Text) → Unlocked l l' key → SameJobs l l'
Unlocked-SameJobs l l' key (inl e) = same_lifecycle l l' e
Unlocked-SameJobs l l' key (inr (p, j, e, d, same)) =
    rw same (record { sem = refl; heap = refl; jobs = refl; idempotency = refl })

Effect-SameJobs :
    (os : Os) (json : Json) (l l' : Lifecycle) (req : RunRequest) (j : Job) (out : Prepared)
    (e : PrepareError)
    → Effect os json l req j l' out
    → out ≡ Prepared.refused e
    → SameJobs l l'
Effect-SameJobs os json l l' req j out e (unchanged u old) r = Unlocked-SameJobs l l' req.lock_key u
Effect-SameJobs os json l l' req j out e (admitted l1 u free room new made) r =
    let clash : Prepared.refused e ≡ prepared _ false = sym r ∙ made in cc

prepare_error-status : (e : PrepareError) → 400 ≤ (prepare_error e).status
unfolding prepare_error write_error write_error_retry
prepare_error-status busy = omega arith
prepare_error-status lock_busy = omega arith
prepare_error-status idempotency_conflict = omega arith
prepare_error-status (store_failed e) = omega arith

check_run-status :
    (net : Packages) (links : Text → Option Text) (cfg : Config) (auth : AuthInfo) (r : Request)
    (reply : Response)
    → check_run net links cfg auth r ≡ inl reply
    → 400 ≤ reply.status
unfolding check_run write_error write_error_retry
check_run-status net links cfg auth r reply h = ground (arith, h)

module _ (os : Os) (json : Json) (net : Packages) (links : Text → Option Text) (s s' : Server)
    (who : AuthInfo) (r : Request) (job_id : Text) (now : ℤ) (fs fs' : os.Fs)
    (reply : Response) where
  abbrev outcome_of : RunRequest → Lifecycle × Prepared × os.Fs
  outcome_of asked =
      prepare_job os json s.lifecycle asked (request_hash net asked) who (client_address net r)
        job_id now fs

  start_run-answered :
      start_run os json net links s who r job_id now fs ≡ (s', answered reply, fs')
      → (400 ≤ reply.status) × SameJobs s.lifecycle s'.lifecycle
  unfolding start_run
  start_run-answered h = elim (Sum-cases (check_run net links s.cfg who r)) [
    | inl (refusal, stop) ↦
        let same : refusal ≡ reply = ground (arith, h, stop) in
        let kept : s'.lifecycle ≡ s.lifecycle = ground (arith, h, stop) in
        (
          check_run-status net links s.cfg who r reply (stop ∙ ap inl same),
          same_lifecycle s.lifecycle s'.lifecycle kept,
        )
    | inr (asked, go) ↦ elim (Prepared-cases (outcome_of asked).1) [
      | inl (p, reused, made) ↦ absurd (ground (arith, h, go, made))
      | inr (e, no_job) ↦
          let same : prepare_error e ≡ reply = ground (arith, h, go, no_job) in
          let kept : (outcome_of asked).0 ≡ s'.lifecycle = ground (arith, h, go) in
          (
            subst (λ (x : Response). 400 ≤ x.status) same (prepare_error-status e),
            subst (λ (x : Lifecycle). SameJobs s.lifecycle x) kept
                (Effect-SameJobs os json s.lifecycle (outcome_of asked).0 asked
                  (new_job job_id asked.lock_key (request_hash net asked) who (client_address net r)
                    now)
                  (outcome_of asked).1 e
                  (prepare_job-Effect os json s.lifecycle asked (request_hash net asked) who
                    (client_address net r) job_id now fs)
                  no_job),
          )
    ]
  ]

-- If handleRun answers at once, without a job to wait for, then its status says that the request
-- has failed (it is 400 or more), no slot has been taken or given back, and the jobs in memory and
-- their idempotency keys are as before.
pub handle_run-answered :
    (os : Os) (json : Json) (net : Packages) (links : Text → Option Text) (s s' : Server)
    (r : Request) (job_id : Text) (now : ℤ) (fs fs' : os.Fs) (reply : Response)
    → handle_run os json net links s r job_id now fs ≡ some (s', answered reply, fs')
    → (400 ≤ reply.status) × SameJobs s.lifecycle s'.lifecycle
unfolding handle_run authenticate_request write_error write_error_retry
handle_run-answered os json net links s s' r job_id now fs fs' reply h =
    elim (Authenticated-cases (authenticate net.sha256_hex r.authorization s.cfg)) [
      | inl (who, known) ↦
          let s1 = record s { limiter = record_success s.limiter (peer_address net r) } in
          let begun : start_run os json net links s1 who r job_id now fs
              ≡ (s', answered reply, fs') =
            ground (arith, h, known) in
          start_run-answered os json net links s1 s' who r job_id now fs fs' reply begun
      | inr (e, unknown) ↦
          let status : 400 ≤ reply.status = ground (arith, h, unknown) in
          let kept : s'.lifecycle ≡ s.lifecycle = ground (arith, h, unknown) in
          (status, same_lifecycle s.lifecycle s'.lifecycle kept)
    ]
