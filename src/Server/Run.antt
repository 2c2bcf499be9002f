-- ===== src/Server/Run.antt =====
-- What handleRun hands to prepareJob, and so to runJob.
use vpsops.Base.{
  get_elem?, ℕ, ◌≡◌, refl, subst, ap, ◌∙◌, ◌⊎◌, inl, inr, Bool, false, Sum-cases, Option, some,
  Option-cases, not, ◌&&◌, Text, text_eq, ℤ, arith,
}
use vpsops.Types.{Config, AuthInfo, RunRequest, privilege_root}
use vpsops.Limiter.{record_success}
use vpsops.Os.{Os, Json}
use vpsops.Lifecycle.Idempotency.{prepare_job-at}
use vpsops.Lifecycle.{Lifecycle, new_job, Prepared, prepared, prepare_job, PrepareError}
use vpsops.Auth.{identified, authenticate}
use vpsops.Validation.{Invalid, accepted, rejected, Checked, normalize_request}
use vpsops.Validation.Request.{Fits, normalize_request-Fits}
use vpsops.Http.{
  Request, Packages, peer_address, Decoded, decoded, undecodable, DecodeError, client_address,
  request_hash, decode_run_request,
}
use vpsops.Server.{Server, waits_for, authenticate_request, check_run, start_run, handle_run}
use vpsops.Server.Access.{Authenticated-cases}

pub Decoded-cases {ℓ} :
    {A : Type ℓ} (d : Decoded A)
    → ((a : A) × (d ≡ decoded a)) ⊎ ((e : DecodeError) × (d ≡ undecodable e))
Decoded-cases (decoded a) = inl (a, refl)
Decoded-cases (undecodable e) = inr (e, refl)

pub Checked-cases {ℓ} :
    {A : Type ℓ} (c : Checked A) → ((e : A) × (c ≡ accepted e)) ⊎ ((e : Invalid) × (c ≡ rejected e))
Checked-cases (accepted a) = inl (a, refl)
Checked-cases (rejected e) = inr (e, refl)

-- What check_run lets through.
check_run-checked :
    (net : Packages) (links : Text → Option Text) (cfg : Config) (auth : AuthInfo) (r : Request)
    (req : RunRequest)
    → check_run net links cfg auth r ≡ inr req
    → ((body : Text) × (raw : RunRequest) × (r.body cfg.limits.max_request_bytes ≡ some body)
        × (decode_run_request net body ≡ decoded raw)
        × (normalize_request links raw cfg ≡ accepted req))
      × ((text_eq req.privilege privilege_root && not auth.allow_root) ≡ false)
unfolding check_run
check_run-checked net links cfg auth r req h =
    elim (Option-cases (r.body cfg.limits.max_request_bytes)) [
      | inl large ↦ absurd (ground (arith, h, large))
      | inr (body, read) ↦ elim (Decoded-cases (decode_run_request net body)) [
        | inr (e, bad) ↦ absurd (ground (arith, h, read, bad))
        | inl (raw, good) ↦ elim (Checked-cases (normalize_request links raw cfg)) [
          | inr (e, bad) ↦ absurd (ground (arith, h, read, good, bad))
          | inl (req', fits) ↦
              let root : (text_eq req'.privilege privilege_root && not auth.allow_root) ≡ false =
                ground (arith, h, read, good, fits) in
              let same : req' ≡ req = ground (arith, h, read, good, fits, root) in
              (
                (body, raw, read, good, fits ∙ ap accepted same),
                subst
                    (λ (x : RunRequest).
                      (text_eq x.privilege privilege_root && not auth.allow_root) ≡ false)
                    same root,
              )
        ]
      ]
    ]

pub Prepared-cases :
    (o : Prepared)
    → ((p : ℕ) × (reused : Bool) × (o ≡ prepared p reused))
      ⊎ ((e : PrepareError) × (o ≡ Prepared.refused e))
Prepared-cases (prepared p reused) = inl (p, reused, refl)
Prepared-cases (Prepared.refused e) = inr (e, refl)

module _ (os : Os) (json : Json) (net : Packages) (links : Text → Option Text) (s s' : Server)
    (who : AuthInfo) (r : Request) (job_id : Text) (now : ℤ) (fs fs' : os.Fs) (p : ℕ)
    (req : RunRequest) where
  abbrev outcome_of : RunRequest → Lifecycle × Prepared × os.Fs
  outcome_of asked =
      prepare_job os json s.lifecycle asked (request_hash net asked) who (client_address net r)
        job_id now fs

  -- What start_run has done where there is a new job to wait for.
  start_run-new :
      start_run os json net links s who r job_id now fs ≡ (s', waits_for p false req, fs')
      → (check_run net links s.cfg who r ≡ inr req)
        × (outcome_of req ≡ (s'.lifecycle, prepared p false, fs'))
  unfolding start_run
  start_run-new h = elim (Sum-cases (check_run net links s.cfg who r)) [
    | inl (reply, stop) ↦ absurd (ground (arith, h, stop))
    | inr (asked, go) ↦ elim (Prepared-cases (outcome_of asked).1) [
      | inr (e, no_job) ↦ absurd (ground (arith, h, go, no_job))
      | inl (q, reused, made) ↦
          let same : (asked ≡ req) × (q ≡ p) × (reused ≡ false) = ground (arith, h, go, made) in
          let kept : ((outcome_of asked).0 ≡ s'.lifecycle) × ((outcome_of asked).2 ≡ fs') =
            ground (arith, h, go, made) in
          let whole : outcome_of asked ≡ (s'.lifecycle, prepared p false, fs') =
            ground (arith, kept, made, same) in
          (
            go ∙ ap inr same.0,
            subst (λ x. outcome_of x ≡ (s'.lifecycle, prepared p false, fs')) same.0 whole,
          )
    ]
  ]

-- A job that handleRun has made new: the request has a valid token and keeps every limit and rule
-- of the configuration, root is asked for only if the token may use it, and the job carries the
-- token's id, the client's address and the hash of the request.
pub handle_run-Fits :
    (os : Os) (json : Json) (net : Packages) (links : Text → Option Text) (s s' : Server)
    (r : Request) (job_id : Text) (now : ℤ) (fs fs' : os.Fs) (p : ℕ) (req : RunRequest)
    → handle_run os json net links s r job_id now fs ≡ some (s', waits_for p false req, fs')
    → (who : AuthInfo) × (authenticate net.sha256_hex r.authorization s.cfg ≡ identified who)
      × Fits links s.cfg req
      × ((text_eq req.privilege privilege_root && not who.allow_root) ≡ false)
      × (get_elem? s'.lifecycle.heap p
          ≡ some
              (new_job job_id req.lock_key (request_hash net req) who (client_address net r) now))
unfolding handle_run authenticate_request
handle_run-Fits os json net links s s' r job_id now fs fs' p req h =
    elim (Authenticated-cases (authenticate net.sha256_hex r.authorization s.cfg)) [
      | inr (e, unknown) ↦ absurd (ground (arith, h, unknown))
      | inl (who, known) ↦
          let s1 = record s { limiter = record_success s.limiter (peer_address net r) } in
          let begun : start_run os json net links s1 who r job_id now fs
              ≡ (s', waits_for p false req, fs') =
            ground (arith, h, known) in
          let (checked, made) =
            start_run-new os json net links s1 s' who r job_id now fs fs' p req begun in
          let ((body, raw, read, parsed, fits), root) =
            check_run-checked net links s.cfg who r req checked in
          (
            who,
            known,
            normalize_request-Fits links raw req s.cfg fits,
            root,
            prepare_job-at os json s.lifecycle s'.lifecycle req (request_hash net req) who
                (client_address net r) job_id now fs fs' p made,
          )
    ]
