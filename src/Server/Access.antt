-- ===== src/Server/Access.antt =====
-- Who gets an answer about a job, and what a request without a valid token can do.
use vpsops.Base.{
  ℕ, ◌≡◌, ◌≢◌, refl, ap, ◌∙◌, ◌⊎◌, inl, inr, true, Bool-cases, Option, none, some, Option-cases,
  Text, text_eq, text_eq-true, ℤ, arith,
}
use vpsops.Types.{JobMetadata, AuthInfo}
use vpsops.Os.{OsError, Os, Json, ok, err, Result-cases}
use vpsops.Store.{is_job_id, read_metadata}
use vpsops.Job.{Job}
use vpsops.Lifecycle.{Lifecycle, get_job, authorize_job_access}
use vpsops.Auth.{Authenticated, AuthError, identified, refused, authenticate}
use vpsops.Http.{Request, Packages, Response, write_error}
use vpsops.Server.{
  Server, Gate, stopped, passed, Started, answered, rate_limited, unauthorized,
  authenticate_request, handle_run,
}
use vpsops.Server.Jobs.{JobRoute, check_job, handle_job}

pub Authenticated-cases :
    (a : Authenticated)
    → ((who : AuthInfo) × (a ≡ identified who)) ⊎ ((e : AuthError) × (a ≡ refused e))
Authenticated-cases (identified who) = inl (who, refl)
Authenticated-cases (refused e) = inr (e, refl)

module _ (os : Os) (json : Json) (l : Lifecycle) (who : AuthInfo) (job_id : Text) (fs : os.Fs) where
  -- The token may use root, or is the one that the job was submitted with: as the daemon remembers,
  -- or else as the job's metadata say.
  abbrev pub MayAccess : Type 0
  MayAccess =
      (who.allow_root ≡ true)
      ⊎ (((p : ℕ) × (j : Job) × (get_job os json l job_id ≡ some (p, j))
            × (j.token_id ≡ who.token_id))
          ⊎ ((meta : JobMetadata) × (get_job os json l job_id ≡ none)
              × (read_metadata os json l.store job_id fs ≡ ok meta)
              × (meta.token_id ≡ who.token_id)))

  authorize_job_access-MayAccess :
      authorize_job_access os json l who job_id fs ≡ ok true → MayAccess
  unfolding authorize_job_access
  authorize_job_access-MayAccess h = elim (Bool-cases who.allow_root) [
    | inl root ↦ inl root
    | inr plain ↦ elim (Option-cases (get_job os json l job_id)) [
      | inr ((p, j), found) ↦
          let same : text_eq j.token_id who.token_id ≡ true = ground (arith, h, plain, found) in
          inr (inl (p, j, found, text_eq-true j.token_id who.token_id same))
      | inl gone ↦ elim (Result-cases (read_metadata os json l.store job_id fs)) [
        | inl (meta, stored) ↦
            let same : text_eq meta.token_id who.token_id ≡ true =
              ground (arith, h, plain, gone, stored) in
            inr (inr (meta, gone, stored, text_eq-true meta.token_id who.token_id same))
        | inr (e, failed) ↦ absurd (failure e (ground (arith, h, plain, gone, failed)))
      ]
    ]
  ]
    where
      failure : (e : OsError) → err e ≡ ok true → ⊥
      failure e p = cc

  check_job-passed :
      (net : Packages) (auth : AuthInfo)
      → check_job os json net l who job_id fs ≡ passed auth
      → (is_job_id job_id ≡ true) × MayAccess
  unfolding check_job
  check_job-passed net auth h =
      let both : (is_job_id job_id ≡ true)
          × (authorize_job_access os json l who job_id fs ≡ ok true) =
        ground (arith, h) in
      (both.0, authorize_job_access-MayAccess both.1)

pub Gate-cases :
    (g : Gate) → ((who : AuthInfo) × (g ≡ passed who)) ⊎ ((reply : Response) × (g ≡ stopped reply))
Gate-cases (passed who) = inl (who, refl)
Gate-cases (stopped reply) = inr (reply, refl)

-- No refusal of authenticateRequest is a success.
unauthorized-status :
    (reply : Response) → (reply ≡ rate_limited) ⊎ (reply ≡ unauthorized) → reply.status ≢ 200
unfolding write_error
unauthorized-status reply (inl e) h = absurd (omega (arith, ap (λ (x : Response). x.status) e, h))
unauthorized-status reply (inr e) h = absurd (omega (arith, ap (λ (x : Response). x.status) e, h))

module _ (os : Os) (json : Json) (net : Packages) where
  check_job-stopped :
      (l : Lifecycle) (auth : AuthInfo) (job_id : Text) (fs : os.Fs) (reply : Response)
      → check_job os json net l auth job_id fs ≡ stopped reply
      → reply.status ≢ 200
  unfolding check_job write_error
  check_job-stopped l auth job_id fs reply h = ground (arith, h)

  -- A job's handler behind a valid token.
  identified_job :
      (route : JobRoute) (s s' : Server) (r : Request) (now : ℤ) (fs : os.Fs) (who : AuthInfo)
      (reply : Response)
      → authenticate net.sha256_hex r.authorization s.cfg ≡ identified who
      → handle_job os json net route s r now fs ≡ some (s', reply)
      → reply.status ≡ 200
      → (is_job_id r.path_job_id ≡ true) × MayAccess os json s.lifecycle who r.path_job_id fs
  unfolding handle_job authenticate_request
  identified_job route s s' r now fs who reply known h done =
      elim (Gate-cases (check_job os json net s.lifecycle who r.path_job_id fs)) [
        | inl (auth, through) ↦
            check_job-passed os json s.lifecycle who r.path_job_id fs net auth through
        | inr (refusal, stop) ↦
            let same : refusal ≡ reply = ground (arith, h, known, stop) in
            absurd (
              check_job-stopped s.lifecycle who r.path_job_id fs refusal stop
                (ap (λ (x : Response). x.status) same ∙ done))
      ]

  -- And behind none.
  refused_job :
      (route : JobRoute) (s s' : Server) (r : Request) (now : ℤ) (fs : os.Fs) (e : AuthError)
      (reply : Response)
      → authenticate net.sha256_hex r.authorization s.cfg ≡ refused e
      → handle_job os json net route s r now fs ≡ some (s', reply)
      → (s'.lifecycle ≡ s.lifecycle) × ((reply ≡ rate_limited) ⊎ (reply ≡ unauthorized))
  unfolding handle_job authenticate_request
  refused_job route s s' r now fs e reply unknown h = ground (arith, h, unknown)

  refused_run :
      (links : Text → Option Text) (s s' : Server) (r : Request) (job_id : Text) (now : ℤ)
      (fs fs' : os.Fs) (e : AuthError) (started : Started)
      → authenticate net.sha256_hex r.authorization s.cfg ≡ refused e
      → handle_run os json net links s r job_id now fs ≡ some (s', started, fs')
      → (s'.lifecycle ≡ s.lifecycle)
        × (fs' ≡ fs)
        × ((started ≡ answered rate_limited) ⊎ (started ≡ answered unauthorized))
  unfolding handle_run authenticate_request
  refused_run links s s' r job_id now fs fs' e started unknown h = ground (arith, h, unknown)

-- Whichever of a job's four routes is asked, a reply with status 200 goes only to a request with a
-- valid token, for a job id that the pattern admits, and only if the token may use root or is the
-- one that the job was submitted with.
pub handle_job-MayAccess :
    (os : Os) (json : Json) (net : Packages) (route : JobRoute) (s s' : Server) (r : Request)
    (now : ℤ) (fs : os.Fs) (reply : Response)
    → handle_job os json net route s r now fs ≡ some (s', reply)
    → reply.status ≡ 200
    → (who : AuthInfo) × (authenticate net.sha256_hex r.authorization s.cfg ≡ identified who)
      × (is_job_id r.path_job_id ≡ true)
      × MayAccess os json s.lifecycle who r.path_job_id fs
handle_job-MayAccess os json net route s s' r now fs reply h done =
    elim (Authenticated-cases (authenticate net.sha256_hex r.authorization s.cfg)) [
      | inl (who, known) ↦
          let (named, allowed) =
            identified_job os json net route s s' r now fs who reply known h done in
          (who, known, named, allowed)
      | inr (e, unknown) ↦ absurd (
          unauthorized-status reply
            (refused_job os json net route s s' r now fs e reply unknown h).1 done)
    ]

-- A request without a valid token gets status 401 or 429 from every handler but handleHealth, and
-- changes neither the jobs nor a file.
pub handlers-refused :
    (os : Os) (json : Json) (net : Packages) (links : Text → Option Text) (route : JobRoute)
    (s s1 s2 : Server) (r : Request) (job_id : Text) (now : ℤ) (fs fs' : os.Fs) (e : AuthError)
    (reply : Response) (started : Started)
    → authenticate net.sha256_hex r.authorization s.cfg ≡ refused e
    → handle_job os json net route s r now fs ≡ some (s1, reply)
    → handle_run os json net links s r job_id now fs ≡ some (s2, started, fs')
    → (s1.lifecycle ≡ s.lifecycle)
      × (s2.lifecycle ≡ s.lifecycle)
      × (fs' ≡ fs)
      × ((reply ≡ rate_limited) ⊎ (reply ≡ unauthorized))
      × ((started ≡ answered rate_limited) ⊎ (started ≡ answered unauthorized))
handlers-refused os json net links route s s1 s2 r job_id now fs fs' e reply started unknown h1 h2 =
    let (jobs, refusal) = refused_job os json net route s s1 r now fs e reply unknown h1 in
    let (kept, files, answer) =
      refused_run os json net links s s2 r job_id now fs fs' e started unknown h2 in
    (jobs, kept, files, refusal, answer)
