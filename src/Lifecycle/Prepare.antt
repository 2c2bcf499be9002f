-- ===== src/Lifecycle/Prepare.antt =====
-- What prepareJob does to the lifecycle: it reuses or refuses, at most dropping the lock of a job
-- that is done, or it takes one slot and registers one new job.
use vpsops.Base.{
  ℕ, suc, ◌<◌, ◌≡◌, refl, ◌≢◌, ◌⊎◌, inl, inr, true, false, none, some, length, is_empty, ltb,
  ltb→lt, Text, text_eq, delete, ℤ, arith, Bool-cases, Option-cases,
}
use vpsops.Types.{RunRequest, AuthInfo}
use vpsops.Os.{Os, Json}
use vpsops.Job.{Job, job_done}
use vpsops.Lifecycle.{
  Lifecycle, capacity, entry, Prepared, prepared, release_slot, take_lock, new_job, register,
  persist, admit, reusable, prepare_job,
}

-- `l1` is `l`, or `l` without the lock of a job that is done.
abbrev pub Unlocked : Lifecycle → Lifecycle → Text → Type 0
Unlocked l l1 key =
    (l1 ≡ l)
    ⊎ ((p : ℕ) × (j : Job) × (entry key l.locks l.heap ≡ some (p, j))
        × (j.done ≡ true)
        × (l1 ≡ record l { locks = delete key l.locks }))

-- A lock is free if it is not asked for, nobody is entered for it, or its job is done.
abbrev pub IsFree : Lifecycle → Text → Type 0
IsFree l key =
    (is_empty key ≡ true)
    ⊎ (entry key l.locks l.heap ≡ none)
    ⊎ ((p : ℕ) × (j : Job) × (entry key l.locks l.heap ≡ some (p, j)) × (j.done ≡ true))

pub take_lock-some :
    (l l1 : Lifecycle) (key : Text) → take_lock l key ≡ some l1 → Unlocked l l1 key × IsFree l key
unfolding take_lock job_done
take_lock-some l l1 key h = elim (Bool-cases (is_empty key)) [
  | inl e ↦ (inl (ground arith), inl e)
  | inr e ↦ elim (Option-cases (entry key l.locks l.heap)) [
    | inl f ↦ (inl (ground arith), inr (inl f))
    | inr ((p, j), f) ↦
        (inr (p, j, f, ground arith, ground arith), inr (inr (p, j, f, ground arith)))
  ]
]

module _ (os : Os) (json : Json) where
  pub data Effect (l : Lifecycle) (req : RunRequest) (j : Job) (l' : Lifecycle) (out : Prepared)
      : Type 0 where
    unchanged :
        Unlocked l l' req.lock_key → ((p : ℕ) → out ≢ prepared p false) → Effect l req j l' out
    admitted :
        (l1 : Lifecycle)
        → Unlocked l l1 req.lock_key
        → IsFree l req.lock_key
        → l1.sem < capacity l1
        → l' ≡ register (record l1 { sem = suc l1.sem }) req j
        → out ≡ prepared (length l1.heap) false
        → Effect l req j l' out

  -- Persisting gives the slot back or registers the job.
  persist_cases :
      (l : Lifecycle) (req : RunRequest) (j : Job) (n : ℕ) (fs : os.Fs)
      → l.sem ≡ suc n
      → let (l', out, fs') = persist os json l req j fs in
        ((l' ≡ record l { sem = n }) × ((p : ℕ) → out ≢ prepared p false))
        ⊎ ((l' ≡ register l req j) × (out ≡ prepared (length l.heap) false))
  unfolding persist release_slot
  persist_cases l req j n fs e = ground arith

  admit-Effect :
      (l : Lifecycle) (req : RunRequest) (req_hash : Text) (auth : AuthInfo) (remote job_id : Text)
      (now : ℤ) (fs : os.Fs)
      → let j = new_job job_id req.lock_key req_hash auth remote now in
        let (l', out, fs') = admit os json l req req_hash auth remote job_id now fs in
        Effect l req j l' out
  unfolding admit
  admit-Effect l req req_hash auth remote job_id now fs =
      elim (Option-cases (take_lock l req.lock_key)) [
        | inl e ↦ rw (e, admit) (unchanged (inl refl) (λ p q. cc))
        | inr (l1, e) ↦
            let (u, free) = take_lock-some l l1 req.lock_key e in
            let j = new_job job_id req.lock_key req_hash auth remote now in
            elim (Bool-cases (ltb l1.sem (capacity l1))) [
              | inl room ↦
                  elim (persist_cases (record l1 { sem = suc l1.sem }) req j l1.sem fs refl) [
                    | inl (same, out) ↦ rw (e, admit, room) (unchanged (rw same u) out)
                    | inr (new, out) ↦
                        rw (e, admit, room) (admitted l1 u free (ltb→lt _ _ room) new out)
                  ]
              | inr full ↦ rw (e, admit, full) (unchanged u (λ p q. cc))
            ]
      ]

  -- Every call of prepareJob has one of the two effects.
  pub prepare_job-Effect :
      (l : Lifecycle) (req : RunRequest) (req_hash : Text) (auth : AuthInfo) (remote job_id : Text)
      (now : ℤ) (fs : os.Fs)
      → let j = new_job job_id req.lock_key req_hash auth remote now in
        let (l', out, fs') = prepare_job os json l req req_hash auth remote job_id now fs in
        Effect l req j l' out
  unfolding prepare_job
  prepare_job-Effect l req req_hash auth remote job_id now fs =
      elim (Option-cases (reusable os json l req auth)) [
        | inl e ↦ rw (e, prepare_job) (admit-Effect l req req_hash auth remote job_id now fs)
        | inr ((p, j), e) ↦ elim (Bool-cases (text_eq j.hash req_hash)) [
          | inl same ↦ rw (e, prepare_job, same) (unchanged (inl refl) (λ q f. cc))
          | inr other ↦ rw (e, prepare_job, other) (unchanged (inl refl) (λ q f. cc))
        ]
      ]
