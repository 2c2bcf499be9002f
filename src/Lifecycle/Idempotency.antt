-- ===== src/Lifecycle/Idempotency.antt =====
-- A request under the index key of an earlier one gets the job of that one.
use vpsops.Base.{
  get_elem?, ◌++◌, ◌∷◌, [], ◌≢◌, append_assoc, length-append, sym, ◌∙◌, subst, ap, suc, ℕ, suc, ◌≡◌,
  refl, subst, true, false, some, length, get_elem?-append_one, is_empty, if◌then◌else◌, ==_iff,
  Text, text_eq, text_eq_refl, lookup-insert, ℤ, arith,
}
use vpsops.Types.{RunRequest, AuthInfo}
use vpsops.Os.{Os, Json}
use vpsops.Job.{Job}
use vpsops.Lifecycle.{
  Lifecycle, Prepared, prepared, refused, idempotency_conflict, idempotency_index_key, entry,
  new_job, register, reusable, prepare_job,
}
use vpsops.Lifecycle.Prepare.{Effect, unchanged, admitted, prepare_job-Effect}

-- A new job stands under its idempotency key.
pub entry-register :
    (l : Lifecycle) (req : RunRequest) (j : Job)
    → is_empty req.idempotency_key ≡ false
    → let l' = register l req j in
      entry (idempotency_index_key j.token_id req.idempotency_key) l'.idempotency l'.heap
      ≡ some (length l.heap, j)
unfolding entry register
entry-register l req j ne =
    let key = idempotency_index_key j.token_id req.idempotency_key in
    ground (
      arith,
      ne,
      lookup-insert key key (length l.heap) l.idempotency,
      text_eq_refl key,
      get_elem?-append_one l.heap (length l.heap) j,
      ==_iff (length l.heap) (length l.heap),
    )

-- A request whose key names a job gets that job, or a conflict.
pub prepare_job-again :
    (os : Os) (json : Json) (l : Lifecycle) (req : RunRequest) (h : Text) (auth : AuthInfo)
    (remote id : Text) (now : ℤ) (fs : os.Fs) (p : ℕ) (j : Job)
    → reusable os json l req auth ≡ some (p, j)
    → prepare_job os json l req h auth remote id now fs
      ≡ (l, if text_eq j.hash h then prepared p true else refused idempotency_conflict, fs)
unfolding prepare_job
prepare_job-again os json l req h auth remote id now fs p j e = rw (e, prepare_job) (ground arith)

-- The job that prepareJob made is the new one, at the end of the heap.
pub prepare_job-admitted :
    (os : Os) (json : Json) (l l' : Lifecycle) (req : RunRequest) (h : Text) (auth : AuthInfo)
    (remote id : Text) (now : ℤ) (fs fs' : os.Fs) (p : ℕ)
    → prepare_job os json l req h auth remote id now fs ≡ (l', prepared p false, fs')
    → (l1 : Lifecycle) × (l' ≡ register l1 req (new_job id req.lock_key h auth remote now))
      × (p ≡ length l1.heap)
prepare_job-admitted os json l l' req h auth remote id now fs fs' p e = made (
    subst (λ (r : Lifecycle × Prepared × os.Fs). Effect os json l req j r.0 r.1) e
      (prepare_job-Effect os json l req h auth remote id now fs))
  where
    j : Job
    j = new_job id req.lock_key h auth remote now

    made :
        Effect os json l req j l' (prepared p false)
        → (l1 : Lifecycle) × (l' ≡ register l1 req j) × (p ≡ length l1.heap)
    made (unchanged u old) = absurd (old p refl)
    made (admitted l1 u f room new out) = (record l1 { sem = suc l1.sem }, new, (cc))

-- And it is there.
pub prepare_job-at :
    (os : Os) (json : Json) (l l' : Lifecycle) (req : RunRequest) (h : Text) (auth : AuthInfo)
    (remote id : Text) (now : ℤ) (fs fs' : os.Fs) (p : ℕ)
    → prepare_job os json l req h auth remote id now fs ≡ (l', prepared p false, fs')
    → get_elem? l'.heap p ≡ some (new_job id req.lock_key h auth remote now)
unfolding register
prepare_job-at os json l l' req h auth remote id now fs fs' p e =
    let (l1, new, at_p) = prepare_job-admitted os json l l' req h auth remote id now fs fs' p e in
    let j = new_job id req.lock_key h auth remote now in
    rw (new, at_p)
      (ground (
        arith,
        get_elem?-append_one l1.heap (length l1.heap) j,
        ==_iff (length l1.heap) (length l1.heap),
      ))

-- A later request under the same index key is given the job of the first.
prepare_job-same_index :
    (os : Os) (json : Json) (l l' : Lifecycle) (req req2 : RunRequest) (h h2 : Text)
    (auth auth2 : AuthInfo) (remote remote2 id id2 : Text) (now now2 : ℤ) (fs fs' fs2 : os.Fs)
    (p : ℕ)
    → is_empty req.idempotency_key ≡ false
    → is_empty req2.idempotency_key ≡ false
    → idempotency_index_key auth2.token_id req2.idempotency_key
      ≡ idempotency_index_key auth.token_id req.idempotency_key
    → prepare_job os json l req h auth remote id now fs ≡ (l', prepared p false, fs')
    → prepare_job os json l' req2 h2 auth2 remote2 id2 now2 fs2
      ≡ (l', if text_eq h h2 then prepared p true else refused idempotency_conflict, fs2)
unfolding new_job
prepare_job-same_index os json l l' req req2 h h2 auth auth2 remote remote2 id id2 now now2 fs fs'
      fs2 p ne ne2 same e =
    let (l1, new, at_p) = prepare_job-admitted os json l l' req h auth remote id now fs fs' p e in
    let j = new_job id req.lock_key h auth remote now in
    let found : reusable os json l' req2 auth2 ≡ some (p, j) =
      rw (ne2, same, new, at_p) (entry-register l1 req j ne) in
    prepare_job-again os json l' req2 h2 auth2 remote2 id2 now2 fs2 p j found

index_key_collision :
    (t k1 k2 : Text)
    → idempotency_index_key (t ++ (b':' ∷ k1)) k2 ≡ idempotency_index_key t (k1 ++ (b':' ∷ k2))
unfolding idempotency_index_key
index_key_collision t k1 k2 = append_assoc t (b':' ∷ k1) (b':' ∷ k2)

-- The index joins the token's id and the key with a colon, which both may contain. After the token
-- `t` was given a job under the key `k1:k2`, the other token `t:k1` has never used the key `k2`,
-- and still its request under `k2` finds the job of `t`: it is refused as a conflict if its hash
-- differs, and given that job if it does not.
pub prepare_job-other_token :
    (os : Os) (json : Json) (l l' : Lifecycle) (req req2 : RunRequest) (h h2 k1 : Text)
    (auth auth2 : AuthInfo) (remote remote2 id id2 : Text) (now now2 : ℤ) (fs fs' fs2 : os.Fs)
    (p : ℕ)
    → req.idempotency_key ≡ k1 ++ (b':' ∷ req2.idempotency_key)
    → auth2.token_id ≡ auth.token_id ++ (b':' ∷ k1)
    → is_empty req2.idempotency_key ≡ false
    → prepare_job os json l req h auth remote id now fs ≡ (l', prepared p false, fs')
    → (auth2.token_id ≢ auth.token_id)
      × (prepare_job os json l' req2 h2 auth2 remote2 id2 now2 fs2
          ≡ (l', if text_eq h h2 then prepared p true else refused idempotency_conflict, fs2))
prepare_job-other_token os json l l' req req2 h h2 k1 auth auth2 remote remote2 id id2 now now2 fs
      fs' fs2 p key token ne e =
    (
      λ same. longer auth.token_id k1 (sym same ∙ token),
      prepare_job-same_index os json l l' req req2 h h2 auth auth2 remote remote2 id id2 now now2 fs
          fs' fs2 p (rw key (is_empty-append k1 req2.idempotency_key)) ne
          (rw (key, token) (index_key_collision auth.token_id k1 req2.idempotency_key)) e,
    )
  where
    longer : (s k : Text) → s ≡ s ++ (b':' ∷ k) → ⊥
    longer s k e = omega (arith, ap (λ (x : Text). length x) e, length-append {0} s (b':' ∷ k))

    is_empty-append : (s t : Text) → is_empty (s ++ (b':' ∷ t)) ≡ false
    is_empty-append [] t = refl
    is_empty-append (x ∷ s) t = refl
