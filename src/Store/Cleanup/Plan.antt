-- ===== src/Store/Cleanup/Plan.antt =====
-- What the delete set of a cleanup holds, and what it leaves.
use vpsops.Base.{
  ℕ, suc, ◌-◌, ◌≤◌, ◌≡◌, ap, ◌⊎◌, inl, inr, true, false, List, [], ◌∷◌, not, ◌&&◌, if◌then◌else◌,
  Text, text_eq_iff, Map, has, has-insert, ℤ, pos, ltb_ℤ, leb_ℤ, leb_ℤ-true, leb_ℤ-false, lt-ltb_ℤ,
  count_if, wrap64, ◌-ℤ◌, Bool-cases, arith, ◌≤ℤ◌, ◌<ℤ◌, All,
}
use vpsops.Store.Cleanup.{
  JobDirInfo, Protected, mark_delete, mark_expired, mark_surplus, mark_oversize,
}

module _ (protected : Protected) where
  -- Nothing protected is marked.
  pub record Spares (ds : Map JobDirInfo) : Type 0 where
    pub spared : (id : Text) → protected id ≡ true → has id ds ≡ false

  -- `ds'` has all the marks of `ds`.
  pub record Extends (ds ds' : Map JobDirInfo) : Type 0 where
    pub keeps : (id : Text) → has id ds ≡ true → has id ds' ≡ true

  pub Extends-refl : (ds : Map JobDirInfo) → Extends ds ds
  Extends-refl ds = record { keeps = λ id h. h }

  pub Extends-trans : (a b c : Map JobDirInfo) → Extends a b → Extends b c → Extends a c
  Extends-trans a b c h k = record { keeps = λ id e. k.keeps id (h.keeps id e) }

  mark_delete-Spares :
      (j : JobDirInfo) (ds : Map JobDirInfo) → Spares ds → Spares (mark_delete protected j ds)
  unfolding mark_delete
  mark_delete-Spares j ds h = record {
    spared = λ id e. ground (
      arith,
      h.spared id e,
      has-insert j.id id j ds,
      text_eq_iff j.id id,
      ap protected {x = j.id} {y = id},
    );
  }

  mark_delete-Extends :
      (j : JobDirInfo) (ds : Map JobDirInfo) → Extends ds (mark_delete protected j ds)
  unfolding mark_delete
  mark_delete-Extends j ds = record { keeps = λ id e. ground (arith, has-insert j.id id j ds) }

  -- A mark is made, unless the job is protected.
  mark_delete-has :
      (j : JobDirInfo) (ds : Map JobDirInfo)
      → protected j.id ≡ false
      → has j.id (mark_delete protected j ds) ≡ true
  unfolding mark_delete
  mark_delete-has j ds e = ground (arith, has-insert j.id j.id j ds, text_eq_iff j.id j.id)

  -- The unprotected jobs that a delete set leaves.
  abbrev pub survivors : Map JobDirInfo → List JobDirInfo → ℕ
  survivors ds = count_if (λ j. not (protected j.id) && not (has j.id ds))

  -- The rule for a property of what the loop of max_jobs_retained returns, branch by branch.
  mark_surplus_cases {ℓ} :
      (P : Map JobDirInfo → Type ℓ) (most : ℤ) (kept : ℕ) (j : JobDirInfo) (js : List JobDirInfo)
      (ds : Map JobDirInfo)
      → (protected j.id ≡ true → P (mark_surplus protected most (suc kept) js ds))
      → (protected j.id ≡ false → has j.id ds ≡ true → P (mark_surplus protected most kept js ds))
      → (protected j.id ≡ false
          → most ≤ℤ pos kept
          → P (mark_surplus protected most kept js (mark_delete protected j ds)))
      → (protected j.id ≡ false
          → pos kept <ℤ most
          → P (mark_surplus protected most (suc kept) js ds))
      → P (mark_surplus protected most kept (j ∷ js) ds)
  unfolding mark_surplus
  mark_surplus_cases P most kept j js ds a b c d = elim (Bool-cases (protected j.id)) [
    | inl e ↦ rw e (a e)
    | inr e ↦ elim (Bool-cases (has j.id ds)) [
      | inl f ↦ rw (e, f) (b e f)
      | inr f ↦ elim (Bool-cases (leb_ℤ most (pos kept))) [
        | inl g ↦ rw (e, f, g) (c e (leb_ℤ-true _ _ g))
        | inr g ↦ rw (e, f, g) (d e (leb_ℤ-false _ _ g))
      ]
    ]
  ]

  pub mark_surplus-Spares :
      (most : ℤ) (kept : ℕ) (js : List JobDirInfo) (ds : Map JobDirInfo)
      → Spares ds
      → Spares (mark_surplus protected most kept js ds)
  mark_surplus-Spares most kept [] ds h = unfold mark_surplus in h
  mark_surplus-Spares most kept (j ∷ js) ds h =
      mark_surplus_cases Spares most kept j js ds (λ _. mark_surplus-Spares most (suc kept) js ds h)
        (λ _ _. mark_surplus-Spares most kept js ds h)
        (λ _ _.
          mark_surplus-Spares most kept js (mark_delete protected j ds) (mark_delete-Spares j ds h))
        (λ _ _. mark_surplus-Spares most (suc kept) js ds h)

  pub mark_surplus-Extends :
      (most : ℤ) (kept : ℕ) (js : List JobDirInfo) (ds : Map JobDirInfo)
      → Extends ds (mark_surplus protected most kept js ds)
  mark_surplus-Extends most kept [] ds = unfold mark_surplus in Extends-refl ds
  mark_surplus-Extends most kept (j ∷ js) ds =
      mark_surplus_cases (Extends ds) most kept j js ds
        (λ _. mark_surplus-Extends most (suc kept) js ds)
        (λ _ _. mark_surplus-Extends most kept js ds)
        (λ _ _.
          Extends-trans _ _ _ (mark_delete-Extends j ds)
            (mark_surplus-Extends most kept js (mark_delete protected j ds)))
        (λ _ _. mark_surplus-Extends most (suc kept) js ds)

  -- A survivor more only where the job is neither protected nor marked.
  survivors-skip :
      (j : JobDirInfo) (js : List JobDirInfo) (ds : Map JobDirInfo)
      → (protected j.id ≡ true) ⊎ (has j.id ds ≡ true)
      → survivors ds (j ∷ js) ≡ survivors ds js
  survivors-skip j js ds h = ground arith

  survivors-le :
      (j : JobDirInfo) (js : List JobDirInfo) (ds : Map JobDirInfo)
      → survivors ds (j ∷ js) ≤ suc (survivors ds js)
  survivors-le j js ds = ground arith

  -- The loop leaves at most the rest of the quota.
  pub survivors-mark_surplus :
      (most kept : ℕ) (js : List JobDirInfo) (ds : Map JobDirInfo)
      → survivors (mark_surplus protected (pos most) kept js ds) js ≤ most - kept
  survivors-mark_surplus most kept [] ds = omega arith
  survivors-mark_surplus most kept (j ∷ js) ds =
      mark_surplus_cases (λ r. survivors r (j ∷ js) ≤ most - kept) (pos most) kept j js ds
        (λ e.
          let r = mark_surplus protected (pos most) (suc kept) js ds in
          omega
            (arith, survivors-skip j js r (inl e), survivors-mark_surplus most (suc kept) js ds))
        (λ e f.
          let r = mark_surplus protected (pos most) kept js ds in
          omega (
            arith,
            survivors-skip j js r (inr ((mark_surplus-Extends (pos most) kept js ds).keeps j.id f)),
            survivors-mark_surplus most kept js ds,
          ))
        (λ e f.
          let ds' = mark_delete protected j ds in
          let r = mark_surplus protected (pos most) kept js ds' in
          omega (
            arith,
            survivors-skip j js r (
                inr (
                  (mark_surplus-Extends (pos most) kept js ds').keeps j.id
                    (mark_delete-has j ds e))),
            survivors-mark_surplus most kept js ds',
          ))
        (λ e f.
          let r = mark_surplus protected (pos most) (suc kept) js ds in
          omega (arith, survivors-le j js r, survivors-mark_surplus most (suc kept) js ds))

  -- The same rule for the loop of max_total_job_bytes.
  mark_oversize_cases {ℓ} :
      (P : Map JobDirInfo × ℤ → Type ℓ) (most total : ℤ) (j : JobDirInfo) (js : List JobDirInfo)
      (ds : Map JobDirInfo)
      → (total ≤ℤ most → P (ds, total))
      → ((protected j.id ≡ true) ⊎ (has j.id ds ≡ true)
          → P (mark_oversize protected most total js ds))
      → (protected j.id ≡ false
          → P (
              mark_oversize protected most
                (wrap64 (total -ℤ j.size))
                js
                (mark_delete protected j ds)))
      → P (mark_oversize protected most total (j ∷ js) ds)
  unfolding mark_oversize
  mark_oversize_cases P most total j js ds a b c = elim (Bool-cases (leb_ℤ total most)) [
    | inl e ↦ rw e (a (leb_ℤ-true _ _ e))
    | inr e ↦ elim (Bool-cases (protected j.id)) [
      | inl f ↦ rw (e, f) (b (inl f))
      | inr f ↦ elim (Bool-cases (has j.id ds)) [
        | inl g ↦ rw (e, f, g) (b (inr g))
        | inr g ↦ rw (e, f, g) (c f)
      ]
    ]
  ]

  pub mark_oversize-Spares :
      (most total : ℤ) (js : List JobDirInfo) (ds : Map JobDirInfo)
      → Spares ds
      → Spares (mark_oversize protected most total js ds).0
  mark_oversize-Spares most total [] ds h = unfold mark_oversize in h
  mark_oversize-Spares most total (j ∷ js) ds h =
      mark_oversize_cases (λ r. Spares r.0) most total j js ds (λ _. h)
        (λ _. mark_oversize-Spares most total js ds h)
        (λ _.
          mark_oversize-Spares most (wrap64 (total -ℤ j.size)) js (mark_delete protected j ds)
            (mark_delete-Spares j ds h))

  pub mark_oversize-Extends :
      (most total : ℤ) (js : List JobDirInfo) (ds : Map JobDirInfo)
      → Extends ds (mark_oversize protected most total js ds).0
  mark_oversize-Extends most total [] ds = unfold mark_oversize in Extends-refl ds
  mark_oversize-Extends most total (j ∷ js) ds =
      mark_oversize_cases (λ r. Extends ds r.0) most total j js ds (λ _. Extends-refl ds)
        (λ _. mark_oversize-Extends most total js ds)
        (λ _.
          Extends-trans _ _ _ (mark_delete-Extends j ds)
            (mark_oversize-Extends most (wrap64 (total -ℤ j.size)) js (mark_delete protected j ds)))

  pub survivors-Extends :
      (js : List JobDirInfo) (ds ds' : Map JobDirInfo)
      → Extends ds ds'
      → survivors ds' js ≤ survivors ds js
  survivors-Extends [] ds ds' h = omega arith
  survivors-Extends (j ∷ js) ds ds' h = ground (arith, survivors-Extends js ds ds' h, h.keeps j.id)

  pub mark_expired-Spares :
      (cutoff : ℤ) (js : List JobDirInfo) (ds : Map JobDirInfo)
      → Spares ds
      → Spares (mark_expired protected cutoff js ds)
  unfolding mark_expired
  mark_expired-Spares cutoff [] ds h = h
  mark_expired-Spares cutoff (j ∷ js) ds h = elim (Bool-cases (ltb_ℤ j.created cutoff)) [
    | inl e ↦ rw e (mark_expired-Spares cutoff js _ (mark_delete-Spares j ds h))
    | inr e ↦ rw e (mark_expired-Spares cutoff js ds h)
  ]

  pub mark_expired-Extends :
      (cutoff : ℤ) (js : List JobDirInfo) (ds : Map JobDirInfo)
      → Extends ds (mark_expired protected cutoff js ds)
  unfolding mark_expired
  mark_expired-Extends cutoff [] ds = Extends-refl ds
  mark_expired-Extends cutoff (j ∷ js) ds = elim (Bool-cases (ltb_ℤ j.created cutoff)) [
    | inl e ↦ rw e (
        Extends-trans _ _ _ (mark_delete-Extends j ds)
          (mark_expired-Extends cutoff js (mark_delete protected j ds)))
    | inr e ↦ rw e (mark_expired-Extends cutoff js ds)
  ]

  mark_expired_first :
      (cutoff : ℤ) (j : JobDirInfo) (js : List JobDirInfo) (ds : Map JobDirInfo)
      → j.created <ℤ cutoff
      → mark_expired protected cutoff (j ∷ js) ds
        ≡ mark_expired protected cutoff js (mark_delete protected j ds)
  unfolding mark_expired
  mark_expired_first cutoff j js ds h = rw (lt-ltb_ℤ j.created cutoff h)

  -- Every unprotected job from before the cutoff is marked.
  pub mark_expired-All :
      (cutoff : ℤ) (js : List JobDirInfo) (ds final : Map JobDirInfo)
      → Extends (mark_expired protected cutoff js ds) final
      → All
          (λ (j : JobDirInfo). protected j.id ≡ false → j.created <ℤ cutoff → has j.id final ≡ true)
          js
  mark_expired-All cutoff [] ds final h = tt
  mark_expired-All cutoff (j ∷ js) ds final h = (
    λ free old.
        let first = mark_expired_first cutoff j js ds old in
        h.keeps j.id (
          rw first (
            (mark_expired-Extends cutoff js (mark_delete protected j ds)).keeps j.id
              (mark_delete-has j ds free))),
    mark_expired-All cutoff js (if ltb_ℤ j.created cutoff then mark_delete protected j ds else ds)
        final (unfold mark_expired in h),
  )
