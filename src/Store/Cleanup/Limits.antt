-- ===== src/Store/Cleanup/Limits.antt =====
-- What Cleanup promises of the retention limits, for every directory listing.
use vpsops.Base.{
  ℕ, zero, ◌≤◌, ◌≡◌, refl, Bool, true, false, List, [], not, ◌&&◌, Text, Map, has, lookup, ℤ, pos,
  ltb_ℤ, lt-ltb_ℤ, ◌-ℤ◌, ◌<ℤ◌, ◌<◌, ap, inl, inr, Bool-cases, count_if, All, arith, get_elem?, some,
  none, ◌∷◌, suc, subst,
}
use vpsops.Types.{StorageConfig, LimitsConfig}
use vpsops.Store.Cleanup.{
  JobDirInfo, Protected, Sort, mark_expired, mark_surplus, expired_set, surplus_set, delete_set,
  newest_first, duration_days, total_size, less_deleted,
}
use vpsops.Store.Cleanup.Plan.{
  Spares, Extends, Extends-refl, Extends-trans, survivors, mark_surplus-Spares,
  mark_surplus-Extends, survivors-mark_surplus, mark_oversize-Spares, mark_oversize-Extends,
  survivors-Extends, mark_expired-Spares, mark_expired-All,
}

-- sort.Slice rearranges: a test passes as often after it as before.
pub record Rearranges (sort : Sort) : Type 0 where
  pub counts :
      (test : JobDirInfo → Bool) (less : JobDirInfo → JobDirInfo → Bool) (js : List JobDirInfo)
      → count_if test (sort.slice less js) ≡ count_if test js

module _ (sort : Sort) (storage : StorageConfig) (limits : LimitsConfig) (now : ℤ)
    (jobs : List JobDirInfo) (protected : Protected) where
  expired_set-Spares : Spares protected (expired_set sort storage now jobs protected)
  unfolding expired_set lookup
  expired_set-Spares = elim (Bool-cases (ltb_ℤ (pos 0) storage.retention_days)) [
    | inl e ↦ rw e (mark_expired-Spares protected _ jobs [] (record { spared = λ id h. refl }))
    | inr e ↦ rw e (record { spared = λ id h. refl })
  ]

  surplus_set-Spares : Spares protected (surplus_set sort storage limits now jobs protected)
  unfolding surplus_set
  surplus_set-Spares = elim (Bool-cases (ltb_ℤ (pos 0) limits.max_jobs_retained)) [
    | inl e ↦ rw e (mark_surplus-Spares protected _ 0 _ _ expired_set-Spares)
    | inr e ↦ rw e expired_set-Spares
  ]

  surplus_set-Extends :
      Extends protected
        (expired_set sort storage now jobs protected)
        (surplus_set sort storage limits now jobs protected)
  unfolding surplus_set
  surplus_set-Extends = elim (Bool-cases (ltb_ℤ (pos 0) limits.max_jobs_retained)) [
    | inl e ↦ rw e (mark_surplus-Extends protected _ 0 _ _)
    | inr e ↦ rw e (Extends-refl protected _)
  ]

  abbrev oversize : Bool
  oversize =
      ltb_ℤ (pos 0) storage.max_total_job_bytes
      && ltb_ℤ storage.max_total_job_bytes
          (less_deleted (total_size jobs) (surplus_set sort storage limits now jobs protected))

  delete_set-Extends :
      Extends protected
        (surplus_set sort storage limits now jobs protected)
        (delete_set sort storage limits now jobs protected)
  unfolding delete_set
  delete_set-Extends = elim (Bool-cases oversize) [
    | inl e ↦ rw e (mark_oversize-Extends protected _ _ _ _)
    | inr e ↦ rw e (Extends-refl protected _)
  ]

  delete_set-Spares : Spares protected (delete_set sort storage limits now jobs protected)
  unfolding delete_set
  delete_set-Spares = elim (Bool-cases oversize) [
    | inl e ↦ rw e (mark_oversize-Spares protected _ _ _ _ surplus_set-Spares)
    | inr e ↦ rw e surplus_set-Spares
  ]

-- Cleanup never deletes a protected job, whatever the limits and the listing.
pub delete_set-protected :
    (sort : Sort) (storage : StorageConfig) (limits : LimitsConfig) (now : ℤ)
    (jobs : List JobDirInfo) (protected : Protected) (id : Text)
    → protected id ≡ true
    → has id (delete_set sort storage limits now jobs protected) ≡ false
delete_set-protected sort storage limits now jobs protected id h =
    (delete_set-Spares sort storage limits now jobs protected).spared id h

-- With max_jobs_retained = n > 0 at most n of the listed jobs that are not protected survive, if
-- sort.Slice rearranges its list.
pub delete_set-quota :
    (sort : Sort) (storage : StorageConfig) (limits : LimitsConfig) (now : ℤ)
    (jobs : List JobDirInfo) (protected : Protected) (n : ℕ)
    → Rearranges sort
    → limits.max_jobs_retained ≡ pos n
    → 0 < n
    → survivors protected (delete_set sort storage limits now jobs protected) jobs ≤ n
unfolding surplus_set
delete_set-quota sort storage limits now jobs protected n law e h =
    let ds = delete_set sort storage limits now jobs protected in
    let sorted = sort.slice newest_first jobs in
    let marked = expired_set sort storage now jobs protected in
    let surplus : surplus_set sort storage limits now jobs protected
        ≡ mark_surplus protected (pos n) 0 sorted marked =
      rw (e, lt-ltb_ℤ (pos 0) (pos n) (omega arith)) in
    omega (
      arith,
      law.counts (λ j. not (protected j.id) && not (has j.id ds)) newest_first jobs,
      survivors-Extends protected sorted (surplus_set sort storage limits now jobs protected) ds
          (delete_set-Extends sort storage limits now jobs protected),
      ap (λ (m : Map JobDirInfo). survivors protected m sorted) surplus,
      survivors-mark_surplus protected n 0 sorted marked,
    )

none-some {ℓ} : {A : Type ℓ} {x : A} → none ≡ some x → ⊥
none-some e = cc

some_same {ℓ} : {A : Type ℓ} {x y : A} → some x ≡ some y → x ≡ y
some_same e = cc

All-get {ℓ κ} :
    {A : Type ℓ} (P : A → Type κ) (xs : List A) (i : ℕ) (x : A)
    → All P xs
    → get_elem? xs i ≡ some x
    → P x
All-get P [] i x h e = absurd (none-some e)
All-get P (y ∷ ys) zero x (h, hs) e = subst P (some_same e) h
All-get P (y ∷ ys) (suc i) x (h, hs) e = All-get P ys i x hs e

-- With a retention period, every listed job that is not protected and was created more than that
-- period ago (as a time.Duration) is deleted.
pub delete_set-expired :
    (sort : Sort) (storage : StorageConfig) (limits : LimitsConfig) (now : ℤ)
    (jobs : List JobDirInfo) (protected : Protected) (i : ℕ) (j : JobDirInfo)
    → pos 0 <ℤ storage.retention_days
    → get_elem? jobs i ≡ some j
    → protected j.id ≡ false
    → j.created <ℤ now -ℤ duration_days storage.retention_days
    → has j.id (delete_set sort storage limits now jobs protected) ≡ true
unfolding expired_set
delete_set-expired sort storage limits now jobs protected i j h listed free old =
    let cutoff = now -ℤ duration_days storage.retention_days in
    let expired : expired_set sort storage now jobs protected
        ≡ mark_expired protected cutoff jobs [] =
      rw (lt-ltb_ℤ (pos 0) storage.retention_days h) in
    All-get
      (λ (k : JobDirInfo).
        protected k.id ≡ false
        → k.created <ℤ cutoff
        → has k.id (delete_set sort storage limits now jobs protected) ≡ true)
      jobs i j
      (mark_expired-All protected cutoff jobs [] (delete_set sort storage limits now jobs protected)
        (rw (← expired) (
          Extends-trans protected _ _ _ (surplus_set-Extends sort storage limits now jobs protected)
            (delete_set-Extends sort storage limits now jobs protected))))
      listed free old
