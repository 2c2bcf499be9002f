-- ===== src/Lifecycle/Prune.antt =====
-- cleanupJobs of internal/execd/job_lifecycle.go, in the three parts between which other calls may
-- come: protectedIDs, Cleanup of the store, and pruneMemory.
use vpsops.Base.{
  ℕ, false, Option, none, some, List, [], ◌∷◌, ◌++◌, drop, get_elem?, filterb, contains, is_empty,
  map, not, if◌then◌else◌, Text, Map, delete, ℤ, pos, pos_part, ltb_ℤ, ◌-ℤ◌,
}
use vpsops.Os.{Os, Json}
use vpsops.Job.{Job, job_done}
use vpsops.Store.Cleanup.{Protected, Sort, duration_days, cleanup}
use vpsops.Lifecycle.{Lifecycle, entry}

-- protectedIDs, as the test of its map.
unfoldable pub protected_ids : Lifecycle → Protected
protected_ids l id = elim (entry id l.jobs l.heap) [ none ↦ false | some (p, j) ↦ not (job_done j) ]

-- doneJobs of pruneMemory, from what the map `jobs` holds.
unfoldable pub done_jobs : List Job → Map ℕ → List Job
done_jobs heap [] = []
done_jobs heap ((id, p) ∷ m) =
    let rest = done_jobs heap m in
    elim (get_elem? heap p) [ none ↦ rest | some j ↦ if job_done j then j ∷ rest else rest ]

abbrev pub ids_of : List Job → List Text
ids_of = map (λ (j : Job). j.id)

-- for id := range deleteIDs { delete(l.jobs, id) }
unfoldable pub delete_ids {ℓ} : {V : Type ℓ} → List Text → Map V → Map V
delete_ids [] m = m
delete_ids (id ∷ ids) m = delete_ids ids (delete id m)

-- The loop over l.idempotency: it goes through every entry, the deletions aside.
unfoldable pub forget : List Text → List Job → Map ℕ → Map ℕ
forget ids heap [] = []
forget ids heap ((key, p) ∷ m) =
    let rest = forget ids heap m in
    elim (get_elem? heap p) [
      | none ↦ (key, p) ∷ rest
      | some j ↦ if contains ids j.id then rest else (key, p) ∷ rest
    ]

module _ (os : Os) where
  -- deleteIDs of pruneMemory, as a list.
  unfoldable pub stale_ids : Lifecycle → List Text → ℤ → List Text
  unfolding done_jobs
  stale_ids l deleted_ids now =
      let finished = done_jobs l.heap l.jobs in
      let cutoff = now -ℤ duration_days l.storage.retention_days in
      let expired =
        if ltb_ℤ (pos 0) l.storage.retention_days
        then ids_of (filterb (λ j. ltb_ℤ j.started cutoff) finished)
        else [] in
      let sorted = os.sort_slice (λ (i : Job) (k : Job). ltb_ℤ k.started i.started) finished in
      let surplus =
        if ltb_ℤ (pos 0) l.limits.max_jobs_retained
        then ids_of (drop (pos_part l.limits.max_jobs_retained) sorted)
        else [] in
      deleted_ids ++ expired ++ surplus

  -- pruneMemory
  unfoldable pub prune_memory : Lifecycle → List Text → ℤ → Lifecycle
  unfolding stale_ids
  prune_memory l deleted_ids now =
      let ids = stale_ids l deleted_ids now in
      if is_empty ids
      then l
      else record l { jobs = delete_ids ids l.jobs; idempotency = forget ids l.heap l.idempotency }

  -- Package sort, as Cleanup uses it.
  abbrev pub package_sort : Sort
  package_sort = record { slice = λ less js. os.sort_slice less js; strings = os.sort_strings }

  -- store.Cleanup as cleanupJobs calls it: the deleted ids, or `none` for its error.
  unfoldable pub clean_store : Json → Lifecycle → Protected → ℤ → os.Fs → Option (List Text) × os.Fs
  unfolding cleanup
  clean_store json l protected now fs =
      let ((done, report), fs') =
        cleanup os json package_sort l.store l.storage l.limits protected now fs in
      (if done then some report.deleted_ids else none, fs')
