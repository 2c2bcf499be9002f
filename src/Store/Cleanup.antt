-- ===== src/Store/Cleanup.antt =====
-- Cleanup and listJobDirs of internal/execd/jobstore.go: which job directories are deleted. What
-- sort.Slice does is a parameter; deleteSet is a map by id, and its `range` takes the order in which
-- the entries were added last to first.
pub mod Plan
pub mod Limits
pub mod Tests
use vpsops.Base.{
  ℕ, suc, Bool, true, false, Option, none, some, List, [], ◌∷◌, ◌++◌, length, map, not, ◌&&◌, ◌||◌,
  if◌then◌else◌, Text, Map, lookup, insert, has, ℤ, pos, ◌+ℤ◌, ◌-ℤ◌, ◌*ℤ◌, ltb_ℤ, leb_ℤ, wrap64,
  is_zero, text_eq,
}
use vpsops.Types.{StorageConfig, LimitsConfig, JobMetadata}
use vpsops.Path.{join, clean}
use vpsops.Os.{Os, Json, OsError, not_exist, Result, ok, err, ◌>>=◌, DirEntry, WalkEntry}
use vpsops.Store.{JobStore, is_job_id, read_metadata}

pub record JobDirInfo : Type 0 where
  pub id : Text
  pub path : Text
  pub created : ℤ
  pub size : ℤ

pub record CleanupReport : Type 0 where
  pub deleted_ids : List Text
  pub deleted_bytes : ℤ
  pub remaining_jobs : ℤ
  pub remaining_bytes : ℤ

abbrev pub Protected : Type 0
Protected = Text → Bool

-- The closure markDelete.
unfoldable pub mark_delete : Protected → JobDirInfo → Map JobDirInfo → Map JobDirInfo
mark_delete protected j delete_set =
    if protected j.id
    then delete_set
    else if has j.id delete_set
    then delete_set
    else insert j.id j delete_set

-- time.Duration(days) * 24 * time.Hour. The code negates `days` first: the same, but where the
-- result is -2^63.
unfoldable pub duration_days : ℤ → ℤ
duration_days days = wrap64 (wrap64 (days *ℤ pos 24) *ℤ pos 3_600_000_000_000)

-- The loop of the retention period.
unfoldable pub mark_expired : Protected → ℤ → List JobDirInfo → Map JobDirInfo → Map JobDirInfo
mark_expired protected cutoff [] delete_set = delete_set
mark_expired protected cutoff (j ∷ js) delete_set =
    mark_expired protected cutoff js
      (if ltb_ℤ j.created cutoff then mark_delete protected j delete_set else delete_set)

-- The loop of max_jobs_retained, newest first.
unfoldable pub mark_surplus : Protected → ℤ → ℕ → List JobDirInfo → Map JobDirInfo → Map JobDirInfo
mark_surplus protected most kept [] delete_set = delete_set
mark_surplus protected most kept (j ∷ js) delete_set =
    let passed = mark_surplus protected most kept js delete_set in
    let counted = mark_surplus protected most (suc kept) js delete_set in
    let deleted = mark_surplus protected most kept js (mark_delete protected j delete_set) in
    if protected j.id
    then counted
    else if has j.id delete_set
    then passed
    else if leb_ℤ most (pos kept)
    then deleted
    else counted

-- The loop of max_total_job_bytes, oldest first: the marks and totalAfterDeletes.
unfoldable pub mark_oversize :
    Protected → ℤ → ℤ → List JobDirInfo → Map JobDirInfo → Map JobDirInfo × ℤ
mark_oversize protected most total [] delete_set = (delete_set, total)
mark_oversize protected most total (j ∷ js) delete_set =
    let passed = mark_oversize protected most total js delete_set in
    let deleted =
      mark_oversize protected most (wrap64 (total -ℤ j.size)) js
        (mark_delete protected j delete_set) in
    if leb_ℤ total most
    then (delete_set, total)
    else if protected j.id
    then passed
    else if has j.id delete_set
    then passed
    else deleted

-- totalBytes
unfoldable pub total_size : List JobDirInfo → ℤ
total_size [] = pos 0
total_size (j ∷ js) = wrap64 (total_size js +ℤ j.size)

-- totalBytes less the sizes of what is in the delete set
unfoldable pub less_deleted : ℤ → Map JobDirInfo → ℤ
less_deleted total [] = total
less_deleted total ((id, j) ∷ rest) = less_deleted (wrap64 (total -ℤ j.size)) rest

-- Package sort: Slice with its `less`, and Strings.
pub record Sort : Type 0 where
  pub slice : (JobDirInfo → JobDirInfo → Bool) → List JobDirInfo → List JobDirInfo
  pub strings : List Text → List Text

abbrev pub newest_first : JobDirInfo → JobDirInfo → Bool
newest_first i k = ltb_ℤ k.created i.created

abbrev pub oldest_first : JobDirInfo → JobDirInfo → Bool
oldest_first i k = ltb_ℤ i.created k.created

module _ (sort : Sort) where
  -- The marks of the retention period, if there is one.
  unfoldable pub expired_set : StorageConfig → ℤ → List JobDirInfo → Protected → Map JobDirInfo
  unfolding mark_expired
  expired_set storage now jobs protected =
      if ltb_ℤ (pos 0) storage.retention_days
      then mark_expired protected (now -ℤ duration_days storage.retention_days) jobs []
      else []

  -- With those of max_jobs_retained.
  unfoldable pub surplus_set :
      StorageConfig → LimitsConfig → ℤ → List JobDirInfo → Protected → Map JobDirInfo
  surplus_set storage limits now jobs protected =
      let marked = expired_set storage now jobs protected in
      if ltb_ℤ (pos 0) limits.max_jobs_retained
      then mark_surplus protected limits.max_jobs_retained 0 (sort.slice newest_first jobs) marked
      else marked

  -- deleteSet as Cleanup leaves it.
  unfoldable pub delete_set :
      StorageConfig → LimitsConfig → ℤ → List JobDirInfo → Protected → Map JobDirInfo
  delete_set storage limits now jobs protected =
      let marked = surplus_set storage limits now jobs protected in
      let total = less_deleted (total_size jobs) marked in
      if ltb_ℤ (pos 0) storage.max_total_job_bytes && ltb_ℤ storage.max_total_job_bytes total
      then (mark_oversize protected storage.max_total_job_bytes total
          (sort.slice oldest_first (sort.slice newest_first jobs)) marked).0
      else marked

module _ (os : Os) (json : Json) where
  open os use {Fs}

  -- The callback of dirSize, over what WalkDir meets.
  unfoldable pub sum_sizes : Text → List WalkEntry → Result ℤ
  sum_sizes root [] = ok (pos 0)
  sum_sizes root (e ∷ es) =
      if e.is_dir || text_eq (clean e.path) (clean root)
      then sum_sizes root es
      else do size ← e.size; rest ← sum_sizes root es; ok (wrap64 (rest +ℤ size))

  -- dirSize
  unfoldable pub dir_size : Text → Fs → Result ℤ
  dir_size root fs = do entries ← os.walk_dir root fs; sum_sizes root entries

  -- The creation time of the metadata, unless it cannot be read or is the zero time.
  abbrev pub created_at : Result JobMetadata → ℤ → ℤ
  created_at (err e) modified = modified
  created_at (ok meta) modified = if is_zero meta.created_at then modified else meta.created_at

  -- The loop of listJobDirs.
  unfoldable pub list_entries : JobStore → List DirEntry → Fs → Result (List JobDirInfo)
  list_entries s [] fs = ok []
  list_entries s (e ∷ es) fs =
      let rest = list_entries s es fs in
      let full_path = join s.dir e.name in
      if not e.is_dir || not (is_job_id e.name) then rest else do
        modified ← os.mod_time full_path fs
        size ← dir_size full_path fs
        infos ← rest
        ok (
            record {
              id = e.name;
              path = full_path;
              created = created_at (read_metadata os json s e.name fs) modified;
              size = size;
            }
            ∷ infos)

  -- listJobDirs
  unfoldable pub list_job_dirs : JobStore → Fs → Result (List JobDirInfo)
  list_job_dirs s fs = elim (os.read_dir s.dir fs) [
    | ok entries ↦ list_entries s entries fs
    | err e ↦ elim e [ not_exist ↦ ok [] | other ↦ err other ]
  ]

  -- The loop that deletes; an error ends it with what was deleted so far.
  unfoldable pub delete_all : Map JobDirInfo → CleanupReport → Fs → (Bool × CleanupReport) × Fs
  delete_all [] report fs = ((true, report), fs)
  delete_all ((id, j) ∷ rest) report fs =
      let (removed, fs') = os.remove_all j.path fs in
      let report' = record report {
        deleted_ids = report.deleted_ids ++ j.id ∷ [];
        deleted_bytes = wrap64 (report.deleted_bytes +ℤ j.size);
      } in
      let more = delete_all rest report' fs' in
      elim removed [ err e ↦ ((false, report), fs') | ok u ↦ more ]

  abbrev pub empty_report : CleanupReport
  empty_report = record {
    deleted_ids = [];
    deleted_bytes = pos 0;
    remaining_jobs = pos 0;
    remaining_bytes = pos 0;
  }

  -- Cleanup, the listing having succeeded: whether it had no error, and the report.
  unfoldable pub cleanup_listed :
      Sort
      → StorageConfig
      → LimitsConfig
      → ℤ
      → List JobDirInfo
      → Protected
      → Fs
      → (Bool × CleanupReport) × Fs
  unfolding delete_all
  cleanup_listed sort storage limits now jobs protected fs =
      let doomed = delete_set sort storage limits now jobs protected in
      let ((done, report), fs') = delete_all doomed empty_report fs in
      (
        if done
            then (
              true,
              record report {
                deleted_ids = sort.strings report.deleted_ids;
                remaining_jobs = pos (length jobs) -ℤ pos (length doomed);
                remaining_bytes = wrap64 (total_size jobs -ℤ report.deleted_bytes);
              },
            )
            else (false, report),
        fs',
      )

  -- Cleanup
  unfoldable pub cleanup :
      Sort
      → JobStore
      → StorageConfig
      → LimitsConfig
      → Protected
      → ℤ
      → Fs
      → (Bool × CleanupReport) × Fs
  unfolding cleanup_listed
  cleanup sort s storage limits protected now fs = elim (list_job_dirs s fs) [
    | err e ↦ ((false, empty_report), fs)
    | ok jobs ↦ cleanup_listed sort storage limits now jobs protected fs
  ]
