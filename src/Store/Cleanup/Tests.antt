-- ===== src/Store/Cleanup/Tests.antt =====
-- Three job directories, of which one is protected, under an insertion sort.
use vpsops.Base.{
  ℕ, ◌*◌, ◌≡◌, refl, Bool, true, false, List, [], ◌∷◌, ◌≤◌, if◌then◌else◌, Text, pos, has, codes,
  text_eq, arith, count_if, ◌-ℤ◌, ◌*ℤ◌, wrap64,
}
use vpsops.Types.{StorageConfig, LimitsConfig}
use vpsops.Store.Cleanup.{JobDirInfo, Protected, Sort, delete_set, duration_days}
use vpsops.Store.Cleanup.Plan.{survivors}
use vpsops.Store.Cleanup.Limits.{
  Rearranges, delete_set-protected, delete_set-quota, delete_set-expired,
}

unfoldable insert_sorted :
    (JobDirInfo → JobDirInfo → Bool) → JobDirInfo → List JobDirInfo → List JobDirInfo
insert_sorted less j [] = j ∷ []
insert_sorted less j (k ∷ ks) =
    let rest = insert_sorted less j ks in if less k j then k ∷ rest else j ∷ k ∷ ks

unfoldable insertion_sort : (JobDirInfo → JobDirInfo → Bool) → List JobDirInfo → List JobDirInfo
unfolding insert_sorted
insertion_sort less [] = []
insertion_sort less (j ∷ js) = insert_sorted less j (insertion_sort less js)

count_if-insert_sorted :
    (test : JobDirInfo → Bool) (less : JobDirInfo → JobDirInfo → Bool) (j : JobDirInfo)
    (js : List JobDirInfo)
    → count_if test (insert_sorted less j js) ≡ count_if test (j ∷ js)
unfolding insert_sorted
count_if-insert_sorted test less j [] = refl
count_if-insert_sorted test less j (k ∷ ks) = ground (arith, count_if-insert_sorted test less j ks)

count_if-insertion_sort :
    (test : JobDirInfo → Bool) (less : JobDirInfo → JobDirInfo → Bool) (js : List JobDirInfo)
    → count_if test (insertion_sort less js) ≡ count_if test js
unfolding insertion_sort
count_if-insertion_sort test less [] = refl
count_if-insertion_sort test less (j ∷ js) = ground (
  arith,
  count_if-insert_sorted test less j (insertion_sort less js),
  count_if-insertion_sort test less js,
)

abbrev by_insertion : Sort
by_insertion = record { slice = insertion_sort; strings = λ ids. ids }

by_insertion-Rearranges : Rearranges by_insertion
by_insertion-Rearranges = record { counts = count_if-insertion_sort }

abbrev day : ℕ
day = 86_400_000_000_000

abbrev directory : Text → ℕ → JobDirInfo
directory id days = record {
  id = id;
  path = codes "/jobs";
  created = pos (days * day);
  size = pos 10;
}

abbrev listed : List JobDirInfo
listed =
    directory (codes "job-0001") 1
    ∷ directory (codes "job-0002") 9
    ∷ directory (codes "job-0003") 8
    ∷ []

abbrev running : Protected
running = text_eq (codes "job-0003")

abbrev a_week : StorageConfig
a_week = record {
  job_dir = codes "/jobs";
  log_dir = codes "/log";
  retention_days = pos 7;
  max_total_job_bytes = pos 100;
}

abbrev one_job : LimitsConfig
one_job = record {
  default_timeout_sec = pos 30;
  max_timeout_sec = pos 300;
  default_wait_sec = pos 25;
  max_wait_sec = pos 60;
  default_kill_grace_sec = pos 3;
  max_request_bytes = pos 131_072;
  max_cmd_bytes = pos 8192;
  max_stdin_bytes = pos 65_536;
  default_stdout_bytes = pos 262_144;
  default_stderr_bytes = pos 262_144;
  max_stdout_bytes = pos 1_048_576;
  max_stderr_bytes = pos 1_048_576;
  default_stdout_log_bytes = pos 1_048_576;
  default_stderr_log_bytes = pos 1_048_576;
  max_stdout_log_bytes = pos 16_777_216;
  max_stderr_log_bytes = pos 16_777_216;
  concurrency = pos 2;
  max_jobs_retained = pos 1;
}

delete_set-protected_example :
    has (codes "job-0003") (delete_set by_insertion a_week one_job (pos (10 * day)) listed running)
    ≡ false
unfolding text_eq
delete_set-protected_example =
    delete_set-protected by_insertion a_week one_job (pos (10 * day)) listed running
      (codes "job-0003") refl

delete_set-quota_example :
    survivors running
      (delete_set by_insertion a_week one_job (pos (10 * day)) listed running)
      listed
    ≤ 1
delete_set-quota_example =
    delete_set-quota by_insertion a_week one_job (pos (10 * day)) listed running 1
      by_insertion-Rearranges refl (omega arith)

delete_set-expired_example :
    has (codes "job-0001") (delete_set by_insertion a_week one_job (pos (10 * day)) listed running)
    ≡ true
unfolding text_eq duration_days wrap64 ◌-ℤ◌ ◌*ℤ◌
delete_set-expired_example =
    delete_set-expired by_insertion a_week one_job (pos (10 * day)) listed running 0
      (directory (codes "job-0001") 1) (omega arith) refl refl (omega arith)
