-- ===== src/Store/Tests.antt =====
-- A directory that filepath.Clean makes shorter.
use vpsops.Base.{◌≡◌, refl, ◌⊎◌, ◌++◌, ◌∷◌, codes, text_eq}
use vpsops.Path.{clean, is_abs, join, slash}
use vpsops.Store.{JobStore, job_dir, is_job_id}
use vpsops.Store.Confined.{job_dir-below}

abbrev untidy : JobStore
untidy = record { dir = codes "/var/lib/../jobs/" }

job_dir-below_example :
    ((clean untidy.dir ≡ codes "/") × (codes "/var/jobs/..secret" ≡ slash ∷ codes "..secret"))
    ⊎ (codes "/var/jobs/..secret" ≡ clean untidy.dir ++ slash ∷ codes "..secret")
unfolding job_dir is_job_id is_abs join clean text_eq
job_dir-below_example =
    job_dir-below untidy (codes "..secret") (codes "/var/jobs/..secret") refl refl
