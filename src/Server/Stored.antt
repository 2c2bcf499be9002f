-- ===== src/Server/Stored.antt =====
-- What a client sees of a job that only the disk remembers.
use vpsops.Base.{◌≡◌, refl, ◌++◌, none, some, Text, codes, ap, inl, inr, arith}
use vpsops.Types.{RunResult}
use vpsops.Path.{join}
use vpsops.Os.{Os, Json, Result, ok, Result-cases}
use vpsops.Store.{JobStore, job_dir, save_result, read_result, write_json_atomic}
use vpsops.Lifecycle.{Lifecycle, get_job}
use vpsops.Http.{Packages, write_json, summary_body}
use vpsops.Server.Jobs.{show_job}

-- The contract of os.WriteFile, os.Rename and os.ReadFile: what is written under a name, and renamed,
-- is read under the new name.
pub record Renames (os : Os) : Type 0 where
  pub reads :
      (tmp path b : Text) (fs fs1 fs2 : os.Fs)
      → os.write_file tmp b fs ≡ (ok tt, fs1)
      → os.rename tmp path fs1 ≡ (ok tt, fs2)
      → os.read_file path fs2 ≡ ok b

-- A file that writeJSONAtomic has written.
write_json_atomic-read :
    (os : Os) (json : Json) (path b : Text) (fs fs' : os.Fs)
    → Renames os
    → write_json_atomic os json path (some b) fs ≡ (ok tt, fs')
    → os.read_file path fs' ≡ ok (b ++ codes "\n")
unfolding write_json_atomic
write_json_atomic-read os json path b fs fs' law h =
    elim (Result-cases (os.write_file (path ++ codes ".tmp") (b ++ codes "\n") fs).0) [
      | inl (u, written) ↦
          let fs1 = (os.write_file (path ++ codes ".tmp") (b ++ codes "\n") fs).1 in
          law.reads (path ++ codes ".tmp") path (b ++ codes "\n") fs fs1 fs'
            (ap (λ (r : Result (Unit {0})). (r, fs1)) written) (ground (arith, h, written))
      | inr (e, failed) ↦ absurd (ground (arith, h, failed))
    ]

-- The result that SaveResult has stored is what ReadResult gives.
read_result-save :
    (os : Os) (json : Json) (s : JobStore) (res : RunResult) (b : Text) (fs fs' : os.Fs)
    → Renames os
    → json.encode_result res ≡ some b
    → json.decode_result (b ++ codes "\n") ≡ some res
    → save_result os json s res fs ≡ (ok tt, fs')
    → read_result os json s res.job_id fs' ≡ ok res
unfolding save_result read_result write_json_atomic
read_result-save os json s res b fs fs' law encoded decoded h =
    elim (Result-cases (job_dir s res.job_id)) [
      | inr (e, bad) ↦ absurd (ground (arith, h, bad))
      | inl (dir, good) ↦
          let path = join dir (codes "result.json") in
          let written : write_json_atomic os json path (some b) fs ≡ (ok tt, fs') =
            ground (arith, h, good, encoded) in
          rw (good, write_json_atomic-read os json path b fs fs' law written, decoded) refl
    ]

-- If SaveResult has succeeded, on a file system where what is written and renamed is read again and
-- with a codec that decodes what it has encoded, then a daemon on the same directory that does not hold the job in memory, be it pruned or before a
-- restart, answers a request for the job's state with status 200 and exactly the saved result.
pub show_job-saved :
    (os : Os) (json : Json) (net : Packages) (l : Lifecycle) (res : RunResult) (b : Text)
    (fs fs' : os.Fs)
    → Renames os
    → json.encode_result res ≡ some b
    → json.decode_result (b ++ codes "\n") ≡ some res
    → save_result os json l.store res fs ≡ (ok tt, fs')
    → get_job os json l res.job_id ≡ none
    → show_job os json net l res.job_id fs'
      ≡ write_json 200 (
          summary_body (record {
            job_id = res.job_id;
            state = res.state;
            started_at = res.started_at;
            finished_at = some res.finished_at;
            result = some res;
          }))
unfolding show_job
show_job-saved os json net l res b fs fs' law encoded decoded saved gone =
    rw (show_job, gone, read_result-save os json l.store res b fs fs' law encoded decoded saved)
      refl
