-- ===== src/Store.antt =====
-- internal/execd/jobstore.go: the directory of jobs on disk. A method takes the file system and
-- returns the new one beside its result.
pub mod Cleanup
pub mod Confined
mod Tests
use vpsops.Base.{
  ℕ, ◌-◌, Bool, true, false, Option, none, some, List, [], ◌∷◌, ◌++◌, length, drop, ◌&&◌, ◌||◌, not,
  leb, ltb, ◌==◌, if◌then◌else◌, Text, codes, text_eq, ℤ, pos, leb_ℤ, ltb_ℤ, pos_part,
}
use vpsops.Types.{RunRequest, RunResult, JobMetadata}
use vpsops.Path.{join}
use vpsops.Os.{Os, Json, OsError, exist, not_exist, other_error, Result, ok, err, ◌>>=◌}

-- [A-Za-z0-9]
abbrev pub is_alphanumeric : ℕ → Bool
is_alphanumeric c =
    (leb b'A' c && leb c b'Z') || (leb b'a' c && leb c b'z') || (leb b'0' c && leb c b'9')

abbrev pub all_of : (ℕ → Bool) → Text → Bool
all_of p [] = true
all_of p (c ∷ s) = p c && all_of p s

-- jobIDRe of internal/execd/validation.go: ^[A-Za-z0-9._-]{8,80}$
abbrev pub is_job_id_char : ℕ → Bool
is_job_id_char c = is_alphanumeric c || c == b'.' || c == b'_' || c == b'-'

unfoldable pub is_job_id : Text → Bool
is_job_id s = leb 8 (length s) && leb (length s) 80 && all_of is_job_id_char s

pub record JobStore : Type 0 where
  pub dir : Text

-- jobDir
unfoldable pub job_dir : JobStore → Text → Result Text
job_dir s job_id = if is_job_id job_id then ok (join s.dir job_id) else err other_error

-- The names that OpenOutput and ReadOutput accept.
abbrev pub is_output_name : Text → Bool
is_output_name name = text_eq name (codes "stdout.log") || text_eq name (codes "stderr.log")

module _ (os : Os) (json : Json) where
  open os use {Fs}

  -- NewJobStore
  unfoldable pub new_job_store : Text → Fs → Result JobStore × Fs
  new_job_store dir fs =
      let (r, fs') = os.mkdir_all dir fs in
      (elim r [ err e ↦ err e | ok u ↦ ok (record { dir = dir }) ], fs')

  -- writeJSONAtomic, given the outcome of json.MarshalIndent
  unfoldable pub write_json_atomic : Text → Option Text → Fs → Result (Unit {0}) × Fs
  write_json_atomic path none fs = (err other_error, fs)
  write_json_atomic path (some b) fs =
      let tmp = path ++ codes ".tmp" in
      let (written, fs') = os.write_file tmp (b ++ codes "\n") fs in
      elim written [ err e ↦ (err e, fs') | ok u ↦ os.rename tmp path fs' ]

  -- os.Mkdir, where a directory that is there is no error
  unfoldable pub mkdir_existing : Text → Fs → Result (Unit {0}) × Fs
  mkdir_existing dir fs =
      let (made, fs') = os.mkdir dir fs in
      elim made [
        | err exist ↦ (ok tt, fs')
        | err not_exist ↦ (err not_exist, fs')
        | err other_error ↦ (err other_error, fs')
        | ok u ↦ (ok tt, fs')
      ]

  -- Create
  unfoldable pub create : JobStore → Text → RunRequest → Fs → Result (Unit {0}) × Fs
  unfolding write_json_atomic mkdir_existing
  create s job_id req fs = elim (job_dir s job_id) [
    | err e ↦ (err e, fs)
    | ok dir ↦
        let (made, fs') = mkdir_existing dir fs in
        elim made [
          | err e ↦ (err e, fs')
          | ok u ↦ write_json_atomic (join dir (codes "input.json")) (json.encode_request req) fs'
        ]
  ]

  -- SaveMetadata
  unfoldable pub save_metadata : JobStore → JobMetadata → Fs → Result (Unit {0}) × Fs
  save_metadata s meta fs = elim (job_dir s meta.job_id) [
    | err e ↦ (err e, fs)
    | ok dir ↦ write_json_atomic (join dir (codes "metadata.json")) (json.encode_metadata meta) fs
  ]

  abbrev decoded {ℓ} : {A : Type ℓ} → Option A → Result A
  decoded none = err other_error
  decoded (some a) = ok a

  -- ReadMetadata
  unfoldable pub read_metadata : JobStore → Text → Fs → Result JobMetadata
  read_metadata s job_id fs = do
    dir ← job_dir s job_id
    b ← os.read_file (join dir (codes "metadata.json")) fs
    decoded (json.decode_metadata b)

  -- SaveResult
  unfoldable pub save_result : JobStore → RunResult → Fs → Result (Unit {0}) × Fs
  save_result s res fs = elim (job_dir s res.job_id) [
    | err e ↦ (err e, fs)
    | ok dir ↦ write_json_atomic (join dir (codes "result.json")) (json.encode_result res) fs
  ]

  -- ReadResult
  unfoldable pub read_result : JobStore → Text → Fs → Result RunResult
  read_result s job_id fs = do
    dir ← job_dir s job_id
    b ← os.read_file (join dir (codes "result.json")) fs
    decoded (json.decode_result b)

  -- Remove
  unfoldable pub remove : JobStore → Text → Fs → Result (Unit {0}) × Fs
  remove s job_id fs = elim (job_dir s job_id) [
    | err e ↦ (err e, fs)
    | ok dir ↦ os.remove_all dir fs
  ]

  -- OpenOutput
  unfoldable pub open_output : JobStore → Text → Text → Fs → Result Text × Fs
  open_output s job_id name fs = elim (job_dir s job_id) [
    | err e ↦ (err e, fs)
    | ok dir ↦
        if is_output_name name
        then (let (made, fs') = os.create_file (join dir name) fs in
            (elim made [ err e ↦ err e | ok u ↦ ok (join dir name) ], fs'))
        else (err other_error, fs)
  ]

  -- ReadOutput
  unfoldable pub read_output : JobStore → Text → Text → Fs → Result Text
  read_output s job_id name fs = do
    dir ← job_dir s job_id
    if is_output_name name then os.read_file (join dir name) fs else err other_error

  -- ReadOutputTail: the open file's size is that of its contents, Seek(-n, SeekEnd) goes to the last
  -- n bytes, and io.ReadAll reads to the end. The file is read at one instant: a log that grows
  -- between Stat and ReadAll can give more than n bytes.
  unfoldable pub read_output_tail : JobStore → Text → Text → ℤ → Fs → Result Text
  unfolding read_output
  read_output_tail s job_id name tail_bytes fs =
      if leb_ℤ tail_bytes (pos 0) then read_output s job_id name fs else do
        b ← read_output s job_id name fs
        ok (
            if ltb_ℤ tail_bytes (pos (length b))
            then drop (length b - pos_part tail_bytes) b
            else b)
