-- ===== src/Os.antt =====
-- What the daemon asks of the operating system and of packages sort and encoding/json. All are parameters of
-- the model: the file system is a state of its own, and a failing call says why.
use vpsops.Base.{◌≡◌, refl, ◌⊎◌, inl, inr, Bool, Option, List, Text, ℤ}
use vpsops.Types.{RunRequest, RunResult, JobMetadata}

-- The errors that the program tells apart: os.IsExist, os.IsNotExist, and all others.
pub data OsError : Type 0 where
  exist not_exist other_error : OsError

pub data Result {ℓ} (A : Type ℓ) : Type ℓ where
  ok : A → Result A
  err : OsError → Result A

infixl 5 ◌>>=◌
abbrev pub ◌>>=◌ {ℓ κ} : {A : Type ℓ} {B : Type κ} → Result A → (A → Result B) → Result B
ok a >>= f = f a
err e >>= f = err e

pub Result-cases {ℓ} :
    {A : Type ℓ} (r : Result A) → ((a : A) × (r ≡ ok a)) ⊎ ((e : OsError) × (r ≡ err e))
Result-cases (ok a) = inl (a, refl)
Result-cases (err e) = inr (e, refl)

-- An entry of os.ReadDir.
pub record DirEntry : Type 0 where
  pub name : Text
  pub is_dir : Bool

-- A file as filepath.WalkDir meets it: its path, whether it is a directory, and its size, unless
-- its Info fails.
pub record WalkEntry : Type 0 where
  pub path : Text
  pub is_dir : Bool
  pub size : Result ℤ

pub record Os : Type 1 where
  pub Fs : Type 0
  pub mkdir_all : Text → Fs → Result (Unit {0}) × Fs
  pub mkdir : Text → Fs → Result (Unit {0}) × Fs
  pub write_file : Text → Text → Fs → Result (Unit {0}) × Fs
  pub rename : Text → Text → Fs → Result (Unit {0}) × Fs
  pub remove_all : Text → Fs → Result (Unit {0}) × Fs
  -- os.OpenFile with O_CREATE|O_WRONLY|O_TRUNC: the file stands there, empty.
  pub create_file : Text → Fs → Result (Unit {0}) × Fs
  pub read_file : Text → Fs → Result Text
  pub read_dir : Text → Fs → Result (List DirEntry)
  -- The modification time of os.Stat.
  pub mod_time : Text → Fs → Result ℤ
  -- The entries of filepath.WalkDir, or the error of the first that cannot be walked.
  pub walk_dir : Text → Fs → Result (List WalkEntry)
  -- Of package sort, Slice with its `less`, and Strings.
  pub sort_slice : {A : Type 0} → (A → A → Bool) → List A → List A
  pub sort_strings : List Text → List Text

-- json.MarshalIndent of each type that is stored, and json.Unmarshal back.
pub record Json : Type 0 where
  pub encode_request : RunRequest → Option Text
  pub encode_metadata : JobMetadata → Option Text
  pub encode_result : RunResult → Option Text
  pub decode_metadata : Text → Option JobMetadata
  pub decode_result : Text → Option RunResult
