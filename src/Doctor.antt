-- ===== src/Doctor.antt =====
-- internal/execd/doctor.go: the self-checks of a deployment. What the checks ask of the system is a
-- parameter. The report is the list of checks; an error is its text.
pub mod Health
pub mod Tests
use vpsops.Base.{
  ℕ, suc, ◌/◌, ◌%◌, ◌^◌, Bool, true, false, Option, none, some, List, [], ◌∷◌, ◌++◌, length,
  is_empty, any, ◌&&◌, ◌||◌, not, ◌==◌, if◌then◌else◌, Text, codes, text_eq, trim_space, take, ◌⊎◌,
  inl, inr, ℤ, pos, is_zero,
}
use vpsops.Types.{Config, TokenConfig, privilege_user, privilege_root, state_succeeded}
use vpsops.Capped.Prefix.{concat}
use vpsops.Limiter.{duration_seconds}
use vpsops.Validation.{clean_env}
use vpsops.Child.{ChildSpec, ChildResult, ChildJson, WaitError, Command}
use vpsops.Runner.{Sudo, HelperRun, no_helper, helper_ran, sudo_helper_args}
use vpsops.Settings.Load.{LoadError}

pub data Status : Type 0 where
  pass warn fail : Status

pub record DoctorCheck : Type 0 where
  pub status : Status
  pub name : Text
  pub detail : Text

-- What the checks read of an os.FileInfo: the owner is known if Sys() is a *syscall.Stat_t.
pub record FileInfo : Type 0 where
  pub is_dir : Bool
  pub mode : ℕ
  pub owner : Option ℕ

pub record DoctorSystem : Type 0 where
  pub stat : Text → Text ⊎ FileInfo
  -- os.WriteFile of the probe file in a directory: the error's text
  pub write_probe : Text → Option Text
  -- The host of net.SplitHostPort, and ip := net.ParseIP(host); ip != nil && ip.IsLoopback()
  pub split_host_port : Text → Text ⊎ Text
  pub is_loopback_ip : Text → Bool
  -- `id -u` with a user's name: the output if it fails
  pub id_user : Text → Option Text
  pub sudo : Sudo
  pub json : ChildJson
  -- %d
  pub show_int : ℤ → Text

abbrev pub pass_check : Text → Text → DoctorCheck
pass_check name detail = record { status = pass; name = name; detail = detail }

abbrev pub warn_check : Text → Text → DoctorCheck
warn_check name detail = record { status = warn; name = name; detail = detail }

abbrev pub fail_check : Text → Text → DoctorCheck
fail_check name detail = record { status = fail; name = name; detail = detail }

-- Bit k of a file mode.
abbrev pub has_bit : ℕ → ℕ → Bool
has_bit mode k = not ((mode / 2 ^ k) % 2 == 0)

-- mode&0111 != 0, mode&0022 != 0, mode&0007 != 0
unfoldable pub is_executable : ℕ → Bool
is_executable mode = has_bit mode 0 || (has_bit mode 3 || has_bit mode 6)

unfoldable pub is_shared_writable : ℕ → Bool
is_shared_writable mode = has_bit mode 1 || has_bit mode 4

unfoldable pub is_open_to_others : ℕ → Bool
is_open_to_others mode = has_bit mode 0 || (has_bit mode 1 || has_bit mode 2)

-- The test of checkExecutablePath on the owner.
abbrev pub foreign_owner : Option ℕ → Bool
foreign_owner none = false
foreign_owner (some uid) = not (uid == 0)

-- In place of the probes.
abbrev pub skipped : List DoctorCheck
skipped =
    warn_check (codes "sudo_probe") (codes "skipped; rerun with -doctor-probe on the target host")
    ∷ []

-- checkTokenShape
unfoldable pub check_token_shape : (ℤ → Text) → Config → DoctorCheck
check_token_shape show_int cfg =
    let count = show_int (pos (length cfg.tokens)) in
    if any (λ (t : TokenConfig). t.allow_root) cfg.tokens
    then pass_check (codes "tokens") (count ++ codes " configured, root-capable token present")
    else warn_check (codes "tokens") (count ++ codes " configured, no root-capable token")

module _ (sys : DoctorSystem) where
  -- checkListen
  unfoldable pub check_listen : Text → DoctorCheck
  check_listen addr = elim (sys.split_host_port addr) [
    | inl e ↦ warn_check (codes "listen") (codes "cannot parse listen address: " ++ e)
    | inr host ↦
        if is_empty host
        then warn_check (codes "listen")
            (addr ++ codes " has an empty host and binds all interfaces; use 127.0.0.1:port")
        else if text_eq host (codes "localhost")
        then pass_check (codes "listen") addr
        else if sys.is_loopback_ip host
        then pass_check (codes "listen") addr
        else warn_check (codes "listen") (
            addr
            ++ codes
                " is not loopback; put this API behind a private network or strong access control")
  ]

  -- checkExistingDir
  unfoldable pub check_existing_dir : Text → Text → Bool → DoctorCheck
  check_existing_dir name path must_write = elim (sys.stat path) [
    | inl e ↦ fail_check name e
    | inr info ↦
        if not info.is_dir
        then fail_check name (path ++ codes " is not a directory")
        else if not must_write
        then pass_check name path
        else elim (sys.write_probe path) [
          | some e ↦ fail_check name (path ++ codes " is not writable: " ++ e)
          | none ↦ pass_check name (path ++ codes " writable")
        ]
  ]

  -- checkExecutablePath
  unfoldable pub check_executable_path : Text → Text → Bool → DoctorCheck
  check_executable_path name path require_root_owned = elim (sys.stat path) [
    | inl e ↦ fail_check name e
    | inr info ↦
        if info.is_dir
        then fail_check name (path ++ codes " is a directory")
        else if not (is_executable info.mode)
        then fail_check name (path ++ codes " is not executable")
        else if is_shared_writable info.mode
        then fail_check name (path ++ codes " is group/world writable")
        else if require_root_owned && foreign_owner info.owner
        then fail_check name (path ++ codes " is not root-owned")
        else pass_check name path
  ]

  -- checkRunUser
  unfoldable pub check_run_user : Text → DoctorCheck
  check_run_user run_user =
      if is_empty run_user
      then fail_check (codes "execution.run_user") (codes "empty")
      else elim (sys.id_user run_user) [
        | some out ↦ fail_check (codes "execution.run_user") (trim_space out)
        | none ↦ pass_check (codes "execution.run_user") run_user
      ]

  -- checkConfigFile
  unfoldable pub check_config_file : Text → DoctorCheck
  check_config_file path = elim (sys.stat path) [
    | inl e ↦ fail_check (codes "config_file") e
    | inr info ↦
        if info.is_dir
        then fail_check (codes "config_file") (path ++ codes " is a directory")
        else if is_open_to_others info.mode
        then warn_check (codes "config_file")
            (path ++ codes " is readable or writable by other users")
        else pass_check (codes "config_file") path
  ]

  -- doctorStaticChecks
  unfoldable pub doctor_static_checks : Text → Config → List DoctorCheck
  doctor_static_checks config_path cfg =
      (check_listen cfg.listen
        ∷ check_token_shape sys.show_int cfg
        ∷ check_existing_dir (codes "storage.job_dir") cfg.storage.job_dir true
        ∷ check_existing_dir (codes "storage.log_dir") cfg.storage.log_dir true
        ∷ check_executable_path (codes "helpers.sudo_path") cfg.helpers.sudo_path false
        ∷ check_executable_path (codes "helpers.run_child_path") cfg.helpers.run_child_path true
        ∷ check_executable_path (codes "helpers.root_child_path") cfg.helpers.root_child_path true
        ∷ check_executable_path (codes "execution.shell_path") cfg.execution.shell_path false
        ∷ check_run_user cfg.execution.run_user
        ∷ [])
      ++ (if is_empty config_path then [] else check_config_file config_path ∷ [])

  -- firstExistingPath; no path is the empty text
  unfoldable pub first_existing_path : List Text → Text
  first_existing_path [] = []
  first_existing_path (p ∷ ps) =
      let rest = first_existing_path ps in
      elim (sys.stat p) [ inl e ↦ rest | inr info ↦ if info.is_dir then rest else p ]

  -- The specification of probeChildViaSudo.
  unfoldable pub probe_spec : Config → Text → Text → ChildSpec
  probe_spec cfg privilege true_path = record {
    mode = codes "argv";
    cmd = [];
    argv = true_path ∷ [];
    privilege = privilege;
    cwd = codes "/";
    env = clean_env [] privilege cfg;
    stdin = [];
    timeout_sec = pos 2;
    kill_grace_sec = pos 1;
    max_stdout_log_bytes = pos 1024;
    max_stderr_log_bytes = pos 1024;
    execution = cfg.execution;
  }

  abbrev pub wait_text : Text → Option WaitError → Text
  wait_text prefix none = []
  wait_text prefix (some e) = prefix ++ e.text

  -- if text != "" { detail += prefix + text }
  abbrev pub noted : Text → Text → Text
  noted prefix text = if is_empty text then [] else prefix ++ text

  abbrev pub has_failed : Option WaitError → Bool
  has_failed none = false
  has_failed (some e) = true

  -- The end of probeChildViaSudo, behind cmd.Wait().
  unfoldable pub judge_probe : Text → HelperRun → DoctorCheck
  judge_probe name r = elim r.result [
    | inl e ↦ fail_check name e
    | inr bytes ↦
        let stderr = concat r.stderr in
        let read = take 65_536 bytes in
        let complaint =
          λ (prefix : Text). if is_empty stderr then [] else prefix ++ trim_space stderr in
        if is_empty (trim_space read)
        then fail_check name (
            codes
              "missing child result on fd 3; check sudo -C 4 and Defaults:aiopsd closefrom_override"
            ++ complaint (codes ": ")
            ++ wait_text (codes ": ") r.wait)
        else elim (sys.json.decode_child read) [
          | inl e ↦ fail_check name (codes "invalid child result: " ++ e)
          | inr res ↦
              if not (text_eq res.state state_succeeded)
                || (not (is_zero res.exit_code) || has_failed r.wait)
              then fail_check name (
                  codes "state="
                  ++ res.state
                  ++ codes " exit_code="
                  ++ sys.show_int res.exit_code
                  ++ noted (codes " error=") res.error
                  ++ wait_text (codes " wait=") r.wait
                  ++ complaint (codes " stderr="))
              else pass_check name (codes "helper wrote valid result on fd 3")
        ]
  ]

  -- probeChildViaSudo
  unfoldable pub probe_child_via_sudo : Text → Config → Text → DoctorCheck
  unfolding probe_spec judge_probe
  probe_child_via_sudo name cfg privilege =
      let true_path = first_existing_path (codes "/usr/bin/true" ∷ codes "/bin/true" ∷ []) in
      if is_empty true_path
      then fail_check name (codes "cannot find true binary")
      else elim (sys.json.encode_spec (probe_spec cfg privilege true_path)) [
        | inl e ↦ fail_check name e
        | inr spec ↦
            elim (sys.sudo
              (record {
                path = cfg.helpers.sudo_path;
                args = sudo_helper_args cfg privilege;
                dir = [];
                env = none;
                stdin = some spec;
                wait_delay = pos 0;
              })
              (duration_seconds (pos 5))) [
                | no_helper e ↦ fail_check name e
                | helper_ran r ↦ judge_probe name r
              ]
      ]

  -- doctorProbeChecks
  unfoldable pub doctor_probe_checks : Config → List DoctorCheck
  doctor_probe_checks cfg =
      probe_child_via_sudo (codes "sudo_probe.user_child_fd3") cfg privilege_user
      ∷ probe_child_via_sudo (codes "sudo_probe.root_child_fd3") cfg privilege_root
      ∷ []

  abbrev pub is_failure : DoctorCheck → Bool
  is_failure c = elim c.status [ fail ↦ true | warn ↦ false | pass ↦ false ]

  -- The checks of RunDoctor for a configuration that is loaded.
  unfoldable pub doctor_checks : Text → Config → Bool → List DoctorCheck
  doctor_checks config_path cfg probe =
      (pass_check (codes "config") (codes "loaded " ++ config_path)
        ∷ doctor_static_checks config_path cfg)
      ++ (if probe then doctor_probe_checks cfg else skipped)

  -- RunDoctor, given what LoadConfig gives: the checks that are reported, and the exit code
  unfoldable pub run_doctor :
      (Text → LoadError ⊎ Config) → (LoadError → Text) → Text → Bool → List DoctorCheck × ℕ
  run_doctor load error_text config_path probe = elim (load config_path) [
    | inl e ↦ (fail_check (codes "config") (error_text e) ∷ [], 1)
    | inr cfg ↦
        let checks = doctor_checks config_path cfg probe in
        (checks, if any is_failure checks then 1 else 0)
  ]
