-- ===== src/Doctor/Health.antt =====
-- What an exit code 0 of RunDoctor says of the deployment.
use vpsops.Base.{
  ℕ, zero, suc, ◌≡◌, refl, sym, ◌⊎◌, inl, inr, Bool, true, false, Bool-cases, Sum-cases, Option,
  none, some, List, [], ◌∷◌, ◌++◌, any, get_elem?, is_empty, if◌then◌else◌, Text, codes, text_eq,
  text_eq-true, take, pos, is_zero, is_zero-true, arith,
}
use vpsops.Types.{Config, privilege_user, privilege_root, state_succeeded}
use vpsops.Limiter.{duration_seconds}
use vpsops.Child.{ChildResult, WaitError, Command}
use vpsops.Runner.{HelperRun, HelperLaunch, no_helper, helper_ran, sudo_helper_args}
use vpsops.Settings.Load.{LoadError}
use vpsops.Doctor.{
  DoctorSystem, DoctorCheck, FileInfo, is_failure, is_executable, is_shared_writable, foreign_owner,
  has_failed, check_existing_dir, check_executable_path, probe_child_via_sudo, probe_spec,
  judge_probe, first_existing_path, doctor_static_checks, doctor_probe_checks, doctor_checks,
  run_doctor, skipped, pass_check,
}

any-false {ℓ} :
    {A : Type ℓ} (p : A → Bool) (xs : List A) (i : ℕ) (x : A)
    → any p xs ≡ false
    → get_elem? xs i ≡ some x
    → p x ≡ false
any-false p [] i x h e = cc
any-false p (y ∷ ys) zero x h e = let same : y ≡ x = cc in rw (sym same) (ground (arith, h))
any-false p (y ∷ ys) (suc i) x h e = any-false p ys i x (ground (arith, h)) e

any-append_right {ℓ} :
    {A : Type ℓ} (p : A → Bool) (xs ys : List A) → any p (xs ++ ys) ≡ false → any p ys ≡ false
any-append_right p [] ys h = h
any-append_right p (x ∷ xs) ys h = any-append_right p xs ys (ground (arith, h))

module _ (sys : DoctorSystem) where
  -- A file that only root can change and that can be executed.
  abbrev pub IsSafeHelper : Text → Type 0
  IsSafeHelper path =
      (info : FileInfo) × (sys.stat path ≡ inr info)
      × (info.is_dir ≡ false)
      × (is_executable info.mode ≡ true)
      × (is_shared_writable info.mode ≡ false)
      × (foreign_owner info.owner ≡ false)

  -- A directory in which the daemon can write.
  abbrev pub IsWritableDir : Text → Type 0
  IsWritableDir path =
      (info : FileInfo) × (sys.stat path ≡ inr info)
      × (info.is_dir ≡ true)
      × (sys.write_probe path ≡ none)

  abbrev probe_command : Config → Text → Text → Command
  probe_command cfg privilege spec = record {
    path = cfg.helpers.sudo_path;
    args = sudo_helper_args cfg privilege;
    dir = [];
    env = none;
    stdin = some spec;
    wait_delay = pos 0;
  }

  -- A helper with a privilege that has run a payload and reported its success.
  abbrev pub HasProbed : Config → Text → Type 0
  HasProbed cfg privilege =
      (true_path spec bytes : Text) × (r : HelperRun) × (res : ChildResult) × (sys.json.encode_spec
          (probe_spec sys cfg privilege true_path)
        ≡ inr spec)
      × (sys.sudo (probe_command cfg privilege spec) (duration_seconds (pos 5)) ≡ helper_ran r)
      × (r.result ≡ inr bytes)
      × (sys.json.decode_child (take 65_536 bytes) ≡ inr res)
      × (res.state ≡ state_succeeded)
      × (res.exit_code ≡ pos 0)
      × (r.wait ≡ none)

  check_executable_path-IsSafeHelper :
      (name path : Text)
      → is_failure sys (check_executable_path sys name path true) ≡ false
      → IsSafeHelper path
  unfolding check_executable_path
  check_executable_path-IsSafeHelper name path h = elim (Sum-cases (sys.stat path)) [
    | inl (e, missing) ↦ absurd (ground (arith, h, missing))
    | inr (info, found) ↦
        let tests : (info.is_dir ≡ false)
            × (is_executable info.mode ≡ true)
            × (is_shared_writable info.mode ≡ false)
            × (foreign_owner info.owner ≡ false) =
          ground (arith, h, found) in
        (info, found, tests.0, tests.1, tests.2, tests.3)
  ]

  check_existing_dir-IsWritableDir :
      (name path : Text)
      → is_failure sys (check_existing_dir sys name path true) ≡ false
      → IsWritableDir path
  unfolding check_existing_dir
  check_existing_dir-IsWritableDir name path h = elim (Sum-cases (sys.stat path)) [
    | inl (e, missing) ↦ absurd (ground (arith, h, missing))
    | inr (info, found) ↦
        let tests : (info.is_dir ≡ true) × (sys.write_probe path ≡ none) =
          ground (arith, h, found) in
        (info, found, tests.0, tests.1)
  ]

  judge_probe-succeeded :
      (name : Text) (r : HelperRun)
      → is_failure sys (judge_probe sys name r) ≡ false
      → (bytes : Text) × (res : ChildResult) × (r.result ≡ inr bytes)
        × (sys.json.decode_child (take 65_536 bytes) ≡ inr res)
        × (res.state ≡ state_succeeded)
        × (res.exit_code ≡ pos 0)
        × (r.wait ≡ none)
  unfolding judge_probe
  judge_probe-succeeded name r h = elim (Sum-cases r.result) [
    | inl (e, unread) ↦ absurd (ground (arith, h, unread))
    | inr (bytes, read) ↦ elim (Sum-cases (sys.json.decode_child (take 65_536 bytes))) [
      | inl (e, bad) ↦ absurd (ground (arith, h, read, bad))
      | inr (res, good) ↦
          let tests : (text_eq res.state state_succeeded ≡ true)
              × (is_zero res.exit_code ≡ true)
              × (has_failed sys r.wait ≡ false) =
            ground (arith, h, read, good) in
          (
            bytes,
            res,
            read,
            good,
            text_eq-true res.state state_succeeded tests.0,
            is_zero-true res.exit_code tests.1,
            no_wait_error r.wait tests.2,
          )
    ]
  ]
    where
      no_wait_error : (e : Option WaitError) → has_failed sys e ≡ false → e ≡ none
      no_wait_error none h = refl
      no_wait_error (some e) h = cc

  Launch-cases :
      (l : HelperLaunch) → ((e : Text) × (l ≡ no_helper e)) ⊎ ((r : HelperRun) × (l ≡ helper_ran r))
  Launch-cases (no_helper e) = inl (e, refl)
  Launch-cases (helper_ran r) = inr (r, refl)

  probe_child_via_sudo-HasProbed :
      (name : Text) (cfg : Config) (privilege : Text)
      → is_failure sys (probe_child_via_sudo sys name cfg privilege) ≡ false
      → HasProbed cfg privilege
  unfolding probe_child_via_sudo
  probe_child_via_sudo-HasProbed name cfg privilege h =
      let true_path = first_existing_path sys (codes "/usr/bin/true" ∷ codes "/bin/true" ∷ []) in
      elim (Bool-cases (is_empty true_path)) [
        | inl nowhere ↦ absurd (ground (arith, h, nowhere))
        | inr there ↦
            elim (Sum-cases (sys.json.encode_spec (probe_spec sys cfg privilege true_path))) [
              | inl (e, bad) ↦ absurd (ground (arith, h, there, bad))
              | inr (spec, good) ↦
                  elim (Launch-cases
                    (sys.sudo (probe_command cfg privilege spec) (duration_seconds (pos 5)))) [
                      | inl (e, stuck) ↦ absurd (ground (arith, h, there, good, stuck))
                      | inr (r, started) ↦
                          let judged : is_failure sys (judge_probe sys name r) ≡ false =
                            ground (arith, h, there, good, started) in
                          let (bytes, res, read, decoded, state, code, wait) =
                            judge_probe-succeeded name r judged in
                          (
                            true_path, spec, bytes, r, res, good, started, read, decoded, state,
                            code, wait,
                          )
                    ]
            ]
      ]

  probes :
      (cfg : Config) (probe : Bool) (rest : List DoctorCheck)
      → any (is_failure sys) (if probe then doctor_probe_checks sys cfg else rest) ≡ false
      → (probe ≡ false) ⊎ (HasProbed cfg privilege_user × HasProbed cfg privilege_root)
  unfolding doctor_probe_checks
  probes cfg false rest h = inl refl
  probes cfg true rest h =
      let user = any-false (is_failure sys) (doctor_probe_checks sys cfg) 0 _ h refl in
      let root = any-false (is_failure sys) (doctor_probe_checks sys cfg) 1 _ h refl in
      inr (
        probe_child_via_sudo-HasProbed (codes "sudo_probe.user_child_fd3") cfg privilege_user user,
        probe_child_via_sudo-HasProbed (codes "sudo_probe.root_child_fd3") cfg privilege_root root,
      )

-- If RunDoctor ends with exit code 0, the configuration was loaded; both helpers are executable
-- files that neither a group nor others can write, and that belong to root where the owner is
-- known; the daemon can write in the directories of jobs and logs; and if the probe was asked for,
-- sudo has run a payload with either privilege, and its helper has reported success.
pub run_doctor-healthy :
    (sys : DoctorSystem) (load : Text → LoadError ⊎ Config) (error_text : LoadError → Text)
    (config_path : Text) (probe : Bool)
    → (run_doctor sys load error_text config_path probe).1 ≡ 0
    → (cfg : Config) × (load config_path ≡ inr cfg)
      × IsSafeHelper sys cfg.helpers.run_child_path
      × IsSafeHelper sys cfg.helpers.root_child_path
      × IsWritableDir sys cfg.storage.job_dir
      × IsWritableDir sys cfg.storage.log_dir
      × ((probe ≡ false) ⊎ (HasProbed sys cfg privilege_user × HasProbed sys cfg privilege_root))
unfolding run_doctor doctor_checks doctor_static_checks
run_doctor-healthy sys load error_text config_path probe h = elim (Sum-cases (load config_path)) [
  | inl (e, bad) ↦ absurd (ground (arith, h, bad))
  | inr (cfg, loaded) ↦
      let checks = doctor_checks sys config_path cfg probe in
      let sound : any (is_failure sys) checks ≡ false = ground (arith, h, loaded) in
      let job_dir = any-false (is_failure sys) checks 3 _ sound refl in
      let log_dir = any-false (is_failure sys) checks 4 _ sound refl in
      let run_child = any-false (is_failure sys) checks 6 _ sound refl in
      let root_child = any-false (is_failure sys) checks 7 _ sound refl in
      (
        cfg,
        loaded,
        check_executable_path-IsSafeHelper sys (codes "helpers.run_child_path")
            cfg.helpers.run_child_path run_child,
        check_executable_path-IsSafeHelper sys (codes "helpers.root_child_path")
            cfg.helpers.root_child_path root_child,
        check_existing_dir-IsWritableDir sys (codes "storage.job_dir") cfg.storage.job_dir job_dir,
        check_existing_dir-IsWritableDir sys (codes "storage.log_dir") cfg.storage.log_dir log_dir,
        probes sys cfg probe skipped (
            any-append_right (is_failure sys)
              (pass_check (codes "config") (codes "loaded " ++ config_path)
                ∷ doctor_static_checks sys config_path cfg)
              (if probe then doctor_probe_checks sys cfg else skipped) sound),
      )
]
