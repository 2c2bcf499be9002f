-- ===== src/Doctor/Tests.antt =====
-- A sound deployment whose helpers answer with a success.
use vpsops.Base.{
  ◌≡◌, refl, ◌⊎◌, ◌||◌, inl, inr, true, false, none, some, [], codes, text_eq, contains, ltb_ℤ,
  is_zero, trim_space,
}
use vpsops.Types.{Config, privilege_user, privilege_root}
use vpsops.Settings.{
  default_config, validate, validate_limits, validate_paths, validate_token, validate_tokens,
  is_token_id,
}
use vpsops.Settings.Load.{ConfigFile, at_end, load_config}
use vpsops.Settings.Tests.{is_hex, two_tokens}
use vpsops.Runner.{helper_ran}
use vpsops.Runner.Tests.{success}
use vpsops.Doctor.{
  DoctorSystem, run_doctor, doctor_checks, doctor_static_checks, doctor_probe_checks, check_listen,
  check_token_shape, check_existing_dir, check_executable_path, is_executable, is_shared_writable,
  is_open_to_others, check_run_user, check_config_file, first_existing_path, probe_child_via_sudo,
  judge_probe, probe_spec,
}
use vpsops.Doctor.Health.{IsSafeHelper, IsWritableDir, HasProbed, run_doctor-healthy}

-- Every name with "dir" is a directory, all else is a file of mode 0755 that belongs to root.
abbrev sound_system : DoctorSystem
sound_system = record {
  stat = λ path. inr (record {
    is_dir = text_eq path two_tokens.storage.job_dir || text_eq path two_tokens.storage.log_dir;
    mode = 493;
    owner = some 0;
  });
  write_probe = λ path. none;
  split_host_port = λ addr. inr (codes "localhost");
  is_loopback_ip = λ host. false;
  id_user = λ user. none;
  sudo = λ cmd timeout.
      helper_ran (record { stdout = []; stderr = []; result = inr (codes "r"); wait = none });
  json = record {
    encode_spec = λ s. inr (codes "s");
    decode_spec = λ b. inl (codes "unread");
    encode_child = λ r. none;
    decode_child = λ b. inr success;
  };
  show_int = λ n. [];
}

abbrev config_file : ConfigFile
config_file = record {
  read_file = λ path. inr [];
  decode_onto = λ base b. inr (record base { tokens = two_tokens.tokens });
  decode_second = λ b. at_end;
}

run_doctor-healthy_example :
    (cfg : Config) × (load_config is_hex config_file (codes "/etc/config") ≡ inr cfg)
    × IsSafeHelper sound_system cfg.helpers.run_child_path
    × IsSafeHelper sound_system cfg.helpers.root_child_path
    × IsWritableDir sound_system cfg.storage.job_dir
    × IsWritableDir sound_system cfg.storage.log_dir
    × ((true ≡ false)
        ⊎ (HasProbed sound_system cfg privilege_user × HasProbed sound_system cfg privilege_root))
unfolding run_doctor doctor_checks doctor_static_checks doctor_probe_checks check_listen
    check_token_shape check_existing_dir check_executable_path is_executable is_shared_writable
    check_run_user check_config_file is_open_to_others first_existing_path probe_child_via_sudo
    judge_probe probe_spec load_config validate validate_tokens validate_token validate_limits
    validate_paths default_config is_token_id contains text_eq ltb_ℤ is_zero trim_space
run_doctor-healthy_example =
    run_doctor-healthy sound_system (load_config is_hex config_file) (λ e. codes "error")
      (codes "/etc/config") true refl
