-- ===== src/Runner/Privilege.antt =====
-- Which helper sudo starts for a request.
use vpsops.Base.{
  ℕ, ◌≡◌, ◌⊎◌, inl, inr, refl, Bool, true, false, not, ◌&&◌, Option, some, List, [], ◌∷◌,
  if◌then◌else◌, Text, codes, text_eq, ℤ,
}
use vpsops.Types.{RunRequest, Config, AuthInfo, privilege_root}
use vpsops.Os.{Os, Json}
use vpsops.Auth.{authenticate, identified}
use vpsops.Http.{Request, Packages}
use vpsops.Server.{Server, waits_for, handle_run}
use vpsops.Server.Run.{handle_run-Fits}
use vpsops.Runner.{helper_command, sudo_helper_args}

-- The helper of the user with the configured name.
abbrev pub user_args : Config → List Text
user_args cfg =
    codes "-n"
    ∷ codes "-C"
    ∷ codes "4"
    ∷ codes "-u"
    ∷ cfg.execution.run_user
    ∷ cfg.helpers.run_child_path
    ∷ []

-- The helper of root.
abbrev pub root_args : Config → List Text
root_args cfg = codes "-n" ∷ codes "-C" ∷ codes "4" ∷ cfg.helpers.root_child_path ∷ []

-- For a new job that handleRun waits for, and whatever the specification: runViaChild starts the
-- configured sudo and gives it that specification as its input. If the request asks for root, the
-- token may use root and sudo starts the helper of root; if not, sudo starts the helper without root,
-- for the configured user.
pub helper_command-root :
    (os : Os) (json : Json) (net : Packages) (links : Text → Option Text) (s s' : Server)
    (r : Request) (job_id : Text) (now : ℤ) (fs fs' : os.Fs) (p : ℕ) (req : RunRequest)
    (spec : Text)
    → handle_run os json net links s r job_id now fs ≡ some (s', waits_for p false req, fs')
    → let cmd = helper_command s.cfg req spec in
      (who : AuthInfo) × (authenticate net.sha256_hex r.authorization s.cfg ≡ identified who)
      × (cmd.path ≡ s.cfg.helpers.sudo_path)
      × (cmd.stdin ≡ some spec)
      × (((text_eq req.privilege privilege_root ≡ true)
            × (who.allow_root ≡ true)
            × (cmd.args ≡ root_args s.cfg))
          ⊎ ((text_eq req.privilege privilege_root ≡ false) × (cmd.args ≡ user_args s.cfg)))
unfolding helper_command sudo_helper_args
helper_command-root os json net links s s' r job_id now fs fs' p req spec h =
    let (who, known, fits, root, made) =
      handle_run-Fits os json net links s s' r job_id now fs fs' p req h in
    (who, known, refl, refl, either (text_eq req.privilege privilege_root) who.allow_root root)
  where
    args : Bool → List Text
    args asked =
        codes "-n"
        ∷ codes "-C"
        ∷ codes "4"
        ∷ (if asked
            then s.cfg.helpers.root_child_path ∷ []
            else codes "-u" ∷ s.cfg.execution.run_user ∷ s.cfg.helpers.run_child_path ∷ [])

    either :
        (asked allowed : Bool)
        → (asked && not allowed) ≡ false
        → ((asked ≡ true) × (allowed ≡ true) × (args asked ≡ root_args s.cfg))
          ⊎ ((asked ≡ false) × (args asked ≡ user_args s.cfg))
    either true true h = inl (refl, refl, refl)
    either false allowed h = inr (refl, refl)
    either true false h = absurd cc
