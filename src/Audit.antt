-- ===== src/Audit.antt =====
-- internal/execd/audit.go: the line that runJob appends to the audit log for a job. The redacting
-- regular expressions are replacement functions, and the encoders of package encoding/json and
-- SHA-256 in hex are parameters.
pub mod Preview
mod Tests
use vpsops.Base.{
  ℕ, Bool, Option, none, some, List, [], ◌∷◌, ◌++◌, length, take, ◌==◌, leb, if◌then◌else◌, Text,
  codes, text_eq, ℤ, Map,
}
use vpsops.Types.{RunRequest, RunResult, StorageConfig}
use vpsops.Path.{join}
use vpsops.Job.{Job}

pub record AuditEntry : Type 0 where
  pub ts : ℤ
  pub job_id : Text
  pub remote_addr : Text
  pub token_id : Text
  pub privilege : Text
  pub cwd : Text
  pub command_hash : Text
  pub command_hint : Text
  pub state : Text
  pub exit_code : ℤ
  pub timed_out : Bool
  pub duration_ms : ℤ

pub record AuditPackages : Type 0 where
  -- json.Marshal of an argv, Encode of an entry, `none` for an error
  pub marshal_argv : List Text → Option Text
  pub encode_entry : AuditEntry → Option Text
  pub sha256_hex : Text → Text
  -- ReplaceAllString of each redactor with "${1}[REDACTED]"
  pub redactors : List (Text → Text)

-- strings.Join(argv, "\x00")
abbrev pub join_argv : List Text → Text
join_argv [] = []
join_argv (arg ∷ []) = arg
join_argv (arg ∷ (next ∷ args)) = arg ++ 0 ∷ join_argv (next ∷ args)

-- strings.ReplaceAll(s, old, new) for an `old` of one byte
unfoldable pub replace_all : ℕ → Text → Text → Text
replace_all old new [] = []
replace_all old new (c ∷ s) =
    let rest = replace_all old new s in if c == old then new ++ rest else c ∷ rest

-- The loop over the redactors; each regular expression of the source is a replacement function here.
abbrev pub redact_all : List (Text → Text) → Text → Text
redact_all [] s = s
redact_all (f ∷ fs) s = redact_all fs (f s)

module _ (pkg : AuditPackages) where
  -- auditCommand
  unfoldable pub audit_command : RunRequest → Text
  audit_command req =
      if text_eq req.mode (codes "argv")
      then elim (pkg.marshal_argv req.argv) [ some b ↦ b | none ↦ join_argv req.argv ]
      else req.cmd

  -- The preview of auditPreview before it is cut.
  unfoldable pub whole_preview : RunRequest → Text
  whole_preview req =
      redact_all pkg.redactors
        (replace_all b'\r' (codes "\\r") (replace_all b'\n' (codes "\\n") (audit_command req)))

  -- auditPreview
  unfoldable pub audit_preview : RunRequest → Text
  unfolding whole_preview
  audit_preview req =
      let preview = whole_preview req in
      if leb (length preview) 200 then preview else take 200 preview ++ codes "..."

  -- newAuditEntry
  unfoldable pub new_audit_entry : ℤ → Job → RunRequest → RunResult → AuditEntry
  new_audit_entry ts j req res = record {
    ts = ts;
    job_id = j.id;
    remote_addr = j.remote;
    token_id = j.token_id;
    privilege = req.privilege;
    cwd = req.cwd;
    command_hash = pkg.sha256_hex (audit_command req);
    command_hint = audit_preview req;
    state = res.state;
    exit_code = res.exit_code;
    timed_out = res.timed_out;
    duration_ms = res.duration_ms;
  }

  -- writeAudit of server.go with writeAuditEntry: what is appended to which file; `none` is the
  -- error of Encode
  unfoldable pub write_audit : Text → ℤ → Job → RunRequest → RunResult → Option (Text × Text)
  write_audit log_dir ts j req res = elim (pkg.encode_entry (new_audit_entry ts j req res)) [
    | none ↦ none
    | some line ↦ some (join log_dir (codes "audit.log"), line)
  ]
