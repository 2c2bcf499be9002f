-- ===== src/Audit/Tests.antt =====
-- A long command of two lines, and a redactor that hides digits.
use vpsops.Base.{
  refl, ℕ, ◌≢◌, ◌≤◌, zero, suc, Bool-cases, inl, inr, ◌==◌, All, some, [], ◌∷◌, ◌++◌, length, take,
  codes, Text, if◌then◌else◌, arith,
}
use vpsops.Types.{RunRequest}
use vpsops.System.Tests.{deploy}
use vpsops.Audit.{AuditPackages, audit_preview}
use vpsops.Audit.Preview.{OneLine, audit_preview-OneLine}

-- The first redactor replaces each `7` with a `*`, the second does nothing.
abbrev hide : Text → Text
hide [] = []
hide (c ∷ s) = (if c == b'7' then b'*' else c) ∷ hide s

abbrev NoSeven : Text → Type 0
NoSeven = All (λ (c : ℕ). c ≢ b'7')

hide-NoSeven : (s : Text) → NoSeven (hide s)
hide-NoSeven [] = tt
hide-NoSeven (c ∷ s) = elim (Bool-cases (c == b'7')) [
  | inl seven ↦ rw seven (λ h. absurd (omega (arith, h)), hide-NoSeven s)
  | inr other ↦ rw other (λ h. absurd (ground (arith, h, other)), hide-NoSeven s)
]

hide-OneLine : (s : Text) → OneLine s → OneLine (hide s)
hide-OneLine [] h = tt
hide-OneLine (c ∷ s) (here, h) = elim (Bool-cases (c == b'7')) [
  | inl seven ↦
      rw seven ((λ e. absurd (omega (arith, e)), λ e. absurd (omega (arith, e))), hide-OneLine s h)
  | inr other ↦ rw other (here, hide-OneLine s h)
]

NoSeven-take : (n : ℕ) (s : Text) → NoSeven s → NoSeven (take n s)
NoSeven-take zero s h = tt
NoSeven-take (suc n) [] h = tt
NoSeven-take (suc n) (c ∷ s) (here, h) = (here, NoSeven-take n s h)

abbrev packages : AuditPackages
packages = record {
  marshal_argv = λ argv. some [];
  encode_entry = λ e. some e.job_id;
  sha256_hex = λ s. s;
  redactors = hide ∷ (λ s. s) ∷ [];
}

abbrev two_lines : RunRequest
two_lines = record deploy { cmd = codes "kill 1777" ++ b'\n' ∷ codes "uptime" }

audit_preview-OneLine_example :
    (length (audit_preview packages two_lines) ≤ 203)
    × OneLine (audit_preview packages two_lines)
    × NoSeven (take 200 (audit_preview packages two_lines))
audit_preview-OneLine_example =
    audit_preview-OneLine packages two_lines NoSeven [] ((λ s. s) ∷ []) hide
      (hide-OneLine, (λ s h. h, tt)) refl hide-NoSeven (λ s h. h, tt) NoSeven-take
