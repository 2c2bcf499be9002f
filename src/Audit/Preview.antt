-- ===== src/Audit/Preview.antt =====
-- The preview of a command is short and stays on its line.
use vpsops.Base.{
  sym, subst, ℕ, zero, suc, ◌<◌, take-append, take_all, ◌-◌, append-nil, ◌∙◌, ◌≡◌, refl, ◌≤◌, false,
  Bool-cases, inl, inr, List, [], ◌∷◌, ◌++◌, length, length-append, length-take, take, ◌==◌, leb,
  leb→le, Text, codes, arith, All, ◌≢◌,
}
use vpsops.Types.{RunRequest}
use vpsops.Audit.{
  AuditPackages, replace_all, redact_all, audit_command, whole_preview, audit_preview,
}

-- Neither a line feed nor a carriage return.
abbrev pub OneLine : Text → Type 0
OneLine = All (λ (c : ℕ). (c ≢ b'\n') × (c ≢ b'\r'))

-- Redactors that add no line break.
abbrev pub KeepLines : List (Text → Text) → Type 0
KeepLines = All (λ (f : Text → Text). (s : Text) → OneLine s → OneLine (f s))

OneLine-append : (s t : Text) → OneLine s → OneLine t → OneLine (s ++ t)
OneLine-append [] t h k = k
OneLine-append (c ∷ s) t (here, h) k = (here, OneLine-append s t h k)

OneLine-take : (n : ℕ) (s : Text) → OneLine s → OneLine (take n s)
OneLine-take zero s h = tt
OneLine-take (suc n) [] h = tt
OneLine-take (suc n) (c ∷ s) (here, h) = (here, OneLine-take n s h)

OneLine-redact_all :
    (fs : List (Text → Text)) (s : Text) → KeepLines fs → OneLine s → OneLine (redact_all fs s)
OneLine-redact_all [] s k h = h
OneLine-redact_all (f ∷ fs) s (keeps, k) h = OneLine-redact_all fs (f s) k (keeps s h)

apart : (c : ℕ) → 14 ≤ c → c ≢ b'\n'
apart c h e = absurd (omega (arith, h, e))

visible : (c : ℕ) → 14 ≤ c → (c ≢ b'\n') × (c ≢ b'\r')
visible c h = (apart c h, λ e. absurd (omega (arith, h, e)))

-- No line feed.
abbrev NoFeed : Text → Type 0
NoFeed = All (λ (c : ℕ). c ≢ b'\n')

NoFeed-replace_all : (s : Text) → NoFeed (replace_all b'\n' (codes "\\n") s)
unfolding replace_all
NoFeed-replace_all [] = tt
NoFeed-replace_all (c ∷ s) = elim (Bool-cases (c == b'\n')) [
  | inl feed ↦ rw feed (apart b'\\' (omega arith), (apart b'n' (omega arith), NoFeed-replace_all s))
  | inr other ↦ rw other (λ h. absurd (ground (arith, h, other)), NoFeed-replace_all s)
]

OneLine-replace_all : (s : Text) → NoFeed s → OneLine (replace_all b'\r' (codes "\\r") s)
unfolding replace_all
OneLine-replace_all [] h = tt
OneLine-replace_all (c ∷ s) (here, h) = elim (Bool-cases (c == b'\r')) [
  | inl back ↦
      rw back (visible b'\\' (omega arith), (visible b'r' (omega arith), OneLine-replace_all s h))
  | inr other ↦ rw other ((here, λ h. absurd (ground (arith, h, other))), OneLine-replace_all s h)
]

leb-false : (a b : ℕ) → leb a b ≡ false → b < a
leb-false a b h = ground (arith, h)

-- The beginning of a text that was cut.
cut : (s : Text) → 200 ≤ length s → take 200 (take 200 s ++ codes "...") ≡ take 200 s
cut s h =
    let size : length (take 200 s) ≡ 200 = omega (arith, length-take 200 s, h) in
    let rest : 200 - length (take 200 s) ≡ 0 = omega (arith, size) in
    take-append 200 (take 200 s) (codes "...")
    ∙ rw (rest, take_all 200 (take 200 s) (omega (arith, size))) (append-nil (take 200 s))

redact_all-append :
    (fs gs : List (Text → Text)) (s : Text)
    → redact_all (fs ++ gs) s ≡ redact_all gs (redact_all fs s)
redact_all-append [] gs s = refl
redact_all-append (f ∷ fs) gs s = redact_all-append fs gs (f s)

-- Redactors that keep what is true of a text.
abbrev pub Keep : (Text → Type 0) → List (Text → Text) → Type 0
Keep P = All (λ (f : Text → Text). (s : Text) → P s → P (f s))

redact_all-Keep :
    (P : Text → Type 0) (fs : List (Text → Text)) (s : Text) → Keep P fs → P s → P (redact_all fs s)
redact_all-Keep P [] s k h = h
redact_all-Keep P (f ∷ fs) s (keeps, k) h = redact_all-Keep P fs (f s) k (keeps s h)

audit_preview-begins :
    (pkg : AuditPackages) (req : RunRequest)
    → take 200 (audit_preview pkg req) ≡ take 200 (whole_preview pkg req)
unfolding audit_preview
audit_preview-begins pkg req =
    let whole = whole_preview pkg req in
    elim (Bool-cases (leb (length whole) 200)) [
      | inl short ↦ rw short refl
      | inr long ↦ rw long (cut whole (omega (arith, leb-false (length whole) 200 long)))
    ]

audit_preview-shape :
    (pkg : AuditPackages) (req : RunRequest)
    → KeepLines pkg.redactors
    → (length (audit_preview pkg req) ≤ 203) × OneLine (audit_preview pkg req)
unfolding audit_preview
audit_preview-shape pkg req keep =
    let whole = whole_preview pkg req in
    let one : OneLine whole =
      unfold whole_preview in
      OneLine-redact_all pkg.redactors _ keep (
        OneLine-replace_all (replace_all b'\n' (codes "\\n") (audit_command pkg req))
          (NoFeed-replace_all (audit_command pkg req))) in
    let dot = visible b'.' (omega arith) in
    elim (Bool-cases (leb (length whole) 200)) [
      | inl short ↦ rw short (omega (arith, leb→le (length whole) 200 short), one)
      | inr long ↦ rw long (
        omega (arith, length-append (take 200 whole) (codes "..."), length-take 200 whole),
        OneLine-append (take 200 whole) (codes "...") (OneLine-take 200 whole one)
            (dot, (dot, (dot, tt))),
      )
    ]

-- What one of the redactors ensures is true of the whole preview, if the redactors after it keep it.
whole_preview-redacted :
    (pkg : AuditPackages) (req : RunRequest) (P : Text → Type 0) (before after : List (Text → Text))
    (f : Text → Text)
    → pkg.redactors ≡ before ++ f ∷ after
    → ((s : Text) → P (f s))
    → Keep P after
    → P (whole_preview pkg req)
unfolding whole_preview
whole_preview-redacted pkg req P before after f split ensures kept =
    let input : Text =
      replace_all b'\r' (codes "\\r") (replace_all b'\n' (codes "\\n") (audit_command pkg req)) in
    subst (λ (fs : List (Text → Text)). P (redact_all fs input)) (sym split)
      (subst P (sym (redact_all-append before (f ∷ after) input)) (
        redact_all-Keep P after (f (redact_all before input)) kept
          (ensures (redact_all before input))))

-- Whatever the command, the hint that an audit entry gets is at most 203 bytes long, and has no line
-- feed and no carriage return if no redactor adds one. And whatever one of the redactors ensures of
-- every text, if the redactors after it keep it and so does cutting a text, is true of the hint's
-- first 200 bytes: what a redactor removes is not among them.
pub audit_preview-OneLine :
    (pkg : AuditPackages) (req : RunRequest) (P : Text → Type 0) (before after : List (Text → Text))
    (f : Text → Text)
    → KeepLines pkg.redactors
    → pkg.redactors ≡ before ++ f ∷ after
    → ((s : Text) → P (f s))
    → Keep P after
    → ((n : ℕ) (s : Text) → P s → P (take n s))
    → (length (audit_preview pkg req) ≤ 203)
      × OneLine (audit_preview pkg req)
      × P (take 200 (audit_preview pkg req))
audit_preview-OneLine pkg req P before after f keep split ensures kept cuts =
    let (short, one) = audit_preview-shape pkg req keep in
    let redacted = whole_preview-redacted pkg req P before after f split ensures kept in
    (
      short,
      one,
      subst P (sym (audit_preview-begins pkg req)) (cuts 200 (whole_preview pkg req) redacted),
    )
