-- ===== src/Validation/Cwd.antt =====
-- normalizeCwd: a directory that it accepts lies below an allowed one.
use vpsops.Base.{
  ℕ, zero, suc, ◌≡◌, refl, ◌⊎◌, inl, inr, true, Bool-cases, Option, none, some, List, [], ◌∷◌, ◌++◌,
  get_elem?, ◌&&◌, ==_iff, if◌then◌else◌, Text, codes, text_eq, text_eq-true, has_prefix, arith, ap,
  is_empty, not,
}
use vpsops.Types.{ExecutionConfig, privilege_root}
use vpsops.Path.{clean, is_abs}
use vpsops.Validation.{
  accepted, ◌>>=◌, or_missing, path_has_prefix, resolved_prefix, find_prefix, normalize_cwd,
  allow_cwd, default_cwd, cwd_not_absolute,
}
use vpsops.Validation.Inversion.{bind-accepted, reject_if-accepted}

-- `path` is the directory `prefix` or lies below it, path component by path component.
abbrev pub Below : Text → Text → Type 0
Below path prefix =
    (prefix ≡ codes "/") ⊎ ((path ≡ prefix) ⊎ ((rest : Text) × (path ≡ prefix ++ (b'/' ∷ rest))))

has_prefix-rest :
    (path prefix : Text) → has_prefix path prefix ≡ true → (rest : Text) × (path ≡ prefix ++ rest)
unfolding has_prefix
has_prefix-rest path [] h = (path, refl)
has_prefix-rest [] (y ∷ ys) h = ground arith
has_prefix-rest (x ∷ xs) (y ∷ ys) h =
    let both : (x ≡ y) × (has_prefix xs ys ≡ true) = ground (arith, ==_iff x y) in
    let (rest, e) = has_prefix-rest xs ys both.1 in (rest, rw (both.0, e) refl)

++_assoc_one : (s t : Text) (c : ℕ) → (s ++ c ∷ []) ++ t ≡ s ++ (c ∷ t)
++_assoc_one [] t c = refl
++_assoc_one (x ∷ s) t c = ap (λ u. x ∷ u) (++_assoc_one s t c)

pub path_has_prefix-Below :
    (path prefix : Text) → path_has_prefix path prefix ≡ true → Below path prefix
unfolding path_has_prefix
path_has_prefix-Below path prefix h = elim (Bool-cases (text_eq prefix (codes "/"))) [
  | inl root ↦ inl (text_eq-true prefix (codes "/") root)
  | inr other ↦ inr (elim (Bool-cases (text_eq path prefix)) [
    | inl same ↦ inl (text_eq-true path prefix same)
    | inr differs ↦
        let starts : has_prefix path (prefix ++ b'/' ∷ []) ≡ true =
          ground (arith, h, other, differs) in
        let (rest, e) = has_prefix-rest path (prefix ++ b'/' ∷ []) starts in
        inr (rest, rw e (++_assoc_one prefix rest b'/'))
  ])
]

-- What a directory is worth for the list of allowed prefixes.
abbrev pub Allowed : (Text → Option Text) → List Text → Text → Type 0
Allowed links prefixes cwd =
    (i : ℕ) × (prefix : Text) × (get_elem? prefixes i ≡ some prefix)
    × Below cwd (resolved_prefix links prefix)

find_prefix-Allowed :
    (links : Text → Option Text) (cleaned cwd : Text) (prefixes : List Text)
    → find_prefix links cleaned prefixes ≡ accepted cwd
    → (cwd ≡ cleaned) × Allowed links prefixes cwd
unfolding find_prefix
find_prefix-Allowed links cleaned cwd [] h = ground arith
find_prefix-Allowed links cleaned cwd (prefix ∷ prefixes) h =
    elim (Bool-cases (path_has_prefix cleaned (resolved_prefix links prefix))) [
      | inl matches ↦
          let same : cwd ≡ cleaned = ground (arith, h, matches) in
          (
            same,
            (
              zero,
              prefix,
              refl,
              rw same (path_has_prefix-Below cleaned (resolved_prefix links prefix) matches),
            ),
          )
      | inr misses ↦
          let later : find_prefix links cleaned prefixes ≡ accepted cwd =
            ground (arith, h, misses) in
          let (same, (i, p, at, below)) = find_prefix-Allowed links cleaned cwd prefixes later in
          (same, (suc i, p, at, below))
    ]

or_missing-accepted : (o : Option Text) (path : Text) → or_missing o ≡ accepted path → o ≡ some path
or_missing-accepted none path h = ground arith
or_missing-accepted (some p) path h = ground (arith, h)

allow_cwd-Allowed :
    (links : Text → Option Text) (cleaned privilege cwd : Text) (cfg : ExecutionConfig)
    → allow_cwd links cleaned privilege cfg ≡ accepted cwd
    → (cwd ≡ cleaned)
      × (((text_eq privilege privilege_root && cfg.allow_any_cwd_for_root) ≡ true)
          ⊎ Allowed links cfg.allowed_cwd_prefixes_for_user cwd)
unfolding allow_cwd
allow_cwd-Allowed links cleaned privilege cwd cfg h =
    elim (Bool-cases (text_eq privilege privilege_root && cfg.allow_any_cwd_for_root)) [
      | inl anywhere ↦ (ground (arith, h, anywhere), inl anywhere)
      | inr confined ↦
          let found : find_prefix links cleaned cfg.allowed_cwd_prefixes_for_user ≡ accepted cwd =
            ground (arith, h, confined) in
          let (same, allowed) =
            find_prefix-Allowed links cleaned cwd cfg.allowed_cwd_prefixes_for_user found in
          (same, inr allowed)
    ]

-- What normalizeCwd accepts is a path that EvalSymlinks gave, and unless the request is for root
-- with any directory allowed, it is one of the allowed directories, its symbolic links resolved, or
-- lies below one.
pub normalize_cwd-Allowed :
    (links : Text → Option Text) (given privilege cwd : Text) (cfg : ExecutionConfig)
    → normalize_cwd links given privilege cfg ≡ accepted cwd
    → ((path : Text) × (links path ≡ some cwd))
      × (((text_eq privilege privilege_root && cfg.allow_any_cwd_for_root) ≡ true)
          ⊎ Allowed links cfg.allowed_cwd_prefixes_for_user cwd)
unfolding normalize_cwd
normalize_cwd-Allowed links given privilege cwd cfg h =
    let path = if is_empty given then default_cwd privilege else given in
    let (absolute, h1) =
      reject_if-accepted (not (is_abs path)) cwd_not_absolute
        (or_missing (links (clean path)) >>= (λ cleaned. allow_cwd links cleaned privilege cfg)) cwd
        h in
    let (cleaned, resolved, h2) =
      bind-accepted (or_missing (links (clean path)))
        (λ cleaned. allow_cwd links cleaned privilege cfg) cwd h1 in
    let (same, allowed) = allow_cwd-Allowed links cleaned privilege cwd cfg h2 in
    ((clean path, or_missing-accepted (links (clean path)) cwd (rw same resolved)), allowed)
