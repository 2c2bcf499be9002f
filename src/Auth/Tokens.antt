-- ===== src/Auth/Tokens.antt =====
-- Who authenticate takes a request to be from.
use vpsops.Base.{
  ℕ, zero, suc, ◌≡◌, refl, sym, inl, inr, true, Bool-cases, some, List, [], ◌∷◌, ◌++◌, get_elem?,
  Text, text_eq, text_eq-true, text_eq_refl, has_prefix, strip_prefix, trim_space, to_lower, arith,
}
use vpsops.Types.{TokenConfig, Config, AuthInfo}
use vpsops.Auth.{identified, bearer, find_token, authenticate}

-- The hash of the token in the header.
abbrev pub presented : (Text → Text) → Text → Text
presented sha256_hex header = sha256_hex (trim_space (strip_prefix header bearer))

find_token-listed :
    (got : Text) (ts : List TokenConfig) (who : AuthInfo)
    → find_token got ts ≡ identified who
    → (i : ℕ) × (t : TokenConfig) × (get_elem? ts i ≡ some t)
      × (to_lower t.sha256 ≡ got)
      × (who ≡ record { token_id = t.id; allow_root = t.allow_root })
unfolding find_token
find_token-listed got [] who h = ground arith
find_token-listed got (t ∷ ts) who h = elim (Bool-cases (text_eq got (to_lower t.sha256))) [
  | inl same ↦
      (zero, t, refl, sym (text_eq-true got (to_lower t.sha256) same), ground (arith, h, same))
  | inr other ↦
      let later : find_token got ts ≡ identified who = ground (arith, h, other) in
      let (i, u, at, hash, is) = find_token-listed got ts who later in (suc i, u, at, hash, is)
]

-- A request is identified only by a configured token: its header is a bearer token, whose SHA-256 is
-- that of the token in the configuration, and it gets that token's id and right to root.
pub authenticate-listed :
    (sha256_hex : Text → Text) (header : Text) (cfg : Config) (who : AuthInfo)
    → authenticate sha256_hex header cfg ≡ identified who
    → (has_prefix header bearer ≡ true)
      × ((i : ℕ) × (t : TokenConfig) × (get_elem? cfg.tokens i ≡ some t)
          × (to_lower t.sha256 ≡ presented sha256_hex header)
          × (who ≡ record { token_id = t.id; allow_root = t.allow_root }))
unfolding authenticate
authenticate-listed sha256_hex header cfg who h = elim (Bool-cases (has_prefix header bearer)) [
  | inl given ↦ (
    given,
    find_token-listed (presented sha256_hex header) cfg.tokens who (ground (arith, h, given)),
  )
  | inr missing ↦ ground (arith, h, missing)
]

find_token-found :
    (ts : List TokenConfig) (i : ℕ) (t : TokenConfig)
    → get_elem? ts i ≡ some t
    → (who : AuthInfo) × (find_token (to_lower t.sha256) ts ≡ identified who)
unfolding find_token
find_token-found [] i t h = ground arith
find_token-found (u ∷ ts) zero t h = (
  record { token_id = u.id; allow_root = u.allow_root },
  ground (arith, h, text_eq_refl (to_lower t.sha256)),
)
find_token-found (u ∷ ts) (suc i) t h =
    let (who, found) = find_token-found ts i t h in
    elim (Bool-cases (text_eq (to_lower t.sha256) (to_lower u.sha256))) [
      | inl same ↦ (record { token_id = u.id; allow_root = u.allow_root }, ground (arith, same))
      | inr other ↦ (who, ground (arith, other, found))
    ]

-- A request with a configured token is identified: whatever else is configured, a bearer token
-- whose SHA-256 is that of a token of the configuration is accepted.
pub authenticate-configured :
    (sha256_hex : Text → Text) (token : Text) (cfg : Config) (i : ℕ) (t : TokenConfig)
    → get_elem? cfg.tokens i ≡ some t
    → sha256_hex (trim_space token) ≡ to_lower t.sha256
    → (who : AuthInfo) × (authenticate sha256_hex (bearer ++ token) cfg ≡ identified who)
unfolding authenticate has_prefix strip_prefix
authenticate-configured sha256_hex token cfg i t listed hash =
    let (who, found) = find_token-found cfg.tokens i t listed in (who, rw hash found)
