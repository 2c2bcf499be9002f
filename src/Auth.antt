-- ===== src/Auth.antt =====
-- internal/execd/auth.go: which token a request carries. SHA-256 in lower-case hex is a parameter,
-- and so is the Authorization header; ConstantTimeCompare is equality of bytes.
pub mod Tokens
pub mod Tests
use vpsops.Base.{
  Bool, Option, none, some, List, [], ◌∷◌, if◌then◌else◌, Text, codes, text_eq, has_prefix,
  strip_prefix, trim_space, to_lower,
}
use vpsops.Types.{TokenConfig, Config, AuthInfo}

pub data AuthError : Type 0 where
  missing_bearer_token invalid_bearer_token : AuthError

pub data Authenticated : Type 0 where
  identified : AuthInfo → Authenticated
  refused : AuthError → Authenticated

abbrev pub bearer : Text
bearer = codes "Bearer "

-- The loop of authenticate.
unfoldable pub find_token : Text → List TokenConfig → Authenticated
find_token got [] = refused invalid_bearer_token
find_token got (t ∷ ts) =
    let rest = find_token got ts in
    if text_eq got (to_lower t.sha256)
    then identified (record { token_id = t.id; allow_root = t.allow_root })
    else rest

-- authenticate
unfoldable pub authenticate : (Text → Text) → Text → Config → Authenticated
unfolding find_token
authenticate sha256_hex header cfg =
    if has_prefix header bearer
    then find_token (sha256_hex (trim_space (strip_prefix header bearer))) cfg.tokens
    else refused missing_bearer_token
