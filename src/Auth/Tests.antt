-- ===== src/Auth/Tests.antt =====
-- A daemon with one token, under a hash that turns a text around.
use vpsops.Base.{
  ℕ, ◌≡◌, refl, true, some, [], ◌∷◌, ◌++◌, reverse, codes, text_eq, has_prefix, strip_prefix,
  trim_space, to_lower, get_elem?,
}
use vpsops.Types.{TokenConfig, Config, AuthInfo}
use vpsops.Validation.Tests.{config}
use vpsops.Auth.{identified, bearer, find_token, authenticate}
use vpsops.Auth.Tokens.{presented, authenticate-listed, authenticate-configured}

abbrev ops : TokenConfig
ops = record { id = codes "ops"; sha256 = codes "CBA"; allow_root = true }

abbrev pub with_token : Config
with_token = record config { tokens = ops ∷ [] }

abbrev admin : AuthInfo
admin = record { token_id = codes "ops"; allow_root = true }

authenticate-listed_example :
    (has_prefix (codes "Bearer  abc") bearer ≡ true)
    × ((i : ℕ) × (t : TokenConfig) × (get_elem? with_token.tokens i ≡ some t)
        × (to_lower t.sha256 ≡ presented reverse (codes "Bearer  abc"))
        × (admin ≡ record { token_id = t.id; allow_root = t.allow_root }))
unfolding authenticate find_token has_prefix strip_prefix trim_space to_lower text_eq
authenticate-listed_example =
    authenticate-listed reverse (codes "Bearer  abc") with_token admin refl

authenticate-configured_example :
    (who : AuthInfo) × (authenticate reverse (bearer ++ codes " abc") with_token ≡ identified who)
unfolding trim_space to_lower
authenticate-configured_example =
    authenticate-configured reverse (codes " abc") with_token 0 ops refl refl
