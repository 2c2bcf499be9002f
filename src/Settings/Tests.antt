-- ===== src/Settings/Tests.antt =====
-- The default configuration with two tokens.
use vpsops.Base.{
  ℕ, ◌≡◌, ◌≢◌, refl, ◌⊎◌, Bool, true, false, [], ◌∷◌, length, ◌&&◌, ◌||◌, leb, Text, codes, text_eq,
  contains, pos, ◌≤ℤ◌, ◌<ℤ◌, ltb_ℤ, is_zero,
}
use vpsops.Types.{TokenConfig, Config}
use vpsops.Store.{all_of}
use vpsops.Settings.{
  invalid, token_required, is_token_id, validate_token, validate_tokens, validate_limits,
  validate_paths, validate, default_config,
}
use vpsops.Settings.Valid.{validate-tokens, validate-limits}

abbrev pub is_hex : Text → Bool
is_hex = all_of (λ c. (leb b'0' c && leb c b'9') || (leb b'a' c && leb c b'f'))

abbrev hash : Text
hash = codes "ba7816bf8f01cfea414140de5dae2223b00361a396177a9cb410ff61f20015ad"

abbrev ops : TokenConfig
ops = record { id = codes "ops"; sha256 = hash; allow_root = true }

abbrev ci : TokenConfig
ci = record { id = codes "ci"; sha256 = hash; allow_root = false }

abbrev pub two_tokens : Config
two_tokens = record default_config { tokens = ops ∷ ci ∷ [] }

without_tokens : validate is_hex default_config ≡ invalid token_required
unfolding validate default_config
without_tokens = refl

validate-tokens_example :
    (is_token_id ci.id ≡ true)
    × (length ci.sha256 ≡ 64)
    × (is_hex ci.sha256 ≡ true)
    × ((◌≡◌ {A = ℕ} 1 0) ⊎ (ci.id ≢ ops.id))
unfolding validate validate_tokens validate_token validate_limits validate_paths default_config
    is_token_id contains text_eq ltb_ℤ is_zero
validate-tokens_example = validate-tokens is_hex two_tokens 1 0 ci ops refl refl refl

validate-limits_example :
    (pos 1 ≤ℤ two_tokens.limits.concurrency)
    × (pos 1 ≤ℤ two_tokens.limits.default_timeout_sec)
    × (two_tokens.limits.default_timeout_sec ≤ℤ two_tokens.limits.max_timeout_sec)
    × (pos 0 ≤ℤ two_tokens.limits.default_wait_sec)
    × (two_tokens.limits.default_wait_sec ≤ℤ two_tokens.limits.max_wait_sec)
    × ((two_tokens.security.auth_failure_limit ≡ pos 0)
        ⊎ (pos 0 <ℤ two_tokens.security.auth_failure_window_sec))
unfolding validate validate_tokens validate_token validate_limits validate_paths default_config
    is_token_id contains text_eq ltb_ℤ is_zero
validate-limits_example = validate-limits is_hex two_tokens refl
