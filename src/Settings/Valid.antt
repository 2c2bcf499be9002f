-- ===== src/Settings/Valid.antt =====
-- What Validate promises of a configuration that it accepts.
use vpsops.Base.{
  ℕ, zero, suc, ◌<◌, ◌≡◌, ◌≢◌, refl, subst, inl, inr, ◌⊎◌, Bool, true, false, some, List, [], ◌∷◌,
  length, is_empty, ◌&&◌, ◌||◌, ==_iff, ◌==◌, ltb, Bool-cases, Text, text_eq, text_eq_refl,
  contains, get_elem?, ℤ, pos, ◌≤ℤ◌, ◌<ℤ◌, ltb_ℤ, ltb_ℤ-false, negsuc, is_zero, arith,
}
use vpsops.Types.{TokenConfig, LimitsConfig, Config}
use vpsops.Limiter.{SecurityConfig}
use vpsops.Settings.{
  Verdict, valid, invalid, ◌andthen◌, fail_if, is_token_id, validate_token, validate_tokens,
  validate_limits, validate_paths, validate, listen_required, token_required, ConfigError,
  concurrency_too_small, timeout_limits, wait_limits, auth_failure_negative,
}

andthen-valid : (v w : Verdict) → (v andthen w) ≡ valid → (v ≡ valid) × (w ≡ valid)
andthen-valid valid w h = (refl, h)
andthen-valid (invalid e) w h = ground arith

-- What an accepted token is like, given the ids before it.
abbrev TokenFits : (Text → Bool) → List Text → TokenConfig → Type 0
TokenFits is_hex seen t =
    (is_token_id t.id ≡ true)
    × (contains seen t.id ≡ false)
    × (length t.sha256 ≡ 64)
    × (is_hex t.sha256 ≡ true)

validate_token-Fits :
    (is_hex : Text → Bool) (seen : List Text) (t : TokenConfig)
    → validate_token is_hex seen t ≡ valid
    → TokenFits is_hex seen t
unfolding validate_token
validate_token-Fits is_hex seen t h = ground (arith, h, ==_iff (length t.sha256) 64)

contains-more :
    (seen : List Text) (s t : Text) → contains (s ∷ seen) t ≡ false → contains seen t ≡ false
unfolding contains
contains-more seen s t h = ground arith

-- Every token of an accepted list fits and is none of those seen.
validate_tokens-Fits :
    (is_hex : Text → Bool) (seen : List Text) (ts : List TokenConfig) (i : ℕ) (t : TokenConfig)
    → validate_tokens is_hex seen ts ≡ valid
    → get_elem? ts i ≡ some t
    → TokenFits is_hex seen t
unfolding validate_tokens
validate_tokens-Fits is_hex seen [] i t h at = ground arith
validate_tokens-Fits is_hex seen (u ∷ ts) zero t h at =
    let u_t : u ≡ t = cc in
    subst (TokenFits is_hex seen) u_t (
      validate_token-Fits is_hex seen u
        (andthen-valid (validate_token is_hex seen u) (validate_tokens is_hex (u.id ∷ seen) ts)
          h).0)
validate_tokens-Fits is_hex seen (u ∷ ts) (suc i) t h at =
    let (named, fresh, sized, hex) =
      validate_tokens-Fits is_hex (u.id ∷ seen) ts i t
        (andthen-valid (validate_token is_hex seen u) (validate_tokens is_hex (u.id ∷ seen) ts) h).1
        at in
    (named, contains-more seen u.id t.id fresh, sized, hex)

validate_tokens-distinct :
    (is_hex : Text → Bool) (seen : List Text) (ts : List TokenConfig) (i k : ℕ) (t u : TokenConfig)
    → validate_tokens is_hex seen ts ≡ valid
    → get_elem? ts i ≡ some t
    → get_elem? ts k ≡ some u
    → i < k
    → text_eq t.id u.id ≡ false
unfolding validate_tokens contains
validate_tokens-distinct is_hex seen [] i k t u h at au lt = ground arith
validate_tokens-distinct is_hex seen (v ∷ ts) i zero t u h at au lt = ground arith
validate_tokens-distinct is_hex seen (v ∷ ts) zero (suc k) t u h at au lt =
    let rest =
      (andthen-valid (validate_token is_hex seen v) (validate_tokens is_hex (v.id ∷ seen) ts)
        h).1 in
    let (named, fresh, sized, hex) = validate_tokens-Fits is_hex (v.id ∷ seen) ts k u rest au in
    let v_t : v ≡ t = cc in
    subst (λ (x : TokenConfig). text_eq x.id u.id ≡ false) v_t (ground arith)
validate_tokens-distinct is_hex seen (v ∷ ts) (suc i) (suc k) t u h at au lt =
    validate_tokens-distinct is_hex (v.id ∷ seen) ts i k t u
      (andthen-valid (validate_token is_hex seen v) (validate_tokens is_hex (v.id ∷ seen) ts) h).1
      at au (omega (arith, lt))

or_three : (a b c : Bool) → (a || b || c) ≡ false → (a ≡ false) × (b ≡ false) × (c ≡ false)
or_three a b c h = ground arith

fail_if-andthen :
    (bad : Bool) (e : ConfigError) (w : Verdict)
    → (fail_if bad e andthen w) ≡ valid
    → (bad ≡ false) × (w ≡ valid)
fail_if-andthen bad e w h = ground (arith, h)

-- The tests of validate_limits, none of which failed.
validate_limits-tests :
    (l : LimitsConfig) (s : SecurityConfig)
    → validate_limits l s ≡ valid
    → (ltb_ℤ l.concurrency (pos 1) ≡ false)
      × ((ltb_ℤ l.max_timeout_sec (pos 1)
            || ltb_ℤ l.default_timeout_sec (pos 1)
            || ltb_ℤ l.max_timeout_sec l.default_timeout_sec)
          ≡ false)
      × ((ltb_ℤ l.max_wait_sec (pos 0)
            || ltb_ℤ l.default_wait_sec (pos 0)
            || ltb_ℤ l.max_wait_sec l.default_wait_sec)
          ≡ false)
      × ((ltb_ℤ s.auth_failure_limit (pos 0) || ltb_ℤ s.auth_failure_window_sec (pos 0)) ≡ false)
      × ((ltb_ℤ (pos 0) s.auth_failure_limit && is_zero s.auth_failure_window_sec) ≡ false)
unfolding validate_limits
validate_limits-tests l s h =
    let (slots, h1) = fail_if-andthen (ltb_ℤ l.concurrency (pos 1)) concurrency_too_small _ h in
    let (times, h2) = fail_if-andthen _ timeout_limits _ h1 in
    let (waits, h3) = fail_if-andthen _ wait_limits _ h2 in
    let (signs, h4) = fail_if-andthen _ auth_failure_negative _ h3 in
    (slots, times, waits, signs, ground (arith, h4))

window_set :
    (limit window : ℤ)
    → (ltb_ℤ limit (pos 0) || ltb_ℤ window (pos 0)) ≡ false
    → (ltb_ℤ (pos 0) limit && is_zero window) ≡ false
    → (limit ≡ pos 0) ⊎ (pos 0 <ℤ window)
unfolding ltb_ℤ is_zero
window_set (pos zero) window h g = inl refl
window_set (pos (suc n)) (pos zero) h g = ground arith
window_set (pos (suc n)) (pos (suc m)) h g = inr (omega arith)
window_set (pos (suc n)) (negsuc m) h g = ground arith
window_set (negsuc n) window h g = ground arith

validate_limits-Fits :
    (l : LimitsConfig) (s : SecurityConfig)
    → validate_limits l s ≡ valid
    → (pos 1 ≤ℤ l.concurrency)
      × (pos 1 ≤ℤ l.default_timeout_sec)
      × (l.default_timeout_sec ≤ℤ l.max_timeout_sec)
      × (pos 0 ≤ℤ l.default_wait_sec)
      × (l.default_wait_sec ≤ℤ l.max_wait_sec)
      × ((s.auth_failure_limit ≡ pos 0) ⊎ (pos 0 <ℤ s.auth_failure_window_sec))
validate_limits-Fits l s h =
    let (slots, times, waits, signs, window) = validate_limits-tests l s h in
    let (t1, t2, t3) = or_three _ _ _ times in
    let (w1, w2, w3) = or_three _ _ _ waits in
    (
      ltb_ℤ-false l.concurrency (pos 1) slots,
      ltb_ℤ-false l.default_timeout_sec (pos 1) t2,
      ltb_ℤ-false l.max_timeout_sec l.default_timeout_sec t3,
      ltb_ℤ-false l.default_wait_sec (pos 0) w2,
      ltb_ℤ-false l.max_wait_sec l.default_wait_sec w3,
      window_set s.auth_failure_limit s.auth_failure_window_sec signs window,
    )

-- The parts of Validate, each of which accepts.
validate-parts :
    (is_hex : Text → Bool) (c : Config)
    → validate is_hex c ≡ valid
    → (validate_tokens is_hex [] c.tokens ≡ valid)
      × (validate_limits c.limits c.security ≡ valid)
      × (validate_paths c.execution c.storage c.helpers ≡ valid)
unfolding validate
validate-parts is_hex c h =
    let limits = validate_limits c.limits c.security in
    let paths = validate_paths c.execution c.storage c.helpers in
    let after_tokens = limits andthen paths in
    let tokens = validate_tokens is_hex [] c.tokens in
    let after_listen =
      fail_if (is_empty c.tokens) token_required andthen tokens andthen after_tokens in
    let (l1, h1) = andthen-valid (fail_if (is_empty c.listen) listen_required) after_listen h in
    let (l2, h2) =
      andthen-valid (fail_if (is_empty c.tokens) token_required) (tokens andthen after_tokens) h1 in
    let (l3, h3) = andthen-valid tokens after_tokens h2 in
    let (l4, h4) = andthen-valid limits paths h3 in (l3, l4, h4)

-- In a configuration that Validate accepts, every token has an id that the pattern admits and a hash
-- of 64 hex digits, and the tokens at two different places have different ids.
pub validate-tokens :
    (is_hex : Text → Bool) (c : Config) (i k : ℕ) (t u : TokenConfig)
    → validate is_hex c ≡ valid
    → get_elem? c.tokens i ≡ some t
    → get_elem? c.tokens k ≡ some u
    → (is_token_id t.id ≡ true)
      × (length t.sha256 ≡ 64)
      × (is_hex t.sha256 ≡ true)
      × ((i ≡ k) ⊎ (t.id ≢ u.id))
validate-tokens is_hex c i k t u h at au =
    let (tokens, limits, paths) = validate-parts is_hex c h in
    let (named, fresh, sized, hex) = validate_tokens-Fits is_hex [] c.tokens i t tokens at in
    let rest : (i ≡ k) ⊎ (t.id ≢ u.id) = elim (Bool-cases (i == k)) [
      | inl same ↦ inl ((==_iff i k).0 same)
      | inr other ↦ elim (Bool-cases (ltb i k)) [
        | inl lt ↦ inr (λ e.
            differ
              (validate_tokens-distinct is_hex [] c.tokens i k t u tokens at au
                (ground (arith, lt)))
              (rw e (text_eq_refl u.id)))
        | inr ge ↦ inr (λ e.
            differ
              (validate_tokens-distinct is_hex [] c.tokens k i u t tokens au at
                (ground (arith, ge, other, ==_iff i k)))
              (rw e (text_eq_refl u.id)))
      ]
    ] in
    (named, sized, hex, rest)
  where
    differ : {b : Bool} → b ≡ false → b ≡ true → ⊥
    differ e f = cc

-- In a configuration that Validate accepts, at least one job can run, the default timeout and wait
-- are within their limits, and a limit of failed authentications comes with a window.
pub validate-limits :
    (is_hex : Text → Bool) (c : Config)
    → validate is_hex c ≡ valid
    → (pos 1 ≤ℤ c.limits.concurrency)
      × (pos 1 ≤ℤ c.limits.default_timeout_sec)
      × (c.limits.default_timeout_sec ≤ℤ c.limits.max_timeout_sec)
      × (pos 0 ≤ℤ c.limits.default_wait_sec)
      × (c.limits.default_wait_sec ≤ℤ c.limits.max_wait_sec)
      × ((c.security.auth_failure_limit ≡ pos 0) ⊎ (pos 0 <ℤ c.security.auth_failure_window_sec))
validate-limits is_hex c h =
    let (tokens, limits, paths) = validate-parts is_hex c h in
    validate_limits-Fits c.limits c.security limits
