-- ===== src/Runner/Deadlines.antt =====
-- The deadlines of the daemon against those of the helper and the client.
use vpsops.Base.{
  ℕ, ◌+◌, ◌*◌, ◌^◌, ◌<◌, ◌≤◌, ◌≡◌, refl, if◌then◌else◌, Option, Text, ℤ, pos, negsuc, pos_part,
  ◌≤ℤ◌, ◌+ℤ◌, ◌*ℤ◌, ltb_ℤ, wrap64, Bool-cases, inl, inr, ltb_ℤ-true, arith, le-ltb_ℤ,
}
use vpsops.Types.{RunRequest, Config}
use vpsops.Limiter.{duration_seconds}
use vpsops.Validation.Request.{Fits}
use vpsops.Child.{default_times}
use vpsops.Runner.{child_spec_from_request, helper_timeout}

-- In range, durations are exact.
pub duration_seconds-pos :
    (n : ℕ) → n * 1_000_000_000 < 2 ^ 63 → duration_seconds (pos n) ≡ pos (n * 1_000_000_000)
unfolding duration_seconds ◌*ℤ◌ wrap64
duration_seconds-pos n h = ground arith

-- The sum of helperContext, in range.
helper_sum :
    (t g : ℕ) → t + g + 15 < 2 ^ 63 → wrap64 (wrap64 (pos t +ℤ pos g) +ℤ pos 15) ≡ pos (t + g + 15)
unfolding wrap64 ◌+ℤ◌
helper_sum t g h = ground arith

-- The longer of a number of seconds and half a minute.
half_minute :
    (k : ℕ)
    → k * 1_000_000_000 < 2 ^ 63
    → (m : ℕ) × (duration_seconds (if ltb_ℤ (pos k) (pos 30) then pos 30 else pos k) ≡ pos m)
      × (k * 1_000_000_000 ≤ m)
half_minute k h = elim (Bool-cases (ltb_ℤ (pos k) (pos 30))) [
  | inl small ↦ (
    30 * 1_000_000_000,
    rw small (duration_seconds-pos 30 (omega arith)),
    omega (arith, ltb_ℤ-true (pos k) (pos 30) small),
  )
  | inr large ↦ (k * 1_000_000_000, rw large (duration_seconds-pos k h), omega arith)
]

pub add_pos : (a b : ℕ) → pos a +ℤ pos b ≡ pos (a + b)
unfolding ◌+ℤ◌
add_pos a b = ground arith

outlasts :
    (t g : ℤ) (req : RunRequest)
    → req.timeout_sec ≡ t
    → req.kill_grace_sec ≡ g
    → pos 1 ≤ℤ t
    → pos 1 ≤ℤ g
    → (pos_part t + pos_part g + 15) * 1_000_000_000 < 2 ^ 63
    → (duration_seconds t +ℤ duration_seconds g) +ℤ pos 15_000_000_000 ≤ℤ helper_timeout req
unfolding helper_timeout
outlasts (negsuc t) g req ht hg t1 g1 h = absurd (omega (arith, t1))
outlasts (pos t) (negsuc g) req ht hg t1 g1 h = absurd (omega (arith, g1))
outlasts (pos t) (pos g) req ht hg t1 g1 h =
    let dt = duration_seconds-pos t (omega (arith, h)) in
    let dg = duration_seconds-pos g (omega (arith, h)) in
    let sum = helper_sum t g (omega (arith, h)) in
    let (m, longer, most) = half_minute (t + g + 15) (omega (arith, h)) in
    let a = add_pos (t * 1_000_000_000) (g * 1_000_000_000) in
    let b = add_pos (t * 1_000_000_000 + g * 1_000_000_000) 15_000_000_000 in
    rw (helper_timeout, ht, hg, sum, longer, dt, dg, a, b) (omega (arith, most))

-- For a request that normalizeRequest has let through under a limit of timeouts whose nanoseconds
-- fit an int64: the helper's own defaults do not change its two times, and the deadline of the
-- daemon for the helper comes at least 15 seconds after the payload's timeout and grace together.
pub helper_timeout-outlasts :
    (links : Text → Option Text) (cfg : Config) (req : RunRequest)
    → Fits links cfg req
    → (pos_part cfg.limits.max_timeout_sec + 45) * 1_000_000_000 < 2 ^ 63
    → let spec = default_times (child_spec_from_request req cfg) in
      (spec.timeout_sec ≡ req.timeout_sec)
      × (spec.kill_grace_sec ≡ req.kill_grace_sec)
      × ((duration_seconds spec.timeout_sec +ℤ duration_seconds spec.kill_grace_sec)
            +ℤ pos 15_000_000_000
          ≤ℤ helper_timeout req)
unfolding default_times child_spec_from_request
helper_timeout-outlasts links cfg req fits h =
    let (t1, t2) = fits.timeout in
    let (g1, g2) = fits.kill_grace in
    let kept_timeout = le-ltb_ℤ req.timeout_sec (pos 1) t1 in
    let kept_grace = le-ltb_ℤ req.kill_grace_sec (pos 1) g1 in
    rw (kept_timeout, kept_grace)
      (
        refl,
        refl,
        outlasts req.timeout_sec req.kill_grace_sec req refl refl t1 g1
            (within req.timeout_sec req.kill_grace_sec cfg.limits.max_timeout_sec t1 t2 g2 h),
      )
  where
    within :
        (t g most : ℤ)
        → pos 1 ≤ℤ t
        → t ≤ℤ most
        → g ≤ℤ pos 30
        → (pos_part most + 45) * 1_000_000_000 < 2 ^ 63
        → (pos_part t + pos_part g + 15) * 1_000_000_000 < 2 ^ 63
    within t g most t1 t2 g2 h = ground (arith, t1, t2, g2, h)
