-- ===== src/Server/Timeouts.antt =====
-- How long handleRun may wait for a job, and when the server gives up writing its reply.
use vpsops.Base.{
  ℕ, ◌+◌, ◌*◌, ◌^◌, ◌<◌, ◌≤◌, ◌≡◌, refl, Option, Text, ℤ, pos, negsuc, pos_part, ◌≤ℤ◌, ◌+ℤ◌, ltb_ℤ,
  wrap64, arith, Bool-cases, inl, inr, ltb_ℤ-false,
}
use vpsops.Types.{RunRequest, Config}
use vpsops.Limiter.{duration_seconds}
use vpsops.Validation.Request.{Fits}
use vpsops.Server.{write_timeout}
use vpsops.Runner.Deadlines.{duration_seconds-pos, add_pos}

add_five : (n : ℕ) → n + 5 < 2 ^ 63 → wrap64 (pos n +ℤ pos 5) ≡ pos (n + 5)
unfolding wrap64 ◌+ℤ◌
add_five n h = ground arith

-- The longer of a minute and the longest wait with five seconds more.
write_timeout-longest :
    (cfg : Config) (n : ℕ)
    → cfg.limits.max_wait_sec ≡ pos n
    → (n + 5) * 1_000_000_000 < 2 ^ 63
    → (m : ℕ) × (write_timeout cfg ≡ pos m) × ((n + 5) * 1_000_000_000 ≤ m)
unfolding write_timeout
write_timeout-longest cfg n e h =
    let five = add_five n (omega (arith, h)) in
    elim (Bool-cases (ltb_ℤ (pos 60) (pos (n + 5)))) [
      | inl long ↦ (
        (n + 5) * 1_000_000_000,
        rw (e, five, long) (duration_seconds-pos (n + 5) h),
        omega arith,
      )
      | inr short ↦ (
        60 * 1_000_000_000,
        rw (e, five, short) (duration_seconds-pos 60 (omega arith)),
        omega (arith, ltb_ℤ-false (pos 60) (pos (n + 5)) short),
      )
    ]

waits :
    (w most : ℤ) (cfg : Config)
    → cfg.limits.max_wait_sec ≡ most
    → pos 0 ≤ℤ w
    → w ≤ℤ most
    → (pos_part most + 5) * 1_000_000_000 < 2 ^ 63
    → duration_seconds w +ℤ pos 5_000_000_000 ≤ℤ write_timeout cfg
waits (negsuc w) most cfg e low high h = absurd (omega (arith, low))
waits (pos w) (negsuc n) cfg e low high h = absurd (omega (arith, high))
waits (pos w) (pos n) cfg e low high h =
    let (m, longest, most) = write_timeout-longest cfg n e h in
    let wait = duration_seconds-pos w (omega (arith, high, h)) in
    rw (longest, wait, add_pos (w * 1_000_000_000) 5_000_000_000) (omega (arith, most, high))

-- For a request that normalizeRequest has let through under a limit of waits whose nanoseconds fit
-- an int64, the wait of handleRun is over at least five seconds before the server's WriteTimeout.
pub write_timeout-outlasts :
    (links : Text → Option Text) (cfg : Config) (req : RunRequest)
    → Fits links cfg req
    → (pos_part cfg.limits.max_wait_sec + 5) * 1_000_000_000 < 2 ^ 63
    → duration_seconds req.wait_sec +ℤ pos 5_000_000_000 ≤ℤ write_timeout cfg
write_timeout-outlasts links cfg req fits h =
    waits req.wait_sec cfg.limits.max_wait_sec cfg refl fits.wait.0 fits.wait.1 h
