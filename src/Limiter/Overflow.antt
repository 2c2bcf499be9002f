-- ===== src/Limiter/Overflow.antt =====
-- What the limiter does when the configured window does not fit a time.Duration.
use vpsops.Base.{
  ℕ, ◌+◌, ◌-◌, ◌*◌, ◌^◌, ◌≤◌, ◌<◌, ◌≡◌, refl, ap, ◌∙◌, false, some, List, [], ◌∷◌, length,
  length-drop, Text, ℤ, pos, negsuc, ◌-ℤ◌, ◌*ℤ◌, ◌<ℤ◌, ltb, leb_ℤ, wrap64, le-ltb_ℤ, int_laws,
  arith,
}
use vpsops.Limiter.{
  SecurityConfig, Limiter, new_limiter, duration_seconds, failures_of, after_cutoff,
  record_failure_and_exceeded, Event, run,
}
use vpsops.Limiter.Window.{UpTo, next_failures, next_limiter, record_failure_lem}
use vpsops.Limiter.History.{Monotone, fresh, fresh-Tracks, run-Tracks}

-- 2^64 less than the exact product, as a negative number.
abbrev wrapped : ℕ → ℤ
wrapped ns = negsuc (2 ^ 64 - ns - 1)

new_limiter_wraps :
    (n s : ℕ)
    → 0 < n
    → 2 ^ 63 ≤ s * 1_000_000_000
    → s * 1_000_000_000 < 2 ^ 64
    → new_limiter (record { auth_failure_limit = pos n; auth_failure_window_sec = pos s })
      ≡ some (fresh n (wrapped (s * 1_000_000_000)))
unfolding new_limiter duration_seconds leb_ℤ
new_limiter_wraps n s hn lo hi =
    let e : pos s *ℤ pos 1_000_000_000 ≡ pos (s * 1_000_000_000) = unfold ◌*ℤ◌ in ground arith in
    let w : wrap64 (pos (s * 1_000_000_000)) ≡ wrapped (s * 1_000_000_000) =
      unfold wrap64 in ground arith in
    ground (arith, e, w)

after_cutoff_future : (c now : ℤ) (xs : List ℤ) → now <ℤ c → UpTo now xs → after_cutoff c xs ≡ []
after_cutoff_future c now [] h u = refl
after_cutoff_future c now (x ∷ xs) h u =
    rw (le-ltb_ℤ c x (omega arith)) (after_cutoff_future c now xs h u.2)

-- Config.Validate accepts any positive window. One of 2^63 to 2^64 nanoseconds wraps to a negative
-- duration, and then no failed authentication is ever reported as exceeding a limit of n > 0,
-- whatever the peer did before.
pub exceeded-wrapped :
    (n s : ℕ) (key : Text) (start now : ℤ) (es : List Event)
    → 0 < n
    → n + 2 < 2 ^ 63
    → 2 ^ 63 ≤ s * 1_000_000_000
    → s * 1_000_000_000 < 2 ^ 64
    → Monotone start es now
    → let cfg : SecurityConfig = record {
      auth_failure_limit = pos n;
      auth_failure_window_sec = pos s;
    } in
      (l l' : Limiter) × (run (new_limiter cfg) es ≡ some (some l))
      × (record_failure_and_exceeded (some l) key now ≡ some (some l', false))
exceeded-wrapped n s key start now es hn h lo hi m =
    let window = wrapped (s * 1_000_000_000) in
    let (l, e, t) =
      run-Tracks n window key start now [] (fresh n window) es h m
        (fresh-Tracks n window key start) in
    let fs = failures_of key l.items in
    let gone : after_cutoff (now -ℤ window) fs ≡ [] =
      after_cutoff_future (now -ℤ window) now fs (omega int_laws) t.stands.ordered in
    let short : ltb n (length (next_failures n window now fs)) ≡ false =
      rw gone (ground (arith, length-drop {0} (1 - (n + 1)) (now ∷ []))) in
    (
      l,
      next_limiter n key now l,
      ap (λ o. run o es) (new_limiter_wraps n s hn lo hi) ∙ e,
      record_failure_lem n l key now t.limited h (t.bounded key)
          ∙ ap (λ b. some (some (next_limiter n key now l), b)) (rw t.windowed short),
    )
