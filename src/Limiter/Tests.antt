-- ===== src/Limiter/Tests.antt =====
-- Two peers, one of which fails three times in a minute.
use vpsops.Base.{
  ◌*◌, ◌≡◌, refl, true, false, some, List, [], ◌∷◌, ◌++◌, Text, pos, ◌-ℤ◌, ltb, ltb_ℤ, codes,
  text_eq, arith,
}
use vpsops.Limiter.{
  SecurityConfig, Limiter, new_limiter, record_failure_and_exceeded, Event, failed, succeeded, run,
}
use vpsops.Limiter.Window.{count_after}
use vpsops.Limiter.History.{history, exceeded-history}
use vpsops.Limiter.Overflow.{exceeded-wrapped}

abbrev busy : Text
busy = codes "10.0.0.7"

abbrev quiet : Text
quiet = codes "10.0.0.8"

-- Seconds 1, 2, 3 and 4, in nanoseconds.
abbrev calls : List Event
calls =
    failed busy (pos 1_000_000_000)
    ∷ failed quiet (pos 2_000_000_000)
    ∷ failed busy (pos 3_000_000_000)
    ∷ succeeded quiet
    ∷ []

abbrev two_in_a_minute : SecurityConfig
two_in_a_minute = record { auth_failure_limit = pos 2; auth_failure_window_sec = pos 60 }

exceeded-history_example :
    (l l' : Limiter) × (run (new_limiter two_in_a_minute) calls ≡ some (some l))
    × (record_failure_and_exceeded (some l) busy (pos 4_000_000_000)
        ≡ some (
          some l',
          ltb 2 (
              count_after
                (pos 4_000_000_000 -ℤ pos (60 * 1_000_000_000))
                (history busy [] calls ++ pos 4_000_000_000 ∷ [])),
        ))
exceeded-history_example =
    exceeded-history 2 60 busy (pos 0) (pos 4_000_000_000) calls (omega arith) (omega arith)
      (omega arith) (omega arith) (omega arith)

-- The third failure of the busy peer in the window is one too many.
third_exceeds :
    ltb 2 (
      count_after
        (pos 4_000_000_000 -ℤ pos (60 * 1_000_000_000))
        (history busy [] calls ++ pos 4_000_000_000 ∷ []))
    ≡ true
unfolding text_eq ltb_ℤ ◌-ℤ◌
third_exceeds = refl

exceeded-wrapped_example :
    (l l' : Limiter) × (run
        (new_limiter
          (record { auth_failure_limit = pos 2; auth_failure_window_sec = pos 10_000_000_000 }))
        calls
      ≡ some (some l))
    × (record_failure_and_exceeded (some l) busy (pos 4_000_000_000) ≡ some (some l', false))
exceeded-wrapped_example =
    exceeded-wrapped 2 10_000_000_000 busy (pos 0) (pos 4_000_000_000) calls (omega arith)
      (omega arith) (omega arith) (omega arith) (omega arith)
