-- ===== src/Server/Throttle.antt =====
-- The throttling of failed authentications as the clients see it.
use vpsops.Base.{
  ℕ, ◌*◌, ◌+◌, ◌^◌, ◌<◌, ◌≡◌, refl, ap, ◌∙◌, inl, inr, Option, none, some, Option-cases, List, [],
  ◌∷◌, ◌++◌, map, has_prefix, if◌then◌else◌, ℤ, pos, ◌-ℤ◌, ltb, arith,
}
use vpsops.Types.{Config}
use vpsops.Limiter.{
  Limiter, new_limiter, record_failure_and_exceeded, Event, failed, succeeded, step, run,
}
use vpsops.Limiter.Window.{count_after}
use vpsops.Limiter.History.{history, Monotone, exceeded-history}
use vpsops.Auth.{AuthError, identified, refused, authenticate}
use vpsops.Http.{Request, Packages, peer_address, write_error}
use vpsops.Server.{stopped, rate_limited, unauthorized, authenticate_request}
use vpsops.Server.Access.{Authenticated-cases}

module _ (net : Packages) (cfg : Config) where
  -- What a request at a time tells the limiter.
  abbrev pub event_of : Request × ℤ → Event
  event_of (r, now) = elim (authenticate net.sha256_hex r.authorization cfg) [
    | identified who ↦ succeeded (peer_address net r)
    | refused e ↦ failed (peer_address net r) now
  ]

  -- The authentication of requests, one after the other.
  unfoldable pub serve_all : Option Limiter → List (Request × ℤ) → Option (Option Limiter)
  serve_all limiter [] = some limiter
  serve_all limiter ((r, now) ∷ rs) = elim (authenticate_request net cfg limiter r now) [
    | none ↦ none
    | some (limiter', gate) ↦ serve_all limiter' rs
  ]

  authenticate_request-step :
      (limiter : Option Limiter) (r : Request) (now : ℤ) (rs : List (Request × ℤ))
      → serve_all limiter ((r, now) ∷ rs)
        ≡ elim (step limiter (event_of (r, now))) [ none ↦ none | some l ↦ serve_all l rs ]
  unfolding serve_all authenticate_request step
  authenticate_request-step limiter r now rs =
      elim (Authenticated-cases (authenticate net.sha256_hex r.authorization cfg)) [
        | inl (who, known) ↦ ground (arith, known)
        | inr (e, unknown) ↦
            elim (Option-cases (record_failure_and_exceeded limiter (peer_address net r) now)) [
              | inl panic ↦ ground (arith, unknown, panic)
              | inr ((l, exceeded), kept) ↦ ground (arith, unknown, kept)
            ]
      ]

  serve_all-run :
      (limiter : Option Limiter) (rs : List (Request × ℤ))
      → serve_all limiter rs ≡ run limiter (map event_of rs)
  unfolding serve_all run
  serve_all-run limiter [] = refl
  serve_all-run limiter ((r, now) ∷ rs) =
      authenticate_request-step limiter r now rs
      ∙ later (step limiter (event_of (r, now))) (λ l. serve_all-run l rs)
    where
      later :
          (o : Option (Option Limiter))
          → ((l : Option Limiter) → serve_all l rs ≡ run l (map event_of rs))
          → (elim o [ none ↦ none | some l ↦ serve_all l rs ])
            ≡ (elim o [ none ↦ none | some l ↦ run l (map event_of rs) ])
      later none ih = refl
      later (some l) ih = ih l

-- A server that is configured to bear `n` > 0 failures in `s` seconds, the window being an int64
-- number of nanoseconds: after any requests under a clock that does not go back nothing has
-- panicked, and the next request without a valid token gets status 429 exactly when more than `n`
-- such requests of its peer lie in the window that ends now, this one included, counted since the
-- peer's last request with a valid token, and status 401 otherwise.
pub authenticate_request-throttled :
    (net : Packages) (cfg : Config) (n s : ℕ) (start now : ℤ) (rs : List (Request × ℤ))
    (r : Request) (e : AuthError)
    → cfg.security ≡ record { auth_failure_limit = pos n; auth_failure_window_sec = pos s }
    → 0 < n
    → n + 2 < 2 ^ 63
    → 0 < s
    → s * 1_000_000_000 < 2 ^ 63
    → Monotone start (map (event_of net cfg) rs) now
    → authenticate net.sha256_hex r.authorization cfg ≡ refused e
    → let peer = peer_address net r in
      let failures = history peer [] (map (event_of net cfg) rs) ++ now ∷ [] in
      (l l' : Option Limiter) × (serve_all net cfg (new_limiter cfg.security) rs ≡ some l)
      × (authenticate_request net cfg l r now
          ≡ some (
            l',
            stopped (
                if ltb n (count_after (now -ℤ pos (s * 1_000_000_000)) failures)
                then rate_limited
                else unauthorized),
          ))
unfolding authenticate_request authenticate peer_address write_error has_prefix
authenticate_request-throttled net cfg n s start now rs r e set_ hn h hs w m unknown =
    let (l, l', reached, told) =
      exceeded-history n s (peer_address net r) start now (map (event_of net cfg) rs) hn h hs w m in
    (
      some l,
      some l',
      serve_all-run net cfg (new_limiter cfg.security) rs
          ∙ ap (λ c. run (new_limiter c) (map (event_of net cfg) rs)) set_
          ∙ reached,
      rw (unknown, told) refl,
    )
