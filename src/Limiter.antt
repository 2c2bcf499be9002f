-- ===== src/Limiter.antt =====
-- internal/execd/auth_limiter.go: the sliding window of failed authentications of each peer. A nil
-- limiter is `none`. Times are nanoseconds; the clock's reading is an argument of each call. The
-- mutex makes each call one step.
pub mod Window
pub mod History
pub mod Overflow
mod Tests
use vpsops.Base.{
  ℕ, Bool, true, false, ◌||◌, ◌&&◌, Option, none, some, List, [], ◌∷◌, ◌++◌, length, is_empty, drop,
  filterb, Text, ℤ, pos, pos_part, ◌+ℤ◌, ◌-ℤ◌, ◌*ℤ◌, ltb, leb_ℤ, ltb_ℤ, wrap64, if◌then◌else◌, Map,
  lookup, insert, delete,
}

-- SecurityConfig of internal/execd/config.go
pub record SecurityConfig : Type 0 where
  pub auth_failure_limit : ℤ  -- int
  pub auth_failure_window_sec : ℤ  -- int

pub record Limiter : Type 0 where
  pub limit : ℤ  -- int
  pub window : ℤ  -- time.Duration, nanoseconds
  pub items : Map (List ℤ)

-- time.Duration(sec) * time.Second: `durationSeconds` of internal/execd/config.go
unfoldable pub duration_seconds : ℤ → ℤ
duration_seconds sec = wrap64 (sec *ℤ pos 1_000_000_000)

-- newAuthFailureLimiter
unfoldable pub new_limiter : SecurityConfig → Option Limiter
new_limiter cfg =
    if leb_ℤ cfg.auth_failure_limit (pos 0) || leb_ℤ cfg.auth_failure_window_sec (pos 0)
    then none
    else some (record {
      limit = cfg.auth_failure_limit;
      window = duration_seconds cfg.auth_failure_window_sec;
      items = [];
    })

-- m[k] of a map of slices: a missing key gives the empty slice.
abbrev pub failures_of : Text → Map (List ℤ) → List ℤ
failures_of key items = elim (lookup key items) [ none ↦ [] | some ts ↦ ts ]

-- The entries of `failures` after the cutoff.
abbrev pub after_cutoff : ℤ → List ℤ → List ℤ
after_cutoff cutoff = filterb (λ ts. ltb_ℤ cutoff ts)

-- recentLocked: the items, and what is kept. The source filters in place; the caller overwrites the
-- map's entry at once, so the stale slice header there is never read.
unfoldable pub recent : Limiter → Text → ℤ → Map (List ℤ) × List ℤ
recent l key now =
    let failures = failures_of key l.items in
    let kept = after_cutoff (now -ℤ l.window) failures in
    if is_empty failures
    then (l.items, failures)
    else if is_empty kept
    then (delete key l.items, kept)
    else (l.items, kept)

-- allow
unfoldable pub allow : Option Limiter → Text → ℤ → Option Limiter × Bool
allow none key now = (none, true)
allow (some l) key now =
    let (items, failures) = recent l key now in
    (some (record l { items = insert key failures items }), ltb_ℤ (pos (length failures)) l.limit)

-- s[i:], where an index out of range is a run-time panic (`none`).
unfoldable pub slice_from {ℓ} : {A : Type ℓ} → List A → ℤ → Option (List A)
slice_from xs i =
    if leb_ℤ (pos 0) i && leb_ℤ i (pos (length xs)) then some (drop (pos_part i) xs) else none

-- The cut of `failures` to its last limit+1 entries.
unfoldable pub trim : ℤ → List ℤ → Option (List ℤ)
trim limit failures =
    let most = wrap64 (limit +ℤ pos 1) in
    if ltb_ℤ most (pos (length failures))
    then slice_from failures (wrap64 (pos (length failures) -ℤ most))
    else some failures

-- recordFailureAndExceeded; `none` is a panic.
unfoldable pub record_failure_and_exceeded :
    Option Limiter → Text → ℤ → Option (Option Limiter × Bool)
record_failure_and_exceeded none key now = some (none, false)
record_failure_and_exceeded (some l) key now =
    let (items, failures) = recent l key now in
    elim (trim l.limit (failures ++ now ∷ [])) [
      | none ↦ none
      | some kept ↦
          some
            (some (record l { items = insert key kept items }), ltb_ℤ l.limit (pos (length kept)))
    ]

-- recordFailure
unfoldable pub record_failure : Option Limiter → Text → ℤ → Option (Option Limiter)
record_failure l key now = elim (record_failure_and_exceeded l key now) [
  | none ↦ none
  | some (l', exceeded) ↦ some l'
]

-- recordSuccess
unfoldable pub record_success : Option Limiter → Text → Option Limiter
record_success none key = none
record_success (some l) key = some (record l { items = delete key l.items })

-- What the server tells the limiter, in the order in which it takes the mutex.
pub data Event : Type 0 where
  failed : Text → ℤ → Event
  succeeded : Text → Event

unfoldable pub step : Option Limiter → Event → Option (Option Limiter)
unfolding record_failure
step l (failed key now) = record_failure l key now
step l (succeeded key) = some (record_success l key)

unfoldable pub run : Option Limiter → List Event → Option (Option Limiter)
run l [] = some l
run l (e ∷ es) = elim (step l e) [ none ↦ none | some l' ↦ run l' es ]
