-- ===== src/Limiter/History.antt =====
-- Whatever the peers did before, a failed authentication is answered by the number of failures of
-- its peer in the window that ends now, since the peer's last success.
use vpsops.Base.{
  ℕ, ◌+◌, ◌-◌, ◌*◌, ◌^◌, ◌≤◌, ◌<◌, min, ◌≡◌, refl, ap, ◌∙◌, inl, inr, Option, some, List, [], ◌∷◌,
  ◌++◌, length, length-append, length-drop, Text, ℤ, pos, ◌-ℤ◌, ◌*ℤ◌, ◌≤ℤ◌, ◌<ℤ◌, ltb, leb_ℤ,
  wrap64_id, if◌then◌else◌, text_eq, text_eq-true, delete, lookup, lt-ltb_ℤ, Bool-cases, int_laws,
  arith,
}
use vpsops.Limiter.{
  SecurityConfig, Limiter, new_limiter, duration_seconds, failures_of, after_cutoff,
  record_failure_and_exceeded, record_failure, record_success, Event, failed, succeeded, step, run,
}
use vpsops.Limiter.Window.{
  count_after, UpTo, next_failures, next_limiter, count_after-append, count_after-le,
  length-after_cutoff, count_after-after_cutoff, UpTo-after_cutoff, UpTo-append-one, UpTo-drop,
  count_after-drop, recent-others, record_failure_lem, length-next_failures-le, failures_of-delete,
}

-- An entry stands for a history: it may hold less, but no cutoff of now or later can tell.
pub record Stands (n : ℕ) (window now : ℤ) (hist fs : List ℤ) : Type 0 where
  pub ordered : UpTo now fs
  pub counts :
      (c : ℤ)
      → now -ℤ window ≤ℤ c
      → min (n + 1) (count_after c fs) ≡ min (n + 1) (count_after c hist)

Stands-next :
    (n : ℕ) (window now later : ℤ) (hist fs : List ℤ)
    → now ≤ℤ later
    → Stands n window now hist fs
    → Stands n window later (hist ++ later ∷ []) (next_failures n window later fs)
Stands-next n window now later hist fs h s = record {
  ordered = UpTo-drop later (length all - (n + 1)) all all_UpTo;
  counts = λ c k. omega (
    int_laws,
    count_after-drop c later (length all - (n + 1)) all all_UpTo,
    count_after-le c all,
    count_after-append c (after_cutoff (later -ℤ window) fs) (later ∷ []),
    count_after-after_cutoff (later -ℤ window) c fs k,
    count_after-append c hist (later ∷ []),
    s.counts c (omega int_laws),
  );
}
  where
    all : List ℤ
    all = after_cutoff (later -ℤ window) fs ++ later ∷ []

    all_UpTo : UpTo later all
    all_UpTo =
        UpTo-append-one later (after_cutoff (later -ℤ window) fs)
          (UpTo-after_cutoff now later (later -ℤ window) fs h s.ordered)

-- The test on the entry is the test on the history.
Stands-exceeded :
    (n : ℕ) (window now later : ℤ) (hist fs : List ℤ)
    → pos 0 <ℤ window
    → now ≤ℤ later
    → Stands n window now hist fs
    → ltb n (length (next_failures n window later fs))
      ≡ ltb n (count_after (later -ℤ window) (hist ++ later ∷ []))
Stands-exceeded n window now later hist fs w h s =
    let d = later -ℤ window in
    let all = after_cutoff d fs ++ later ∷ [] in
    let last : count_after d (later ∷ []) ≡ 1 = rw (lt-ltb_ℤ d later (omega int_laws)) in
    let same : min (n + 1) (length (next_failures n window later fs))
        ≡ min (n + 1) (count_after d (hist ++ later ∷ [])) =
      omega (
        int_laws,
        last,
        length-drop (length all - (n + 1)) all,
        length-append (after_cutoff d fs) (later ∷ []),
        length-after_cutoff d fs,
        count_after-append d hist (later ∷ []),
        s.counts d (omega int_laws),
      ) in
    ground arith

-- The failures of `key` since its last success, after those of `hist`.
abbrev pub history : Text → List ℤ → List Event → List ℤ
history key hist [] = hist
history key hist (failed j t ∷ es) = history key (if text_eq j key then hist ++ t ∷ [] else hist) es
history key hist (succeeded j ∷ es) = history key (if text_eq j key then [] else hist) es

-- The clock does not go back; `last` is its last reading.
abbrev pub Monotone : ℤ → List Event → ℤ → Type 0
Monotone now [] last = now ≤ℤ last
Monotone now (failed j t ∷ es) last = (now ≤ℤ t) × Monotone t es last
Monotone now (succeeded j ∷ es) last = Monotone now es last

UpTo-later : (now later : ℤ) (xs : List ℤ) → now ≤ℤ later → UpTo now xs → UpTo later xs
UpTo-later now later [] h u = tt
UpTo-later now later (x ∷ xs) h u = (omega arith, u.1, UpTo-later now later xs h u.2)

run-cons :
    (l l' : Option Limiter) (e : Event) (es : List Event)
    → step l e ≡ some l'
    → run l (e ∷ es) ≡ run l' es
unfolding run
run-cons l l' e es h = ground arith

module _ (n : ℕ) (window : ℤ) (key : Text) where
  pub record Tracks (now : ℤ) (hist : List ℤ) (l : Limiter) : Type 0 where
    pub limited : l.limit ≡ pos n
    pub windowed : l.window ≡ window
    pub bounded : (j : Text) → length (failures_of j l.items) ≤ n + 1
    pub stands : Stands n window now hist (failures_of key l.items)

  Stands-later :
      (now later : ℤ) (hist fs : List ℤ)
      → now ≤ℤ later
      → Stands n window now hist fs
      → Stands n window later hist fs
  Stands-later now later hist fs h s = record {
    ordered = UpTo-later now later fs h s.ordered;
    counts = λ c k. s.counts c (omega int_laws);
  }

  Tracks-failed :
      (now later : ℤ) (hist : List ℤ) (l : Limiter) (j : Text)
      → now ≤ℤ later
      → Tracks now hist l
      → Tracks later (if text_eq j key then hist ++ later ∷ [] else hist) (next_limiter n j later l)
  Tracks-failed now later hist l j h t = record {
    limited = t.limited;
    windowed = t.windowed;
    bounded = λ i. ground (
      arith,
      recent-others l j i later (next_failures n l.window later (failures_of j l.items)),
      length-next_failures-le n l.window later (failures_of j l.items),
      t.bounded i,
    );
    stands = elim (Bool-cases (text_eq j key)) [
      | inl e ↦
          rw (recent-others l j key later, e, text_eq-true j key e, t.windowed)
            (Stands-next n window now later hist (failures_of key l.items) h t.stands)
      | inr e ↦
          rw (recent-others l j key later, e)
            (Stands-later now later hist (failures_of key l.items) h t.stands)
    ];
  }

  Tracks-succeeded :
      (now : ℤ) (hist : List ℤ) (l : Limiter) (j : Text)
      → Tracks now hist l
      → (l' : Limiter) × (record_success (some l) j ≡ some l')
        × Tracks now (if text_eq j key then [] else hist) l'
  unfolding record_success
  Tracks-succeeded now hist l j t = (
    record l { items = delete j l.items },
    refl,
    record {
      limited = t.limited;
      windowed = t.windowed;
      bounded = λ i. ground (arith, failures_of-delete j i l.items, t.bounded i);
      stands = elim (Bool-cases (text_eq j key)) [
        | inl e ↦
            rw (failures_of-delete j key l.items, e) (record { ordered = tt; counts = λ c k. refl })
        | inr e ↦ rw (failures_of-delete j key l.items, e) t.stands
      ];
    },
  )

  pub run-Tracks :
      (now last : ℤ) (hist : List ℤ) (l : Limiter) (es : List Event)
      → n + 2 < 2 ^ 63
      → Monotone now es last
      → Tracks now hist l
      → (l' : Limiter) × (run (some l) es ≡ some (some l')) × Tracks last (history key hist es) l'
  unfolding run step
  run-Tracks now last hist l [] h m t = (
    l,
    refl,
    record {
      limited = t.limited;
      windowed = t.windowed;
      bounded = t.bounded;
      stands = Stands-later now last hist (failures_of key l.items) m t.stands;
    },
  )
  run-Tracks now last hist l (failed j later ∷ es) h m t =
      let (l', e, t') =
        run-Tracks later last (if text_eq j key then hist ++ later ∷ [] else hist)
          (next_limiter n j later l) es h m.1 (Tracks-failed now later hist l j m.0 t) in
      let stepped : step (some l) (failed j later) ≡ some (some (next_limiter n j later l)) =
        unfold record_failure in
        ground (arith, record_failure_lem n l j later t.limited h (t.bounded j)) in
      (l', run-cons (some l) _ (failed j later) es stepped ∙ e, t')
  run-Tracks now last hist l (succeeded j ∷ es) h m t =
      let (l1, e1, t1) = Tracks-succeeded now hist l j t in
      let (l', e, t') = run-Tracks now last (if text_eq j key then [] else hist) l1 es h m t1 in
      (l', ap (λ o. run o es) e1 ∙ e, t')

-- A limiter that has seen nothing.
abbrev pub fresh : ℕ → ℤ → Limiter
fresh n window = record { limit = pos n; window = window; items = [] }

pub fresh-Tracks :
    (n : ℕ) (window : ℤ) (key : Text) (start : ℤ) → Tracks n window key start [] (fresh n window)
unfolding lookup
fresh-Tracks n window key start = record {
  limited = refl;
  windowed = refl;
  bounded = λ j. omega arith;
  stands = record { ordered = tt; counts = λ c k. refl };
}

new_limiter_lem :
    (n s : ℕ)
    → 0 < n
    → 0 < s
    → s * 1_000_000_000 < 2 ^ 63
    → new_limiter (record { auth_failure_limit = pos n; auth_failure_window_sec = pos s })
      ≡ some (fresh n (pos (s * 1_000_000_000)))
unfolding new_limiter duration_seconds leb_ℤ
new_limiter_lem n s hn hs w =
    let e : pos s *ℤ pos 1_000_000_000 ≡ pos (s * 1_000_000_000) = unfold ◌*ℤ◌ in ground arith in
    ground (arith, e, wrap64_id (pos (s * 1_000_000_000)) (omega arith) (omega arith))

-- A limiter made from a configured limit of `n` > 0 failures in `s` seconds, of which the window is
-- an int64 number of nanoseconds, and any history of calls under a clock that does not go back: no
-- call panics, and the next failed authentication of `key`, at `now`, is reported as exceeding the
-- limit exactly when more than `n` failures of `key` lie in the window of `s` seconds that ends
-- now, this one included, counted since its last success.
pub exceeded-history :
    (n s : ℕ) (key : Text) (start now : ℤ) (es : List Event)
    → 0 < n
    → n + 2 < 2 ^ 63
    → 0 < s
    → s * 1_000_000_000 < 2 ^ 63
    → Monotone start es now
    → let cfg : SecurityConfig = record {
      auth_failure_limit = pos n;
      auth_failure_window_sec = pos s;
    } in
      (l l' : Limiter) × (run (new_limiter cfg) es ≡ some (some l))
      × (record_failure_and_exceeded (some l) key now
          ≡ some (
            some l',
            ltb n (count_after (now -ℤ pos (s * 1_000_000_000)) (history key [] es ++ now ∷ [])),
          ))
exceeded-history n s key start now es hn h hs w m =
    let sec = s * 1_000_000_000 in
    let (l, e, t) =
      run-Tracks n (pos sec) key start now [] (fresh n (pos sec)) es h m
        (fresh-Tracks n (pos sec) key start) in
    let fs = failures_of key l.items in
    (
      l,
      next_limiter n key now l,
      ap (λ o. run o es) (new_limiter_lem n s hn hs w) ∙ e,
      record_failure_lem n l key now t.limited h (t.bounded key)
          ∙ ap (λ b. some (some (next_limiter n key now l), b))
              (rw t.windowed (
                Stands-exceeded n (pos sec) now now (history key [] es) fs (ground arith)
                  (omega arith) t.stands)),
    )
