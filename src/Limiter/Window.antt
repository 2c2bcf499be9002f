-- ===== src/Limiter/Window.antt =====
-- The limiter refines a sliding window over the whole history of a peer's failures, though it keeps
-- only the last limit+1 of them.
use vpsops.Base.{
  ℕ, zero, suc, ◌+◌, ◌-◌, ◌^◌, ◌≤◌, ◌<◌, min, ◌≡◌, refl, ap, ◌∙◌, inl, inr, true, some, List, [],
  ◌∷◌, ◌++◌, length, length-append, length-drop, drop, is_empty, Text, ℤ, pos, ◌+ℤ◌, ◌-ℤ◌, ◌≤ℤ◌,
  ◌<ℤ◌, ltb, leb_ℤ, ltb_ℤ, wrap64, wrap64_id, if◌then◌else◌, Map, insert, delete, lookup-insert,
  lookup-delete, text_eq, ltb_ℤ-true, ltb_ℤ-false, lt-ltb_ℤ, le-ltb_ℤ, Bool-cases, int_laws, arith,
  All,
}
use vpsops.Limiter.{
  Limiter, failures_of, after_cutoff, recent, slice_from, trim, record_failure_and_exceeded,
}

-- How many of the failures lie after the cutoff.
abbrev pub count_after : ℤ → List ℤ → ℕ
count_after c [] = 0
count_after c (t ∷ ts) = let rest = count_after c ts in if ltb_ℤ c t then suc rest else rest

-- Oldest first, and none after `now`.
abbrev pub UpTo : ℤ → List ℤ → Type 0
UpTo now [] = Unit
UpTo now (t ∷ ts) = (t ≤ℤ now) × All (λ u. t ≤ℤ u) ts × UpTo now ts

pub count_after-append :
    (c : ℤ) (xs ys : List ℤ) → count_after c (xs ++ ys) ≡ count_after c xs + count_after c ys
count_after-append c [] ys = omega arith
count_after-append c (x ∷ xs) ys = ground (arith, count_after-append c xs ys)

pub count_after-le : (c : ℤ) (xs : List ℤ) → count_after c xs ≤ length xs
count_after-le c [] = omega arith
count_after-le c (x ∷ xs) = ground (arith, count_after-le c xs)

pub length-after_cutoff : (c : ℤ) (xs : List ℤ) → length (after_cutoff c xs) ≡ count_after c xs
length-after_cutoff c [] = refl
length-after_cutoff c (x ∷ xs) = ground (arith, length-after_cutoff c xs)

-- A later cutoff counts the same with or without what an earlier one drops.
pub count_after-after_cutoff :
    (c d : ℤ) (xs : List ℤ) → c ≤ℤ d → count_after d (after_cutoff c xs) ≡ count_after d xs
count_after-after_cutoff c d [] h = refl
count_after-after_cutoff c d (x ∷ xs) h = elim (Bool-cases (ltb_ℤ c x)) [
  | inl e ↦ rw e (ground (arith, count_after-after_cutoff c d xs h))
  | inr e ↦
      rw (e, le-ltb_ℤ d x (let l = ltb_ℤ-false c x e in omega arith))
        (count_after-after_cutoff c d xs h)
]

All-after_cutoff :
    (t c : ℤ) (xs : List ℤ) → All (λ u. t ≤ℤ u) xs → All (λ u. t ≤ℤ u) (after_cutoff c xs)
All-after_cutoff t c [] h = tt
All-after_cutoff t c (x ∷ xs) h = elim (Bool-cases (ltb_ℤ c x)) [
  | inl e ↦ rw e (h.0, All-after_cutoff t c xs h.1)
  | inr e ↦ rw e (All-after_cutoff t c xs h.1)
]

pub UpTo-after_cutoff :
    (now later c : ℤ) (xs : List ℤ) → now ≤ℤ later → UpTo now xs → UpTo later (after_cutoff c xs)
UpTo-after_cutoff now later c [] l h = tt
UpTo-after_cutoff now later c (x ∷ xs) l h = elim (Bool-cases (ltb_ℤ c x)) [
  | inl e ↦ rw e (omega arith, All-after_cutoff x c xs h.1, UpTo-after_cutoff now later c xs l h.2)
  | inr e ↦ rw e (UpTo-after_cutoff now later c xs l h.2)
]

All-append-one :
    (t now : ℤ) (xs : List ℤ) → t ≤ℤ now → All (λ u. t ≤ℤ u) xs → All (λ u. t ≤ℤ u) (xs ++ now ∷ [])
All-append-one t now [] l h = (l, tt)
All-append-one t now (x ∷ xs) l h = (h.0, All-append-one t now xs l h.1)

pub UpTo-append-one : (now : ℤ) (xs : List ℤ) → UpTo now xs → UpTo now (xs ++ now ∷ [])
UpTo-append-one now [] h = (omega arith, tt, tt)
UpTo-append-one now (x ∷ xs) h = (h.0, All-append-one x now xs h.0 h.1, UpTo-append-one now xs h.2)

pub UpTo-drop : (now : ℤ) (n : ℕ) (xs : List ℤ) → UpTo now xs → UpTo now (drop n xs)
UpTo-drop now zero xs h = h
UpTo-drop now (suc n) [] h = tt
UpTo-drop now (suc n) (x ∷ xs) h = UpTo-drop now n xs h.2

-- In an ordered list all that follows an entry after the cutoff is after it too.
count_after-every :
    (c t : ℤ) (xs : List ℤ) → c <ℤ t → All (λ u. t ≤ℤ u) xs → count_after c xs ≡ length xs
count_after-every c t [] l h = refl
count_after-every c t (x ∷ xs) l h =
    rw (lt-ltb_ℤ c x (omega arith)) (ap suc (count_after-every c t xs l h.1))

-- So cutting off the oldest entries leaves the count, or the length that is left.
pub count_after-drop :
    (c now : ℤ) (n : ℕ) (xs : List ℤ)
    → UpTo now xs
    → count_after c (drop n xs) ≡ min (length xs - n) (count_after c xs)
count_after-drop c now zero xs h = omega (arith, count_after-le c xs)
count_after-drop c now (suc n) [] h = omega arith
count_after-drop c now (suc n) (x ∷ xs) h = elim (Bool-cases (ltb_ℤ c x)) [
  | inl e ↦ rw e (
      omega
        (arith, count_after-drop c now n xs h.2, count_after-every c x xs (ltb_ℤ-true c x e) h.1))
  | inr e ↦ rw e (omega (arith, count_after-drop c now n xs h.2, count_after-le c xs))
]

failures_of-insert :
    (k j : Text) (v : List ℤ) (m : Map (List ℤ))
    → failures_of j (insert k v m) ≡ (if text_eq k j then v else failures_of j m)
failures_of-insert k j v m = ground (arith, lookup-insert k j v m)

pub failures_of-delete :
    (k j : Text) (m : Map (List ℤ))
    → failures_of j (delete k m) ≡ (if text_eq k j then [] else failures_of j m)
failures_of-delete k j m = ground (arith, lookup-delete k j m)

empty_cutoff : (c : ℤ) (ts : List ℤ) → is_empty ts ≡ true → after_cutoff c ts ≡ ts
empty_cutoff c [] h = refl
empty_cutoff c (t ∷ ts) h = cc

recent-kept :
    (l : Limiter) (key : Text) (now : ℤ)
    → (recent l key now).1 ≡ after_cutoff (now -ℤ l.window) (failures_of key l.items)
unfolding recent
recent-kept l key now = ground (arith, empty_cutoff (now -ℤ l.window) (failures_of key l.items))

pub recent-others :
    (l : Limiter) (key j : Text) (now : ℤ) (v : List ℤ)
    → failures_of j (insert key v (recent l key now).0)
      ≡ (if text_eq key j then v else failures_of j l.items)
unfolding recent
recent-others l key j now v = ground (
  arith,
  failures_of-insert key j v l.items,
  failures_of-insert key j v (delete key l.items),
  failures_of-delete key j l.items,
)

-- With room for limit+1 entries the cut never leaves the slice.
trim_lem :
    (n : ℕ) (fs : List ℤ)
    → n + 2 < 2 ^ 63
    → length fs ≤ n + 2
    → trim (pos n) fs ≡ some (drop (length fs - (n + 1)) fs)
unfolding trim slice_from
trim_lem n fs h l =
    let e : pos n +ℤ pos 1 ≡ pos (n + 1) = omega int_laws in
    let w : wrap64 (pos (n + 1)) ≡ pos (n + 1) = wrap64_id _ (omega arith) (omega arith) in
    elim (Bool-cases (ltb_ℤ (pos (n + 1)) (pos (length fs)))) [
      | inl more ↦
          let m = ltb_ℤ-true _ _ more in
          let d : pos (length fs) -ℤ pos (n + 1) ≡ pos (length fs - (n + 1)) = omega int_laws in
          let v : wrap64 (pos (length fs - (n + 1))) ≡ pos (length fs - (n + 1)) =
            wrap64_id _ (omega arith) (omega arith) in
          rw (e, w, more, d, v) (unfold leb_ℤ in ground arith)
      | inr fits ↦
          let m = ltb_ℤ-false _ _ fits in
          let z : length fs - (n + 1) ≡ 0 = omega arith in rw (e, w, fits, z)
    ]

-- What a peer's entry becomes with a failure at `now`.
abbrev pub next_failures : ℕ → ℤ → ℤ → List ℤ → List ℤ
next_failures n window now fs =
    let all = after_cutoff (now -ℤ window) fs ++ now ∷ [] in drop (length all - (n + 1)) all

-- The new limiter of a failure at `now`.
abbrev pub next_limiter : ℕ → Text → ℤ → Limiter → Limiter
next_limiter n key now l = record l {
  items = insert key (next_failures n l.window now (failures_of key l.items)) (recent l key now).0;
}

pub length-next_failures-le :
    (n : ℕ) (window now : ℤ) (fs : List ℤ) → length (next_failures n window now fs) ≤ n + 1
length-next_failures-le n window now fs =
    let all = after_cutoff (now -ℤ window) fs ++ now ∷ [] in
    omega (arith, length-drop (length all - (n + 1)) all)

pub record_failure_lem :
    (n : ℕ) (l : Limiter) (key : Text) (now : ℤ)
    → l.limit ≡ pos n
    → n + 2 < 2 ^ 63
    → length (failures_of key l.items) ≤ n + 1
    → record_failure_and_exceeded (some l) key now
      ≡ some (
        some (next_limiter n key now l),
        ltb n (length (next_failures n l.window now (failures_of key l.items))),
      )
unfolding record_failure_and_exceeded ltb_ℤ
record_failure_lem n l key now e h b =
    let all = after_cutoff (now -ℤ l.window) (failures_of key l.items) ++ now ∷ [] in
    let short : length all ≤ n + 2 = omega (
      arith,
      length-append (after_cutoff (now -ℤ l.window) (failures_of key l.items)) (now ∷ []),
      length-after_cutoff (now -ℤ l.window) (failures_of key l.items),
      count_after-le (now -ℤ l.window) (failures_of key l.items),
    ) in
    let cut : trim l.limit ((recent l key now).1 ++ now ∷ [])
        ≡ some (next_failures n l.window now (failures_of key l.items)) =
      ap (λ ts. trim l.limit (ts ++ now ∷ [])) (recent-kept l key now)
      ∙ ap (λ m. trim m all) e
      ∙ trim_lem n all h short in
    ground (arith, cut, e)
