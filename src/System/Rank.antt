-- ===== src/System/Rank.antt =====
-- How far a job is from its end, and what one action does to that.
use vpsops.Base.{
  ℕ, zero, suc, ◌-◌, ◌≤◌, ◌<◌, ◌≡◌, refl, sym, ap, ◌∙◌, inl, inr, Bool, true, false, Bool-cases,
  Option, none, some, List, [], ◌∷◌, ◌++◌, get_elem?, get_elem?-set, get_elem?-bound, set, length,
  length-append, length-set, ◌==◌, ==_iff, if◌then◌else◌, arith,
}
use vpsops.Job.{Job}
use vpsops.Lifecycle.{Prepared, prepared, refused}
use vpsops.System.{
  Phase, queued, started, armed, ran, checked, saved, published, released, Action, submit, advance,
  cancel, guard, clean_up, enter,
}
use vpsops.System.Paired.{Paired}

-- How many steps of its goroutine a job still takes.
abbrev pub rank : Phase → ℕ
rank queued = 7
rank started = 6
rank armed = 5
rank (ran r) = 4
rank (checked r) = 3
rank (saved r) = 2
rank published = 1
rank released = 0

abbrev pub rank_of : Option Phase → ℕ
rank_of none = 0
rank_of (some ph) = rank ph

abbrev pub rank_at : List Phase → ℕ → ℕ
rank_at phs p = rank_of (get_elem? phs p)

-- The actions that are steps of job `p`.
abbrev pub is_step_of : ℕ → Action → Bool
is_step_of p (submit req h auth remote id now) = false
is_step_of p (advance q res) = q == p
is_step_of p (cancel id) = false
is_step_of p guard = false
is_step_of p (clean_up i now) = false

pub get_elem?-append_old {ℓ} :
    {A : Type ℓ} (xs ys : List A) (p : ℕ) → p < length xs → get_elem? (xs ++ ys) p ≡ get_elem? xs p
get_elem?-append_old [] ys p h = absurd (omega (arith, h))
get_elem?-append_old (x ∷ xs) ys zero h = refl
get_elem?-append_old (x ∷ xs) ys (suc p) h = get_elem?-append_old xs ys p (omega (arith, h))

pub Paired-job :
    (js : List Job) (phs : List Phase) (p : ℕ)
    → Paired js phs
    → p < length phs
    → (j : Job) × (get_elem? js p ≡ some j)
Paired-job [] [] p w h = absurd (omega (arith, h))
Paired-job [] (ph ∷ phs) p w h = absurd w
Paired-job (j ∷ js) [] p w h = absurd w
Paired-job (j ∷ js) (ph ∷ phs) zero w h = (j, refl)
Paired-job (j ∷ js) (ph ∷ phs) (suc p) w h = Paired-job js phs p w.1 (omega (arith, h))

pub none-some {ℓ} : {A : Type ℓ} (a : A) → none ≡ some a → ⊥
none-some a h = cc

-- What an action does to the phase of a job that is there.
pub record Advanced (before after : List Phase) (p : ℕ) (own : Bool) : Type 0 where
  pub there : p < length after
  pub ranked : rank_at after p ≡ rank_at before p - (if own then 1 else 0)

pub same_phases : (phs : List Phase) (p : ℕ) → p < length phs → Advanced phs phs p false
same_phases phs p h = record { there = h; ranked = omega arith }

pub enter-Advanced :
    (outcome : Prepared) (phs : List Phase) (p : ℕ)
    → p < length phs
    → Advanced phs (enter outcome phs) p false
enter-Advanced (prepared q true) phs p h = same_phases phs p h
enter-Advanced (prepared q false) phs p h = record {
  there = omega (arith, h, length-append phs (queued ∷ []));
  ranked = rw (get_elem?-append_old phs (queued ∷ []) p h) (omega arith);
}
enter-Advanced (refused e) phs p h = same_phases phs p h

-- A step of job `q` from one phase to the next.
pub set-Advanced :
    (phs : List Phase) (p q : ℕ) (old new : Phase)
    → p < length phs
    → get_elem? phs q ≡ some old
    → rank new ≡ rank old - 1
    → Advanced phs (set phs q new) p (q == p)
set-Advanced phs p q old new h e f =
    let bound = get_elem?-bound phs q old e in
    let after = get_elem?-set phs q p new bound in
    record {
      there = omega (arith, h, length-set phs q new);
      ranked = elim (Bool-cases (q == p)) [
        | inl own ↦
            let same : q ≡ p = (==_iff q p).0 own in
            let before : get_elem? phs p ≡ some old = ap (get_elem? phs) (sym same) ∙ e in
            rw (after, own, before) f
        | inr other ↦ rw (after, other) (omega arith)
      ];
    }

pub one_more :
    (b : Bool) (x y z n : ℕ)
    → y ≡ x - (if b then 1 else 0)
    → z ≡ y - n
    → z ≡ x - (if b then suc n else n)
one_more true x y z n h k = omega (arith, h, k)
one_more false x y z n h k = omega (arith, h, k)

pub rank-released : (ph : Phase) → rank ph ≡ 0 → ph ≡ released
rank-released released h = refl
rank-released queued h = absurd (omega (arith, h))
rank-released started h = absurd (omega (arith, h))
rank-released armed h = absurd (omega (arith, h))
rank-released (ran r) h = absurd (omega (arith, h))
rank-released (checked r) h = absurd (omega (arith, h))
rank-released (saved r) h = absurd (omega (arith, h))
rank-released published h = absurd (omega (arith, h))

pub rank_bound : (ph : Phase) → rank ph ≤ 7
rank_bound queued = omega arith
rank_bound started = omega arith
rank_bound armed = omega arith
rank_bound (ran r) = omega arith
rank_bound (checked r) = omega arith
rank_bound (saved r) = omega arith
rank_bound published = omega arith
rank_bound released = omega arith
