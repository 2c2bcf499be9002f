-- ===== src/System/Paired.antt =====
-- Each job with the phase of its goroutine, and the slots that the phases stand for.
use vpsops.Base.{
  ℕ, zero, suc, ◌+◌, ◌≡◌, ◌≢◌, refl, ap, inl, inr, Bool, true, false, Option, none, some, List, [],
  ◌∷◌, ◌++◌, get_elem?, set, Text, arith,
}
use vpsops.Types.{RunResult}
use vpsops.Job.{Job, set_result}
use vpsops.Lifecycle.{Lifecycle, Prepared, prepared, refused}
use vpsops.Lifecycle.Prepare.{Unlocked}
use vpsops.System.{Phase, published, released, enter}

-- The job's result is set, and `done` closed, from `published` on.
abbrev pub is_published : Phase → Bool
is_published published = true
is_published released = true
is_published _ = false

abbrev pub has_result : Option RunResult → Bool
has_result none = false
has_result (some r) = true

pub record Agrees (j : Job) (phase : Phase) : Type 0 where
  pub done : j.done ≡ is_published phase
  pub result : has_result j.result ≡ is_published phase

-- Every job has its goroutine's phase, and agrees with it.
abbrev pub Paired : List Job → List Phase → Type 0
Paired [] [] = Unit
Paired [] (ph ∷ phs) = ⊥
Paired (j ∷ js) [] = ⊥
Paired (j ∷ js) (ph ∷ phs) = Agrees j ph × Paired js phs

-- The slots in use: those of jobs that are not released.
abbrev pub slot_of : Phase → ℕ
slot_of released = 0
slot_of _ = 1

abbrev pub slots : List Phase → ℕ
slots [] = 0
slots (ph ∷ phs) = slot_of ph + slots phs

pub Paired-append :
    (js : List Job) (phs : List Phase) (j : Job) (ph : Phase)
    → Paired js phs
    → Agrees j ph
    → Paired (js ++ j ∷ []) (phs ++ ph ∷ [])
Paired-append [] [] j ph h a = (a, tt)
Paired-append [] (x ∷ phs) j ph h a = absurd h
Paired-append (i ∷ js) [] j ph h a = absurd h
Paired-append (i ∷ js) (x ∷ phs) j ph h a = (h.0, Paired-append js phs j ph h.1 a)

pub Paired-set :
    (js : List Job) (phs : List Phase) (p : ℕ) (j : Job) (ph : Phase)
    → Paired js phs
    → Agrees j ph
    → Paired (set js p j) (set phs p ph)
Paired-set [] [] p j ph h a = tt
Paired-set [] (x ∷ phs) p j ph h a = absurd h
Paired-set (i ∷ js) [] p j ph h a = absurd h
Paired-set (i ∷ js) (x ∷ phs) zero j ph h a = (a, h.1)
Paired-set (i ∷ js) (x ∷ phs) (suc p) j ph h a = (h.0, Paired-set js phs p j ph h.1 a)

pub Paired-Agrees :
    (js : List Job) (phs : List Phase) (p : ℕ) (j : Job) (ph : Phase)
    → Paired js phs
    → get_elem? js p ≡ some j
    → get_elem? phs p ≡ some ph
    → Agrees j ph
Paired-Agrees [] phs p j ph h e f = cc
Paired-Agrees (i ∷ js) [] p j ph h e f = cc
Paired-Agrees (i ∷ js) (x ∷ phs) zero j ph h e f =
    let i_j : i ≡ j = cc in let x_ph : x ≡ ph = cc in rw (← i_j, ← x_ph) h.0
Paired-Agrees (i ∷ js) (x ∷ phs) (suc p) j ph h e f = Paired-Agrees js phs p j ph h.1 e f

pub Paired-phase :
    (js : List Job) (phs : List Phase) (p : ℕ) (j : Job)
    → Paired js phs
    → get_elem? js p ≡ some j
    → (ph : Phase) × (get_elem? phs p ≡ some ph)
Paired-phase [] phs p j h e = cc
Paired-phase (i ∷ js) [] p j h e = absurd h
Paired-phase (i ∷ js) (x ∷ phs) zero j h e = (x, refl)
Paired-phase (i ∷ js) (x ∷ phs) (suc p) j h e = Paired-phase js phs p j h.1 e

pub set_same {ℓ} :
    {A : Type ℓ} (xs : List A) (p : ℕ) (x : A) → get_elem? xs p ≡ some x → set xs p x ≡ xs
set_same [] p x h = refl
set_same (y ∷ xs) zero x h = cc
set_same (y ∷ xs) (suc p) x h = ap (◌∷◌ y) (set_same xs p x h)

pub slots-append : (phs : List Phase) (ph : Phase) → slots (phs ++ ph ∷ []) ≡ slots phs + slot_of ph
slots-append [] ph = omega arith
slots-append (x ∷ phs) ph = omega (arith, slots-append phs ph)

pub slots-set :
    (phs : List Phase) (p : ℕ) (old ph : Phase)
    → get_elem? phs p ≡ some old
    → slots (set phs p ph) + slot_of old ≡ slots phs + slot_of ph
slots-set [] p old ph h = cc
slots-set (x ∷ phs) zero old ph h = let e : x ≡ old = cc in rw e (omega arith)
slots-set (x ∷ phs) (suc p) old ph h = omega (arith, slots-set phs p old ph h)

pub enter_old :
    (out : Prepared) (phs : List Phase) → ((p : ℕ) → out ≢ prepared p false) → enter out phs ≡ phs
enter_old (prepared p true) phs h = refl
enter_old (prepared p false) phs h = absurd (h p refl)
enter_old (refused e) phs h = refl

pub Unlocked-frame :
    (l l1 : Lifecycle) (key : Text)
    → Unlocked l l1 key
    → (l1.sem ≡ l.sem) × (l1.heap ≡ l.heap) × (l1.limits ≡ l.limits)
Unlocked-frame l l1 key (inl e) = rw e (refl, refl, refl)
Unlocked-frame l l1 key (inr (p, j, e, d, same)) = rw same (refl, refl, refl)

pub no_result : (o : Option RunResult) → has_result o ≡ false → o ≡ none
no_result none h = refl
no_result (some r) h = cc

-- setResult on a job without a result closes `done` once.
pub set_result-open :
    (j : Job) (r : RunResult)
    → j.result ≡ none
    → j.done ≡ false
    → (j' : Job) × (set_result j r ≡ some j')
      × (j'.done ≡ true)
      × (j'.result ≡ some r)
      × (j'.lock_key ≡ j.lock_key)
unfolding set_result
set_result-open j r e d =
    (record j { result = some r; state = r.state; done = true }, ground arith, refl, refl, refl)
