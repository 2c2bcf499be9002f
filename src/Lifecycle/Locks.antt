-- ===== src/Lifecycle/Locks.antt =====
-- The lock table: every job that is not done and asked for a lock is the one entered for it.
use vpsops.Base.{
  ℕ, ◌≡◌, sym, ap, ◌∙◌, ◌≢◌, inl, inr, true, false, Option, none, some, List, length, get_elem?,
  get_elem?-set, get_elem?-append_one, get_elem?-bound, set, is_empty, not, ◌&&◌, ◌==◌, ==_iff,
  Text, text_eq, text_eq_iff, text_eq-true, Map, lookup, delete, lookup-insert, lookup-delete,
  arith, Bool-cases,
}
use vpsops.Types.{RunRequest}
use vpsops.Job.{Job}
use vpsops.Lifecycle.{Lifecycle, entry, points_to, register, release_job, locks_after_release}
use vpsops.Lifecycle.Prepare.{Unlocked, IsFree}

pub record LocksHeld (heap : List Job) (locks : Map ℕ) : Type 0 where
  pub held :
      (p : ℕ) (j : Job)
      → get_elem? heap p ≡ some j
      → j.done ≡ false
      → is_empty j.lock_key ≡ false
      → lookup j.lock_key locks ≡ some p

true-false : true ≡ false → ⊥
true-false e = cc

some_eq {ℓ} : {A : Type ℓ} {a b : A} (o : Option A) → o ≡ some a → o ≡ some b → a ≡ b
some_eq o h k = cc

-- Two jobs that hold one lock are one.
pub LocksHeld-exclusive :
    (heap : List Job) (locks : Map ℕ) (p q : ℕ) (j k : Job)
    → LocksHeld heap locks
    → get_elem? heap p ≡ some j
    → get_elem? heap q ≡ some k
    → j.done ≡ false
    → k.done ≡ false
    → is_empty j.lock_key ≡ false
    → j.lock_key ≡ k.lock_key
    → p ≡ q
LocksHeld-exclusive heap locks p q j k h hp hq dj dk ne same =
    some_eq (lookup j.lock_key locks) (h.held p j hp dj ne)
      (ap (λ t. lookup t locks) same ∙ h.held q k hq dk (rw (← same) ne))

pub LocksHeld-set :
    (heap : List Job) (locks : Map ℕ) (p : ℕ) (j j' : Job)
    → get_elem? heap p ≡ some j
    → j'.lock_key ≡ j.lock_key
    → (j'.done ≡ false → j.done ≡ false)
    → LocksHeld heap locks
    → LocksHeld (set heap p j') locks
LocksHeld-set heap locks p j j' hp same d h = record {
  held = λ q k hq dk ne. ground (
    arith,
    get_elem?-set heap p q j' (get_elem?-bound heap p j hp),
    h.held q k,
    h.held p j hp,
    ==_iff p q,
  );
}

-- Deleting the lock of a job that is done leaves the others'.
pub LocksHeld-delete :
    (heap : List Job) (locks : Map ℕ) (key : Text) (p : ℕ) (j : Job)
    → lookup key locks ≡ some p
    → get_elem? heap p ≡ some j
    → j.done ≡ true
    → LocksHeld heap locks
    → LocksHeld heap (delete key locks)
LocksHeld-delete heap locks key p j e hp d h = record {
  held = λ q k hq dk ne. elim (Bool-cases (text_eq key k.lock_key)) [
    | inl same ↦
        let clash : p ≡ q =
          some_eq (lookup key locks) e
            (ap (λ t. lookup t locks) (text_eq-true key k.lock_key same) ∙ h.held q k hq dk ne) in
        let one : j ≡ k = some_eq (get_elem? heap p) hp (rw clash hq) in
        absurd (true-false (sym d ∙ ap (λ (x : Job). x.done) one ∙ dk))
    | inr other ↦ lookup-delete key k.lock_key locks ∙ rw other (h.held q k hq dk ne)
  ];
}

pub entry-some :
    (key : Text) (m : Map ℕ) (heap : List Job) (p : ℕ) (j : Job)
    → entry key m heap ≡ some (p, j)
    → (lookup key m ≡ some p) × (get_elem? heap p ≡ some j)
unfolding entry
entry-some key m heap p j e = ground arith

pub LocksHeld-Unlocked :
    (l l1 : Lifecycle) (key : Text)
    → Unlocked l l1 key
    → LocksHeld l.heap l.locks
    → LocksHeld l1.heap l1.locks
LocksHeld-Unlocked l l1 key (inl e) h = rw e h
LocksHeld-Unlocked l l1 key (inr (p, j, e, d, same)) h =
    let (at, live) = entry-some key l.locks l.heap p j e in
    rw same (LocksHeld-delete l.heap l.locks key p j at live d h)

-- A free lock is held by no job that is not done.
IsFree-sound :
    (l : Lifecycle) (key : Text) (q : ℕ) (k : Job)
    → LocksHeld l.heap l.locks
    → IsFree l key
    → get_elem? l.heap q ≡ some k
    → k.done ≡ false
    → is_empty k.lock_key ≡ false
    → key ≡ k.lock_key
    → ⊥
unfolding entry
IsFree-sound l key q k h f hq dk ne same =
    ground (arith, h.held q k, ap (λ t. lookup t l.locks) same, f)

pub heap-Unlocked : (l l1 : Lifecycle) (key : Text) → Unlocked l l1 key → l1.heap ≡ l.heap
heap-Unlocked l l1 key (inl e) = ap (λ (x : Lifecycle). x.heap) e
heap-Unlocked l l1 key (inr (p, j, e, d, same)) = ap (λ (x : Lifecycle). x.heap) same

points_to-some : (o : Option ℕ) (p : ℕ) → points_to o p ≡ true → o ≡ some p
points_to-some none p h = cc
points_to-some (some q) p h = ap some ((==_iff q p).0 h)

pub LocksHeld-register :
    (l l1 : Lifecycle) (req : RunRequest) (j : Job) (sem : ℕ)
    → LocksHeld l.heap l.locks
    → Unlocked l l1 req.lock_key
    → IsFree l req.lock_key
    → j.lock_key ≡ req.lock_key
    → let l' = register (record l1 { sem = sem }) req j in LocksHeld l'.heap l'.locks
unfolding register
LocksHeld-register l l1 req j sem h u f same = record {
  held = λ q k hq dk ne. elim (Bool-cases (length l1.heap == q)) [
    | inl new ↦ ground (
      arith,
      get_elem?-append_one l1.heap q j,
      lookup-insert req.lock_key k.lock_key (length l1.heap) l1.locks,
      text_eq_iff req.lock_key k.lock_key,
      ==_iff (length l1.heap) q,
      new,
    )
    | inr old ↦
        let live : get_elem? l1.heap q ≡ some k =
          ground (arith, get_elem?-append_one l1.heap q j, old) in
        let kept = (LocksHeld-Unlocked l l1 req.lock_key u h).held q k live dk ne in
        let other : is_empty req.lock_key ≡ false → req.lock_key ≢ k.lock_key = λ _ e.
          IsFree-sound l req.lock_key q k h f
            (ap (λ h. get_elem? h q) (sym (heap-Unlocked l l1 req.lock_key u)) ∙ live) dk ne e in
        ground (
          arith,
          lookup-insert req.lock_key k.lock_key (length l1.heap) l1.locks,
          text_eq_iff req.lock_key k.lock_key,
          other,
        )
  ];
}

LocksHeld-locks_after_release :
    (heap : List Job) (locks : Map ℕ) (p : ℕ) (j : Job)
    → get_elem? heap p ≡ some j
    → j.done ≡ true
    → LocksHeld heap locks
    → LocksHeld heap (locks_after_release locks p j)
unfolding locks_after_release
LocksHeld-locks_after_release heap locks p j hp d h =
    elim (Bool-cases (not (is_empty j.lock_key) && points_to (lookup j.lock_key locks) p)) [
      | inl mine ↦ rw mine (
          LocksHeld-delete heap locks j.lock_key p j
            (points_to-some (lookup j.lock_key locks) p (ground arith)) hp d h)
      | inr other ↦ rw other h
    ]

pub release_job-parts :
    (l : Lifecycle) (p : ℕ) (j : Job)
    → ((release_job l p j).0.heap ≡ l.heap)
      × ((release_job l p j).0.locks ≡ locks_after_release l.locks p j)
unfolding release_job
release_job-parts l p j = ground arith

pub LocksHeld-release_job :
    (l : Lifecycle) (p : ℕ) (j : Job)
    → get_elem? l.heap p ≡ some j
    → j.done ≡ true
    → LocksHeld l.heap l.locks
    → LocksHeld (release_job l p j).0.heap (release_job l p j).0.locks
LocksHeld-release_job l p j hp d h =
    let (heap, locks) = release_job-parts l p j in
    rw (heap, locks) (LocksHeld-locks_after_release l.heap l.locks p j hp d h)
