-- ===== src/System/Progress.antt =====
-- Every job ends, whatever else the daemon does, if its goroutine gets its steps.
use vpsops.Base.{
  ℕ, ◌-◌, ◌≤◌, ◌<◌, ◌≡◌, refl, sym, ap, subst, ◌∙◌, inl, inr, true, false, Bool-cases, Option-cases,
  Option, none, some, List, [], ◌∷◌, get_elem?, get_elem?-bound, set, length, count_if, ◌==◌,
  ==_iff, arith, ℤ,
}
use vpsops.Types.{RunResult, StorageConfig, LimitsConfig}
use vpsops.Os.{Os, Json}
use vpsops.Store.{JobStore}
use vpsops.Job.{Job, set_result}
use vpsops.Lifecycle.{new_lifecycle, prepare_job}
use vpsops.System.{
  Phase, queued, started, armed, ran, checked, saved, published, released, Cleaning, guarded, swept,
  ended, System, Action, submit, advance, cancel, guard, clean_up, step, run, run_job, run_task,
  run_cleaning, finish, init, with_job,
}
use vpsops.System.Paired.{has_result, slots, Paired-Agrees, Paired-phase, set_same}
use vpsops.System.Invariant.{Inv}
use vpsops.System.Reach.{step-Inv, run-Inv, reached-Inv}
use vpsops.System.Rank.{
  rank, rank_of, rank_at, is_step_of, Paired-job, none-some, Advanced, same_phases, enter-Advanced,
  set-Advanced, one_more, rank-released, rank_bound,
}

module _ (os : Os) (json : Json) where
  phases_of : (x y : System os json) → some x ≡ some y → y.phases ≡ x.phases
  phases_of x y e = let same : x ≡ y = cc in ap (λ (z : System os json). z.phases) (sym same)

  run_job-moves :
      (s s' : System os json) (q : ℕ) (j : Job) (ph : Phase) (res : RunResult)
      → get_elem? s.phases q ≡ some ph
      → run_job os json s q j ph res ≡ some s'
      → (new : Phase) × (s'.phases ≡ set s.phases q new) × (rank new ≡ rank ph - 1)
  unfolding run_job finish
  run_job-moves s s' q j queued res e f = (started, phases_of _ s' f, refl)
  run_job-moves s s' q j started res e f = (armed, phases_of _ s' f, refl)
  run_job-moves s s' q j armed res e f = (ran res, phases_of _ s' f, refl)
  run_job-moves s s' q j (ran r) res e f = (checked _, phases_of _ s' f, refl)
  run_job-moves s s' q j (checked r) res e f = (saved r, phases_of _ s' f, refl)
  run_job-moves s s' q j (saved r) res e f = elim (Option-cases (set_result j r)) [
    | inl panic ↦ absurd (ground (arith, f, panic))
    | inr (j', done) ↦ (
      published,
      phases_of (with_job os json s q j' published) s' (ground (arith, f, done)),
      refl,
    )
  ]
  run_job-moves s s' q j published res e f = (released, phases_of _ s' f, refl)
  run_job-moves s s' q j released res e f =
      (released, phases_of s s' f ∙ sym (set_same s.phases q released e), refl)

  run_cleaning-phases :
      (s : System os json) (i : ℕ) (c : Option Cleaning) (now : ℤ)
      → (run_cleaning os json s i c now).phases ≡ s.phases
  unfolding run_cleaning
  run_cleaning-phases s i none now = refl
  run_cleaning-phases s i (some (guarded protected)) now = refl
  run_cleaning-phases s i (some (swept ids)) now = refl
  run_cleaning-phases s i (some ended) now = refl

  -- A step of the goroutine of job `q`, if there is such a job.
  run_task-Advanced :
      (limits : LimitsConfig) (s s' : System os json) (p q : ℕ) (res : RunResult) (j : Option Job)
      (ph : Option Phase)
      → Inv os json limits s
      → p < length s.phases
      → get_elem? s.lifecycle.heap q ≡ j
      → get_elem? s.phases q ≡ ph
      → run_task os json s q j ph res ≡ some s'
      → Advanced s.phases s'.phases p (q == p)
  run_task-Advanced limits s s' p q res none ph i h e f g =
      let same : s ≡ s' = cc in
      elim (Bool-cases (q == p)) [
        | inl own ↦
            let (j, there) = Paired-job s.lifecycle.heap s.phases p i.paired h in
            let gone : get_elem? s.lifecycle.heap p ≡ none =
              ap (get_elem? s.lifecycle.heap) (sym ((==_iff q p).0 own)) ∙ e in
            absurd (none-some j (sym gone ∙ there))
        | inr other ↦ rw other (
            subst (λ (x : System os json). Advanced s.phases x.phases p false) same
              (same_phases s.phases p h))
      ]
  run_task-Advanced limits s s' p q res (some j) none i h e f g =
      let (ph, found) = Paired-phase s.lifecycle.heap s.phases q j i.paired e in cc
  run_task-Advanced limits s s' p q res (some j) (some ph) i h e f g =
      let (new, phases, next) = run_job-moves s s' q j ph res f g in
      subst (λ (x : List Phase). Advanced s.phases x p (q == p)) (sym phases)
        (set-Advanced s.phases p q ph new h f next)

  step-Advanced :
      (limits : LimitsConfig) (s s' : System os json) (a : Action) (p : ℕ)
      → Inv os json limits s
      → p < length s.phases
      → step os json s a ≡ some s'
      → Advanced s.phases s'.phases p (is_step_of p a)
  unfolding step
  step-Advanced limits s s' (submit req req_hash auth remote id now) p i h e =
      subst (λ (x : List Phase). Advanced s.phases x p false) (sym (phases_of _ s' e))
        (enter-Advanced (prepare_job os json s.lifecycle req req_hash auth remote id now s.fs).1
          s.phases p h)
  step-Advanced limits s s' (advance q res) p i h e =
      run_task-Advanced limits s s' p q res (get_elem? s.lifecycle.heap q) (get_elem? s.phases q) i
        h refl refl e
  step-Advanced limits s s' (cancel id) p i h e =
      subst (λ (x : List Phase). Advanced s.phases x p false) (sym (phases_of _ s' e))
        (same_phases s.phases p h)
  step-Advanced limits s s' guard p i h e =
      subst (λ (x : List Phase). Advanced s.phases x p false) (sym (phases_of _ s' e))
        (same_phases s.phases p h)
  step-Advanced limits s s' (clean_up k now) p i h e =
      subst (λ (x : List Phase). Advanced s.phases x p false)
        (sym (phases_of _ s' e ∙ run_cleaning-phases s k (get_elem? s.cleanings k) now))
        (same_phases s.phases p h)

  pub run-ranked :
      (limits : LimitsConfig) (s s' : System os json) (as' : List Action) (p : ℕ)
      → Inv os json limits s
      → p < length s.phases
      → run os json s as' ≡ some s'
      → Inv os json limits s'
        × (p < length s'.phases)
        × (rank_at s'.phases p ≡ rank_at s.phases p - count_if (is_step_of p) as')
  unfolding run
  run-ranked limits s s' [] p i h e =
      let same : s ≡ s' = cc in
      subst
        (λ (x : System os json).
          Inv os json limits x
          × (p < length x.phases)
          × (rank_at x.phases p ≡ rank_at s.phases p - 0))
        same (i, h, omega arith)
  run-ranked limits s s' (a ∷ as') p i h e =
      let (s1, stepped, i1) = step-Inv os json limits s a i in
      let moved = step-Advanced limits s s1 a p i h stepped in
      let rest : run os json s1 as' ≡ some s' = ground (arith, e, stepped) in
      let (i', there, ranked) = run-ranked limits s1 s' as' p i1 moved.there rest in
      (
        i',
        there,
        one_more (is_step_of p a) (rank_at s.phases p) (rank_at s1.phases p) (rank_at s'.phases p)
            (count_if (is_step_of p) as') moved.ranked ranked,
      )

-- From any state that a schedule reaches, whatever actions follow and however they are mixed, also
-- new requests, cancellations and cleanups: a job whose goroutine gets seven steps among them ends.
-- Nothing panics, its result is published and its goroutine is over, and the slots in use are then as
-- many as the jobs whose goroutine is not, of which it is not one.
pub run-finishes :
    (os : Os) (json : Json) (store : JobStore) (storage : StorageConfig) (limits : LimitsConfig)
    (fs : os.Fs) (actions later : List Action) (s : System os json) (p : ℕ) (j : Job)
    → run os json (init os json (new_lifecycle store storage limits) fs) actions ≡ some s
    → get_elem? s.lifecycle.heap p ≡ some j
    → 7 ≤ count_if (is_step_of p) later
    → (s' : System os json) × (j' : Job) × (run os json s later ≡ some s')
      × (get_elem? s'.lifecycle.heap p ≡ some j')
      × (get_elem? s'.phases p ≡ some released)
      × (s'.lifecycle.sem ≡ slots s'.phases)
      × (j'.done ≡ true)
      × ((r : RunResult) × (j'.result ≡ some r))
run-finishes os json store storage limits fs actions later s p j e at steps =
    let i = reached-Inv os json store storage limits fs actions s e in
    let (ph, phase) = Paired-phase s.lifecycle.heap s.phases p j i.paired at in
    let there = get_elem?-bound s.phases p ph phase in
    let (s', ran', i0) = run-Inv os json limits s later i in
    let (i', there', ranked) = run-ranked os json limits s s' later p i there ran' in
    let (j', at') = Paired-job s'.lifecycle.heap s'.phases p i'.paired there' in
    let (ph', phase') = Paired-phase s'.lifecycle.heap s'.phases p j' i'.paired at' in
    let zero_rank : rank ph' ≡ 0 =
      omega (arith, ranked, steps, rank_bound ph, ap rank_of phase, ap rank_of phase') in
    let over = phase' ∙ ap some (rank-released ph' zero_rank) in
    let agrees = Paired-Agrees s'.lifecycle.heap s'.phases p j' released i'.paired at' over in
    (s', j', ran', at', over, i'.slots_taken, agrees.done, has_result-some j'.result agrees.result)
  where
    has_result-some : (o : Option RunResult) → has_result o ≡ true → (r : RunResult) × (o ≡ some r)
    has_result-some none h = cc
    has_result-some (some r) h = (r, refl)
