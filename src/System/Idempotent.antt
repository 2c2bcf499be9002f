-- ===== src/System/Idempotent.antt =====
-- A request that is sent again under its idempotency key, whatever has happened in between.
use vpsops.Base.{
  ℕ, ◌≡◌, refl, sym, ap, ◌∙◌, true, false, some, List, count_if, get_elem?, is_empty, if◌then◌else◌,
  Text, text_eq, lookup, ℤ,
}
use vpsops.Types.{RunRequest, AuthInfo, StorageConfig, LimitsConfig}
use vpsops.Os.{Os, Json}
use vpsops.Store.{JobStore}
use vpsops.Lifecycle.{
  Lifecycle, prepared, refused, idempotency_conflict, idempotency_index_key, new_lifecycle, entry,
  new_job, reusable, prepare_job,
}
use vpsops.Lifecycle.Locks.{entry-some}
use vpsops.Lifecycle.Idempotency.{
  entry-register, prepare_job-admitted, prepare_job-at, prepare_job-again,
}
use vpsops.System.{System, Action, submit, step, run, init}
use vpsops.System.Paired.{Paired-phase}
use vpsops.System.Invariant.{Inv}
use vpsops.System.Reach.{reached-Inv}
use vpsops.System.Cancel.{some_eq}
use vpsops.System.Acknowledged.{step_to-Inv}
use vpsops.System.Named.{is_cleanup, entry_found, Named, run-Named}

module _ (os : Os) (json : Json) (limits : LimitsConfig) (p : ℕ) (h key : Text) where
  -- The job that a request has made.
  submit-Named :
      (s s1 : System os json) (req : RunRequest) (auth : AuthInfo) (remote id : Text) (now : ℤ)
      → Inv os json limits s1
      → is_empty req.idempotency_key ≡ false
      → key ≡ idempotency_index_key auth.token_id req.idempotency_key
      → (prepare_job os json s.lifecycle req h auth remote id now s.fs).1 ≡ prepared p false
      → step os json s (submit req h auth remote id now) ≡ some s1
      → Named os json limits p h key s1
  unfolding step new_job
  submit-Named s s1 req auth remote id now i1 keyed same made e =
      let out = prepare_job os json s.lifecycle req h auth remote id now s.fs in
      let whole : out ≡ (out.0, prepared p false, out.2) = (λ i. (out.0, made i, out.2)) in
      let l_s1 : out.0 ≡ s1.lifecycle = ap (λ (x : System os json). x.lifecycle) (some_eq e) in
      let j = new_job id req.lock_key h auth remote now in
      let at : get_elem? s1.lifecycle.heap p ≡ some j =
        ap (λ (l : Lifecycle). get_elem? l.heap p) (sym l_s1)
        ∙ prepare_job-at os json s.lifecycle out.0 req h auth remote id now s.fs out.2 p whole in
      let (ph, at_ph) = Paired-phase s1.lifecycle.heap s1.phases p j i1.paired at in
      let (l1, new, last) =
        prepare_job-admitted os json s.lifecycle out.0 req h auth remote id now s.fs out.2 p
          whole in
      let named : entry key out.0.idempotency out.0.heap ≡ some (p, j) =
        rw (same, new, last) (entry-register l1 req j keyed) in
      record {
        job = record { job = j; phase = ph; at_heap = at; at_phases = at_ph; sticks = refl };
        index =
            ap (λ (l : Lifecycle). lookup key l.idempotency) (sym l_s1)
            ∙ (entry-some key out.0.idempotency out.0.heap p j named).0;
      }

-- In a state that a schedule reaches, let a token's request with an idempotency key make job `p`.
-- After any further schedule without a step of cleanupJobs, with requests, cancellations and the
-- steps of every job mixed in any way, that token's next request with that key, from anywhere, at any
-- time and with any file system, changes nothing: it is given job `p` again if its hash is the first
-- one's, and refused as a conflict if not.
pub submit-idempotent :
    (os : Os) (json : Json) (store : JobStore) (storage : StorageConfig) (limits : LimitsConfig)
    (fs fs2 : os.Fs) (before later : List Action) (s s1 s2 : System os json) (req req2 : RunRequest)
    (h h2 : Text) (auth : AuthInfo) (remote remote2 id id2 : Text) (now now2 : ℤ) (p : ℕ)
    → run os json (init os json (new_lifecycle store storage limits) fs) before ≡ some s
    → is_empty req.idempotency_key ≡ false
    → req2.idempotency_key ≡ req.idempotency_key
    → (prepare_job os json s.lifecycle req h auth remote id now s.fs).1 ≡ prepared p false
    → step os json s (submit req h auth remote id now) ≡ some s1
    → run os json s1 later ≡ some s2
    → count_if is_cleanup later ≡ 0
    → prepare_job os json s2.lifecycle req2 h2 auth remote2 id2 now2 fs2
      ≡ (s2.lifecycle, if text_eq h h2 then prepared p true else refused idempotency_conflict, fs2)
submit-idempotent os json store storage limits fs fs2 before later s s1 s2 req req2 h h2 auth remote
      remote2 id id2 now now2 p reached keyed same made sent ran_on calm =
    let key = idempotency_index_key auth.token_id req.idempotency_key in
    let i = reached-Inv os json store storage limits fs before s reached in
    let i1 = step_to-Inv os json limits s s1 (submit req h auth remote id now) i sent in
    let n1 =
      submit-Named os json limits p h key s s1 req auth remote id now i1 keyed refl made sent in
    let n = run-Named os json limits p h key s1 s2 later i1 n1 calm ran_on in
    let found : reusable os json s2.lifecycle req2 auth ≡ some (p, n.job.job) =
      rw (same, keyed)
        (entry_found key s2.lifecycle.idempotency s2.lifecycle.heap p n.job.job n.index
          n.job.at_heap) in
    prepare_job-again os json s2.lifecycle req2 h2 auth remote2 id2 now2 fs2 p n.job.job found
    ∙ rw n.job.sticks refl
