-- ===== src/Capped/Tee.antt =====
-- The tee passes on the first `limit` bytes of what it is given, and keeps what the destination
-- already held.
use vpsops.Base.{
  ℕ, ◌+◌, ◌-◌, ◌^◌, ◌≤◌, ◌<◌, ◌≡◌, refl, sym, ◌∙◌, ◌⊎◌, inl, inr, true, false, some, List, [], ◌∷◌,
  ◌++◌, length, length-append, take, append_assoc, append-nil, Text, ℤ, pos, pos_part, ◌<ℤ◌, ◌≤ℤ◌,
  ◌+ℤ◌, ◌-ℤ◌, leb, leb→le, tests, negsuc, leb_ℤ, ltb_ℤ, ltb, wrap64, wrap64_id, Bool-cases, arith,
  int_laws, length-take,
}
use vpsops.Capped.{
  Sink, CappedTeeWriter, new_capped_tee_writer, mark_dropped, pass_on, write_tee, copy_tee,
}
use vpsops.Capped.Prefix.{
  Keeps, Outcome, Outcome-Keeps, remaining, length-Keeps, empty-Keeps, concat,
}

-- The contract of io.Writer for a destination that does not fail: it takes all of what it is given.
pub record Accepts (sink : Sink) : Type 0 where
  pub succeeds : (s : sink.State) (p : Text) → (sink.write s p).1 ≡ true
  pub appends :
      (s : sink.State) (p : Text) → sink.contents (sink.write s p).0 ≡ sink.contents s ++ p

limit_fits : (limit : ℤ) → limit <ℤ pos (2 ^ 63) → pos_part limit < 2 ^ 63
limit_fits (pos n) h = omega arith
limit_fits (negsuc n) h = omega arith

counted_sum :
    (kept q : Text)
    → length kept + length q < 2 ^ 63
    → wrap64 (pos (length kept) +ℤ pos (length q)) ≡ pos (length (kept ++ q))
counted_sum kept q h =
    let e : pos (length kept) +ℤ pos (length q) ≡ pos (length (kept ++ q)) =
      omega (int_laws, length-append kept q) in
    rw e (wrap64_id _ (omega (arith, length-append kept q)) (omega arith))

module _ (sink : Sink) (law : Accepts sink) (before : Text) where
  -- What the tee has passed on is `kept`, after what the destination held before.
  pub record TeeKeeps (given kept : Text) (w : CappedTeeWriter sink.State) : Type 0 where
    pub keeps : Keeps w.limit given kept w.truncated
    pub counted : w.written ≡ pos (length kept)
    pub passed : sink.contents w.dst ≡ before ++ kept

  -- The step of Write that hands bytes over.
  pass_on-passes :
      (w : CappedTeeWriter sink.State) (q p kept : Text)
      → w.written ≡ pos (length kept)
      → sink.contents w.dst ≡ before ++ kept
      → length kept + length q < 2 ^ 63
      → let r = pass_on sink w q p in
        (r.1 ≡ some (length p))
        × (r.0.written ≡ pos (length (kept ++ q)))
        × (sink.contents r.0.dst ≡ before ++ (kept ++ q))
        × (r.0.limit ≡ w.limit)
        × (r.0.truncated ≡ w.truncated)
  unfolding pass_on
  pass_on-passes w [] p kept c d h = (refl, rw append-nil c, rw append-nil d, refl, refl)
  pass_on-passes w (x ∷ q) p kept c d h = ground (
    arith,
    law.succeeds w.dst (x ∷ q),
    law.appends w.dst (x ∷ q),
    counted_sum kept (x ∷ q) h,
    append_assoc before kept (x ∷ q),
  )

  -- Write, in the three cases of a chunk that starts behind `k` bytes.
  module _ (w : CappedTeeWriter sink.State) (p : Text) (k : ℕ) (l : w.limit <ℤ pos (2 ^ 63))
      (h : k ≤ pos_part w.limit) (c : w.written ≡ pos k) where
    room : (w.limit ≤ℤ pos 0) ⊎ (wrap64 (w.limit -ℤ w.written) ≡ pos (pos_part w.limit - k))
    room = rw c (remaining w.limit k h l)

    write_tee_full :
        pos_part w.limit ≤ k
        → write_tee sink w p
          ≡ (record w { truncated = mark_dropped p w.truncated }, some (length p))
    unfolding write_tee leb_ℤ ltb_ℤ
    write_tee_full f = ground (arith, room)

    write_tee_cut :
        k < pos_part w.limit
        → pos_part w.limit - k < length p
        → write_tee sink w p
          ≡ pass_on sink (record w { truncated = true }) (take (pos_part w.limit - k) p) p
    unfolding write_tee leb_ℤ ltb_ℤ
    write_tee_cut f g = ground (arith, room)

    write_tee_whole :
        k < pos_part w.limit
        → k + length p ≤ pos_part w.limit
        → write_tee sink w p ≡ pass_on sink w p p
    unfolding write_tee leb_ℤ ltb_ℤ
    write_tee_whole f g = ground (arith, room)

  -- Each write of a chunk succeeds and keeps the tee in step with what it was given.
  write_tee-TeeKeeps :
      (w : CappedTeeWriter sink.State) (given kept p : Text)
      → w.limit <ℤ pos (2 ^ 63)
      → TeeKeeps given kept w
      → let r = write_tee sink w p in
        (kept' : Text) × TeeKeeps (given ++ p) kept' r.0
        × (r.1 ≡ some (length p))
        × (r.0.limit ≡ w.limit)
  write_tee-TeeKeeps w given kept p l h = split (Bool-cases (leb n (length kept)))
    where
      n : ℕ
      n = pos_part w.limit

      fits : length kept ≤ n
      fits = length-Keeps w.limit given kept w.truncated h.keeps

      -- What pass_on does to `v`, which is `w` but for the mark.
      passed_on :
          (v : CappedTeeWriter sink.State) (q : Text)
          → write_tee sink w p ≡ pass_on sink v q p
          → v.written ≡ w.written
          → sink.contents v.dst ≡ sink.contents w.dst
          → v.limit ≡ w.limit
          → length kept + length q < 2 ^ 63
          → Outcome n kept p (kept ++ q) w.truncated v.truncated
          → let r = write_tee sink w p in
            (kept' : Text) × TeeKeeps (given ++ p) kept' r.0
            × (r.1 ≡ some (length p))
            × (r.0.limit ≡ w.limit)
      passed_on v q e cv dv lv b o =
          let (done, counts, contains, same, mark) =
            pass_on-passes v q p kept (cv ∙ h.counted) (dv ∙ h.passed) b in
          let keeps =
            Outcome-Keeps w.limit given kept p (kept ++ q) w.truncated v.truncated h.keeps o in
          (
            kept ++ q,
            rw e (record {
              keeps = rw (same ∙ lv, mark) keeps;
              counted = counts;
              passed = contains;
            }),
            rw e done,
            rw e (same ∙ lv),
          )

      split :
          ((leb n (length kept) ≡ true) ⊎ (leb n (length kept) ≡ false))
          → let r = write_tee sink w p in
            (kept' : Text) × TeeKeeps (given ++ p) kept' r.0
            × (r.1 ≡ some (length p))
            × (r.0.limit ≡ w.limit)
      split (inl full) =
          let le : n ≤ length kept = leb→le _ _ full in
          let e = write_tee_full w p (length kept) l fits h.counted le in
          let keeps =
            Outcome-Keeps w.limit given kept p kept w.truncated _ h.keeps (inl (le, refl, refl)) in
          (
            kept,
            rw e (record { keeps = keeps; counted = h.counted; passed = h.passed }),
            rw e refl,
            rw e refl,
          )
      split (inr open_) =
          let below : length kept < n = ground arith in
          elim (Bool-cases (ltb (n - length kept) (length p))) [
            | inl cut ↦
                passed_on (record w { truncated = true }) (take (n - length kept) p)
                  (write_tee_cut w p (length kept) l fits h.counted (ground arith) (ground arith))
                  refl refl refl
                  (omega (tests, length-take (n - length kept) p, limit_fits w.limit l))
                  (inr (inl (ground arith, ground arith, refl, refl)))
            | inr whole ↦
                passed_on w p
                  (write_tee_whole w p (length kept) l fits h.counted (ground arith) (ground arith))
                  refl refl refl (ground (arith, limit_fits w.limit l))
                  (inr (inr (ground arith, ground arith, refl, refl)))
          ]

  copy_tee-cons :
      (w : CappedTeeWriter sink.State) (p : Text) (ps : List Text) (k : ℕ)
      → (write_tee sink w p).1 ≡ some k
      → copy_tee sink w (p ∷ ps) ≡ copy_tee sink (write_tee sink w p).0 ps
  unfolding copy_tee
  copy_tee-cons w p ps k e = ground arith

  copy_tee-TeeKeeps :
      (w : CappedTeeWriter sink.State) (given kept : Text) (ps : List Text)
      → w.limit <ℤ pos (2 ^ 63)
      → TeeKeeps given kept w
      → let r = copy_tee sink w ps in
        (kept' : Text) × TeeKeeps (given ++ concat ps) kept' r.0
        × (r.1 ≡ true)
        × (r.0.limit ≡ w.limit)
  unfolding copy_tee
  copy_tee-TeeKeeps w given kept [] l h = (kept, rw append-nil h, refl, refl)
  copy_tee-TeeKeeps w given kept (p ∷ ps) l h =
      let (kept1, h1, done, same) = write_tee-TeeKeeps w given kept p l h in
      let (kept2, h2, all_done, same2) =
        copy_tee-TeeKeeps (write_tee sink w p).0 (given ++ p) kept1 ps (rw same l) h1 in
      let step = copy_tee-cons w p ps (length p) done in
      (kept2, rw (step, ← append_assoc) h2, rw step all_done, rw step (same2 ∙ same))

-- A whole stream copied through a new tee with an int64 limit, onto a destination that accepts its
-- writes: the copy ends without an error, the destination gains the first `limit` bytes of the
-- stream and nothing else, and the tee reports truncation exactly when there were more.
pub copy_tee-concat :
    (sink : Sink) (dst : sink.State) (limit : ℤ) (ps : List Text)
    → Accepts sink
    → limit <ℤ pos (2 ^ 63)
    → let r = copy_tee sink (new_capped_tee_writer sink dst limit) ps in
      (r.1 ≡ true)
      × (sink.contents r.0.dst ≡ sink.contents dst ++ take (pos_part limit) (concat ps))
      × (r.0.truncated ≡ ltb (pos_part limit) (length (concat ps)))
unfolding new_capped_tee_writer
copy_tee-concat sink dst limit ps law l =
    let start : TeeKeeps sink law (sink.contents dst) [] [] (new_capped_tee_writer sink dst limit) =
      record { keeps = empty-Keeps limit; counted = refl; passed = sym (append-nil _) } in
    let (kept, h, done, same) =
      copy_tee-TeeKeeps sink law (sink.contents dst) (new_capped_tee_writer sink dst limit) [] [] ps
        l start in
    let keeps = rw same at h.keeps in (done, rw (← keeps.is_prefix) h.passed, keeps.reports)
