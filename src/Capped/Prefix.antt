-- ===== src/Capped/Prefix.antt =====
-- Both writers keep exactly the first `limit` bytes of what they are given, however it is cut.
use vpsops.Base.{
  ℕ, zero, suc, ◌+◌, ◌-◌, ◌^◌, ◌≤◌, ◌<◌, min, ◌≡◌, refl, sym, ap, ◌∙◌, ◌⊎◌, inl, inr, Bool, true,
  false, List, [], ◌∷◌, ◌++◌, length, length-append, length-take, take, take_all, take-append,
  append_assoc, append-nil, Text, ℤ, pos, negsuc, pos_part, ◌<ℤ◌, ◌≤ℤ◌, ◌-ℤ◌, leb_ℤ, ltb_ℤ, wrap64,
  wrap64_id, ltb, arith, int_laws,
}
use vpsops.Capped.{CappedBuffer, new_capped_buffer, mark_dropped, write_buffer, write_all}

-- The chunks put together.
abbrev pub concat : List Text → Text
concat [] = []
concat (p ∷ ps) = p ++ concat ps

-- What a writer has kept of `given`: its first `limit` bytes, and whether that is less than all.
pub record Keeps (limit : ℤ) (given kept : Text) (truncated : Bool) : Type 0 where
  pub is_prefix : kept ≡ take (pos_part limit) given
  pub reports : truncated ≡ ltb (pos_part limit) (length given)

module _ (limit : ℤ) (given kept p : Text) (truncated : Bool)
    (h : Keeps limit given kept truncated) where
  length_kept : length kept ≡ min (pos_part limit) (length given)
  length_kept = ap length h.is_prefix ∙ length-take (pos_part limit) given

  kept_append : take (pos_part limit) (given ++ p) ≡ kept ++ take (pos_part limit - length given) p
  kept_append =
      take-append (pos_part limit) given p
      ∙ ap (λ t. t ++ take (pos_part limit - length given) p) (sym h.is_prefix)

  -- No room is left: the chunk is dropped.
  Keeps-dropped :
      pos_part limit ≤ length given → Keeps limit (given ++ p) kept (mark_dropped p truncated)
  Keeps-dropped full = record {
    is_prefix =
        let e : pos_part limit - length given ≡ 0 = omega arith in
        sym (kept_append ∙ rw e (append-nil kept));
    reports = ground (arith, h.reports, length-append given p);
  }

  -- Only a part of the chunk fits.
  Keeps-cut :
      (n : ℕ)
      → n + length kept ≡ pos_part limit
      → length given ≤ pos_part limit
      → n < length p
      → Keeps limit (given ++ p) (kept ++ take n p) true
  Keeps-cut n e f l = record {
    is_prefix =
        let r : pos_part limit - length given ≡ n = omega (arith, length_kept) in
        sym (kept_append ∙ rw r);
    reports = ground (arith, length_kept, length-append given p);
  }

  -- The chunk fits.
  Keeps-whole :
      length given + length p ≤ pos_part limit → Keeps limit (given ++ p) (kept ++ p) truncated
  Keeps-whole fits = record {
    is_prefix = sym (kept_append ∙ ap (λ t. kept ++ t) (take_all _ p (omega arith)));
    reports = ground (arith, h.reports, length-append given p);
  }

-- With what is kept within the limit, the room left is computed without wrapping.
pub remaining-eq : (n k : ℕ) → k ≤ n → n < 2 ^ 63 → wrap64 (pos n -ℤ pos k) ≡ pos (n - k)
remaining-eq n k h l =
    let e : pos n -ℤ pos k ≡ pos (n - k) = omega int_laws in
    rw e (wrap64_id (pos (n - k)) (omega arith) (omega arith))

-- The same for a limit of either sign.
pub remaining :
    (limit : ℤ) (k : ℕ)
    → k ≤ pos_part limit
    → limit <ℤ pos (2 ^ 63)
    → (limit ≤ℤ pos 0) ⊎ (wrap64 (limit -ℤ pos k) ≡ pos (pos_part limit - k))
remaining (pos n) k h l = inr (remaining-eq n k h (omega arith))
remaining (negsuc n) k h l = inl (omega arith)

-- The three things that a write does with a chunk, of what was kept before.
abbrev pub Outcome : ℕ → Text → Text → Text → Bool → Bool → Type 0
Outcome n kept p kept' truncated truncated' =
    ((n ≤ length kept) × (kept' ≡ kept) × (truncated' ≡ mark_dropped p truncated))
    ⊎ ((length kept < n)
        × (n - length kept < length p)
        × (kept' ≡ kept ++ take (n - length kept) p)
        × (truncated' ≡ true))
    ⊎ ((length kept < n)
        × (length kept + length p ≤ n)
        × (kept' ≡ kept ++ p)
        × (truncated' ≡ truncated))

pub Outcome-Keeps :
    (limit : ℤ) (given kept p kept' : Text) (truncated truncated' : Bool)
    → Keeps limit given kept truncated
    → Outcome (pos_part limit) kept p kept' truncated truncated'
    → Keeps limit (given ++ p) kept' truncated'
Outcome-Keeps limit given kept p kept' t t' h (inl (full, e, f)) =
    rw (e, f)
      (Keeps-dropped limit given kept p t h (omega (arith, length_kept limit given kept p t h)))
Outcome-Keeps limit given kept p kept' t t' h (inr (inl (le, cut, e, f))) =
    rw (e, f)
      (Keeps-cut limit given kept p t h (pos_part limit - length kept) (omega arith)
        (omega (arith, length_kept limit given kept p t h)) cut)
Outcome-Keeps limit given kept p kept' t t' h (inr (inr (open_, fits, e, f))) =
    rw (e, f)
      (Keeps-whole limit given kept p t h (omega (arith, length_kept limit given kept p t h)))

write_buffer-Outcome :
    (b : CappedBuffer) (p : Text)
    → b.limit <ℤ pos (2 ^ 63)
    → length b.buf ≤ pos_part b.limit
    → let b' = (write_buffer b p).0 in
      Outcome (pos_part b.limit) b.buf p b'.buf b.truncated b'.truncated
unfolding write_buffer leb_ℤ ltb_ℤ
write_buffer-Outcome b p h k = ground (arith, remaining b.limit (length b.buf) k h)

pub limit-write_buffer : (b : CappedBuffer) (p : Text) → (write_buffer b p).0.limit ≡ b.limit
unfolding write_buffer
limit-write_buffer b p = ground arith

pub empty-Keeps : (limit : ℤ) → Keeps limit [] [] false
empty-Keeps limit = record { is_prefix = empty_take (pos_part limit); reports = ground arith }
  where
    empty_take : (n : ℕ) → ◌≡◌ {A = Text} [] (take n [])
    empty_take zero = refl
    empty_take (suc n) = refl

-- The invariant of a buffer that was given `given` so far.
abbrev pub BufferKeeps : Text → CappedBuffer → Type 0
BufferKeeps given b = Keeps b.limit given b.buf b.truncated

pub length-Keeps :
    (limit : ℤ) (given kept : Text) (truncated : Bool)
    → Keeps limit given kept truncated
    → length kept ≤ pos_part limit
length-Keeps limit given kept t h = omega (arith, length_kept limit given kept [] t h)

pub write_buffer-Keeps :
    (b : CappedBuffer) (given p : Text)
    → b.limit <ℤ pos (2 ^ 63)
    → BufferKeeps given b
    → BufferKeeps (given ++ p) (write_buffer b p).0
write_buffer-Keeps b given p h k = rw limit-write_buffer (
    Outcome-Keeps b.limit given b.buf p _ b.truncated _ k
      (write_buffer-Outcome b p h (length-Keeps b.limit given b.buf b.truncated k)))

write_all-Keeps :
    (b : CappedBuffer) (given : Text) (ps : List Text)
    → b.limit <ℤ pos (2 ^ 63)
    → BufferKeeps given b
    → BufferKeeps (given ++ concat ps) (write_all b ps) × ((write_all b ps).limit ≡ b.limit)
unfolding write_all
write_all-Keeps b given [] h k = (rw append-nil k, refl)
write_all-Keeps b given (p ∷ ps) h k =
    let b' = (write_buffer b p).0 in
    let e = limit-write_buffer b p in
    let (keeps, same) =
      write_all-Keeps b' (given ++ p) ps (rw e h) (write_buffer-Keeps b given p h k) in
    (rw (← append_assoc) keeps, same ∙ e)

-- After any writes to a new buffer with an int64 limit it holds the first `limit` bytes of their
-- concatenation (none for a negative limit), and is marked truncated exactly when there were more.
pub write_all-concat :
    (limit : ℤ) (ps : List Text)
    → limit <ℤ pos (2 ^ 63)
    → ((write_all (new_capped_buffer limit) ps).buf ≡ take (pos_part limit) (concat ps))
      × ((write_all (new_capped_buffer limit) ps).truncated
          ≡ ltb (pos_part limit) (length (concat ps)))
unfolding new_capped_buffer
write_all-concat limit ps h =
    let (k, e) = write_all-Keeps (new_capped_buffer limit) [] ps h (empty-Keeps limit) in
    let k' = rw e at k in (k'.is_prefix, k'.reports)
