-- ===== src/Capped.antt =====
-- internal/execd/capped.go: the writers that bound what is kept of a command's output. A method on
-- a pointer returns the new value; the destination of a `CappedTeeWriter` is an `io.Writer`, which
-- is a parameter.
pub mod Prefix
pub mod Tee
mod Tests
use vpsops.Base.{
  ℕ, Bool, true, false, Option, none, some, List, [], ◌∷◌, ◌++◌, length, take, Text, ℤ, pos,
  pos_part, ◌+ℤ◌, ◌-ℤ◌, ltb, leb_ℤ, ltb_ℤ, wrap64, if◌then◌else◌,
}

pub record CappedBuffer : Type 0 where
  pub buf : Text
  pub limit : ℤ  -- int64
  pub written : ℤ  -- int64
  pub truncated : Bool

-- newCappedBuffer
unfoldable pub new_capped_buffer : ℤ → CappedBuffer
new_capped_buffer limit = record { buf = []; limit = limit; written = pos 0; truncated = false }

-- if len(p) > 0 { truncated = true }
abbrev pub mark_dropped : Text → Bool → Bool
mark_dropped p truncated = if ltb 0 (length p) then true else truncated

-- (*cappedBuffer).Write: the number that it reports is always len(p), and the error always nil.
unfoldable pub write_buffer : CappedBuffer → Text → CappedBuffer × ℕ
write_buffer b p =
    let counted = record b { written = wrap64 (b.written +ℤ pos (length p)) } in
    let remaining = wrap64 (b.limit -ℤ pos (length b.buf)) in
    if leb_ℤ b.limit (pos 0)
    then (record counted { truncated = mark_dropped p b.truncated }, length p)
    else if leb_ℤ remaining (pos 0)
    then (record counted { truncated = mark_dropped p b.truncated }, length p)
    else if ltb_ℤ remaining (pos (length p))
    then (record counted { buf = b.buf ++ take (pos_part remaining) p; truncated = true }, length p)
    else (record counted { buf = b.buf ++ p }, length p)

-- The writes of one output stream, one after the other.
unfoldable pub write_all : CappedBuffer → List Text → CappedBuffer
write_all b [] = b
write_all b (p ∷ ps) = write_all (write_buffer b p).0 ps

-- An io.Writer: the new state of the destination, and whether the write went through. What it has
-- taken so far is `contents`; a write that goes through appends to it.
pub record Sink : Type 1 where
  pub State : Type 0
  pub write : State → Text → State × Bool
  pub contents : State → Text

pub record CappedTeeWriter (S : Type 0) : Type 0 where
  pub dst : S
  pub limit : ℤ  -- int64
  pub written : ℤ  -- int64
  pub truncated : Bool

module _ (sink : Sink) where
  open sink use {State, write}

  -- newCappedTeeWriter
  unfoldable pub new_capped_tee_writer : State → ℤ → CappedTeeWriter State
  new_capped_tee_writer dst limit = record {
    dst = dst;
    limit = limit;
    written = pos 0;
    truncated = false;
  }

  -- The end of Write, `toWrite` being what still fits: `none` is the destination's error.
  unfoldable pub pass_on : CappedTeeWriter State → Text → Text → CappedTeeWriter State × Option ℕ
  pass_on w to_write p =
      if ltb 0 (length to_write)
      then (let (dst', done) = write w.dst to_write in
          if done
          then (
            record w { dst = dst'; written = wrap64 (w.written +ℤ pos (length to_write)) },
            some (length p),
          )
          else (record w { dst = dst' }, none))
      else (w, some (length p))

  -- (*cappedTeeWriter).Write
  unfoldable pub write_tee : CappedTeeWriter State → Text → CappedTeeWriter State × Option ℕ
  unfolding pass_on
  write_tee w p =
      let remaining = wrap64 (w.limit -ℤ w.written) in
      if leb_ℤ w.limit (pos 0)
      then (record w { truncated = mark_dropped p w.truncated }, some (length p))
      else if leb_ℤ remaining (pos 0)
      then (record w { truncated = mark_dropped p w.truncated }, some (length p))
      else if ltb_ℤ remaining (pos (length p))
      then pass_on (record w { truncated = true }) (take (pos_part remaining) p) p
      else pass_on w p p

  -- io.Copy into the writer: it stops at the first error.
  unfoldable pub copy_tee : CappedTeeWriter State → List Text → CappedTeeWriter State × Bool
  copy_tee w [] = (w, true)
  copy_tee w (p ∷ ps) =
      let rest = copy_tee (write_tee w p).0 ps in
      elim (write_tee w p).1 [ none ↦ ((write_tee w p).0, false) | some n ↦ rest ]
