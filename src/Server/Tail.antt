-- ===== src/Server/Tail.antt =====
-- What a client gets of a job's output.
use vpsops.Base.{min, ◌≡◌, ◌⊎◌, inl, ◌++◌, length, Text, ℤ, pos, pos_part, ◌≤ℤ◌, ltb_ℤ, arith}
use vpsops.Os.{Os}
use vpsops.Lifecycle.{Lifecycle}
use vpsops.Http.{Request, Packages, parse_tail_bytes}

-- The number that parseTailBytes accepts.
pub parse_tail_bytes-Within :
    (net : Packages) (r : Request) (most n : ℤ)
    → parse_tail_bytes net r most ≡ inl n
    → (pos 0 ≤ℤ n) × ((most ≤ℤ pos 0) ⊎ (n ≤ℤ most))
unfolding parse_tail_bytes ltb_ℤ
parse_tail_bytes-Within net r most n h = ground (arith, h)

-- The end of a text, at most `n` bytes of it unless `n` is 0.
abbrev pub IsTail : ℤ → Text → Text → Type 0
IsTail n whole b =
    ((n ≡ pos 0) × (b ≡ whole))
    ⊎ ((before : Text) × (whole ≡ before ++ b)
        × (pos (length b) ≡ pos (min (pos_part n) (length whole))))
