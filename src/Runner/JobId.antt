-- ===== src/Runner/JobId.antt =====
-- The ids that newJobID makes.
use vpsops.Base.{
  ℕ, ◌*◌, ◌/◌, ◌%◌, ◌<◌, ◌≡◌, refl, Bool, true, Option, none, some, List, [], ◌∷◌, ◌++◌, length,
  length-append, Text, arith, All,
}
use vpsops.Store.{is_job_id, is_job_id_char, is_alphanumeric, all_of}
use vpsops.Runner.{hex_digit, hex_encode, new_job_id}

all_of-append :
    (p : ℕ → Bool) (s t : Text) → all_of p s ≡ true → all_of p t ≡ true → all_of p (s ++ t) ≡ true
all_of-append p [] t h k = k
all_of-append p (c ∷ s) t h k = ground (arith, h, all_of-append p s t, k)

all_of-weaken : (s : Text) → all_of is_alphanumeric s ≡ true → all_of is_job_id_char s ≡ true
all_of-weaken [] h = refl
all_of-weaken (c ∷ s) h = ground (arith, h, all_of-weaken s)

hex_digit-admitted : (n : ℕ) → n < 16 → is_job_id_char (hex_digit n) ≡ true
hex_digit-admitted n h = ground (arith, h)

hex_encode-admitted :
    (b : List ℕ) → All (λ (c : ℕ). c < 256) b → all_of is_job_id_char (hex_encode b) ≡ true
hex_encode-admitted [] h = refl
hex_encode-admitted (c ∷ b) (small, rest) =
    let high : c / 16 < 16 = omega (arith, small) in
    let low : c % 16 < 16 = omega arith in
    rw (hex_digit-admitted (c / 16) high, hex_digit-admitted (c % 16) low)
      (hex_encode-admitted b rest)

length-hex_encode : (b : List ℕ) → length (hex_encode b) ≡ length b * 2
length-hex_encode [] = refl
length-hex_encode (c ∷ b) = omega (arith, length-hex_encode b)

-- What rand.Reader gives: an error, or eight bytes.
abbrev pub EightBytes : Option (List ℕ) → Type 0
EightBytes none = Unit
EightBytes (some b) = (length b ≡ 8) × All (λ (c : ℕ). c < 256) b

-- Every id that newJobID makes of a time's text of 15 letters and digits, and of no or eight random
-- bytes, is one that the pattern of job ids admits.
pub new_job_id-admitted :
    (now : Text) (random : Option (List ℕ))
    → length now ≡ 15
    → all_of is_alphanumeric now ≡ true
    → EightBytes random
    → is_job_id (new_job_id now random) ≡ true
unfolding new_job_id is_job_id
new_job_id-admitted now none sized text u = rw (all_of-weaken now text) (ground (arith, sized))
new_job_id-admitted now (some b) sized text (eight, bytes) =
    let rest =
      all_of-append is_job_id_char now (b'-' ∷ hex_encode b) (all_of-weaken now text)
        (hex_encode-admitted b bytes) in
    let size : length (now ++ b'-' ∷ hex_encode b) ≡ 32 =
      omega (arith, length-append now (b'-' ∷ hex_encode b), length-hex_encode b, sized, eight) in
    rw (rest, size) refl
