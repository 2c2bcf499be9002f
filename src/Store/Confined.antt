-- ===== src/Store/Confined.antt =====
-- Where the files of a job lie.
use vpsops.Base.{
  ℕ, ◌≡◌, refl, ap, ◌⊎◌, inl, inr, Bool, true, false, Bool-cases, [], ◌∷◌, ◌++◌, ◌&&◌, ◌==◌, leb,
  length, Text, codes, text_eq, text_eq-true, leb→le, ◌<◌, ◌≤◌, is_empty, arith,
}
use vpsops.Path.{slash, is_abs, clean, join}
use vpsops.Path.Below.{IsName, Ordinary, join-below}
use vpsops.Os.{ok}
use vpsops.Store.{JobStore, is_job_id, is_job_id_char, all_of, job_dir}

is_job_id_char-slash : (c : ℕ) → is_job_id_char c ≡ true → (c == slash) ≡ false
is_job_id_char-slash c h = ground (arith, h)

and_true : (a b : Bool) → (a && b) ≡ true → (a ≡ true) × (b ≡ true)
and_true true b h = (refl, h)
and_true false b h = cc

all_of-IsName : (s : Text) → all_of is_job_id_char s ≡ true → IsName s
all_of-IsName [] h = tt
all_of-IsName (c ∷ s) h =
    let both = and_true (is_job_id_char c) (all_of is_job_id_char s) h in
    (is_job_id_char-slash c both.0, all_of-IsName s both.1)

-- A text of another length is another text.
longer_text : (s t : Text) → length t < 8 → 8 ≤ length s → text_eq s t ≡ false
longer_text s t h k = elim (Bool-cases (text_eq s t)) [
  | inl same ↦ absurd (omega (arith, h, k, ap length (text_eq-true s t same)))
  | inr other ↦ other
]

longer_is_empty : (s : Text) → 8 ≤ length s → is_empty s ≡ false
longer_is_empty [] h = absurd (omega (arith, h))
longer_is_empty (c ∷ s) h = refl

is_job_id-Ordinary : (id : Text) → is_job_id id ≡ true → Ordinary id
unfolding is_job_id
is_job_id-Ordinary id h =
    let (sized, admitted) =
      and_true (leb 8 (length id) && leb (length id) 80) (all_of is_job_id_char id) h in
    let (least, most) = and_true (leb 8 (length id)) (leb (length id) 80) sized in
    let long = leb→le 8 (length id) least in
    record {
      no_slash = all_of-IsName id admitted;
      nonempty = longer_is_empty id long;
      not_dot = longer_text id (codes ".") (omega arith) long;
      not_dots = longer_text id (codes "..") (omega arith) long;
    }

-- Whatever a client sends as a job's id: if the store makes a path of it at all, that path is the
-- cleaned directory of jobs, which is absolute, with a slash and exactly that id.
pub job_dir-below :
    (s : JobStore) (id path : Text)
    → is_abs s.dir ≡ true
    → job_dir s id ≡ ok path
    → ((clean s.dir ≡ codes "/") × (path ≡ slash ∷ id)) ⊎ (path ≡ clean s.dir ++ slash ∷ id)
unfolding job_dir
job_dir-below s id path rooted h = elim (Bool-cases (is_job_id id)) [
  | inr bad ↦ absurd (ground (arith, h, bad))
  | inl good ↦
      let same : join s.dir id ≡ path = ground (arith, h, good) in
      rw same at (join-below s.dir id rooted (is_job_id-Ordinary id good))
]
