-- ===== src/Path.antt =====
-- What the program uses of package path/filepath on Unix, on byte strings.
pub mod Below
use vpsops.Base.{
  ℕ, Bool, false, List, [], ◌∷◌, ◌++◌, reverse, ◌==◌, ◌||◌, if◌then◌else◌, Text, codes, text_eq,
  is_empty, ◌≡◌, refl,
}

abbrev pub slash : ℕ
slash = b'/'

-- The parts between slashes, `part` being the reversed start of the first one.
unfoldable pub split_slash : Text → Text → List Text
split_slash part [] = reverse part ∷ []
split_slash part (c ∷ s) =
    let more = split_slash (if c == slash then [] else c ∷ part) s in
    if c == slash then reverse part ∷ more else more

unfoldable pub join_slash : List Text → Text
join_slash [] = []
join_slash (p ∷ []) = p
join_slash (p ∷ q ∷ ps) = p ++ (slash ∷ join_slash (q ∷ ps))

-- One element of filepath.Clean, the result kept newest first: empty parts and `.` vanish, and `..`
-- takes the part before it away; at the root it vanishes, and at the start of a relative path it stays.
unfoldable pub clean_part : Bool → List Text → Text → List Text
clean_part rooted kept part =
    if is_empty part || text_eq part (codes ".")
    then kept
    else if text_eq part (codes "..")
    then elim kept [
      | [] ↦ if rooted then [] else part ∷ []
      | top ∷ rest ↦ if text_eq top (codes "..") then part ∷ top ∷ rest else rest
    ]
    else part ∷ kept

unfoldable pub clean_parts : Bool → List Text → List Text → List Text
clean_parts rooted kept [] = kept
clean_parts rooted kept (p ∷ ps) = clean_parts rooted (clean_part rooted kept p) ps

-- filepath.IsAbs
unfoldable pub is_abs : Text → Bool
is_abs [] = false
is_abs (c ∷ s) = c == slash

-- filepath.Clean
unfoldable pub clean : Text → Text
unfolding split_slash join_slash clean_part clean_parts is_abs
clean path =
    let rooted = is_abs path in
    let parts = join_slash (reverse (clean_parts rooted [] (split_slash [] path))) in
    if rooted then slash ∷ parts else if is_empty parts then codes "." else parts

-- filepath.Join(dir, name), where neither is empty
unfoldable pub join : Text → Text → Text
unfolding clean
join dir name = clean (dir ++ (slash ∷ name))

clean_dots : clean (codes "/var//lib/../log/./x/") ≡ codes "/var/log/x"
unfolding clean text_eq
clean_dots = refl

clean_relative : clean (codes "../a/../..") ≡ codes "../.."
unfolding clean text_eq
clean_relative = refl

clean_root : clean (codes "/../") ≡ codes "/"
unfolding clean text_eq
clean_root = refl
