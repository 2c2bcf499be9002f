-- ===== src/Path/Below.antt =====
-- What filepath.Join gives for a directory and one name.
use vpsops.Base.{
  ℕ, ◌≡◌, refl, ap, ◌∙◌, ◌⊎◌, inl, inr, Bool, true, false, Bool-cases, List, [], ◌∷◌, ◌++◌, reverse,
  append_assoc, append-nil, ◌==◌, Text, codes, text_eq, is_empty, All,
}
use mathlib.Core.List.{reverse-cons}
use vpsops.Path.{slash, split_slash, join_slash, clean_part, clean_parts, is_abs, clean, join}

-- No byte is a slash.
abbrev pub IsName : Text → Type 0
IsName = All (λ (c : ℕ). (c == slash) ≡ false)

split_slash-append :
    (part s t : Text) → split_slash part (s ++ slash ∷ t) ≡ split_slash part s ++ split_slash [] t
unfolding split_slash
split_slash-append part [] t = refl
split_slash-append part (c ∷ s) t = elim (Bool-cases (c == slash)) [
  | inl here ↦ rw here (ap (◌∷◌ (reverse part)) (split_slash-append [] s t))
  | inr other ↦ rw other (split_slash-append (c ∷ part) s t)
]

split_slash-name : (part t : Text) → IsName t → split_slash part t ≡ (reverse part ++ t) ∷ []
unfolding split_slash
split_slash-name part [] h = rw (append-nil (reverse part)) refl
split_slash-name part (c ∷ s) (here, h) =
    rw
      (
        here,
        split_slash-name (c ∷ part) s h,
        reverse-cons c part,
        append_assoc (reverse part) (c ∷ []) s,
      )
      refl

clean_parts-append :
    (rooted : Bool) (kept xs ys : List Text)
    → clean_parts rooted kept (xs ++ ys) ≡ clean_parts rooted (clean_parts rooted kept xs) ys
unfolding clean_parts
clean_parts-append rooted kept [] ys = refl
clean_parts-append rooted kept (x ∷ xs) ys =
    clean_parts-append rooted (clean_part rooted kept x) xs ys

join_slash-append :
    (p q : Text) (ps : List Text)
    → join_slash ((p ∷ ps) ++ q ∷ []) ≡ join_slash (p ∷ ps) ++ slash ∷ q
unfolding join_slash
join_slash-append p q [] = refl
join_slash-append p q (r ∷ ps) =
    rw (join_slash-append r q ps, append_assoc p (slash ∷ join_slash (r ∷ ps)) (slash ∷ q)) refl

-- A name that filepath.Clean keeps.
pub record Ordinary (name : Text) : Type 0 where
  pub no_slash : IsName name
  pub nonempty : is_empty name ≡ false
  pub not_dot : text_eq name (codes ".") ≡ false
  pub not_dots : text_eq name (codes "..") ≡ false

clean_parts-below :
    (dir name : Text)
    → Ordinary name
    → clean_parts true [] (split_slash [] (dir ++ slash ∷ name))
      ≡ name ∷ clean_parts true [] (split_slash [] dir)
unfolding clean_parts clean_part
clean_parts-below dir name o =
    ap (clean_parts true []) (
      split_slash-append [] dir name
      ∙ ap (λ (x : List Text). split_slash [] dir ++ x) (split_slash-name [] name o.no_slash))
    ∙ clean_parts-append true [] (split_slash [] dir) (name ∷ [])
    ∙ kept (clean_parts true [] (split_slash [] dir))
  where
    kept : (stack : List Text) → clean_parts true stack (name ∷ []) ≡ name ∷ stack
    kept stack = rw (o.nonempty, o.not_dot, o.not_dots) refl

-- The parts of an absolute path as text.
abbrev rooted_text : List Text → Text
rooted_text stack = slash ∷ join_slash (reverse stack)

clean-rooted :
    (path : Text)
    → is_abs path ≡ true
    → clean path ≡ rooted_text (clean_parts true [] (split_slash [] path))
unfolding clean
clean-rooted path h = rw h refl

rooted_text-push :
    (name : Text) (stack : List Text)
    → ((rooted_text stack ≡ codes "/") × (rooted_text (name ∷ stack) ≡ slash ∷ name))
      ⊎ (rooted_text (name ∷ stack) ≡ rooted_text stack ++ slash ∷ name)
unfolding join_slash
rooted_text-push name stack = rw (reverse-cons name stack) (by_parts (reverse stack))
  where
    by_parts :
        (ps : List Text)
        → (((slash ∷ join_slash ps) ≡ codes "/")
            × ((slash ∷ join_slash (ps ++ name ∷ [])) ≡ slash ∷ name))
          ⊎ ((slash ∷ join_slash (ps ++ name ∷ [])) ≡ (slash ∷ join_slash ps) ++ slash ∷ name)
    by_parts [] = inl (refl, refl)
    by_parts (p ∷ ps) = inr (ap (◌∷◌ slash) (join_slash-append p name ps))

-- Joining an absolute directory and an ordinary name adds the name to the cleaned directory.
pub join-below :
    (dir name : Text)
    → is_abs dir ≡ true
    → Ordinary name
    → ((clean dir ≡ codes "/") × (join dir name ≡ slash ∷ name))
      ⊎ (join dir name ≡ clean dir ++ slash ∷ name)
unfolding join is_abs
join-below [] name h o = absurd cc
join-below (c ∷ dir) name h o =
    rw
      (
        clean-rooted (c ∷ dir) h,
        clean-rooted ((c ∷ dir) ++ slash ∷ name) h,
        clean_parts-below (c ∷ dir) name o,
      )
      (rooted_text-push name (clean_parts true [] (split_slash [] (c ∷ dir))))
