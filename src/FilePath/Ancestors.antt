-- ===== src/FilePath/Ancestors.antt =====
-- The directories above a relative path, `Dir` by `Dir`.
use mathlib.Core.List.{reverse, reverse-cons}
use containerd_attributes_cl.Base.{
  push, ℕ, zero, suc, ◌+◌, ◌≤◌, nat_eq, Text, lit, List, [], ◌∷◌, ◌++◌, some, Bool, false, ◌==◌,
  text_eq, ◌≡◌, ◌≢◌, refl, sym, arith, Bool-cases, inl, inr, ap, ◌∙◌, All, Lacks, length, split,
  join, split-append,
}
use containerd_attributes_cl.FilePath.{
  up_to_slash, dot, dotdot, is_abs, clean, dir, rel, rel_parts, climb, target_parts, keep, elements,
  parts, collapse, step, render,
}
use containerd_attributes_cl.FilePath.Clean.{
  IsElement, is_abs-clean, parts-IsElement, parts-clean, clean-clean,
}

-- `Dir`, `k` times.
abbrev pub up : ℕ → Text → Text
up zero d = d
up (suc k) d = up k (dir d)

abbrev init : List Text → List Text
init [] = []
init (e ∷ []) = []
init (e ∷ f ∷ es) = e ∷ init (f ∷ es)

up_to_slash_lacking : (e : Text) → Lacks b'/' e → up_to_slash e ≡ []
unfolding up_to_slash
up_to_slash_lacking [] h = refl
up_to_slash_lacking (c ∷ e) (n, h) = ground (arith, up_to_slash_lacking e h)

up_to_slash-append : (e s : Text) → up_to_slash (e ++ b'/' ∷ s) ≡ e ++ b'/' ∷ up_to_slash s
unfolding up_to_slash
up_to_slash-append [] s = ground arith
up_to_slash-append (c ∷ []) s = ground arith
up_to_slash-append (c ∷ d ∷ e) s = ground (arith, up_to_slash-append (d ∷ e) s)

keep-cons : (e : Text) (es : List Text) → IsElement e → keep (e ∷ es) ≡ e ∷ keep es
unfolding keep
keep-cons [] es h = absurd (h.0 refl)
keep-cons (c ∷ e) es h = ground arith

-- Cut off after the last slash, joined elements lose the last one.
elements-up_to_slash :
    (es : List Text) → All IsElement es → elements (up_to_slash (join es b'/')) ≡ init es
unfolding elements join
elements-up_to_slash [] h = unfold up_to_slash split keep in refl
elements-up_to_slash (e ∷ []) ((_, _, l), _) =
    rw (up_to_slash_lacking e l) (unfold split keep in refl)
elements-up_to_slash (e ∷ f ∷ es) ((n, d, l), hs) =
    rw
      (
        up_to_slash-append e (join (f ∷ es) b'/'),
        split-append e (up_to_slash (join (f ∷ es) b'/')) b'/' l,
        keep-cons e (split (up_to_slash (join (f ∷ es) b'/')) b'/') (n, d, l),
      )
      (ap (◌∷◌ e) (elements-up_to_slash (f ∷ es) hs))

length-init : (e : Text) (es : List Text) → suc (length (init (e ∷ es))) ≡ length (e ∷ es)
length-init e [] = refl
length-init e (f ∷ es) = ap suc (length-init f es)

length-collapse-le :
    (rooted : Bool) (stack es : List Text)
    → length (collapse rooted stack es) ≤ length stack + length es
unfolding collapse step
length-collapse-le rooted stack [] = omega arith
length-collapse-le rooted [] (e ∷ es) =
    ground (arith, length-collapse-le rooted [] es, length-collapse-le rooted (e ∷ []) es)
length-collapse-le rooted (t ∷ stack) (e ∷ es) = ground (
  arith,
  length-collapse-le rooted stack es,
  length-collapse-le rooted (t ∷ stack) es,
  length-collapse-le rooted (e ∷ t ∷ stack) es,
)

length-append : (xs ys : List Text) → length (xs ++ ys) ≡ length xs + length ys
length-append [] ys = omega arith
length-append (x ∷ xs) ys = ground (arith, length-append xs ys)

length-reverse : (xs : List Text) → length (reverse xs) ≡ length xs
length-reverse [] = refl
length-reverse (x ∷ xs) =
    rw (reverse-cons x xs, length-append (reverse xs) (x ∷ [])) (ground (arith, length-reverse xs))

length-parts-le : (p : Text) → length (parts p) ≤ length (elements p)
unfolding parts
length-parts-le p = ground (
  arith,
  length-reverse (collapse (is_abs p) [] (elements p)),
  length-collapse-le (is_abs p) [] (elements p),
)

parts-dir : (d : Text) → parts (dir d) ≡ parts (up_to_slash d)
unfolding dir
parts-dir d = parts-clean (up_to_slash d)

is_abs-nil : is_abs [] ≡ false
unfolding is_abs
is_abs-nil = refl

is_abs_head : (c : ℕ) (p : Text) → is_abs (c ∷ p) ≡ (c == b'/')
unfolding is_abs
is_abs_head c p = refl

cut_relative : (p : Text) → is_abs p ≡ false → is_abs (up_to_slash p) ≡ false
unfolding up_to_slash
cut_relative [] h = h
cut_relative (c ∷ p) h = ground (arith, is_abs_head c p, is_abs_head c (up_to_slash p), is_abs-nil)

rendered_shorter :
    (d : Text) (es : List Text)
    → d ≡ render false es
    → All IsElement es
    → d ≢ dot
    → suc (length (parts (dir d))) ≤ length es
unfolding render
rendered_shorter d [] e h n = absurd (n e)
rendered_shorter d (f ∷ es) e h n =
    let cut : elements (up_to_slash d) ≡ init (f ∷ es) =
      ap (λ t. elements (up_to_slash t)) e ∙ elements-up_to_slash (f ∷ es) h in
    ground (arith, cut, parts-dir d, length-parts-le (up_to_slash d), length-init f es)

-- A clean relative path has more elements than its directory.
pub dir_shorter :
    (d : Text)
    → clean d ≡ d
    → is_abs d ≡ false
    → d ≢ dot
    → suc (length (parts (dir d))) ≤ length (parts d)
unfolding clean
dir_shorter d c r n = rendered_shorter d (parts d) (sym c ∙ rw r refl) (parts-IsElement d) n

pub is_abs-dir_relative : (d : Text) → is_abs d ≡ false → is_abs (dir d) ≡ false
unfolding dir
is_abs-dir_relative d h = is_abs-clean (up_to_slash d) ∙ cut_relative d h

pub clean-dir : (d : Text) → clean (dir d) ≡ dir d
unfolding dir
clean-dir d = clean-clean (up_to_slash d)

length-up_to_slash-le : (p : Text) → length (up_to_slash p) ≤ length p
unfolding up_to_slash
length-up_to_slash-le [] = omega arith
length-up_to_slash-le (c ∷ p) = ground (arith, length-up_to_slash-le p)

length-keep-le : (e : Text) (es : List Text) → length (keep es) ≤ length (keep (e ∷ es))
unfolding keep
length-keep-le e es = ground arith

length-keep-cons-le : (e : Text) (es : List Text) → length (keep (e ∷ es)) ≤ suc (length (keep es))
unfolding keep
length-keep-cons-le e es = ground arith

keep-nil : keep [] ≡ []
unfolding keep
keep-nil = refl

keep_empty : (es : List Text) → keep ([] ∷ es) ≡ keep es
unfolding keep
keep_empty es = refl

length-keep-push-le : (c : ℕ) (ps : List Text) → length (keep (push c ps)) ≤ suc (length (keep ps))
length-keep-push-le c [] = ground (arith, length-keep-cons-le (c ∷ []) [])
length-keep-push-le c (q ∷ qs) = ground (arith, length-keep-cons-le (c ∷ q) qs, length-keep-le q qs)

length-elements-le : (p : Text) → length (elements p) ≤ length p
unfolding elements split
length-elements-le [] = unfold keep in omega arith
length-elements-le (c ∷ p) =
    ground
      (arith, keep_empty (split p b'/'), length-keep-push-le c (split p b'/'), length-elements-le p)

-- A directory has no more elements than its path has bytes.
pub length-parts-dir-le : (p : Text) → length (parts (dir p)) ≤ length p
length-parts-dir-le p = ground (
  arith,
  parts-dir p,
  length-parts-le (up_to_slash p),
  length-elements-le (up_to_slash p),
  length-up_to_slash-le p,
)

abbrev IsPart : Text → Type 0
IsPart e = (e ≢ []) × Lacks b'/' e

is_abs-join : (es : List Text) → All IsPart es → is_abs (join es b'/') ≡ false
unfolding is_abs join
is_abs-join [] h = refl
is_abs-join ([] ∷ es) ((n, _), _) = absurd (n refl)
is_abs-join ((c ∷ e) ∷ []) ((_, l), _) = ground (arith, l)
is_abs-join ((c ∷ e) ∷ f ∷ es) ((_, l), _) = ground (arith, l)

climb-All : (bs ts : List Text) → All IsPart ts → All IsPart (climb bs ts)
unfolding climb dotdot lit
climb-All [] ts h = h
climb-All (b ∷ bs) ts h = ((λ p. ground (arith, p), omega arith), climb-All bs ts h)

is_abs-rel_parts :
    (bs ts : List Text) (r : Text) → All IsPart ts → rel_parts bs ts ≡ some r → is_abs r ≡ false
unfolding rel_parts
is_abs-rel_parts [] ts r h e = ground (arith, e, is_abs-join ts h)
is_abs-rel_parts (b ∷ bs) [] r h e =
    ground (arith, e, is_abs-join (climb (b ∷ bs) []) (climb-All (b ∷ bs) [] h))
is_abs-rel_parts (b ∷ bs) (t ∷ ts) r (k, ks) e = ground (
  arith,
  e,
  is_abs-rel_parts bs ts r ks,
  is_abs-join (climb (b ∷ bs) (t ∷ ts)) (climb-All (b ∷ bs) (t ∷ ts) (k, ks)),
)

parts-IsPart : (es : List Text) → All IsElement es → All IsPart es
parts-IsPart [] h = tt
parts-IsPart (e ∷ es) ((n, _, l), hs) = ((n, l), parts-IsPart es hs)

dot-IsPart : IsPart dot
unfolding dot lit
dot-IsPart = (λ p. ground (arith, p), omega arith)

target_parts-All : (p : Text) → All IsPart (target_parts p)
unfolding target_parts
target_parts-All p = elim (Bool-cases (clean p == dot)) [
  | inl same ↦ rw same (dot-IsPart, tt)
  | inr differ ↦ rw differ (parts-IsPart (parts p) (parts-IsElement p))
]

is_abs-dot : is_abs dot ≡ false
unfolding is_abs dot lit nat_eq
is_abs-dot = refl

-- What `Rel` gives is a relative path.
pub is_abs-rel : (base target r : Text) → rel base target ≡ some r → is_abs r ≡ false
unfolding rel
is_abs-rel base target r e = ground (
  arith,
  e,
  is_abs-dot,
  is_abs-rel_parts (parts base) (target_parts target) r (target_parts-All target),
)
