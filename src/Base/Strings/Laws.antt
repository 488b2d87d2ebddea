-- ===== src/Base/Strings/Laws.antt =====
-- Laws of the string functions.
use Prim.Native.Nat.{ℕ}
use mathlib.Core.Path.{◌≡◌, refl, ap, ◌∙◌}
use mathlib.Core.Logic.{◌≢◌}
use mathlib.Core.Bool.{true}
use mathlib.Core.Option.{none, some}
use mathlib.Core.List.{List, [], ◌∷◌, ◌++◌, reverse, reverse-append, reverse-reverse}
use native.Mathlib.Omega.{arith}
use containerd_attributes_cl.Base.Equality.{nat_eq}
use containerd_attributes_cl.Base.Lists.{All}
use containerd_attributes_cl.Base.Strings.{
  Text, has_prefix, has_suffix, trim_prefix, trim_suffix, strip, split, join, before, after?,
}

-- No byte of the text is `b`.
abbrev pub Lacks : ℕ → Text → Type 0
Lacks b = All (λ c. c ≢ b)

pub has_prefix-append : (p s : Text) → has_prefix (p ++ s) p ≡ true
unfolding has_prefix
has_prefix-append [] [] = refl
has_prefix-append [] (c ∷ s) = refl
has_prefix-append (c ∷ p) s = ground (arith, has_prefix-append p s)

strip-append : (p s : Text) → strip (p ++ s) p ≡ some s
unfolding strip
strip-append [] [] = refl
strip-append [] (c ∷ s) = refl
strip-append (c ∷ p) s = ground (arith, strip-append p s)

pub trim_prefix-append : (p s : Text) → trim_prefix (p ++ s) p ≡ s
unfolding trim_prefix
trim_prefix-append p s = rw (trim_prefix, strip-append p s)

strip_of_prefix :
    (s p : Text) → has_prefix s p ≡ true → (r : Text) × (strip s p ≡ some r) × (p ++ r ≡ s)
unfolding has_prefix strip
strip_of_prefix [] [] h = ([], refl, refl)
strip_of_prefix (c ∷ s) [] h = (c ∷ s, refl, refl)
strip_of_prefix [] (d ∷ p) h = cc
strip_of_prefix (c ∷ s) (d ∷ p) h =
    let (r, e, f) = strip_of_prefix s p (ground arith) in (r, ground arith, ground arith)

-- A text that has the prefix is the prefix and the trimmed text.
pub append_trim_prefix : (s p : Text) → has_prefix s p ≡ true → p ++ trim_prefix s p ≡ s
unfolding trim_prefix
append_trim_prefix s p h = let (r, e, f) = strip_of_prefix s p h in rw (trim_prefix, e) f

pub has_suffix-append : (s p : Text) → has_suffix (s ++ p) p ≡ true
unfolding has_suffix
has_suffix-append s p = rw reverse-append (has_prefix-append (reverse p) (reverse s))

pub trim_suffix-append : (s p : Text) → trim_suffix (s ++ p) p ≡ s
unfolding trim_suffix
trim_suffix-append s p =
    rw (reverse-append, trim_prefix-append (reverse p) (reverse s)) (reverse-reverse s)

pub split-append : (p s : Text) (sep : ℕ) → Lacks sep p → split (p ++ sep ∷ s) sep ≡ p ∷ split s sep
unfolding split
split-append [] s sep h = ground arith
split-append (c ∷ p) s sep (n, h) = ground (arith, split-append p s sep h)

pub split_lacking : (p : Text) (sep : ℕ) → Lacks sep p → split p sep ≡ p ∷ []
unfolding split
split_lacking [] sep h = refl
split_lacking (c ∷ p) sep (n, h) = ground (arith, split_lacking p sep h)

-- Splitting a join gives the parts back, if there is one and none holds the separator.
pub split-join :
    (p : Text) (ps : List Text) (sep : ℕ)
    → All (Lacks sep) (p ∷ ps)
    → split (join (p ∷ ps) sep) sep ≡ p ∷ ps
unfolding join
split-join p [] sep (h, _) = split_lacking p sep h
split-join p (q ∷ ps) sep (h, hs) = split-append p _ sep h ∙ ap (◌∷◌ p) (split-join q ps sep hs)

pub before-append : (p s : Text) (sep : ℕ) → Lacks sep p → before (p ++ sep ∷ s) sep ≡ p
unfolding before
before-append [] s sep h = ground arith
before-append (c ∷ p) s sep (n, h) = ground (arith, before-append p s sep h)

pub after?-append : (p s : Text) (sep : ℕ) → Lacks sep p → after? (p ++ sep ∷ s) sep ≡ some s
unfolding after?
after?-append [] s sep h = ground arith
after?-append (c ∷ p) s sep (n, h) = ground (arith, after?-append p s sep h)

pub before_lacking : (p : Text) (sep : ℕ) → Lacks sep p → before p sep ≡ p
unfolding before
before_lacking [] sep h = refl
before_lacking (c ∷ p) sep (n, h) = ground (arith, before_lacking p sep h)

pub after?_lacking : (p : Text) (sep : ℕ) → Lacks sep p → after? p sep ≡ none
unfolding after?
after?_lacking [] sep h = refl
after?_lacking (c ∷ p) sep (n, h) = ground (arith, after?_lacking p sep h)

-- No part of a split holds the separator.
pub split-Lacks : (s : Text) (sep : ℕ) → All (Lacks sep) (split s sep)
unfolding split
split-Lacks [] sep = (tt, tt)
split-Lacks (c ∷ s) sep = ground (arith, split-Lacks s sep)
