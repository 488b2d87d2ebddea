-- ===== src/Base/Strings.antt =====
-- Go strings as lists of bytes, with what the program uses of the package strings: HasPrefix,
-- HasSuffix, TrimPrefix, TrimSuffix, and Split, Cut and Join by one byte.
pub mod Laws
use Prim.Native.Nat.{ℕ}
use Prim.Native.Char.{code}
use Prim.Native.String.{String}
use mathlib.Core.Bool.{Bool, true, false, ◌&&◌}
use mathlib.Core.Option.{Option, none, some}
use mathlib.Core.List.{List, [], ◌∷◌, ◌++◌, reverse}
use containerd_attributes_cl.Base.Equality.{◌==◌, nat_eq, if◌then◌else◌}

abbrev pub Text : Type 0
Text = List ℕ

-- The bytes of an ASCII literal.
unfoldable pub lit : String → Text
lit String.[] = []
lit (String.◌∷◌ c s) = code c ∷ lit s

abbrev pub is_empty : Text → Bool
is_empty [] = true
is_empty (c ∷ s) = false

unfoldable pub has_prefix : Text → Text → Bool
has_prefix s [] = true
has_prefix [] (p ∷ ps) = false
has_prefix (c ∷ s) (p ∷ ps) = c == p && has_prefix s ps

-- `s` without the prefix `p`, if it begins with it.
strip : Text → Text → Option Text
strip s [] = some s
strip [] (p ∷ ps) = none
strip (c ∷ s) (p ∷ ps) = let rest = strip s ps in if c == p then rest else none

unfoldable pub trim_prefix : Text → Text → Text
unfolding strip
trim_prefix s p = elim (strip s p) [ some rest ↦ rest | none ↦ s ]

unfoldable pub has_suffix : Text → Text → Bool
unfolding has_prefix
has_suffix s p = has_prefix (reverse s) (reverse p)

unfoldable pub trim_suffix : Text → Text → Text
unfolding trim_prefix
trim_suffix s p = reverse (trim_prefix (reverse s) (reverse p))

abbrev pub push : ℕ → List Text → List Text
push c [] = (c ∷ []) ∷ []
push c (p ∷ ps) = (c ∷ p) ∷ ps

-- `strings.Split(s, sep)`: at least one part.
unfoldable pub split : Text → ℕ → List Text
split [] sep = [] ∷ []
split (c ∷ s) sep = let rest = split s sep in if c == sep then [] ∷ rest else push c rest

-- `strings.Join(parts, sep)`
unfoldable pub join : List Text → ℕ → Text
join [] sep = []
join (p ∷ []) sep = p
join (p ∷ q ∷ ps) sep = p ++ sep ∷ join (q ∷ ps) sep

-- The text before the first `sep`, all of it if there is none: the first result of `strings.Cut`.
unfoldable pub before : Text → ℕ → Text
before [] sep = []
before (c ∷ s) sep = let rest = before s sep in if c == sep then [] else c ∷ rest

-- The text after the first `sep`: the second result of `strings.Cut`, `none` if it is not found.
unfoldable pub after? : Text → ℕ → Option Text
after? [] sep = none
after? (c ∷ s) sep = let rest = after? s sep in if c == sep then some s else rest
