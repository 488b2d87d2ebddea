-- ===== src/FilePath/Relative.antt =====
-- `Rel` between rooted paths.
use containerd_attributes_cl.Base.{
  Text, lit, List, [], ◌∷◌, ◌++◌, join, ◌==◌, nat_eq, text_eq, Bool, true, false, not, ◌&&◌, ◌≡◌,
  ◌≢◌, refl, sym, ap, ◌∙◌, arith, All, ℕ, Bool-cases, inl, inr, Option, none, some, has_prefix,
}
use containerd_attributes_cl.FilePath.{
  dot, dotdot, is_abs, parts, render, clean, climb, rel_parts, target_parts, rel, escapes, abs,
  join_path,
}
use containerd_attributes_cl.FilePath.Clean.{
  IsElement, parts-IsElement, parts-clean, parts-All_plain, is_abs-clean,
}

-- The list begins with these elements.
abbrev pub is_prefix_of : List Text → List Text → Bool
is_prefix_of [] ts = true
is_prefix_of (b ∷ bs) [] = false
is_prefix_of (b ∷ bs) (t ∷ ts) = b == t && is_prefix_of bs ts

-- A failed `Rel` counts as leading out.
abbrev pub leaves : Option Text → Bool
leaves none = true
leaves (some r) = escapes r

is_prefix_of_self : (bs : List Text) → is_prefix_of bs bs ≡ true
is_prefix_of_self [] = refl
is_prefix_of_self (b ∷ bs) = ground (arith, is_prefix_of_self bs)

pub append_of_is_prefix :
    (bs ts : List Text) → is_prefix_of bs ts ≡ true → (rest : List Text) × (ts ≡ bs ++ rest)
append_of_is_prefix [] ts h = (ts, refl)
append_of_is_prefix (b ∷ bs) [] h = cc
append_of_is_prefix (b ∷ bs) (t ∷ ts) h =
    let (rest, e) = append_of_is_prefix bs ts (ground arith) in (rest, ground arith)

pub escapes-dotdot : (es : List Text) → escapes (join (dotdot ∷ es) b'/') ≡ true
unfolding escapes join dotdot has_prefix text_eq nat_eq lit
escapes-dotdot [] = refl
escapes-dotdot (e ∷ es) = refl

escapes-element : (e : Text) → IsElement e → e ≢ dotdot → escapes e ≡ false
unfolding escapes has_prefix dotdot lit
escapes-element [] h n = absurd (h.0 refl)
escapes-element (a ∷ []) h n = ground arith
escapes-element (a ∷ b ∷ []) h n = ground arith
escapes-element (a ∷ b ∷ c ∷ e) h n = ground arith

escapes-slash : (e rest : Text) → IsElement e → e ≢ dotdot → escapes (e ++ b'/' ∷ rest) ≡ false
unfolding escapes has_prefix dotdot lit
escapes-slash [] rest h n = absurd (h.0 refl)
escapes-slash (a ∷ []) rest h n = ground arith
escapes-slash (a ∷ b ∷ []) rest h n = ground arith
escapes-slash (a ∷ b ∷ c ∷ e) rest h n = ground arith

pub escapes-join :
    (es : List Text) → All IsElement es → All (λ e. e ≢ dotdot) es → escapes (join es b'/') ≡ false
unfolding join
escapes-join [] h n = unfold escapes has_prefix dotdot lit text_eq nat_eq in refl
escapes-join (e ∷ []) (h, _) (n, _) = escapes-element e h n
escapes-join (e ∷ f ∷ es) (h, _) (n, _) = escapes-slash e (join (f ∷ es) b'/') h n

leaves-rel_parts :
    (bs ts : List Text)
    → All (λ b. b ≢ dotdot) bs
    → All IsElement ts
    → All (λ t. t ≢ dotdot) ts
    → leaves (rel_parts bs ts) ≡ not (is_prefix_of bs ts)
unfolding rel_parts climb
leaves-rel_parts [] ts k h n = escapes-join ts h n
leaves-rel_parts (b ∷ bs) [] (k, ks) h n = ground (arith, escapes-dotdot (climb bs []))
leaves-rel_parts (b ∷ bs) (t ∷ ts) (k, ks) (h, hs) (n, ns) =
    ground (arith, escapes-dotdot (climb bs (t ∷ ts)), leaves-rel_parts bs ts ks hs ns)

escapes-dot : escapes dot ≡ false
unfolding escapes has_prefix dot dotdot lit text_eq nat_eq
escapes-dot = refl

pub parts_of_clean : (p q : Text) → (clean p == clean q) ≡ true → parts p ≡ parts q
parts_of_clean p q h =
    let e : clean p ≡ clean q = ground arith in sym (parts-clean p) ∙ ap parts e ∙ parts-clean q

pub clean-ne-dot : (p : Text) → is_abs p ≡ true → (clean p == dot) ≡ false
unfolding clean render dot lit
clean-ne-dot p h = rw h (ground arith)

-- Between rooted paths `Rel` fails, or leads out by `..`, just where the elements of the cleaned
-- base are no prefix of those of the cleaned target.
pub leaves-rel :
    (base target : Text)
    → is_abs base ≡ true
    → is_abs target ≡ true
    → leaves (rel base target) ≡ not (is_prefix_of (parts base) (parts target))
unfolding rel target_parts
leaves-rel base target hb ht = elim (Bool-cases (clean base == clean target)) [
  | inl same ↦
      rw (same, escapes-dot)
        (ground (arith, is_prefix_of_self (parts base), parts_of_clean base target same))
  | inr differ ↦
      rw (differ, hb, ht, clean-ne-dot target ht)
        (leaves-rel_parts (parts base) (parts target) (parts-All_plain base hb)
          (parts-IsElement target) (parts-All_plain target ht))
]

is_abs_head : (c : ℕ) (p q : Text) → is_abs (c ∷ p ++ b'/' ∷ q) ≡ is_abs (c ∷ p)
unfolding is_abs
is_abs_head c p q = refl

is_abs-nil : is_abs [] ≡ false
unfolding is_abs
is_abs-nil = refl

-- `Abs` gives a rooted path if the working directory is one.
pub is_abs-abs : (cwd p : Text) → is_abs cwd ≡ true → is_abs (abs cwd p) ≡ true
unfolding abs join_path
is_abs-abs [] p h = cc is_abs-nil
is_abs-abs (c ∷ cwd) p h =
    ground (arith, is_abs-clean p, is_abs-clean (c ∷ cwd ++ b'/' ∷ p), is_abs_head c cwd p)
