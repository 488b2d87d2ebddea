-- ===== src/FilePath/Rooted.antt =====
-- Paths that begin with a slash.
use containerd_attributes_cl.Base.{
  ℕ, nat_eq, Text, [], ◌∷◌, ◌++◌, none, true, false, ◌==◌, text_eq, ◌≡◌, refl, arith, Bool-cases,
  inl, inr, ap, ◌∙◌,
}
use containerd_attributes_cl.FilePath.{up_to_slash, is_abs, clean, join_path, dir, rel}
use containerd_attributes_cl.FilePath.Clean.{is_abs-clean}

is_abs_head : (c : ℕ) (p : Text) → is_abs (c ∷ p) ≡ (c == b'/')
unfolding is_abs
is_abs_head c p = refl

is_abs-nil : is_abs [] ≡ false
unfolding is_abs
is_abs-nil = refl

pub is_abs-join_path : (p q : Text) → is_abs p ≡ true → is_abs (join_path p q) ≡ true
unfolding join_path
is_abs-join_path [] q h = absurd (ground (arith, is_abs-nil))
is_abs-join_path (c ∷ p) q h =
    ground (arith, is_abs-clean (c ∷ p ++ b'/' ∷ q), is_abs_head c p, is_abs_head c (p ++ b'/' ∷ q))

is_abs-up_to_slash : (p : Text) → is_abs p ≡ true → is_abs (up_to_slash p) ≡ true
unfolding up_to_slash
is_abs-up_to_slash [] h = h
is_abs-up_to_slash (c ∷ p) h =
    ground (arith, is_abs_head c p, is_abs_head c [], is_abs_head c (up_to_slash p))

pub is_abs-dir : (p : Text) → is_abs p ≡ true → is_abs (dir p) ≡ true
unfolding dir
is_abs-dir p h = is_abs-clean (up_to_slash p) ∙ is_abs-up_to_slash p h

-- No rooted path is relative to one that is not.
pub rel_rooted :
    (base target : Text) → is_abs base ≡ false → is_abs target ≡ true → rel base target ≡ none
unfolding rel
rel_rooted base target b t = elim (Bool-cases (clean base == clean target)) [
  | inl same ↦
      let e : clean base ≡ clean target = ground arith in
      absurd (ground (arith, b, t, is_abs-clean base, is_abs-clean target, ap is_abs e))
  | inr differ ↦ ground (arith, differ, b, t)
]
