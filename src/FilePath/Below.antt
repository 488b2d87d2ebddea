-- ===== src/FilePath/Below.antt =====
-- A path that has the elements of another and more.
use mathlib.Core.List.{reverse, reverse-append, reverse-cons, reverse-reverse}
use containerd_attributes_cl.Base.{
  ℕ, Text, lit, List, [], ◌∷◌, ◌++◌, join, split, ◌==◌, nat_eq, text_eq, Bool, true, false, ◌≡◌,
  ◌≢◌, refl, sym, ap, ◌∙◌, arith, All, Bool-cases, inl, inr, some, append_assoc, append-nil,
}
use containerd_attributes_cl.FilePath.{
  dot, is_abs, parts, render, clean, rel_parts, target_parts, rel, join_path, collapse, elements,
  keep,
}
use containerd_attributes_cl.FilePath.Clean.{
  IsElement, parts-clean, is_abs-clean, elements-join, is_abs-render, collapse-append,
}
use containerd_attributes_cl.FilePath.Relative.{clean-ne-dot, parts_of_clean}
use containerd_attributes_cl.FilePath.Joined.{IsPlain, elements-concat, step_on, is_abs_head}

pub All-right : (P : Text → Type 0) (xs ys : List Text) → All P (xs ++ ys) → All P ys
All-right P [] ys h = h
All-right P (x ∷ xs) ys (_, h) = All-right P xs ys h

append-ne : (xs ys : List Text) → ys ≢ [] → xs ≢ xs ++ ys
append-ne [] ys h = λ p. h (sym p)
append-ne (x ∷ xs) ys h = λ p. append-ne xs ys h (cc)

rel_parts-append : (bs ts : List Text) → rel_parts bs (bs ++ ts) ≡ some (join ts b'/')
unfolding rel_parts
rel_parts-append [] ts = refl
rel_parts-append (b ∷ bs) ts = ground (arith, rel_parts-append bs ts)

-- Elements that hold no `..` are put on the stack one after the other.
collapse-IsPlain :
    (rooted : Bool) (stack es : List Text)
    → IsPlain es
    → collapse rooted stack es ≡ reverse es ++ stack
unfolding collapse
collapse-IsPlain rooted stack [] h = refl
collapse-IsPlain rooted stack (e ∷ es) (n, h) = rw (step_on rooted stack e (ground (arith, n))) (
    collapse-IsPlain rooted (e ∷ stack) es h
    ∙ sym (append_assoc (reverse es) (e ∷ []) stack)
    ∙ ap (λ xs. xs ++ stack) (sym (reverse-cons e es)))

-- Elements that are joined are a relative path, with these elements.
pub is_abs-join : (es : List Text) → es ≢ [] → All IsElement es → is_abs (join es b'/') ≡ false
unfolding render
is_abs-join [] n h = absurd (n refl)
is_abs-join (e ∷ es) n h = unfold render in is_abs-render false (e ∷ es) h

pub parts-join :
    (es : List Text) → es ≢ [] → All IsElement es → IsPlain es → parts (join es b'/') ≡ es
unfolding parts
parts-join es n h k =
    rw
      (
        is_abs-join es n h,
        elements-join es h,
        collapse-IsPlain false [] es k,
        append-nil (reverse es),
      )
      (reverse-reverse es)

pub clean-join :
    (es : List Text) → es ≢ [] → All IsElement es → IsPlain es → clean (join es b'/') ≡ join es b'/'
unfolding clean render
clean-join [] n h k = absurd (n refl)
clean-join (e ∷ es) n h k = rw (is_abs-join (e ∷ es) n h, parts-join (e ∷ es) n h k) refl

-- Below a rooted path `Rel` gives the rest of the elements.
pub rel_below :
    (base target : Text) (rest : List Text)
    → is_abs base ≡ true
    → is_abs target ≡ true
    → rest ≢ []
    → parts target ≡ parts base ++ rest
    → rel base target ≡ some (join rest b'/')
unfolding rel target_parts
rel_below base target rest hb ht some_ below = elim (Bool-cases (clean base == clean target)) [
  | inl same ↦ absurd (append-ne (parts base) rest some_ (parts_of_clean base target same ∙ below))
  | inr differ ↦
      rw (differ, hb, ht, clean-ne-dot target ht, below) (rel_parts-append (parts base) rest)
]

parts-concat_relative :
    (c : ℕ) (base : Text) (rest : List Text)
    → is_abs (c ∷ base) ≡ false
    → All IsElement rest
    → IsPlain rest
    → parts (c ∷ base ++ b'/' ∷ join rest b'/') ≡ parts (c ∷ base) ++ rest
unfolding parts
parts-concat_relative c base rest r h k =
    let stack : List Text = collapse false [] (elements (c ∷ base)) in
    rw
      (
        is_abs_head c base (join rest b'/'),
        r,
        elements-concat (c ∷ base) (join rest b'/'),
        elements-join rest h,
        collapse-append false [] (elements (c ∷ base)) rest,
        collapse-IsPlain false stack rest k,
      )
      (reverse-append (reverse rest) stack ∙ ap (λ xs. reverse stack ++ xs) (reverse-reverse rest))

-- Elements that hold no `..` are added to a relative path.
parts-join_relative :
    (c : ℕ) (base : Text) (rest : List Text)
    → is_abs (c ∷ base) ≡ false
    → All IsElement rest
    → IsPlain rest
    → parts (join_path (c ∷ base) (join rest b'/')) ≡ parts (c ∷ base) ++ rest
unfolding join_path
parts-join_relative c base rest r h k =
    parts-clean (c ∷ base ++ b'/' ∷ join rest b'/') ∙ parts-concat_relative c base rest r h k

parts-dot : parts dot ≡ []
unfolding parts elements split keep dot lit text_eq nat_eq is_abs collapse
parts-dot = refl

clean-ne-dot_of_parts : (p : Text) → parts p ≢ [] → (clean p == dot) ≡ false
clean-ne-dot_of_parts p n = elim (Bool-cases (clean p == dot)) [
  | inr differ ↦ differ
  | inl same ↦
      let e : clean p ≡ dot = ground (arith, same) in
      absurd (n (sym (parts-clean p) ∙ ap parts e ∙ parts-dot))
]

append-ne-nil : (xs ys : List Text) → ys ≢ [] → xs ++ ys ≢ []
append-ne-nil [] ys h = h
append-ne-nil (x ∷ xs) ys h = λ p. absurd (cc)

-- From a relative path to the path with more elements `Rel` gives these.
pub rel-join_path :
    (c : ℕ) (base : Text) (rest : List Text)
    → is_abs (c ∷ base) ≡ false
    → rest ≢ []
    → All IsElement rest
    → IsPlain rest
    → rel (c ∷ base) (join_path (c ∷ base) (join rest b'/')) ≡ some (join rest b'/')
unfolding rel target_parts join_path
rel-join_path c base rest r some_ h k =
    let target = join_path (c ∷ base) (join rest b'/') in
    let below = parts-join_relative c base rest r h k in
    let relative : is_abs target ≡ false =
      is_abs-clean (c ∷ base ++ b'/' ∷ join rest b'/') ∙ is_abs_head c base (join rest b'/') ∙ r in
    elim (Bool-cases (clean (c ∷ base) == clean target)) [
      | inl same ↦
          absurd (
            append-ne (parts (c ∷ base)) rest some_ (parts_of_clean (c ∷ base) target same ∙ below))
      | inr differ ↦
          let not_dot : parts target ≢ [] =
            λ p. append-ne-nil (parts (c ∷ base)) rest some_ (sym below ∙ p) in
          rw (differ, r, relative, clean-ne-dot_of_parts target not_dot, below)
            (rel_parts-append (parts (c ∷ base)) rest)
    ]
