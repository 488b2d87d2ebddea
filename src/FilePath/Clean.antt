-- ===== src/FilePath/Clean.antt =====
-- The elements of a path, and those of its `Clean`.
use mathlib.Core.List.{reverse, reverse-cons}
use containerd_attributes_cl.Base.{
  Text, lit, List, [], ◌∷◌, ◌++◌, split, join, ◌==◌, nat_eq, text_eq, Bool, true, false, ◌≡◌, ◌≢◌,
  refl, ap₂, ◌∙◌, arith, All, All-reverse, Lacks, split-Lacks, split-join, Bool-cases, inl, inr,
}
use containerd_attributes_cl.FilePath.{
  dot, dotdot, is_abs, keep, elements, step, collapse, parts, render, clean,
}

-- An element that cleaning keeps.
abbrev pub IsElement : Text → Type 0
IsElement e = (e ≢ []) × (e ≢ dot) × Lacks b'/' e

-- Each element of the stack stays when it is put on those below it.
abbrev IsNormal : Bool → List Text → Type 0
IsNormal rooted [] = Unit
IsNormal rooted (e ∷ stack) = (step rooted stack e ≡ e ∷ stack) × IsNormal rooted stack

step-IsNormal :
    (rooted : Bool) (stack : List Text) (e : Text)
    → IsNormal rooted stack
    → IsNormal rooted (step rooted stack e)
unfolding step
step-IsNormal rooted [] e h = ground arith
step-IsNormal rooted (t ∷ stack) e (h, hs) = ground arith

collapse-IsNormal :
    (rooted : Bool) (stack es : List Text)
    → IsNormal rooted stack
    → IsNormal rooted (collapse rooted stack es)
unfolding collapse
collapse-IsNormal rooted stack [] h = h
collapse-IsNormal rooted stack (e ∷ es) h =
    collapse-IsNormal rooted (step rooted stack e) es (step-IsNormal rooted stack e h)

pub collapse-append :
    (rooted : Bool) (stack xs ys : List Text)
    → collapse rooted stack (xs ++ ys) ≡ collapse rooted (collapse rooted stack xs) ys
unfolding collapse
collapse-append rooted stack [] ys = refl
collapse-append rooted stack (x ∷ xs) ys = collapse-append rooted (step rooted stack x) xs ys

-- The elements of a normal stack collapse to the stack.
collapse-reverse :
    (rooted : Bool) (stack : List Text)
    → IsNormal rooted stack
    → collapse rooted [] (reverse stack) ≡ stack
unfolding collapse
collapse-reverse rooted [] h = refl
collapse-reverse rooted (e ∷ stack) (h, hs) =
    rw
      (
        reverse-cons e stack,
        collapse-append rooted [] (reverse stack) (e ∷ []),
        collapse-reverse rooted stack hs,
      )
      h

keep-IsElement : (es : List Text) → All (Lacks b'/') es → All IsElement (keep es)
unfolding keep
keep-IsElement [] h = tt
keep-IsElement ([] ∷ es) (h, hs) = keep-IsElement es hs
keep-IsElement ((c ∷ e) ∷ es) (h, hs) = ground (arith, keep-IsElement es hs)

pub elements-IsElement : (p : Text) → All IsElement (elements p)
unfolding elements
elements-IsElement p = keep-IsElement (split p b'/') (split-Lacks p b'/')

step-All {κ} :
    (P : Text → Type κ) (rooted : Bool) (stack : List Text) (e : Text)
    → P e
    → All P stack
    → All P (step rooted stack e)
unfolding step
step-All P rooted [] e h hs = elim (Bool-cases (e == dotdot)) [
  | inl up ↦ elim (Bool-cases rooted) [ inl r ↦ rw (up, r) tt | inr r ↦ rw (up, r) (h, tt) ]
  | inr plain ↦ rw plain (h, tt)
]
step-All P rooted (t ∷ stack) e h (k, hs) = elim (Bool-cases (e == dotdot)) [
  | inl up ↦ elim (Bool-cases (t == dotdot)) [
    | inl stuck ↦ elim (Bool-cases rooted) [
      | inl r ↦ rw (up, stuck, r) (k, hs)
      | inr r ↦ rw (up, stuck, r) (h, (k, hs))
    ]
    | inr back ↦ rw (up, back) hs
  ]
  | inr plain ↦ rw plain (h, (k, hs))
]

collapse-All {κ} :
    (P : Text → Type κ) (rooted : Bool) (stack es : List Text)
    → All P es
    → All P stack
    → All P (collapse rooted stack es)
unfolding collapse
collapse-All P rooted stack [] h hs = hs
collapse-All P rooted stack (e ∷ es) (h, k) hs =
    collapse-All P rooted (step rooted stack e) es k (step-All P rooted stack e h hs)

pub parts-IsElement : (p : Text) → All IsElement (parts p)
unfolding parts
parts-IsElement p =
    All-reverse IsElement _
      (collapse-All IsElement (is_abs p) [] (elements p) (elements-IsElement p) tt)

keep_id : (es : List Text) → All IsElement es → keep es ≡ es
unfolding keep
keep_id [] h = refl
keep_id ([] ∷ es) (h, hs) = absurd (h.0 refl)
keep_id ((c ∷ e) ∷ es) (h, hs) = ground (arith, keep_id es hs)

All-Lacks : (es : List Text) → All IsElement es → All (Lacks b'/') es
All-Lacks [] h = tt
All-Lacks (e ∷ es) ((_, _, h), hs) = (h, All-Lacks es hs)

pub elements-join : (es : List Text) → All IsElement es → elements (join es b'/') ≡ es
unfolding elements join split keep
elements-join [] h = refl
elements-join (e ∷ es) h =
    rw (elements, split-join e es b'/' (All-Lacks (e ∷ es) h)) (keep_id (e ∷ es) h)

elements-slash : (s : Text) → elements (b'/' ∷ s) ≡ elements s
unfolding elements keep split
elements-slash s = ground arith

pub elements-render :
    (rooted : Bool) (es : List Text) → All IsElement es → elements (render rooted es) ≡ es
unfolding render elements keep split dot text_eq nat_eq lit
elements-render true es h = elements-slash (join es b'/') ∙ elements-join es h
elements-render false [] h = refl
elements-render false (e ∷ es) h = elements-join (e ∷ es) h

pub is_abs-render :
    (rooted : Bool) (es : List Text) → All IsElement es → is_abs (render rooted es) ≡ rooted
unfolding render is_abs dot join nat_eq lit
is_abs-render true es h = ground arith
is_abs-render false [] h = refl
is_abs-render false ([] ∷ es) h = absurd (h.0.0 refl)
is_abs-render false ((c ∷ e) ∷ []) h = ground arith
is_abs-render false ((c ∷ e) ∷ f ∷ es) h = ground arith

pub is_abs-clean : (p : Text) → is_abs (clean p) ≡ is_abs p
unfolding clean
is_abs-clean p = is_abs-render (is_abs p) (parts p) (parts-IsElement p)

-- Cleaning keeps the elements that it leaves.
pub parts-clean : (p : Text) → parts (clean p) ≡ parts p
unfolding clean parts
parts-clean p =
    let stack : List Text = collapse (is_abs p) [] (elements p) in
    rw (
      is_abs-clean p,
      elements-render (is_abs p) (reverse stack) (parts-IsElement p),
      collapse-reverse (is_abs p) stack (collapse-IsNormal (is_abs p) [] (elements p) tt),
    )

-- Cleaning a path twice is cleaning it once.
pub clean-clean : (p : Text) → clean (clean p) ≡ clean p
unfolding clean
clean-clean p = ap₂ render (is_abs-clean p) (parts-clean p)

-- No `..` is left in the elements of a rooted path.
step-All_plain :
    (stack : List Text) (e : Text)
    → All (λ t. t ≢ dotdot) stack
    → All (λ t. t ≢ dotdot) (step true stack e)
unfolding step
step-All_plain [] e h = ground arith
step-All_plain (t ∷ stack) e (k, h) = ground arith

collapse-All_plain :
    (stack es : List Text)
    → All (λ t. t ≢ dotdot) stack
    → All (λ t. t ≢ dotdot) (collapse true stack es)
unfolding collapse
collapse-All_plain stack [] h = h
collapse-All_plain stack (e ∷ es) h =
    collapse-All_plain (step true stack e) es (step-All_plain stack e h)

pub parts-All_plain : (p : Text) → is_abs p ≡ true → All (λ e. e ≢ dotdot) (parts p)
unfolding parts
parts-All_plain p h = rw h (All-reverse (λ e. e ≢ dotdot) _ (collapse-All_plain [] (elements p) tt))
