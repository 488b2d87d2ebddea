-- ===== src/FilePath/Joined.antt =====
-- A relative path that is joined to a rooted one.
use mathlib.Core.List.{reverse, reverse-append}
use containerd_attributes_cl.Base.{
  ℕ, nat_eq, Text, List, [], ◌∷◌, ◌++◌, Bool, true, false, ◌==◌, text_eq, ◌≡◌, ◌≢◌, ◌⊎◌, refl, sym,
  ◌∙◌, arith, Bool-cases, inl, inr, All, All-reverse, split, push,
}
use containerd_attributes_cl.FilePath.{
  dotdot, is_abs, clean, join_path, parts, escapes, keep, elements, step, collapse, render,
}
use containerd_attributes_cl.FilePath.Clean.{parts-clean, collapse-append}
use containerd_attributes_cl.FilePath.Relative.{escapes-dotdot}

abbrev pub IsPlain : List Text → Type 0
IsPlain = All (λ e. e ≢ dotdot)

push-append : (c : ℕ) (ps qs : List Text) → ps ≢ [] → push c (ps ++ qs) ≡ push c ps ++ qs
push-append c [] qs h = absurd (h refl)
push-append c (p ∷ ps) qs h = refl

push-ne-nil : (c : ℕ) (ps : List Text) → push c ps ≢ []
push-ne-nil c [] = λ p. ground (arith, p)
push-ne-nil c (p ∷ ps) = λ q. ground (arith, q)

split-ne-nil : (s : Text) (sep : ℕ) → split s sep ≢ []
unfolding split
split-ne-nil [] sep = λ p. ground (arith, p)
split-ne-nil (c ∷ s) sep = elim (Bool-cases (c == sep)) [
  | inl same ↦ rw same (λ p. ground (arith, p))
  | inr differ ↦ rw differ (push-ne-nil c (split s sep))
]

split-concat : (p q : Text) (sep : ℕ) → split (p ++ sep ∷ q) sep ≡ split p sep ++ split q sep
unfolding split
split-concat [] q sep = ground arith
split-concat (c ∷ p) q sep =
    ground
      (arith, split-concat p q sep, push-append c (split p sep) (split q sep) (split-ne-nil p sep))

keep-append : (xs ys : List Text) → keep (xs ++ ys) ≡ keep xs ++ keep ys
unfolding keep
keep-append [] ys = refl
keep-append (x ∷ xs) ys = ground (arith, keep-append xs ys)

pub elements-concat : (p q : Text) → elements (p ++ b'/' ∷ q) ≡ elements p ++ elements q
unfolding elements
elements-concat p q = rw (split-concat p q b'/') (keep-append (split p b'/') (split q b'/'))

-- A `..` at the bottom of a stack stays there.
collapse-bottom :
    (stack es : List Text)
    → (above : List Text) × (collapse false (stack ++ dotdot ∷ []) es ≡ above ++ dotdot ∷ [])
unfolding collapse step text_eq dotdot
collapse-bottom stack [] = (stack, refl)
collapse-bottom [] (e ∷ es) = elim (Bool-cases (e == dotdot)) [
  | inl same ↦ rw same (collapse-bottom (e ∷ []) es)
  | inr differ ↦ rw differ (collapse-bottom (e ∷ []) es)
]
collapse-bottom (t ∷ stack) (e ∷ es) = elim (Bool-cases (e == dotdot)) [
  | inl same ↦ elim (Bool-cases (t == dotdot)) [
    | inl stuck ↦ rw (same, stuck) (collapse-bottom (e ∷ t ∷ stack) es)
    | inr back ↦ rw (same, back) (collapse-bottom stack es)
  ]
  | inr differ ↦ rw differ (collapse-bottom (e ∷ t ∷ stack) es)
]

-- Without a root, `..` is at the bottom or nowhere.
collapse-IsPlain_or_out :
    (stack es : List Text)
    → IsPlain stack
    → IsPlain (collapse false stack es)
      ⊎ ((above : List Text) × (collapse false stack es ≡ above ++ dotdot ∷ []))
unfolding collapse step
collapse-IsPlain_or_out stack [] h = inl h
collapse-IsPlain_or_out [] (e ∷ es) h = elim (Bool-cases (e == dotdot)) [
  | inl same ↦
      let out : e ≡ dotdot = ground (arith, same) in rw (same, out) (inr (collapse-bottom [] es))
  | inr differ ↦
      rw differ (collapse-IsPlain_or_out (e ∷ []) es (λ p. ground (arith, p, differ), tt))
]
collapse-IsPlain_or_out (t ∷ stack) (e ∷ es) (k, h) = elim (Bool-cases (e == dotdot)) [
  | inl same ↦ elim (Bool-cases (t == dotdot)) [
    | inl stuck ↦ absurd (k (ground (arith, stuck)))
    | inr back ↦ rw (same, back) (collapse-IsPlain_or_out stack es h)
  ]
  | inr differ ↦
      rw differ
        (collapse-IsPlain_or_out (e ∷ t ∷ stack) es (λ p. ground (arith, p, differ), (k, h)))
]

not-IsPlain : (above : List Text) → ¬ IsPlain (above ++ dotdot ∷ [])
not-IsPlain [] (h, _) = h refl
not-IsPlain (a ∷ above) (_, h) = not-IsPlain above h

step_out : (e : Text) → (e == dotdot) ≡ true → step false [] e ≡ dotdot ∷ []
unfolding step
step_out e h = ground arith

pub step_on :
    (rooted : Bool) (stack : List Text) (e : Text)
    → (e == dotdot) ≡ false
    → step rooted stack e ≡ e ∷ stack
unfolding step
step_on rooted [] e h = ground arith
step_on rooted (t ∷ stack) e h = ground arith

step_back :
    (rooted : Bool) (stack : List Text) (t e : Text)
    → t ≢ dotdot
    → (e == dotdot) ≡ true
    → step rooted (t ∷ stack) e ≡ stack
unfolding step
step_back rooted stack t e n h = ground arith

-- Elements that stay within their start do the same on top of a rooted path.
collapse-onto :
    (stack below es : List Text)
    → IsPlain stack
    → IsPlain (collapse false stack es)
    → collapse true (stack ++ below) es ≡ collapse false stack es ++ below
unfolding collapse
collapse-onto stack below [] h k = refl
collapse-onto [] below (e ∷ es) h k = elim (Bool-cases (e == dotdot)) [
  | inl same ↦
      let (above, b) = collapse-bottom [] es in
      absurd (not-IsPlain above (rw (sym b) (rw (step_out e same) at k)))
  | inr differ ↦
      let on : IsPlain (collapse false (e ∷ []) es) = rw (step_on false [] e differ) at k in
      rw (step_on true below e differ, step_on false [] e differ)
        (collapse-onto (e ∷ []) below es ((λ p. ground (arith, p, differ)), tt) on)
]
collapse-onto (t ∷ stack) below (e ∷ es) (p, h) k = elim (Bool-cases (e == dotdot)) [
  | inl same ↦
      let back : IsPlain (collapse false stack es) = rw (step_back false stack t e p same) at k in
      rw (step_back true (stack ++ below) t e p same, step_back false stack t e p same)
        (collapse-onto stack below es h back)
  | inr differ ↦
      let on : IsPlain (collapse false (e ∷ t ∷ stack) es) =
        rw (step_on false (t ∷ stack) e differ) at k in
      rw (step_on true (t ∷ stack ++ below) e differ, step_on false (t ∷ stack) e differ)
        (collapse-onto (e ∷ t ∷ stack) below es ((λ q. ground (arith, q, differ)), (p, h)) on)
]

-- A relative path that does not lead out by `..` holds none.
pub inside-IsPlain :
    (path : Text)
    → is_abs path ≡ false
    → escapes (clean path) ≡ false
    → IsPlain (collapse false [] (elements path))
unfolding clean parts render
inside-IsPlain path r n = elim (collapse-IsPlain_or_out [] (elements path) tt) [
  | inl plain ↦ plain
  | inr (above, out) ↦ absurd (
      ground (arith, r, n, out, reverse-append above (dotdot ∷ []), escapes-dotdot (reverse above)))
]

parts-concat :
    (root path : Text)
    → is_abs root ≡ true
    → is_abs (root ++ b'/' ∷ path) ≡ true
    → is_abs path ≡ false
    → IsPlain (collapse false [] (elements path))
    → parts (root ++ b'/' ∷ path) ≡ parts root ++ parts path
unfolding parts
parts-concat root path a b r plain =
    let stack : List Text = collapse true [] (elements root) in
    rw
      (
        a,
        b,
        r,
        elements-concat root path,
        collapse-append true [] (elements root) (elements path),
        collapse-onto [] stack (elements path) tt plain,
      )
      (reverse-append (collapse false [] (elements path)) stack)

parts-IsPlain :
    (path : Text)
    → is_abs path ≡ false
    → IsPlain (collapse false [] (elements path))
    → IsPlain (parts path)
unfolding parts
parts-IsPlain path r plain = rw r (All-reverse (λ e. e ≢ dotdot) _ plain)

pub is_abs_head : (c : ℕ) (p q : Text) → is_abs (c ∷ p ++ b'/' ∷ q) ≡ is_abs (c ∷ p)
unfolding is_abs
is_abs_head c p q = refl

is_abs-nil : is_abs [] ≡ false
unfolding is_abs
is_abs-nil = refl

-- Below a rooted path, a relative path that does not lead out by `..` adds its elements.
pub parts-join_path :
    (root path : Text)
    → is_abs root ≡ true
    → is_abs path ≡ false
    → escapes (clean path) ≡ false
    → (parts (join_path root path) ≡ parts root ++ parts path) × IsPlain (parts path)
unfolding join_path
parts-join_path [] path a r n = absurd (ground (arith, a, is_abs-nil))
parts-join_path (c ∷ root) path a r n =
    let plain = inside-IsPlain path r n in
    (
      parts-clean (c ∷ root ++ b'/' ∷ path)
          ∙ parts-concat (c ∷ root) path a (is_abs_head c root path ∙ a) r plain,
      parts-IsPlain path r plain,
    )
