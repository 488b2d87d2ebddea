-- ===== src/Base/Proc.antt =====
-- Calls that change a state, may fail, may panic, and may never return.
pub mod Along
use mathlib.Core.Path.{◌≡◌, refl}
use mathlib.Core.Logic.{◌⊎◌, inl, inr}
use mathlib.Core.Bool.{Bool, true, false}
use containerd_attributes_cl.Base.Equality.{if◌then◌else◌}
use containerd_attributes_cl.Base.Errors.{
  Error, Result, ok, err, Run, returns, panics, spins, Run-cases, Result-cases,
}
use containerd_attributes_cl.Base.Exec.{Exec}

abbrev pub Proc : Type 0 → Type 0 → Type 0
Proc S A = S → Run A × S

abbrev pub resume : {S A B : Type 0} → Run A → (A → Proc S B) → Proc S B
resume (returns (ok a)) f s = f a s
resume (returns (err e)) f s = (returns (err e), s)
resume panics f s = (panics, s)
resume spins f s = (spins, s)

infixl 10 ◌>>=◌ ◌>>◌
abbrev pub ◌>>=◌ : {S A B : Type 0} → Proc S A → (A → Proc S B) → Proc S B
◌>>=◌ m f s = let (r, s') = m s in resume r f s'

abbrev pub ◌>>◌ : {S B : Type 0} → Proc S (Unit {0}) → Proc S B → Proc S B
m >> n = m >>= λ _. n

abbrev pub pure : {S A : Type 0} → A → Proc S A
pure a s = (returns (ok a), s)

abbrev pub raise : {S A : Type 0} → Error → Proc S A
raise e s = (returns (err e), s)

abbrev pub lift : {S A : Type 0} → Exec S A → Proc S A
lift m s = let (r, s') = m s in (returns r, s')

-- A call whose result is dropped.
abbrev pub drop_result : {S A : Type 0} → Exec S A → S → S
drop_result m s = (m s).1

abbrev pub at_end : {S A : Type 0} → Run A → (S → S) → S → Run A × S
at_end (returns r) f s = (returns r, f s)
at_end panics f s = (panics, f s)
at_end spins f s = (spins, s)

-- `defer`: the call is made when the function returns or panics, and not if it never ends.
abbrev pub defer : {S A : Type 0} → (S → S) → Proc S A → Proc S A
defer f m s = let (r, s') = m s in at_end r f s'

-- Whether a call ended, by returning or by a panic.
abbrev pub ended : {A : Type 0} → Run A → Bool
ended (returns r) = true
ended panics = true
ended spins = false

-- To show something of how a sequence ends, split on how its first part ends.
pub bind_cases :
    {S A B : Type 0} (Q : Run B → S → Type 0) (m : Proc S A) (f : A → Proc S B) (s : S)
    → ((a : A) → (m s).0 ≡ returns (ok a) → Q (f a (m s).1).0 (f a (m s).1).1)
    → ((e : Error) → (m s).0 ≡ returns (err e) → Q (returns (err e)) (m s).1)
    → ((m s).0 ≡ panics → Q panics (m s).1)
    → ((m s).0 ≡ spins → Q spins (m s).1)
    → Q ((m >>= f) s).0 ((m >>= f) s).1
bind_cases Q m f s good bad panicked stuck = elim (Run-cases (m s).0) [
  | inl (a, p) ↦ rw p (good a p)
  | inr (inl (e, p)) ↦ rw p (bad e p)
  | inr (inr (inl p)) ↦ rw p (panicked p)
  | inr (inr (inr p)) ↦ rw p (stuck p)
]

pub lift_cases :
    {S A B : Type 0} (Q : Run B → S → Type 0) (m : Exec S A) (f : A → Proc S B) (s : S)
    → ((a : A) → (m s).0 ≡ ok a → Q (f a (m s).1).0 (f a (m s).1).1)
    → ((e : Error) → (m s).0 ≡ err e → Q (returns (err e)) (m s).1)
    → Q ((lift m >>= f) s).0 ((lift m >>= f) s).1
lift_cases Q m f s good bad = elim (Result-cases (m s).0) [
  | inl (a, p) ↦ rw p (good a p)
  | inr (e, p) ↦ rw p (bad e p)
]

-- The deferred call comes after every end.
pub defer_cases :
    {S A : Type 0} (Q : Run A → S → Type 0) (f : S → S) (m : Proc S A) (s : S)
    → (ended (m s).0 ≡ true → Q (m s).0 (f (m s).1))
    → ((m s).0 ≡ spins → Q spins (m s).1)
    → Q (defer f m s).0 (defer f m s).1
defer_cases Q f m s good stuck = elim (Run-cases (m s).0) [
  | inl (a, p) ↦ rw p (rw p at good refl)
  | inr (inl (e, p)) ↦ rw p (rw p at good refl)
  | inr (inr (inl p)) ↦ rw p (rw p at good refl)
  | inr (inr (inr p)) ↦ rw p (stuck p)
]

pub if_cases :
    {S A : Type 0} (Q : Run A → S → Type 0) (b : Bool) (m n : Proc S A) (s : S)
    → (b ≡ true → Q (m s).0 (m s).1)
    → (b ≡ false → Q (n s).0 (n s).1)
    → Q ((if b then m else n) s).0 ((if b then m else n) s).1
if_cases Q true m n s yes_ no_ = yes_ refl
if_cases Q false m n s yes_ no_ = no_ refl

pub if_done_cases :
    {S A : Type 0} (Q : Run A → S → Type 0) (b : Bool) (x y : Run A × S)
    → (b ≡ true → Q x.0 x.1)
    → (b ≡ false → Q y.0 y.1)
    → Q (if b then x else y).0 (if b then x else y).1
if_done_cases Q true x y yes_ no_ = yes_ refl
if_done_cases Q false x y yes_ no_ = no_ refl
