-- ===== src/Base/Exec.antt =====
-- Calls that change a state and may fail. What was done before a failure stays done, so the state
-- comes back beside the error too.
pub mod Keeps
use mathlib.Core.Bool.{Bool, true, false}
use containerd_attributes_cl.Base.Errors.{Error, Result, ok, err}

abbrev pub Exec : Type 0 → Type 0 → Type 0
Exec S A = S → Result A × S

abbrev pub resume : {S A B : Type 0} → Result A → (A → Exec S B) → Exec S B
resume (ok a) f s = f a s
resume (err e) f s = (err e, s)

infixl 10 ◌>>=◌ ◌>>◌
abbrev pub ◌>>=◌ : {S A B : Type 0} → Exec S A → (A → Exec S B) → Exec S B
◌>>=◌ m f s = let (r, s') = m s in resume r f s'

abbrev pub ◌>>◌ : {S B : Type 0} → Exec S (Unit {0}) → Exec S B → Exec S B
m >> n = m >>= λ _. n

abbrev pub pure : {S A : Type 0} → A → Exec S A
pure a s = (ok a, s)

abbrev pub raise : {S A : Type 0} → Error → Exec S A
raise e s = (err e, s)

-- A call that reads the state.
abbrev pub reads : {S A : Type 0} → (S → Result A) → Exec S A
reads f s = (f s, s)

-- `return fmt.Errorf("...: %w", err)` on a failure of `m`; nothing else changes.
abbrev pub map_err : {A : Type 0} → (Error → Error) → Result A → Result A
map_err f (ok a) = ok a
map_err f (err e) = err (f e)

abbrev pub or_wrap : {S A : Type 0} → (Error → Error) → Exec S A → Exec S A
or_wrap f m s = let (r, s') = m s in (map_err f r, s')

abbrev pub first_failure : {A : Type 0} → Result A → Result (Unit {0}) → Result A
first_failure (err e) _ = err e
first_failure (ok a) (ok _) = ok a
first_failure (ok a) (err e) = err e

-- A deferred call whose error counts if there is none before: `if err == nil { err = closeErr }`.
abbrev pub finally : {S A : Type 0} → Exec S A → Exec S (Unit {0}) → Exec S A
finally m close s = let (r, s') = m s in let (c, s'') = close s' in (first_failure r c, s'')

-- A deferred call whose error is dropped.
abbrev pub finally_ignoring : {S A : Type 0} → Exec S A → Exec S (Unit {0}) → Exec S A
finally_ignoring m close s = let (r, s') = m s in (r, (close s').1)

-- A call whose error is lost, and whose changes stay.
abbrev pub ignoring_failure : {S : Type 0} → Exec S (Unit {0}) → Exec S (Unit {0})
ignoring_failure m s = (ok tt, (m s).1)

abbrev pub guard : {S : Type 0} → Bool → Error → Exec S (Unit {0})
guard true e s = (ok tt, s)
guard false e s = (err e, s)
