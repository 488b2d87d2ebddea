-- ===== src/Base/Exec/Keeps.antt =====
-- What a sequence of calls keeps of the state, whether they succeed or fail.
use mathlib.Core.Bool.{Bool, true, false}
use mathlib.Core.Path.{◌≡◌, refl}
use mathlib.Core.Option.{Option, none, some}
use containerd_attributes_cl.Base.Equality.{if◌then◌else◌}
use containerd_attributes_cl.Base.Errors.{Error, Result, ok, err}
use containerd_attributes_cl.Base.Exec.{
  Exec, ◌>>=◌, resume, pure, raise, reads, or_wrap, finally, finally_ignoring, ignoring_failure,
  guard,
}

module _ {S : Type 0} (P : S → Type 0) where
  pub record Keeps {A : Type 0} (m : Exec S A) : Type 0 where
    pub kept : (s : S) → P s → P (m s).1

  resume_kept :
      {A B : Type 0} (f : A → Exec S B) (r : Result A) (s : S)
      → ((a : A) → Keeps (f a))
      → P s
      → P (resume r f s).1
  resume_kept f (ok a) s q p = (q a).kept s p
  resume_kept f (err e) s q p = p

  pub bind-Keeps :
      {A B : Type 0} (m : Exec S A) (f : A → Exec S B)
      → Keeps m
      → ((a : A) → Keeps (f a))
      → Keeps (m >>= f)
  bind-Keeps m f h q = record { kept = λ s p. resume_kept f (m s).0 (m s).1 q (h.kept s p) }

  pub pure-Keeps : {A : Type 0} (a : A) → Keeps (pure a)
  pure-Keeps a = record { kept = λ s p. p }

  pub raise-Keeps : {A : Type 0} (e : Error) → Keeps (raise {A = A} e)
  raise-Keeps e = record { kept = λ s p. p }

  pub reads-Keeps : {A : Type 0} (f : S → Result A) → Keeps (reads f)
  reads-Keeps f = record { kept = λ s p. p }

  pub or_wrap-Keeps :
      {A : Type 0} (f : Error → Error) (m : Exec S A) → Keeps m → Keeps (or_wrap f m)
  or_wrap-Keeps f m h = record { kept = λ s p. h.kept s p }

  pub finally-Keeps :
      {A : Type 0} (m : Exec S A) (c : Exec S (Unit {0})) → Keeps m → Keeps c → Keeps (finally m c)
  finally-Keeps m c h k = record { kept = λ s p. k.kept (m s).1 (h.kept s p) }

  pub finally_ignoring-Keeps :
      {A : Type 0} (m : Exec S A) (c : Exec S (Unit {0}))
      → Keeps m
      → Keeps c
      → Keeps (finally_ignoring m c)
  finally_ignoring-Keeps m c h k = record { kept = λ s p. k.kept (m s).1 (h.kept s p) }

  pub ignoring_failure-Keeps : (m : Exec S (Unit {0})) → Keeps m → Keeps (ignoring_failure m)
  ignoring_failure-Keeps m h = record { kept = λ s p. h.kept s p }

  guarded : (b : Bool) (e : Error) (s : S) → P s → P (guard b e s).1
  guarded true e s p = p
  guarded false e s p = p

  pub guard-Keeps : (b : Bool) (e : Error) → Keeps (guard b e)
  guard-Keeps b e = record { kept = guarded b e }

  pub if-Keeps :
      {A : Type 0} (b : Bool) (m n : Exec S A) → Keeps m → Keeps n → Keeps (if b then m else n)
  if-Keeps true m n h k = h
  if-Keeps false m n h k = k

  -- A failure that a reader may have.
  pub failure-Keeps :
      (failure : Option Error)
      → Keeps {A = Unit {0}} (elim failure [ none ↦ pure tt | some e ↦ raise e ])
  failure-Keeps none = record { kept = λ s p. p }
  failure-Keeps (some e) = record { kept = λ s p. p }

  resume_kept_of :
      {A B : Type 0} (f : A → Exec S B) (r : Result A) (s : S)
      → ((a : A) → r ≡ ok a → Keeps (f a))
      → P s
      → P (resume r f s).1
  resume_kept_of f (ok a) s q p = (q a refl).kept s p
  resume_kept_of f (err e) s q p = p

  -- The second call may rely on what the first one gave it.
  pub bind_known-Keeps :
      {A B : Type 0} (m : Exec S A) (f : A → Exec S B)
      → Keeps m
      → ((a : A) (s : S) → P s → (m s).0 ≡ ok a → Keeps (f a))
      → Keeps (m >>= f)
  bind_known-Keeps m f h q = record {
    kept = λ s p. resume_kept_of f (m s).0 (m s).1 (λ a e. q a s p e) (h.kept s p);
  }

  pub if_done_kept :
      {A : Type 0} (b : Bool) (x y : Result A × S)
      → (b ≡ true → P x.1)
      → (b ≡ false → P y.1)
      → P (if b then x else y).1
  if_done_kept true x y p q = p refl
  if_done_kept false x y p q = q refl
