-- ===== src/Base/Errors.antt =====
-- Go's errors as values: a sentinel, or a message round another error (`%w`), or a message alone, or
-- the exit code of a container (`cli.NewExitError`).
use Prim.Native.Nat.{ℕ}
use mathlib.Core.Path.{◌≡◌, refl}
use mathlib.Core.Logic.{◌⊎◌, inl, inr}
use mathlib.Core.Bool.{Bool, false}
use mathlib.Core.List.{List}
use containerd_attributes_cl.Base.Equality.{Eq, ◌==◌}

-- `not_found`, `already_exists` and `invalid_argument` are the sentinels of containerd's errdefs,
-- `oras_not_found` and `missing_reference` those of oras's errdef, and the next seven those of
-- oras's file store and of this repository's copy of it.
pub data Sentinel : Type 0 where
  not_found already_exists invalid_argument : Sentinel
  oras_not_found missing_reference : Sentinel
  store_closed duplicate_name missing_name path_traversal_disallowed : Sentinel
  overwrite_disallowed not_stored skip_unnamed not_exist : Sentinel

Sentinel-discrete : Discrete Sentinel
Sentinel-discrete = hlevel

instance unfoldable pub sentinel_eq : Eq Sentinel
unfolding Sentinel-discrete
sentinel_eq = record { dec = Sentinel-discrete }

pub data Error : Type 0 where
  sentinel : Sentinel → Error
  message : List ℕ → Error
  wrap : List ℕ → Error → Error
  exit_code : ℕ → Error

-- `errors.Is(err, s)`, by which `errdefs.IsNotFound` and its siblings are defined.
abbrev pub is : Sentinel → Error → Bool
is s (sentinel k) = k == s
is s (message m) = false
is s (wrap m e) = is s e
is s (exit_code n) = false

pub data Result {ℓ} (A : Type ℓ) : Type ℓ where
  ok : A → Result A
  err : Error → Result A

pub Result-cases {ℓ} :
    {A : Type ℓ} (r : Result A) → ((a : A) × (r ≡ ok a)) ⊎ ((e : Error) × (r ≡ err e))
Result-cases (ok a) = inl (a, refl)
Result-cases (err e) = inr (e, refl)

infixl 5 ◌>>=◌
abbrev pub ◌>>=◌ {ℓ κ} : {A : Type ℓ} {B : Type κ} → Result A → (A → Result B) → Result B
ok a >>= f = f a
err e >>= f = err e

abbrev pub Done : Type 0
Done = Result (Unit {0})

-- How a call ends: it returns, it panics, or it still runs when the fuel is used up.
pub data Run {ℓ} (A : Type ℓ) : Type ℓ where
  returns : Result A → Run A
  panics : Run A
  spins : Run A

pub Run-cases {ℓ} :
    {A : Type ℓ} (r : Run A)
    → ((a : A) × (r ≡ returns (ok a)))
      ⊎ (((e : Error) × (r ≡ returns (err e))) ⊎ ((r ≡ panics) ⊎ (r ≡ spins)))
Run-cases (returns (ok a)) = inl (a, refl)
Run-cases (returns (err e)) = inr (inl (e, refl))
Run-cases panics = inr (inr (inl refl))
Run-cases spins = inr (inr (inr refl))
