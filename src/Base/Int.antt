-- ===== src/Base/Int.antt =====
-- Go's signed integers, as far as they are compared.
use Prim.Native.Nat.{ℕ}
use native.Mathlib.Decide.{ℕ_discrete}
use containerd_attributes_cl.Base.Equality.{Eq}

-- `negsuc n` is -(n + 1).
pub data ℤ : Type 0 where
  pos : ℕ → ℤ
  negsuc : ℕ → ℤ

ℤ-discrete : Discrete ℤ
unfolding ℕ_discrete
ℤ-discrete = hlevel ℕ_discrete

instance unfoldable pub ℤ_eq : Eq ℤ
unfolding ℤ-discrete
ℤ_eq = record { dec = ℤ-discrete }
