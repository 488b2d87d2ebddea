-- ===== src/Base/Maps.antt =====
-- A Go map with string keys: an association list in which a write shadows the earlier ones.
use mathlib.Core.Path.{◌≡◌, refl}
use mathlib.Core.Option.{Option, none, some}
use mathlib.Core.List.{List, [], ◌∷◌}
use containerd_attributes_cl.Base.Equality.{◌==◌, text_eq, if◌then◌else◌}
use containerd_attributes_cl.Base.Strings.{Text}

module _ {ℓ} {V : Type ℓ} where
  -- `m[k]`, with whether it is there
  unfoldable pub load : Text → List (Text × V) → Option V
  load k [] = none
  load k ((j, v) ∷ m) = let rest = load k m in if j == k then some v else rest

  pub load-cons :
      (k j : Text) (v : V) (m : List (Text × V))
      → load k ((j, v) ∷ m) ≡ (if j == k then some v else load k m)
  unfolding load
  load-cons k j v m = refl

  -- Each key stands once, as when a map is ranged over.
  abbrev pub NodupKeys : List (Text × V) → Type ℓ
  NodupKeys [] = Unit
  NodupKeys ((k, v) ∷ m) = (load k m ≡ none) × NodupKeys m
