-- ===== src/Options/Env/Bounds.antt =====
-- The entries of the merged environment.
use containerd_attributes_cl.Base.{
  ◌+◌, ◌≤◌, Text, List, [], ◌∷◌, ◌++◌, All, is_empty, false, Bool-cases, inl, inr, ◌≡◌, arith,
  text_eq, length, length-append,
}
use containerd_attributes_cl.Options.Env.{replace_or_append_env_values}
use containerd_attributes_cl.Options.Env.Compact.{nonempty}
use containerd_attributes_cl.Options.Env.Merge.{
  settle, settle_onto, additions, replace_or_append_env_values-eq-settle,
}

length-nonempty : (es : List Text) → length (nonempty es) ≤ length es
unfolding nonempty
length-nonempty [] = omega arith
length-nonempty (e ∷ es) = ground (arith, length-nonempty es)

length-settle_onto :
    (overrides ds es : List Text) → length (settle_onto overrides ds es) ≡ length es
length-settle_onto overrides (d ∷ ds) (e ∷ es) = omega (arith, length-settle_onto overrides ds es)
length-settle_onto overrides [] es = omega arith
length-settle_onto overrides (d ∷ ds) [] = omega arith

length-additions :
    (defaults overrides : List Text) → length (additions defaults overrides) ≤ length overrides
length-additions defaults [] = omega arith
length-additions defaults (value ∷ overrides) = ground (arith, length-additions defaults overrides)

All-nonempty : (es : List Text) → All (λ e. is_empty e ≡ false) (nonempty es)
unfolding nonempty
All-nonempty [] = tt
All-nonempty (e ∷ es) = elim (Bool-cases (is_empty e)) [
  | inl empty ↦ rw (nonempty, empty) (All-nonempty es)
  | inr full ↦ rw (nonempty, full) (full, All-nonempty es)
]

-- The merged environment has no empty entry, whatever was unset and whatever the defaults were, and at
-- most as many as the defaults and the overrides together.
pub replace_or_append_env_values_compact :
    (defaults overrides : List Text)
    → let merged = replace_or_append_env_values defaults overrides in
      All (λ e. is_empty e ≡ false) merged × (length merged ≤ length defaults + length overrides)
replace_or_append_env_values_compact defaults overrides =
    let settled = settle defaults overrides in
    let added = additions defaults overrides in
    rw (replace_or_append_env_values-eq-settle defaults overrides) (
      All-nonempty (settled ++ added),
      omega (
        arith,
        length-nonempty (settled ++ added),
        length-append settled added,
        length-settle_onto overrides defaults defaults,
        length-additions defaults overrides,
      ),
    )
