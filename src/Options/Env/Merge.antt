-- ===== src/Options/Env/Merge.antt =====
-- What the merged environment holds, position by position.
use containerd_attributes_cl.Base.{
  ℕ, zero, suc, ◌+◌, ◌≤◌, Text, List, [], ◌∷◌, ◌++◌, append_assoc, append-nil, Option, none, some,
  Option-cases, inl, inr, set-append, Bool, true, false, ◌≡◌, ◌≢◌, refl, sym, ◌∙◌, ap, arith, ◌==◌,
  text_eq, after?, Lacks, before-append, after?-append, before_lacking, after?_lacking, length, All,
  set, if◌then◌else◌,
}
use containerd_attributes_cl.Options.Env.{
  Cache, key, find, index, override, override_all, replace_or_append_env_values, compact,
}
use containerd_attributes_cl.Options.Env.Compact.{nonempty, compact_lem, nonempty-All}

abbrev pub has_key : Text → List Text → Bool
has_key k [] = false
has_key k (e ∷ es) = if key e == k then true else has_key k es

-- What one override makes of an entry whose key is `k`.
abbrev amend : Text → Text → Text → Text
amend k e value =
    if key value == k then elim (after? value b'=') [ none ↦ [] | some _ ↦ value ] else e

-- The last override of the key decides; it is empty if that override unsets the variable.
abbrev pub final : Text → Text → List Text → Text
final k e [] = e
final k e (value ∷ overrides) = final k (amend k e value) overrides

-- The defaults under the overrides, where the entry that counts for a key is its last one.
abbrev pub settle_onto : List Text → List Text → List Text → List Text
settle_onto overrides (d ∷ ds) (e ∷ es) =
    (if has_key (key d) ds then e else final (key d) e overrides) ∷ settle_onto overrides ds es
settle_onto overrides _ es = es

abbrev pub settle : List Text → List Text → List Text
settle defaults overrides = settle_onto overrides defaults defaults

-- The overrides that are set and that no default has the key of.
abbrev pub additions : List Text → List Text → List Text
additions defaults [] = []
additions defaults (value ∷ overrides) =
    let rest = additions defaults overrides in
    elim (after? value b'=') [
      | none ↦ rest
      | some _ ↦ if has_key (key value) defaults then rest else value ∷ rest
    ]

abbrev last_index : Text → List Text → Option ℕ
last_index k [] = none
last_index k (e ∷ es) = elim (last_index k es) [
  | some i ↦ some (suc i)
  | none ↦ if key e == k then some zero else none
]

abbrev from : ℕ → Option ℕ → Option ℕ → Option ℕ
from i none old = old
from i (some j) old = some (i + j)

find-index :
    (k : Text) (ds : List Text) (i : ℕ) (cache : Cache)
    → find k (index i ds cache) ≡ from i (last_index k ds) (find k cache)
unfolding find index
find-index k [] i cache = refl
find-index k (e ∷ es) i cache = ground (arith, find-index k es (suc i) ((key e, i) ∷ cache))

find-index-zero : (k : Text) (ds : List Text) → find k (index zero ds []) ≡ last_index k ds
unfolding find
find-index-zero k ds = ground (arith, find-index k ds zero [])

last_index-has_key :
    (k : Text) (ds : List Text)
    → has_key k ds ≡ elim (last_index k ds) [ none ↦ false | some _ ↦ true ]
last_index-has_key k [] = refl
last_index-has_key k (e ∷ es) = ground (arith, last_index-has_key k es)

settle_onto-cons :
    (value : Text) (overrides ds es : List Text)
    → settle_onto (value ∷ overrides) ds es
      ≡ settle_onto overrides ds (settle_onto (value ∷ []) ds es)
settle_onto-cons value overrides [] es = refl
settle_onto-cons value overrides (d ∷ ds) [] = refl
settle_onto-cons value overrides (d ∷ ds) (e ∷ es) =
    ground (arith, settle_onto-cons value overrides ds es)

settle_onto-nil : (ds es : List Text) → settle_onto [] ds es ≡ es
settle_onto-nil [] es = refl
settle_onto-nil (d ∷ ds) [] = refl
settle_onto-nil (d ∷ ds) (e ∷ es) = ground (arith, settle_onto-nil ds es)

length-settle_onto :
    (overrides ds es : List Text) → length (settle_onto overrides ds es) ≡ length es
length-settle_onto overrides [] es = refl
length-settle_onto overrides (d ∷ ds) [] = refl
length-settle_onto overrides (d ∷ ds) (e ∷ es) = ap suc (length-settle_onto overrides ds es)

-- What an override writes at the position of its key.
abbrev written : Text → Text
written value = elim (after? value b'=') [ none ↦ [] | some _ ↦ value ]

no_last_index :
    (value : Text) (ds es : List Text)
    → last_index (key value) ds ≡ none
    → settle_onto (value ∷ []) ds es ≡ es
no_last_index value [] es h = refl
no_last_index value (d ∷ ds) [] h = refl
no_last_index value (d ∷ ds) (e ∷ es) h = ground (arith, no_last_index value ds es)

set-last_index :
    (value : Text) (ds es : List Text) (i : ℕ)
    → length ds ≡ length es
    → last_index (key value) ds ≡ some i
    → (settle_onto (value ∷ []) ds es ≡ set es i (written value)) × (suc i ≤ length es)
set-last_index value [] es i l h = cc
set-last_index value (d ∷ ds) [] i l h = absurd (omega arith)
set-last_index value (d ∷ ds) (e ∷ es) i l h = elim (Option-cases (last_index (key value) ds)) [
  | inl absent ↦
      ground (arith, absent, no_last_index value ds es absent, last_index-has_key (key value) ds)
  | inr (j, found) ↦
      let (p, q) = set-last_index value ds es j (omega arith) found in
      ground (arith, p, q, found, last_index-has_key (key value) ds)
]

-- One override, on results that are the defaults' positions and what was appended.
override_lem :
    (value : Text) (ds es more : List Text)
    → length ds ≡ length es
    → override (index zero ds []) (es ++ more) value
      ≡ settle_onto (value ∷ []) ds es ++ (more ++ additions ds (value ∷ []))
unfolding override
override_lem value ds es more l = elim (Option-cases (last_index (key value) ds)) [
  | inl absent ↦ ground (
    arith,
    absent,
    find-index-zero (key value) ds,
    no_last_index value ds es absent,
    last_index-has_key (key value) ds,
    append-nil more,
    append_assoc es more (value ∷ []),
  )
  | inr (i, found) ↦
      let (p, q) = set-last_index value ds es i l found in
      ground (
        arith,
        found,
        p,
        find-index-zero (key value) ds,
        last_index-has_key (key value) ds,
        append-nil more,
        set-append es more i (written value) q,
      )
]

additions-cons :
    (value : Text) (overrides ds : List Text)
    → additions ds (value ∷ overrides) ≡ additions ds (value ∷ []) ++ additions ds overrides
additions-cons value overrides ds = ground arith

override_all_lem :
    (overrides ds es more : List Text)
    → length ds ≡ length es
    → override_all (index zero ds []) (es ++ more) overrides
      ≡ settle_onto overrides ds es ++ (more ++ additions ds overrides)
unfolding override_all
override_all_lem [] ds es more l = rw (settle_onto-nil ds es, append-nil more)
override_all_lem (value ∷ overrides) ds es more l = rw (override_lem value ds es more l) (
    override_all_lem overrides ds (settle_onto (value ∷ []) ds es)
      (more ++ additions ds (value ∷ [])) (l ∙ sym (length-settle_onto (value ∷ []) ds es))
    ∙ rw (
      settle_onto-cons value overrides ds es,
      append_assoc more (additions ds (value ∷ [])) (additions ds overrides),
      additions-cons value overrides ds,
    ))

-- The merged environment is the defaults, the last entry of each key as the last override of that
-- key leaves it, and then the set overrides whose key no default has, in their order; without the
-- entries that are empty.
pub replace_or_append_env_values-eq-settle :
    (defaults overrides : List Text)
    → replace_or_append_env_values defaults overrides
      ≡ nonempty (settle defaults overrides ++ additions defaults overrides)
unfolding replace_or_append_env_values
replace_or_append_env_values-eq-settle ds overrides =
    ap (λ r. compact (length r) r zero)
      (ap (λ r. override_all (index zero ds []) r overrides) (sym (append-nil ds))
        ∙ override_all_lem overrides ds ds [] refl)
    ∙ compact_lem (settle ds overrides ++ additions ds overrides)

-- No entry of the merged environment is empty.
pub replace_or_append_env_values_nonempty :
    (defaults overrides : List Text)
    → All (λ e. e ≢ []) (replace_or_append_env_values defaults overrides)
replace_or_append_env_values_nonempty ds overrides =
    rw (replace_or_append_env_values-eq-settle ds overrides) (nonempty-All _)

settle_onto_absent :
    (value : Text) (ds es : List Text)
    → has_key (key value) ds ≡ false
    → settle_onto (value ∷ []) ds es ≡ es
settle_onto_absent value ds es h =
    no_last_index value ds es (ground (arith, last_index-has_key (key value) ds))

-- A variable that no default has, set by one override and then unset by a bare key, stays set.
pub replace_or_append_env_values_unset_new :
    (defaults : List Text) (k v : Text)
    → has_key k defaults ≡ false
    → Lacks b'=' k
    → replace_or_append_env_values defaults ((k ++ b'=' ∷ v) ∷ k ∷ [])
      ≡ nonempty (defaults ++ (k ++ b'=' ∷ v) ∷ [])
replace_or_append_env_values_unset_new ds k v absent plain =
    let bare : after? k b'=' ≡ none = after?_lacking k b'=' plain in
    let same : key k ≡ k = before_lacking k b'=' plain in
    let given : key (k ++ b'=' ∷ v) ≡ k = before-append k v b'=' plain in
    rw
      (
        replace_or_append_env_values-eq-settle,
        settle_onto-cons (k ++ b'=' ∷ v) (k ∷ []) ds ds,
        settle_onto_absent (k ++ b'=' ∷ v) ds ds (rw given absent),
        settle_onto_absent k ds ds (rw same absent),
      )
      (ground (arith, after?-append k v b'=' plain, bare, given))
