-- ===== src/Options/Env.antt =====
-- aritfact/options/options.go, `replaceOrAppendEnvValues`: environment variables of an image with
-- overrides. A Go map is an association list, in which a write shadows the earlier ones.
pub mod Compact
pub mod Merge
pub mod Bounds
use containerd_attributes_cl.Base.{
  ℕ, zero, suc, Text, List, [], ◌∷◌, ◌++◌, Option, none, some, Bool, true, false, ◌==◌, text_eq,
  before, after?, is_empty, if◌then◌else◌, length, get_elem?, set, take, drop,
}

abbrev pub Cache : Type 0
Cache = List (Text × ℕ)

-- The key of `KEY=value`, and of a bare `KEY`.
abbrev pub key : Text → Text
key e = before e b'='

pub find : Text → Cache → Option ℕ
find k [] = none
find k ((j, i) ∷ cache) = let rest = find k cache in if j == k then some i else rest

-- The first loop, from position `i` on.
pub index : ℕ → List Text → Cache → Cache
index i [] cache = cache
index i (e ∷ defaults) cache = index (suc i) defaults ((key e, i) ∷ cache)

-- The body of the second loop: a value without `=` unsets its variable.
pub override : Cache → List Text → Text → List Text
override cache results value = elim (after? value b'=') [
  | none ↦ elim (find (key value) cache) [ some i ↦ set results i [] | none ↦ results ]
  | some _ ↦ elim (find (key value) cache) [
    | some i ↦ set results i value
    | none ↦ results ++ value ∷ []
  ]
]

pub override_all : Cache → List Text → List Text → List Text
override_all cache results [] = results
override_all cache results (value ∷ overrides) =
    override_all cache (override cache results value) overrides

-- `append(results[:i], results[i+1:]...)`
abbrev remove_at : List Text → ℕ → List Text
remove_at results i = take i results ++ drop (suc i) results

-- The third loop at position `i`, with as much fuel as rounds are left.
pub compact : ℕ → List Text → ℕ → List Text
compact zero results i = results
compact (suc fuel) results i = elim (get_elem? results i) [
  | none ↦ results
  | some e ↦ elim (is_empty e) [
    | true ↦ compact fuel (remove_at results i) i
    | false ↦ compact fuel results (suc i)
  ]
]

unfoldable pub replace_or_append_env_values : List Text → List Text → List Text
unfolding find index override override_all compact
replace_or_append_env_values defaults overrides =
    let results = override_all (index zero defaults []) defaults overrides in
    compact (length results) results zero
