-- ===== src/Artifact.antt =====
-- aritfact/artifact.go: a layer becomes a committed snapshot on top of those below it. What the
-- functions call is a parameter: the snapshotter (containerd's snapshots.Snapshotter), the applier
-- (diff.Applier), image-spec's ChainID, and the random part of a key.
pub mod Services
pub mod Committed
pub mod Settles
use mathlib.Core.List.{reverse}
use containerd_attributes_cl.Base.{
  Text, ℕ, zero, suc, lit, List, [], ◌∷◌, ◌++◌, map, Option, none, some, Bool, true, false, ◌&&◌,
  not, ◌==◌, text_eq, if◌then◌else◌, Error, message, wrap, is, already_exists, not_found,
  sentinel_eq, Result, ok, err, Done, Run, returns, panics, spins,
}
use containerd_attributes_cl.Content.{Descriptor}
use Services.{Backend}

pub record Artifact : Type 0 where
  pub blob : Descriptor

pub data Prepared (M : Type 0) : Type 0 where
  ready : Text → M → Prepared M
  failed : Error → Prepared M
  crashed : Prepared M
  tried : Prepared M

abbrev is_nil : List Artifact → Bool
is_nil [] = true
is_nil (a ∷ below) = false

module _ (B : Backend) where
  open B use {State, Mounts, Opt, ApplyOpt, stat, prepare, commit, remove, apply}
  open B use {chain_id, unpack_key, unique_part}

  -- The loop of `applyArtifacts`, with fuel. `many` says that there are layers below to apply when
  -- the parent is missing, which `below` does; the loop does so once.
  pub prepare_loop :
      (below : State → Run (Unit {0}) × State)
      → ℕ
      → Bool
      → Text
      → Text
      → List Opt
      → State
      → Prepared Mounts × State
  prepare_loop below zero many parent id opts s = (tried, s)
  prepare_loop below (suc fuel) many parent id opts s =
      let (unique, s₁) = unique_part s in
      let key = unpack_key unique id in
      let (prepared, s₂) = prepare key parent opts s₁ in
      elim prepared [
        | ok mounts ↦ (ready key mounts, s₂)
        | err e ↦ elim (is not_found e && many) [
          | true ↦
              let (applied, s₃) = below s₂ in
              elim applied [
                | returns (ok _) ↦ prepare_loop below fuel false parent id opts s₃
                | returns (err e') ↦ elim (is already_exists e') [
                  | true ↦ prepare_loop below fuel false parent id opts s₃
                  | false ↦ (failed e', s₃)
                ]
                | panics ↦ (crashed, s₃)
                | spins ↦ (tried, s₃)
              ]
          | false ↦ elim (is already_exists e) [
            | true ↦ prepare_loop below fuel many parent id opts s₂
            | false ↦ (failed (wrap (lit "failed to prepare extraction snapshot " ++ key) e), s₂)
          ]
        ]
      ]

  -- The deferred call: on an error the snapshot that was being extracted is removed, and what
  -- comes of that is only logged.
  unfoldable pub clean_up : Text → Error → State → Run (Unit {0}) × State
  clean_up key e s = (returns (err e), (remove key s).1)

  -- The rest of `applyArtifacts`, with the snapshot at `key` prepared.
  unfoldable pub extract :
      Artifact → Text → Mounts → Text → List Opt → List ApplyOpt → State → Run (Unit {0}) × State
  unfolding clean_up
  extract artifact key mounts id opts apply_opts s =
      let (diff, s₁) = apply artifact.blob mounts apply_opts s in
      elim diff [
        | err e ↦ clean_up key (wrap (lit "failed to extract layer " ++ artifact.blob.digest) e) s₁
        | ok d ↦ elim (d.digest == artifact.blob.digest) [
          | false ↦
              clean_up key (message (lit "wrong diff id calculated on extraction " ++ d.digest)) s₁
          | true ↦
              let (committed, s₂) = commit id key opts s₁ in
              elim committed [
                | err e ↦ clean_up key (wrap (lit "failed to commit snapshot " ++ key) e) s₂
                | ok _ ↦ (returns (ok tt), s₂)
              ]
        ]
      ]

  abbrev go_on :
      Artifact → Text → List Opt → List ApplyOpt → Prepared Mounts × State → Run (Unit {0}) × State
  go_on artifact id opts apply_opts (ready key mounts, s) =
      extract artifact key mounts id opts apply_opts s
  go_on artifact id opts apply_opts (failed e, s) = (returns (err e), s)
  go_on artifact id opts apply_opts (crashed, s) = (panics, s)
  go_on artifact id opts apply_opts (tried, s) = (spins, s)

  -- `applyArtifacts`, with the slices of artifacts and of digests read from their ends:
  -- `artifacts[len-1]` is the first, `artifacts[:len-1]` the rest.
  pub apply_onto :
      ℕ → List Artifact → List Text → List Opt → List ApplyOpt → State → Run (Unit {0}) × State
  apply_onto fuel (a ∷ below) (d ∷ chain) opts apply_opts s =
      go_on a (chain_id (reverse (d ∷ chain))) opts apply_opts (
        prepare_loop (apply_onto fuel below chain opts apply_opts) fuel (not (is_nil below))
          (chain_id (reverse chain)) (chain_id (reverse (d ∷ chain))) opts s)
  apply_onto fuel _ _ opts apply_opts s = (panics, s)

  pub apply_artifacts :
      ℕ → List Artifact → List Text → List Opt → List ApplyOpt → State → Run (Unit {0}) × State
  unfolding prepare_loop extract apply_onto
  apply_artifacts fuel artifacts chain opts apply_opts s =
      apply_onto fuel (reverse artifacts) (reverse chain) opts apply_opts s

  abbrev applied_or_known : Text → Run (Unit {0}) × State → Run Text × State
  applied_or_known id (returns (ok _), s) = (returns (ok id), s)
  applied_or_known id (returns (err e), s) =
      (if is already_exists e then returns (ok id) else returns (err e), s)
  applied_or_known id (panics, s) = (panics, s)
  applied_or_known id (spins, s) = (spins, s)

  -- `ApplyArtifactsWithOpts`
  unfoldable pub apply_artifacts_with_opts :
      ℕ → List Artifact → List ApplyOpt → State → Run Text × State
  unfolding apply_artifacts
  apply_artifacts_with_opts fuel artifacts apply_opts s =
      let chain = map (λ (a : Artifact). a.blob.digest) artifacts in
      let id = chain_id chain in
      elim (stat s id) [
        | ok _ ↦ (returns (ok id), s)
        | err e ↦ elim (is not_found e) [
          | false ↦ (returns (err (wrap (lit "failed to stat snapshot " ++ id) e)), s)
          | true ↦ applied_or_known id (apply_artifacts fuel artifacts chain [] apply_opts s)
        ]
      ]

  -- `ApplyArtifacts`
  unfoldable pub apply_all : ℕ → List Artifact → State → Run Text × State
  unfolding apply_artifacts_with_opts
  apply_all fuel artifacts s = apply_artifacts_with_opts fuel artifacts [] s

  abbrev was_applied : Run (Unit {0}) × State → Run Bool × State
  was_applied (returns (ok _), s) = (returns (ok true), s)
  was_applied (returns (err e), s) =
      (if is already_exists e then returns (ok false) else returns (err e), s)
  was_applied (panics, s) = (panics, s)
  was_applied (spins, s) = (spins, s)

  -- `ApplyArtifactWithOpts`: whether the layer was applied, or else its snapshot was there.
  unfoldable pub apply_artifact_with_opts :
      ℕ → Artifact → List Text → List Opt → List ApplyOpt → State → Run Bool × State
  unfolding apply_artifacts
  apply_artifact_with_opts fuel artifact chain opts apply_opts s =
      let id = chain_id (chain ++ artifact.blob.digest ∷ []) in
      elim (stat s id) [
        | ok _ ↦ (returns (ok false), s)
        | err e ↦ elim (is not_found e) [
          | false ↦ (returns (err (wrap (lit "failed to stat snapshot " ++ id) e)), s)
          | true ↦ was_applied (
              apply_artifacts fuel (artifact ∷ []) (chain ++ artifact.blob.digest ∷ []) opts
                apply_opts s)
        ]
      ]

  -- `ApplyArtifact`
  unfoldable pub apply_artifact : ℕ → Artifact → List Text → List Opt → State → Run Bool × State
  unfolding apply_artifact_with_opts
  apply_artifact fuel artifact chain opts s = apply_artifact_with_opts fuel artifact chain opts [] s
