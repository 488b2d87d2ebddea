-- ===== src/Artifact/Settles.antt =====
-- How often the loop of `applyArtifacts` goes round.
use mathlib.Core.List.{reverse}
use containerd_attributes_cl.Base.{
  Text, ℕ, zero, suc, ◌+◌, ◌≤◌, List, ◌∷◌, Bool, true, false, not, text_eq, Error, is,
  already_exists, sentinel_eq, err, Run, spins, ◌≡◌, ◌≢◌, refl, arith, Result-cases, inl, inr,
}
use containerd_attributes_cl.Content.{Descriptor}
use containerd_attributes_cl.Artifact.Services.{Backend}
use containerd_attributes_cl.Artifact.{
  Artifact, Prepared, ready, failed, crashed, tried, prepare_loop, clean_up, extract, go_on, is_nil,
  apply_onto, apply_artifacts,
}

-- `left s` bounds how many more times a key that is drawn from `s` on is taken.
pub record Collisions (B : Backend) : Type 0 where
  pub left : B.State → ℕ
  pub left-unique_part : (s : B.State) → left (B.unique_part s).1 ≤ left s
  pub left-prepare :
      (key parent : Text) (opts : List B.Opt) (s : B.State)
      → left (B.prepare key parent opts s).1 ≤ left s
  pub left_falls :
      (key parent : Text) (opts : List B.Opt) (s : B.State) (e : Error)
      → (B.prepare key parent opts s).0 ≡ err e
      → is already_exists e ≡ true
      → suc (left (B.prepare key parent opts s).1) ≤ left s
  pub left-commit :
      (name key : Text) (opts : List B.Opt) (s : B.State)
      → left (B.commit name key opts s).1 ≤ left s
  pub left-remove : (key : Text) (s : B.State) → left (B.remove key s).1 ≤ left s
  pub left-apply :
      (d : Descriptor) (m : B.Mounts) (opts : List B.ApplyOpt) (s : B.State)
      → left (B.apply d m opts s).1 ≤ left s

-- One round for the parent that may be missing, if there are layers below, and one to succeed.
abbrev rounds : Bool → ℕ
rounds true = 2
rounds false = 1

rounds_fit : (many : Bool) (n fuel : ℕ) → n + 2 ≤ fuel → n + rounds many ≤ fuel
rounds_fit true n fuel h = h
rounds_fit false n fuel h = omega arith

module _ (B : Backend) (C : Collisions B) where
  open B use {State, Mounts, Opt, ApplyOpt, prepare, commit, remove, apply, unpack_key, unique_part}
  open C use {
    left, left-unique_part, left-prepare, left_falls, left-commit, left-remove, left-apply,
  }

  left-extract :
      (artifact : Artifact) (key : Text) (mounts : Mounts) (id : Text) (opts : List Opt)
      (apply_opts : List ApplyOpt) (s : State)
      → left (extract B artifact key mounts id opts apply_opts s).1 ≤ left s
  unfolding extract clean_up
  left-extract artifact key mounts id opts apply_opts s =
      let applied = apply artifact.blob mounts apply_opts s in
      let committed = commit id key opts applied.1 in
      ground (
        arith,
        left-apply artifact.blob mounts apply_opts s,
        left-commit id key opts applied.1,
        left-remove key applied.1,
        left-remove key committed.1,
      )

  extract-ne-spins :
      (artifact : Artifact) (key : Text) (mounts : Mounts) (id : Text) (opts : List Opt)
      (apply_opts : List ApplyOpt) (s : State)
      → (extract B artifact key mounts id opts apply_opts s).0 ≢ spins
  unfolding extract clean_up
  extract-ne-spins artifact key mounts id opts apply_opts s = ground arith

  module _ (below : State → Run (Unit {0}) × State) where
    left-prepare_loop :
        ((s : State) → left (below s).1 ≤ left s)
        → (fuel : ℕ) (many : Bool) (parent id : Text) (opts : List Opt) (s : State)
        → left (prepare_loop B below fuel many parent id opts s).1 ≤ left s
    unfolding prepare_loop
    left-prepare_loop keep zero many parent id opts s = omega arith
    left-prepare_loop keep (suc fuel) many parent id opts s =
        let unique = unique_part s in
        let key = unpack_key unique.0 id in
        let prepared = prepare key parent opts unique.1 in
        let applied = below prepared.1 in
        ground (
          arith,
          left-unique_part s,
          left-prepare key parent opts unique.1,
          keep prepared.1,
          left-prepare_loop keep fuel false parent id opts applied.1,
          left-prepare_loop keep fuel many parent id opts prepared.1,
        )

    prepare_loop-ne-tried :
        ((s : State) → left (below s).1 ≤ left s)
        → (bound : ℕ) → ((s : State) → left s ≤ bound → (below s).0 ≢ spins)
        → (fuel : ℕ) (many : Bool) (parent id : Text) (opts : List Opt) (s : State) → left s ≤ bound
        → left s + rounds many ≤ fuel
        → (prepare_loop B below fuel many parent id opts s).0 ≢ tried
    unfolding prepare_loop
    prepare_loop-ne-tried keep bound ends zero true parent id opts s b h = absurd (omega arith)
    prepare_loop-ne-tried keep bound ends zero false parent id opts s b h = absurd (omega arith)
    prepare_loop-ne-tried keep bound ends (suc fuel) many parent id opts s b h =
        let unique = unique_part s in
        let key = unpack_key unique.0 id in
        let prepared = prepare key parent opts unique.1 in
        let applied = below prepared.1 in
        elim (Result-cases prepared.0) [
          | inl (m, p) ↦ ground (arith, p)
          | inr (e, p) ↦ ground (
            arith,
            p,
            left-unique_part s,
            left-prepare key parent opts unique.1,
            left_falls key parent opts unique.1 e p,
            keep prepared.1,
            ends prepared.1,
            prepare_loop-ne-tried keep bound ends fuel false parent id opts applied.1,
            prepare_loop-ne-tried keep bound ends fuel many parent id opts prepared.1,
          )
        ]

  left-go_on :
      (artifact : Artifact) (id : Text) (opts : List Opt) (apply_opts : List ApplyOpt)
      (p : Prepared Mounts × State)
      → left (go_on B artifact id opts apply_opts p).1 ≤ left p.1
  left-go_on artifact id opts apply_opts (ready key m, s) =
      left-extract artifact key m id opts apply_opts s
  left-go_on artifact id opts apply_opts (failed e, s) = omega arith
  left-go_on artifact id opts apply_opts (crashed, s) = omega arith
  left-go_on artifact id opts apply_opts (tried, s) = omega arith

  go_on-ne-spins :
      (artifact : Artifact) (id : Text) (opts : List Opt) (apply_opts : List ApplyOpt)
      (p : Prepared Mounts × State)
      → p.0 ≢ tried
      → (go_on B artifact id opts apply_opts p).0 ≢ spins
  go_on-ne-spins artifact id opts apply_opts (ready key m, s) h =
      extract-ne-spins artifact key m id opts apply_opts s
  go_on-ne-spins artifact id opts apply_opts (failed e, s) h = λ p. cc
  go_on-ne-spins artifact id opts apply_opts (crashed, s) h = λ p. cc
  go_on-ne-spins artifact id opts apply_opts (tried, s) h = absurd (h refl)

  left-apply_onto :
      (fuel : ℕ) (artifacts : List Artifact) (chain : List Text) (opts : List Opt)
      (apply_opts : List ApplyOpt) (s : State)
      → left (apply_onto B fuel artifacts chain opts apply_opts s).1 ≤ left s
  unfolding apply_onto
  left-apply_onto fuel (a ∷ below) (d ∷ chain) opts apply_opts s = omega (
    arith,
    left-go_on a (B.chain_id (reverse (d ∷ chain))) opts apply_opts (
        prepare_loop B (apply_onto B fuel below chain opts apply_opts) fuel (not (is_nil below))
          (B.chain_id (reverse chain)) (B.chain_id (reverse (d ∷ chain))) opts s),
    left-prepare_loop (apply_onto B fuel below chain opts apply_opts)
        (left-apply_onto fuel below chain opts apply_opts) fuel (not (is_nil below))
        (B.chain_id (reverse chain)) (B.chain_id (reverse (d ∷ chain))) opts s,
  )
  left-apply_onto fuel _ _ opts apply_opts s = omega arith

  apply_onto-ne-spins :
      (fuel : ℕ) (artifacts : List Artifact) (chain : List Text) (opts : List Opt)
      (apply_opts : List ApplyOpt) (s : State)
      → left s + 2 ≤ fuel
      → (apply_onto B fuel artifacts chain opts apply_opts s).0 ≢ spins
  unfolding apply_onto
  apply_onto-ne-spins fuel (a ∷ below) (d ∷ chain) opts apply_opts s h =
      go_on-ne-spins a (B.chain_id (reverse (d ∷ chain))) opts apply_opts _ (
        prepare_loop-ne-tried (apply_onto B fuel below chain opts apply_opts)
          (left-apply_onto fuel below chain opts apply_opts) (left s)
          (λ s' b. apply_onto-ne-spins fuel below chain opts apply_opts s' (omega arith)) fuel
          (not (is_nil below)) _ _ opts s (omega arith)
          (rounds_fit (not (is_nil below)) (left s) fuel h))
  apply_onto-ne-spins fuel _ _ opts apply_opts s h = λ p. cc

  pub left-apply_artifacts :
      (fuel : ℕ) (artifacts : List Artifact) (chain : List Text) (opts : List Opt)
      (apply_opts : List ApplyOpt) (s : State)
      → left (apply_artifacts B fuel artifacts chain opts apply_opts s).1 ≤ left s
  unfolding apply_artifacts
  left-apply_artifacts fuel artifacts chain opts apply_opts s =
      left-apply_onto fuel (reverse artifacts) (reverse chain) opts apply_opts s

  -- If fresh keys are taken already at most `left s` times, then with fuel for two rounds more
  -- `applyArtifacts` ends, whatever the layers are: the retries come to an end.
  pub apply_artifacts-ne-spins :
      (fuel : ℕ) (artifacts : List Artifact) (chain : List Text) (opts : List Opt)
      (apply_opts : List ApplyOpt) (s : State)
      → left s + 2 ≤ fuel
      → (apply_artifacts B fuel artifacts chain opts apply_opts s).0 ≢ spins
  unfolding apply_artifacts
  apply_artifacts-ne-spins fuel artifacts chain opts apply_opts s h =
      apply_onto-ne-spins fuel (reverse artifacts) (reverse chain) opts apply_opts s h
