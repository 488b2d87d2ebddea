-- ===== src/Artifact/Committed.antt =====
-- What is committed when the functions of aritfact/artifact.go succeed.
use mathlib.Core.List.{reverse, reverse-reverse}
use containerd_attributes_cl.Base.{
  Text, ℕ, zero, suc, List, [], ◌∷◌, ◌++◌, map, All, Bool, true, false, ◌&&◌, ◌==◌, text_eq, Error,
  is, already_exists, not_found, sentinel_eq, ok, err, Run, returns, panics, spins, ◌≡◌, ◌≢◌, sym,
  ap, ◌∙◌, arith, Bool-cases, Result-cases, Run-cases, inl, inr,
}
use containerd_attributes_cl.Content.{Descriptor}
use containerd_attributes_cl.Artifact.Services.{Backend, IsLawful, IsDigest}
use containerd_attributes_cl.Artifact.{
  Artifact, Prepared, ready, failed, crashed, tried, prepare_loop, clean_up, extract, go_on,
  apply_onto, apply_artifacts, apply_artifacts_with_opts, apply_artifact_with_opts,
}

-- The applier never says that something exists already: with it the layer would count as applied.
abbrev pub IsFresh : Backend → Type 0
IsFresh B =
    (d : Descriptor) (m : B.Mounts) (opts : List B.ApplyOpt) (s : B.State) (e : Error)
    → (B.apply d m opts s).0 ≡ err e
    → is already_exists e ≡ false

-- The call succeeded, or failed as "already exists".
abbrev pub IsKnown : Run (Unit {0}) → Type 0
IsKnown (returns (ok _)) = Unit
IsKnown (returns (err e)) = is already_exists e ≡ true
IsKnown panics = ⊥
IsKnown spins = ⊥

module _ (B : Backend) (L : IsLawful B) (F : IsFresh B) where
  open B use {State, Mounts, Opt, ApplyOpt, stat, prepare, commit, remove, apply}
  open B use {chain_id, unpack_key, unique_part}

  extract-stat :
      (artifact : Artifact) (key : Text) (mounts : Mounts) (id : Text) (opts : List Opt)
      (apply_opts : List ApplyOpt) (s : State)
      → id ≢ key
      → IsKnown (extract B artifact key mounts id opts apply_opts s).0
      → stat (extract B artifact key mounts id opts apply_opts s).1 id ≡ ok tt
  unfolding extract clean_up
  extract-stat artifact key mounts id opts apply_opts s differ known =
      let applied = apply artifact.blob mounts apply_opts s in
      let committed = commit id key opts applied.1 in
      elim (Result-cases applied.0) [
        | inr (e, p) ↦ ground (arith, p, F artifact.blob mounts apply_opts s e p)
        | inl (d, p) ↦ elim (Bool-cases (d.digest == artifact.blob.digest)) [
          | inr mismatch ↦ ground (arith, p, mismatch)
          | inl match ↦ elim (Result-cases committed.0) [
            | inl (_, q) ↦ ground (arith, p, match, q, L.stat-commit id key opts applied.1 q)
            | inr (e, q) ↦ ground (
              arith,
              p,
              match,
              q,
              L.stat_of_exists id key opts applied.1 e q,
              L.stat-remove id key committed.1 differ,
            )
          ]
        ]
      ]

  -- A prepared key is never the name of a chain, and a failure here is none of "already exists".
  abbrev IsSettled : List Text → Prepared Mounts → Type 0
  IsSettled ds (ready key m) = chain_id ds ≢ key
  IsSettled ds (failed e) = is already_exists e ≡ false
  IsSettled ds crashed = Unit
  IsSettled ds tried = Unit

  prepare_loop-IsSettled :
      (below : State → Run (Unit {0}) × State) (fuel : ℕ) (many : Bool) (parent : Text)
      (ds : List Text) (valid : All IsDigest ds) (opts : List Opt) (s : State)
      → IsSettled ds (prepare_loop B below fuel many parent (chain_id ds) opts s).0
  unfolding prepare_loop
  prepare_loop-IsSettled below zero many parent ds valid opts s = tt
  prepare_loop-IsSettled below (suc fuel) many parent ds valid opts s =
      let unique = unique_part s in
      let prepared = prepare (unpack_key unique.0 (chain_id ds)) parent opts unique.1 in
      elim (Result-cases prepared.0) [
        | inl (m, p) ↦
            rw (prepare_loop, p) (L.unpack_key-ne-chain_id unique.0 (chain_id ds) ds valid)
        | inr (e, p) ↦ elim (Bool-cases (is not_found e && many)) [
          | inr elsewhere ↦ elim (Bool-cases (is already_exists e)) [
            | inl again ↦
                rw (prepare_loop, p, elsewhere, again)
                  (prepare_loop-IsSettled below fuel many parent ds valid opts prepared.1)
            | inr no_retry ↦ rw (prepare_loop, p, elsewhere, no_retry) no_retry
          ]
          | inl missing ↦
              let applied = below prepared.1 in
              elim (Run-cases applied.0) [
                | inl (_, q) ↦
                    rw (prepare_loop, p, missing, q)
                      (prepare_loop-IsSettled below fuel false parent ds valid opts applied.1)
                | inr (inl (e', q)) ↦ elim (Bool-cases (is already_exists e')) [
                  | inl known ↦
                      rw (prepare_loop, p, missing, q, known)
                        (prepare_loop-IsSettled below fuel false parent ds valid opts applied.1)
                  | inr other ↦ rw (prepare_loop, p, missing, q, other) other
                ]
                | inr (inr (inl q)) ↦ rw (prepare_loop, p, missing, q) tt
                | inr (inr (inr q)) ↦ rw (prepare_loop, p, missing, q) tt
              ]
        ]
      ]

  go_on-stat :
      (artifact : Artifact) (ds : List Text) (opts : List Opt) (apply_opts : List ApplyOpt)
      (p : Prepared Mounts × State)
      → IsSettled ds p.0
      → IsKnown (go_on B artifact (chain_id ds) opts apply_opts p).0
      → stat (go_on B artifact (chain_id ds) opts apply_opts p).1 (chain_id ds) ≡ ok tt
  go_on-stat artifact ds opts apply_opts (ready key m, s) settled known =
      extract-stat artifact key m (chain_id ds) opts apply_opts s settled known
  go_on-stat artifact ds opts apply_opts (failed e, s) settled known = cc
  go_on-stat artifact ds opts apply_opts (crashed, s) settled known = absurd known
  go_on-stat artifact ds opts apply_opts (tried, s) settled known = absurd known

  apply_onto-stat :
      (fuel : ℕ) (artifacts : List Artifact) (chain : List Text) (opts : List Opt)
      (apply_opts : List ApplyOpt) (s : State)
      → All IsDigest (reverse chain)
      → IsKnown (apply_onto B fuel artifacts chain opts apply_opts s).0
      → stat (apply_onto B fuel artifacts chain opts apply_opts s).1 (chain_id (reverse chain))
        ≡ ok tt
  unfolding apply_onto
  apply_onto-stat fuel (a ∷ below) (d ∷ chain) opts apply_opts s valid known =
      go_on-stat a (reverse (d ∷ chain)) opts apply_opts _
        (prepare_loop-IsSettled _ fuel _ _ (reverse (d ∷ chain)) valid opts s) known
  apply_onto-stat fuel _ _ opts apply_opts s valid known = absurd known

  -- The snapshot of the whole chain is there after a call that succeeds or says that it is.
  pub apply_artifacts-stat :
      (fuel : ℕ) (artifacts : List Artifact) (chain : List Text) (opts : List Opt)
      (apply_opts : List ApplyOpt) (s : State)
      → All IsDigest chain
      → IsKnown (apply_artifacts B fuel artifacts chain opts apply_opts s).0
      → stat (apply_artifacts B fuel artifacts chain opts apply_opts s).1 (chain_id chain) ≡ ok tt
  unfolding apply_artifacts
  apply_artifacts-stat fuel artifacts chain opts apply_opts s valid known =
      ap (λ c. stat (apply_artifacts B fuel artifacts chain opts apply_opts s).1 (chain_id c))
        (sym (reverse-reverse chain))
      ∙ apply_onto-stat fuel (reverse artifacts) (reverse chain) opts apply_opts s
          (rw (reverse-reverse chain) valid) known

  -- If `ApplyArtifactWithOpts` returns without an error, whether or not it applied the layer, and the
  -- digests are digests, then the snapshot of the chain with the layer on top is there.
  pub apply_artifact_with_opts_stat :
      (fuel : ℕ) (artifact : Artifact) (chain : List Text) (opts : List Opt)
      (apply_opts : List ApplyOpt) (s : State) (applied : Bool)
      → All IsDigest (chain ++ artifact.blob.digest ∷ [])
      → (apply_artifact_with_opts B fuel artifact chain opts apply_opts s).0 ≡ returns (ok applied)
      → stat
          (apply_artifact_with_opts B fuel artifact chain opts apply_opts s).1
          (chain_id (chain ++ artifact.blob.digest ∷ []))
        ≡ ok tt
  unfolding apply_artifact_with_opts
  apply_artifact_with_opts_stat fuel artifact chain opts apply_opts s applied valid h =
      let ds = chain ++ artifact.blob.digest ∷ [] in
      let run = apply_artifacts B fuel (artifact ∷ []) ds opts apply_opts s in
      let there = apply_artifacts-stat fuel (artifact ∷ []) ds opts apply_opts s valid in
      elim (Result-cases (stat s (chain_id ds))) [
        | inl (_, p) ↦ ground (arith, p)
        | inr (e, p) ↦ elim (Run-cases run.0) [
          | inl (_, q) ↦ ground (arith, p, q, h, there (rw q tt))
          | inr (inl (e', q)) ↦ elim (Bool-cases (is already_exists e')) [
            | inl known ↦ ground (arith, p, q, known, h, there (rw q known))
            | inr other ↦ ground (arith, p, q, other, h)
          ]
          | inr (inr (inl q)) ↦ ground (arith, p, q, h)
          | inr (inr (inr q)) ↦ ground (arith, p, q, h)
        ]
      ]

  -- If `ApplyArtifactsWithOpts` returns an id for layers whose digests are digests, it is the chain id
  -- of those and a snapshot of that name is there.
  pub apply_artifacts_with_opts_stat :
      (fuel : ℕ) (artifacts : List Artifact) (apply_opts : List ApplyOpt) (s : State) (id : Text)
      → All IsDigest (map (λ a. a.blob.digest) artifacts)
      → (apply_artifacts_with_opts B fuel artifacts apply_opts s).0 ≡ returns (ok id)
      → (id ≡ chain_id (map (λ a. a.blob.digest) artifacts))
        × (stat (apply_artifacts_with_opts B fuel artifacts apply_opts s).1 id ≡ ok tt)
  unfolding apply_artifacts_with_opts
  apply_artifacts_with_opts_stat fuel artifacts apply_opts s id valid h =
      let ds : List Text = map (λ a. a.blob.digest) artifacts in
      let run = apply_artifacts B fuel artifacts ds [] apply_opts s in
      let there = apply_artifacts-stat fuel artifacts ds [] apply_opts s valid in
      elim (Result-cases (stat s (chain_id ds))) [
        | inl (_, p) ↦ ground (arith, p, h)
        | inr (e, p) ↦ elim (Run-cases run.0) [
          | inl (_, q) ↦ ground (arith, p, q, h, there (rw q tt))
          | inr (inl (e', q)) ↦ elim (Bool-cases (is already_exists e')) [
            | inl known ↦ ground (arith, p, q, known, h, there (rw q known))
            | inr other ↦ ground (arith, p, q, other, h)
          ]
          | inr (inr (inl q)) ↦ ground (arith, p, q, h)
          | inr (inr (inr q)) ↦ ground (arith, p, q, h)
        ]
      ]
