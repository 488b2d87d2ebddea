-- ===== src/Image/Ends.antt =====
-- That `Unpack` comes to an end.
use containerd_attributes_cl.Base.{
  Text, ℕ, ◌+◌, ◌≤◌, List, [], ◌∷◌, ◌++◌, Bool, true, false, sentinel_eq, Result, ok, err, Run,
  returns, panics, spins, ◌≢◌, refl, arith, Result-cases, Run-cases, inl, inr,
}
use containerd_attributes_cl.Artifact.{Artifact, apply_artifact_with_opts}
use containerd_attributes_cl.Artifact.Services.{Backend}
use containerd_attributes_cl.Artifact.Settles.{
  Collisions, apply_artifacts-ne-spins, left-apply_artifacts,
}
use containerd_attributes_cl.Image.Client.{UnpackConfig, Services}
use containerd_attributes_cl.Image.{
  get_artifacts, plan, unpack_artifacts, link_snapshot, label_if_unpacked, unpack_leased, unpack,
}

-- Leasing and labelling make no key that is drawn later a taken one.
pub record KeepsKeys (B : Backend) (C : Services B) (K : Collisions B) : Type 0 where
  pub left-with_lease : (s : B.State) → K.left (C.with_lease s).1 ≤ K.left s
  pub left-update_label :
      (digest label value : Text) (s : B.State)
      → K.left (C.update_label digest label value s).1 ≤ K.left s

module _ (B : Backend) (K : Collisions B) (C : Services B) (keeps : KeepsKeys B C K) where
  open B use {State}

  applied_left :
      (fuel : ℕ) (a : Artifact) (chain : List Text) (opts : List B.Opt)
      (apply_opts : List B.ApplyOpt) (s : State)
      → K.left (apply_artifact_with_opts B fuel a chain opts apply_opts s).1 ≤ K.left s
  unfolding apply_artifact_with_opts
  applied_left fuel a chain opts apply_opts s = ground (
    arith,
    left-apply_artifacts B K fuel (a ∷ []) (chain ++ a.blob.digest ∷ []) opts apply_opts s,
  )

  applied-ne-spins :
      (fuel : ℕ) (a : Artifact) (chain : List Text) (opts : List B.Opt)
      (apply_opts : List B.ApplyOpt) (s : State)
      → K.left s + 2 ≤ fuel
      → (apply_artifact_with_opts B fuel a chain opts apply_opts s).0 ≢ spins
  unfolding apply_artifact_with_opts
  applied-ne-spins fuel a chain opts apply_opts s h = ground (
    arith,
    apply_artifacts-ne-spins B K fuel (a ∷ []) (chain ++ a.blob.digest ∷ []) opts apply_opts s h,
  )

  left-label_if_unpacked :
      (b : Bool) (digest : Text) (s : State)
      → K.left (label_if_unpacked B C b digest s).1 ≤ K.left s
  left-label_if_unpacked true digest s = keeps.left-update_label digest _ digest s
  left-label_if_unpacked false digest s = omega arith

  unpack_artifacts-ne-spins :
      (fuel : ℕ) (config : UnpackConfig B) (artifacts : List Artifact) (chain : List Text)
      (s : State)
      → K.left s + 2 ≤ fuel
      → (unpack_artifacts B C fuel config artifacts chain s).0 ≢ spins
  unfolding unpack_artifacts
  unpack_artifacts-ne-spins fuel config [] chain s h = λ p. cc
  unpack_artifacts-ne-spins fuel config (a ∷ artifacts) chain s h =
      let applied =
        apply_artifact_with_opts B fuel a chain config.snapshot_opts config.apply_opts s in
      let drops = applied_left fuel a chain config.snapshot_opts config.apply_opts s in
      elim (Run-cases applied.0) [
        | inl (b, p) ↦
            let labelled = label_if_unpacked B C b a.blob.digest applied.1 in
            ground (
              arith,
              p,
              unpack_artifacts-ne-spins fuel config artifacts (chain ++ a.blob.digest ∷ [])
                  labelled.1
                  (omega (arith, drops, left-label_if_unpacked b a.blob.digest applied.1, h)),
            )
        | inr (inl (e, p)) ↦ ground (arith, p)
        | inr (inr (inl p)) ↦ ground (arith, p)
        | inr (inr (inr p)) ↦
            absurd (applied-ne-spins fuel a chain config.snapshot_opts config.apply_opts s h p)
      ]

  link_snapshot-ne-spins :
      (name : Text) (r : Run (List Text)) (s : State)
      → r ≢ spins
      → (link_snapshot B C name (r, s)).0 ≢ spins
  unfolding link_snapshot
  link_snapshot-ne-spins name (returns (ok chain)) s h = ground arith
  link_snapshot-ne-spins name (returns (err e)) s h = λ p. cc
  link_snapshot-ne-spins name panics s h = λ p. cc
  link_snapshot-ne-spins name spins s h = absurd (h refl)

  -- With fuel for two rounds more than fresh keys can be taken already, `Unpack` ends, whatever the
  -- image's manifest, its layers and the options are.
  pub unpack-ne-spins :
      (fuel : ℕ) (name : Text) (opts : List (UnpackConfig B → Result (UnpackConfig B))) (s : State)
      → K.left s + 2 ≤ fuel
      → (unpack B C fuel name opts s).0 ≢ spins
  unfolding unpack unpack_leased
  unpack-ne-spins fuel name opts s h =
      let leased = C.with_lease s in
      elim (Result-cases leased.0) [
        | inr (e, p) ↦ ground (arith, p)
        | inl (_, p) ↦ elim (Result-cases (plan B C name opts)) [
          | inr (e, q) ↦ ground (arith, p, q)
          | inl (planned, q) ↦
              let done =
                unpack_artifacts B C fuel planned.config (get_artifacts planned.manifest) []
                  leased.1 in
              ground (
                arith,
                p,
                q,
                link_snapshot-ne-spins planned.snapshotter done.0 done.1 (
                    unpack_artifacts-ne-spins fuel planned.config (get_artifacts planned.manifest)
                      [] leased.1 (omega (arith, keeps.left-with_lease s, h))),
              )
        ]
      ]
