-- ===== src/Applier/Snapshots.antt =====
-- aritfact/artifact.go over the applier of aritfact/applier.go, which is the one that image.go gives it.
use containerd_attributes_cl.Base.{
  [], ◌∷◌, refl, Text, lit, List, ◌++◌, none, text_eq, wrap, Result, ok, err, Done, Run, returns,
  ◌≡◌, arith, Result-cases, Option-cases, inl, inr,
}
use containerd_attributes_cl.Content.{Descriptor}
use containerd_attributes_cl.FileStore.Host.{Host, Reader}
use containerd_attributes_cl.Artifact.{Artifact, clean_up, extract}
use containerd_attributes_cl.Artifact.Services.{Backend}
use containerd_attributes_cl.Applier.Apply.{
  MountPoint, Place, Outside, apply, apply_artifact, run_options,
}
use containerd_attributes_cl.Applier.Apply.Targets.{apply_artifact_digest}

-- containerd's snapshotter, without the applier.
pub record Snapshotter : Type 1 where
  pub State : Type 0
  pub Opt : Type 0
  pub stat : State → Text → Done
  pub prepare : Text → Text → List Opt → State → Result (List MountPoint) × State
  pub commit : Text → Text → List Opt → State → Done × State
  pub remove : Text → State → Done × State
  pub chain_id : List Text → Text
  pub unpack_key : Text → Text → Text
  pub unique_part : State → Text × State

module _ (H : Host) (O : Outside H) (N : Snapshotter) where
  abbrev Both : Type 0
  Both = N.State × Place H

  abbrev on_snapshots : {A : Type 0} → (N.State → A × N.State) → Both → A × Both
  on_snapshots f s = let (r, n) = f s.0 in (r, (n, s.1))

  abbrev on_place : {A : Type 0} → (Place H → A × Place H) → Both → A × Both
  on_place f s = let (r, p) = f s.1 in (r, (s.0, p))

  -- A snapshotter whose mounts the applier of this repository fills.
  abbrev pub backend : Backend
  backend = record {
    State = Both;
    Mounts = List MountPoint;
    Opt = N.Opt;
    ApplyOpt = Descriptor → O.Config → Done × O.Config;
    stat = λ s name. N.stat s.0 name;
    prepare = λ key parent opts. on_snapshots (N.prepare key parent opts);
    commit = λ name key opts. on_snapshots (N.commit name key opts);
    remove = λ key. on_snapshots (N.remove key);
    apply = λ d mounts opts. on_place (apply_artifact H O mounts opts d);
    chain_id = N.chain_id;
    unpack_key = N.unpack_key;
    unique_part = on_snapshots N.unique_part;
  }

  -- The rest of `applyArtifacts` as it would be without the test of the digest.
  pub extract_untested :
      Artifact
      → Text
      → List MountPoint
      → Text
      → List N.Opt
      → List (Descriptor → O.Config → Done × O.Config)
      → Both
      → Run (Unit {0}) × Both
  extract_untested a key mounts id opts apply_opts s =
      let (diff, s₁) = on_place (apply_artifact H O mounts apply_opts a.blob) s in
      elim diff [
        | err e ↦ clean_up backend key (wrap (lit "failed to extract layer " ++ a.blob.digest) e) s₁
        | ok d ↦
            let (committed, s₂) = on_snapshots (N.commit id key opts) s₁ in
            elim committed [
              | err e ↦ clean_up backend key (wrap (lit "failed to commit snapshot " ++ key) e) s₂
              | ok _ ↦ (returns (ok tt), s₂)
            ]
      ]

  -- Over the applier of this repository the test of the digest that `applyArtifacts` makes never
  -- fails: with it and without it each layer comes to the same.
  pub extract-eq-extract_untested :
      (a : Artifact) (key : Text) (mounts : List MountPoint) (id : Text) (opts : List N.Opt)
      (apply_opts : List (Descriptor → O.Config → Done × O.Config)) (s : Both)
      → extract backend a key mounts id opts apply_opts s
        ≡ extract_untested a key mounts id opts apply_opts s
  unfolding extract extract_untested
  extract-eq-extract_untested a key mounts id opts apply_opts s =
      elim (Result-cases (apply_artifact H O mounts apply_opts a.blob s.1).0) [
        | inr (e, p) ↦ ground (arith, p)
        | inl (d, p) ↦
            let (digest, size) = apply_artifact_digest H O mounts apply_opts a.blob d s.1 p in
            ground (arith, p, digest)
      ]

  -- What was done with the content of a layer: it was there to be read, without a failure of the
  -- reader, and `apply` of it returned no error.
  abbrev pub Applied : List MountPoint → Descriptor → Place H → Place H → Type 0
  Applied mounts d p after =
      (r : Reader) × (O.fetch p d ≡ ok r)
      × (r.failure ≡ none)
      × (apply H O mounts d r p ≡ (ok tt, after))

  -- The options thread a configuration and change nothing else.
  run_options-place :
      (opts : List (Descriptor → O.Config → Done × O.Config)) (d : Descriptor) (config : O.Config)
      (p : Place H)
      → (run_options H O opts d config p).1 ≡ p
  unfolding run_options
  run_options-place [] d config p = refl
  run_options-place (o ∷ opts) d config p =
      let set = o d config in
      elim (Result-cases set.0) [
        | inr (e, q) ↦ ground (arith, q)
        | inl (_, q) ↦ ground (arith, q, run_options-place opts d set.1 p)
      ]

  apply_artifact-Applied :
      (mounts : List MountPoint) (opts : List (Descriptor → O.Config → Done × O.Config))
      (d result : Descriptor) (p : Place H)
      → (apply_artifact H O mounts opts d p).0 ≡ ok result
      → Applied mounts d p (apply_artifact H O mounts opts d p).1
  unfolding apply_artifact
  apply_artifact-Applied mounts opts d result p h =
      let configured = run_options H O opts d O.new_config p in
      let here = run_options-place opts d O.new_config p in
      elim (Result-cases configured.0) [
        | inr (e, q) ↦ absurd (ground (arith, q, h))
        | inl (_, q) ↦ elim (Result-cases (O.fetch p d)) [
          | inr (e, f) ↦ absurd (ground (arith, q, here, f, h))
          | inl (r, f) ↦ elim (Result-cases (apply H O mounts d r p).0) [
            | inr (e, g) ↦ absurd (ground (arith, q, here, f, g, h))
            | inl (_, g) ↦ elim (Option-cases r.failure) [
              | inr (e, k) ↦ absurd (ground (arith, q, here, f, g, k, h))
              | inl k ↦ (r, f, k, ground (arith, q, here, f, g, k))
            ]
          ]
        ]
      ]

  -- If `applyArtifacts` succeeds for a layer whose snapshot is prepared, then, in the state that it
  -- began in, the layer's content was there to be read, without a failure of the reader, `apply` of that
  -- content to the mounts returned no error, and what is left of directories is what `apply` left; and
  -- the snapshot was committed under the identifier.
  pub extract-Applied :
      (a : Artifact) (key : Text) (mounts : List MountPoint) (id : Text) (opts : List N.Opt)
      (apply_opts : List (Descriptor → O.Config → Done × O.Config)) (s : Both)
      → (extract backend a key mounts id opts apply_opts s).0 ≡ returns (ok tt)
      → let after = (extract backend a key mounts id opts apply_opts s).1 in
        Applied mounts a.blob s.1 after.1 × (N.commit id key opts s.0 ≡ (ok tt, after.0))
  unfolding extract clean_up
  extract-Applied a key mounts id opts apply_opts s h =
      elim (Result-cases (apply_artifact H O mounts apply_opts a.blob s.1).0) [
        | inr (e, p) ↦ absurd (ground (arith, p, h))
        | inl (d, p) ↦
            let (digest, size) = apply_artifact_digest H O mounts apply_opts a.blob d s.1 p in
            elim (Result-cases (N.commit id key opts s.0).0) [
              | inr (e, q) ↦ absurd (ground (arith, p, digest, q, h))
              | inl (_, q) ↦
                  let after = (extract backend a key mounts id opts apply_opts s).1 in
                  let place : after.1 ≡ (apply_artifact H O mounts apply_opts a.blob s.1).1 =
                    ground (arith, p, digest, q) in
                  (
                    rw place (apply_artifact-Applied mounts apply_opts a.blob d s.1 p),
                    ground (arith, p, digest, q),
                  )
            ]
      ]
