-- ===== src/Image.antt =====
-- aritfact/image.go: an image whose layers are artifacts, over a containerd client.
pub mod Client
pub mod ContentStore
pub mod Object
pub mod Unpacked
pub mod Ends
use containerd_attributes_cl.Base.{
  Text, ℕ, lit, List, [], ◌∷◌, ◌++◌, map, Option, none, some, Bool, true, false, if◌then◌else◌,
  is_empty, Error, message, sentinel, wrap, is, not_found, sentinel_eq, Result, ok, err, ◌>>=◌,
  Done, Run, returns, panics, spins, length,
}
use containerd_attributes_cl.Content.{Descriptor, no_descriptor}
use containerd_attributes_cl.Artifact.{Artifact, apply_artifact_with_opts}
use containerd_attributes_cl.Artifact.Services.{Backend}
use containerd_attributes_cl.Options.Config.{ImageConfig}
use Client.{Manifest, Platform, ImageSpec, UnpackConfig, Services}

abbrev pub digests : List Descriptor → List Text
digests = map (λ (d : Descriptor). d.digest)

-- `getArtifacts`
unfoldable pub get_artifacts : Manifest → List Artifact
get_artifacts m = map (λ (d : Descriptor). record { blob = d }) m.layers

abbrev pub no_config : ImageConfig
no_config = record {
  user = [];
  env = [];
  entrypoint = [];
  cmd = [];
  working_dir = [];
  stop_signal = [];
  args_escaped = false;
}

abbrev config_or_empty : Option ImageConfig → ImageConfig
config_or_empty none = no_config
config_or_empty (some c) = c

-- The label that records the digest of a layer.
pub uncompressed_label : Text
unfolding lit
uncompressed_label = lit "containerd.io/uncompressed"

pub gc_label : Text → Text
unfolding lit
gc_label snapshotter = lit "containerd.io/gc.ref.snapshot." ++ snapshotter

-- `fmt.Errorf("...: %w", err)` on an error
abbrev wrapped : {A : Type 0} → Text → Result A → Result A
wrapped m (ok a) = ok a
wrapped m (err e) = err (wrap m e)

module _ (B : Backend) (C : Services B) where
  open B use {State}

  -- `getManifest`
  abbrev pub get_manifest : Result Manifest
  get_manifest = C.manifest

  -- `RootFS`
  unfoldable pub root_fs : Result (List Text)
  root_fs = C.manifest >>= λ m. ok (digests m.layers)

  -- `resolveSnapshotterName`
  unfoldable pub resolve_snapshotter_name : Text → Result Text
  resolve_snapshotter_name name =
      if is_empty name
      then (C.default_label >>= λ label.
          ok (if is_empty label then C.default_snapshotter else label))
      else ok name

  -- `getSnapshotter`, up to the name of the service
  unfoldable pub get_snapshotter : Text → Result Text
  unfolding resolve_snapshotter_name
  get_snapshotter name = resolve_snapshotter_name name >>= λ resolved.
      if C.has_service resolved then ok resolved else err (wrap resolved (sentinel not_found))

  -- `IsUnpacked`
  unfoldable pub is_unpacked : Text → State → Result Bool
  unfolding get_snapshotter root_fs
  is_unpacked name s = get_snapshotter name >>= λ service. root_fs >>= λ diffs.
      elim (B.stat s (B.chain_id diffs)) [
        | ok _ ↦ ok true
        | err e ↦ if is not_found e then ok false else err e
      ]

  -- `ConfigFromAttributes`
  unfoldable pub config_from_attributes : Result ImageConfig
  config_from_attributes = C.manifest >>= λ m. C.marshal m >>= λ bytes.
      C.runtime_info (C.digest_of bytes) (record {
        media_type = lit "application/vnd.oci.image.manifest.v1+json";
        digest = C.digest_of bytes;
        size = length bytes;
        annotations = m.annotations;
      })
      >>= λ runtime. ok (config_or_empty runtime)

  -- `ConfigWithAttributes`
  abbrev pub config_with_attributes : Result ImageConfig
  config_with_attributes = config_from_attributes

  -- `Spec`
  unfoldable pub spec : Result ImageSpec
  spec = wrapped (lit "get image config descriptor") C.config >>= λ d.
      wrapped (lit "read image config from content store") (C.read_blob d) >>= λ p.
      wrapped (lit "unmarshal image config " ++ p) (C.unmarshal_image p)

  -- `getManifestPlatform`
  pub get_manifest_platform : Manifest → Result Platform
  get_manifest_platform m =
      C.read_blob m.config >>= λ p. C.unmarshal_image p >>= λ image. ok (C.normalize image.platform)

  -- `checkSnapshotterSupport`
  unfoldable pub check_snapshotter_support : Text → Manifest → Done
  unfolding get_manifest_platform
  check_snapshotter_support name m = C.supported_platforms name >>= λ matches.
      get_manifest_platform m >>= λ platform.
      if matches platform
      then ok tt
      else err (message (lit "snapshotter does not support platform" ++ name))

  pub run_unpack_opts :
      List (UnpackConfig B → Result (UnpackConfig B)) → UnpackConfig B → Result (UnpackConfig B)
  run_unpack_opts [] config = ok config
  run_unpack_opts (o ∷ opts) config = o config >>= run_unpack_opts opts

  abbrev Plan : Type 0
  Plan = record { config : UnpackConfig B; manifest : Manifest; snapshotter : Text }

  -- What `Unpack` finds out before it changes anything.
  pub plan : Text → List (UnpackConfig B → Result (UnpackConfig B)) → Result Plan
  unfolding run_unpack_opts get_snapshotter check_snapshotter_support
  plan name opts =
      run_unpack_opts opts
        (record { check_platform_supported = false; snapshot_opts = []; apply_opts = [] })
      >>= λ config. get_manifest >>= λ m. resolve_snapshotter_name name >>= λ resolved.
          get_snapshotter resolved >>= λ service.
          (if config.check_platform_supported then check_snapshotter_support resolved m else ok tt)
          >>= λ _. ok (record { config = config; manifest = m; snapshotter = resolved })

  abbrev label_if_unpacked : Bool → Text → State → Done × State
  label_if_unpacked false digest s = (ok tt, s)
  label_if_unpacked true digest s = C.update_label digest uncompressed_label digest s

  -- The loop over the artifacts; its result is the chain.
  pub unpack_artifacts :
      ℕ → UnpackConfig B → List Artifact → List Text → State → Run (List Text) × State
  unfolding uncompressed_label
  unpack_artifacts fuel config [] chain s = (returns (ok chain), s)
  unpack_artifacts fuel config (a ∷ artifacts) chain s =
      let (applied, s₁) =
        apply_artifact_with_opts B fuel a chain config.snapshot_opts config.apply_opts s in
      elim applied [
        | returns (err e) ↦ (returns (err e), s₁)
        | panics ↦ (panics, s₁)
        | spins ↦ (spins, s₁)
        | returns (ok unpacked) ↦
            let (labelled, s₂) = label_if_unpacked unpacked a.blob.digest s₁ in
            elim labelled [
              | err e ↦ (returns (err e), s₂)
              | ok _ ↦ unpack_artifacts fuel config artifacts (chain ++ a.blob.digest ∷ []) s₂
            ]
      ]

  -- The end of `Unpack`: the image's configuration keeps the snapshot from being collected.
  pub link_snapshot : Text → Run (List Text) × State → Run (Unit {0}) × State
  unfolding gc_label
  link_snapshot name (returns (ok chain), s) = elim C.config [
    | err e ↦ (returns (err e), s)
    | ok d ↦
        let (updated, t) = C.update_label d.digest (gc_label name) (B.chain_id chain) s in
        (returns updated, t)
  ]
  link_snapshot name (returns (err e), s) = (returns (err e), s)
  link_snapshot name (panics, s) = (panics, s)
  link_snapshot name (spins, s) = (spins, s)

  pub unpack_leased :
      ℕ → Text → List (UnpackConfig B → Result (UnpackConfig B)) → State → Run (Unit {0}) × State
  unfolding plan unpack_artifacts link_snapshot get_artifacts
  unpack_leased fuel name opts s = elim (plan name opts) [
    | err e ↦ (returns (err e), s)
    | ok p ↦
        link_snapshot p.snapshotter (unpack_artifacts fuel p.config (get_artifacts p.manifest) [] s)
  ]

  -- `Unpack`
  unfoldable pub unpack :
      ℕ → Text → List (UnpackConfig B → Result (UnpackConfig B)) → State → Run (Unit {0}) × State
  unfolding unpack_leased
  unpack fuel name opts s =
      let (leased, s₁) = C.with_lease s in
      elim leased [
        | err e ↦ (returns (err e), s₁)
        | ok _ ↦ let (done, s₂) = unpack_leased fuel name opts s₁ in (done, C.release s₂)
      ]
