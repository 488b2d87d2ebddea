-- ===== src/Image/Client.antt =====
-- What aritfact/image.go asks of containerd, for one image.
use containerd_attributes_cl.Base.{ℕ, Text, List, Bool, Option, Result, ok, Done, ◌≡◌}
use containerd_attributes_cl.Content.{Descriptor}
use containerd_attributes_cl.Artifact.Services.{Backend}
use containerd_attributes_cl.Options.Config.{ImageConfig}

-- ocispec.Manifest
pub record Manifest : Type 0 where
  pub config : Descriptor
  pub layers : List Descriptor
  pub annotations : Option ℕ

-- ocispec.Platform
pub record Platform : Type 0 where
  pub os : Text
  pub architecture : Text

-- ocispec.Image: its platform and its configuration
pub record ImageSpec : Type 0 where
  pub platform : Platform
  pub image_config : ImageConfig

-- containerd.UnpackConfig
pub record UnpackConfig (B : Backend) : Type 0 where
  pub check_platform_supported : Bool
  pub snapshot_opts : List B.Opt
  pub apply_opts : List B.ApplyOpt

-- The image's content is addressed by digests, and the namespace's label and the services are set up
-- before: these do not depend on the state. Any snapshotter name stands for the same backend.
pub record Services (B : Backend) : Type 1 where
  -- images.Manifest at the image's target, and Config
  pub manifest : Result Manifest
  pub config : Result Descriptor
  -- client.GetLabel at the default snapshotter's label, and containerd.DefaultSnapshotter
  pub default_label : Result Text
  pub default_snapshotter : Text
  -- whether client.SnapshotService(name) is not nil
  pub has_service : Text → Bool
  -- client.GetSnapshotterSupportedPlatforms, and the Match of what it gives
  pub supported_platforms : Text → Result (Platform → Bool)
  -- content.ReadBlob; json.Unmarshal into an ocispec.Image; platforms.Normalize
  pub read_blob : Descriptor → Result Text
  pub unmarshal_image : Text → Result ImageSpec
  pub normalize : Platform → Platform
  -- json.Marshal and digest.FromBytes
  pub marshal : Manifest → Result Text
  pub digest_of : Text → Text
  -- v2.NewNode, and the runtime information among the properties
  pub runtime_info : Text → Descriptor → Result (Option ImageConfig)
  pub with_lease : B.State → Done × B.State
  pub release : B.State → B.State
  -- cs.Update of one label of a digest
  pub update_label : Text → Text → Text → B.State → Done × B.State

-- Labelling content and ending the lease forget no committed snapshot.
pub record KeepsSnapshots (B : Backend) (C : Services B) : Type 0 where
  pub stat-update_label :
      (digest label value name : Text) (s : B.State)
      → B.stat s name ≡ ok tt
      → B.stat (C.update_label digest label value s).1 name ≡ ok tt
  pub stat-release :
      (name : Text) (s : B.State) → B.stat s name ≡ ok tt → B.stat (C.release s) name ≡ ok tt
