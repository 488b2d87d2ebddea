-- ===== src/Tests/Layers.antt =====
-- Runs of aritfact/applier.go over the disk in memory.
use containerd_attributes_cl.Base.{
  Text, List, [], ◌∷◌, ◌++◌, returns, none, false, ok, ◌≡◌, refl, text_eq, nat_eq,
}
use containerd_attributes_cl.Content.{Descriptor, annotation}
use containerd_attributes_cl.FileStore.Host.{Reader}
use containerd_attributes_cl.FileStore.Push.{push}
use containerd_attributes_cl.FileStore.Store.{new_with_fallback_storage}
use containerd_attributes_cl.Applier.Apply.{MountPoint, Place, Outside, apply_artifact}
use containerd_attributes_cl.Artifact.{extract, clean_up}
use containerd_attributes_cl.Applier.Snapshots.{
  Snapshotter, backend, extract_untested, Applied, extract-eq-extract_untested, extract-Applied,
}
use containerd_attributes_cl.Tests.Disk.{disk, blob}

abbrev pub content : Reader
content = record { bytes = b'x' ∷ b'y' ∷ []; failure = none }

-- A temporary mount at /t, and the content above for every descriptor.
abbrev pub outside : Outside disk
outside = record {
  with_temp_mount = λ mounts f. f (b'/' ∷ b't' ∷ []);
  running_in_user_ns = false;
  new_fallback = λ limit. tt;
  new_graph = λ path. tt;
  Config = Unit {0};
  new_config = tt;
  fetch = λ p d. ok content;
}

abbrev place : Place disk
place = record { world = []; heap = [] ∷ [] }

abbrev pub mount_of : Text → List Text → MountPoint
mount_of mount_type options = record { mount_type = mount_type; source = []; options = options }

abbrev layer : Descriptor
layer = record blob { annotations = none }

abbrev no_snapshots : Snapshotter
no_snapshots = record {
  State = List Text;
  Opt = Unit {0};
  stat = λ s name. ok tt;
  prepare = λ key parent opts s. (ok [], s);
  commit = λ name key opts s. (ok tt, name ∷ s);
  remove = λ key s. (ok tt, s);
  chain_id = λ digests. [];
  unpack_key = λ unique id. unique ++ id;
  unique_part = λ s. ([], s);
}

extract-eq-extract_untested_example :
    extract (backend disk outside no_snapshots) (record { blob = layer }) [] [] [] [] [] ([], place)
    ≡ extract_untested disk outside no_snapshots
        (record { blob = layer })
        []
        []
        []
        []
        []
        ([], place)
extract-eq-extract_untested_example =
    extract-eq-extract_untested disk outside no_snapshots (record { blob = layer }) [] [] [] [] []
      ([], place)

extracted :
    (extract
      (backend disk outside no_snapshots)
      (record { blob = layer })
      []
      []
      []
      []
      []
      ([], place)).0
    ≡ returns (ok tt)
unfolding extract clean_up apply_artifact push new_with_fallback_storage annotation text_eq nat_eq
extracted = refl

extract-Applied_example :
    let after =
      (extract
        (backend disk outside no_snapshots)
        (record { blob = layer })
        []
        []
        []
        []
        []
        ([], place)).1 in
    Applied disk outside no_snapshots [] layer place after.1
    × (no_snapshots.commit [] [] [] [] ≡ (ok tt, after.0))
extract-Applied_example =
    extract-Applied disk outside no_snapshots (record { blob = layer }) [] [] [] [] [] ([], place)
      extracted
