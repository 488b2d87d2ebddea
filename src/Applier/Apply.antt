-- ===== src/Applier/Apply.antt =====
-- aritfact/applier.go, `apply` and `artifactApplier.Apply`: the content of a layer is pushed to a new
-- file store, in the writable directory of the snapshot's only mount if that can be told from its
-- options, and at a temporary mount otherwise.
pub mod Targets
pub mod Confined
use containerd_attributes_cl.Base.{
  Text, ℕ, lit, List, [], ◌∷◌, Option, none, some, Bool, true, false, if◌then◌else◌, ◌==◌, text_eq,
  Error, wrap, is, invalid_argument, sentinel_eq, Result, ok, err, Done,
}
use containerd_attributes_cl.Base.Exec.{Exec, ◌>>=◌, ◌>>◌, pure, raise, reads, or_wrap}
use containerd_attributes_cl.Content.{Descriptor, Heap, no_descriptor}
use containerd_attributes_cl.FileStore.Host.{Host, Reader}
use containerd_attributes_cl.FileStore.Store.{Session, new}
use containerd_attributes_cl.FileStore.Push.{push}
use containerd_attributes_cl.Applier.Mounts.{Branches, get_overlay_path, get_aufs_path}

-- mount.Mount
pub record MountPoint : Type 0 where
  pub mount_type : Text
  pub source : Text
  pub options : List Text

-- The state outside the stores that `apply` makes.
pub record Place (H : Host) : Type 0 where
  pub world : H.World
  pub heap : Heap

-- What aritfact/applier.go calls besides the host of its stores.
pub record Outside (H : Host) : Type 1 where
  -- mount.WithTempMount
  pub with_temp_mount :
      List MountPoint → (Text → Exec (Place H) (Unit {0})) → Exec (Place H) (Unit {0})
  -- userns.RunningInUserNS
  pub running_in_user_ns : Bool
  -- memory.New and LimitStorage of oras, at the limit
  pub new_fallback : ℕ → H.Fallback
  -- collection.New
  pub new_graph : Text → H.Graph
  -- diff.ApplyConfig
  pub Config : Type 0
  pub new_config : Config
  -- a.store.Fetch
  pub fetch : Place H → Descriptor → Result Reader

-- ocispec.MediaTypeImageLayer
pub layer_media_type : Text
unfolding lit
layer_media_type = lit "application/vnd.oci.image.layer.v1.tar"

module _ (H : Host) (O : Outside H) where
  -- `file.New(path)`, and `Push` to it
  pub push_into : Text → Descriptor → Reader → Exec (Place H) (Unit {0})
  push_into path d r p =
      let store = new H O.new_fallback O.new_graph path in
      let (pushed, s) = push H d r (record { store = store; world = p.world; heap = p.heap }) in
      (pushed, record { world = s.world; heap = s.heap })

  pub at_temp_mount : List MountPoint → Descriptor → Reader → Exec (Place H) (Unit {0})
  unfolding push_into
  at_temp_mount mounts d r = O.with_temp_mount mounts (λ root. push_into root d r)

  -- What becomes of the branches that were read from the options of the only mount.
  pub at_branches :
      Result Branches → List MountPoint → Descriptor → Reader → Exec (Place H) (Unit {0})
  unfolding at_temp_mount
  at_branches (ok b) mounts d r = push_into b.upper d r
  at_branches (err e) mounts d r =
      if is invalid_argument e then at_temp_mount mounts d r else raise e

  -- `apply`
  unfoldable pub apply : List MountPoint → Descriptor → Reader → Exec (Place H) (Unit {0})
  unfolding at_branches
  apply (m ∷ []) d r =
      if m.mount_type == lit "overlay"
      then (if O.running_in_user_ns
          then at_temp_mount (m ∷ []) d r
          else at_branches (get_overlay_path m.options) (m ∷ []) d r)
      else if m.mount_type == lit "aufs"
      then at_branches (get_aufs_path m.options) (m ∷ []) d r
      else at_temp_mount (m ∷ []) d r
  apply mounts d r = at_temp_mount mounts d r

  -- Nothing but later options reads the configuration that an option sets.
  unfoldable pub run_options :
      List (Descriptor → O.Config → Done × O.Config)
      → Descriptor
      → O.Config
      → Exec (Place H) (Unit {0})
  run_options [] d config = pure tt
  run_options (o ∷ opts) d config =
      let (set, config') = o d config in
      or_wrap (wrap (lit "failed to apply config opt")) (reads (λ p. set))
      >> run_options opts d config'

  abbrev applied : Descriptor → Descriptor
  applied d = record {
    media_type = layer_media_type;
    digest = d.digest;
    size = d.size;
    annotations = none;
  }

  -- `artifactApplier.Apply`
  unfoldable pub apply_artifact :
      List MountPoint
      → List (Descriptor → O.Config → Done × O.Config)
      → Descriptor
      → Exec (Place H) Descriptor
  unfolding apply run_options layer_media_type
  apply_artifact mounts opts d = do
    run_options opts d O.new_config
    r ← reads (λ p. O.fetch p d)
    apply mounts d r
    elim r.failure [ none ↦ pure (applied d) | some e ↦ raise e ]
