-- ===== src/Applier/Apply/Targets.antt =====
-- Where `apply` writes, for every mount, and what `Apply` says of it.
use containerd_attributes_cl.Base.{
  lit, List, [], ◌∷◌, false, if◌then◌else◌, text_eq, is_empty, sentinel_eq, ok, err, Done, ◌≡◌,
  arith, Result-cases, inl, inr,
}
use containerd_attributes_cl.Content.{Descriptor}
use containerd_attributes_cl.FileStore.Host.{Host, Reader}
use containerd_attributes_cl.Applier.Mounts.{get_aufs_path, upperdir_prefix}
use containerd_attributes_cl.Applier.Mounts.Overlay.{
  last_with, upper_or, get_overlay_path-eq-last_with,
}
use containerd_attributes_cl.Applier.Mounts.Aufs.{get_aufs_path_invalid}
use containerd_attributes_cl.Applier.Apply.{
  MountPoint, Place, Outside, push_into, at_temp_mount, at_branches, apply, apply_artifact,
}

module _ (H : Host) (O : Outside H) where
  -- On one overlay mount, outside a user namespace, the content goes to the upper directory of the
  -- last `upperdir=` option, and to a temporary mount if there is none or it is empty.
  pub apply_overlay :
      (m : MountPoint) (d : Descriptor) (r : Reader) (p : Place H)
      → m.mount_type ≡ lit "overlay"
      → O.running_in_user_ns ≡ false
      → let u = upper_or [] (last_with upperdir_prefix m.options) in
        apply H O (m ∷ []) d r p
        ≡ (if is_empty u then at_temp_mount H O (m ∷ []) d r p else push_into H O u d r p)
  unfolding apply at_branches
  apply_overlay m d r p overlay outside =
      ground (arith, overlay, outside, get_overlay_path-eq-last_with m.options)

  -- On one aufs mount the content goes to the writable branch of its options if they can be read, and
  -- to a temporary mount otherwise: no fault in the options makes `apply` fail.
  pub apply_aufs :
      (m : MountPoint) (d : Descriptor) (r : Reader) (p : Place H)
      → m.mount_type ≡ lit "aufs"
      → apply H O (m ∷ []) d r p ≡ elim (get_aufs_path m.options) [
        | ok b ↦ push_into H O b.upper d r p
        | err e ↦ at_temp_mount H O (m ∷ []) d r p
      ]
  unfolding apply at_branches lit
  apply_aufs m d r p aufs = elim (Result-cases (get_aufs_path m.options)) [
    | inl (b, q) ↦ ground (arith, aufs, q)
    | inr (e, q) ↦ ground (arith, aufs, q, get_aufs_path_invalid m.options e q)
  ]

  -- When `Apply` succeeds, the descriptor that it returns has the digest and the size that it was
  -- given, whatever the mounts and the options are: the digests that the caller compares agree.
  pub apply_artifact_digest :
      (mounts : List MountPoint) (opts : List (Descriptor → O.Config → Done × O.Config))
      (d result : Descriptor) (p : Place H)
      → (apply_artifact H O mounts opts d p).0 ≡ ok result
      → (result.digest ≡ d.digest) × (result.size ≡ d.size)
  unfolding apply_artifact
  apply_artifact_digest mounts opts d result p h = ground arith
