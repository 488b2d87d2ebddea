-- ===== src/FileStore/Archive/Links.antt =====
-- The links of an archive, `ensureLinkPath`.
use containerd_attributes_cl.Base.{
  lit, nat_eq, Text, ◌++◌, true, false, text_eq, if◌then◌else◌, Error, message, err, ◌≡◌, arith,
}
use containerd_attributes_cl.FilePath.{is_abs, join_path, dir}
use containerd_attributes_cl.FilePath.Rooted.{is_abs-join_path, is_abs-dir, rel_rooted}
use containerd_attributes_cl.FileStore.Host.{Host}
use containerd_attributes_cl.FileStore.Archive.{ensure_base_path, ensure_link_path}

module _ (H : Host) where
  -- Below a base that is not a rooted path, `ensureLinkPath` refuses every target of a link that is
  -- created at a rooted path, relative targets within the base too.
  pub ensure_link_path_relative_base :
      (w : H.World) (root base link target : Text)
      → is_abs base ≡ false
      → is_abs link ≡ true
      → (e : Error) × (ensure_link_path H w root base link target ≡ err e)
  unfolding ensure_link_path ensure_base_path
  ensure_link_path_relative_base w root base link target b l =
      let path = if is_abs target then target else join_path (dir link) target in
      let rooted : is_abs path ≡ true =
        ground (arith, is_abs-join_path (dir link) target (is_abs-dir link l)) in
      (
        message (lit "Rel: can't make " ++ path ++ lit " relative to " ++ base),
        ground (arith, rel_rooted base path b rooted),
      )
