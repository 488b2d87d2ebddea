-- ===== src/FileStore/Push/Confined/Owned.antt =====
-- The paths that a store keeps under digests.
use containerd_attributes_cl.Base.{Text, true, false, ◌≡◌}
use containerd_attributes_cl.Content.{Descriptor}
use containerd_attributes_cl.FilePath.{is_abs}
use containerd_attributes_cl.FileStore.Host.{Host, Reader}
use containerd_attributes_cl.FileStore.Store.{Session}
use containerd_attributes_cl.FileStore.Store.Paths.{HasRootedCwd}
use containerd_attributes_cl.FileStore.Push.{push}
use containerd_attributes_cl.FileStore.Push.Confined.{KeptWithin, IsOwned}
use containerd_attributes_cl.FileStore.Push.Confined.Pushed.{push_confined}

module _ (H : Host) (W : Text) where
  -- Nothing is asked of the world.
  any_world : KeptWithin H W (λ w. Unit)
  any_world = record {
    kept-mkdir_all = λ path mode w i h. tt;
    kept-mkdir_above = λ path mode w i h. tt;
    kept-open_file = λ path trunc mode w i h. tt;
    kept-write = λ path bytes w i h. tt;
    kept-close = λ path w i h. tt;
    kept-chown = λ path uid gid w i h. tt;
    kept-link = λ target path w i h. tt;
    kept-symlink = λ target path w i h. tt;
    kept-chtimes = λ path t w i h. tt;
    kept-create_temp = λ w h. tt;
    kept-write_temp = λ u name bytes w e h. tt;
    kept-close_temp = λ u name w e h. tt;
  }

  -- If each path that a store keeps under a digest is inside its rooted working directory, or the name
  -- of a temporary file, and path traversal is off, then so it is after any `Push`: of a file, an
  -- archive or a manifest, the files that are restored for it included, and whether or not it
  -- succeeds.
  pub push-IsOwned :
      (d : Descriptor) (r : Reader) (s : Session H)
      → is_abs W ≡ true
      → ((w : H.World) → HasRootedCwd H w)
      → s.store.working_dir ≡ W
      → s.store.allow_path_traversal_on_write ≡ false
      → IsOwned H W s.store.digest_to_path
      → IsOwned H W (push H d r s).1.store.digest_to_path
  push-IsOwned d r s rooted cwd q off own =
      (push_confined H W rooted cwd (λ w. Unit) any_world d r s tt q off own).1
