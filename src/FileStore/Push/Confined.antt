-- ===== src/FileStore/Push/Confined.antt =====
-- What `Push` does to the world outside the store: calls at paths inside the working directory, and on
-- temporary files.
pub mod Extracted
pub mod Written
pub mod Pushed
pub mod Owned
use containerd_attributes_cl.Base.{Text, ℕ, ℤ, List, Bool, Result, ok, ◌≡◌, ◌⊎◌, All}
use containerd_attributes_cl.FilePath.{dir}
use containerd_attributes_cl.FileStore.Host.{Host, Header}
use containerd_attributes_cl.FileStore.Archive.Inside.{IsInside}

-- A path inside the directory, or the name of a temporary file.
abbrev pub IsOwn : (H : Host) → Text → Text → Type 0
IsOwn H working_dir path =
    IsInside working_dir path ⊎ ((u : H.World) × ((H.create_temp u).0 ≡ ok path))

-- Every path that is kept under a digest is such a path.
abbrev pub IsOwned : (H : Host) → Text → List (Text × Text) → Type 0
IsOwned H working_dir digest_to_path =
    All (λ (e : Text × Text). IsOwn H working_dir e.1) digest_to_path

-- What the calls that write keep, if their paths are inside the directory, the directories above such
-- a path, or names that the system gives to temporary files.
pub record KeptWithin (H : Host) (working_dir : Text) (P : H.World → Type 0) : Type 0 where
  pub kept-mkdir_all :
      (path : Text) (mode : ℕ) (w : H.World)
      → IsInside working_dir path
      → P w
      → P (H.mkdir_all path mode w).1
  pub kept-mkdir_above :
      (path : Text) (mode : ℕ) (w : H.World)
      → IsInside working_dir path
      → P w
      → P (H.mkdir_all (dir path) mode w).1
  pub kept-open_file :
      (path : Text) (trunc : Bool) (mode : ℕ) (w : H.World)
      → IsInside working_dir path
      → P w
      → P (H.open_file path trunc mode w).1
  pub kept-write :
      (path bytes : Text) (w : H.World)
      → IsInside working_dir path
      → P w
      → P (H.write path bytes w).1
  pub kept-close :
      (path : Text) (w : H.World) → IsInside working_dir path → P w → P (H.close path w).1
  pub kept-chown :
      (path : Text) (uid gid : ℤ) (w : H.World)
      → IsInside working_dir path
      → P w
      → P (H.chown path uid gid w).1
  pub kept-link :
      (target path : Text) (w : H.World)
      → IsInside working_dir path
      → P w
      → P (H.link target path w).1
  pub kept-symlink :
      (target path : Text) (w : H.World)
      → IsInside working_dir path
      → P w
      → P (H.symlink target path w).1
  pub kept-chtimes :
      (path : Text) (h : Header) (w : H.World)
      → IsInside working_dir path
      → P w
      → P (H.chtimes path h w)
  pub kept-create_temp : (w : H.World) → P w → P (H.create_temp w).1
  pub kept-write_temp :
      (u : H.World) (name bytes : Text) (w : H.World)
      → (H.create_temp u).0 ≡ ok name
      → P w
      → P (H.write name bytes w).1
  pub kept-close_temp :
      (u : H.World) (name : Text) (w : H.World)
      → (H.create_temp u).0 ≡ ok name
      → P w
      → P (H.close name w).1
