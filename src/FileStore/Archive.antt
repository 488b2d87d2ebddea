-- ===== src/FileStore/Archive.antt =====
-- aritfact/content/file/utils.go: a gzipped tar file is extracted into a directory.
pub mod Links
pub mod Symlinks
pub mod Inside
use containerd_attributes_cl.Base.{
  Text, ℕ, zero, suc, lit, List, [], ◌∷◌, ◌++◌, Option, none, some, Bool, true, false, ◌==◌,
  text_eq, if◌then◌else◌, is_empty, Error, message, is, not_exist, sentinel_eq, Result, ok, err,
  Done, length,
}
use containerd_attributes_cl.Base.Exec.{Exec, ◌>>=◌, ◌>>◌, pure, raise, reads, finally, guard}
use containerd_attributes_cl.FilePath.{dot, is_abs, clean, join_path, dir, rel, escapes}
use containerd_attributes_cl.FileStore.Host.{
  Host, Reader, Header, Archive, regular, directory, hard_link, symbolic_link, other,
}

module _ (H : Host) where
  open H use {World}

  -- The loop of `ensureBasePath`: no directory on the way is a symbolic link. The fuel is the length
  -- of the path.
  unfoldable pub no_links : ℕ → World → Text → Text → Done
  no_links zero w root d = err (message (lit "out of fuel"))
  no_links (suc fuel) w root d =
      let up = no_links fuel w root (dir d) in
      if d == dot then ok tt else elim (H.lstat w (join_path root d)) [
        | err e ↦ if is not_exist e then up else err e
        | ok true ↦ err (message (lit "no symbolic link allowed between"))
        | ok false ↦ up
      ]

  unfoldable pub ensure_base_path : World → Text → Text → Text → Result Text
  unfolding no_links
  ensure_base_path w root base target = elim (rel base target) [
    | none ↦ err (message (lit "Rel: can't make " ++ target ++ lit " relative to " ++ base))
    | some path ↦
        if escapes (clean path)
        then err (message (target ++ lit " is outside of " ++ base))
        else elim (no_links (suc (length path)) w root (dir path)) [
          | ok _ ↦ ok path
          | err e ↦ err e
        ]
  ]

  unfoldable pub ensure_link_path : World → Text → Text → Text → Text → Result Text
  unfolding ensure_base_path
  ensure_link_path w root base link target =
      let path = if is_abs target then target else join_path (dir link) target in
      elim (ensure_base_path w root base path) [ ok _ ↦ ok target | err e ↦ err e ]

  -- io.CopyBuffer into an opened file: what the reader yields is written before its error counts.
  unfoldable pub copy : Text → Reader → Exec World (Unit {0})
  copy path r = do H.write path r.bytes; elim r.failure [ none ↦ pure tt | some e ↦ raise e ]

  unfoldable pub write_file : Text → Reader → ℕ → Exec World (Unit {0})
  unfolding copy
  write_file path r perm = do H.open_file path true perm; finally (copy path r) (H.close path)

  -- The entry's content at its path. Entries of another type are skipped, their times too.
  unfoldable pub create : Text → Text → Text → Header → Exec World Bool
  unfolding write_file ensure_link_path
  create root base path h = elim h.type_flag [
    | regular ↦ write_file path h.content h.mode >> pure true
    | directory ↦ H.mkdir_all path h.mode >> pure true
    | hard_link ↦ do
      target ← reads (λ w. ensure_link_path w root base path h.link_name)
      H.link target path
      pure true
    | symbolic_link ↦ do
      target ← reads (λ w. ensure_link_path w root base path h.link_name)
      H.symlink target path
      pure true
    | other ↦ pure false
  ]

  -- The body of the loop once the entry's path is known.
  unfoldable pub extract_at : Text → Text → Text → Header → Exec World (Unit {0})
  unfolding create
  extract_at root base path h = do
    created ← create root base path h
    λ w. (ok tt, if created then H.chtimes path h w else w)

  pub extract_entry : Text → Text → Header → Exec World (Unit {0})
  unfolding extract_at ensure_base_path
  extract_entry root base h = do
    name ← reads (λ w. ensure_base_path w root base h.name)
    extract_at root base (join_path root name) h

  -- `extractTarDirectory`
  unfoldable pub extract_tar_directory :
      Text → Text → List Header → Option Error → Exec World (Unit {0})
  unfolding extract_entry
  extract_tar_directory root base [] none = pure tt
  extract_tar_directory root base [] (some e) = raise e
  extract_tar_directory root base (h ∷ headers) ending =
      extract_entry root base h >> extract_tar_directory root base headers ending

  -- The verifier of a checksum that parses; any other checksum is not checked.
  unfoldable pub verified : Text → Text → Bool
  verified checksum payload =
      if is_empty checksum
      then true
      else elim (H.parse_digest checksum) [ none ↦ true | some has_digest ↦ has_digest payload ]

  -- `extractTarGzip`
  unfoldable pub extract_tar_gzip : Text → Text → Text → Text → Exec World (Unit {0})
  unfolding extract_tar_directory verified
  extract_tar_gzip root base filename checksum = do
    content ← reads (λ w. H.open_read w filename)
    let archive = H.unpack content
    finally
        (do
          reads (λ w. archive.opening)
          finally
              (do
                extract_tar_directory root base archive.headers archive.ending
                guard (verified checksum archive.payload) (message (lit "content digest mismatch")))
              (reads (λ w. archive.closing)))
        (H.close filename)
