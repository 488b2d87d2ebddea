-- ===== src/FileStore/Add.antt =====
-- aritfact/content/file/file.go, `Add`, and aritfact/content/file/utils.go, `tarDirectory`: a file or
-- a packed directory becomes a blob of the store.
pub mod Fetched
pub mod Named
pub mod Packed
use containerd_attributes_cl.Base.{
  Text, ℕ, lit, List, [], ◌∷◌, ◌++◌, Option, none, some, Bool, true, false, ◌==◌, text_eq,
  if◌then◌else◌, is_empty, Error, message, sentinel, wrap, store_closed, missing_name,
  duplicate_name, sentinel_eq, Result, ok, err, Done, length,
}
use containerd_attributes_cl.Base.Exec.{
  Exec, ◌>>=◌, ◌>>◌, pure, raise, reads, or_wrap, finally, guard,
}
use containerd_attributes_cl.Content.{Descriptor, annotate}
use containerd_attributes_cl.FilePath.{join_path, rel}
use containerd_attributes_cl.FileStore.Host.{Host, FileInfo}
use containerd_attributes_cl.FileStore.Store.{Session, abs_path, name_exists}
use containerd_attributes_cl.FileStore.Read.{title}
use containerd_attributes_cl.FileStore.Push.{
  Act, on_world, on_store, temp_file, mark_existing, digest_key, unpack_key,
}

-- tar.Header as it is written; 0 is the zero time, and the last field stands for the fields that
-- nothing here sets.
pub record TarHeader : Type 0 where
  pub name : Text
  pub uid : ℕ
  pub gid : ℕ
  pub uname : Text
  pub gname : Text
  pub mod_time : ℕ
  pub access_time : ℕ
  pub change_time : ℕ
  pub others : Text

-- A call that filepath.Walk makes: the path, the error or the information on the file, and whether
-- that says that it is a symbolic link or a regular file.
pub record Visit (Info : Type 0) : Type 0 where
  pub path : Text
  pub failure : Option Error
  pub info : Info
  pub is_symlink : Bool
  pub is_regular : Bool

-- What `Add` calls besides the host: the walk over a directory, and the writers for tar and gzip that
-- stand over the file at a path.
pub record Packer (H : Host) : Type 1 where
  pub Info : Type 0
  pub walk : H.World → Text → List (Visit Info)
  pub read_link : H.World → Text → Result Text
  -- tar.FileInfoHeader
  pub file_info_header : Info → Text → Result TarHeader
  pub write_header : Text → TarHeader → Exec H.World (Unit {0})
  pub write_content : Text → Text → Exec H.World (Unit {0})
  pub close_tar : Text → Exec H.World (Unit {0})
  pub close_gzip : Text → Exec H.World (Unit {0})
  pub sync : Text → Exec H.World (Unit {0})
  -- digest.FromReader at the content of a file, and the digests of what the two writers have written
  pub digest_of : Text → Text
  pub gzip_digest : H.World → Text → Text
  pub tar_digest : H.World → Text → Text

-- ocispec.MediaTypeImageLayer and ocispec.MediaTypeImageLayerGzip
pub default_blob_media_type : Text
unfolding lit
default_blob_media_type = lit "application/vnd.oci.image.layer.v1.tar"

pub default_blob_dir_media_type : Text
unfolding lit
default_blob_dir_media_type = lit "application/vnd.oci.image.layer.v1.tar+gzip"

abbrev or_default : Text → Text → Text
or_default text default = if is_empty text then default else text

module _ (H : Host) (K : Packer H) where
  open H use {World}
  open K use {Info}

  -- The header without an owner, and without times if those are to be stripped.
  pub anonymous : Bool → Text → TarHeader → TarHeader
  anonymous strip_times name h =
      let t = record h { name = name; uid = 0; gid = 0; uname = []; gname = [] } in
      if strip_times then record t { mod_time = 0; access_time = 0; change_time = 0 } else t

  pub write_entry : Text → Visit Info → Exec World (Unit {0})
  write_entry gz v =
      if v.is_regular
      then (do
        content ← reads (λ w. H.open_read w v.path)
        finally (or_wrap (wrap (lit "failed to copy to " ++ v.path)) (K.write_content gz content))
            (H.close v.path))
      else pure tt

  abbrev pub renamed : Text → Text → Text → Result Text
  renamed root prefix path = elim (rel root path) [
    | none ↦ err (message (lit "Rel: can't make " ++ path ++ lit " relative to " ++ root))
    | some name ↦ ok (join_path prefix name)
  ]

  -- The function that `tarDirectory` gives to the walk.
  pub visit : Text → Text → Text → Bool → Visit Info → Exec World (Unit {0})
  unfolding anonymous write_entry
  visit root prefix gz strip_times v = do
    elim v.failure [ some e ↦ raise e | none ↦ pure tt ]
    name ← reads (λ w. renamed root prefix v.path)
    link ← reads (λ w. if v.is_symlink then K.read_link w v.path else ok [])
    header ← or_wrap (wrap v.path) (reads (λ w. K.file_info_header v.info link))
    or_wrap (wrap (lit "tar")) (K.write_header gz (anonymous strip_times name header))
    write_entry gz v

  pub visit_all : Text → Text → Text → Bool → List (Visit Info) → Exec World (Unit {0})
  unfolding visit
  visit_all root prefix gz strip_times [] = pure tt
  visit_all root prefix gz strip_times (v ∷ vs) =
      visit root prefix gz strip_times v >> visit_all root prefix gz strip_times vs

  -- `tarDirectory`
  pub tar_directory : Text → Text → Text → Bool → Exec World (Unit {0})
  unfolding visit_all
  tar_directory root prefix gz strip_times =
      finally
        (do visits ← reads (λ w. ok (K.walk w root)); visit_all root prefix gz strip_times visits)
        (K.close_tar gz)

  -- The descriptor of a file, whose digest is mapped to its path.
  pub descriptor_from_file : FileInfo → Text → Text → Act H Descriptor
  unfolding default_blob_media_type
  descriptor_from_file fi media_type path = do
    content ← on_world H (reads (λ w. H.open_read w path))
    finally
        (do
          let digest = K.digest_of content
          on_store H (λ t. record t { digest_to_path = (digest, path) ∷ t.digest_to_path })
          pure (record {
            media_type = or_default media_type default_blob_media_type;
            digest = digest;
            size = fi.size;
            annotations = none;
          }))
        (on_world H (H.close path))

  -- The descriptor of the new blob, with annotations of its own.
  abbrev annotated_blob : Text → Text → ℕ → Text → Act H Descriptor
  annotated_blob media_type digest size tar_digest s = (
    ok (record {
      media_type = media_type;
      digest = digest;
      size = size;
      annotations = some (length s.heap);
    }),
    record s { heap = s.heap ++ ((unpack_key, lit "true") ∷ (digest_key, tar_digest) ∷ []) ∷ [] },
  )

  -- The part of `descriptorFromDir` between the creation of the temporary file and its closing.
  pub compress : Text → Text → Text → Text → Act H Descriptor
  unfolding tar_directory default_blob_dir_media_type
  compress name media_type dir gz = do
    strip_times ← reads (λ s. ok s.store.tar_reproducible)
    or_wrap (wrap (lit "failed to tar " ++ dir))
        (on_world H (tar_directory dir name gz strip_times))
    on_world H (K.close_gzip gz)
    on_world H (K.sync gz)
    fi ← on_world H (reads (λ w. H.stat w gz))
    digest ← reads (λ s. ok (K.gzip_digest s.world gz))
    tar_digest ← reads (λ s. ok (K.tar_digest s.world gz))
    on_store H (λ t. record t { digest_to_path = (digest, gz) ∷ t.digest_to_path })
    annotated_blob (or_default media_type default_blob_dir_media_type) digest fi.size tar_digest

  -- The descriptor of a packed directory. The gzip writer is closed once more at the end.
  pub descriptor_from_dir : Text → Text → Text → Act H Descriptor
  unfolding temp_file compress
  descriptor_from_dir name media_type dir = do
    gz ← temp_file H
    finally (finally (compress name media_type dir gz) (on_world H (K.close_gzip gz)))
        (on_world H (H.close gz))

  pub describe : Text → Text → Text → FileInfo → Act H Descriptor
  unfolding descriptor_from_file descriptor_from_dir
  describe name media_type path fi =
      if fi.is_dir
      then descriptor_from_dir name media_type path
      else descriptor_from_file fi media_type path

  pub set_title : Descriptor → Text → Act H Descriptor
  unfolding title annotate
  set_title d name s =
      let (e, heap) = annotate s.heap d title name in (ok e, record s { heap = heap })

  -- `Add` with a name that is free.
  pub add_named : Text → Text → Text → Act H Descriptor
  unfolding describe set_title mark_existing
  add_named name media_type path = do
    fi ← or_wrap (wrap (lit "failed to stat " ++ path)) (on_world H (reads (λ w. H.stat w path)))
    d ←
        or_wrap (wrap (lit "failed to generate descriptor from " ++ path))
          (describe name media_type path fi)
    e ← set_title d name
    mark_existing H name
    pure e

  -- `Add`
  unfoldable pub add : Text → Text → Text → Act H Descriptor
  unfolding add_named
  add name media_type path s =
      if s.store.closed
      then (err (sentinel store_closed), s)
      else if is_empty name
      then (err (sentinel missing_name), s)
      else if name_exists H s name
      then (err (wrap name (sentinel duplicate_name)), s)
      else add_named name media_type (abs_path H s (or_default path name)) s
