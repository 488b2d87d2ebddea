-- ===== src/FileStore/Push.antt =====
-- aritfact/content/file/file.go, `Push`, with what it calls, and
-- aritfact/content/file/internal/ioutil/io.go, `CopyBuffer`. Buffers only bound how much is copied
-- at once and are left out.
pub mod Names
pub mod Confined
pub mod Content
pub mod Lost
pub mod Fetched
use containerd_attributes_cl.Base.{
  Text, ℕ, ℤ, negsuc, lit, List, [], ◌∷◌, ◌++◌, Option, none, some, Bool, true, false, not, ◌&&◌,
  ◌||◌, ◌==◌, text_eq, nat_eq, ℤ_eq, if◌then◌else◌, is_empty, Error, message, sentinel, wrap, is,
  pos, oras_not_found, store_closed, duplicate_name, skip_unnamed, sentinel_eq, Result, ok, err,
  Done,
}
use containerd_attributes_cl.Base.Exec.{
  Exec, ◌>>=◌, ◌>>◌, pure, raise, reads, or_wrap, finally, finally_ignoring, ignoring_failure,
}
use containerd_attributes_cl.Content.{Descriptor, annotation}
use containerd_attributes_cl.FilePath.{dir}
use containerd_attributes_cl.FileStore.Host.{Host, Reader, FileAttributes}
use containerd_attributes_cl.FileStore.Archive.{extract_tar_gzip}
use containerd_attributes_cl.FileStore.Store.{Store, Session, name_exists, resolve_write_path}
use containerd_attributes_cl.FileStore.Read.{title, fetch}

-- file.AnnotationUnpack and file.AnnotationDigest of oras
unfoldable pub unpack_key : Text
unfolding lit
unpack_key = lit "io.deis.oras.content.unpack"

unfoldable pub digest_key : Text
unfolding lit
digest_key = lit "io.deis.oras.content.digest"

-- A descriptor of the same content without annotations.
abbrev pub plain : Descriptor → Descriptor
plain d = record d { annotations = none }

abbrev no_attributes : FileAttributes
no_attributes = record { permissions = 0; uid = pos 0; gid = pos 0 }

module _ (H : Host) where
  abbrev pub Act : Type 0 → Type 0
  Act A = Exec (Session H) A

  abbrev pub on_world : {A : Type 0} → Exec H.World A → Act A
  on_world m s = let (r, w) = m s.world in (r, record s { world = w })

  abbrev pub on_store : (Store H.Graph H.Fallback → Store H.Graph H.Fallback) → Act (Unit {0})
  on_store f s = (ok tt, record s { store = f s.store })

  -- `CopyBuffer`, into the file that has been opened at the path: what the verifying reader yields is
  -- written, and then its verdict counts.
  unfoldable pub copy_buffer : Text → Descriptor → Reader → Exec H.World (Unit {0})
  copy_buffer path d r = do
    let read = H.verify_reader d r
    or_wrap (wrap (lit "copy failed"))
        (do H.write path read.bytes; elim read.failure [ none ↦ pure tt | some e ↦ raise e ])
    reads (λ w. H.verify d r)

  unfoldable pub save_file : Text → Descriptor → Reader → Act (Unit {0})
  unfolding copy_buffer
  save_file path d r =
      finally
        (do
          or_wrap (wrap (lit "failed to copy content to " ++ path))
              (on_world (copy_buffer path d r))
          on_store (λ t. record t { digest_to_path = (d.digest, path) ∷ t.digest_to_path }))
        (on_world (H.close path))

  -- `ensureDir`, with mode 0750
  unfoldable pub ensure_dir : Text → Act (Unit {0})
  ensure_dir path =
      or_wrap (wrap (lit "failed to ensure directories of the target path"))
        (on_world (H.mkdir_all path 0o750))

  abbrev mode_of : FileAttributes → ℕ
  mode_of file = if file.permissions == 0 then 0o640 else file.permissions

  -- The file is opened without truncation. The deferred `Close` comes after that of `saveFile`, and
  -- its error is assigned where nothing reads it.
  unfoldable pub push_file : Text → Descriptor → FileAttributes → Reader → Act (Unit {0})
  unfolding save_file ensure_dir
  push_file target d file r = do
    ensure_dir (dir target)
    or_wrap (wrap (lit "failed to create file " ++ target))
        (on_world (H.open_file target false (mode_of file)))
    finally_ignoring
        (do
          save_file target d r
          if not (file.uid == negsuc 0) && not (file.gid == negsuc 0)
              then on_world (H.chown target file.uid file.gid)
              else pure tt)
        (on_world (H.close target))

  -- `tempFile`
  unfoldable pub temp_file : Act Text
  temp_file = do
    name ← on_world H.create_temp
    on_store (λ t. record t { tmp_files = t.tmp_files ++ name ∷ [] })
    pure name

  unfoldable pub push_dir : Text → Text → Descriptor → Reader → Act (Unit {0})
  unfolding save_file ensure_dir temp_file digest_key
  push_dir name target d r = do
    ensure_dir target
    gz ← temp_file
    or_wrap (wrap (lit "failed to save gzip to " ++ gz)) (save_file gz d r)
    checksum ← reads (λ s. ok (annotation s.heap d digest_key))
    or_wrap (wrap (lit "failed to extract tar to " ++ target))
        (on_world (extract_tar_gzip H target name gz checksum))

  abbrev attributes_or : Option FileAttributes → FileAttributes
  attributes_or none = no_attributes
  attributes_or (some file) = file

  abbrev wants_unpack : Session H → Descriptor → Bool
  wants_unpack s d = annotation s.heap d unpack_key == lit "true"

  -- The part of `push` that writes. In the branch of a single file `node, err :=` declares another
  -- `err`: it is that one which gets the error of `pushFile`, and nothing reads it there.
  unfoldable pub push_content : Text → Text → Descriptor → Reader → Act (Unit {0})
  unfolding push_file push_dir unpack_key
  push_content name target d r s =
      if wants_unpack s d
      then push_dir name target d r s
      else (do
        file ← reads (λ s. H.file_info s.heap d)
        ignoring_failure (push_file target d (attributes_or file) r))
          s

  unfoldable pub mark_existing : Text → Act (Unit {0})
  mark_existing name = on_store (λ t. record t { name_to_status = (name, true) ∷ t.name_to_status })

  unfoldable pub push_to_fallback : Descriptor → Reader → Act (Unit {0})
  push_to_fallback d r s =
      let (pushed, fallback) = H.fallback_push d r s.store.fallback_storage in
      (pushed, record s { store = record s.store { fallback_storage = fallback } })

  unfoldable pub push_named : Text → Descriptor → Reader → Act (Unit {0})
  unfolding push_content mark_existing
  push_named name d r s =
      if name_exists H s name
      then (err (wrap name (sentinel duplicate_name)), s)
      else (do
        target ←
            or_wrap (wrap (lit "failed to resolve path for writing"))
              (reads (λ s. resolve_write_path H s name))
        push_content name target d r
        mark_existing name)
          s

  -- `push`
  unfoldable pub push_one : Descriptor → Reader → Act (Unit {0})
  unfolding push_named push_to_fallback title
  push_one d r s =
      let name = annotation s.heap d title in
      if is_empty name
      then (if s.store.ignore_no_name
          then (err (sentinel skip_unnamed), s)
          else push_to_fallback d r s)
      else push_named name d r s

  -- The body of the loop of `restoreDuplicates`.
  unfoldable pub restore_content : Descriptor → Text → Act (Unit {0})
  restore_content d name = or_wrap (wrap name) (do
    content ← reads (λ s. fetch H s (plain d))
    push_one d (record { bytes = content; failure = none }))

  unfoldable pub restore_each : List Descriptor → Act (Unit {0})
  unfolding restore_content
  restore_each [] s = (ok tt, s)
  restore_each (d ∷ successors) s =
      let name = annotation s.heap d title in
      let (restored, t) = restore_content d name s in
      elim (is_empty name || name_exists H s name) [
        | true ↦ restore_each successors s
        | false ↦ elim restored [
          | ok _ ↦ restore_each successors t
          | err e ↦ elim (is oras_not_found e) [
            | true ↦ restore_each successors t
            | false ↦ (err e, t)
          ]
        ]
      ]

  unfoldable pub restore_duplicates : Descriptor → Act (Unit {0})
  unfolding restore_each
  restore_duplicates d s =
      let (found, heap) = H.successors (fetch H s) d s.heap in
      let t = record s { heap = heap } in
      elim found [ err e ↦ (err e, t) | ok successors ↦ restore_each successors t ]

  unfoldable pub add_to_graph : Descriptor → Act (Unit {0})
  add_to_graph d s =
      let (added, graph) = H.add_manifest (H.fetch_all (fetch H s)) s.heap d s.store.graph in
      (added, record s { store = record s.store { graph = graph } })

  unfoldable pub after_push : Descriptor → Act (Unit {0})
  unfolding restore_duplicates add_to_graph
  after_push d s =
      ((if s.store.force_cas
            then pure tt
            else or_wrap (wrap (lit "failed to restore duplicated file")) (restore_duplicates d))
          >> add_to_graph d)
        s

  -- `Push`
  unfoldable pub push : Descriptor → Reader → Act (Unit {0})
  unfolding push_one after_push
  push d r s =
      let (pushed, t) = push_one d r s in
      if s.store.closed then (err (sentinel store_closed), s) else elim pushed [
        | ok _ ↦ after_push d t
        | err e ↦ (if is skip_unnamed e then ok tt else err e, t)
      ]
