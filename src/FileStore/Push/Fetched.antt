-- ===== src/FileStore/Push/Fetched.antt =====
-- Files that are pushed, and then fetched.
use containerd_attributes_cl.Base.{
  Option, load, Text, ℕ, [], ◌∷◌, ◌++◌, append-nil, some, true, false, nat_eq, text_eq, is_empty,
  not_exist, is, Error, Result, ok, err, ◌≡◌, refl, ◌∙◌, ap, arith, drop, length,
}
use containerd_attributes_cl.Content.{Descriptor, Heap, annotation}
use containerd_attributes_cl.FilePath.{dir}
use containerd_attributes_cl.FileStore.Host.{Host, Reader, FileAttributes}
use containerd_attributes_cl.FileStore.Store.{Session, name_exists, resolve_write_path}
use containerd_attributes_cl.FileStore.Read.{title, fetch}
use containerd_attributes_cl.FileStore.Push.{
  push_file, push_one, wants_unpack, mode_of, attributes_or, restore_duplicates, restore_each,
  add_to_graph, after_push, push,
}
use containerd_attributes_cl.FileStore.Push.Lost.{push_one_single}
use containerd_attributes_cl.FileStore.Push.Content.{
  KeepsContents, push_file_verified, opened, read_opened-push_file,
}

-- What the file system is documented to do with a file that is not there: the creation of the
-- directory above does not make it, and opening it to write makes it empty.
pub record CreatesEmpty (H : Host) (path : Text) : Type 0 where
  pub read-mkdir_above :
      (mode : ℕ) (w : H.World) (e : Error)
      → H.open_read w path ≡ err e
      → is not_exist e ≡ true
      → H.open_read (H.mkdir_all (dir path) mode w).1 path ≡ err e
  pub read-created :
      (mode : ℕ) (w : H.World) (e : Error)
      → H.open_read w path ≡ err e
      → is not_exist e ≡ true
      → (H.open_file path false mode w).0 ≡ ok tt
      → H.open_read (H.open_file path false mode w).1 path ≡ ok []

append_drop_nil : (bytes : Text) → bytes ++ drop (length bytes) [] ≡ bytes
append_drop_nil [] = refl
append_drop_nil (b ∷ bytes) = append-nil (b ∷ bytes)

module _ (H : Host) where
  after_push-blob :
      (d : Descriptor) (t : Session H)
      → ((f : Descriptor → Result Text) (heap : Heap) → H.successors f d heap ≡ (ok [], heap))
      → let u = (after_push H d t).1 in
        (u.world ≡ t.world)
        × (u.heap ≡ t.heap)
        × (u.store.closed ≡ t.store.closed)
        × (u.store.digest_to_path ≡ t.store.digest_to_path)
        × (u.store.name_to_status ≡ t.store.name_to_status)
  unfolding after_push restore_duplicates restore_each add_to_graph
  after_push-blob d t blob =
      let b = blob (fetch H t) t.heap in
      (
        ground (arith, b),
        ground (arith, b),
        ground (arith, b),
        ground (arith, b),
        ground (arith, b),
      )

  -- What `Fetch` reads.
  fetch_there :
      (d : Descriptor) (t : Session H) (path content : Text)
      → t.store.closed ≡ false
      → name_exists H t (annotation t.heap d title) ≡ true
      → load d.digest t.store.digest_to_path ≡ some path
      → H.open_read t.world path ≡ ok content
      → fetch H t d ≡ ok content
  unfolding fetch
  fetch_there d t path content c n kept o = ground (arith, c, n, kept, o)

  push_open :
      (d : Descriptor) (r : Reader) (s : Session H)
      → s.store.closed ≡ false
      → (push_one H d r s).0 ≡ ok tt
      → push H d r s ≡ after_push H d (push_one H d r s).1
  unfolding push
  push_open d r s c h = ground (arith, c, h)

module _ (H : Host) (target : Text) (K : KeepsContents H target) (C : CreatesEmpty H target) where
  opened_new :
      (file : FileAttributes) (w : H.World) (e : Error)
      → H.open_read w target ≡ err e
      → is not_exist e ≡ true
      → (H.open_file target false (mode_of H file) (H.mkdir_all (dir target) 0o750 w).1).0 ≡ ok tt
      → H.open_read (opened H target K file w) target ≡ ok []
  opened_new file w e absent n made =
      C.read-created (mode_of H file) (H.mkdir_all (dir target) 0o750 w).1 e
        (C.read-mkdir_above 0o750 w e absent n) n made

  push_file_opens :
      (d : Descriptor) (file : FileAttributes) (r : Reader) (s : Session H)
      → (push_file H target d file r s).0 ≡ ok tt
      → (H.open_file target false (mode_of H file) (H.mkdir_all (dir target) 0o750 s.world).1).0
        ≡ ok tt
  unfolding push_file
  push_file_opens d file r s h = ground (arith, h)

  read_new-push_file :
      (d : Descriptor) (file : FileAttributes) (r : Reader) (s : Session H) (e : Error)
      → H.open_read s.world target ≡ err e
      → is not_exist e ≡ true
      → (push_file H target d file r s).0 ≡ ok tt
      → H.open_read (push_file H target d file r s).1.world target ≡ ok (H.verify_reader d r).bytes
  read_new-push_file d file r s e absent n h =
      read_opened-push_file H target K d file r s []
        (opened_new file s.world e absent n (push_file_opens d file r s h)) h
      ∙ ap ok (append_drop_nil (H.verify_reader d r).bytes)

  name_kept :
      (d : Descriptor) (t u : Session H) {heap : Heap}
      → u.store.name_to_status ≡ t.store.name_to_status
      → u.heap ≡ heap
      → name_exists H t (annotation heap d title) ≡ true
      → name_exists H u (annotation u.heap d title) ≡ true
  name_kept d t u same h e = rw (same, h) e

  -- On a file system that keeps contents and creates files empty: a file whose name is free and
  -- resolves to a path where no file is, and which is not to be unpacked, is there for `Fetch` after
  -- `Push` to an open store, if `pushFile` has succeeded in it. The same descriptor gives the bytes that
  -- the verifying reader yielded, and the descriptor has been verified. The descriptor is that of a
  -- blob, which has no successors.
  pub fetch-push :
      (d : Descriptor) (r : Reader) (s : Session H) (file : Option FileAttributes) (e : Error)
      → s.store.closed ≡ false
      → is_empty (annotation s.heap d title) ≡ false
      → wants_unpack H s d ≡ false
      → name_exists H s (annotation s.heap d title) ≡ false
      → resolve_write_path H s (annotation s.heap d title) ≡ ok target
      → H.open_read s.world target ≡ err e
      → is not_exist e ≡ true
      → H.file_info s.heap d ≡ ok file
      → ((f : Descriptor → Result Text) (heap : Heap) → H.successors f d heap ≡ (ok [], heap))
      → (push_file H target d (attributes_or H file) r s).0 ≡ ok tt
      → (fetch H (push H d r s).1 d ≡ ok (H.verify_reader d r).bytes) × (H.verify d r ≡ ok tt)
  fetch-push d r s file e c named single free p absent n f blob h =
      let t = (push_one H d r s).1 in
      let (done, heap, world, closed, paths, exists) =
        push_one_single H d r s target file named single free p f in
      let (v, _, kept) = push_file_verified H target d (attributes_or H file) r s h in
      let (w, hp, cl, dp, st) = after_push-blob H d t blob in
      (
        rw (push_open H d r s c done) (
            fetch_there H d (after_push H d t).1 target (H.verify_reader d r).bytes
              (cl ∙ closed ∙ c) (name_kept d t (after_push H d t).1 st (hp ∙ heap) exists)
              (ap (load d.digest) (dp ∙ paths) ∙ kept)
              (rw (w, world) (read_new-push_file d (attributes_or H file) r s e absent n h))),
        v,
      )
