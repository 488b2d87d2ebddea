-- ===== src/FileStore/Push/Lost.antt =====
-- The error of `pushFile` that `push` loses.
use containerd_attributes_cl.Base.{
  Text, Option, true, false, text_eq, is_empty, Error, wrap, sentinel, duplicate_name, ok, err, ◌≡◌,
  ap, arith, load-cons,
}
use containerd_attributes_cl.Content.{Descriptor, annotation}
use containerd_attributes_cl.FileStore.Host.{Host, Reader, FileAttributes}
use containerd_attributes_cl.FileStore.Store.{Session, name_exists, resolve_write_path}
use containerd_attributes_cl.FileStore.Read.{title}
use containerd_attributes_cl.FileStore.Push.{
  push_file, push_content, push_named, push_one, mark_existing, wants_unpack, attributes_or,
}
use containerd_attributes_cl.FileStore.Push.Names.{push_content-Kept}

module _ (H : Host) where
  push_content_single :
      (name target : Text) (d : Descriptor) (r : Reader) (s : Session H)
      (file : Option FileAttributes)
      → wants_unpack H s d ≡ false
      → H.file_info s.heap d ≡ ok file
      → push_content H name target d r s
        ≡ (ok tt, (push_file H target d (attributes_or H file) r s).1)
  unfolding push_content
  push_content_single name target d r s file single f = ground (arith, single, f)

  -- What `push` of one file does when it comes to write.
  pub push_one_single :
      (d : Descriptor) (r : Reader) (s : Session H) (path : Text) (file : Option FileAttributes)
      → is_empty (annotation s.heap d title) ≡ false
      → wants_unpack H s d ≡ false
      → name_exists H s (annotation s.heap d title) ≡ false
      → resolve_write_path H s (annotation s.heap d title) ≡ ok path
      → H.file_info s.heap d ≡ ok file
      → let t = (push_one H d r s).1 in
        let u = (push_file H path d (attributes_or H file) r s).1 in
        ((push_one H d r s).0 ≡ ok tt)
        × (t.heap ≡ s.heap)
        × (t.world ≡ u.world)
        × (t.store.closed ≡ s.store.closed)
        × (t.store.digest_to_path ≡ u.store.digest_to_path)
        × (name_exists H t (annotation s.heap d title) ≡ true)
  unfolding push_one push_named mark_existing
  push_one_single d r s path file named single free p f =
      let name = annotation s.heap d title in
      let made = push_content_single name path d r s file single f in
      let kept = push_content-Kept H name path d r s in
      (
        ground (arith, named, free, p, made),
        ground (arith, named, free, p, kept),
        ground (arith, named, free, p, made),
        ground (arith, named, free, p, kept),
        ground (arith, named, free, p, made),
        ground (arith, named, free, p, made, load-cons name name true s.store.name_to_status),
      )

  push_one_duplicate :
      (d : Descriptor) (r : Reader) (s : Session H) (name : Text)
      → annotation s.heap d title ≡ name
      → is_empty name ≡ false
      → name_exists H s name ≡ true
      → push_one H d r s ≡ (err (wrap name (sentinel duplicate_name)), s)
  unfolding push_one push_named
  push_one_duplicate d r s name same n e = ground (arith, same, n, e)

  -- An error of `pushFile` is lost: if a name is free, has a path to write to and the attributes of the
  -- file can be read, then `push` returns no error for a file whose writing has failed, and the name
  -- counts as existing, so that a second push of the content is refused.
  pub push_one_lost :
      (d : Descriptor) (r q : Reader) (s : Session H) (path : Text) (file : Option FileAttributes)
      (e : Error)
      → is_empty (annotation s.heap d title) ≡ false
      → wants_unpack H s d ≡ false
      → name_exists H s (annotation s.heap d title) ≡ false
      → resolve_write_path H s (annotation s.heap d title) ≡ ok path
      → H.file_info s.heap d ≡ ok file
      → (push_file H path d (attributes_or H file) r s).0 ≡ err e
      → let t = (push_one H d r s).1 in
        ((push_one H d r s).0 ≡ ok tt)
        × (push_one H d q t ≡ (err (wrap (annotation s.heap d title) (sentinel duplicate_name)), t))
  push_one_lost d r q s path file e named single free p f failed =
      let (done, heap, _, _, _, exists) = push_one_single d r s path file named single free p f in
      (
        done,
        push_one_duplicate d q (push_one H d r s).1 (annotation s.heap d title)
            (ap (λ h. annotation h d title) heap) named exists,
      )
