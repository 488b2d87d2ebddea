-- ===== src/FileStore/Add/Fetched.antt =====
-- Files that are added, and then fetched.
use containerd_attributes_cl.Base.{
  Text, lit, List, ◌∷◌, ◌++◌, none, some, true, false, text_eq, if◌then◌else◌, is_empty, Error,
  wrap, ok, err, ◌≡◌, sym, ◌∙◌, arith, Result-cases, inl, inr, load,
}
use containerd_attributes_cl.Content.{Descriptor, annotation, annotate}
use containerd_attributes_cl.FileStore.Host.{Host, FileInfo}
use containerd_attributes_cl.FileStore.Store.{Session, abs_path, name_exists}
use containerd_attributes_cl.FileStore.Read.{title, fetch}
use containerd_attributes_cl.FileStore.Read.Tags.{annotation-annotate}
use containerd_attributes_cl.FileStore.Push.{mark_existing}
use containerd_attributes_cl.FileStore.Add.{
  Packer, descriptor_from_file, describe, set_title, add_named, add,
}

module _ (H : Host) (K : Packer H) where
  -- What a described file leaves.
  descriptor_from_file-kept :
      (fi : FileInfo) (media_type path content : Text) (d : Descriptor) (s : Session H)
      → H.open_read s.world path ≡ ok content
      → (descriptor_from_file H K fi media_type path s).0 ≡ ok d
      → let t = (descriptor_from_file H K fi media_type path s).1 in
        (load d.digest t.store.digest_to_path ≡ some path)
        × (d.annotations ≡ none)
        × (t.world ≡ (H.close path s.world).1)
        × (t.heap ≡ s.heap)
        × (t.store.closed ≡ s.store.closed)
  unfolding descriptor_from_file load
  descriptor_from_file-kept fi media_type path content d s o h =
      elim (Result-cases (H.close path s.world).0) [
        | inl (_, c) ↦ (
          ground (arith, o, c, h),
          ground (arith, o, c, h),
          ground (arith, o, c, h),
          ground (arith, o, c, h),
          ground (arith, o, c, h),
        )
        | inr (e, c) ↦ absurd (ground (arith, o, c, h))
      ]

  -- What becomes of a described file: its annotations get the name, and the name exists.
  abbrev named : Text → Descriptor → Session H → Session H
  named name d t = record t {
    heap = (annotate t.heap d title name).1;
    store = record t.store { name_to_status = (name, true) ∷ t.store.name_to_status };
  }

  add_named_file :
      (name media_type path : Text) (fi : FileInfo) (d : Descriptor) (s : Session H)
      → H.stat s.world path ≡ ok fi
      → fi.is_dir ≡ false
      → (descriptor_from_file H K fi media_type path s).0 ≡ ok d
      → let t = (descriptor_from_file H K fi media_type path s).1 in
        add_named H K name media_type path s ≡ (ok (annotate t.heap d title name).0, named name d t)
  unfolding add_named set_title describe mark_existing
  add_named_file name media_type path fi d s st file p = ground (arith, st, file, p)

  annotated_digest :
      (d : Descriptor) (heap : List (List (Text × Text))) (k v : Text)
      → (annotate heap d k v).0.digest ≡ d.digest
  unfolding annotate
  annotated_digest d heap k v = ground arith

  fetch_named :
      (name path content : Text) (d : Descriptor) (t : Session H)
      → t.store.closed ≡ false
      → d.annotations ≡ none
      → load d.digest t.store.digest_to_path ≡ some path
      → H.open_read t.world path ≡ ok content
      → fetch H (named name d t) (annotate t.heap d title name).0 ≡ ok content
  unfolding fetch load
  fetch_named name path content d t c bare kept o =
      let e = (annotate t.heap d title name).0 in
      let given =
        annotation-annotate t.heap d title name (λ i f. absurd (ground (arith, bare, f))) in
      ground (arith, c, kept, o, given, annotated_digest d t.heap title name)

  add_named_failed :
      (name media_type path : Text) (fi : FileInfo) (f : Error) (s : Session H)
      → H.stat s.world path ≡ ok fi
      → fi.is_dir ≡ false
      → (descriptor_from_file H K fi media_type path s).0 ≡ err f
      → (add_named H K name media_type path s).0
        ≡ err (wrap (lit "failed to generate descriptor from " ++ path) f)
  unfolding add_named describe
  add_named_failed name media_type path fi f s st file p = ground (arith, st, file, p)

  add_success :
      (name media_type path : Text) (e : Descriptor) (s : Session H)
      → (add H K name media_type path s).0 ≡ ok e
      → (add H K name media_type path s
          ≡ add_named H K name media_type (abs_path H s (if is_empty path then name else path)) s)
        × (s.store.closed ≡ false)
        × (is_empty name ≡ false)
        × (name_exists H s name ≡ false)
  unfolding add
  add_success name media_type path e s h =
      (ground (arith, h), ground (arith, h), ground (arith, h), ground (arith, h))

  fetch-add_named :
      (name media_type path content : Text) (fi : FileInfo) (e : Descriptor) (s : Session H)
      → s.store.closed ≡ false
      → H.stat s.world path ≡ ok fi
      → fi.is_dir ≡ false
      → H.open_read s.world path ≡ ok content
      → H.open_read (H.close path s.world).1 path ≡ ok content
      → (add_named H K name media_type path s).0 ≡ ok e
      → (fetch H (add_named H K name media_type path s).1 e ≡ ok content)
        × (annotation (add_named H K name media_type path s).1.heap e title ≡ name)
  fetch-add_named name media_type path content fi e s c st file o left h =
      let made = descriptor_from_file H K fi media_type path s in
      elim (Result-cases made.0) [
        | inr (f, p) ↦
            absurd (ground (arith, h, add_named_failed name media_type path fi f s st file p))
        | inl (d, p) ↦
            let (kept, bare, w, heap, open_) =
              descriptor_from_file-kept fi media_type path content d s o p in
            let all = add_named_file name media_type path fi d s st file p in
            let same : (annotate made.1.heap d title name).0 ≡ e = ground (arith, h, all) in
            rw (all, sym same)
              (
                fetch_named name path content d made.1 (open_ ∙ c) bare kept (rw w left),
                annotation-annotate made.1.heap d title name
                    (λ i f. absurd (ground (arith, bare, f))),
              )
      ]

  -- A regular file that `Add` adds is there for `Fetch`: the descriptor that is returned, whose title
  -- is the name, gives the content that the file had, if closing the file leaves that content.
  pub fetch-add :
      (name media_type path content : Text) (fi : FileInfo) (e : Descriptor) (s : Session H)
      → let at = abs_path H s (if is_empty path then name else path) in
        H.stat s.world at ≡ ok fi
        → fi.is_dir ≡ false
        → H.open_read s.world at ≡ ok content
        → H.open_read (H.close at s.world).1 at ≡ ok content
        → (add H K name media_type path s).0 ≡ ok e
        → (fetch H (add H K name media_type path s).1 e ≡ ok content)
          × (annotation (add H K name media_type path s).1.heap e title ≡ name)
  fetch-add name media_type path content fi e s st file o left h =
      let (same, c, _, _) = add_success name media_type path e s h in
      let at = abs_path H s (if is_empty path then name else path) in
      rw same (fetch-add_named name media_type at content fi e s c st file o left (rw same at h))
