-- ===== src/FileStore/Read.antt =====
-- aritfact/content/file/file.go: the calls that look something up, `Tag` and `Close`.
pub mod Closed
pub mod Tags
use containerd_attributes_cl.Base.{
  load, load-cons, Text, lit, List, [], ◌∷◌, ◌++◌, Option, none, some, Bool, true, false, not, ◌&&◌,
  ◌==◌, text_eq, if◌then◌else◌, is_empty, Error, message, sentinel, wrap, is, not_exist,
  oras_not_found, store_closed, missing_reference, not_stored, sentinel_eq, Result, ok, err, Done,
}
use containerd_attributes_cl.Base.Exec.{Exec}
use containerd_attributes_cl.Content.{Descriptor, Heap, annotation, annotate}
use containerd_attributes_cl.FileStore.Host.{Host}
use containerd_attributes_cl.FileStore.Store.{Store, Session, name_exists}

-- ocispec.AnnotationTitle
unfoldable pub title : Text
unfolding lit
title = lit "org.opencontainers.image.title"

-- ocispec.AnnotationRefName
unfoldable pub ref_name : Text
unfolding lit
ref_name = lit "org.opencontainers.image.ref.name"

abbrev pub not_found_at : Text → Error
not_found_at where_ = wrap where_ (sentinel oras_not_found)

module _ (H : Host) where
  -- `Fetch`, up to the content that the reader it returns gives.
  unfoldable pub fetch : Session H → Descriptor → Result Text
  unfolding title
  fetch s target =
      let name = annotation s.heap target title in
      if s.store.closed
      then err (sentinel store_closed)
      else if not (is_empty name) && not (name_exists H s name)
      then err (not_found_at name)
      else elim (load target.digest s.store.digest_to_path) [
        | none ↦ H.fallback_fetch s.store.fallback_storage target
        | some path ↦ elim (H.open_read s.world path) [
          | ok content ↦ ok content
          | err e ↦ if is not_exist e then err (not_found_at target.digest) else err e
        ]
      ]

  unfoldable pub exists : Session H → Descriptor → Result Bool
  unfolding title
  exists s target =
      let name = annotation s.heap target title in
      if s.store.closed
      then err (sentinel store_closed)
      else if not (is_empty name) && not (name_exists H s name)
      then ok false
      else elim (load target.digest s.store.digest_to_path) [
        | none ↦ H.fallback_exists s.store.fallback_storage target
        | some path ↦ ok true
      ]

  unfoldable pub resolve : Session H → Text → Result Descriptor
  resolve s ref =
      if s.store.closed
      then err (sentinel store_closed)
      else if is_empty ref
      then err (sentinel missing_reference)
      else elim (load ref s.store.resolver) [
        | none ↦ err (wrap ref (sentinel not_stored))
        | some d ↦ ok d
      ]

  -- The end of `Tag`: the reference is written into the annotations, which the caller's descriptor
  -- shares, and the descriptor is kept under it.
  pub store_tag : Descriptor → Text → Exec (Session H) (Unit {0})
  unfolding ref_name
  store_tag d ref s =
      let (d', heap) = annotate s.heap d ref_name ref in
      let store = record s.store { resolver = (ref, d') ∷ s.store.resolver } in
      (ok tt, record s { heap = heap; store = store })

  unfoldable pub tag : Descriptor → Text → Exec (Session H) (Unit {0})
  unfolding store_tag
  tag d ref s =
      if s.store.closed
      then (err (sentinel store_closed), s)
      else if is_empty ref
      then (err (sentinel missing_reference), s)
      else elim (exists s d) [
        | err e ↦ (err e, s)
        | ok false ↦ (err (not_found_at d.digest), s)
        | ok true ↦ store_tag d ref s
      ]

  -- The descriptors among the nodes.
  pub node_descriptors : List (Option Descriptor) → List Descriptor
  node_descriptors [] = []
  node_descriptors (none ∷ nodes) = node_descriptors nodes
  node_descriptors (some d ∷ nodes) = d ∷ node_descriptors nodes

  unfoldable pub predecessors : Session H → Descriptor → Result (List Descriptor)
  unfolding node_descriptors
  predecessors s node =
      if s.store.closed
      then err (sentinel store_closed)
      else ok (node_descriptors (H.graph_to s.store.graph node.digest))

  -- The files are removed one by one, whatever comes of the ones before.
  pub remove_all : List Text → H.World → List Error × H.World
  remove_all [] w = ([], w)
  remove_all (name ∷ names) w =
      let (r, w₁) = H.remove name w in
      let (errs, w₂) = remove_all names w₁ in elim r [ ok _ ↦ (errs, w₂) | err e ↦ (e ∷ errs, w₂) ]

  pub texts : List Error → Text
  unfolding lit
  texts [] = []
  texts (e ∷ []) = H.error_text e
  texts (e ∷ f ∷ es) = H.error_text e ++ lit "; " ++ texts (f ∷ es)

  abbrev joined : List Error → Done
  joined [] = ok tt
  joined (e ∷ es) = err (message (texts (e ∷ es)))

  unfoldable pub close_store : Exec (Session H) (Unit {0})
  unfolding remove_all texts
  close_store s =
      let (errs, w) = remove_all s.store.tmp_files s.world in
      if s.store.closed
      then (ok tt, s)
      else (joined errs, record s { store = record s.store { closed = true }; world = w })
