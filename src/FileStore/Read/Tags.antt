-- ===== src/FileStore/Read/Tags.antt =====
-- `Tag` and `Resolve`, with the annotations that descriptors share.
use containerd_attributes_cl.Base.{
  load, Text, ℕ, zero, suc, ◌<◌, [], ◌∷◌, ◌++◌, some, false, text_eq, is_empty, ok, ◌≡◌, ◌≢◌, refl,
  sym, ap, ◌∙◌, arith, length, get_elem?, set, length-set, Option-cases, inl, inr,
}
use containerd_attributes_cl.Content.{Descriptor, Heap, Entries, entries, annotation, annotate}
use containerd_attributes_cl.FileStore.Host.{Host}
use containerd_attributes_cl.FileStore.Store.{Session}
use containerd_attributes_cl.FileStore.Read.{ref_name, resolve, store_tag, tag}

-- The annotations of the descriptor, if it has any, are among the maps.
abbrev pub IsValid : Heap → Descriptor → Type 0
IsValid heap d = (i : ℕ) → d.annotations ≡ some i → i < length heap

get_elem?-set_self :
    (heap : Heap) (i : ℕ) (m : Entries) → i < length heap → get_elem? (set heap i m) i ≡ some m
get_elem?-set_self [] i m h = elim h [ ]
get_elem?-set_self (x ∷ heap) zero m h = refl
get_elem?-set_self (x ∷ heap) (suc i) m h = get_elem?-set_self heap i m (omega arith)

get_elem?-concat : (heap : Heap) (m : Entries) → get_elem? (heap ++ m ∷ []) (length heap) ≡ some m
get_elem?-concat [] m = refl
get_elem?-concat (x ∷ heap) m = get_elem?-concat heap m

-- A written annotation is read back.
pub annotation-annotate :
    (heap : Heap) (d : Descriptor) (k v : Text)
    → IsValid heap d
    → annotation (annotate heap d k v).1 (annotate heap d k v).0 k ≡ v
unfolding annotation annotate
annotation-annotate heap d k v valid = elim (Option-cases d.annotations) [
  | inl e ↦ ground (arith, e, get_elem?-concat heap ((k, v) ∷ []))
  | inr (i, e) ↦
      ground (arith, e, get_elem?-set_self heap i ((k, v) ∷ entries heap (some i)) (valid i e))
]

-- A descriptor that has annotations stays, and as many maps.
annotate_shared :
    (heap : Heap) (d : Descriptor) (k v : Text) (i : ℕ)
    → d.annotations ≡ some i
    → ((annotate heap d k v).0 ≡ d) × (length (annotate heap d k v).1 ≡ length heap)
unfolding annotate
annotate_shared heap d k v i e =
    ground (arith, e, length-set heap i ((k, v) ∷ entries heap (some i)))

annotation_shared :
    (heap : Heap) (d : Descriptor) (k v : Text) (i : ℕ)
    → d.annotations ≡ some i
    → i < length heap
    → annotation (annotate heap d k v).1 d k ≡ v
annotation_shared heap d k v i e h =
    ap (λ x. annotation (annotate heap d k v).1 x k) (sym (annotate_shared heap d k v i e).0)
    ∙ annotation-annotate heap d k v (λ j f. ground (arith, e, f, h))

module _ (H : Host) where
  -- A successful call has passed the guards.
  tag_success :
      (d : Descriptor) (ref : Text) (s : Session H)
      → (tag H d ref s).0 ≡ ok tt
      → (tag H d ref s ≡ store_tag H d ref s) × (s.store.closed ≡ false) × (is_empty ref ≡ false)
  unfolding tag store_tag
  tag_success d ref s h = (ground arith, ground arith, ground arith)

  resolve-store_tag :
      (d : Descriptor) (ref : Text) (s : Session H)
      → s.store.closed ≡ false
      → is_empty ref ≡ false
      → resolve H (store_tag H d ref s).1 ref ≡ ok (annotate s.heap d ref_name ref).0
  unfolding store_tag resolve load
  resolve-store_tag d ref s c e = ground arith

  heap-store_tag :
      (d : Descriptor) (ref : Text) (s : Session H)
      → (store_tag H d ref s).1.heap ≡ (annotate s.heap d ref_name ref).1
  unfolding store_tag
  heap-store_tag d ref s = refl

  -- After `Tag` succeeds, `Resolve` gives for the reference a descriptor of the same content, whose
  -- ref-name annotation is the reference.
  pub resolve-tag :
      (d : Descriptor) (ref : Text) (s : Session H)
      → IsValid s.heap d
      → (tag H d ref s).0 ≡ ok tt
      → (found : Descriptor) × (resolve H (tag H d ref s).1 ref ≡ ok found)
        × (found.digest ≡ d.digest)
        × (found.media_type ≡ d.media_type)
        × (found.size ≡ d.size)
        × (annotation (tag H d ref s).1.heap found ref_name ≡ ref)
  unfolding annotate
  resolve-tag d ref s valid h =
      let (e, open_, given) = tag_success d ref s h in
      (
        (annotate s.heap d ref_name ref).0,
        rw e (resolve-store_tag d ref s open_ given),
        ground arith,
        ground arith,
        ground arith,
        rw (e, heap-store_tag d ref s) (annotation-annotate s.heap d ref_name ref valid),
      )

  -- References other than the one that is tagged resolve as before.
  pub resolve-tag_other :
      (d : Descriptor) (ref other : Text) (s : Session H)
      → ref ≢ other
      → resolve H (tag H d ref s).1 other ≡ resolve H s other
  unfolding tag resolve load
  resolve-tag_other d ref other s differ = ground arith

  -- Tagging one descriptor that has annotations under two references leaves both with the second:
  -- the first reference resolves to a descriptor whose ref-name annotation is the second one.
  pub resolve-tag_shared :
      (d : Descriptor) (first second : Text) (i : ℕ) (s : Session H)
      → d.annotations ≡ some i
      → i < length s.heap
      → first ≢ second
      → (tag H d first s).0 ≡ ok tt
      → (tag H d second (tag H d first s).1).0 ≡ ok tt
      → let t = (tag H d second (tag H d first s).1).1 in
        (resolve H t first ≡ ok d) × (annotation t.heap d ref_name ≡ second)
  resolve-tag_shared d first second i s e h differ p q =
      let u = (tag H d first s).1 in
      let (e₁, open₁, given₁) = tag_success d first s p in
      let (e₂, open₂, given₂) = tag_success d second u q in
      let found : resolve H u first ≡ ok d = rw e₁ (
        resolve-store_tag d first s open₁ given₁
        ∙ ap ok (annotate_shared s.heap d ref_name first i e).0) in
      (
        resolve-tag_other d second first u (λ r. differ (sym r)) ∙ found,
        rw (e₂, heap-store_tag d second u)
            (annotation_shared u.heap d ref_name second i e (
              rw (e₁, heap-store_tag d first s)
                (ground (arith, (annotate_shared s.heap d ref_name first i e).1)))),
      )
