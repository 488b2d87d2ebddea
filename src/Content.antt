-- ===== src/Content.antt =====
-- The OCI descriptor (`ocispec.Descriptor` in the sources of aritfact): what kind of content it is,
-- its digest and size, and a reference to its annotations, which descriptors may share. Sizes are
-- not negative here. A Go map of strings is an association list in which a write shadows.
use containerd_attributes_cl.Base.{
  Text, ℕ, List, [], ◌∷◌, ◌++◌, Option, none, some, ◌==◌, text_eq, if◌then◌else◌, length, get_elem?,
  set,
}

pub record Descriptor : Type 0 where
  pub media_type : Text
  pub digest : Text
  pub size : ℕ
  pub annotations : Option ℕ

abbrev pub no_descriptor : Descriptor
no_descriptor = record { media_type = []; digest = []; size = 0; annotations = none }

abbrev pub Entries : Type 0
Entries = List (Text × Text)

-- `m[k]`; a missing key reads as the empty text.
unfoldable pub entry : Text → Entries → Text
entry k [] = []
entry k ((j, v) ∷ m) = let rest = entry k m in if j == k then v else rest

-- The maps that annotations refer to.
abbrev pub Heap : Type 0
Heap = List Entries

abbrev entries_at : Option Entries → Entries
entries_at none = []
entries_at (some m) = m

abbrev pub entries : Heap → Option ℕ → Entries
entries heap none = []
entries heap (some i) = entries_at (get_elem? heap i)

-- `d.Annotations[k]`
unfoldable pub annotation : Heap → Descriptor → Text → Text
unfolding entry
annotation heap d k = entry k (entries heap d.annotations)

-- `if d.Annotations == nil { d.Annotations = map[string]string{} }; d.Annotations[k] = v`
unfoldable pub annotate : Heap → Descriptor → Text → Text → Descriptor × Heap
annotate heap d k v = elim d.annotations [
  | none ↦ (record d { annotations = some (length heap) }, heap ++ ((k, v) ∷ []) ∷ [])
  | some i ↦ (d, set heap i ((k, v) ∷ entries heap (some i)))
]
