-- ===== src/FileStore/Archive/Inside.antt =====
-- Where `extractTarDirectory` creates the entries of an archive.
use containerd_attributes_cl.Base.{
  Text, List, [], ◌∷◌, ◌++◌, Option, none, some, true, false, Error, ok, err, ◌≡◌, ◌≢◌, ◌⊎◌, sym,
  arith, Result-cases, Option-cases, inl, inr, All,
}
use containerd_attributes_cl.Base.Exec.{Exec, ◌>>◌}
use containerd_attributes_cl.FilePath.{dotdot, is_abs, clean, parts, join_path, rel, escapes}
use containerd_attributes_cl.FilePath.Ancestors.{is_abs-rel}
use containerd_attributes_cl.FilePath.Joined.{parts-join_path}
use containerd_attributes_cl.FileStore.Host.{Host, Header}
use containerd_attributes_cl.FileStore.Archive.{
  ensure_base_path, extract_at, extract_entry, extract_tar_directory,
}

-- The path is that of the root or one below it: its elements are those of the root and more, and
-- these hold no `..`.
abbrev pub IsInside : Text → Text → Type 0
IsInside root path =
    (rest : List Text) × (parts path ≡ parts root ++ rest) × All (λ e. e ≢ dotdot) rest

-- What two calls keep, the one after the other keeps.
seq_keeps :
    {S : Type 0} (P : S → Type 0) (m n : Exec S (Unit {0})) (s : S)
    → P (m s).1
    → ((t : S) → P t → P (n t).1)
    → P ((m >> n) s).1
seq_keeps P m n s p q = elim (Result-cases (m s).0) [
  | inl (_, e) ↦ rw e (q (m s).1 p)
  | inr (_, e) ↦ rw e p
]

module _ (H : Host) (root : Text) (rooted : is_abs root ≡ true) where
  ensure_base_path-IsInside :
      (w : H.World) (base target path : Text)
      → ensure_base_path H w root base target ≡ ok path
      → IsInside root (join_path root path)
  unfolding ensure_base_path
  ensure_base_path-IsInside w base target path h = elim (Option-cases (rel base target)) [
    | inl p ↦ absurd (ground (arith, p, h))
    | inr (r, p) ↦
        let same : r ≡ path = ground (arith, p, h) in
        let within : escapes (clean r) ≡ false = ground (arith, p, h) in
        let (e, plain) = parts-join_path root r rooted (is_abs-rel base target r p) within in
        rw (sym same) (parts r, e, plain)
  ]

  extract_entry-IsInside :
      (base : Text) (h : Header) (w : H.World)
      → ((e : Error) × (extract_entry H root base h w ≡ (err e, w)))
        ⊎ ((path : Text) × (extract_entry H root base h w ≡ extract_at H root base path h w)
            × IsInside root path)
  unfolding extract_entry
  extract_entry-IsInside base h w = elim (Result-cases (ensure_base_path H w root base h.name)) [
    | inl (path, p) ↦
        inr (join_path root path, ground (arith, p), ensure_base_path-IsInside w base h.name path p)
    | inr (e, p) ↦ inl (e, ground (arith, p))
  ]

  extract_entry_keeps :
      (base : Text) (P : H.World → Type 0)
      → ((path : Text) (h : Header) (w : H.World)
          → IsInside root path
          → P w
          → P (extract_at H root base path h w).1)
      → (h : Header) (w : H.World) → P w
      → P (extract_entry H root base h w).1
  extract_entry_keeps base P keeps h w p = elim (extract_entry-IsInside base h w) [
    | inl (e, q) ↦ rw q p
    | inr (path, q, i) ↦ rw q (keeps path h w i p)
  ]

  -- What every creation of an entry at a path inside the root keeps, extracting an archive keeps,
  -- whatever names the entries have and whether or not the extraction succeeds.
  pub extract_tar_directory_inside :
      (base : Text) (P : H.World → Type 0)
      → ((path : Text) (h : Header) (w : H.World)
          → IsInside root path
          → P w
          → P (extract_at H root base path h w).1)
      → (headers : List Header) (ending : Option Error) (w : H.World) → P w
      → P (extract_tar_directory H root base headers ending w).1
  unfolding extract_tar_directory
  extract_tar_directory_inside base P keeps [] none w p = p
  extract_tar_directory_inside base P keeps [] (some e) w p = p
  extract_tar_directory_inside base P keeps (h ∷ headers) ending w p =
      seq_keeps P (extract_entry H root base h) (extract_tar_directory H root base headers ending) w
        (extract_entry_keeps base P keeps h w p)
        (λ t q. extract_tar_directory_inside base P keeps headers ending t q)
