-- ===== src/Tests/Extraction.antt =====
-- Runs of the extraction of archives over the disk in memory.
use containerd_attributes_cl.Base.{
  Text, ℕ, lit, List, [], ◌∷◌, none, true, ◌≤◌, text_eq, nat_eq, Result, ok, ◌≡◌, ◌≢◌, refl, arith,
  load, All, suc, split, join, has_prefix, sentinel_eq, Option-cases, inl, inr, ◌⊎◌, zero,
}
use containerd_attributes_cl.FilePath.{
  dot, dotdot, is_abs, parts, clean, join_path, dir, rel, escapes,
}
use containerd_attributes_cl.FilePath.Ancestors.{up}
use containerd_attributes_cl.FileStore.Host.{
  Reader, Header, TypeFlag, regular, directory, hard_link, symbolic_link, other,
}
use containerd_attributes_cl.FileStore.Archive.{
  no_links, ensure_base_path, extract_at, extract_tar_directory,
}
use containerd_attributes_cl.FileStore.Archive.Inside.{IsInside, extract_tar_directory_inside}
use containerd_attributes_cl.FileStore.Archive.Symlinks.{
  ensure_base_path_symlink, no_links_ends, Ended,
}
use containerd_attributes_cl.Tests.Disk.{disk, Disk, write_disk}

abbrev root : Text
root = b'/' ∷ b'w' ∷ []

abbrev base : Text
base = b'x' ∷ []

-- "x/a/b"
abbrev target : Text
target = b'x' ∷ b'/' ∷ b'a' ∷ b'/' ∷ b'b' ∷ []

abbrev path : Text
path = b'a' ∷ b'/' ∷ b'b' ∷ []

-- All that is on the disk is below the root.
abbrev AllInside : Disk → Type 0
AllInside = All (λ (entry : Text × Text). IsInside root entry.0)

write_disk-AllInside :
    (at bytes : Text) (w : Disk)
    → IsInside root at
    → AllInside w
    → AllInside (write_disk at bytes w)
write_disk-AllInside at bytes w i h = elim (Option-cases (load at w)) [
  | inl e ↦ rw (write_disk, e) (i, h)
  | inr (old, e) ↦ rw (write_disk, e) (i, h)
]

-- Only the content of a regular file is written.
world-extract_at :
    (at name link_name : Text) (flag : TypeFlag) (mode : ℕ) (content : Reader) (w : Disk)
    → let h : Header = record {
      name = name;
      type_flag = flag;
      mode = mode;
      link_name = link_name;
      content = content;
    } in
      ((extract_at disk root base at h w).1 ≡ w)
      ⊎ ((extract_at disk root base at h w).1 ≡ write_disk at content.bytes ((at, []) ∷ w))
unfolding extract_at
world-extract_at at name link_name regular mode content w =
    inr (elim (Option-cases content.failure) [
      | inl e ↦ ground (arith, e)
      | inr (f, e) ↦ ground (arith, e)
    ])
world-extract_at at name link_name directory mode content w = inl (ground arith)
world-extract_at at name link_name hard_link mode content w = inl (ground arith)
world-extract_at at name link_name symbolic_link mode content w = inl (ground arith)
world-extract_at at name link_name other mode content w = inl (ground arith)

extract_at-AllInside :
    (at : Text) (h : Header) (w : Disk)
    → IsInside root at
    → AllInside w
    → AllInside (extract_at disk root base at h w).1
extract_at-AllInside at h w i p =
    elim (world-extract_at at h.name h.link_name h.type_flag h.mode h.content w) [
      | inl e ↦ rw e p
      | inr e ↦ rw e (write_disk-AllInside at h.content.bytes ((at, []) ∷ w) i (i, p))
    ]

-- A file "x/a/b" of an archive, and one that leads out.
abbrev file : Text → Header
file name = record {
  name = name;
  type_flag = regular;
  mode = 0;
  link_name = [];
  content = record { bytes = b'!' ∷ []; failure = none };
}

abbrev headers : List Header
headers = file target ∷ file (b'.' ∷ b'.' ∷ []) ∷ []

computes : Result Text × Result (Unit {0})
unfolding ensure_base_path rel clean parts is_abs text_eq nat_eq lit dot dotdot dir escapes
    has_prefix join split join_path no_links extract_tar_directory
computes = (
  ensure_base_path disk [] root base target,
  (extract_tar_directory disk root base headers none []).0,
)

rooted : is_abs root ≡ true
unfolding computes
rooted = refl

extract_tar_directory_inside_example :
    AllInside (extract_tar_directory disk root base headers none []).1
extract_tar_directory_inside_example =
    extract_tar_directory_inside disk root rooted base AllInside extract_at-AllInside headers none
      [] tt

given : ensure_base_path disk [] root base target ≡ ok path
unfolding computes
given = refl

first_up : (j : ℕ) → j ≤ 0 → up j (dir path) ≢ dot
unfolding computes
first_up zero h = λ p. ground (arith, p)
first_up (suc j) h = absurd (omega arith)

ensure_base_path_symlink_example : disk.lstat [] (join_path root (up 0 (dir path))) ≢ ok true
ensure_base_path_symlink_example =
    ensure_base_path_symlink disk [] root base target path 0 given first_up

no_links_ends_example : Ended disk [] root (dir path) (no_links disk 4 [] root (dir path))
unfolding computes
no_links_ends_example = no_links_ends disk [] root base target path refl
