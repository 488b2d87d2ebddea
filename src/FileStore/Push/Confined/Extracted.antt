-- ===== src/FileStore/Push/Confined/Extracted.antt =====
-- The extraction of an archive into a directory that is inside.
use containerd_attributes_cl.Base.{
  Text, ℕ, List, ◌++◌, Option, Bool, true, false, if◌then◌else◌, Error, ok, ◌≡◌, ◌≢◌, refl, ap, ◌∙◌,
  append_assoc, All-append, message, lit,
}
use containerd_attributes_cl.Base.Exec.Keeps.{
  Keeps, bind-Keeps, pure-Keeps, failure-Keeps, reads-Keeps, finally-Keeps, guard-Keeps,
}
use containerd_attributes_cl.FilePath.{is_abs, parts, dotdot}
use containerd_attributes_cl.FileStore.Host.{
  Host, Header, Reader, regular, directory, hard_link, symbolic_link, other, TypeFlag,
}
use containerd_attributes_cl.FileStore.Archive.{
  copy, write_file, create, ensure_link_path, extract_at, extract_tar_directory, extract_tar_gzip,
  verified,
}
use containerd_attributes_cl.FileStore.Archive.Inside.{IsInside, extract_tar_directory_inside}
use containerd_attributes_cl.FileStore.Push.Confined.{KeptWithin}

-- What is inside a directory that is inside, is inside.
pub IsInside-trans : (a b c : Text) → IsInside a b → IsInside b c → IsInside a c
IsInside-trans a b c (rest, p, plain) (more, q, plain') = (
  rest ++ more,
  q ∙ ap (λ es. es ++ more) p ∙ append_assoc (parts a) rest more,
  All-append (λ e. e ≢ dotdot) rest more plain plain',
)

module _ (H : Host) (W : Text) (P : H.World → Type 0) (K : KeptWithin H W P) where
  opened : (path : Text) (mode : ℕ) → IsInside W path → Keeps P (H.open_file path true mode)
  opened path mode i = record { kept = λ w p. K.kept-open_file path true mode w i p }

  pub closed : (path : Text) → IsInside W path → Keeps P (H.close path)
  closed path i = record { kept = λ w p. K.kept-close path w i p }

  pub written : (path bytes : Text) → IsInside W path → Keeps P (H.write path bytes)
  written path bytes i = record { kept = λ w p. K.kept-write path bytes w i p }

  pub directory_made : (path : Text) (mode : ℕ) → IsInside W path → Keeps P (H.mkdir_all path mode)
  directory_made path mode i = record { kept = λ w p. K.kept-mkdir_all path mode w i p }

  linked : (target path : Text) → IsInside W path → Keeps P (H.link target path)
  linked target path i = record { kept = λ w p. K.kept-link target path w i p }

  symlinked : (target path : Text) → IsInside W path → Keeps P (H.symlink target path)
  symlinked target path i = record { kept = λ w p. K.kept-symlink target path w i p }

  pub temporary_closed :
      (u : H.World) (name : Text) → (H.create_temp u).0 ≡ ok name → Keeps P (H.close name)
  temporary_closed u name temporary = record {
    kept = λ w p. K.kept-close_temp u name w temporary p;
  }

  copy-Keeps : (path : Text) (r : Reader) → IsInside W path → Keeps P (copy H path r)
  unfolding copy
  copy-Keeps path r i = bind-Keeps P _ _ (written path r.bytes i) (λ _. failure-Keeps P r.failure)

  write_file-Keeps :
      (path : Text) (r : Reader) (perm : ℕ) → IsInside W path → Keeps P (write_file H path r perm)
  unfolding write_file
  write_file-Keeps path r perm i =
      bind-Keeps P _ _ (opened path perm i)
        (λ _. finally-Keeps P _ _ (copy-Keeps path r i) (closed path i))

  -- The content of an entry, by its type.
  created :
      (root base path : Text) (h : Header) (flag : TypeFlag)
      → h.type_flag ≡ flag
      → IsInside W path
      → Keeps P (create H root base path h)
  unfolding create
  created root base path h regular e i =
      rw (create, e)
        (bind-Keeps P _ _ (write_file-Keeps path h.content h.mode i) (λ _. pure-Keeps P true))
  created root base path h directory e i =
      rw (create, e) (bind-Keeps P _ _ (directory_made path h.mode i) (λ _. pure-Keeps P true))
  created root base path h hard_link e i =
      rw (create, e)
        (bind-Keeps P _ _ (reads-Keeps P (λ w. ensure_link_path H w root base path h.link_name))
          (λ target. bind-Keeps P _ _ (linked target path i) (λ _. pure-Keeps P true)))
  created root base path h symbolic_link e i =
      rw (create, e)
        (bind-Keeps P _ _ (reads-Keeps P (λ w. ensure_link_path H w root base path h.link_name))
          (λ target. bind-Keeps P _ _ (symlinked target path i) (λ _. pure-Keeps P true)))
  created root base path h other e i = rw (create, e) (pure-Keeps P false)

  timed :
      (path : Text) (h : Header) (b : Bool) (w : H.World)
      → IsInside W path
      → P w
      → P (if b then H.chtimes path h w else w)
  timed path h true w i p = K.kept-chtimes path h w i p
  timed path h false w i p = p

  extract_at-Keeps :
      (root base path : Text) (h : Header)
      → IsInside W path
      → Keeps P (extract_at H root base path h)
  unfolding extract_at
  extract_at-Keeps root base path h i =
      bind-Keeps P _ _ (created root base path h h.type_flag refl i)
        (λ b. record { kept = λ w p. timed path h b w i p })

  extract_tar_directory-Keeps :
      (root base : Text) (headers : List Header) (ending : Option Error)
      → is_abs root ≡ true
      → IsInside W root
      → Keeps P (extract_tar_directory H root base headers ending)
  extract_tar_directory-Keeps root base headers ending rooted inside = record {
    kept = λ w p.
        extract_tar_directory_inside H root rooted base P
          (λ path h v i q.
            (extract_at-Keeps root base path h (IsInside-trans W root path inside i)).kept v q)
          headers ending w p;
  }

  -- An archive in a temporary file is extracted into a directory that is inside.
  pub extract_tar_gzip-Keeps :
      (root base filename checksum : Text) (u : H.World)
      → is_abs root ≡ true
      → IsInside W root
      → (H.create_temp u).0 ≡ ok filename
      → Keeps P (extract_tar_gzip H root base filename checksum)
  unfolding extract_tar_gzip
  extract_tar_gzip-Keeps root base filename checksum u rooted inside temporary =
      bind-Keeps P _ _ (reads-Keeps P (λ w. H.open_read w filename)) (λ content.
        let archive = H.unpack content in
        finally-Keeps P _ _
          (bind-Keeps P _ _ (reads-Keeps P (λ w. archive.opening)) (λ _.
            finally-Keeps P _ _
              (bind-Keeps P _ _
                (extract_tar_directory-Keeps root base archive.headers archive.ending rooted inside)
                (λ _.
                  guard-Keeps P (verified H checksum archive.payload)
                    (message (lit "content digest mismatch"))))
              (reads-Keeps P (λ w. archive.closing))))
          (temporary_closed u filename temporary))
