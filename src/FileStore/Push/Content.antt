-- ===== src/FileStore/Push/Content.antt =====
-- The contents, the paths and the digests that a push leaves.
use containerd_attributes_cl.Base.{
  load, load-cons, Text, ℕ, List, ◌∷◌, ap, ◌∙◌, ◌++◌, ◌⊎◌, none, some, false, nat_eq, text_eq, ℤ_eq,
  ℤ, is_empty, ok, ◌≡◌, ◌≢◌, arith, Result-cases, Bool-cases, inl, inr, All, drop, length,
}
use containerd_attributes_cl.Content.{Descriptor, annotation}
use containerd_attributes_cl.FilePath.{parts, dotdot, dir}
use containerd_attributes_cl.FileStore.Host.{Host, Reader, FileAttributes}
use containerd_attributes_cl.FileStore.Store.{Session, name_exists, abs_from, resolve_write_path}
use containerd_attributes_cl.FileStore.Store.Paths.{HasRootedCwd, resolve_write_path_inside}
use containerd_attributes_cl.FileStore.Read.{title}
use containerd_attributes_cl.FileStore.Push.{
  copy_buffer, save_file, ensure_dir, push_file, push_content, push_named, push_one, mark_existing,
  wants_unpack, mode_of, attributes_or,
}

module _ (H : Host) where
  -- What the writing of a content leaves: either the paths are as they were, or the content has been
  -- verified and its path is kept under its digest.
  abbrev pub Recorded : Text → Descriptor → Reader → Session H → Session H → Type 0
  Recorded target d r s t =
      (t.store.digest_to_path ≡ s.store.digest_to_path)
      ⊎ ((H.verify d r ≡ ok tt)
          × ((H.verify_reader d r).failure ≡ none)
          × (t.store.digest_to_path ≡ (d.digest, target) ∷ s.store.digest_to_path))

  save_file-Recorded :
      (path : Text) (d : Descriptor) (r : Reader) (s : Session H)
      → Recorded path d r s (save_file H path d r s).1
  unfolding save_file copy_buffer
  save_file-Recorded path d r s = elim (Result-cases (copy_buffer H path d r s.world).0) [
    | inr (e, p) ↦ inl (ground (arith, p))
    | inl (_, p) ↦ inr (ground (arith, p), ground (arith, p), ground (arith, p))
  ]

  push_file-Recorded :
      (target : Text) (d : Descriptor) (file : FileAttributes) (r : Reader) (s : Session H)
      → Recorded target d r s (push_file H target d file r s).1
  unfolding push_file
  push_file-Recorded target d file r s =
      let made = ensure_dir H (dir target) s in
      let opening = H.open_file target false (mode_of H file) made.1.world in
      let saved = save_file-Recorded target d r (record made.1 { world = opening.1 }) in
      elim (Result-cases made.0) [
        | inr (e, p) ↦ inl (unfold ensure_dir in ground (arith, p))
        | inl (_, p) ↦ elim (Result-cases opening.0) [
          | inr (e, q) ↦ inl (unfold ensure_dir in ground (arith, p, q))
          | inl (_, q) ↦ elim saved [
            | inl same ↦ inl (unfold ensure_dir in ground (arith, p, q, same))
            | inr (v, c, kept) ↦ inr (v, c, unfold ensure_dir in ground (arith, p, q, kept))
          ]
        ]
      ]

  push_content-Recorded :
      (name target : Text) (d : Descriptor) (r : Reader) (s : Session H)
      → wants_unpack H s d ≡ false
      → Recorded target d r s (push_content H name target d r s).1
  unfolding push_content
  push_content-Recorded name target d r s single = elim (Result-cases (H.file_info s.heap d)) [
    | inr (e, p) ↦ inl (ground (arith, p, single))
    | inl (file, p) ↦ elim (push_file-Recorded target d (attributes_or H file) r s) [
      | inl same ↦ inl (ground (arith, p, single, same))
      | inr (v, c, kept) ↦ inr (v, c, ground (arith, p, single, kept))
    ]
  ]

  pub push_file_verified :
      (target : Text) (d : Descriptor) (file : FileAttributes) (r : Reader) (s : Session H)
      → (push_file H target d file r s).0 ≡ ok tt
      → (H.verify d r ≡ ok tt)
        × ((H.verify_reader d r).failure ≡ none)
        × (load d.digest (push_file H target d file r s).1.store.digest_to_path ≡ some target)
  unfolding push_file save_file copy_buffer load
  push_file_verified target d file r s h = ground arith

  -- The same of a whole `push` of one file with a name: the path is the one that the name has.
  push_one-Recorded :
      (d : Descriptor) (r : Reader) (s : Session H)
      → is_empty (annotation s.heap d title) ≡ false
      → wants_unpack H s d ≡ false
      → let t = (push_one H d r s).1 in
        (t.store.digest_to_path ≡ s.store.digest_to_path)
        ⊎ ((path : Text) × (resolve_write_path H s (annotation s.heap d title) ≡ ok path)
            × (H.verify d r ≡ ok tt)
            × ((H.verify_reader d r).failure ≡ none)
            × (t.store.digest_to_path ≡ (d.digest, path) ∷ s.store.digest_to_path))
  unfolding push_one push_named mark_existing
  push_one-Recorded d r s named single =
      let name = annotation s.heap d title in
      elim (Bool-cases (name_exists H s name)) [
        | inl taken ↦ inl (ground (arith, taken, named))
        | inr free ↦ elim (Result-cases (resolve_write_path H s name)) [
          | inr (e, p) ↦ inl (ground (arith, free, named, p))
          | inl (path, p) ↦ elim (push_content-Recorded name path d r s single) [
            | inl same ↦ inl (ground (arith, free, named, p, same))
            | inr (v, c, kept) ↦ inr (path, p, v, c, ground (arith, free, named, p, kept))
          ]
        ]
      ]

  -- A path under a digest that had none has come from a content that was verified.
  pub push_one_path :
      (d : Descriptor) (r : Reader) (s : Session H) (path : Text)
      → is_empty (annotation s.heap d title) ≡ false
      → wants_unpack H s d ≡ false
      → load d.digest s.store.digest_to_path ≡ none
      → load d.digest (push_one H d r s).1.store.digest_to_path ≡ some path
      → (resolve_write_path H s (annotation s.heap d title) ≡ ok path)
        × (H.verify d r ≡ ok tt)
        × ((H.verify_reader d r).failure ≡ none)
  push_one_path d r s path named single none_ kept = elim (push_one-Recorded d r s named single) [
    | inl same ↦ absurd (ground (arith, same, none_, kept))
    | inr (found, p, v, c, cons) ↦
        let e : found ≡ path =
          ground (arith, cons, kept, load-cons d.digest d.digest found s.store.digest_to_path) in
        (p ∙ ap ok e, v, c)
  ]

  -- With path traversal off, if `push` of one file with a name leaves a path under a digest that had
  -- none, whatever it returns, then the content has been verified against the descriptor, and the
  -- elements of the path, once it is made absolute, are those of the working directory and more, none
  -- of them `..`.
  pub push_one_inside :
      (d : Descriptor) (r : Reader) (s : Session H) (path : Text)
      → HasRootedCwd H s.world
      → s.store.allow_path_traversal_on_write ≡ false
      → is_empty (annotation s.heap d title) ≡ false
      → wants_unpack H s d ≡ false
      → load d.digest s.store.digest_to_path ≡ none
      → load d.digest (push_one H d r s).1.store.digest_to_path ≡ some path
      → (H.verify d r ≡ ok tt)
        × (base : Text) × (target : Text) × (rest : List Text) × (abs_from H s.world
              s.store.working_dir
            ≡ ok base)
        × (abs_from H s.world path ≡ ok target)
        × (parts target ≡ parts base ++ rest)
        × All (λ e. e ≢ dotdot) (parts target)
  push_one_inside d r s path rooted off named single none_ kept =
      let (p, v, c) = push_one_path d r s path named single none_ kept in
      let (base, target, rest, b, t, e, plain) =
        resolve_write_path_inside H s rooted (annotation s.heap d title) path off p in
      (v, base, target, rest, b, t, e, plain)

-- What the file system is documented to do with the contents of files: a call at one path leaves
-- other calls' contents, opening without truncation keeps the content, and a write at the start of
-- the opened file replaces as many bytes as it has, and no more.
pub record KeepsContents (H : Host) (path : Text) : Type 0 where
  pub read-mkdir_all :
      (dir : Text) (mode : ℕ) (w : H.World) (old : Text)
      → H.open_read w path ≡ ok old
      → H.open_read (H.mkdir_all dir mode w).1 path ≡ ok old
  pub read-open_file :
      (mode : ℕ) (w : H.World) (old : Text)
      → H.open_read w path ≡ ok old
      → H.open_read (H.open_file path false mode w).1 path ≡ ok old
  pub read-write :
      (bytes : Text) (w : H.World) (old : Text)
      → H.open_read w path ≡ ok old
      → (H.write path bytes w).0 ≡ ok tt
      → H.open_read (H.write path bytes w).1 path ≡ ok (bytes ++ drop (length bytes) old)
  pub read-close :
      (w : H.World) (old : Text)
      → H.open_read w path ≡ ok old
      → H.open_read (H.close path w).1 path ≡ ok old
  pub read-chown :
      (uid gid : ℤ) (w : H.World) (old : Text)
      → H.open_read w path ≡ ok old
      → H.open_read (H.chown path uid gid w).1 path ≡ ok old

module _ (H : Host) (target : Text) (K : KeepsContents H target) where
  -- The world in which `pushFile` has opened the file.
  abbrev pub opened : FileAttributes → H.World → H.World
  opened file w = (H.open_file target false (mode_of H file) (H.mkdir_all (dir target) 0o750 w).1).1

  pub read_opened-push_file :
      (d : Descriptor) (file : FileAttributes) (r : Reader) (s : Session H) (old : Text)
      → H.open_read (opened file s.world) target ≡ ok old
      → (push_file H target d file r s).0 ≡ ok tt
      → let bytes = (H.verify_reader d r).bytes in
        H.open_read (push_file H target d file r s).1.world target
        ≡ ok (bytes ++ drop (length bytes) old)
  unfolding push_file save_file
  read_opened-push_file d file r s old there h =
      let bytes = (H.verify_reader d r).bytes in
      let w₂ = opened file s.world in
      let w₃ = (H.write target bytes w₂).1 in
      let w₄ = (H.close target w₃).1 in
      let w₅ = (H.chown target file.uid file.gid w₄).1 in
      let merged = bytes ++ drop (length bytes) old in
      let r₃ = K.read-write bytes w₂ old there in
      ground (
        arith,
        h,
        r₃,
        K.read-close w₃ merged,
        K.read-chown file.uid file.gid w₄ merged,
        K.read-close w₄ merged,
        K.read-close w₅ merged,
      )

  -- A successful `pushFile` over a file that is there leaves the pushed bytes followed by what the
  -- old content has beyond their number: a longer file keeps its tail.
  pub read-push_file :
      (d : Descriptor) (file : FileAttributes) (r : Reader) (s : Session H) (old : Text)
      → H.open_read s.world target ≡ ok old
      → (push_file H target d file r s).0 ≡ ok tt
      → let bytes = (H.verify_reader d r).bytes in
        H.open_read (push_file H target d file r s).1.world target
        ≡ ok (bytes ++ drop (length bytes) old)
  read-push_file d file r s old there = read_opened-push_file d file r s old (
      K.read-open_file (mode_of H file) (H.mkdir_all (dir target) 0o750 s.world).1 old
        (K.read-mkdir_all (dir target) 0o750 s.world old there))
