-- ===== src/FileStore/Push/Confined/Written.antt =====
-- The calls of `Push` that write the content of one name.
use containerd_attributes_cl.Base.{
  Text, ℤ_eq, negsuc, [], ◌∷◌, ◌++◌, true, false, not, ◌&&◌, ◌==◌, text_eq, nat_eq, lit, ok, wrap,
  sentinel_eq, ◌≡◌, refl, ◌∙◌, arith, inl, inr,
}
use containerd_attributes_cl.Base.Exec.{Exec, reads}
use containerd_attributes_cl.Base.Exec.Keeps.{
  Keeps, bind-Keeps, bind_known-Keeps, pure-Keeps, reads-Keeps, or_wrap-Keeps, finally-Keeps,
  finally_ignoring-Keeps, ignoring_failure-Keeps, failure-Keeps, if-Keeps, if_done_kept,
}
use containerd_attributes_cl.Content.{Descriptor, annotation}
use containerd_attributes_cl.FilePath.{is_abs, dir}
use containerd_attributes_cl.FileStore.Host.{Host, Reader, FileAttributes}
use containerd_attributes_cl.FileStore.Store.{Store, Session}
use containerd_attributes_cl.FileStore.Store.Paths.{HasRootedCwd}
use containerd_attributes_cl.FileStore.Archive.{extract_tar_gzip}
use containerd_attributes_cl.FileStore.Archive.Inside.{IsInside}
use containerd_attributes_cl.FileStore.Push.{
  on_world, on_store, copy_buffer, save_file, ensure_dir, push_file, temp_file, push_dir,
  push_content, mode_of, attributes_or, digest_key,
}
use containerd_attributes_cl.FileStore.Push.Confined.{KeptWithin, IsOwn, IsOwned}
use containerd_attributes_cl.FileStore.Push.Confined.Extracted.{
  written, closed, directory_made, temporary_closed, extract_tar_gzip-Keeps,
}

module _ (H : Host) (W : Text) (rooted : is_abs W ≡ true) (cwd : (w : H.World) → HasRootedCwd H w)
    (P : H.World → Type 0) (K : KeptWithin H W P) where
  -- The world keeps what it is to keep, and the store is one that refuses paths outside and has none
  -- under its digests.
  abbrev pub Confines : Session H → Type 0
  Confines s =
      P s.world
      × (s.store.working_dir ≡ W)
      × (s.store.allow_path_traversal_on_write ≡ false)
      × IsOwned H W s.store.digest_to_path

  on_world-Keeps : {A : Type 0} (m : Exec H.World A) → Keeps P m → Keeps Confines (on_world H m)
  on_world-Keeps m h = record { kept = λ s (p, q, r, o). (h.kept s.world p, q, r, o) }

  pub on_store-Keeps :
      (f : Store H.Graph H.Fallback → Store H.Graph H.Fallback)
      → ((t : Store H.Graph H.Fallback)
          → ((f t).working_dir ≡ t.working_dir)
            × ((f t).allow_path_traversal_on_write ≡ t.allow_path_traversal_on_write)
            × ((f t).digest_to_path ≡ t.digest_to_path))
      → Keeps Confines (on_store H f)
  on_store-Keeps f same = record {
    kept = λ s (p, q, r, o). let (x, y, z) = same s.store in (p, x ∙ q, y ∙ r, rw z o);
  }

  record_path-Keeps :
      (digest path : Text)
      → IsOwn H W path
      → Keeps Confines
          (on_store H (λ t. record t { digest_to_path = (digest, path) ∷ t.digest_to_path }))
  record_path-Keeps digest path own = record { kept = λ s (p, q, r, o). (p, q, r, (own, o)) }

  -- A path to which content may be written.
  record Writable (path : Text) : Type 0 where
    writes : (bytes : Text) → Keeps P (H.write path bytes)
    closes : Keeps P (H.close path)
    owned : IsOwn H W path

  inside-Writable : (path : Text) → IsInside W path → Writable path
  inside-Writable path i = record {
    writes = λ bytes. written H W P K path bytes i;
    closes = closed H W P K path i;
    owned = inl i;
  }

  temporary-Writable : (u : H.World) (name : Text) → (H.create_temp u).0 ≡ ok name → Writable name
  temporary-Writable u name t = record {
    writes = λ bytes. record { kept = λ w p. K.kept-write_temp u name bytes w t p };
    closes = temporary_closed H W P K u name t;
    owned = inr (u, t);
  }

  copy_buffer-Keeps :
      (path : Text) (d : Descriptor) (r : Reader) → Writable path → Keeps P (copy_buffer H path d r)
  unfolding copy_buffer
  copy_buffer-Keeps path d r w =
      let read = H.verify_reader d r in
      bind-Keeps P _ _
        (or_wrap-Keeps P _ _
          (bind-Keeps P _ _ (w.writes read.bytes) (λ _. failure-Keeps P read.failure)))
        (λ _. reads-Keeps P (λ v. H.verify d r))

  save_file-Keeps :
      (path : Text) (d : Descriptor) (r : Reader)
      → Writable path
      → Keeps Confines (save_file H path d r)
  unfolding save_file
  save_file-Keeps path d r w =
      finally-Keeps Confines _ _
        (bind-Keeps Confines _ _
          (or_wrap-Keeps Confines _ _ (on_world-Keeps _ (copy_buffer-Keeps path d r w)))
          (λ _. record_path-Keeps d.digest path w.owned))
        (on_world-Keeps _ w.closes)

  ensure_dir-Keeps :
      (path : Text) → Keeps P (H.mkdir_all path 0o750) → Keeps Confines (ensure_dir H path)
  unfolding ensure_dir
  ensure_dir-Keeps path h = or_wrap-Keeps Confines _ _ (on_world-Keeps _ h)

  push_file-Keeps :
      (target : Text) (d : Descriptor) (file : FileAttributes) (r : Reader)
      → IsInside W target
      → Keeps Confines (push_file H target d file r)
  unfolding push_file
  push_file-Keeps target d file r i =
      bind-Keeps Confines _ _
        (ensure_dir-Keeps (dir target)
          (record { kept = λ w p. K.kept-mkdir_above target 0o750 w i p }))
        (λ _.
          bind-Keeps Confines _ _
            (or_wrap-Keeps Confines _ _ (
              on_world-Keeps (H.open_file target false (mode_of H file))
                (record { kept = λ w p. K.kept-open_file target false (mode_of H file) w i p })))
            (λ _.
              finally_ignoring-Keeps Confines _ _
                (bind-Keeps Confines _ _ (save_file-Keeps target d r (inside-Writable target i))
                  (λ _.
                    if-Keeps Confines (not (file.uid == negsuc 0) && not (file.gid == negsuc 0)) _ _
                      (on_world-Keeps (H.chown target file.uid file.gid)
                        (record { kept = λ w p. K.kept-chown target file.uid file.gid w i p }))
                      (pure-Keeps Confines tt)))
                (on_world-Keeps _ (closed H W P K target i))))

  temp_file-Keeps : Keeps Confines (temp_file H)
  unfolding temp_file
  temp_file-Keeps =
      bind-Keeps Confines _ _
        (on_world-Keeps H.create_temp (record { kept = λ w p. K.kept-create_temp w p }))
        (λ name.
          bind-Keeps Confines _ _
            (on_store-Keeps (λ t. record t { tmp_files = t.tmp_files ++ name ∷ [] })
              (λ t. (refl, refl, refl)))
            (λ _. pure-Keeps Confines name))

  temp_file_name :
      (s : Session H) (name : Text)
      → (temp_file H s).0 ≡ ok name
      → (H.create_temp s.world).0 ≡ ok name
  unfolding temp_file
  temp_file_name s name h = ground (arith, h)

  push_dir-Keeps :
      (name target : Text) (d : Descriptor) (r : Reader)
      → is_abs target ≡ true
      → IsInside W target
      → Keeps Confines (push_dir H name target d r)
  unfolding push_dir
  push_dir-Keeps name target d r on i =
      bind-Keeps Confines _ _ (ensure_dir-Keeps target (directory_made H W P K target 0o750 i))
        (λ _. bind_known-Keeps Confines _ _ temp_file-Keeps (λ gz s _ e.
          let temporary = temp_file_name s gz e in
          bind-Keeps Confines _ _
            (or_wrap-Keeps Confines (wrap (lit "failed to save gzip to " ++ gz)) _
              (save_file-Keeps gz d r (temporary-Writable s.world gz temporary)))
            (λ _.
              bind-Keeps Confines _ _
                (reads-Keeps Confines (λ t. ok (annotation t.heap d digest_key)))
                (λ checksum.
                  or_wrap-Keeps Confines (wrap (lit "failed to extract tar to " ++ target)) _ (
                    on_world-Keeps (extract_tar_gzip H target name gz checksum) (
                      extract_tar_gzip-Keeps H W P K target name gz checksum s.world on i
                        temporary))))))

  pub push_content-Keeps :
      (name target : Text) (d : Descriptor) (r : Reader)
      → is_abs target ≡ true
      → IsInside W target
      → Keeps Confines (push_content H name target d r)
  unfolding push_content
  push_content-Keeps name target d r on i = record {
    kept = λ s p.
        if_done_kept Confines _ _ _ (λ _. (push_dir-Keeps name target d r on i).kept s p)
          (λ _.
            (bind-Keeps Confines (reads (λ (t : Session H). H.file_info t.heap d)) _
                (reads-Keeps Confines (λ (t : Session H). H.file_info t.heap d))
                (λ file.
                  ignoring_failure-Keeps Confines _
                    (push_file-Keeps target d (attributes_or H file) r i))).kept
              s p);
  }
