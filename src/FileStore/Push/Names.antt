-- ===== src/FileStore/Push/Names.antt =====
-- Which names exist before and after a push.
use containerd_attributes_cl.Base.{
  sym, load-cons, Text, List, [], ◌∷◌, none, Bool, true, false, not, ◌&&◌, text_eq, if◌then◌else◌,
  is_empty, sentinel, wrap, duplicate_name, sentinel_eq, ok, err, Done, ◌≡◌, arith, Result-cases,
  Bool-cases, inl, inr,
}
use containerd_attributes_cl.Content.{Descriptor, annotation}
use containerd_attributes_cl.FileStore.Host.{Host, Reader, FileAttributes}
use containerd_attributes_cl.FileStore.Store.{Session, name_exists, resolve_write_path}
use containerd_attributes_cl.FileStore.Read.{title, fetch}
use containerd_attributes_cl.FileStore.Push.{
  save_file, push_file, push_dir, push_content, push_named, push_to_fallback, push_one,
  mark_existing, restore_content, restore_each, restore_duplicates, add_to_graph, after_push, push,
  plain,
}

abbrev pub succeeds : Done → Bool
succeeds (ok _) = true
succeeds (err _) = false

module _ (H : Host) where
  -- The parts of the state that writing a file's content leaves alone.
  abbrev Kept : Session H → Session H → Type 0
  Kept s t =
      (t.store.name_to_status ≡ s.store.name_to_status)
      × (t.store.closed ≡ s.store.closed)
      × (t.heap ≡ s.heap)

  save_file-Kept :
      (path : Text) (d : Descriptor) (r : Reader) (s : Session H)
      → Kept s (save_file H path d r s).1
  unfolding save_file
  save_file-Kept path d r s = ground arith

  push_file-Kept :
      (target : Text) (d : Descriptor) (file : FileAttributes) (r : Reader) (s : Session H)
      → Kept s (push_file H target d file r s).1
  unfolding push_file
  push_file-Kept target d file r s = ground arith

  push_dir-Kept :
      (name target : Text) (d : Descriptor) (r : Reader) (s : Session H)
      → Kept s (push_dir H name target d r s).1
  unfolding push_dir
  push_dir-Kept name target d r s = ground arith

  pub push_content-Kept :
      (name target : Text) (d : Descriptor) (r : Reader) (s : Session H)
      → Kept s (push_content H name target d r s).1
  unfolding push_content
  push_content-Kept name target d r s = ground (
    arith,
    push_dir-Kept name target d r s,
    λ (file : FileAttributes). push_file-Kept target d file r s,
  )

  name_to_status-push_named :
      (name : Text) (d : Descriptor) (r : Reader) (s : Session H)
      → (push_named H name d r s).1.store.name_to_status ≡ (
          if succeeds (push_named H name d r s).0
          then (name, true) ∷ s.store.name_to_status
          else s.store.name_to_status)
  unfolding push_named mark_existing
  name_to_status-push_named name d r s = elim (Bool-cases (name_exists H s name)) [
    | inl taken ↦ ground (arith, taken)
    | inr free ↦ elim (Result-cases (resolve_write_path H s name)) [
      | inr (e, p) ↦ ground (arith, free, p)
      | inl (target, p) ↦ ground (arith, free, p, push_content-Kept name target d r s)
    ]
  ]

  -- The name of a descriptor exists after `push` if the call returns no error for a name, and no other
  -- name's status changes; a call that returns an error leaves every status as it was.
  pub name_to_status-push_one :
      (d : Descriptor) (r : Reader) (s : Session H)
      → let name = annotation s.heap d title in
        (push_one H d r s).1.store.name_to_status ≡ (
          if not (is_empty name) && succeeds (push_one H d r s).0
          then (name, true) ∷ s.store.name_to_status
          else s.store.name_to_status)
  unfolding push_one push_to_fallback
  name_to_status-push_one d r s =
      ground (arith, name_to_status-push_named (annotation s.heap d title) d r s)

  -- A second push of a name is refused, and changes nothing.
  push_duplicate :
      (d : Descriptor) (r : Reader) (s : Session H)
      → s.store.closed ≡ false
      → is_empty (annotation s.heap d title) ≡ false
      → name_exists H s (annotation s.heap d title) ≡ true
      → push H d r s ≡ (err (wrap (annotation s.heap d title) (sentinel duplicate_name)), s)
  unfolding push push_one push_named
  push_duplicate d r s c n e = ground arith

  name_exists-push_one :
      (d : Descriptor) (r : Reader) (s : Session H) (name : Text)
      → name_exists H s name ≡ true
      → name_exists H (push_one H d r s).1 name ≡ true
  name_exists-push_one d r s name h = ground (
    arith,
    name_to_status-push_one d r s,
    load-cons name (annotation s.heap d title) true s.store.name_to_status,
  )

  name_exists-restore_content :
      (d : Descriptor) (label : Text) (s : Session H) (name : Text)
      → name_exists H s name ≡ true
      → name_exists H (restore_content H d label s).1 name ≡ true
  unfolding restore_content
  name_exists-restore_content d label s name h = elim (Result-cases (fetch H s (plain d))) [
    | inr (e, p) ↦ ground (arith, p)
    | inl (content, p) ↦
        ground
          (arith, p, name_exists-push_one d (record { bytes = content; failure = none }) s name h)
  ]

  name_exists-restore_each :
      (ds : List Descriptor) (s : Session H) (name : Text)
      → name_exists H s name ≡ true
      → name_exists H (restore_each H ds s).1 name ≡ true
  unfolding restore_each
  name_exists-restore_each [] s name h = h
  name_exists-restore_each (d ∷ ds) s name h =
      let own = annotation s.heap d title in
      let t = (restore_content H d own s).1 in
      let kept = name_exists-restore_content d own s name h in
      ground
        (arith, kept, name_exists-restore_each ds s name h, name_exists-restore_each ds t name kept)

  name_exists-restore_duplicates :
      (d : Descriptor) (s : Session H) (name : Text)
      → name_exists H s name ≡ true
      → name_exists H (restore_duplicates H d s).1 name ≡ true
  unfolding restore_duplicates
  name_exists-restore_duplicates d s name h =
      let found = H.successors (fetch H s) d s.heap in
      elim (Result-cases found.0) [
        | inr (e, p) ↦ ground (arith, p, h)
        | inl (ds, p) ↦
            ground (arith, p, name_exists-restore_each ds (record s { heap = found.1 }) name h)
      ]

  name_exists-after_push :
      (d : Descriptor) (s : Session H) (name : Text)
      → name_exists H s name ≡ true
      → name_exists H (after_push H d s).1 name ≡ true
  unfolding after_push add_to_graph
  name_exists-after_push d s name h = ground (arith, h, name_exists-restore_duplicates d s name h)

  -- A name that exists still exists after any `Push`, whether or not that succeeds, the files that it
  -- restores included.
  pub name_exists-push :
      (d : Descriptor) (r : Reader) (s : Session H) (name : Text)
      → name_exists H s name ≡ true
      → name_exists H (push H d r s).1 name ≡ true
  unfolding push
  name_exists-push d r s name h =
      let t = (push_one H d r s).1 in
      let kept = name_exists-push_one d r s name h in
      ground (arith, kept, name_exists-after_push d t name kept)

  name_exists_pushed :
      (d : Descriptor) (r : Reader) (s : Session H)
      → is_empty (annotation s.heap d title) ≡ false
      → (push_one H d r s).0 ≡ ok tt
      → (push H d r s).1.store.closed ≡ false
      → name_exists H (push H d r s).1 (annotation s.heap d title) ≡ true
  unfolding push
  name_exists_pushed d r s named pushed open_ =
      let name = annotation s.heap d title in
      let u = (push_one H d r s).1 in
      let kept : name_exists H u name ≡ true = ground (
        arith,
        named,
        pushed,
        name_to_status-push_one d r s,
        load-cons name name true s.store.name_to_status,
      ) in
      ground (arith, pushed, open_, name_exists-after_push d u name kept)

  -- Once a descriptor's content has been pushed under a name, a push of any content under that name
  -- is refused and changes nothing, unless the store has been closed.
  pub push_twice :
      (d e : Descriptor) (r q : Reader) (s : Session H)
      → is_empty (annotation s.heap d title) ≡ false
      → (push_one H d r s).0 ≡ ok tt
      → let t = (push H d r s).1 in
        t.store.closed ≡ false
        → annotation t.heap e title ≡ annotation s.heap d title
        → push H e q t ≡ (err (wrap (annotation s.heap d title) (sentinel duplicate_name)), t)
  push_twice d e r q s named pushed open_ same =
      let there = name_exists_pushed d r s named pushed open_ in
      rw (sym same) (push_duplicate e q (push H d r s).1 open_ (rw same named) (rw same there))
