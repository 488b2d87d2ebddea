-- ===== src/FileStore/Push/Confined/Pushed.antt =====
-- A whole `Push`: the names, the path of each, and the files that are restored.
use containerd_attributes_cl.Base.{
  Text, ℤ_eq, List, [], ◌∷◌, ◌++◌, none, Bool, true, false, ◌||◌, if◌then◌else◌, text_eq, nat_eq,
  is_empty, lit, Result, ok, err, wrap, sentinel, store_closed, duplicate_name, sentinel_eq, is,
  oras_not_found, skip_unnamed, ◌≡◌, ◌≢◌, refl, sym, ap, ◌∙◌, arith, Result-cases, Bool-cases, inl,
  inr,
}
use containerd_attributes_cl.Base.Exec.{Exec, reads, or_wrap, ◌>>◌, ◌>>=◌}
use containerd_attributes_cl.Base.Exec.Keeps.{
  Keeps, bind-Keeps, bind_known-Keeps, pure-Keeps, reads-Keeps, or_wrap-Keeps, if-Keeps,
  if_done_kept,
}
use containerd_attributes_cl.Content.{Descriptor, annotation}
use containerd_attributes_cl.FilePath.{is_abs, parts, dotdot, clean}
use containerd_attributes_cl.FilePath.Clean.{parts-clean}
use containerd_attributes_cl.FilePath.Rooted.{is_abs-join_path}
use containerd_attributes_cl.FilePath.Below.{All-right}
use containerd_attributes_cl.FileStore.Host.{Host, Reader}
use containerd_attributes_cl.FileStore.Store.{
  Session, name_exists, abs_from, abs_path, resolve_write_path,
}
use containerd_attributes_cl.FileStore.Store.Paths.{HasRootedCwd, resolve_write_path_inside}
use containerd_attributes_cl.FileStore.Read.{title, fetch}
use containerd_attributes_cl.FileStore.Archive.Inside.{IsInside}
use containerd_attributes_cl.FileStore.Push.{
  push_content, push_named, push_one, push_to_fallback, mark_existing, restore_content,
  restore_each, restore_duplicates, add_to_graph, after_push, push, plain,
}
use containerd_attributes_cl.FileStore.Push.Confined.{KeptWithin, IsOwned}
use containerd_attributes_cl.FileStore.Push.Confined.Written.{
  Confines, on_store-Keeps, push_content-Keeps,
}

module _ (H : Host) (W : Text) (rooted : is_abs W ≡ true) (cwd : (w : H.World) → HasRootedCwd H w)
    (P : H.World → Type 0) (K : KeptWithin H W P) where
  abbrev Kept : Session H → Type 0
  Kept = Confines H W rooted cwd P K

  abs_from_lem : (w : H.World) (p q : Text) → is_abs p ≡ true → abs_from H w p ≡ ok q → q ≡ clean p
  unfolding abs_from
  abs_from_lem w p q h e = ground (arith, h, e)

  is_abs-abs_path :
      (s : Session H) (name : Text) → s.store.working_dir ≡ W → is_abs (abs_path H s name) ≡ true
  unfolding abs_path
  is_abs-abs_path s name q = elim (Bool-cases (is_abs name)) [
    | inl on ↦ rw (on) on
    | inr off ↦ rw (off, q) (is_abs-join_path W name rooted)
  ]

  resolved :
      (s : Session H) (name path : Text)
      → resolve_write_path H s name ≡ ok path
      → path ≡ abs_path H s name
  unfolding resolve_write_path
  resolved s name path h = ground (arith, h)

  -- What `resolveWritePath` gives is inside.
  resolved-IsInside :
      (s : Session H) (name path : Text)
      → Kept s
      → resolve_write_path H s name ≡ ok path
      → (is_abs path ≡ true) × IsInside W path
  resolved-IsInside s name path (p, q, off, _) h =
      let (base, target, rest, b, t, e, plain) =
        resolve_write_path_inside H s (cwd s.world) name path off h in
      let on : is_abs path ≡ true = rw (resolved s name path h) (is_abs-abs_path s name q) in
      let base_ : base ≡ clean W = abs_from_lem s.world W base rooted (rw q at b) in
      let target_ : target ≡ clean path = abs_from_lem s.world path target on t in
      let below : parts path ≡ parts W ++ rest =
        sym (parts-clean path)
        ∙ ap parts (sym target_)
        ∙ e
        ∙ ap (λ u. parts u ++ rest) base_
        ∙ ap (λ es. es ++ rest) (parts-clean W) in
      (on, (rest, below, All-right (λ x. x ≢ dotdot) (parts base) rest (rw e at plain)))

  mark_existing-Keeps : (name : Text) → Keeps Kept (mark_existing H name)
  unfolding mark_existing
  mark_existing-Keeps name =
      on_store-Keeps H W rooted cwd P K
        (λ t. record t { name_to_status = (name, true) ∷ t.name_to_status })
        (λ t. (refl, refl, refl))

  abbrev resolving : Text → Exec (Session H) Text
  resolving name =
      or_wrap (wrap (lit "failed to resolve path for writing"))
        (reads (λ s. resolve_write_path H s name))

  abbrev writing : Text → Descriptor → Reader → Exec (Session H) (Unit {0})
  writing name d r =
      resolving name >>= λ target. push_content H name target d r >> mark_existing H name

  resolved_of :
      (s : Session H) (name path : Text)
      → (resolving name s).0 ≡ ok path
      → resolve_write_path H s name ≡ ok path
  resolved_of s name path h = ground (arith, h)

  writing-Keeps : (name : Text) (d : Descriptor) (r : Reader) → Keeps Kept (writing name d r)
  writing-Keeps name d r =
      bind_known-Keeps Kept (resolving name)
        (λ target. push_content H name target d r >> mark_existing H name)
        (or_wrap-Keeps Kept (wrap (lit "failed to resolve path for writing"))
          (reads (λ s. resolve_write_path H s name))
          (reads-Keeps Kept (λ s. resolve_write_path H s name)))
        (λ target t c e.
          let (on, i) = resolved-IsInside t name target c (resolved_of t name target e) in
          bind-Keeps Kept (push_content H name target d r) (λ _. mark_existing H name)
            (push_content-Keeps H W rooted cwd P K name target d r on i)
            (λ _. mark_existing-Keeps name))

  Kept-either :
      (b : Bool) (x y : Result (Unit {0}) × Session H)
      → Kept x.1
      → Kept y.1
      → Kept (if b then x else y).1
  Kept-either b x y p q = if_done_kept Kept b x y (λ _. p) (λ _. q)

  push_named-Keeps :
      (name : Text) (d : Descriptor) (r : Reader) → Keeps Kept (push_named H name d r)
  unfolding push_named
  push_named-Keeps name d r = record {
    kept = λ s p.
        Kept-either (name_exists H s name) (err (wrap name (sentinel duplicate_name)), s)
          (writing name d r s) p ((writing-Keeps name d r).kept s p);
  }

  push_one-Keeps : (d : Descriptor) (r : Reader) → Keeps Kept (push_one H d r)
  unfolding push_one push_to_fallback
  push_one-Keeps d r = record {
    kept = λ s p.
        let name = annotation s.heap d title in
        Kept-either (is_empty name)
          (if s.store.ignore_no_name
            then (err (sentinel skip_unnamed), s)
            else push_to_fallback H d r s)
          (push_named H name d r s)
          (Kept-either s.store.ignore_no_name (err (sentinel skip_unnamed), s)
            (push_to_fallback H d r s) p p)
          ((push_named-Keeps name d r).kept s p);
  }

  restore_content-Keeps : (d : Descriptor) (name : Text) → Keeps Kept (restore_content H d name)
  unfolding restore_content
  restore_content-Keeps d name = or_wrap-Keeps Kept _ _ (
      bind-Keeps Kept _ _ (reads-Keeps Kept (λ s. fetch H s (plain d)))
        (λ content. push_one-Keeps d (record { bytes = content; failure = none })))

  restore_each-Kept : (ds : List Descriptor) (s : Session H) → Kept s → Kept (restore_each H ds s).1
  unfolding restore_each
  restore_each-Kept [] s p = p
  restore_each-Kept (d ∷ ds) s p =
      let name = annotation s.heap d title in
      let restored = restore_content H d name s in
      let after = (restore_content-Keeps d name).kept s p in
      elim (Bool-cases (is_empty name || name_exists H s name)) [
        | inl skipped ↦ rw (restore_each, skipped) (restore_each-Kept ds s p)
        | inr wanted ↦ elim (Result-cases restored.0) [
          | inl (_, done) ↦ rw (restore_each, wanted, done) (restore_each-Kept ds restored.1 after)
          | inr (e, failed) ↦ elim (Bool-cases (is oras_not_found e)) [
            | inl missing ↦
                rw (restore_each, wanted, failed, missing) (restore_each-Kept ds restored.1 after)
            | inr bad ↦ rw (restore_each, wanted, failed, bad) after
          ]
        ]
      ]

  restore_duplicates-Keeps : (d : Descriptor) → Keeps Kept (restore_duplicates H d)
  unfolding restore_duplicates
  restore_duplicates-Keeps d = record {
    kept = λ s p.
        let found = H.successors (fetch H s) d s.heap in
        let t = record s { heap = found.1 } in
        elim (Result-cases found.0) [
          | inr (e, q) ↦ rw (restore_duplicates, q) p
          | inl (successors, q) ↦ rw (restore_duplicates, q) (restore_each-Kept successors t p)
        ];
  }

  add_to_graph-Keeps : (d : Descriptor) → Keeps Kept (add_to_graph H d)
  unfolding add_to_graph
  add_to_graph-Keeps d = record { kept = λ s p. p }

  after_push-Keeps : (d : Descriptor) → Keeps Kept (after_push H d)
  unfolding after_push
  after_push-Keeps d = record {
    kept = λ s p.
        (bind-Keeps Kept _ _
            (if-Keeps Kept s.store.force_cas _ _ (pure-Keeps Kept tt) (
              or_wrap-Keeps Kept (wrap (lit "failed to restore duplicated file"))
                (restore_duplicates H d) (restore_duplicates-Keeps d)))
            (λ _. add_to_graph-Keeps d)).kept
          s p;
  }

  abbrev and_then : Descriptor → Result (Unit {0}) → Session H → Result (Unit {0}) × Session H
  and_then d r t = elim r [
    | ok _ ↦ after_push H d t
    | err e ↦ (if is skip_unnamed e then ok tt else err e, t)
  ]

  and_then-Kept :
      (d : Descriptor) (r : Result (Unit {0})) (t : Session H) → Kept t → Kept (and_then d r t).1
  and_then-Kept d (ok _) t p = (after_push-Keeps d).kept t p
  and_then-Kept d (err e) t p = p

  push-Keeps : (d : Descriptor) (r : Reader) → Keeps Kept (push H d r)
  unfolding push
  push-Keeps d r = record {
    kept = λ s p.
        let pushed = push_one H d r s in
        Kept-either s.store.closed (err (sentinel store_closed), s) (and_then d pushed.0 pushed.1) p
          (and_then-Kept d pushed.0 pushed.1 ((push_one-Keeps d r).kept s p));
  }

  -- `Push` to a store that refuses paths outside its rooted working directory keeps of the world what
  -- its calls keep that are at paths inside, or create the directories above them, or are on temporary
  -- files. So it is for every descriptor, reader and name, for archives and the files that are restored
  -- for a manifest too, and whether or not the push succeeds. The paths that the store keeps under
  -- digests stay inside or those of temporary files.
  pub push_confined :
      (d : Descriptor) (r : Reader) (s : Session H)
      → P s.world
      → s.store.working_dir ≡ W
      → s.store.allow_path_traversal_on_write ≡ false
      → IsOwned H W s.store.digest_to_path
      → P (push H d r s).1.world × IsOwned H W (push H d r s).1.store.digest_to_path
  push_confined d r s p q off own =
      let (kept, _, _, owned) = (push-Keeps d r).kept s (p, q, off, own) in (kept, owned)
