-- ===== src/Applier/Apply/Confined.antt =====
-- Where `Apply` writes on an overlay mount.
use containerd_attributes_cl.Base.{
  lit, Text, List, [], ◌∷◌, Option, none, some, true, false, is_empty, Done, Error, wrap, ◌≡◌, refl,
}
use containerd_attributes_cl.Base.Exec.{reads, pure, raise, or_wrap}
use containerd_attributes_cl.Base.Exec.Keeps.{
  Keeps, bind-Keeps, pure-Keeps, reads-Keeps, or_wrap-Keeps,
}
use containerd_attributes_cl.Content.{Descriptor}
use containerd_attributes_cl.FilePath.{is_abs}
use containerd_attributes_cl.FileStore.Host.{Host, Reader}
use containerd_attributes_cl.FileStore.Store.{new_with_fallback_storage}
use containerd_attributes_cl.FileStore.Store.Paths.{HasRootedCwd}
use containerd_attributes_cl.FileStore.Push.Confined.{KeptWithin}
use containerd_attributes_cl.FileStore.Push.Confined.Pushed.{push_confined}
use containerd_attributes_cl.Applier.Mounts.{upperdir_prefix}
use containerd_attributes_cl.Applier.Mounts.Overlay.{last_with, upper_or}
use containerd_attributes_cl.Applier.Apply.{
  MountPoint, Place, Outside, push_into, apply, run_options, apply_artifact, applied,
}
use containerd_attributes_cl.Applier.Apply.Targets.{apply_overlay}

module _ (H : Host) (O : Outside H) (cwd : (w : H.World) → HasRootedCwd H w) (m : MountPoint)
    (P : H.World → Type 0) where
  -- The upper directory that the options of the mount name.
  abbrev pub upper : Text
  upper = upper_or [] (last_with upperdir_prefix m.options)

  abbrev Held : Place H → Type 0
  Held p = P p.world

  push_into-Keeps :
      (path : Text) (d : Descriptor) (r : Reader)
      → is_abs path ≡ true
      → KeptWithin H path P
      → Keeps Held (push_into H O path d r)
  unfolding push_into new_with_fallback_storage
  push_into-Keeps path d r rooted K = record {
    kept = λ p h. (push_confined H path rooted cwd P K d r _ h refl refl tt).0;
  }

  apply-Keeps :
      (d : Descriptor) (r : Reader)
      → m.mount_type ≡ lit "overlay"
      → O.running_in_user_ns ≡ false
      → is_empty upper ≡ false
      → is_abs upper ≡ true
      → KeptWithin H upper P
      → Keeps Held (apply H O (m ∷ []) d r)
  apply-Keeps d r overlay outside named rooted K = record {
    kept = λ p h.
        rw (apply_overlay H O m d r p overlay outside, named)
          ((push_into-Keeps upper d r rooted K).kept p h);
  }

  run_options-Keeps :
      (opts : List (Descriptor → O.Config → Done × O.Config)) (d : Descriptor) (config : O.Config)
      → Keeps Held (run_options H O opts d config)
  unfolding run_options
  run_options-Keeps [] d config = pure-Keeps Held tt
  run_options-Keeps (o ∷ opts) d config =
      let set = o d config in
      bind-Keeps Held (or_wrap (wrap (lit "failed to apply config opt")) (reads (λ p. set.0))) _
        (or_wrap-Keeps Held (wrap (lit "failed to apply config opt")) (reads (λ p. set.0))
          (reads-Keeps Held (λ p. set.0)))
        (λ _. run_options-Keeps opts d set.1)

  reported-Keeps :
      (d : Descriptor) (failure : Option Error)
      → Keeps Held {A = Descriptor}
          (elim failure [ none ↦ pure (applied H O d) | some e ↦ raise e ])
  reported-Keeps d none = record { kept = λ p h. h }
  reported-Keeps d (some e) = record { kept = λ p h. h }

  -- On one overlay mount with a rooted upper directory, outside a user namespace, `Apply` keeps of the
  -- world what is kept by calls at paths inside the upper directory, by the creation of directories
  -- above them, and by those on temporary files: for every layer, and whether or not it succeeds.
  pub apply_artifact_confined :
      (opts : List (Descriptor → O.Config → Done × O.Config)) (d : Descriptor) (p : Place H)
      → m.mount_type ≡ lit "overlay"
      → O.running_in_user_ns ≡ false
      → is_empty upper ≡ false
      → is_abs upper ≡ true
      → KeptWithin H upper P
      → P p.world
      → P (apply_artifact H O (m ∷ []) opts d p).1.world
  unfolding apply_artifact
  apply_artifact_confined opts d p overlay outside named rooted K h =
      (bind-Keeps Held _ _ (run_options-Keeps opts d O.new_config) (λ _.
          bind-Keeps Held (reads (λ q. O.fetch q d)) _ (reads-Keeps Held (λ q. O.fetch q d)) (λ r.
            bind-Keeps Held (apply H O (m ∷ []) d r) _
              (apply-Keeps d r overlay outside named rooted K)
              (λ _. reported-Keeps d r.failure)))).kept
        p h
