-- ===== src/FileStore/Add/Packed.antt =====
-- The names that `tarDirectory` gives to entries, read by `ensureBasePath`.
use containerd_attributes_cl.Base.{
  suc, Text, List, [], ◌∷◌, ◌++◌, join, true, false, Result, ok, err, some, ◌≡◌, ◌≢◌, refl, ap, ◌∙◌,
  arith, All, length,
}
use containerd_attributes_cl.FilePath.{is_abs, parts, clean, escapes, join_path, rel, dir, dotdot}
use containerd_attributes_cl.FilePath.Clean.{IsElement, parts-IsElement, parts-All_plain}
use containerd_attributes_cl.FilePath.Relative.{escapes-join}
use containerd_attributes_cl.FilePath.Joined.{IsPlain, parts-join_path}
use containerd_attributes_cl.FilePath.Below.{
  All-right, is_abs-join, parts-join, clean-join, rel_below, rel-join_path,
}
use containerd_attributes_cl.FileStore.Host.{Host}
use containerd_attributes_cl.FileStore.Archive.{ensure_base_path, no_links}
use containerd_attributes_cl.FileStore.Add.{Packer, renamed}

module _ (H : Host) (K : Packer H) where
  -- What `ensureBasePath` makes of a path in an archive that is known to be inside.
  abbrev pub unless_link : H.World → Text → Text → Result Text
  unless_link w root path = elim (no_links H (suc (length path)) w root (dir path)) [
    | ok _ ↦ ok path
    | err e ↦ err e
  ]

  ensure_base_path_inside :
      (w : H.World) (root base target path : Text)
      → rel base target ≡ some path
      → escapes (clean path) ≡ false
      → ensure_base_path H w root base target ≡ unless_link w root path
  unfolding ensure_base_path
  ensure_base_path_inside w root base target path p q = ground (arith, p, q)

  -- An entry that `tarDirectory` packs from a directory under a relative name, and that is not the
  -- directory itself, is given a name from which `ensureBasePath`, at the same relative name, finds
  -- the entry's way below the directory again, unless a symbolic link is there; joined to the root
  -- that is unpacked to, it leads below the root just as it led below the directory.
  pub ensure_base_path-renamed :
      (name source path root : Text) (rest : List Text) (w : H.World)
      → name ≢ []
      → is_abs name ≡ false
      → is_abs source ≡ true
      → is_abs path ≡ true
      → is_abs root ≡ true
      → rest ≢ []
      → parts path ≡ parts source ++ rest
      → (packed : Text) × (renamed H K source name path ≡ ok packed)
        × (ensure_base_path H w root name packed ≡ unless_link w root (join rest b'/'))
        × (parts (join_path root (join rest b'/')) ≡ parts root ++ rest)
  ensure_base_path-renamed [] source path root rest w named relative rooted on root_ some_ below =
      absurd (named refl)
  ensure_base_path-renamed (c ∷ name) source path root rest w named relative rooted on root_ some_
        below =
      let elements_ : All IsElement rest =
        All-right IsElement (parts source) rest (rw below at (parts-IsElement path)) in
      let plain : IsPlain rest =
        All-right (λ e. e ≢ dotdot) (parts source) rest (rw below at (parts-All_plain path on)) in
      let inside : escapes (clean (join rest b'/')) ≡ false =
        rw (clean-join rest some_ elements_ plain) (escapes-join rest elements_ plain) in
      let (joined, _) =
        parts-join_path root (join rest b'/') root_ (is_abs-join rest some_ elements_) inside in
      (
        join_path (c ∷ name) (join rest b'/'),
        rw (renamed, rel_below source path rest rooted on some_ below) refl,
        ensure_base_path_inside w root (c ∷ name) _ (join rest b'/')
            (rel-join_path c name rest relative some_ elements_ plain) inside,
        joined ∙ ap (λ es. parts root ++ es) (parts-join rest some_ elements_ plain),
      )
