-- ===== src/Tests/Overlay.antt =====
-- An overlay mount over the disk in memory, which has a file outside the upper directory.
use containerd_attributes_cl.Base.{
  Text, lit, List, [], ◌∷◌, ◌++◌, some, Bool, true, false, ok, ◌≡◌, ◌≢◌, refl, sym, ap, ◌∙◌, arith,
  text_eq, nat_eq, load, split, has_prefix, trim_prefix,
}
use containerd_attributes_cl.FilePath.{is_abs, parts, elements, keep, step, collapse, dot, dotdot}
use containerd_attributes_cl.FileStore.Archive.Inside.{IsInside}
use containerd_attributes_cl.FileStore.Store.Paths.{HasRootedCwd}
use containerd_attributes_cl.FileStore.Push.Confined.{KeptWithin, IsOwned}
use containerd_attributes_cl.FileStore.Push.Confined.Owned.{push-IsOwned}
use containerd_attributes_cl.FileStore.Push.{push}
use containerd_attributes_cl.FileStore.Read.{title}
use containerd_attributes_cl.FileStore.Store.{Session}
use containerd_attributes_cl.Applier.Mounts.{upperdir_prefix}
use containerd_attributes_cl.Applier.Apply.{MountPoint, Place, apply_artifact}
use containerd_attributes_cl.Applier.Apply.Confined.{apply_artifact_confined}
use containerd_attributes_cl.Tests.Disk.{disk, Disk, blob, open_disk, write_disk, session_in}
use containerd_attributes_cl.Tests.Layers.{outside, mount_of, content}

abbrev upper_dir : Text
upper_dir = b'/' ∷ b'u' ∷ []

abbrev elsewhere : Text
elsewhere = b'/' ∷ b'x' ∷ []

-- The file outside has its content.
abbrev Untouched : Disk → Type 0
Untouched w = load elsewhere w ≡ some (b'k' ∷ [])

open_disk-Untouched :
    (path : Text) (trunc : Bool) (w : Disk)
    → path ≢ elsewhere
    → Untouched w
    → Untouched (open_disk path trunc w)
unfolding load
open_disk-Untouched path true w n h = ground (arith, n, h)
open_disk-Untouched path false w n h = ground (arith, n, h)

write_disk-Untouched :
    (path bytes : Text) (w : Disk)
    → path ≢ elsewhere
    → Untouched w
    → Untouched (write_disk path bytes w)
unfolding load
write_disk-Untouched path bytes w n h = ground (arith, n, h)

parts-elsewhere : parts elsewhere ≡ (b'x' ∷ []) ∷ []
unfolding parts elements split keep step collapse is_abs dot dotdot lit text_eq nat_eq
parts-elsewhere = refl

parts-upper : parts upper_dir ≡ (b'u' ∷ []) ∷ []
unfolding parts elements split keep step collapse is_abs dot dotdot lit text_eq nat_eq
parts-upper = refl

not_same : (rest : List Text) → (b'x' ∷ []) ∷ [] ≢ (b'u' ∷ []) ∷ rest
not_same rest p = absurd (ground (arith, p))

apart : (path : Text) → IsInside upper_dir path → path ≢ elsewhere
apart path (rest, e, _) p =
    not_same rest (sym parts-elsewhere ∙ ap parts (sym p) ∙ e ∙ ap (λ es. es ++ rest) parts-upper)

temporary_apart : (name : Text) → ok (b'/' ∷ b't' ∷ []) ≡ ok name → name ≢ elsewhere
temporary_apart name e p = absurd (ground (arith, e, p))

kept-Untouched : KeptWithin disk upper_dir Untouched
kept-Untouched = record {
  kept-mkdir_all = λ path mode w i h. h;
  kept-mkdir_above = λ path mode w i h. h;
  kept-open_file = λ path trunc mode w i h. open_disk-Untouched path trunc w (apart path i) h;
  kept-write = λ path bytes w i h. write_disk-Untouched path bytes w (apart path i) h;
  kept-close = λ path w i h. h;
  kept-chown = λ path uid gid w i h. h;
  kept-link = λ target path w i h. h;
  kept-symlink = λ target path w i h. h;
  kept-chtimes = λ path t w i h. h;
  kept-create_temp = λ w h. h;
  kept-write_temp =
      λ u name bytes w e h. write_disk-Untouched name bytes w (temporary_apart name e) h;
  kept-close_temp = λ u name w e h. h;
}

rooted : (w : Disk) → HasRootedCwd disk w
unfolding is_abs nat_eq
rooted w cwd e = ground (arith, e)

abbrev overlay : MountPoint
overlay = mount_of (lit "overlay") (lit "upperdir=/u" ∷ [])

abbrev before : Place disk
before = record { world = (elsewhere, b'k' ∷ []) ∷ []; heap = [] ∷ [] }

Untouched-before : Untouched before.world
unfolding load text_eq nat_eq
Untouched-before = refl

apply_artifact_confined_example :
    Untouched (apply_artifact disk outside (overlay ∷ []) [] blob before).1.world
unfolding upperdir_prefix lit text_eq nat_eq has_prefix trim_prefix is_abs
apply_artifact_confined_example =
    apply_artifact_confined disk outside rooted overlay Untouched [] blob before refl refl refl refl
      kept-Untouched Untouched-before

abbrev in_upper : Session disk
in_upper = session_in upper_dir [] ((title, b'f' ∷ []) ∷ [])

push-IsOwned_example :
    IsOwned disk upper_dir (push disk blob content in_upper).1.store.digest_to_path
unfolding is_abs nat_eq
push-IsOwned_example = push-IsOwned disk upper_dir blob content in_upper refl rooted refl refl tt
