-- ===== src/Tests/Adding.antt =====
-- Runs of `Add` over the disk in memory.
use containerd_attributes_cl.Base.{
  Text, lit, split, join, [], ◌∷◌, ◌++◌, some, true, false, text_eq, nat_eq, if◌then◌else◌, Result,
  ok, ◌≡◌, refl, load, ◌&&◌,
}
use containerd_attributes_cl.Content.{Descriptor, annotation, annotate, entry}
use containerd_attributes_cl.FilePath.{
  is_abs, parts, elements, keep, step, collapse, dot, dotdot, join_path,
}
use containerd_attributes_cl.FileStore.Host.{FileInfo}
use containerd_attributes_cl.FileStore.Store.{Session, abs_path, name_exists}
use containerd_attributes_cl.FileStore.Read.{title, fetch}
use containerd_attributes_cl.FileStore.Add.{Packer, add, renamed}
use containerd_attributes_cl.FileStore.Add.Packed.{unless_link, ensure_base_path-renamed}
use containerd_attributes_cl.FileStore.Archive.{ensure_base_path}
use containerd_attributes_cl.FileStore.Add.Fetched.{fetch-add}
use containerd_attributes_cl.FileStore.Add.Named.{made, name_to_status-add}
use containerd_attributes_cl.Tests.Disk.{disk, session_in}

abbrev work : Text
work = b'/' ∷ b'w' ∷ []

abbrev name : Text
name = b'/' ∷ b'x' ∷ []

abbrev content : Text
content = b'a' ∷ b'b' ∷ []

abbrev packer : Packer disk
packer = record {
  Info = Unit {0};
  walk = λ w root. [];
  read_link = λ w path. ok [];
  file_info_header = λ info link. ok (record {
    name = [];
    uid = 0;
    gid = 0;
    uname = [];
    gname = [];
    mod_time = 0;
    access_time = 0;
    change_time = 0;
    others = [];
  });
  write_header = λ gz h w. (ok tt, w);
  write_content = λ gz bytes w. (ok tt, w);
  close_tar = λ gz w. (ok tt, w);
  close_gzip = λ gz w. (ok tt, w);
  sync = λ gz w. (ok tt, w);
  digest_of = λ bytes. b'd' ∷ bytes;
  gzip_digest = λ w gz. gz;
  tar_digest = λ w gz. gz;
}

abbrev session : Session disk
session = session_in work ((name, content) ∷ []) []

abbrev added : Descriptor
added = record { media_type = b'm' ∷ []; digest = b'd' ∷ content; size = 2; annotations = some 1 }

adds : (add disk packer name (b'm' ∷ []) [] session).0 ≡ ok added
unfolding add abs_path is_abs load text_eq nat_eq annotate title lit entry
adds = refl

computes : Result FileInfo × Text
unfolding adds load text_eq nat_eq abs_path is_abs
computes = (disk.stat session.world (abs_path disk session name), name)

fetch-add_example :
    (fetch disk (add disk packer name (b'm' ∷ []) [] session).1 added ≡ ok content)
    × (annotation (add disk packer name (b'm' ∷ []) [] session).1.heap added title ≡ name)
unfolding computes
fetch-add_example =
    fetch-add disk packer name (b'm' ∷ []) [] content (record { is_dir = false; size = 2 }) added
      session refl refl refl refl adds

name_to_status-add_example :
    ((add disk packer name (b'm' ∷ []) [] session).1.store.name_to_status
      ≡ (if made (add disk packer name (b'm' ∷ []) [] session).0 then (name, true) ∷ [] else []))
    × (made (add disk packer name (b'm' ∷ []) [] session).0 && name_exists disk session name
        ≡ false)
name_to_status-add_example = name_to_status-add disk packer name (b'm' ∷ []) [] session

split_parts : parts (b'/' ∷ b'd' ∷ b'/' ∷ b'e' ∷ []) ≡ parts (b'/' ∷ b'd' ∷ []) ++ (b'e' ∷ []) ∷ []
unfolding parts elements split keep step collapse is_abs dot dotdot lit text_eq nat_eq
split_parts = refl

ensure_base_path-renamed_example :
    (packed : Text) × (renamed disk packer
        (b'/' ∷ b'd' ∷ [])
        (b'n' ∷ [])
        (b'/' ∷ b'd' ∷ b'/' ∷ b'e' ∷ [])
      ≡ ok packed)
    × (ensure_base_path disk [] (b'/' ∷ b'r' ∷ []) (b'n' ∷ []) packed
        ≡ unless_link disk packer [] (b'/' ∷ b'r' ∷ []) (b'e' ∷ []))
    × (parts (join_path (b'/' ∷ b'r' ∷ []) (b'e' ∷ []))
        ≡ parts (b'/' ∷ b'r' ∷ []) ++ (b'e' ∷ []) ∷ [])
unfolding is_abs nat_eq join
ensure_base_path-renamed_example =
    ensure_base_path-renamed disk packer (b'n' ∷ []) (b'/' ∷ b'd' ∷ [])
      (b'/' ∷ b'd' ∷ b'/' ∷ b'e' ∷ []) (b'/' ∷ b'r' ∷ []) ((b'e' ∷ []) ∷ []) [] (λ p. absurd (cc))
      refl refl refl refl (λ p. absurd (cc)) split_parts
