-- ===== src/Tests/Disk.antt =====
-- A host for the file store: a disk that maps paths to contents, and stand-ins for the rest.
use containerd_attributes_cl.Base.{
  Text, List, [], ◌∷◌, ◌++◌, none, some, Bool, true, false, text_eq, nat_eq, sentinel, not_exist,
  oras_not_found, Error, Result, ok, err, ◌≡◌, arith, load, drop, length,
}
use containerd_attributes_cl.Content.{Descriptor}
use containerd_attributes_cl.FileStore.Host.{Host, Archive, FileInfo}
use containerd_attributes_cl.FileStore.Store.{Session}
use containerd_attributes_cl.FileStore.Push.Content.{KeepsContents}
use containerd_attributes_cl.FileStore.Push.Fetched.{CreatesEmpty}

abbrev pub Disk : Type 0
Disk = List (Text × Text)

abbrev pub read_disk : Disk → Text → Result Text
read_disk w path = elim (load path w) [ some text ↦ ok text | none ↦ err (sentinel not_exist) ]

abbrev stat_disk : Disk → Text → Result FileInfo
stat_disk w path = elim (load path w) [
  | some text ↦ ok (record { is_dir = false; size = length text })
  | none ↦ err (sentinel not_exist)
]

abbrev pub open_disk : Text → Bool → Disk → Disk
open_disk path true w = (path, []) ∷ w
open_disk path false w = elim (load path w) [ some text ↦ w | none ↦ (path, []) ∷ w ]

abbrev pub write_disk : Text → Text → Disk → Disk
write_disk path bytes w = elim (load path w) [
  | some old ↦ (path, bytes ++ drop (length bytes) old) ∷ w
  | none ↦ (path, bytes) ∷ w
]

abbrev empty_archive : Archive
empty_archive = record {
  opening = ok tt;
  headers = [];
  ending = none;
  payload = [];
  closing = ok tt;
}

abbrev pub disk : Host
disk = record {
  World = Disk;
  error_text = λ e. [];
  getwd = λ w. ok (b'/' ∷ []);
  stat = stat_disk;
  lstat = λ w path. ok false;
  open_read = read_disk;
  mkdir_all = λ path mode w. (ok tt, w);
  open_file = λ path trunc mode w. (ok tt, open_disk path trunc w);
  write = λ path bytes w. (ok tt, write_disk path bytes w);
  close = λ path w. (ok tt, w);
  chown = λ path uid gid w. (ok tt, w);
  create_temp = λ w. (ok (b'/' ∷ b't' ∷ []), w);
  remove = λ path w. (ok tt, w);
  link = λ target path w. (ok tt, w);
  symlink = λ target path w. (ok tt, w);
  chtimes = λ path h w. w;
  unpack = λ content. empty_archive;
  parse_digest = λ checksum. none;
  verify_reader = λ d r. r;
  verify = λ d r. ok tt;
  Fallback = Unit {0};
  fallback_fetch = λ f d. err (sentinel oras_not_found);
  fallback_exists = λ f d. ok false;
  fallback_push = λ d r f. (ok tt, f);
  fetch_all = λ fetch d. fetch d;
  successors = λ fetch d heap. (ok [], heap);
  Graph = Unit {0};
  add_manifest = λ fetch heap d g. (ok tt, g);
  graph_to = λ g id. [];
  file_info = λ heap d. ok none;
}

read-write_disk :
    (path bytes : Text) (w : Disk) (old : Text)
    → read_disk w path ≡ ok old
    → read_disk (write_disk path bytes w) path ≡ ok (bytes ++ drop (length bytes) old)
unfolding load
read-write_disk path bytes w old h = ground arith

read-open_disk :
    (path : Text) (w : Disk) (old : Text)
    → read_disk w path ≡ ok old
    → read_disk (open_disk path false w) path ≡ ok old
unfolding load
read-open_disk path w old h = ground arith

pub disk-KeepsContents : (path : Text) → KeepsContents disk path
disk-KeepsContents path = record {
  read-mkdir_all = λ dir mode w old h. h;
  read-open_file = λ mode w old h. read-open_disk path w old h;
  read-write = λ bytes w old h k. read-write_disk path bytes w old h;
  read-close = λ w old h. h;
  read-chown = λ uid gid w old h. h;
}

created_disk :
    (path : Text) (w : Disk) (e : Error)
    → read_disk w path ≡ err e
    → read_disk (open_disk path false w) path ≡ ok []
unfolding load text_eq nat_eq
created_disk path w e h = ground (arith, h)

pub disk-CreatesEmpty : (path : Text) → CreatesEmpty disk path
disk-CreatesEmpty path = record {
  read-mkdir_above = λ mode w e h n. h;
  read-created = λ mode w e h n o. created_disk path w e h;
}

-- A store in the directory /w whose maps are empty, on a disk, with one map of annotations.
abbrev pub session_in : Text → Disk → List (Text × Text) → Session disk
session_in working_dir w annotations = record {
  store = record {
    tar_reproducible = false;
    allow_path_traversal_on_write = false;
    disable_overwrite = false;
    force_cas = false;
    ignore_no_name = false;
    working_dir = working_dir;
    closed = false;
    digest_to_path = [];
    name_to_status = [];
    tmp_files = [];
    resolver = [];
    graph = tt;
    fallback_storage = tt;
  };
  world = w;
  heap = annotations ∷ [];
}

-- A descriptor with that map, of the content "xy".
abbrev pub blob : Descriptor
blob = record { media_type = b'm' ∷ []; digest = b'd' ∷ []; size = 2; annotations = some 0 }
