-- ===== src/FileStore/Store.antt =====
-- aritfact/content/file/file.go: the state of the file store, and where it writes. The maps of the
-- source are association lists; a name without a status reads as the fresh status that the source
-- would store for it, which nothing else can see. Calls do not overlap, so the locks are left out.
pub mod Paths
use containerd_attributes_cl.Base.{
  Text, ℕ, lit, List, [], ◌∷◌, ◌++◌, Option, none, some, Bool, true, false, not, ◌&&◌, ◌==◌,
  text_eq, if◌then◌else◌, is_empty, Error, message, sentinel, wrap, is, not_exist, sentinel_eq,
  path_traversal_disallowed, overwrite_disallowed, Result, ok, err, ◌>>=◌, Done, load,
}
use containerd_attributes_cl.Content.{Descriptor, Heap, Entries}
use containerd_attributes_cl.FilePath.{is_abs, clean, join_path, abs, rel, escapes}
use containerd_attributes_cl.FileStore.Host.{Host}

pub record Store (G F : Type 0) : Type 0 where
  pub tar_reproducible : Bool
  pub allow_path_traversal_on_write : Bool
  pub disable_overwrite : Bool
  pub force_cas : Bool
  pub ignore_no_name : Bool
  pub working_dir : Text
  pub closed : Bool
  pub digest_to_path : List (Text × Text)
  pub name_to_status : List (Text × Bool)
  pub tmp_files : List Text
  pub resolver : List (Text × Descriptor)
  pub graph : G
  pub fallback_storage : F

-- A call runs on the store, the world outside it, and the annotation maps.
pub record Session (H : Host) : Type 0 where
  pub store : Store H.Graph H.Fallback
  pub world : H.World
  pub heap : Heap

abbrev is_set : Option Bool → Bool
is_set none = false
is_set (some b) = b

-- `defaultFallbackPushSizeLimit`
abbrev pub default_fallback_push_size_limit : ℕ
default_fallback_push_size_limit = 4194304

module _ (H : Host) where
  -- `NewWithFallbackStorage`, over a fallback storage and a graph that are new.
  unfoldable pub new_with_fallback_storage : Text → H.Fallback → H.Graph → Store H.Graph H.Fallback
  new_with_fallback_storage working_dir fallback graph = record {
    tar_reproducible = false;
    allow_path_traversal_on_write = false;
    disable_overwrite = false;
    force_cas = false;
    ignore_no_name = false;
    working_dir = working_dir;
    closed = false;
    digest_to_path = [];
    name_to_status = [];
    tmp_files = [];
    resolver = [];
    graph = graph;
    fallback_storage = fallback;
  }

  -- `NewWithFallbackLimit`; `new_fallback` is memory.New and LimitStorage of oras, `new_graph` is
  -- collection.New.
  abbrev pub new_with_fallback_limit :
      (ℕ → H.Fallback) → (Text → H.Graph) → Text → ℕ → Store H.Graph H.Fallback
  new_with_fallback_limit new_fallback new_graph working_dir limit =
      new_with_fallback_storage working_dir (new_fallback limit) (new_graph working_dir)

  -- `New`
  abbrev pub new : (ℕ → H.Fallback) → (Text → H.Graph) → Text → Store H.Graph H.Fallback
  new new_fallback new_graph working_dir =
      new_with_fallback_limit new_fallback new_graph working_dir default_fallback_push_size_limit

  -- `nameExists`
  abbrev pub name_exists : Session H → Text → Bool
  name_exists s name = is_set (load name s.store.name_to_status)

  unfoldable pub abs_path : Session H → Text → Text
  abs_path s path = if is_abs path then path else join_path s.store.working_dir path

  -- `filepath.Abs`, which needs the working directory of the process for a relative path only.
  unfoldable pub abs_from : H.World → Text → Result Text
  abs_from w p = if is_abs p then ok (clean p) else (H.getwd w >>= λ cwd. ok (abs cwd p))

  -- The check against writing outside the working directory.
  pub check_traversal : H.World → Text → Text → Done
  check_traversal w working_dir path = abs_from w working_dir >>= λ base.
      abs_from w path >>= λ target. elim (rel base target) [
        | none ↦ err (sentinel path_traversal_disallowed)
        | some r ↦ if escapes r then err (sentinel path_traversal_disallowed) else ok tt
      ]

  -- The check against writing over a file.
  pub check_overwrite : H.World → Text → Done
  check_overwrite w path = elim (H.stat w path) [
    | ok info ↦ err (sentinel overwrite_disallowed)
    | err e ↦ if is not_exist e then ok tt else err e
  ]

  unfoldable pub resolve_write_path : Session H → Text → Result Text
  unfolding abs_path check_traversal check_overwrite
  resolve_write_path s name =
      let path = abs_path s name in
      (if s.store.allow_path_traversal_on_write
        then ok tt
        else check_traversal s.world s.store.working_dir path)
      >>= λ _. (if s.store.disable_overwrite then check_overwrite s.world path else ok tt) >>= λ _.
          ok path
