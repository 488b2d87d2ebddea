-- ===== src/Tests/Files.antt =====
-- Runs of aritfact/content/file over the disk in memory.
use containerd_attributes_cl.Base.{
  Text, pos, ℤ_eq, lit, List, [], ◌∷◌, ◌++◌, none, some, true, text_eq, nat_eq, sentinel_eq, Error,
  sentinel, not_exist, wrap, duplicate_name, Result, ok, err, Done, ◌≡◌, ◌≢◌, refl, arith, load,
  All, is_empty, path_traversal_disallowed, join, split, has_prefix, if◌then◌else◌, not, ◌&&◌,
}
use containerd_attributes_cl.Content.{Descriptor, annotation, annotate, entry}
use containerd_attributes_cl.FilePath.{
  is_abs, parts, dot, dotdot, rel, clean, join_path, dir, escapes,
}
use containerd_attributes_cl.FilePath.Relative.{is_prefix_of}
use containerd_attributes_cl.FileStore.Host.{Reader, FileAttributes}
use containerd_attributes_cl.FileStore.Store.{
  Session, resolve_write_path, abs_from, abs_path, name_exists,
}
use containerd_attributes_cl.FileStore.Store.Paths.{
  HasRootedCwd, resolve_write_path_inside, resolve_write_path_exact,
}
use containerd_attributes_cl.FileStore.Read.{
  title, ref_name, tag, resolve, close_store, exists, fetch,
}
use containerd_attributes_cl.FileStore.Read.Closed.{close_store-without, without}
use containerd_attributes_cl.FileStore.Read.Tags.{resolve-tag, resolve-tag_shared}
use containerd_attributes_cl.FileStore.Push.{push, push_one, push_file, unpack_key}
use containerd_attributes_cl.FileStore.Push.Names.{
  name_to_status-push_one, name_exists-push, succeeds,
}
use containerd_attributes_cl.FileStore.Push.Content.{push_one_inside, read-push_file}
use containerd_attributes_cl.FileStore.Push.Lost.{push_one_lost}
use containerd_attributes_cl.FileStore.Push.Fetched.{fetch-push}
use containerd_attributes_cl.FileStore.Archive.{ensure_link_path}
use containerd_attributes_cl.FileStore.Archive.Links.{ensure_link_path_relative_base}
use containerd_attributes_cl.Tests.Disk.{
  disk, Disk, session_in, blob, disk-KeepsContents, disk-CreatesEmpty,
}

abbrev work : Text
work = b'/' ∷ b'w' ∷ []

abbrev name : Text
name = b'x' ∷ []

abbrev target : Text
target = b'/' ∷ b'w' ∷ b'/' ∷ b'x' ∷ []

abbrev second : Text
second = b'y' ∷ []

-- "/w/x" holds "abc".
abbrev old : Disk
old = (target, b'a' ∷ b'b' ∷ b'c' ∷ []) ∷ []

abbrev session : Session disk
session = session_in work old ((title, name) ∷ [])

abbrev reader : Reader
reader = record { bytes = b'x' ∷ b'y' ∷ []; failure = none }

-- What the runs below compute with.
computes : (Result Text × Done) × (Result Descriptor × Done)
unfolding resolve_write_path abs_path abs_from is_abs clean parts rel text_eq nat_eq join join_path
    split dot dotdot escapes has_prefix annotation entry title ref_name sentinel_eq load ℤ_eq dir
    lit push_one push_file push tag resolve close_store unpack_key annotate exists
computes = (
  (resolve_write_path disk session name, (push_one disk blob reader session).0),
  (resolve disk session name, (tag disk blob name session).0),
)

rooted : HasRootedCwd disk old
unfolding computes
rooted cwd h = ground (arith, h)

resolves : resolve_write_path disk session name ≡ ok target
unfolding computes
resolves = refl

resolve_write_path_inside_example :
    (base : Text) × (t : Text) × (rest : List Text) × (abs_from disk old work ≡ ok base)
    × (abs_from disk old target ≡ ok t)
    × (parts t ≡ parts base ++ rest)
    × All (λ e. e ≢ dotdot) (parts t)
resolve_write_path_inside_example =
    resolve_write_path_inside disk session rooted name target refl resolves

resolve_write_path_exact_example : resolve_write_path disk session name ≡ (
    if is_prefix_of (parts work) (parts target)
    then ok (abs_path disk session name)
    else err (sentinel path_traversal_disallowed))
unfolding computes
resolve_write_path_exact_example =
    resolve_write_path_exact disk session rooted name work target refl refl refl refl

abbrev guarded : Session disk
guarded = record (session_in work [] []) {
  store = record (session_in work [] []).store { disable_overwrite = true };
}

push_one_inside_example :
    (disk.verify blob reader ≡ ok tt)
    × (base : Text) × (t : Text) × (rest : List Text) × (abs_from disk old work ≡ ok base)
    × (abs_from disk old target ≡ ok t)
    × (parts t ≡ parts base ++ rest)
    × All (λ e. e ≢ dotdot) (parts t)
unfolding computes
push_one_inside_example =
    push_one_inside disk blob reader session target rooted refl refl refl refl refl

-- A reader that breaks off.
abbrev broken : Reader
broken = record { bytes = b'x' ∷ []; failure = some (sentinel not_exist) }

push_one_lost_example :
    ((push_one disk blob broken session).0 ≡ ok tt)
    × (push_one disk blob reader (push_one disk blob broken session).1
        ≡ (err (wrap name (sentinel duplicate_name)), (push_one disk blob broken session).1))
unfolding computes
push_one_lost_example =
    push_one_lost disk blob broken reader session target none
      (wrap (lit "failed to copy content to " ++ target)
        (wrap (lit "copy failed") (sentinel not_exist)))
      refl refl refl refl refl refl

name_to_status-push_one_example : (push_one disk blob reader session).1.store.name_to_status ≡ (
    if not (is_empty name) && succeeds (push_one disk blob reader session).0
    then (name, true) ∷ []
    else [])
unfolding computes
name_to_status-push_one_example = name_to_status-push_one disk blob reader session

-- The session after a push of the name.
abbrev pushed : Session disk
unfolding computes
pushed = (push_one disk blob reader session).1

name_exists-push_example : name_exists disk (push disk blob reader pushed).1 name ≡ true
unfolding computes
name_exists-push_example = name_exists-push disk blob reader pushed name refl

no_attributes : FileAttributes
no_attributes = record { permissions = 0; uid = pos 0; gid = pos 0 }

read-push_file_example :
    disk.open_read (push_file disk target blob no_attributes reader session).1.world target
    ≡ ok (b'x' ∷ b'y' ∷ b'c' ∷ [])
unfolding computes no_attributes
read-push_file_example =
    read-push_file disk target (disk-KeepsContents target) blob no_attributes reader session
      (b'a' ∷ b'b' ∷ b'c' ∷ []) refl refl

-- The same store, on an empty disk.
abbrev unwritten : Session disk
unwritten = session_in work [] ((title, name) ∷ [])

fetch-push_example :
    (fetch disk (push disk blob reader unwritten).1 blob ≡ ok (b'x' ∷ b'y' ∷ []))
    × (disk.verify blob reader ≡ ok tt)
unfolding computes
fetch-push_example =
    fetch-push disk target (disk-KeepsContents target) (disk-CreatesEmpty target) blob reader
      unwritten none (sentinel not_exist) refl refl refl refl refl refl refl refl (λ f heap. refl)
      refl

resolve-tag_example :
    (found : Descriptor) × (resolve disk (tag disk blob name pushed).1 name ≡ ok found)
    × (found.digest ≡ blob.digest)
    × (found.media_type ≡ blob.media_type)
    × (found.size ≡ blob.size)
    × (annotation (tag disk blob name pushed).1.heap found ref_name ≡ name)
unfolding computes
resolve-tag_example = resolve-tag disk blob name pushed (λ i e. ground (arith, e)) refl

resolve-tag_shared_example :
    (resolve disk (tag disk blob second (tag disk blob name pushed).1).1 name ≡ ok blob)
    × (annotation (tag disk blob second (tag disk blob name pushed).1).1.heap blob ref_name
        ≡ second)
unfolding computes
resolve-tag_shared_example =
    resolve-tag_shared disk blob name second 0 pushed refl (omega arith) (λ e. ground (arith, e))
      refl refl

close_store-without_example :
    (close_store disk pushed).1.world ≡ without disk pushed.store.tmp_files pushed.world
unfolding computes
close_store-without_example = close_store-without disk pushed refl

ensure_link_path_relative_base_example :
    (e : Error) × (ensure_link_path disk old work name target second ≡ err e)
unfolding computes
ensure_link_path_relative_base_example =
    ensure_link_path_relative_base disk old work name target second refl refl
