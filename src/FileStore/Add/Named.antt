-- ===== src/FileStore/Add/Named.antt =====
-- Which names exist after an `Add`.
use containerd_attributes_cl.Base.{
  Text, List, ◌∷◌, Bool, true, false, text_eq, if◌then◌else◌, is_empty, Result, ok, err, ◌≡◌, arith,
  Result-cases, inl, inr, ◌&&◌,
}
use containerd_attributes_cl.Content.{Descriptor}
use containerd_attributes_cl.FileStore.Host.{Host, FileInfo}
use containerd_attributes_cl.FileStore.Store.{Session, abs_path, name_exists}
use containerd_attributes_cl.FileStore.Push.{mark_existing, temp_file}
use containerd_attributes_cl.FileStore.Add.{
  Packer, descriptor_from_file, descriptor_from_dir, compress, describe, set_title, add_named, add,
}

abbrev pub made : Result Descriptor → Bool
made (ok d) = true
made (err e) = false

abbrev Statuses : Type 0
Statuses = List (Text × Bool)

module _ (H : Host) (K : Packer H) where
  abbrev statuses : Session H → Statuses
  statuses s = s.store.name_to_status

  statuses-descriptor_from_file :
      (fi : FileInfo) (media_type path : Text) (s : Session H)
      → statuses (descriptor_from_file H K fi media_type path s).1 ≡ statuses s
  unfolding descriptor_from_file
  statuses-descriptor_from_file fi media_type path s = ground arith

  statuses-compress :
      (name media_type dir gz : Text) (s : Session H)
      → statuses (compress H K name media_type dir gz s).1 ≡ statuses s
  unfolding compress
  statuses-compress name media_type dir gz s = ground arith

  statuses-descriptor_from_dir :
      (name media_type dir : Text) (s : Session H)
      → statuses (descriptor_from_dir H K name media_type dir s).1 ≡ statuses s
  unfolding descriptor_from_dir temp_file
  statuses-descriptor_from_dir name media_type dir s =
      elim (Result-cases (H.create_temp s.world).0) [
        | inr (e, p) ↦ ground (arith, p)
        | inl (gz, p) ↦
            ground (arith, p, λ (t : Session H). statuses-compress name media_type dir gz t)
      ]

  statuses-describe :
      (name media_type path : Text) (fi : FileInfo) (s : Session H)
      → statuses (describe H K name media_type path fi s).1 ≡ statuses s
  unfolding describe
  statuses-describe name media_type path fi s = ground (
    arith,
    statuses-descriptor_from_dir name media_type path s,
    statuses-descriptor_from_file fi media_type path s,
  )

  statuses-add_named :
      (name media_type path : Text) (s : Session H)
      → statuses (add_named H K name media_type path s).1 ≡ (
          if made (add_named H K name media_type path s).0
          then (name, true) ∷ statuses s
          else statuses s)
  unfolding add_named set_title mark_existing
  statuses-add_named name media_type path s = elim (Result-cases (H.stat s.world path)) [
    | inr (e, p) ↦ ground (arith, p)
    | inl (fi, p) ↦ ground (arith, p, statuses-describe name media_type path fi s)
  ]

  -- After `Add` its name exists if the call succeeds, and every status is as it was if it fails, so
  -- that it can be repeated; and `Add` fails when the name exists already.
  pub name_to_status-add :
      (name media_type path : Text) (s : Session H)
      → ((add H K name media_type path s).1.store.name_to_status ≡ (
          if made (add H K name media_type path s).0
          then (name, true) ∷ s.store.name_to_status
          else s.store.name_to_status))
        × (made (add H K name media_type path s).0 && name_exists H s name ≡ false)
  unfolding add
  name_to_status-add name media_type path s =
      let at = abs_path H s (if is_empty path then name else path) in
      (ground (arith, statuses-add_named name media_type at s), ground arith)
