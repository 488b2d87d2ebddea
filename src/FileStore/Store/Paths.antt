-- ===== src/FileStore/Store/Paths.antt =====
-- Where `resolveWritePath` lets the store write.
use containerd_attributes_cl.Base.{
  Text, List, ◌++◌, Bool, true, false, text_eq, if◌then◌else◌, Error, sentinel, is, not_exist,
  sentinel_eq, path_traversal_disallowed, ok, err, Done, ◌≡◌, refl, sym, ◌∙◌, arith, Result-cases,
  Bool-cases, inl, inr, ◌≢◌, All,
}
use containerd_attributes_cl.FilePath.{dotdot, is_abs, parts}
use containerd_attributes_cl.FilePath.Clean.{is_abs-clean, parts-All_plain}
use containerd_attributes_cl.FilePath.Relative.{
  is_prefix_of, leaves-rel, is_abs-abs, append_of_is_prefix,
}
use containerd_attributes_cl.FileStore.Host.{Host}
use containerd_attributes_cl.FileStore.Store.{
  Session, abs_path, abs_from, check_traversal, check_overwrite, resolve_write_path,
}

-- The working directory of a process is a rooted path.
abbrev pub HasRootedCwd : (H : Host) → H.World → Type 0
HasRootedCwd H w = (cwd : Text) → H.getwd w ≡ ok cwd → is_abs cwd ≡ true

module _ (H : Host) (w : H.World) (R : HasRootedCwd H w) where
  abs_from-IsAbs : (p q : Text) → abs_from H w p ≡ ok q → is_abs q ≡ true
  unfolding abs_from
  abs_from-IsAbs p q h = elim (Bool-cases (is_abs p)) [
    | inl rooted ↦ ground (arith, rooted, is_abs-clean p)
    | inr relative ↦ elim (Result-cases (H.getwd w)) [
      | inl (cwd, e) ↦ ground (arith, relative, e, is_abs-abs cwd p (R cwd e))
      | inr (e, f) ↦ ground (arith, relative, f)
    ]
  ]

  -- Once both paths are absolute, the check passes just where the elements of the working directory
  -- begin those of the path.
  check_traversal_lem :
      (working_dir path base target : Text)
      → abs_from H w working_dir ≡ ok base
      → abs_from H w path ≡ ok target
      → check_traversal H w working_dir path ≡ (
          if is_prefix_of (parts base) (parts target)
          then ok tt
          else err (sentinel path_traversal_disallowed))
  unfolding check_traversal
  check_traversal_lem working_dir path base target hb ht = ground (
    arith,
    leaves-rel base target (abs_from-IsAbs working_dir base hb) (abs_from-IsAbs path target ht),
  )

tested : (b : Bool) (e : Error) → ◌≡◌ {A = Done} (if b then ok tt else err e) (ok tt) → b ≡ true
tested true e h = refl
tested false e h = cc

check_traversal-is_prefix_of :
    (H : Host) (w : H.World) (R : HasRootedCwd H w) (working_dir path base target : Text)
    → abs_from H w working_dir ≡ ok base
    → abs_from H w path ≡ ok target
    → check_traversal H w working_dir path ≡ ok tt
    → is_prefix_of (parts base) (parts target) ≡ true
check_traversal-is_prefix_of H w R working_dir path base target hb ht h =
    tested _ _ (sym (check_traversal_lem H w R working_dir path base target hb ht) ∙ h)

check_traversal_absolute :
    (H : Host) (w : H.World) (working_dir path : Text)
    → check_traversal H w working_dir path ≡ ok tt
    → (base : Text) × (target : Text) × (abs_from H w working_dir ≡ ok base)
      × (abs_from H w path ≡ ok target)
unfolding check_traversal
check_traversal_absolute H w working_dir path h = elim (Result-cases (abs_from H w working_dir)) [
  | inr (e, p) ↦ ground (arith, p, h)
  | inl (base, p) ↦ elim (Result-cases (abs_from H w path)) [
    | inr (e, q) ↦ ground (arith, p, q, h)
    | inl (target, q) ↦ (base, target, p, q)
  ]
]

module _ (H : Host) (s : Session H) (R : HasRootedCwd H s.world) where
  -- With path traversal off, a path that `resolveWritePath` gives lies inside the working directory:
  -- once both are made absolute, its elements are those of the working directory and more, none of
  -- them `..`.
  pub resolve_write_path_inside :
      (name path : Text)
      → s.store.allow_path_traversal_on_write ≡ false
      → resolve_write_path H s name ≡ ok path
      → (base : Text) × (target : Text) × (rest : List Text) × (abs_from H s.world
            s.store.working_dir
          ≡ ok base)
        × (abs_from H s.world path ≡ ok target)
        × (parts target ≡ parts base ++ rest)
        × All (λ e. e ≢ dotdot) (parts target)
  unfolding resolve_write_path
  resolve_write_path_inside name path off h =
      let at = abs_path H s name in
      let checked : check_traversal H s.world s.store.working_dir at ≡ ok tt = ground arith in
      let (base, target, p, q) =
        check_traversal_absolute H s.world s.store.working_dir at checked in
      let (rest, e) =
        append_of_is_prefix (parts base) (parts target) (
          check_traversal-is_prefix_of H s.world R s.store.working_dir at base target p q
            checked) in
      let same : at ≡ path = ground (arith, checked) in
      (
        base,
        target,
        rest,
        p,
        rw (← same) q,
        e,
        parts-All_plain target (abs_from-IsAbs H s.world R at target q),
      )

  -- With path traversal off and overwriting on, `resolveWritePath` gives a name's path if its
  -- elements begin with those of the working directory, and refuses the name otherwise.
  pub resolve_write_path_exact :
      (name base target : Text)
      → s.store.allow_path_traversal_on_write ≡ false
      → s.store.disable_overwrite ≡ false
      → abs_from H s.world s.store.working_dir ≡ ok base
      → abs_from H s.world (abs_path H s name) ≡ ok target
      → resolve_write_path H s name ≡ (
          if is_prefix_of (parts base) (parts target)
          then ok (abs_path H s name)
          else err (sentinel path_traversal_disallowed))
  unfolding resolve_write_path
  resolve_write_path_exact name base target off over hb ht = ground (
    arith,
    check_traversal_lem H s.world R s.store.working_dir (abs_path H s name) base target hb ht,
  )

-- With overwriting off, a path that `resolveWritePath` gives is one at which there is no file.
pub resolve_write_path_new :
    (H : Host) (s : Session H) (name path : Text)
    → s.store.disable_overwrite ≡ true
    → resolve_write_path H s name ≡ ok path
    → (e : Error) × (H.stat s.world path ≡ err e) × (is not_exist e ≡ true)
unfolding resolve_write_path check_overwrite
resolve_write_path_new H s name path off h =
    elim (Result-cases (H.stat s.world (abs_path H s name))) [
      | inl (info, p) ↦ ground (arith, p)
      | inr (e, p) ↦ (e, ground (arith, p), ground (arith, p))
    ]
