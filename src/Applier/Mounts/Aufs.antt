-- ===== src/Applier/Mounts/Aufs.antt =====
-- `getAufsPath`, and the options that an aufs snapshotter writes.
use mathlib.Core.List.{reverse-append}
use containerd_attributes_cl.Base.{
  Text, List, [], ◌∷◌, ◌++◌, has_prefix, has_suffix, trim_prefix, split, join, ok, err,
  Result-cases, Bool-cases, inl, inr, ◌∙◌, Error, is, ◌≡◌, arith, true, false, ◌≢◌, All, All-append,
  Lacks, nat_eq, sentinel_eq, has_prefix-append, trim_prefix-append, has_suffix-append,
  trim_suffix-append, split-join, invalid_argument, append_assoc, append-nil,
}
use containerd_attributes_cl.Applier.Mounts.{
  Branches, no_branches, br_prefix, rw_suffix, ro_suffix, aufs_branch, aufs_branches, aufs_options,
  get_aufs_path,
}

-- The branches as the comment of `getAufsPath` formats them.
abbrev pub read_write : Text → Text
read_write u = u ++ rw_suffix

abbrev pub read_only : List Text → List Text
read_only [] = []
read_only (l ∷ lower) = (l ++ ro_suffix) ∷ read_only lower

abbrev pub format : Branches → Text
format r = br_prefix ++ join (read_write r.upper ∷ read_only r.lower) b':'

read_only-not_rw : (l : Text) → has_suffix (l ++ ro_suffix) rw_suffix ≡ false
unfolding has_suffix ro_suffix rw_suffix
read_only-not_rw l = rw (has_suffix, reverse-append l ro_suffix) (ground arith)

aufs_branches-read_only :
    (lower : List Text) (r : Branches)
    → r.upper ≢ []
    → aufs_branches (read_only lower) r ≡ ok (record r { lower = r.lower ++ lower })
unfolding aufs_branches aufs_branch
aufs_branches-read_only [] r h = rw append-nil
aufs_branches-read_only (l ∷ lower) r h = ground (
  arith,
  read_only-not_rw l,
  has_suffix-append l ro_suffix,
  trim_suffix-append l ro_suffix,
  append_assoc r.lower (l ∷ []) lower,
  aufs_branches-read_only lower (record r { lower = r.lower ++ l ∷ [] }) h,
)

aufs_branch_invalid :
    (b : Text) (r : Branches) (e : Error) → aufs_branch b r ≡ err e → is invalid_argument e ≡ true
unfolding aufs_branch
aufs_branch_invalid b r e h = ground arith

aufs_branches_invalid :
    (bs : List Text) (r : Branches) (e : Error)
    → aufs_branches bs r ≡ err e
    → is invalid_argument e ≡ true
unfolding aufs_branches
aufs_branches_invalid [] r e h = cc
aufs_branches_invalid (b ∷ bs) r e h = elim (Result-cases (aufs_branch b r)) [
  | inl (r', p) ↦ aufs_branches_invalid bs r' e (rw p at h)
  | inr (e', p) ↦ aufs_branch_invalid b r e (p ∙ (rw p at h))
]

aufs_option_invalid :
    (o : Text) (options : List Text) (r : Branches) (e : Error)
    → ((r' : Branches) → aufs_options options r' ≡ err e → is invalid_argument e ≡ true)
    → aufs_options (o ∷ options) r ≡ err e
    → is invalid_argument e ≡ true
unfolding aufs_options
aufs_option_invalid o options r e ih h = elim (Bool-cases (has_prefix o br_prefix)) [
  | inr skip ↦ ih r (rw skip at h)
  | inl taken ↦ elim (Result-cases (aufs_branches (split (trim_prefix o br_prefix) b':') r)) [
    | inl (r', p) ↦ ih r' (rw (taken, p) at h)
    | inr (e', p) ↦
        aufs_branches_invalid (split (trim_prefix o br_prefix) b':') r e (p ∙ (rw (taken, p) at h))
  ]
]

aufs_options_invalid :
    (options : List Text) (r : Branches) (e : Error)
    → aufs_options options r ≡ err e
    → is invalid_argument e ≡ true
unfolding aufs_options
aufs_options_invalid [] r e h = cc
aufs_options_invalid (o ∷ options) r e h =
    aufs_option_invalid o options r e (λ r'. aufs_options_invalid options r' e) h

-- `getAufsPath` fails only with an invalid argument, at which `apply` falls back to a mount.
pub get_aufs_path_invalid :
    (options : List Text) (e : Error) → get_aufs_path options ≡ err e → is invalid_argument e ≡ true
unfolding get_aufs_path
get_aufs_path_invalid options e h = elim (Result-cases (aufs_options options no_branches)) [
  | inl (r, p) ↦ ground arith
  | inr (e', p) ↦ aufs_options_invalid options no_branches e (p ∙ (rw p at h))
]

read_write-Lacks : (u : Text) → Lacks b':' u → Lacks b':' (read_write u)
unfolding rw_suffix
read_write-Lacks u h = All-append (λ c. c ≢ b':') u rw_suffix h (omega arith)

read_only-Lacks : (lower : List Text) → All (Lacks b':') lower → All (Lacks b':') (read_only lower)
unfolding ro_suffix
read_only-Lacks [] h = tt
read_only-Lacks (l ∷ lower) (h, hs) =
    (All-append (λ c. c ≢ b':') l ro_suffix h (omega arith), read_only-Lacks lower hs)

-- A writable branch that is not empty and any read-only branches, none of which holds a colon, are
-- read back from the option that lists them.
pub get_aufs_path-format :
    (upper : Text) (lower : List Text)
    → upper ≢ []
    → Lacks b':' upper
    → All (Lacks b':') lower
    → get_aufs_path (format (record { upper = upper; lower = lower }) ∷ [])
      ≡ ok (record { upper = upper; lower = lower })
unfolding get_aufs_path
get_aufs_path-format upper lower h plain plains = ground (
  arith,
  has_prefix-append br_prefix (join (read_write upper ∷ read_only lower) b':'),
  trim_prefix-append br_prefix (join (read_write upper ∷ read_only lower) b':'),
  split-join (read_write upper) (read_only lower) b':'
      (read_write-Lacks upper plain, read_only-Lacks lower plains),
  has_suffix-append upper rw_suffix,
  trim_suffix-append upper rw_suffix,
  aufs_branches-read_only lower (record { upper = upper; lower = [] }) h,
)
