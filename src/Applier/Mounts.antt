-- ===== src/Applier/Mounts.antt =====
-- aritfact/applier.go, `getOverlayPath` and `getAufsPath`: the writable and the read-only
-- directories among the options of a mount.
pub mod Overlay
pub mod Aufs
use containerd_attributes_cl.Base.{
  Text, lit, List, [], ◌∷◌, ◌++◌, has_prefix, has_suffix, trim_prefix, trim_suffix, is_empty, split,
  if◌then◌else◌, Result, ok, err, ◌>>=◌, Error, wrap, sentinel, invalid_argument, not,
}

pub record Branches : Type 0 where
  pub upper : Text
  pub lower : List Text

abbrev pub no_branches : Branches
no_branches = record { upper = []; lower = [] }

abbrev pub invalid : Text → Error
invalid m = wrap m (sentinel invalid_argument)

unfoldable pub upperdir_prefix : Text
unfolding lit
upperdir_prefix = lit "upperdir="

unfoldable pub lowerdir_prefix : Text
unfolding lit
lowerdir_prefix = lit "lowerdir="

abbrev overlay_option : Text → Branches → Branches
overlay_option o b =
    if has_prefix o upperdir_prefix
    then record b { upper = trim_prefix o upperdir_prefix }
    else if has_prefix o lowerdir_prefix
    then record b { lower = split (trim_prefix o lowerdir_prefix) b':' }
    else b

pub overlay_options : List Text → Branches → Branches
overlay_options [] b = b
overlay_options (o ∷ options) b = overlay_options options (overlay_option o b)

unfoldable pub get_overlay_path : List Text → Result Branches
unfolding overlay_options upperdir_prefix lowerdir_prefix
get_overlay_path options =
    let b = overlay_options options no_branches in
    if is_empty b.upper then err (invalid (lit "upperdir not found")) else ok b

pub br_prefix : Text
unfolding lit
br_prefix = lit "br:"

pub rw_suffix : Text
unfolding lit
rw_suffix = lit "=rw"

pub ro_suffix : Text
unfolding lit
ro_suffix = lit "=ro+wh"

-- One branch of an aufs option.
pub aufs_branch : Text → Branches → Result Branches
aufs_branch b r =
    if has_suffix b rw_suffix
    then (if not (is_empty r.upper)
        then err (invalid (lit "multiple rw branch found"))
        else ok (record r { upper = trim_suffix b rw_suffix }))
    else if has_suffix b ro_suffix
    then (if is_empty r.upper
        then err (invalid (lit "rw branch be first"))
        else ok (record r { lower = r.lower ++ trim_suffix b ro_suffix ∷ [] }))
    else err (invalid (lit "unhandled aufs suffix"))

pub aufs_branches : List Text → Branches → Result Branches
aufs_branches [] r = ok r
aufs_branches (b ∷ bs) r = aufs_branch b r >>= aufs_branches bs

pub aufs_options : List Text → Branches → Result Branches
aufs_options [] r = ok r
aufs_options (o ∷ options) r =
    (if has_prefix o br_prefix
      then aufs_branches (split (trim_prefix o br_prefix) b':') r
      else ok r)
    >>= aufs_options options

unfoldable pub get_aufs_path : List Text → Result Branches
unfolding aufs_branch aufs_branches aufs_options br_prefix rw_suffix ro_suffix
get_aufs_path options = aufs_options options no_branches >>= λ r.
    if is_empty r.upper then err (invalid (lit "rw branch not found")) else ok r
