-- ===== src/Applier/Mounts/Overlay.antt =====
-- `getOverlayPath`, and the last option of each kind.
use containerd_attributes_cl.Base.{
  Text, lit, List, [], ◌∷◌, ◌++◌, has_prefix, trim_prefix, is_empty, split, join, if◌then◌else◌, ok,
  err, ◌≡◌, refl, arith, Option, none, some, true, false, ◌≢◌, All, Lacks, nat_eq,
  has_prefix-append, trim_prefix-append, split-join,
}
use containerd_attributes_cl.Applier.Mounts.{
  Branches, no_branches, invalid, upperdir_prefix, lowerdir_prefix, overlay_option, overlay_options,
  get_overlay_path,
}

-- What follows the prefix in the last option that has it.
abbrev pub last_with : Text → List Text → Option Text
last_with p [] = none
last_with p (o ∷ options) = elim (last_with p options) [
  | some v ↦ some v
  | none ↦ if has_prefix o p then some (trim_prefix o p) else none
]

abbrev pub upper_or : Text → Option Text → Text
upper_or u none = u
upper_or u (some v) = v

abbrev pub lower_or : List Text → Option Text → List Text
lower_or l none = l
lower_or l (some v) = split v b':'

-- No option begins with both prefixes.
prefixes_differ :
    (o : Text) → has_prefix o upperdir_prefix ≡ true → has_prefix o lowerdir_prefix ≡ false
unfolding has_prefix upperdir_prefix lowerdir_prefix
prefixes_differ [] h = cc
prefixes_differ (c ∷ o) h = ground arith

overlay_options-eq-last_with :
    (options : List Text) (b : Branches)
    → overlay_options options b ≡ record {
      upper = upper_or b.upper (last_with upperdir_prefix options);
      lower = lower_or b.lower (last_with lowerdir_prefix options);
    }
unfolding overlay_options
overlay_options-eq-last_with [] b = refl
overlay_options-eq-last_with (o ∷ options) b =
    ground (arith, overlay_options-eq-last_with options (overlay_option o b), prefixes_differ o)

-- The upper directory is what the last `upperdir=` option gives and the lower directories are the
-- parts of the last `lowerdir=` option, whatever else is given and in whichever order; it is an
-- invalid argument if there is no upper directory or an empty one.
pub get_overlay_path-eq-last_with :
    (options : List Text)
    → get_overlay_path options ≡ (
        let u = upper_or [] (last_with upperdir_prefix options) in
        if is_empty u
        then err (invalid (lit "upperdir not found"))
        else ok (record { upper = u; lower = lower_or [] (last_with lowerdir_prefix options) }))
unfolding get_overlay_path
get_overlay_path-eq-last_with options = rw (overlay_options-eq-last_with options no_branches)

-- The options that containerd's overlay snapshotter gives are read back: the upper directory if it
-- is not empty, and one or more lower directories that hold no colon.
pub get_overlay_path_snapshot :
    (work upper l : Text) (lower : List Text)
    → upper ≢ []
    → has_prefix work upperdir_prefix ≡ false
    → has_prefix work lowerdir_prefix ≡ false
    → All (Lacks b':') (l ∷ lower)
    → get_overlay_path
        (work ∷ (upperdir_prefix ++ upper) ∷ (lowerdir_prefix ++ join (l ∷ lower) b':') ∷ [])
      ≡ ok (record { upper = upper; lower = l ∷ lower })
unfolding get_overlay_path
get_overlay_path_snapshot work upper l lower some_upper w₁ w₂ plain =
    rw get_overlay_path-eq-last_with (
      ground (
        arith,
        has_prefix-append upperdir_prefix upper,
        trim_prefix-append upperdir_prefix upper,
        has_prefix-append lowerdir_prefix (join (l ∷ lower) b':'),
        trim_prefix-append lowerdir_prefix (join (l ∷ lower) b':'),
        prefixes_differ (upperdir_prefix ++ upper),
        prefixes_differ (lowerdir_prefix ++ join (l ∷ lower) b':'),
        split-join l lower b':' plain,
      ))
