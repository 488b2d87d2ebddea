-- ===== src/Commands/Labels.antt =====
-- cmd/rcl/commands/run.go, `buildLabels`, which nothing calls.
use containerd_attributes_cl.Base.{
  Text, List, [], ◌∷◌, Option, none, some, ok, err, Done, ◌≡◌, refl, arith, text_eq, load,
  NodupKeys,
}

abbrev pub Labels : Type 0
Labels = List (Text × Text)

-- The first loop; `validate` is labels.Validate of containerd.
pub add_valid : (Text → Text → Done) → Labels → Labels → Labels
add_valid validate [] labels = labels
add_valid validate ((k, v) ∷ image_labels) labels =
    let with = add_valid validate image_labels ((k, v) ∷ labels) in
    let without = add_valid validate image_labels labels in
    elim (validate k v) [ ok _ ↦ with | err e ↦ without ]

-- The second loop
pub add_all : Labels → Labels → Labels
add_all [] labels = labels
add_all ((k, v) ∷ cmd_labels) labels = add_all cmd_labels ((k, v) ∷ labels)

unfoldable pub build_labels : (Text → Text → Done) → Labels → Labels → Labels
unfolding add_valid add_all
build_labels validate cmd_labels image_labels =
    add_all cmd_labels (add_valid validate image_labels [])

abbrev pub or_else : Option Text → Option Text → Option Text
or_else none b = b
or_else (some v) b = some v

load-add_all :
    (k : Text) (cmd_labels labels : Labels)
    → NodupKeys cmd_labels
    → load k (add_all cmd_labels labels) ≡ or_else (load k cmd_labels) (load k labels)
unfolding add_all load
load-add_all k [] labels nodup = refl
load-add_all k ((j, v) ∷ cmd_labels) labels (fresh, nodup) =
    ground (arith, fresh, load-add_all k cmd_labels ((j, v) ∷ labels) nodup)

-- The image's label, if containerd accepts it.
abbrev pub accepted : (Text → Text → Done) → Text → Option Text → Option Text
accepted validate k none = none
accepted validate k (some v) = elim (validate k v) [ ok _ ↦ some v | err e ↦ none ]

load-add_valid :
    (validate : Text → Text → Done) (k : Text) (image_labels labels : Labels)
    → NodupKeys image_labels
    → load k (add_valid validate image_labels labels)
      ≡ or_else (accepted validate k (load k image_labels)) (load k labels)
unfolding add_valid load
load-add_valid validate k [] labels nodup = refl
load-add_valid validate k ((j, v) ∷ image_labels) labels (fresh, nodup) = ground (
  arith,
  fresh,
  load-add_valid validate k image_labels ((j, v) ∷ labels) nodup,
  load-add_valid validate k image_labels labels nodup,
)

-- The map that `buildLabels` returns has for each key the label of the command line, or else the
-- image's label if that is valid, and no other keys.
pub load-build_labels :
    (validate : Text → Text → Done) (k : Text) (cmd_labels image_labels : Labels)
    → NodupKeys cmd_labels
    → NodupKeys image_labels
    → load k (build_labels validate cmd_labels image_labels)
      ≡ or_else (load k cmd_labels) (accepted validate k (load k image_labels))
unfolding build_labels load
load-build_labels validate k cmd_labels image_labels n m = ground (
  arith,
  load-add_all k cmd_labels (add_valid validate image_labels []) n,
  load-add_valid validate k image_labels [] m,
)
