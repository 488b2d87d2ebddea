-- ===== src/Tests/Texts.antt =====
-- Runs of the path functions and of the readers of options.
use containerd_attributes_cl.Base.{
  Text, lit, [], ◌∷◌, Bool, text_eq, nat_eq, join, ok, err, ◌≡◌, refl, arith, sentinel_eq,
}
use containerd_attributes_cl.FilePath.{is_abs}
use containerd_attributes_cl.Applier.Mounts.{get_aufs_path, invalid}
use containerd_attributes_cl.Applier.Mounts.Aufs.{get_aufs_path-format, format}
use containerd_attributes_cl.Commands.Mount.{MountSpec, parse_mount_flag}
use containerd_attributes_cl.Commands.Mount.RoundTrip.{fields_of, parse_mount_flag-format}

abbrev root : Text
root = b'/' ∷ b'w' ∷ []

-- "/w/.."
abbrev untidy : Text
untidy = b'/' ∷ b'w' ∷ b'/' ∷ b'.' ∷ b'.' ∷ []

abbrev low : Text
low = b'l' ∷ []

abbrev high : Text
high = b'u' ∷ []

rooted : (p : Text) → Bool
unfolding is_abs
rooted = is_abs

get_aufs_path-format_example :
    get_aufs_path (format (record { upper = high; lower = low ∷ [] }) ∷ [])
    ≡ ok (record { upper = high; lower = low ∷ [] })
get_aufs_path-format_example =
    get_aufs_path-format high (low ∷ []) (λ p. ground (arith, p)) (omega arith) (omega arith)

no_branch : get_aufs_path [] ≡ err (invalid (lit "rw branch not found"))
unfolding get_aufs_path
no_branch = refl

abbrev bind_mount : MountSpec
bind_mount = record {
  destination = root;
  mount_type = low;
  source = high;
  options = low ∷ high ∷ [];
}

parse_mount_flag-format_example :
    parse_mount_flag (join (fields_of bind_mount) b',') ≡ ok bind_mount
parse_mount_flag-format_example =
    parse_mount_flag-format low high root low (high ∷ []) (omega arith) (omega arith) (omega arith)
      (omega arith) (omega arith)
