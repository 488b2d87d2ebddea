-- ===== src/Commands/Mount.antt =====
-- cmd/rcl/commands/run.go, `parseMountFlag`: a mount given as one CSV record of key=value fields.
pub mod Csv
pub mod RoundTrip
use containerd_attributes_cl.Base.{
  Text, lit, List, [], ◌∷◌, Option, none, some, if◌then◌else◌, ◌||◌, ◌==◌, text_eq, Error, message,
  Result, ok, err, ◌>>=◌, split, before, after?,
}
use Csv.{read}

-- specs.Mount
pub record MountSpec : Type 0 where
  pub destination : Text
  pub mount_type : Text
  pub source : Text
  pub options : List Text

abbrev pub no_mount : MountSpec
no_mount = record { destination = []; mount_type = []; source = []; options = [] }

-- The cases of the switch on the key.
pub set_key : Text → Text → MountSpec → Result MountSpec
unfolding lit
set_key key val m =
    if key == lit "type"
    then ok (record m { mount_type = val })
    else if key == lit "source" || key == lit "src"
    then ok (record m { source = val })
    else if key == lit "destination" || key == lit "dst"
    then ok (record m { destination = val })
    else if key == lit "options"
    then ok (record m { options = split val b':' })
    else err (message (lit "mount option not supported"))

pub set_field : Text → MountSpec → Result MountSpec
unfolding set_key
set_field field m = elim (after? field b'=') [
  | none ↦ err (message (lit "invalid mount specification: expected key=val"))
  | some val ↦ set_key (before field b'=') val m
]

pub set_fields : List Text → MountSpec → Result MountSpec
unfolding set_field
set_fields [] m = ok m
set_fields (field ∷ fields) m = set_field field m >>= set_fields fields

-- `mount, err` of the source, without the part of the mount that comes beside an error.
unfoldable pub parse_mount_flag : Text → Result MountSpec
unfolding set_fields
parse_mount_flag m = read m >>= λ fields. set_fields fields no_mount
