-- ===== src/Commands/Mount/RoundTrip.antt =====
-- Mounts that are written as one record without quotes.
use containerd_attributes_cl.Base.{
  ℕ, ◌≢◌, Text, lit, List, [], ◌∷◌, ◌++◌, nat_eq, text_eq, ok, ◌≡◌, arith, All, All-append, Lacks,
  join, split, before-append, after?-append, split-join,
}
use containerd_attributes_cl.Commands.Mount.{
  MountSpec, no_mount, set_key, set_field, set_fields, parse_mount_flag,
}
use containerd_attributes_cl.Commands.Mount.Csv.{read}
use containerd_attributes_cl.Commands.Mount.Csv.Plain.{IsPlain, read-join}

abbrev pub assign : Text → Text → Text
assign key val = key ++ b'=' ∷ val

set_field-assign :
    (key val : Text) (m : MountSpec)
    → Lacks b'=' key
    → set_field (assign key val) m ≡ set_key key val m
unfolding set_field
set_field-assign key val m h =
    rw (set_field, after?-append key val b'=' h, before-append key val b'=' h)

-- The fields that `format` writes.
abbrev pub fields_of : MountSpec → List Text
fields_of m =
    assign (lit "type") m.mount_type
    ∷ assign (lit "source") m.source
    ∷ assign (lit "destination") m.destination
    ∷ assign (lit "options") (join m.options b':')
    ∷ []

set_field_type :
    (val : Text) (m : MountSpec)
    → set_field (assign (lit "type") val) m ≡ ok (record m { mount_type = val })
unfolding set_key text_eq nat_eq lit
set_field_type val m = set_field-assign (lit "type") val m (omega arith)

set_field_source :
    (val : Text) (m : MountSpec)
    → set_field (assign (lit "source") val) m ≡ ok (record m { source = val })
unfolding set_key text_eq nat_eq lit
set_field_source val m = set_field-assign (lit "source") val m (omega arith)

set_field_destination :
    (val : Text) (m : MountSpec)
    → set_field (assign (lit "destination") val) m ≡ ok (record m { destination = val })
unfolding set_key text_eq nat_eq lit
set_field_destination val m = set_field-assign (lit "destination") val m (omega arith)

set_field_options :
    (val : Text) (m : MountSpec)
    → set_field (assign (lit "options") val) m ≡ ok (record m { options = split val b':' })
unfolding set_key text_eq nat_eq lit
set_field_options val m = set_field-assign (lit "options") val m (omega arith)

abbrev Plain : ℕ → Type 0
Plain c = (c ≢ b',') × (c ≢ b'"') × (c ≢ b'\n') × (c ≢ 13)

assign-IsPlain : (key val : Text) → IsPlain key → IsPlain val → IsPlain (assign key val)
assign-IsPlain key val h k = All-append Plain key (b'=' ∷ val) h (omega arith, k)

join-IsPlain : (options : List Text) → All IsPlain options → IsPlain (join options b':')
unfolding join
join-IsPlain [] h = tt
join-IsPlain (o ∷ []) (h, _) = h
join-IsPlain (o ∷ p ∷ options) (h, hs) =
    All-append Plain o (b':' ∷ join (p ∷ options) b':') h
      (omega arith, join-IsPlain (p ∷ options) hs)

fields_of-IsPlain :
    (m : MountSpec)
    → IsPlain m.mount_type
    → IsPlain m.source
    → IsPlain m.destination
    → All IsPlain m.options
    → All IsPlain (fields_of m)
unfolding lit
fields_of-IsPlain m t s d os = (
  assign-IsPlain (lit "type") m.mount_type (omega arith) t,
  (
    assign-IsPlain (lit "source") m.source (omega arith) s,
    (
      assign-IsPlain (lit "destination") m.destination (omega arith) d,
      (
        assign-IsPlain (lit "options") (join m.options b':') (omega arith)
            (join-IsPlain m.options os),
        tt,
      ),
    ),
  ),
)

set_fields-fields_of :
    (mount_type source destination o : Text) (options : List Text)
    → All (Lacks b':') (o ∷ options)
    → let m : MountSpec = record {
      destination = destination;
      mount_type = mount_type;
      source = source;
      options = o ∷ options;
    } in
      set_fields (fields_of m) no_mount ≡ ok m
unfolding set_fields
set_fields-fields_of mount_type source destination o options h =
    let m₁ = record no_mount { mount_type = mount_type } in
    let m₂ = record m₁ { source = source } in
    let m₃ = record m₂ { destination = destination } in
    ground (
      arith,
      set_field_type mount_type no_mount,
      set_field_source source m₁,
      set_field_destination destination m₂,
      set_field_options (join (o ∷ options) b':') m₃,
      split-join o options b':' h,
    )

read-fields_of :
    (m : MountSpec) → All IsPlain (fields_of m) → read (join (fields_of m) b',') ≡ ok (fields_of m)
unfolding lit
read-fields_of m h = read-join _ _ _ h

-- A mount whose parts hold no comma, quote or line end, and with at least one option, none of which
-- holds a colon, is read back from its fields in one record.
pub parse_mount_flag-format :
    (mount_type source destination o : Text) (options : List Text)
    → IsPlain mount_type
    → IsPlain source
    → IsPlain destination
    → All IsPlain (o ∷ options)
    → All (Lacks b':') (o ∷ options)
    → let m : MountSpec = record {
      destination = destination;
      mount_type = mount_type;
      source = source;
      options = o ∷ options;
    } in
      parse_mount_flag (join (fields_of m) b',') ≡ ok m
unfolding parse_mount_flag
parse_mount_flag-format mount_type source destination o options t s d os h =
    let m : MountSpec = record {
      destination = destination;
      mount_type = mount_type;
      source = source;
      options = o ∷ options;
    } in
    rw (parse_mount_flag, read-fields_of m (fields_of-IsPlain m t s d os))
      (set_fields-fields_of mount_type source destination o options h)
