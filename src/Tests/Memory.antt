-- ===== src/Tests/Memory.antt =====
-- A snapshotter that keeps the names of its committed snapshots in a list, and an image over it.
use containerd_attributes_cl.Base.{
  Text, ℕ, zero, suc, ◌≤◌, List, [], ◌∷◌, ◌++◌, none, Bool, true, false, if◌then◌else◌, ◌==◌,
  text_eq, nat_eq, Error, sentinel, not_found, already_exists, sentinel_eq, Result, ok, err, Done,
  ◌≡◌, refl, arith, All, after?,
}
use containerd_attributes_cl.Content.{Descriptor, no_descriptor}
use containerd_attributes_cl.Artifact.{Artifact}
use containerd_attributes_cl.Artifact.Services.{Backend, IsLawful, IsDigest}
use containerd_attributes_cl.Artifact.Committed.{IsFresh}
use containerd_attributes_cl.Artifact.Settles.{Collisions}
use containerd_attributes_cl.Image.Client.{Manifest, Services, KeepsSnapshots}

abbrev pub has : Text → List Text → Bool
has name [] = false
has name (n ∷ names) = if n == name then true else has name names

abbrev pub stat_names : List Text → Text → Done
stat_names s name = if has name s then ok tt else err (sentinel not_found)

abbrev commit_name : Text → List Text → Done × List Text
commit_name name s = if has name s then (err (sentinel already_exists), s) else (ok tt, name ∷ s)

-- The first key that is drawn is taken.
abbrev prepare_key : Text → Text → List Text → Result (Unit {0}) × List Text
prepare_key key parent s =
    if has key s then (ok tt, s) else (err (sentinel already_exists), key ∷ s)

-- The identifier of a chain of one digest is that digest.
pub chain_from : Text → List Text → Text
chain_from d [] = d
chain_from d (e ∷ ds) = chain_from (b'h' ∷ d ++ e) ds

unfoldable pub chain_name : List Text → Text
unfolding chain_from
chain_name [] = []
chain_name (d ∷ ds) = chain_from d ds

-- A key has a space, as in snapshots.UnpackKeyFormat.
abbrev key_of : Text → Text → Text
key_of unique id = b'e' ∷ b' ' ∷ unique ++ id

abbrev pub memory : Backend
memory = record {
  State = List Text;
  Mounts = Unit {0};
  Opt = Unit {0};
  ApplyOpt = Unit {0};
  stat = stat_names;
  prepare = λ key parent opts s. prepare_key key parent s;
  commit = λ name key opts s. commit_name name s;
  remove = λ key s. (ok tt, s);
  apply = λ d m opts s. (ok d, s);
  chain_id = chain_name;
  unpack_key = key_of;
  unique_part = λ s. ([], s);
}

stat-commit_name :
    (name : Text) (s : List Text)
    → (commit_name name s).0 ≡ ok tt
    → stat_names (commit_name name s).1 name ≡ ok tt
stat-commit_name name s h = ground arith

stat_of_exists_name :
    (name : Text) (s : List Text) (e : Error)
    → (commit_name name s).0 ≡ err e
    → stat_names (commit_name name s).1 name ≡ ok tt
stat_of_exists_name name s e h = ground arith

append-IsDigest : (d e : Text) → IsDigest d → IsDigest e → IsDigest (d ++ e)
unfolding after?
append-IsDigest [] e p q = q
append-IsDigest (c ∷ d) e p q = ground (arith, p, append-IsDigest d e, q)

chain_from-IsDigest :
    (d : Text) (ds : List Text) → IsDigest d → All IsDigest ds → IsDigest (chain_from d ds)
unfolding chain_from after?
chain_from-IsDigest d [] p h = p
chain_from-IsDigest d (e ∷ ds) p (q, h) =
    chain_from-IsDigest (b'h' ∷ d ++ e) ds (ground (arith, append-IsDigest d e p q)) h

chain_name-IsDigest : (ds : List Text) → All IsDigest ds → IsDigest (chain_name ds)
unfolding chain_name after?
chain_name-IsDigest [] h = refl
chain_name-IsDigest (d ∷ ds) (p, h) = chain_from-IsDigest d ds p h

key_of_spaced : (unique id : Text) → IsDigest (key_of unique id) → ⊥
unfolding after? nat_eq
key_of_spaced unique id p = absurd (cc)

pub memory-IsLawful : IsLawful memory
memory-IsLawful = record {
  stat-commit = λ name key opts s h. stat-commit_name name s h;
  stat_of_exists = λ name key opts s e h k. stat_of_exists_name name s e h;
  stat-remove = λ name key s n h. h;
  unpack_key-ne-chain_id =
      λ unique id ds h p. key_of_spaced unique id (rw (← p) (chain_name-IsDigest ds h));
}

pub memory-IsFresh : IsFresh memory
memory-IsFresh d m opts s e h = cc

abbrev pub lower : Text
lower = b'a' ∷ []

abbrev pub upper : Text
upper = b'b' ∷ []

abbrev pub layer : Text → Descriptor
layer digest = record no_descriptor { digest = digest }

abbrev pub artifact : Text → Artifact
artifact digest = record { blob = layer digest }

abbrev pub two_layers : Manifest
two_layers = record {
  config = layer (b'k' ∷ []);
  layers = layer lower ∷ layer upper ∷ [];
  annotations = none;
}

pub digests_valid : All IsDigest (lower ∷ upper ∷ [])
unfolding after? nat_eq
digests_valid = (refl, (refl, tt))

abbrev pub client_of : (B : Backend) → Services B
client_of B = record {
  manifest = ok two_layers;
  config = ok (layer (b'k' ∷ []));
  default_label = ok [];
  default_snapshotter = b'o' ∷ [];
  has_service = λ name. name == (b'o' ∷ []);
  supported_platforms = λ name. ok (λ p. true);
  read_blob = λ d. ok [];
  unmarshal_image = λ p. err (sentinel not_found);
  normalize = λ p. p;
  marshal = λ m. ok [];
  digest_of = λ bytes. bytes;
  runtime_info = λ id d. ok none;
  with_lease = λ s. (ok tt, s);
  release = λ s. s;
  update_label = λ digest label value s. (ok tt, s);
}

abbrev pub client : Services memory
client = client_of memory

pub client-KeepsSnapshots : KeepsSnapshots memory client
client-KeepsSnapshots = record {
  stat-update_label = λ digest label value name s h. h;
  stat-release = λ name s h. h;
}

-- A snapshotter whose state is how many of the keys that are drawn next are taken.
abbrev pub draw : ℕ → Result (Unit {0}) × ℕ
draw zero = (ok tt, zero)
draw (suc n) = (err (sentinel already_exists), n)

abbrev pub colliding : Backend
colliding = record {
  State = ℕ;
  Mounts = Unit {0};
  Opt = Unit {0};
  ApplyOpt = Unit {0};
  stat = λ s name. err (sentinel not_found);
  prepare = λ key parent opts s. draw s;
  commit = λ name key opts s. (ok tt, s);
  remove = λ key s. (ok tt, s);
  apply = λ d m opts s. (ok d, s);
  chain_id = chain_name;
  unpack_key = key_of;
  unique_part = λ s. ([], s);
}

pub same-le : (s : ℕ) → s ≤ s
same-le s = omega arith

pub draw-le : (s : ℕ) → (draw s).1 ≤ s
draw-le zero = omega arith
draw-le (suc n) = omega arith

pub draw_falls : (s : ℕ) (e : Error) → (draw s).0 ≡ err e → suc (draw s).1 ≤ s
draw_falls zero e h = absurd (cc)
draw_falls (suc n) e h = omega arith

unfoldable pub colliding-Collisions : Collisions colliding
colliding-Collisions = record {
  left = λ s. s;
  left-unique_part = λ s. same-le s;
  left-prepare = λ key parent opts s. draw-le s;
  left_falls = λ key parent opts s e h k. draw_falls s e h;
  left-commit = λ name key opts s. same-le s;
  left-remove = λ key s. same-le s;
  left-apply = λ d m opts s. same-le s;
}
