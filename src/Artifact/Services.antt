-- ===== src/Artifact/Services.antt =====
-- What aritfact/artifact.go calls, over one state: the snapshotter with the directories that it
-- mounts, and the source of randomness. No operation need succeed.
use containerd_attributes_cl.Base.{
  Text, List, All, none, after?, true, ◌≡◌, ◌≢◌, Error, is, already_exists, sentinel_eq, Result, ok,
  err, Done,
}
use containerd_attributes_cl.Content.{Descriptor}

pub record Backend : Type 1 where
  pub State : Type 0
  pub Mounts : Type 0
  pub Opt : Type 0
  pub ApplyOpt : Type 0
  -- sn.Stat, of which only the error is used
  pub stat : State → Text → Done
  -- sn.Prepare(key, parent, opts)
  pub prepare : Text → Text → List Opt → State → Result Mounts × State
  -- sn.Commit(name, key, opts)
  pub commit : Text → Text → List Opt → State → Done × State
  pub remove : Text → State → Done × State
  -- a.Apply(desc, mounts, opts)
  pub apply : Descriptor → Mounts → List ApplyOpt → State → Result Descriptor × State
  -- identity.ChainID
  pub chain_id : List Text → Text
  -- snapshots.UnpackKeyFormat at a unique part and a chain id
  pub unpack_key : Text → Text → Text
  -- uniquePart()
  pub unique_part : State → Text × State

-- The grammar of a digest, an algorithm and an encoding, has no space.
abbrev pub IsDigest : Text → Type 0
IsDigest d = after? d b' ' ≡ none

-- What is documented of a snapshotter: a commit makes the name known, and fails as "already exists"
-- only if it is known; removing an active snapshot forgets no committed one. Of digests a chain's
-- identifier is a digest, and a key for unpacking is none: its format has a space.
pub record IsLawful (B : Backend) : Type 0 where
  pub stat-commit :
      (name key : Text) (opts : List B.Opt) (s : B.State)
      → (B.commit name key opts s).0 ≡ ok tt
      → B.stat (B.commit name key opts s).1 name ≡ ok tt
  pub stat_of_exists :
      (name key : Text) (opts : List B.Opt) (s : B.State) (e : Error)
      → (B.commit name key opts s).0 ≡ err e
      → is already_exists e ≡ true
      → B.stat (B.commit name key opts s).1 name ≡ ok tt
  pub stat-remove :
      (name key : Text) (s : B.State)
      → name ≢ key
      → B.stat s name ≡ ok tt
      → B.stat (B.remove key s).1 name ≡ ok tt
  pub unpack_key-ne-chain_id :
      (unique id : Text) (ds : List Text) → All IsDigest ds → B.chain_id ds ≢ B.unpack_key unique id
