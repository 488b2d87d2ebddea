-- ===== src/Commands/Run/Container.antt =====
-- cmd/rcl/commands/run_unix.go: `NewContainer`, and `withMounts` of run.go, over the image of
-- aritfact/image.go and the options of aritfact/options. The options of containerd's package oci, the
-- image store and client.NewContainer are parameters.
pub mod Unpacked
pub mod Command
use containerd_attributes_cl.Base.{
  Text, ℕ, lit, List, [], ◌∷◌, ◌++◌, Bool, true, false, not, if◌then◌else◌, is_empty, Error, Result,
  ok, err, Done, Run, returns, panics, spins,
}
use containerd_attributes_cl.Base.Exec.{Exec, reads}
use containerd_attributes_cl.Base.Proc.{Proc, ◌>>=◌, ◌>>◌, pure, lift}
use containerd_attributes_cl.Artifact.Services.{Backend}
use containerd_attributes_cl.Image.Client.{Services}
use containerd_attributes_cl.Image.{is_unpacked, unpack, config_from_attributes}
use containerd_attributes_cl.Options.Config.{Spec, UserOpts, no_items, with_image_config_args}
use containerd_attributes_cl.Commands.Mount.{MountSpec, parse_mount_flag}
use containerd_attributes_cl.Commands.Run.{RunOptions}

-- oci.SpecOpt
abbrev pub SpecOpt : Type 0
SpecOpt = Proc Spec (Unit {0})

-- What package oci gives.
pub record Oci : Type 0 where
  pub users : UserOpts
  pub with_default_spec : SpecOpt
  pub with_default_unix_devices : SpecOpt
  pub with_env_file : Text → SpecOpt
  pub with_env : List Text → SpecOpt
  pub with_mounts : List MountSpec → SpecOpt
  pub with_process_args : List Text → SpecOpt
  pub with_tty : SpecOpt
  pub with_cgroup : Text → SpecOpt

-- containerd.NewContainerOpts, as far as `NewContainer` makes them
pub data ContainerOpt (Image : Type 0) : Type 0 where
  with_snapshotter : Text → ContainerOpt Image
  with_new_snapshot : Text → Image → ContainerOpt Image
  with_image_stop_signal : Image → Text → ContainerOpt Image
  with_spec : List SpecOpt → ContainerOpt Image

-- The client: its image store, what aritfact.NewImage makes of an image, and client.NewContainer.
pub record Daemon (B : Backend) : Type 1 where
  pub Image : Type 0
  pub Container : Type 0
  pub services : Image → Services B
  pub get_image : Text → B.State → Result Image
  pub create : Text → List (ContainerOpt Image) → Exec B.State Container

-- The loop of `withMounts`, at the mounts that it has already.
pub parse_mounts : List Text → List MountSpec → Result (List MountSpec)
parse_mounts [] mounts = ok mounts
parse_mounts (flag ∷ flags) mounts = elim (parse_mount_flag flag) [
  | err e ↦ err e
  | ok m ↦ parse_mounts flags (mounts ++ m ∷ [])
]

abbrev added : Oci → Spec → Result (List MountSpec) → Run (Unit {0}) × Spec
added O s (ok mounts) = O.with_mounts mounts s
added O s (err e) = (returns (err e), s)

-- `withMounts`
unfoldable pub with_mounts : Oci → RunOptions → SpecOpt
unfolding parse_mounts
with_mounts O o s = added O s (parse_mounts o.mounts [])

-- Options that are appended under a condition.
abbrev pub when : {A : Type 0} → Bool → List A → List A
when true opts = opts
when false opts = []

module _ (B : Backend) (D : Daemon B) (O : Oci) where
  open B use {State}
  open D use {Image, Container}

  -- options.WithImageConfig: `WithImageConfigArgs` without arguments
  abbrev pub with_image_config : Image → SpecOpt
  with_image_config image s =
      with_image_config_args O.users (config_from_attributes B (D.services image)) [] s

  -- The options of the spec; `user`, `env_file` and `env` are declared and never set.
  unfoldable pub spec_opts : RunOptions → Image → List SpecOpt
  unfolding with_mounts
  spec_opts o image =
      let user : Text = [] in
      let env_file : Text = [] in
      let env : List Text = [] in
      let last =
        when o.tty (O.with_tty ∷ [])
        ++ when (not (is_empty o.cgroup)) (O.with_cgroup o.cgroup ∷ []) in
      let for_user =
        when (not (is_empty user))
          (lift (O.users.with_user user) ∷ lift (O.users.with_additional_gids user) ∷ []) in
      let own_args =
        when (not (no_items o.container_args)) (O.with_process_args o.container_args ∷ []) in
      let from_file = when (not (is_empty env_file)) (O.with_env_file env_file ∷ []) in
      O.with_default_spec
      ∷ O.with_default_unix_devices
      ∷ (from_file
          ++ (O.with_env env
              ∷ with_mounts O o
              ∷ with_image_config image
              ∷ (own_args ++ (for_user ++ last))))

  abbrev pub snapshotter : Text
  snapshotter = []

  unfoldable pub container_opts : RunOptions → Image → List (ContainerOpt Image)
  unfolding spec_opts lit
  container_opts o image =
      with_snapshotter snapshotter
      ∷ with_new_snapshot o.id image
      ∷ with_image_stop_signal image (lit "SIGTERM")
      ∷ with_spec (spec_opts o image)
      ∷ []

  -- An image that is not unpacked is unpacked; the fuel is that of `unpack`.
  unfoldable pub ensure_unpacked : ℕ → Image → Proc State (Unit {0})
  ensure_unpacked fuel image = do
    unpacked ← lift (reads (is_unpacked B (D.services image) snapshotter))
    if unpacked then pure tt else unpack B (D.services image) fuel snapshotter []

  -- `NewContainer`
  unfoldable pub new_container : ℕ → RunOptions → Proc State Container
  unfolding ensure_unpacked container_opts
  new_container fuel o = do
    image ← lift (reads (D.get_image o.reference))
    ensure_unpacked fuel image
    lift (D.create o.id (container_opts o image))
