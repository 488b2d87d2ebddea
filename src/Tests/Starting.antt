-- ===== src/Tests/Starting.antt =====
-- Containers that `NewContainer` makes of the images in memory.
use containerd_attributes_cl.Base.{
  Text, lit, List, [], ◌∷◌, ◌++◌, none, some, true, false, if◌then◌else◌, ok, returns, ◌≡◌, refl,
  text_eq, nat_eq, sentinel_eq,
}
use containerd_attributes_cl.Artifact.Services.{Backend}
use containerd_attributes_cl.Image.{config_from_attributes, no_config}
use containerd_attributes_cl.Options.Config.{
  Spec, no_items, process_or_empty, with_image_config_args,
}
use containerd_attributes_cl.Commands.Run.{RunOptions}
use containerd_attributes_cl.Commands.Run.Container.{Oci, Daemon, SpecOpt, with_mounts, spec_opts}
use containerd_attributes_cl.Commands.Run.Container.Command.{
  IsLawfulOci, in_order, args_of, args-spec_opts,
}
use containerd_attributes_cl.Tests.Memory.{memory, client_of}
use containerd_attributes_cl.Tests.Settings.{user_opts, user_opts-SetsUserOnly}
use containerd_attributes_cl.Tests.Running.{on_terminal}

abbrev leave : SpecOpt
leave s = (returns (ok tt), s)

abbrev with_args : List Text → Spec → Spec
with_args args s = record s { process = some (record (process_or_empty s.process) { args = args }) }

abbrev pub oci : Oci
oci = record {
  users = user_opts;
  with_default_spec = λ s. (returns (ok tt), record s { linux = true });
  with_default_unix_devices = leave;
  with_env_file = λ path. leave;
  with_env = λ env. leave;
  with_mounts = λ mounts. leave;
  with_process_args = λ args s. (returns (ok tt), with_args args s);
  with_tty = leave;
  with_cgroup = λ path. leave;
}

oci-IsLawfulOci : IsLawfulOci oci
oci-IsLawfulOci = record {
  users-SetsUserOnly = user_opts-SetsUserOnly;
  with_default_spec-linux = λ s p e. refl;
  with_default_unix_devices-linux = λ s p e. p;
  with_env-linux = λ env s p e. p;
  with_mounts-linux = λ mounts s p e. p;
  with_process_args-args = λ args s p e. refl;
  with_tty-args = λ args s p e. p;
  with_cgroup-args = λ path args s p e. p;
}

-- A client that has one image.
abbrev pub daemon : (B : Backend) → Daemon B
daemon B = record {
  Image = Unit {0};
  Container = Unit {0};
  services = λ image. client_of B;
  get_image = λ reference s. ok tt;
  create = λ id opts s. (ok tt, s);
}

abbrev echoing : RunOptions
echoing = record on_terminal { container_args = lit "echo" ∷ [] }

configured : config_from_attributes memory (client_of memory) ≡ ok no_config
unfolding config_from_attributes lit
configured = refl

abbrev plain_spec : Spec
plain_spec = record { linux = false; windows = false; process = none }

all_applied :
    (in_order (spec_opts memory (daemon memory) oci echoing tt) plain_spec).0 ≡ returns (ok tt)
unfolding in_order spec_opts with_mounts with_image_config_args config_from_attributes lit
all_applied = refl

args-spec_opts_example :
    args_of (in_order (spec_opts memory (daemon memory) oci echoing tt) plain_spec).1 ≡ (
      if no_items (lit "echo" ∷ []) then no_config.entrypoint ++ no_config.cmd else lit "echo" ∷ [])
args-spec_opts_example =
    args-spec_opts memory (daemon memory) oci oci-IsLawfulOci echoing tt no_config plain_spec
      configured all_applied
