-- ===== src/Tests/Together.antt =====
-- Runs of `rcl run` with an image in memory.
use containerd_attributes_cl.Base.{
  [], none, some, true, ok, returns, ◌≡◌, refl, text_eq, nat_eq, sentinel_eq,
}
use containerd_attributes_cl.Artifact.{apply_artifact_with_opts}
use containerd_attributes_cl.Image.{is_unpacked, unpack}
use containerd_attributes_cl.Commands.Run.{
  finish, attend, started, with_task, run_task, with_console, with_container, leased, run,
}
use containerd_attributes_cl.Commands.Run.Container.{
  snapshotter, container_opts, new_container, ensure_unpacked,
}
use containerd_attributes_cl.Commands.Fetch.{Registry, fetch, new_fetch_config}
use containerd_attributes_cl.Commands.Client.{Shell, runner_of}
use containerd_attributes_cl.Commands.Run.Lifecycle.Ending.{arrived}
use containerd_attributes_cl.Commands.Client.Together.{run_unpacked}
use containerd_attributes_cl.Tests.Memory.{
  memory, memory-IsLawful, memory-IsFresh, two_layers, client_of, client-KeepsSnapshots, chain_name,
  digests_valid,
}
use containerd_attributes_cl.Tests.Starting.{oci, daemon}
use containerd_attributes_cl.Tests.Running.{on_terminal}

abbrev registry : {S : Type 0} → Registry S
registry = record {
  Resolver = Unit {0};
  Matcher = Unit {0};
  Jobs = Unit {0};
  Image = Unit {0};
  new_resolver = λ o. tt;
  add_job = λ d jobs. tt;
  label_args = λ labels. [];
  trace = λ s. s;
  start_progress = λ output s. s;
  stop_progress = λ s. s;
  progress_closes = λ s. true;
  client_fetch = λ ref opts s. (ok tt, s);
}

-- A shell whose tasks end well at once.
abbrev shell : {S : Type 0} → Shell S (Unit {0})
shell = record {
  Task = Unit {0};
  connect = λ address s. (ok tt, s);
  cancel = λ s. s;
  with_lease = λ s. (ok tt, s);
  release = λ s. s;
  delete_container = λ c s. (ok tt, s);
  has_console = λ s. true;
  set_raw = λ s. (ok tt, s);
  reset = λ s. s;
  new_task = λ c io s. (ok tt, s);
  wait = λ t s. (ok tt, s);
  start = λ t s. (ok tt, s);
  delete_task = λ t s. (ok tt, s);
  handle_resize = λ t s. (ok tt, s);
  forward_signals = λ t s. s;
  stop_catch = λ s. s;
  receive = λ t s. (some (record { code = 0; failure = none }), s);
}

ran :
    (run (runner_of memory (daemon memory) oci registry shell 3 on_terminal) on_terminal []).0
    ≡ returns (ok tt)
unfolding run leased with_container with_console run_task with_task started attend finish fetch
    new_container ensure_unpacked is_unpacked unpack text_eq nat_eq sentinel_eq
    apply_artifact_with_opts chain_name new_fetch_config
ran = refl

run_unpacked_example :
    let found =
      arrived (runner_of memory (daemon memory) oci registry shell 3 on_terminal) on_terminal [] in
    (image : Unit {0}) × (c : Unit {0}) × ((daemon memory).get_image [] found ≡ ok image)
    × (let t = (ensure_unpacked memory (daemon memory) oci 3 image found).1 in
        (is_unpacked memory (client_of memory) (snapshotter memory (daemon memory) oci) t ≡ ok true)
        × (((daemon memory).create []
              (container_opts memory (daemon memory) oci on_terminal image)
              t).0
            ≡ ok c))
run_unpacked_example =
    run_unpacked memory (daemon memory) oci registry shell 3 on_terminal [] memory-IsLawful
      memory-IsFresh
      (λ image. (client-KeepsSnapshots, (two_layers, refl, (λ q. absurd (cc)), digests_valid))) ran
