-- ===== src/Commands/Client.antt =====
-- cmd/rcl/commands/run.go: `Run` with the `Fetch` of fetch.go and the `NewContainer` of run_unix.go.
pub mod Together
use containerd_attributes_cl.Base.{Text, ℕ, Bool, Option, Result, ok, Run, returns}
use containerd_attributes_cl.Base.Exec.{Exec}
use containerd_attributes_cl.Base.Proc.{Proc, ◌>>=◌, pure}
use containerd_attributes_cl.Artifact.Services.{Backend}
use containerd_attributes_cl.Commands.Run.{Runner, RunOptions, TaskIo, ExitStatus}
use containerd_attributes_cl.Commands.Run.Container.{Oci, Daemon, new_container}
use containerd_attributes_cl.Commands.Fetch.{Registry, new_fetch_config, fetch}

-- The rest of what `Run` calls: the client and its lease, tasks, and the console.
pub record Shell (State Container : Type 0) : Type 1 where
  pub Task : Type 0
  pub connect : Text → Exec State (Unit {0})
  pub cancel : State → State
  pub with_lease : Exec State (Unit {0})
  pub release : State → State
  pub delete_container : Container → Exec State (Unit {0})
  pub has_console : State → Bool
  pub set_raw : Exec State (Unit {0})
  pub reset : State → State
  pub new_task : Container → TaskIo → Exec State Task
  pub wait : Task → Exec State (Unit {0})
  pub start : Task → Exec State (Unit {0})
  pub delete_task : Task → Exec State (Unit {0})
  pub handle_resize : Task → Exec State (Unit {0})
  pub forward_signals : Task → State → State
  pub stop_catch : State → State
  pub receive : Task → State → Option ExitStatus × State

module _ (B : Backend) (D : Daemon B) (O : Oci) (G : Registry B.State)
    (S : Shell B.State D.Container) (fuel : ℕ) where
  -- `NewFetchConfig`, and `Fetch`, whose image is dropped
  abbrev pub fetch_reference : RunOptions → Proc B.State (Unit {0})
  fetch_reference o = fetch G o.reference (new_fetch_config G o) >>= λ _. pure tt

  abbrev pub runner_of : RunOptions → Runner
  runner_of o = record {
    State = B.State;
    Container = D.Container;
    Task = S.Task;
    connect = S.connect;
    cancel = S.cancel;
    with_lease = S.with_lease;
    release = S.release;
    fetch = fetch_reference o;
    new_container = new_container B D O fuel o;
    delete_container = S.delete_container;
    has_console = S.has_console;
    set_raw = S.set_raw;
    reset = S.reset;
    new_task = S.new_task;
    wait = S.wait;
    start = S.start;
    delete_task = S.delete_task;
    handle_resize = S.handle_resize;
    forward_signals = S.forward_signals;
    stop_catch = S.stop_catch;
    receive = S.receive;
  }
