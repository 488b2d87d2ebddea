-- ===== src/Tests/Running.antt =====
-- Runs of `rcl run` with a runner that counts the tasks that were started.
use containerd_attributes_cl.Base.{
  ℕ, suc, [], none, some, true, false, ok, returns, panics, ◌≡◌, refl, nat_eq,
}
use containerd_attributes_cl.Base.Proc.{ended}
use containerd_attributes_cl.Commands.Run.{
  Runner, RunOptions, finish, attend, started, with_task, run_task, with_console, with_container,
  leased, run,
}
use containerd_attributes_cl.Commands.Run.Lifecycle.{Held, held}
use containerd_attributes_cl.Commands.Run.Lifecycle.Protocol.{IsClean}
use containerd_attributes_cl.Commands.Run.Lifecycle.Success.{Achieved}
use containerd_attributes_cl.Commands.Run.Lifecycle.Outcome.{
  run_panics, Panicked, traced, run_protocol, run-IsClean, run-Achieved,
}

abbrev runner : Runner
runner = record {
  State = ℕ;
  Container = Unit {0};
  Task = Unit {0};
  connect = λ address s. (ok tt, s);
  cancel = λ s. s;
  with_lease = λ s. (ok tt, s);
  release = λ s. s;
  fetch = λ s. (returns (ok tt), s);
  new_container = λ s. (returns (ok tt), s);
  delete_container = λ c s. (ok tt, s);
  has_console = λ s. true;
  set_raw = λ s. (ok tt, s);
  reset = λ s. s;
  new_task = λ c io s. (ok tt, s);
  wait = λ t s. (ok tt, s);
  start = λ t s. (ok tt, suc s);
  delete_task = λ t s. (ok tt, s);
  handle_resize = λ t s. (ok tt, s);
  forward_signals = λ t s. s;
  stop_catch = λ s. s;
  receive = λ t s. (some (record { code = 0; failure = none }), s);
}

abbrev pub on_terminal : RunOptions
on_terminal = record {
  address = [];
  id = [];
  reference = [];
  remove = true;
  null_io = false;
  log_uri = [];
  detach = false;
  cgroup = [];
  platform = [];
  cni = false;
  fifo_dir = [];
  mounts = [];
  container_args = [];
  tty = true;
  debug = false;
  plain_http = false;
  skip_tls_verify = false;
  fetch = true;
}

run_protocol_example :
    ((traced runner on_terminal 3).0 ≡ (run runner on_terminal 3).0)
    × ((traced runner on_terminal 3).1.state ≡ (run runner on_terminal 3).1)
    × ((h : Held) × (held (traced runner on_terminal 3).1.log ≡ some h))
run_protocol_example = run_protocol runner on_terminal 3

ran_to_end : ended (run runner on_terminal 3).0 ≡ true
unfolding run leased with_container with_console run_task with_task started attend finish nat_eq
ran_to_end = refl

run-IsClean_example :
    (h : Held) × (held (traced runner on_terminal 3).1.log ≡ some h) × IsClean runner on_terminal h
run-IsClean_example = run-IsClean runner on_terminal 3 ran_to_end

ran_well : (run runner on_terminal 3).0 ≡ returns (ok tt)
unfolding run leased with_container with_console run_task with_task started attend finish nat_eq
ran_well = refl

run-Achieved_example : Achieved on_terminal (traced runner on_terminal 3).1.log
run-Achieved_example = run-Achieved runner on_terminal 3 ran_well

-- The same runner where no stream is a terminal.
abbrev without_console : Runner
without_console = record runner { has_console = λ s. false }

panicked : (run without_console on_terminal 3).0 ≡ panics
unfolding run leased with_container with_console run_task with_task started attend finish nat_eq
panicked = refl

run_panics_example : Panicked without_console on_terminal 3
run_panics_example = run_panics without_console on_terminal 3 panicked
