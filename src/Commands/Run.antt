-- ===== src/Commands/Run.antt =====
-- cmd/rcl/commands/run.go: `rcl run`. What `Run` calls of containerd, and the two functions of this
-- package that it calls, are fields of a runner; Commands/Client.antt fills those.
pub mod Lifecycle
pub mod Container
use containerd_attributes_cl.Base.{
  Text, ℕ, List, [], ◌∷◌, Option, none, some, Bool, true, false, not, ◌&&◌, if◌then◌else◌, ◌==◌,
  nat_eq, Error, exit_code, Result, ok, err, Done, Run, returns, panics, spins,
}
use containerd_attributes_cl.Base.Exec.{Exec}
use containerd_attributes_cl.Base.Proc.{Proc, ◌>>=◌, ◌>>◌, pure, raise, lift, drop_result, defer}

pub record RunOptions : Type 0 where
  pub address : Text
  pub id : Text
  pub reference : Text
  pub remove : Bool
  pub null_io : Bool
  pub log_uri : Text
  pub detach : Bool
  pub cgroup : Text
  pub platform : Text
  pub cni : Bool
  pub fifo_dir : Text
  pub mounts : List Text
  pub container_args : List Text
  pub tty : Bool
  pub debug : Bool
  pub plain_http : Bool
  pub skip_tls_verify : Bool
  pub fetch : Bool

-- `RunOptions.Complete`: `args[0]`, `args[1]` and `args[2:]`
unfoldable pub complete : RunOptions → List Text → Run RunOptions
complete o (reference ∷ id ∷ []) = returns (ok (record o { reference = reference; id = id }))
complete o (reference ∷ id ∷ a ∷ args) =
    returns (ok (record o { reference = reference; id = id; container_args = a ∷ args }))
complete o _ = panics

-- What a task is given for its input and output: whether the console, and the flags on it.
pub record TaskIo : Type 0 where
  pub console : Bool
  pub null_io : Bool
  pub log_uri : Text
  pub fifo_dir : Text

-- containerd.ExitStatus: its Result is a code and an error
pub record ExitStatus : Type 0 where
  pub code : ℕ
  pub failure : Option Error

pub record Runner : Type 1 where
  pub State : Type 0
  pub Container : Type 0
  pub Task : Type 0
  -- NewClient at the address, and the cancel function that it gives
  pub connect : Text → Exec State (Unit {0})
  pub cancel : State → State
  -- client.WithLease, and the done function that it gives
  pub with_lease : Exec State (Unit {0})
  pub release : State → State
  -- NewFetchConfig and Fetch, without the image; NewContainer
  pub fetch : Proc State (Unit {0})
  pub new_container : Proc State Container
  -- container.Delete with its snapshot
  pub delete_container : Container → Exec State (Unit {0})
  -- whether console.Current finds a console, its SetRaw, and its Reset
  pub has_console : State → Bool
  pub set_raw : Exec State (Unit {0})
  pub reset : State → State
  -- tasks.NewTask, and the methods of what it gives
  pub new_task : Container → TaskIo → Exec State Task
  pub wait : Task → Exec State (Unit {0})
  pub start : Task → Exec State (Unit {0})
  pub delete_task : Task → Exec State (Unit {0})
  -- tasks.HandleConsoleResize; commands.ForwardAllSignals and commands.StopCatch
  pub handle_resize : Task → Exec State (Unit {0})
  pub forward_signals : Task → State → State
  pub stop_catch : State → State
  -- what comes over the channel of task.Wait, if anything does
  pub receive : Task → State → Option ExitStatus × State

abbrev pub received : {S : Type 0} → Option ExitStatus × S → Run ExitStatus × S
received (some status, s) = (returns (ok status), s)
received (none, s) = (spins, s)

module _ (R : Runner) (o : RunOptions) where
  open R use {State, Container, Task}

  -- The end of `Run`: the exit status of the task.
  unfoldable pub finish : Task → Proc State (Unit {0})
  finish task = do
    status ← λ s. received (R.receive task s)
    elim status.failure [ none ↦ pure tt | some e ↦ raise e ]
    lift (R.delete_task task)
    if status.code == 0 then pure tt else raise (exit_code status.code)

  -- From the start of the task on; an error of the console's resizing is only logged.
  unfoldable pub attend : Task → Proc State (Unit {0})
  unfolding finish
  attend task s =
      if o.tty
      then finish task (drop_result (R.handle_resize task) s)
      else defer R.stop_catch (finish task) (R.forward_signals task s)

  unfoldable pub started : Task → Proc State (Unit {0})
  unfolding attend
  started task = do lift (R.start task); if o.detach then pure tt else attend task

  unfoldable pub with_task : Task → Proc State (Unit {0})
  unfolding started
  with_task task =
      if o.detach
      then started task
      else defer (drop_result (R.delete_task task)) (lift (R.wait task) >> started task)

  abbrev pub task_io : TaskIo
  task_io = record {
    console = o.tty;
    null_io = o.null_io;
    log_uri = o.log_uri;
    fifo_dir = o.fifo_dir;
  }

  unfoldable pub run_task : Container → Proc State (Unit {0})
  unfolding with_task
  run_task container = do task ← lift (R.new_task container task_io); with_task task

  -- console.Current panics if no stream is a console.
  unfoldable pub with_console : Container → Proc State (Unit {0})
  unfolding run_task
  with_console container s =
      if o.tty
      then (if R.has_console s
          then defer R.reset (lift R.set_raw >> run_task container) s
          else (panics, s))
      else run_task container s

  unfoldable pub with_container : Container → Proc State (Unit {0})
  unfolding with_console
  with_container container =
      if o.remove && not o.detach
      then defer (drop_result (R.delete_container container)) (with_console container)
      else with_console container

  -- The body of `Run` under the lease.
  unfoldable pub leased : Proc State (Unit {0})
  unfolding with_container
  leased = do
    if o.fetch then R.fetch else pure tt
    container ← R.new_container
    with_container container

  -- `RunOptions.Run`
  unfoldable pub run : Proc State (Unit {0})
  unfolding leased
  run = lift (R.connect o.address) >> defer R.cancel (lift R.with_lease >> defer R.release leased)
