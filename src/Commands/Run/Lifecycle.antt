-- ===== src/Commands/Run/Lifecycle.antt =====
-- The calls that `Run` makes, as the steps of a machine that knows what is held.
pub mod Holding
pub mod Attend
pub mod Task
pub mod Container
pub mod Protocol
pub mod Erasure
pub mod Success
pub mod Ending
pub mod Outcome
use containerd_attributes_cl.Base.{
  List, [], ◌∷◌, Option, none, some, Bool, true, false, not, ◌&&◌, ◌||◌, if◌then◌else◌, Result, ok,
  err, Run, returns, panics, spins, ◌≡◌,
}
use containerd_attributes_cl.Base.Exec.{Exec}
use containerd_attributes_cl.Base.Proc.{Proc}
use containerd_attributes_cl.Commands.Run.{Runner, RunOptions, ExitStatus}

-- What succeeded, and what was given back; giving back counts whether or not it succeeds.
pub data Event : Type 0 where
  connect cancel lease release : Event
  make_container delete_container : Event
  make_raw reset : Event
  make_task wait start delete_task : Event
  -- the status that came over the channel of task.Wait
  exit : ExitStatus → Event
  forward_signals stop_catch : Event

pub record Held : Type 0 where
  pub context : Bool
  pub lease : Bool
  pub container : Bool
  pub raw : Bool
  pub task : Bool
  pub waited : Bool
  pub started : Bool
  pub signals : Bool
  -- whether deletion was asked for
  pub container_deleted : Bool
  pub task_deleted : Bool

abbrev pub nothing_held : Held
nothing_held = record {
  context = false;
  lease = false;
  container = false;
  raw = false;
  task = false;
  waited = false;
  started = false;
  signals = false;
  container_deleted = false;
  task_deleted = false;
}

abbrev allow : Bool → Held → Option Held
allow true h = some h
allow false h = none

-- One step: a lease under a live context, a container under a lease, a task of a container; a task is
-- started once and ends only after it was waited for and started; a container is deleted only when
-- its task is gone; the lease ends when no signals are forwarded and the console is as it was, and
-- the context last.
pub step : Event → Held → Option Held
step connect h = allow (not h.context) (record h { context = true })
step lease h = allow (h.context && not h.lease) (record h { lease = true })
step make_container h = allow (h.lease && not h.container) (record h { container = true })
step make_raw h = allow (h.container && not h.raw && not h.task) (record h { raw = true })
step make_task h = allow (h.container && not h.task) (record h { task = true })
step wait h = allow (h.task && not h.started && not h.task_deleted) (record h { waited = true })
step start h = allow (h.task && not h.started && not h.task_deleted) (record h { started = true })
step forward_signals h = allow (h.started && not h.signals) (record h { signals = true })
step (exit status) h = allow (h.waited && h.started && not h.task_deleted) h
step stop_catch h = allow h.signals (record h { signals = false })
step delete_task h = allow h.task (record h { task_deleted = true })
step reset h = allow (h.container && not h.signals) (record h { raw = false })
step delete_container h =
    allow (h.container && not h.container_deleted && (not h.task || h.task_deleted))
      (record h { container_deleted = true })
step release h = allow (h.lease && not h.raw && not h.signals) (record h { lease = false })
step cancel h = allow (h.context && not h.lease) (record h { context = false })

-- The log of the calls, the last one first.
pub held : List Event → Option Held
unfolding step
held [] = some nothing_held
held (e ∷ log) = elim (held log) [ some h ↦ step e h | none ↦ none ]

pub record Logged (S : Type 0) : Type 0 where
  pub state : S
  pub log : List Event

abbrev noted : {A : Type 0} → Event → Result A → List Event → List Event
noted e (ok a) log = e ∷ log
noted e (err f) log = log

-- A call that is noted if it succeeds.
abbrev on_success : {S A : Type 0} → Event → Exec S A → Exec (Logged S) A
on_success e m l = let (r, s) = m l.state in (r, record { state = s; log = noted e r l.log })

-- A call that is noted.
abbrev always : {S : Type 0} → Event → (S → S) → Logged S → Logged S
always e f l = record { state = f l.state; log = e ∷ l.log }

abbrev always_exec : {S A : Type 0} → Event → Exec S A → Exec (Logged S) A
always_exec e m l = let (r, s) = m l.state in (r, record { state = s; log = e ∷ l.log })

-- A call that is not noted.
abbrev silent : {S A : Type 0} → Exec S A → Exec (Logged S) A
silent m l = let (r, s) = m l.state in (r, record { state = s; log = l.log })

abbrev silent_proc : {S A : Type 0} → Proc S A → Proc (Logged S) A
silent_proc m l = let (r, s) = m l.state in (r, record { state = s; log = l.log })

abbrev noted_run : {A : Type 0} → Event → Run A → List Event → List Event
noted_run e (returns r) log = noted e r log
noted_run e panics log = log
noted_run e spins log = log

abbrev proc_on_success : {S A : Type 0} → Event → Proc S A → Proc (Logged S) A
proc_on_success e m l =
    let (r, s) = m l.state in (r, record { state = s; log = noted_run e r l.log })

abbrev noted_status : Option ExitStatus → List Event → List Event
noted_status none log = log
noted_status (some status) log = exit status ∷ log

-- The runner that keeps a log beside the state, and does the same.
abbrev pub logged : Runner → Runner
logged R = record {
  State = Logged R.State;
  Container = R.Container;
  Task = R.Task;
  connect = λ address. on_success connect (R.connect address);
  cancel = always cancel R.cancel;
  with_lease = on_success lease R.with_lease;
  release = always release R.release;
  fetch = silent_proc R.fetch;
  new_container = proc_on_success make_container R.new_container;
  delete_container = λ c. always_exec delete_container (R.delete_container c);
  has_console = λ l. R.has_console l.state;
  set_raw = on_success make_raw R.set_raw;
  reset = always reset R.reset;
  new_task = λ c io. on_success make_task (R.new_task c io);
  wait = λ t. on_success wait (R.wait t);
  start = λ t. on_success start (R.start t);
  delete_task = λ t. always_exec delete_task (R.delete_task t);
  handle_resize = λ t. silent (R.handle_resize t);
  forward_signals = λ t. always forward_signals (R.forward_signals t);
  stop_catch = always stop_catch R.stop_catch;
  receive = λ t l.
      let (status, s) = R.receive t l.state in
      (status, record { state = s; log = noted_status status l.log });
}
