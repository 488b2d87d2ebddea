-- ===== src/Commands/Run/Lifecycle/Holding.antt =====
-- What a log of the calls of `Run` leads to.
use containerd_attributes_cl.Base.{
  List, ◌∷◌, Option, none, some, Bool, true, false, not, ◌||◌, Error, err, nat_eq, Run, returns,
  ◌≡◌, refl, arith,
}
use containerd_attributes_cl.Base.Proc.{Proc, pure, raise, ◌>>◌}
use containerd_attributes_cl.Commands.Run.{RunOptions, started}
use containerd_attributes_cl.Commands.Run.Lifecycle.{Event, Held, step, held, Logged}

-- What is held while `Run` has its container.
abbrev pub at : Bool → Bool → Bool → Bool → Bool → Bool → Held
at raw task waited started signals task_deleted = record {
  context = true;
  lease = true;
  container = true;
  raw = raw;
  task = task;
  waited = waited;
  started = started;
  signals = signals;
  container_deleted = false;
  task_deleted = task_deleted;
}

pub held-step :
    (e : Event) (log : List Event) (h h' : Held)
    → held log ≡ some h
    → step e h ≡ some h'
    → held (e ∷ log) ≡ some h'
unfolding held
held-step e log h h' p q = ground (arith, p, q)

-- The log leads from nothing to what is held.
abbrev pub Holds : {S : Type 0} → Logged S → Held → Type 0
Holds l h = held l.log ≡ some h

-- A task that was made is gone unless it was left to run.
abbrev pub TaskGone : RunOptions → Bool → Bool → Type 0
TaskGone o task deleted = o.detach || not task || deleted ≡ true

-- What is left when the function that has the lease ends.
abbrev pub IsSettled : RunOptions → Held → Type 0
IsSettled o h =
    (h.raw ≡ false)
    × (h.signals ≡ false)
    × TaskGone o h.task h.task_deleted
    × (not o.remove || o.detach || not h.container || h.container_deleted ≡ true)

-- The error that an exit status may have is what a run gives.
pub reported_cases :
    {S : Type 0} (Q : Run (Unit {0}) → S → Type 0) (failure : Option Error) (m : Proc S (Unit {0}))
    (s : S)
    → (failure ≡ none → Q (m s).0 (m s).1)
    → ((e : Error) → failure ≡ some e → Q (returns (err e)) s)
    → let r : Proc S (Unit {0}) = elim failure [ none ↦ pure tt | some e ↦ raise e ] in
      Q ((r >> m) s).0 ((r >> m) s).1
reported_cases Q none m s fine failed = fine refl
reported_cases Q (some e) m s fine failed = failed e refl
