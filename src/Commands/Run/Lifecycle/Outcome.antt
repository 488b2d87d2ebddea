-- ===== src/Commands/Run/Lifecycle/Outcome.antt =====
-- `Run` as a path of the machine, and what its result says.
use containerd_attributes_cl.Base.{
  refl, false, panics, spins, none, inl, inr, ◌≢◌, ◌⊎◌, [], some, true, ok, Run, returns, ◌≡◌, ap,
  ◌∙◌,
}
use containerd_attributes_cl.Base.Proc.{ended}
use containerd_attributes_cl.Commands.Run.{Runner, RunOptions, run}
use containerd_attributes_cl.Commands.Run.Lifecycle.{Held, held, Logged, logged}
use containerd_attributes_cl.Commands.Run.Lifecycle.Protocol.{run-Holds, IsClean}
use containerd_attributes_cl.Commands.Run.Lifecycle.Erasure.{run-Same}
use containerd_attributes_cl.Commands.Run.Lifecycle.Success.{run-Good, Achieved}
use containerd_attributes_cl.Commands.Run.Lifecycle.Ending.{run-Ends, leased_at, arrived, made_at}

abbrev pub traced : (R : Runner) → RunOptions → R.State → Run (Unit {0}) × Logged R.State
traced R o s = run (logged R) o (record { state = s; log = [] })

-- Whatever containerd answers, a run that keeps a log of its calls gives the result and the state
-- that `Run` gives, and its log is a path of the machine from nothing held.
pub run_protocol :
    (R : Runner) (o : RunOptions) (s : R.State)
    → ((traced R o s).0 ≡ (run R o s).0)
      × ((traced R o s).1.state ≡ (run R o s).1)
      × ((h : Held) × (held (traced R o s).1.log ≡ some h))
run_protocol R o s =
    let same = (run-Same R o).same (record { state = s; log = [] }) in
    let (h, p, clean) = run-Holds R o s in (ap (λ x. x.0) same, ap (λ x. x.1) same, (h, p))

-- If `Run` ends, by returning a result or an error or by a panic, its calls have left no live
-- context, no lease, no raw console and no forwarded signals; unless it is to detach, it has asked for the
-- deletion of a task that was made, and, where the container is to be removed, of a container that
-- was made.
pub run-IsClean :
    (R : Runner) (o : RunOptions) (s : R.State)
    → ended (run R o s).0 ≡ true
    → (h : Held) × (held (traced R o s).1.log ≡ some h) × IsClean R o h
run-IsClean R o s ends =
    let (same, u, v) = run_protocol R o s in
    let (h, p, clean) = run-Holds R o s in (h, p, clean (ap ended same ∙ ends))

-- If `Run` returns no error, then either it was to detach and has started a task, or it was not, and a
-- status came from a task that has no failure and the code 0.
pub run-Achieved :
    (R : Runner) (o : RunOptions) (s : R.State)
    → (run R o s).0 ≡ returns (ok tt)
    → Achieved o (traced R o s).1.log
run-Achieved R o s good =
    let (same, u, v) = run_protocol R o s in
    run-Good R o (record { state = s; log = [] }) (same ∙ good)

-- The exit status of a task that is attended comes, and fetching and making a container end where the
-- run comes to them.
abbrev pub IsAnswered : (R : Runner) → RunOptions → R.State → Type 0
IsAnswered R o s =
    (o.detach ≡ false → (t : R.Task) (u : R.State) → (R.receive t u).0 ≢ none)
    × ((R.fetch (leased_at R o s)).0 ≢ spins)
    × ((R.new_container (arrived R o s)).0 ≢ spins)

-- If the exit status of a task that is attended comes, and `Fetch` and `NewContainer` end, then `Run`
-- ends.
pub run_ends :
    (R : Runner) (o : RunOptions) (s : R.State) → IsAnswered R o s → ended (run R o s).0 ≡ true
run_ends R o s answered =
    run-Ends R o s (λ r. ended r ≡ true)
      (record {
        returned = λ r. refl;
        unanswered = λ d t u never. absurd (answered.0 d t u never);
        no_console = λ tty none_. refl;
        container_panics = λ p. refl;
        container_spins = λ never. absurd (answered.2 never);
        fetch_panics = λ f p. refl;
        fetch_spins = λ f never. absurd (answered.1 never);
      })

-- The ways in which `Run` may panic, in the states that it comes to.
abbrev pub Panicked : (R : Runner) → RunOptions → R.State → Type 0
Panicked R o s =
    ((o.tty ≡ true) × (R.has_console (made_at R o s) ≡ false))
    ⊎ (((o.fetch ≡ true) × ((R.fetch (leased_at R o s)).0 ≡ panics))
        ⊎ ((R.new_container (arrived R o s)).0 ≡ panics))

-- `Run` panics only if it is to use a terminal and, after the container was made, none of its streams
-- is one, or if it is to fetch and `Fetch` panics under the lease, or if `NewContainer` panics where
-- the run has come to it.
pub run_panics :
    (R : Runner) (o : RunOptions) (s : R.State) → (run R o s).0 ≡ panics → Panicked R o s
run_panics R o s panicked =
    run-Ends R o s (λ r. r ≡ panics → Panicked R o s)
      (record {
        returned = λ r p. absurd (cc);
        unanswered = λ d t u never p. absurd (cc);
        no_console = λ tty none_ p. inl (tty, none_);
        container_panics = λ q p. inr (inr q);
        fetch_panics = λ f q p. inr (inl (f, q));
        fetch_spins = λ f q p. absurd (cc);
        container_spins = λ q p. absurd (cc);
      })
      panicked
