-- ===== src/Commands/Run/Lifecycle/Ending.antt =====
-- How a run comes to an end, from how the calls that it makes do.
use containerd_attributes_cl.Base.{
  none, Bool, true, false, not, ◌&&◌, if◌then◌else◌, ◌==◌, nat_eq, Result, ok, err, Run, returns,
  panics, spins, ◌≡◌, refl, Option-cases, inl, inr, exit_code,
}
use containerd_attributes_cl.Base.Proc.{
  Proc, pure, raise, lift, bind_cases, lift_cases, defer_cases, if_cases, if_done_cases, defer,
  drop_result, ◌>>◌,
}
use containerd_attributes_cl.Commands.Run.{
  task_io, Runner, RunOptions, finish, attend, started, with_task, run_task, with_console,
  with_container, leased, run,
}
use containerd_attributes_cl.Commands.Run.Lifecycle.Holding.{reported_cases}

module _ (R : Runner) (o : RunOptions) (s : R.State) where
  -- The states that `Run` comes to, from its first on: with a lease, where `NewContainer` is called, and
  -- after that call.
  abbrev pub leased_at : R.State
  leased_at = (R.with_lease (R.connect o.address s).1).1

  abbrev pub arrived : R.State
  arrived = ((if o.fetch then R.fetch else pure tt) leased_at).1

  abbrev pub made_at : R.State
  made_at = (R.new_container arrived).1

  -- What a claim about the end of a run has to take in: every result, and each way that there is to
  -- panic or to wait for ever.
  pub record Covers (Q : Run (Unit {0}) → Type 0) : Type 0 where
    pub returned : (r : Result (Unit {0})) → Q (returns r)
    pub unanswered :
        o.detach ≡ false → (t : R.Task) (u : R.State) → (R.receive t u).0 ≡ none → Q spins
    pub no_console : o.tty ≡ true → R.has_console made_at ≡ false → Q panics
    pub fetch_panics : o.fetch ≡ true → (R.fetch leased_at).0 ≡ panics → Q panics
    pub fetch_spins : o.fetch ≡ true → (R.fetch leased_at).0 ≡ spins → Q spins
    pub container_panics : (R.new_container arrived).0 ≡ panics → Q panics
    pub container_spins : (R.new_container arrived).0 ≡ spins → Q spins

module _ (R : Runner) (o : RunOptions) (start : R.State) (Q : Run (Unit {0}) → Type 0)
    (covers : Covers R o start Q) where
  open covers use {
    returned, unanswered, no_console, fetch_panics, fetch_spins, container_panics, container_spins,
  }

  abbrev Ends : Run (Unit {0}) → R.State → Type 0
  Ends r s = Q r

  deferred :
      (f : R.State → R.State) (m : Proc R.State (Unit {0})) (s : R.State)
      → Ends (m s).0 (m s).1
      → Ends (defer f m s).0 (defer f m s).1
  deferred f m s p = defer_cases Ends f m s (λ e. p) (λ never. rw never at p)

  finish-Ends :
      o.detach ≡ false → (t : R.Task) (s : R.State) → Ends (finish R o t s).0 (finish R o t s).1
  unfolding finish
  finish-Ends d t s = elim (Option-cases (R.receive t s).0) [
    | inl never ↦ rw (finish, never) (unanswered d t s never)
    | inr (status, came) ↦
        let s₁ : R.State = (R.receive t s).1 in
        rw (finish, came)
          (reported_cases Ends status.failure _ s₁
            (λ _.
              lift_cases Ends (R.delete_task t) _ s₁
                (λ _ _.
                  if_cases Ends (status.code == 0) (pure tt) (raise (exit_code status.code))
                    (R.delete_task t s₁).1 (λ _. returned (ok tt))
                    (λ _. returned (err (exit_code status.code))))
                (λ f e. returned (err f)))
            (λ e _. returned (err e)))
  ]

  attend-Ends :
      o.detach ≡ false → (t : R.Task) (s : R.State) → Ends (attend R o t s).0 (attend R o t s).1
  unfolding attend
  attend-Ends d t s =
      if_done_cases Ends o.tty _ _ (λ _. finish-Ends d t (R.handle_resize t s).1)
        (λ _.
          deferred R.stop_catch (finish R o t) (R.forward_signals t s)
            (finish-Ends d t (R.forward_signals t s)))

  started-Ends : (t : R.Task) (s : R.State) → Ends (started R o t s).0 (started R o t s).1
  unfolding started
  started-Ends t s =
      lift_cases Ends (R.start t) _ s
        (λ _ _.
          if_cases Ends o.detach (pure tt) (attend R o t) (R.start t s).1 (λ _. returned (ok tt))
            (λ d. attend-Ends d t (R.start t s).1))
        (λ e _. returned (err e))

  with_task-Ends : (t : R.Task) (s : R.State) → Ends (with_task R o t s).0 (with_task R o t s).1
  unfolding with_task
  with_task-Ends t s =
      let waiting = lift (R.wait t) >> started R o t in
      if_cases Ends o.detach (started R o t) (defer (drop_result (R.delete_task t)) waiting) s
        (λ _. started-Ends t s)
        (λ _. deferred (drop_result (R.delete_task t)) waiting s (
          lift_cases Ends (R.wait t) _ s (λ _ _. started-Ends t (R.wait t s).1)
            (λ e _. returned (err e))))

  run_task-Ends : (c : R.Container) (s : R.State) → Ends (run_task R o c s).0 (run_task R o c s).1
  unfolding run_task
  run_task-Ends c s =
      lift_cases Ends (R.new_task c (task_io R o)) _ s
        (λ t _. with_task-Ends t (R.new_task c (task_io R o) s).1) (λ e _. returned (err e))

  with_console-Ends :
      (c : R.Container)
      → let s = made_at R o start in Ends (with_console R o c s).0 (with_console R o c s).1
  unfolding with_console
  with_console-Ends c =
      let s = made_at R o start in
      let body = lift R.set_raw >> run_task R o c in
      if_done_cases Ends o.tty _ _
        (λ tty.
          if_done_cases Ends (R.has_console s) _ _
            (λ _. deferred R.reset body s (
              lift_cases Ends R.set_raw _ s (λ _ _. run_task-Ends c (R.set_raw s).1)
                (λ e _. returned (err e))))
            (λ none_. no_console tty none_))
        (λ _. run_task-Ends c s)

  with_container-Ends :
      (c : R.Container)
      → let s = made_at R o start in Ends (with_container R o c s).0 (with_container R o c s).1
  unfolding with_container
  with_container-Ends c =
      let s = made_at R o start in
      let deletion = drop_result (R.delete_container c) in
      if_cases Ends (o.remove && not o.detach) (defer deletion (with_console R o c))
        (with_console R o c) s (λ _. deferred deletion (with_console R o c) s (with_console-Ends c))
        (λ _. with_console-Ends c)

  fetched_panics :
      (b : Bool)
      → (b ≡ true → (R.fetch (leased_at R o start)).0 ≡ panics → Q panics)
      → ((if b then R.fetch else pure tt) (leased_at R o start)).0 ≡ panics
      → Q panics
  fetched_panics true q p = q refl p
  fetched_panics false q p = absurd (cc)

  fetched_spins :
      (b : Bool)
      → (b ≡ true → (R.fetch (leased_at R o start)).0 ≡ spins → Q spins)
      → ((if b then R.fetch else pure tt) (leased_at R o start)).0 ≡ spins
      → Q spins
  fetched_spins true q p = q refl p
  fetched_spins false q p = absurd (cc)

  leased-Ends : let s = leased_at R o start in Ends (leased R o s).0 (leased R o s).1
  unfolding leased
  leased-Ends =
      let fetched : Proc R.State (Unit {0}) = if o.fetch then R.fetch else pure tt in
      bind_cases Ends fetched _ (leased_at R o start)
        (λ _ _.
          bind_cases Ends R.new_container (with_container R o) (arrived R o start)
            (λ c _. with_container-Ends c) (λ e _. returned (err e)) container_panics
            container_spins)
        (λ e _. returned (err e)) (fetched_panics o.fetch fetch_panics)
        (fetched_spins o.fetch fetch_spins)

  pub run-Ends : Ends (run R o start).0 (run R o start).1
  unfolding run
  run-Ends =
      let under_lease = defer R.release (leased R o) in
      let body = lift R.with_lease >> under_lease in
      lift_cases Ends (R.connect o.address) _ start
        (λ _ _.
          let s₁ : R.State = (R.connect o.address start).1 in
          deferred R.cancel body s₁ (
            lift_cases Ends R.with_lease _ s₁
              (λ _ _. deferred R.release (leased R o) (leased_at R o start) leased-Ends)
              (λ e _. returned (err e))))
        (λ e _. returned (err e))
