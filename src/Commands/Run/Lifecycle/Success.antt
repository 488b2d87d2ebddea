-- ===== src/Commands/Run/Lifecycle/Success.antt =====
-- What a run without an error has done.
use mathlib.Core.List.{Mem, mem-cons_self, mem-cons_of_mem}
use containerd_attributes_cl.Base.{
  List, ◌∷◌, none, true, false, not, ◌&&◌, if◌then◌else◌, ok, ◌==◌, nat_eq, Run, returns, ◌≡◌, ◌⊎◌,
  arith, Option-cases, inl, inr, exit_code,
}
use containerd_attributes_cl.Base.Proc.{
  pure, raise, lift, bind_cases, lift_cases, defer_cases, if_cases, if_done_cases, defer,
  drop_result, ◌>>◌,
}
use containerd_attributes_cl.Commands.Run.{
  task_io, Runner, RunOptions, ExitStatus, finish, attend, started, with_task, run_task,
  with_console, with_container, leased, run,
}
use containerd_attributes_cl.Commands.Run.Lifecycle.{
  Event, cancel, release, delete_container, reset, start, exit, delete_task, stop_catch, Logged,
  logged,
}
use containerd_attributes_cl.Commands.Run.Lifecycle.Holding.{reported_cases}

-- A task that ended well.
abbrev pub ExitedWell : List Event → Type 0
ExitedWell log =
    (status : ExitStatus) × (status.failure ≡ none) × (status.code ≡ 0) × Mem (exit status) log

-- A task that was started and left to run, or that ended well.
abbrev pub Achieved : RunOptions → List Event → Type 0
Achieved o log = ((o.detach ≡ true) × Mem start log) ⊎ ((o.detach ≡ false) × ExitedWell log)

later : (o : RunOptions) (e : Event) (log : List Event) → Achieved o log → Achieved o (e ∷ log)
later o e log (inl (d, m)) = inl (d, mem-cons_of_mem e m)
later o e log (inr (d, (status, fine, zero_, m))) =
    inr (d, (status, fine, zero_, mem-cons_of_mem e m))

module _ (R : Runner) (o : RunOptions) where
  abbrev L : Runner
  L = logged R

  abbrev Log : Type 0
  Log = Logged R.State

  abbrev Good : Run (Unit {0}) → Log → Type 0
  Good r l = r ≡ returns (ok tt) → Achieved o l.log

  finish-Good :
      (t : R.Task) (l : Log) → o.detach ≡ false → Good (finish L o t l).0 (finish L o t l).1
  unfolding finish
  finish-Good t l d = elim (Option-cases (R.receive t l.state).0) [
    | inl never ↦ rw (finish, never) (λ e. absurd (cc))
    | inr (status, came) ↦
        let l₁ : Log = record { state = (R.receive t l.state).1; log = exit status ∷ l.log } in
        rw (finish, came)
          (reported_cases Good status.failure _ l₁
            (λ fine.
              lift_cases Good (L.delete_task t) _ l₁
                (λ _ e.
                  if_cases Good (status.code == 0) (pure tt) (raise (exit_code status.code))
                    (L.delete_task t l₁).1
                    (λ z f.
                      later o delete_task l₁.log
                        (inr (d, (status, fine, ground (arith, z), mem-cons_self))))
                    (λ z f. absurd (cc)))
                (λ f e g. absurd (cc)))
            (λ e _ f. absurd (cc)))
  ]

  attend-Good :
      (t : R.Task) (l : Log) → o.detach ≡ false → Good (attend L o t l).0 (attend L o t l).1
  unfolding attend
  attend-Good t l d =
      if_done_cases Good o.tty _ _ (λ _. finish-Good t (L.handle_resize t l).1 d)
        (λ _.
          let l₁ : Log = L.forward_signals t l in
          defer_cases Good L.stop_catch (finish L o t) l₁
            (λ _ f. later o stop_catch (finish L o t l₁).1.log (finish-Good t l₁ d f))
            (λ _ f. absurd (cc)))

  started-Good : (t : R.Task) (l : Log) → Good (started L o t l).0 (started L o t l).1
  unfolding started
  started-Good t l =
      lift_cases Good (L.start t) _ l
        (λ _ e.
          let begun : Mem start (L.start t l).1.log = rw e mem-cons_self in
          if_cases Good o.detach (pure tt) (attend L o t) (L.start t l).1 (λ d f. inl (d, begun))
            (λ d. attend-Good t (L.start t l).1 d))
        (λ e _ f. absurd (cc))

  with_task-Good : (t : R.Task) (l : Log) → Good (with_task L o t l).0 (with_task L o t l).1
  unfolding with_task
  with_task-Good t l =
      let waiting = lift (L.wait t) >> started L o t in
      if_cases Good o.detach (started L o t) (defer (drop_result (L.delete_task t)) waiting) l
        (λ _. started-Good t l)
        (λ _.
          defer_cases Good (drop_result (L.delete_task t)) waiting l
            (λ _ f. later o delete_task (waiting l).1.log (
              lift_cases Good (L.wait t) _ l (λ _ _. started-Good t (L.wait t l).1)
                (λ e _ g. absurd (cc)) f))
            (λ _ f. absurd (cc)))

  run_task-Good : (c : R.Container) (l : Log) → Good (run_task L o c l).0 (run_task L o c l).1
  unfolding run_task
  run_task-Good c l =
      lift_cases Good (L.new_task c (task_io L o)) _ l
        (λ t _. with_task-Good t (L.new_task c (task_io L o) l).1) (λ e _ f. absurd (cc))

  with_console-Good :
      (c : R.Container) (l : Log) → Good (with_console L o c l).0 (with_console L o c l).1
  unfolding with_console
  with_console-Good c l =
      let body = lift L.set_raw >> run_task L o c in
      if_done_cases Good o.tty _ _
        (λ _.
          if_done_cases Good (L.has_console l) _ _
            (λ _.
              defer_cases Good L.reset body l
                (λ _ f. later o reset (body l).1.log (
                  lift_cases Good L.set_raw _ l (λ _ _. run_task-Good c (L.set_raw l).1)
                    (λ e _ g. absurd (cc)) f))
                (λ _ f. absurd (cc)))
            (λ _ f. absurd (cc)))
        (λ _. run_task-Good c l)

  with_container-Good :
      (c : R.Container) (l : Log) → Good (with_container L o c l).0 (with_container L o c l).1
  unfolding with_container
  with_container-Good c l =
      let deferred = drop_result (L.delete_container c) in
      if_cases Good (o.remove && not o.detach) (defer deferred (with_console L o c))
        (with_console L o c) l
        (λ _.
          defer_cases Good deferred (with_console L o c) l
            (λ _ f. later o delete_container (with_console L o c l).1.log (with_console-Good c l f))
            (λ _ f. absurd (cc)))
        (λ _. with_console-Good c l)

  leased-Good : (l : Log) → Good (leased L o l).0 (leased L o l).1
  unfolding leased
  leased-Good l =
      let fetched = if o.fetch then L.fetch else pure tt in
      bind_cases Good fetched _ l
        (λ _ _.
          bind_cases Good L.new_container _ (fetched l).1
            (λ c _. with_container-Good c (L.new_container (fetched l).1).1) (λ e _ f. absurd (cc))
            (λ _ f. absurd (cc)) (λ _ f. absurd (cc)))
        (λ e _ f. absurd (cc)) (λ _ f. absurd (cc)) (λ _ f. absurd (cc))

  pub run-Good : (l : Log) → Good (run L o l).0 (run L o l).1
  unfolding run
  run-Good l =
      let under_lease = defer L.release (leased L o) in
      let body = lift L.with_lease >> under_lease in
      lift_cases Good (L.connect o.address) _ l
        (λ _ _.
          let l₁ : Log = (L.connect o.address l).1 in
          defer_cases Good L.cancel body l₁
            (λ _ f. later o cancel (body l₁).1.log (
              lift_cases Good L.with_lease _ l₁
                (λ _ _.
                  let l₂ : Log = (L.with_lease l₁).1 in
                  defer_cases Good L.release (leased L o) l₂
                    (λ _ g. later o release (leased L o l₂).1.log (leased-Good l₂ g))
                    (λ _ g. absurd (cc)))
                (λ e _ g. absurd (cc)) f))
            (λ _ f. absurd (cc)))
        (λ e _ f. absurd (cc))
