-- ===== src/Commands/Run/Lifecycle/Task.antt =====
-- The calls of `Run` on a task.
use containerd_attributes_cl.Base.{Bool, true, false, ◌||◌, nat_eq, Run, ◌≡◌, refl, arith}
use containerd_attributes_cl.Base.Proc.{
  lift, ended, lift_cases, defer_cases, if_cases, defer, drop_result, ◌>>◌,
}
use containerd_attributes_cl.Commands.Run.{
  task_io, Runner, RunOptions, started, with_task, run_task,
}
use containerd_attributes_cl.Commands.Run.Lifecycle.{
  make_task, wait, delete_task, step, Logged, logged,
}
use containerd_attributes_cl.Commands.Run.Lifecycle.Holding.{at, held-step, Holds, TaskGone}
use containerd_attributes_cl.Commands.Run.Lifecycle.Attend.{started-Holds}

module _ (R : Runner) (o : RunOptions) where
  abbrev L : Runner
  L = logged R

  abbrev Log : Type 0
  Log = Logged R.State

  abbrev WithTask : Bool → Run (Unit {0}) → Log → Type 0
  WithTask raw r l =
      (w : Bool) × (s : Bool) × (g : Bool) × (b : Bool) × Holds l (at raw true w s g b)
      × (ended r ≡ true → (g ≡ false) × (o.detach || b ≡ true))

  -- Waited for and started, before the deferred deletion.
  abbrev Waited : Bool → Run (Unit {0}) → Log → Type 0
  Waited raw r l =
      (w : Bool) × (s : Bool) × (g : Bool) × (b : Bool) × Holds l (at raw true w s g b)
      × (ended r ≡ true → g ≡ false)

  wait-Holds :
      (raw : Bool) (t : R.Task) (l : Log)
      → Holds l (at raw true false false false false)
      → Waited raw ((lift (L.wait t) >> started L o t) l).0 ((lift (L.wait t) >> started L o t) l).1
  unfolding step
  wait-Holds raw t l p =
      let h = at raw true false false false false in
      lift_cases (Waited raw) (L.wait t) _ l
        (λ _ e.
          let waits : Holds (L.wait t l).1 (at raw true true false false false) =
            rw e (held-step wait l.log h _ p refl) in
          let (s, g, b, q, quiet) =
            started-Holds R o raw true t (L.wait t l).1 (ground arith) waits in
          (true, s, g, b, q, quiet))
        (λ f e. (false, false, false, false, rw e p, λ f. refl))

  with_task-Holds :
      (raw : Bool) (t : R.Task) (l : Log)
      → Holds l (at raw true false false false false)
      → WithTask raw (with_task L o t l).0 (with_task L o t l).1
  unfolding with_task step
  with_task-Holds raw t l p =
      let h = at raw true false false false false in
      if_cases (WithTask raw) o.detach (started L o t)
        (defer (drop_result (L.delete_task t)) (lift (L.wait t) >> started L o t)) l
        (λ d.
          let (s, g, b, q, quiet) = started-Holds R o raw false t l (ground (arith, d)) p in
          (false, s, g, b, q, λ e. (quiet e, ground (arith, d))))
        (λ d.
          defer_cases (WithTask raw) (drop_result (L.delete_task t))
            (lift (L.wait t) >> started L o t) l
            (λ e.
              let (w, s, g, b, q, quiet) = wait-Holds raw t l p in
              (w, s, g, true, held-step delete_task _ _ _ q refl, λ f. (quiet f, ground arith)))
            (λ e.
              let (w, s, g, b, q, quiet) = wait-Holds raw t l p in
              (w, s, g, b, q, λ f. absurd (cc))))

  abbrev pub TaskRun : Bool → Run (Unit {0}) → Log → Type 0
  TaskRun raw r l =
      (k : Bool) × (w : Bool) × (s : Bool) × (g : Bool) × (b : Bool) × Holds l (at raw k w s g b)
      × (ended r ≡ true → (g ≡ false) × TaskGone o k b)

  pub run_task-Holds :
      (raw : Bool) (c : R.Container) (l : Log)
      → Holds l (at raw false false false false false)
      → TaskRun raw (run_task L o c l).0 (run_task L o c l).1
  unfolding run_task step
  run_task-Holds raw c l p =
      let h = at raw false false false false false in
      lift_cases (TaskRun raw) (L.new_task c (task_io L o)) _ l
        (λ t e.
          let made : Holds (L.new_task c (task_io L o) l).1 (at raw true false false false false) =
            rw e (held-step make_task l.log h _ p refl) in
          let (w, s, g, b, q, quiet) =
            with_task-Holds raw t (L.new_task c (task_io L o) l).1 made in
          (true, w, s, g, b, q, λ f. (let (u, v) = quiet f in (u, ground (arith, v)))))
        (λ f e. (false, false, false, false, false, rw e p, λ f. (refl, ground arith)))
