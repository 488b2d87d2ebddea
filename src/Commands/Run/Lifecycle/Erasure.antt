-- ===== src/Commands/Run/Lifecycle/Erasure.antt =====
-- The log of a run against the run without it.
use containerd_attributes_cl.Base.{
  Option, none, some, ◌&&◌, not, ◌==◌, nat_eq, Error, refl, inl, inr, Option-cases, Run,
}
use containerd_attributes_cl.Base.Exec.{Exec}
use containerd_attributes_cl.Base.Proc.{Proc, pure, raise, lift, ◌>>=◌}
use containerd_attributes_cl.Base.Proc.Along.{
  Along, bind-Along, lift-Along, defer-Along, if-Along, if_done-Along,
}
use containerd_attributes_cl.Commands.Run.{
  Runner, RunOptions, finish, received, attend, started, with_task, run_task, task_io, with_console,
  with_container, leased, run,
}
use containerd_attributes_cl.Commands.Run.Lifecycle.{Logged, logged}

module _ (R : Runner) (o : RunOptions) where
  abbrev L : Runner
  L = logged R

  abbrev plain : Logged R.State → R.State
  plain l = l.state

  abbrev Same :
      {A : Type 0} → (Logged R.State → A × Logged R.State) → (R.State → A × R.State) → Type 0
  Same = Along plain

  received-Same :
      (t : R.Task) → Same (λ l. received (L.receive t l)) (λ s. received (R.receive t s))
  received-Same t = record {
    same = λ l. elim (Option-cases (R.receive t l.state).0) [
      | inl never ↦ rw never refl
      | inr (status, came) ↦ rw came refl
    ];
  }

  after :
      {A B : Type 0} (m : Exec (Logged R.State) A) (n : Exec R.State A)
      (g : A → Proc (Logged R.State) B) (h : A → Proc R.State B)
      → Same m n
      → ((a : A) → Same (g a) (h a))
      → Same (lift m >>= g) (lift n >>= h)
  after m n g h p q = bind-Along plain (lift m) (lift n) g h (lift-Along plain m n p) q

  reported-Same :
      (failure : Option Error)
      → Same {A = Run (Unit {0})}
          (elim failure [ none ↦ pure tt | some e ↦ raise e ])
          (elim failure [ none ↦ pure tt | some e ↦ raise e ])
  reported-Same none = record { same = λ l. refl }
  reported-Same (some e) = record { same = λ l. refl }

  finish-Same : (t : R.Task) → Same (finish L o t) (finish R o t)
  unfolding finish
  finish-Same t = bind-Along plain _ _ _ _ (received-Same t) (λ status.
      bind-Along plain _ _ _ _ (reported-Same status.failure) (λ _.
        after (L.delete_task t) (R.delete_task t) _ _ (record { same = λ l. refl })
          (λ _.
            if-Along plain (status.code == 0) _ _ _ _ (record { same = λ l. refl })
              (record { same = λ l. refl }))))

  attend-Same : (t : R.Task) → Same (attend L o t) (attend R o t)
  unfolding attend
  attend-Same t =
      if_done-Along plain (λ _. o.tty) _ _ _ _
        (record { same = λ l. (finish-Same t).same (L.handle_resize t l).1 })
        (record {
          same = λ l.
              (defer-Along plain L.stop_catch R.stop_catch _ _ (λ u. refl) (finish-Same t)).same
                (L.forward_signals t l);
        })

  started-Same : (t : R.Task) → Same (started L o t) (started R o t)
  unfolding started
  started-Same t =
      after (L.start t) (R.start t) _ _ (record { same = λ l. refl })
        (λ _. if-Along plain o.detach _ _ _ _ (record { same = λ l. refl }) (attend-Same t))

  with_task-Same : (t : R.Task) → Same (with_task L o t) (with_task R o t)
  unfolding with_task
  with_task-Same t = if-Along plain o.detach _ _ _ _ (started-Same t) (
      defer-Along plain _ _ _ _ (λ u. refl)
        (after (L.wait t) (R.wait t) _ _ (record { same = λ l. refl }) (λ _. started-Same t)))

  run_task-Same : (c : R.Container) → Same (run_task L o c) (run_task R o c)
  unfolding run_task
  run_task-Same c =
      after (L.new_task c (task_io L o)) (R.new_task c (task_io R o)) _ _
        (record { same = λ l. refl }) with_task-Same

  with_console-Same : (c : R.Container) → Same (with_console L o c) (with_console R o c)
  unfolding with_console
  with_console-Same c =
      if_done-Along plain (λ _. o.tty) _ _ _ _
        (if_done-Along plain R.has_console _ _ _ _
          (defer-Along plain L.reset R.reset _ _ (λ u. refl)
            (after L.set_raw R.set_raw _ _ (record { same = λ u. refl }) (λ _. run_task-Same c)))
          (record { same = λ l. refl }))
        (run_task-Same c)

  with_container-Same : (c : R.Container) → Same (with_container L o c) (with_container R o c)
  unfolding with_container
  with_container-Same c =
      if-Along plain (o.remove && not o.detach) _ _ _ _
        (defer-Along plain _ _ _ _ (λ u. refl) (with_console-Same c)) (with_console-Same c)

  leased-Same : Same (leased L o) (leased R o)
  unfolding leased
  leased-Same =
      bind-Along plain _ _ _ _
        (if-Along plain o.fetch _ _ _ _ (record { same = λ l. refl }) (record { same = λ l. refl }))
        (λ _. bind-Along plain _ _ _ _ (record { same = λ l. refl }) with_container-Same)

  pub run-Same : Same (run L o) (run R o)
  unfolding run
  run-Same =
      after (L.connect o.address) (R.connect o.address) _ _ (record { same = λ l. refl })
        (λ _.
          defer-Along plain L.cancel R.cancel _ _ (λ u. refl)
            (after L.with_lease R.with_lease _ _ (record { same = λ l. refl })
              (λ _. defer-Along plain L.release R.release _ _ (λ u. refl) leased-Same)))
