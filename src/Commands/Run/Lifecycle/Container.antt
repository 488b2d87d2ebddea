-- ===== src/Commands/Run/Lifecycle/Container.antt =====
-- The calls of `Run` on a container.
use containerd_attributes_cl.Base.{
  some, Bool, true, false, not, ◌&&◌, nat_eq, Run, ◌≡◌, refl, arith,
}
use containerd_attributes_cl.Base.Proc.{
  lift, ended, lift_cases, defer_cases, if_cases, if_done_cases, defer, drop_result, ◌>>◌,
}
use containerd_attributes_cl.Commands.Run.{
  Runner, RunOptions, run_task, with_console, with_container,
}
use containerd_attributes_cl.Commands.Run.Lifecycle.{
  delete_container, make_raw, reset, Held, step, held, Logged, logged,
}
use containerd_attributes_cl.Commands.Run.Lifecycle.Holding.{
  at, held-step, Holds, TaskGone, IsSettled,
}
use containerd_attributes_cl.Commands.Run.Lifecycle.Task.{TaskRun, run_task-Holds}

module _ (R : Runner) (o : RunOptions) where
  abbrev L : Runner
  L = logged R

  abbrev Log : Type 0
  Log = Logged R.State

  abbrev Attached : Run (Unit {0}) → Log → Type 0
  Attached r l =
      (v : Bool) × (k : Bool) × (w : Bool) × (s : Bool) × (g : Bool) × (b : Bool) × Holds l
        (at v k w s g b)
      × (ended r ≡ true → (v ≡ false) × (g ≡ false) × TaskGone o k b)

  raw-Holds :
      (c : R.Container) (l : Log)
      → Holds l (at false false false false false false)
      → (v : Bool) × TaskRun R o v
          ((lift L.set_raw >> run_task L o c) l).0
          ((lift L.set_raw >> run_task L o c) l).1
  unfolding step
  raw-Holds c l p =
      let h = at false false false false false false in
      lift_cases (λ r m. (v : Bool) × TaskRun R o v r m) L.set_raw _ l
        (λ _ e.
          let raw : Holds (L.set_raw l).1 (at true false false false false false) =
            rw e (held-step make_raw l.log h _ p refl) in
          (true, run_task-Holds R o true c (L.set_raw l).1 raw))
        (λ f e. (false, (false, false, false, false, false, rw e p, λ f. (refl, ground arith))))

  with_console-Holds :
      (c : R.Container) (l : Log)
      → Holds l (at false false false false false false)
      → Attached (with_console L o c l).0 (with_console L o c l).1
  unfolding with_console step
  with_console-Holds c l p =
      let (v, (k, w, s, g, b, q, quiet)) = raw-Holds c l p in
      let (k', w', s', g', b', q', quiet') = run_task-Holds R o false c l p in
      if_done_cases Attached o.tty _ _
        (λ tty.
          if_done_cases Attached (L.has_console l) _ _
            (λ there.
              defer_cases Attached L.reset (lift L.set_raw >> run_task L o c) l
                (λ e.
                  let (u, gone) = quiet e in
                  let calm : held ((lift L.set_raw >> run_task L o c) l).1.log
                      ≡ some (at v k w s false b) =
                    rw u at q in
                  (
                    false,
                    k,
                    w,
                    s,
                    false,
                    b,
                    held-step reset _ _ _ calm refl,
                    λ f. (refl, refl, gone),
                  ))
                (λ e. (v, k, w, s, g, b, q, λ f. absurd (cc))))
            (λ none_.
              (false, false, false, false, false, false, p, λ f. (refl, refl, ground arith))))
        (λ plain.
          (false, k', w', s', g', b', q', λ f. (let (u, gone) = quiet' f in (refl, u, gone))))

  abbrev pub UnderLease : Run (Unit {0}) → Log → Type 0
  UnderLease r l =
      (h : Held) × Holds l h
      × (h.context ≡ true)
      × (h.lease ≡ true)
      × (ended r ≡ true → IsSettled o h)

  pub with_container-Holds :
      (c : R.Container) (l : Log)
      → Holds l (at false false false false false false)
      → UnderLease (with_container L o c l).0 (with_container L o c l).1
  unfolding with_container step
  with_container-Holds c l p =
      let (v, k, w, s, g, b, q, quiet) = with_console-Holds c l p in
      let deferred = drop_result (L.delete_container c) in
      if_cases UnderLease (o.remove && not o.detach) (defer deferred (with_console L o c))
        (with_console L o c) l
        (λ owned.
          defer_cases UnderLease deferred (with_console L o c) l
            (λ e.
              let (x, y, gone) = quiet e in
              let deleted : step delete_container (at v k w s g b)
                  ≡ some (record (at v k w s g b) { container_deleted = true }) =
                ground (arith, owned, gone) in
              (
                record (at v k w s g b) { container_deleted = true },
                held-step delete_container _ _ _ q deleted,
                refl,
                refl,
                λ f. (x, y, gone, ground arith),
              ))
            (λ e. (at v k w s g b, q, refl, refl, λ f. absurd (cc))))
        (λ kept. (
          at v k w s g b,
          q,
          refl,
          refl,
          λ f. (let (x, y, gone) = quiet f in (x, y, gone, ground (arith, kept))),
        ))
