-- ===== src/Commands/Run/Lifecycle/Attend.antt =====
-- The calls of `Run` from the start of the task on.
use containerd_attributes_cl.Base.{
  ◌∷◌, Bool, true, false, ◌||◌, if◌then◌else◌, ◌==◌, nat_eq, Run, ◌≡◌, refl, arith, Option-cases,
  Bool-cases, inl, inr, ℕ, exit_code,
}
use containerd_attributes_cl.Base.Proc.{pure, raise, ended, lift_cases, defer_cases}
use containerd_attributes_cl.Commands.Run.{Runner, RunOptions, finish, attend, started}
use containerd_attributes_cl.Commands.Run.Lifecycle.{
  start, exit, delete_task, forward_signals, stop_catch, Held, step, Logged, logged,
}
use containerd_attributes_cl.Commands.Run.Lifecycle.Holding.{reported_cases, at, held-step, Holds}

module _ (R : Runner) (o : RunOptions) where
  abbrev L : Runner
  L = logged R

  abbrev Log : Type 0
  Log = Logged R.State

  status_code-Holds :
      (code : ℕ) (l : Log) (h : Held)
      → Holds l h
      → Holds ((if code == 0 then pure tt else raise (exit_code code)) l).1 h
  status_code-Holds code l h p = elim (Bool-cases (code == 0)) [
    | inl zero_ ↦ rw zero_ p
    | inr other ↦ rw other p
  ]

  abbrev Finished : Bool → Bool → Run (Unit {0}) → Log → Type 0
  Finished raw g r l = (b : Bool) × Holds l (at raw true true true g b)

  finish-Holds :
      (raw g : Bool) (t : R.Task) (l : Log)
      → Holds l (at raw true true true g false)
      → Finished raw g (finish L o t l).0 (finish L o t l).1
  unfolding finish step
  finish-Holds raw g t l p =
      let h = at raw true true true g false in
      elim (Option-cases (R.receive t l.state).0) [
        | inl never ↦ (false, rw (finish, never) p)
        | inr (status, came) ↦
            let l₁ : Log = record { state = (R.receive t l.state).1; log = exit status ∷ l.log } in
            let gone = held-step (exit status) l.log h h p refl in
            rw (finish, came)
              (reported_cases (Finished raw g) status.failure _ l₁
                (λ _.
                  lift_cases (Finished raw g) (L.delete_task t) _ l₁
                    (λ _ e. (
                      true,
                      status_code-Holds status.code _ _
                          (held-step delete_task l₁.log h _ gone refl),
                    ))
                    (λ f e. (true, held-step delete_task l₁.log h _ gone refl)))
                (λ e _. (false, gone)))
      ]

  abbrev Attended : Bool → Run (Unit {0}) → Log → Type 0
  Attended raw r l =
      (g : Bool) × (b : Bool) × Holds l (at raw true true true g b) × (ended r ≡ true → g ≡ false)

  attend-Holds :
      (raw : Bool) (t : R.Task) (l : Log)
      → Holds l (at raw true true true false false)
      → Attended raw (attend L o t l).0 (attend L o t l).1
  unfolding attend step
  attend-Holds raw t l p =
      let h = at raw true true true false false in
      let forwarded = held-step forward_signals l.log h _ p refl in
      let l₁ : Log = L.forward_signals t l in
      let (b₁, q₁) = finish-Holds raw true t l₁ forwarded in
      let (b₀, q₀) = finish-Holds raw false t (L.handle_resize t l).1 p in
      elim (Bool-cases o.tty) [
        | inl tty ↦ rw (attend, tty) (false, b₀, q₀, λ e. refl)
        | inr plain ↦
            rw (attend, plain)
              (defer_cases (Attended raw) L.stop_catch (finish L o t) l₁
                (λ e. (false, b₁, held-step stop_catch _ _ _ q₁ refl, λ f. refl))
                (λ e. (true, b₁, q₁, λ f. absurd (cc))))
      ]

  -- From the start of the task on.
  abbrev pub Started : Bool → Bool → Run (Unit {0}) → Log → Type 0
  Started raw waited r l =
      (s : Bool) × (g : Bool) × (b : Bool) × Holds l (at raw true waited s g b)
      × (ended r ≡ true → g ≡ false)

  pub started-Holds :
      (raw waited : Bool) (t : R.Task) (l : Log)
      → o.detach || waited ≡ true
      → Holds l (at raw true waited false false false)
      → Started raw waited (started L o t l).0 (started L o t l).1
  unfolding started step
  started-Holds raw waited t l w p =
      let h = at raw true waited false false false in
      lift_cases (Started raw waited) (L.start t) _ l
        (λ _ e.
          let runs : Holds (L.start t l).1 (at raw true waited true false false) =
            rw e (held-step start l.log h _ p refl) in
          elim (Bool-cases o.detach) [
            | inl d ↦ rw d (true, false, false, runs, λ f. refl)
            | inr d ↦
                let was : waited ≡ true = ground (arith, d, w) in
                let (g, b, q, quiet) = attend-Holds raw t (L.start t l).1 (rw was at runs) in
                rw (d, was) (true, g, b, q, quiet)
          ])
        (λ f e. (false, false, false, rw e p, λ f. refl))
