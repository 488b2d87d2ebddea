-- ===== src/Commands/Run/Lifecycle/Protocol.antt =====
-- The calls of a whole `Run`.
use containerd_attributes_cl.Base.{
  [], some, Bool, true, false, if◌then◌else◌, err, nat_eq, Run, returns, panics, spins, ◌≡◌, refl,
  arith,
}
use containerd_attributes_cl.Base.Proc.{
  pure, lift, ended, bind_cases, lift_cases, defer_cases, defer, ◌>>=◌, ◌>>◌,
}
use containerd_attributes_cl.Commands.Run.{Runner, RunOptions, with_container, leased, run}
use containerd_attributes_cl.Commands.Run.Lifecycle.{
  cancel, lease, release, make_container, Held, nothing_held, step, held, Logged, logged,
}
use containerd_attributes_cl.Commands.Run.Lifecycle.Holding.{held-step, Holds, IsSettled}
use containerd_attributes_cl.Commands.Run.Lifecycle.Container.{UnderLease, with_container-Holds}

module _ (R : Runner) (o : RunOptions) where
  abbrev L : Runner
  L = logged R

  abbrev Log : Type 0
  Log = Logged R.State

  -- A lease, and nothing else.
  abbrev only_leased : Held
  only_leased = record nothing_held { context = true; lease = true }

  nothing_more : (r : Run (Unit {0})) (l : Log) → Holds l only_leased → UnderLease R o r l
  nothing_more r l p = (only_leased, p, refl, refl, λ f. (refl, refl, ground arith, ground arith))

  new_container-Holds :
      (l : Log)
      → Holds l only_leased
      → UnderLease R o
          ((L.new_container >>= λ c. with_container L o c) l).0
          ((L.new_container >>= λ c. with_container L o c) l).1
  unfolding step
  new_container-Holds l p =
      bind_cases (UnderLease R o) L.new_container _ l
        (λ c e.
          with_container-Holds R o c (L.new_container l).1
            (rw e (held-step make_container l.log _ _ p refl)))
        (λ f e. nothing_more (returns (err f)) (L.new_container l).1 (rw e p))
        (λ e. nothing_more panics (L.new_container l).1 (rw e p))
        (λ e. nothing_more spins (L.new_container l).1 (rw e p))

  fetch-Holds :
      (b : Bool) (l : Log) (h : Held) → Holds l h → Holds ((if b then L.fetch else pure tt) l).1 h
  fetch-Holds true l h p = p
  fetch-Holds false l h p = p

  leased-Holds : (l : Log) → Holds l only_leased → UnderLease R o (leased L o l).0 (leased L o l).1
  unfolding leased
  leased-Holds l p =
      let fetched = if o.fetch then L.fetch else pure tt in
      let q = fetch-Holds o.fetch l only_leased p in
      bind_cases (UnderLease R o) fetched _ l (λ _ e. new_container-Holds (fetched l).1 q)
        (λ f e. nothing_more (returns (err f)) (fetched l).1 q)
        (λ e. nothing_more panics (fetched l).1 q) (λ e. nothing_more spins (fetched l).1 q)

  -- What is left when `Run` ends.
  abbrev pub IsClean : Held → Type 0
  IsClean h = (h.context ≡ false) × (h.lease ≡ false) × IsSettled o h

  abbrev Ran : Run (Unit {0}) → Log → Type 0
  Ran r l = (h : Held) × Holds l h × (ended r ≡ true → IsClean h)

  -- A live context, and nothing else.
  abbrev only_context : Held
  only_context = record nothing_held { context = true }

  abbrev UnderContext : Run (Unit {0}) → Log → Type 0
  UnderContext r l =
      (h : Held) × Holds l h
      × (h.context ≡ true)
      × (ended r ≡ true → (h.lease ≡ false) × IsSettled o h)

  context-Holds :
      (l : Log)
      → Holds l only_context
      → UnderContext
          ((lift L.with_lease >> defer L.release (leased L o)) l).0
          ((lift L.with_lease >> defer L.release (leased L o)) l).1
  unfolding step
  context-Holds l p =
      let l₁ : Log = (L.with_lease l).1 in
      lift_cases UnderContext L.with_lease _ l
        (λ _ e.
          let taken : Holds l₁ only_leased = rw e (held-step lease l.log _ _ p refl) in
          let (h, q, context, lease_, quiet) = leased-Holds l₁ taken in
          defer_cases UnderContext L.release (leased L o) l₁
            (λ f.
              let (raw, signals, gone, deleted) = quiet f in
              let given : step release h ≡ some (record h { lease = false }) =
                ground (arith, lease_, raw, signals) in
              (
                record h { lease = false },
                held-step release _ h _ q given,
                context,
                λ g. (refl, (raw, signals, gone, deleted)),
              ))
            (λ f. (h, q, context, λ g. absurd (cc))))
        (λ f e. (only_context, rw e p, refl, λ g. (refl, (refl, refl, ground arith, ground arith))))

  pub run-Holds :
      (s : R.State)
      → let l : Log = record { state = s; log = [] } in Ran (run L o l).0 (run L o l).1
  unfolding run held step
  run-Holds s =
      let l : Log = record { state = s; log = [] } in
      let l₁ : Log = (L.connect o.address l).1 in
      let none_held : Holds l nothing_held = refl in
      let body = lift L.with_lease >> defer L.release (leased L o) in
      lift_cases Ran (L.connect o.address) _ l
        (λ _ e.
          let open_ : Holds l₁ only_context = rw e refl in
          let (h, q, context, quiet) = context-Holds l₁ open_ in
          defer_cases Ran L.cancel body l₁
            (λ f.
              let (lease_, settled) = quiet f in
              let given : step cancel h ≡ some (record h { context = false }) =
                ground (arith, context, lease_) in
              (
                record h { context = false },
                held-step cancel (body l₁).1.log h _ q given,
                λ g. (refl, lease_, settled),
              ))
            (λ f. (h, q, λ g. absurd (cc))))
        (λ f e.
          (nothing_held, rw e refl, λ g. (refl, refl, (refl, refl, ground arith, ground arith))))
