-- ===== src/Commands/Client/Together.antt =====
-- `rcl run` from the reference to the task: fetching, unpacking, and running together.
use containerd_attributes_cl.Base.{ℕ, true, if◌then◌else◌, ok, Run, returns, ◌≡◌, ap}
use containerd_attributes_cl.Base.Proc.{
  Proc, pure, lift, bind_cases, lift_cases, defer_cases, defer, ◌>>◌,
}
use containerd_attributes_cl.Artifact.Services.{Backend, IsLawful}
use containerd_attributes_cl.Artifact.Committed.{IsFresh}
use containerd_attributes_cl.Image.{is_unpacked}
use containerd_attributes_cl.Commands.Run.{Runner, RunOptions, with_container, leased, run}
use containerd_attributes_cl.Commands.Run.Lifecycle.Ending.{arrived}
use containerd_attributes_cl.Commands.Run.Container.{
  Oci, Daemon, snapshotter, container_opts, ensure_unpacked,
}
use containerd_attributes_cl.Commands.Run.Container.Unpacked.{IsLayered, new_container_unpacked}
use containerd_attributes_cl.Commands.Fetch.{Registry, fetch}
use containerd_attributes_cl.Commands.Client.{Shell, runner_of}

module _ (R : Runner) (o : RunOptions) where
  -- A container that `NewContainer` gave.
  abbrev Good : R.State → Run (Unit {0}) → R.State → Type 0
  Good t r s = r ≡ returns (ok tt) → (c : R.Container) × ((R.new_container t).0 ≡ returns (ok c))

  leased-Gave :
      (s : R.State)
      → Good ((if o.fetch then R.fetch else pure tt) s).1 (leased R o s).0 (leased R o s).1
  unfolding leased
  leased-Gave s =
      let fetched : Proc R.State (Unit {0}) = if o.fetch then R.fetch else pure tt in
      let Q = Good (fetched s).1 in
      bind_cases Q fetched _ s
        (λ _ _.
          bind_cases Q R.new_container (with_container R o) (fetched s).1 (λ c made f. (c, made))
            (λ e _ f. absurd (cc)) (λ _ f. absurd (cc)) (λ _ f. absurd (cc)))
        (λ e _ f. absurd (cc)) (λ _ f. absurd (cc)) (λ _ f. absurd (cc))

  run-Gave : (s : R.State) → Good (arrived R o s) (run R o s).0 (run R o s).1
  unfolding run
  run-Gave s =
      let Q = Good (arrived R o s) in
      lift_cases Q (R.connect o.address) _ s
        (λ _ _.
          let s₁ : R.State = (R.connect o.address s).1 in
          defer_cases Q R.cancel (lift R.with_lease >> defer R.release (leased R o)) s₁
            (λ _.
              lift_cases Q R.with_lease _ s₁
                (λ _ _.
                  let s₂ : R.State = (R.with_lease s₁).1 in
                  defer_cases Q R.release (leased R o) s₂ (λ _. leased-Gave s₂)
                    (λ _ f. absurd (cc)))
                (λ e _ f. absurd (cc)))
            (λ _ f. absurd (cc)))
        (λ e _ f. absurd (cc))

module _ (B : Backend) (D : Daemon B) (O : Oci) (G : Registry B.State)
    (S : Shell B.State D.Container) (fuel : ℕ) where
  -- If `rcl run` ends without an error, then in the state that it has come to after fetching, the
  -- reference stands for an image, and once that was unpacked, where `IsUnpacked` says that it is, the
  -- run has made a container of it with the options for that image. The images have layers, with
  -- digests, and their services forget no committed snapshots.
  pub run_unpacked :
      (o : RunOptions) (s : B.State)
      → IsLawful B
      → IsFresh B
      → ((image : D.Image) → IsLayered B (D.services image))
      → (run (runner_of B D O G S fuel o) o s).0 ≡ returns (ok tt)
      → let found = arrived (runner_of B D O G S fuel o) o s in
        (image : D.Image) × (c : D.Container) × (D.get_image o.reference found ≡ ok image)
        × (let t = (ensure_unpacked B D O fuel image found).1 in
            (is_unpacked B (D.services image) (snapshotter B D O) t ≡ ok true)
            × ((D.create o.id (container_opts B D O o image) t).0 ≡ ok c))
  run_unpacked o s lawful fresh layered done =
      let R = runner_of B D O G S fuel o in
      let (c, made) = run-Gave R o s done in
      let (image, named, (unpacked, created)) =
        new_container_unpacked B lawful fresh D O fuel o (arrived R o s) c
          (λ image _. layered image) made in
      (image, c, named, (unpacked, ap (λ x. x.0) created))
