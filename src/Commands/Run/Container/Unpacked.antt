-- ===== src/Commands/Run/Container/Unpacked.antt =====
-- The image of a container that `NewContainer` makes.
use containerd_attributes_cl.Base.{
  ℕ, [], All, true, ok, Run, returns, spins, ◌≡◌, ◌≢◌, ◌+◌, ◌≤◌, ap, ◌∙◌,
}
use containerd_attributes_cl.Base.Exec.{reads}
use containerd_attributes_cl.Base.Proc.{pure, lift_cases, bind_cases, if_cases}
use containerd_attributes_cl.Artifact.Services.{Backend, IsLawful, IsDigest}
use containerd_attributes_cl.Artifact.Committed.{IsFresh}
use containerd_attributes_cl.Image.Client.{Manifest, Services, KeepsSnapshots}
use containerd_attributes_cl.Image.{digests, is_unpacked, unpack}
use containerd_attributes_cl.Image.Unpacked.{is_unpacked-unpack}
use containerd_attributes_cl.Artifact.Settles.{Collisions}
use containerd_attributes_cl.Image.Ends.{KeepsKeys, unpack-ne-spins}
use containerd_attributes_cl.Commands.Run.{RunOptions}
use containerd_attributes_cl.Commands.Run.Container.{
  Oci, Daemon, snapshotter, container_opts, ensure_unpacked, new_container,
}

-- An image that has layers, with digests, and whose services keep the snapshots.
abbrev pub IsLayered : (B : Backend) → Services B → Type 0
IsLayered B C =
    KeepsSnapshots B C
    × ((m : Manifest) × (C.manifest ≡ ok m) × (m.layers ≢ []) × All IsDigest (digests m.layers))

module _ (B : Backend) (L : IsLawful B) (F : IsFresh B) (D : Daemon B) (O : Oci) where
  open B use {State}

  ensure_unpacked-is_unpacked :
      (fuel : ℕ) (image : D.Image) (s : State)
      → IsLayered B (D.services image)
      → (ensure_unpacked B D O fuel image s).0 ≡ returns (ok tt)
      → is_unpacked B (D.services image) (snapshotter B D O) (ensure_unpacked B D O fuel image s).1
        ≡ ok true
  unfolding ensure_unpacked
  ensure_unpacked-is_unpacked fuel image s (keeps, (m, manifest, some_layers, valid)) =
      let Q : Run (Unit {0}) → State → Type 0 = λ r t.
        r ≡ returns (ok tt) → is_unpacked B (D.services image) (snapshotter B D O) t ≡ ok true in
      lift_cases Q (reads (is_unpacked B (D.services image) (snapshotter B D O))) _ s
        (λ unpacked there.
          if_cases Q unpacked (pure tt) (unpack B (D.services image) fuel (snapshotter B D O) []) s
            (λ yes_ done. there ∙ ap ok yes_)
            (λ no_ done.
              is_unpacked-unpack B L F (D.services image) keeps fuel (snapshotter B D O) [] m s
                manifest some_layers valid done))
        (λ e failed done. absurd (cc))

  -- If `NewContainer` gives a container, then the container was made of the image that the reference
  -- stands for, with the options for that image, in the state after its unpacking, in which
  -- `IsUnpacked` says that the image is unpacked. The image has layers, with digests, and its services forget no committed snapshots.
  pub new_container_unpacked :
      (fuel : ℕ) (o : RunOptions) (s : State) (c : D.Container)
      → ((image : D.Image) → D.get_image o.reference s ≡ ok image → IsLayered B (D.services image))
      → (new_container B D O fuel o s).0 ≡ returns (ok c)
      → (image : D.Image) × (D.get_image o.reference s ≡ ok image)
        × (let t = (ensure_unpacked B D O fuel image s).1 in
            (is_unpacked B (D.services image) (snapshotter B D O) t ≡ ok true)
            × (D.create o.id (container_opts B D O o image) t
                ≡ (ok c, (new_container B D O fuel o s).1)))
  unfolding new_container
  new_container_unpacked fuel o s c layered made =
      let Q : Run D.Container → State → Type 0 = λ r u.
        r ≡ returns (ok c)
        → (image : D.Image) × (D.get_image o.reference s ≡ ok image)
          × (let t = (ensure_unpacked B D O fuel image s).1 in
              (is_unpacked B (D.services image) (snapshotter B D O) t ≡ ok true)
              × (D.create o.id (container_opts B D O o image) t ≡ (ok c, u))) in
      lift_cases Q (reads (D.get_image o.reference)) _ s
        (λ image found.
          bind_cases Q (ensure_unpacked B D O fuel image) _ s
            (λ _ done.
              let t = (ensure_unpacked B D O fuel image s).1 in
              let create = D.create o.id (container_opts B D O o image) t in
              λ got. (
                image,
                found,
                (
                  ensure_unpacked-is_unpacked fuel image s (layered image found) done,
                  ap (λ r. (r, create.1)) (cc),
                ),
              ))
            (λ e failed got. absurd (cc)) (λ p got. absurd (cc)) (λ p got. absurd (cc)))
        (λ e failed got. absurd (cc)) made

module _ (B : Backend) (K : Collisions B) (D : Daemon B) (O : Oci) where
  abbrev Ends : {A : Type 0} → Run A → B.State → Type 0
  Ends r s = r ≢ spins

  -- `NewContainer` ends, with fuel for two rounds more than fresh keys can be taken already, if
  -- leasing and labelling make no fresh key a taken one.
  pub new_container-ne-spins :
      (fuel : ℕ) (o : RunOptions) (s : B.State)
      → ((image : D.Image) → KeepsKeys B (D.services image) K)
      → K.left s + 2 ≤ fuel
      → (new_container B D O fuel o s).0 ≢ spins
  unfolding new_container ensure_unpacked
  new_container-ne-spins fuel o s keeps enough =
      lift_cases Ends (reads (D.get_image o.reference)) _ s
        (λ image _.
          bind_cases Ends (ensure_unpacked B D O fuel image) _ s (λ _ _ p. absurd (cc))
            (λ _ _ p. absurd (cc)) (λ _ p. absurd (cc))
            (λ never p. absurd (
              lift_cases Ends (reads (is_unpacked B (D.services image) (snapshotter B D O))) _ s
                (λ unpacked _.
                  if_cases Ends unpacked (pure tt)
                    (unpack B (D.services image) fuel (snapshotter B D O) []) s (λ _ q. absurd (cc))
                    (λ _.
                      unpack-ne-spins B K (D.services image) (keeps image) fuel (snapshotter B D O)
                        [] s enough))
                (λ _ _ q. absurd (cc)) never)))
        (λ _ _ p. absurd (cc))
