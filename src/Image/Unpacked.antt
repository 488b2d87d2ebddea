-- ===== src/Image/Unpacked.antt =====
-- `Unpack`, and what `IsUnpacked` says after it.
use containerd_attributes_cl.Base.{
  Text, ℕ, List, [], ◌∷◌, ◌++◌, map, All, All-left, Bool, true, false, sentinel_eq, Result, ok, err,
  Run, returns, panics, spins, ◌≡◌, ◌≢◌, refl, sym, ap, ◌∙◌, arith, append_assoc, append-nil,
  Result-cases, Run-cases, inl, inr,
}
use containerd_attributes_cl.Content.{Descriptor}
use containerd_attributes_cl.Artifact.{Artifact, apply_artifact_with_opts}
use containerd_attributes_cl.Artifact.Services.{Backend, IsLawful, IsDigest}
use containerd_attributes_cl.Artifact.Committed.{IsFresh, apply_artifact_with_opts_stat}
use containerd_attributes_cl.Image.Client.{Manifest, UnpackConfig, Services, KeepsSnapshots}
use containerd_attributes_cl.Image.{
  digests, get_artifacts, get_snapshotter, is_unpacked, plan, unpack_artifacts, link_snapshot,
  unpack_leased, unpack, label_if_unpacked, Plan, resolve_snapshotter_name, run_unpack_opts,
  gc_label,
}

abbrev blob_digests : List Artifact → List Text
blob_digests = map (λ (a : Artifact). a.blob.digest)

get_artifacts-ne-nil : (m : Manifest) → m.layers ≢ [] → get_artifacts m ≢ []
unfolding get_artifacts
get_artifacts-ne-nil m h = ground arith

module _ (B : Backend) (L : IsLawful B) (F : IsFresh B) (C : Services B)
    (K : KeepsSnapshots B C) where
  open B use {State}

  stat-label_if_unpacked :
      (unpacked : Bool) (digest name : Text) (s : State)
      → B.stat s name ≡ ok tt
      → B.stat (label_if_unpacked B C unpacked digest s).1 name ≡ ok tt
  stat-label_if_unpacked false digest name s h = h
  stat-label_if_unpacked true digest name s h = K.stat-update_label digest _ digest name s h

  -- The chain that the loop returns is the one it began with and the digests of the layers; its
  -- snapshot is there if it was there before or there are layers.
  unpack_artifacts-stat :
      (fuel : ℕ) (config : UnpackConfig B) (artifacts : List Artifact) (chain : List Text)
      (s : State) (result : List Text)
      → (unpack_artifacts B C fuel config artifacts chain s).0 ≡ returns (ok result)
      → All IsDigest (chain ++ blob_digests artifacts)
      → (artifacts ≡ [] → B.stat s (B.chain_id chain) ≡ ok tt)
      → (result ≡ chain ++ blob_digests artifacts)
        × (B.stat (unpack_artifacts B C fuel config artifacts chain s).1 (B.chain_id result)
            ≡ ok tt)
  unfolding unpack_artifacts
  unpack_artifacts-stat fuel config [] chain s result h valid there =
      let e : result ≡ chain = ground (arith, h) in (e ∙ sym (append-nil chain), rw e (there refl))
  unpack_artifacts-stat fuel config (a ∷ artifacts) chain s result h valid there =
      let applied =
        apply_artifact_with_opts B fuel a chain config.snapshot_opts config.apply_opts s in
      elim (Run-cases applied.0) [
        | inr (inl (e, p)) ↦ absurd (ground (arith, p, h))
        | inr (inr (inl p)) ↦ absurd (ground (arith, p, h))
        | inr (inr (inr p)) ↦ absurd (ground (arith, p, h))
        | inl (unpacked, p) ↦
            let labelled = label_if_unpacked B C unpacked a.blob.digest applied.1 in
            elim (Result-cases labelled.0) [
              | inr (e, q) ↦ absurd (ground (arith, p, q, h))
              | inl (_, q) ↦
                  let more = chain ++ a.blob.digest ∷ [] in
                  let rest : unpack_artifacts B C fuel config (a ∷ artifacts) chain s
                      ≡ unpack_artifacts B C fuel config artifacts more labelled.1 =
                    ground (arith, p, q) in
                  let after : All IsDigest (more ++ blob_digests artifacts) =
                    rw (append_assoc chain (a.blob.digest ∷ []) (blob_digests artifacts)) valid in
                  let found =
                    apply_artifact_with_opts_stat B L F fuel a chain config.snapshot_opts
                      config.apply_opts s unpacked (All-left IsDigest more _ after) p in
                  let (e, t) =
                    unpack_artifacts-stat fuel config artifacts more labelled.1 result
                      (rw rest at h) after
                      (λ _. stat-label_if_unpacked unpacked a.blob.digest _ applied.1 found) in
                  (e ∙ append_assoc chain (a.blob.digest ∷ []) (blob_digests artifacts), rw rest t)
            ]
      ]

  get_snapshotter-resolved :
      (name resolved : Text)
      → resolve_snapshotter_name B C name ≡ ok resolved
      → get_snapshotter B C resolved ≡ get_snapshotter B C name
  unfolding get_snapshotter
  get_snapshotter-resolved name resolved h = ground (arith, h)

  plan_success :
      (name : Text) (opts : List (UnpackConfig B → Result (UnpackConfig B))) (p : Plan B C)
      → plan B C name opts ≡ ok p
      → (C.manifest ≡ ok p.manifest) × (service : Text) × (get_snapshotter B C name ≡ ok service)
  unfolding plan resolve_snapshotter_name
  plan_success name opts p h =
      let start : UnpackConfig B = record {
        check_platform_supported = false;
        snapshot_opts = [];
        apply_opts = [];
      } in
      elim (Result-cases (run_unpack_opts B C opts start)) [
        | inr (e, a) ↦ absurd (ground (arith, a, h))
        | inl (config, a) ↦ elim (Result-cases C.manifest) [
          | inr (e, b) ↦ absurd (ground (arith, a, b, h))
          | inl (m, b) ↦ elim (Result-cases (resolve_snapshotter_name B C name)) [
            | inr (e, c) ↦ absurd (ground (arith, a, b, c, h))
            | inl (r, c) ↦ elim (Result-cases (get_snapshotter B C r)) [
              | inr (e, d) ↦ absurd (ground (arith, a, b, c, d, h))
              | inl (service, d) ↦ (
                ground (arith, a, b, c, d, h),
                service,
                sym (get_snapshotter-resolved name r c) ∙ d,
              )
            ]
          ]
        ]
      ]

  blob_digests-get_artifacts :
      (ds : List Descriptor) → blob_digests (map (λ d. record { blob = d }) ds) ≡ digests ds
  blob_digests-get_artifacts [] = refl
  blob_digests-get_artifacts (d ∷ ds) = ap (◌∷◌ d.digest) (blob_digests-get_artifacts ds)

  is_unpacked_of_stat :
      (name service : Text) (m : Manifest) (s : State)
      → C.manifest ≡ ok m
      → get_snapshotter B C name ≡ ok service
      → B.stat s (B.chain_id (digests m.layers)) ≡ ok tt
      → is_unpacked B C name s ≡ ok true
  unfolding is_unpacked
  is_unpacked_of_stat name service m s p q h = ground (arith, p, q, h)

  stat-link_snapshot :
      (name id : Text) (r : Run (List Text) × State)
      → (link_snapshot B C name r).0 ≡ returns (ok tt)
      → ((chain : List Text) × (r.0 ≡ returns (ok chain)))
        × (B.stat r.1 id ≡ ok tt → B.stat (link_snapshot B C name r).1 id ≡ ok tt)
  unfolding link_snapshot
  stat-link_snapshot name id (returns (ok chain), s) h = elim (Result-cases C.config) [
    | inr (e, p) ↦ absurd (ground (arith, p, h))
    | inl (d, p) ↦ (
      (chain, refl),
      λ t. rw (link_snapshot, p) (K.stat-update_label d.digest (gc_label name) _ id s t),
    )
  ]
  stat-link_snapshot name id (returns (err e), s) h = absurd (cc)
  stat-link_snapshot name id (panics, s) h = absurd (cc)
  stat-link_snapshot name id (spins, s) h = absurd (cc)

  unpack_leased-stat :
      (fuel : ℕ) (name : Text) (opts : List (UnpackConfig B → Result (UnpackConfig B)))
      (m : Manifest) (s : State)
      → C.manifest ≡ ok m
      → m.layers ≢ []
      → All IsDigest (digests m.layers)
      → (unpack_leased B C fuel name opts s).0 ≡ returns (ok tt)
      → (B.stat (unpack_leased B C fuel name opts s).1 (B.chain_id (digests m.layers)) ≡ ok tt)
        × (service : Text) × (get_snapshotter B C name ≡ ok service)
  unfolding unpack_leased get_artifacts
  unpack_leased-stat fuel name opts m s manifest some_layers valid h =
      elim (Result-cases (plan B C name opts)) [
        | inr (e, q) ↦ absurd (ground (arith, q, h))
        | inl (p, q) ↦
            let (same_manifest, service, known) = plan_success name opts p q in
            let e : p.manifest ≡ m = ground (arith, manifest, same_manifest) in
            let loop = unpack_artifacts B C fuel p.config (get_artifacts p.manifest) [] s in
            let same : unpack_leased B C fuel name opts s ≡ link_snapshot B C p.snapshotter loop =
              ground (arith, q) in
            let ((chain, c), keep) =
              stat-link_snapshot p.snapshotter (B.chain_id (digests m.layers)) loop
                (rw same at h) in
            let (f, t) =
              unpack_artifacts-stat fuel p.config (get_artifacts p.manifest) [] s chain c
                (rw (blob_digests-get_artifacts p.manifest.layers, e) valid)
                (λ none_. absurd (get_artifacts-ne-nil p.manifest (rw e some_layers) none_)) in
            let g : chain ≡ digests m.layers =
              f
              ∙ blob_digests-get_artifacts p.manifest.layers
              ∙ ap (λ (x : Manifest). digests x.layers) e in
            (rw same (keep (rw (← g) t)), service, known)
      ]

  -- If `Unpack` succeeds for an image that has layers, whose digests are digests, then `IsUnpacked`
  -- says, for the same snapshotter name, that the image is unpacked.
  pub is_unpacked-unpack :
      (fuel : ℕ) (name : Text) (opts : List (UnpackConfig B → Result (UnpackConfig B)))
      (m : Manifest) (s : State)
      → C.manifest ≡ ok m
      → m.layers ≢ []
      → All IsDigest (digests m.layers)
      → (unpack B C fuel name opts s).0 ≡ returns (ok tt)
      → is_unpacked B C name (unpack B C fuel name opts s).1 ≡ ok true
  unfolding unpack
  is_unpacked-unpack fuel name opts m s manifest some_layers valid h =
      let leased = C.with_lease s in
      let done = unpack_leased B C fuel name opts leased.1 in
      elim (Result-cases leased.0) [
        | inr (e, p) ↦ absurd (ground (arith, p, h))
        | inl (_, p) ↦
            let (there, service, q) =
              unpack_leased-stat fuel name opts m leased.1 manifest some_layers valid
                (ground (arith, p, h)) in
            let same : (unpack B C fuel name opts s).1 ≡ C.release done.1 = ground (arith, p) in
            is_unpacked_of_stat name service m _ manifest q
              (rw same (K.stat-release _ done.1 there))
      ]
