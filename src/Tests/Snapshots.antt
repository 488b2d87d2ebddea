-- ===== src/Tests/Snapshots.antt =====
-- Runs of aritfact/artifact.go and aritfact/image.go over the snapshotter in memory.
use containerd_attributes_cl.Base.{
  Text, [], ◌∷◌, true, text_eq, nat_eq, sentinel_eq, ok, returns, ◌≡◌, refl,
}
use containerd_attributes_cl.Artifact.{apply_artifact_with_opts, apply_artifacts_with_opts}
use containerd_attributes_cl.Artifact.Committed.{
  apply_artifact_with_opts_stat, apply_artifacts_with_opts_stat,
}
use containerd_attributes_cl.Image.{is_unpacked, unpack}
use containerd_attributes_cl.Image.Unpacked.{is_unpacked-unpack}
use containerd_attributes_cl.Tests.Memory.{
  memory, memory-IsLawful, memory-IsFresh, artifact, two_layers, client, client-KeepsSnapshots,
  chain_name, digests_valid, lower, upper,
}

unpack_two : (unpack memory client 3 [] [] []).0 ≡ returns (ok tt)
unfolding unpack text_eq nat_eq sentinel_eq apply_artifact_with_opts chain_name
unpack_two = refl

is_unpacked-unpack_example :
    is_unpacked memory client [] (unpack memory client 3 [] [] []).1 ≡ ok true
is_unpacked-unpack_example =
    is_unpacked-unpack memory memory-IsLawful memory-IsFresh client client-KeepsSnapshots 3 [] []
      two_layers [] refl (cc) digests_valid unpack_two

apply_one :
    (apply_artifact_with_opts memory 2 (artifact upper) (lower ∷ []) [] [] []).0 ≡ returns (ok true)
unfolding apply_artifact_with_opts text_eq nat_eq sentinel_eq chain_name
apply_one = refl

apply_artifact_with_opts_stat_example :
    memory.stat
      (apply_artifact_with_opts memory 2 (artifact upper) (lower ∷ []) [] [] []).1
      (chain_name (lower ∷ upper ∷ []))
    ≡ ok tt
apply_artifact_with_opts_stat_example =
    apply_artifact_with_opts_stat memory memory-IsLawful memory-IsFresh 2 (artifact upper)
      (lower ∷ []) [] [] [] true digests_valid apply_one

apply_both :
    (apply_artifacts_with_opts memory 2 (artifact lower ∷ artifact upper ∷ []) [] []).0
    ≡ returns (ok (chain_name (lower ∷ upper ∷ [])))
unfolding apply_artifacts_with_opts text_eq nat_eq sentinel_eq chain_name
apply_both = refl

apply_artifacts_with_opts_stat_example :
    (◌≡◌ {A = Text} (chain_name (lower ∷ upper ∷ [])) (chain_name (lower ∷ upper ∷ [])))
    × (memory.stat
          (apply_artifacts_with_opts memory 2 (artifact lower ∷ artifact upper ∷ []) [] []).1
          (chain_name (lower ∷ upper ∷ []))
        ≡ ok tt)
apply_artifacts_with_opts_stat_example =
    apply_artifacts_with_opts_stat memory memory-IsLawful memory-IsFresh 2
      (artifact lower ∷ artifact upper ∷ []) [] [] (chain_name (lower ∷ upper ∷ [])) digests_valid
      apply_both
