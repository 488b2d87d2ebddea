-- ===== src/FileStore/Archive/Symlinks.antt =====
-- The loop of `ensureBasePath` over the directories of a path.
use containerd_attributes_cl.Base.{
  ℕ, zero, suc, ◌≤◌, Text, some, true, false, ◌==◌, text_eq, if◌then◌else◌, is, not_exist, message,
  lit, sentinel_eq, Done, ok, err, ◌≡◌, ◌≢◌, arith, Result-cases, Bool-cases, inl, inr, length,
}
use containerd_attributes_cl.FilePath.{dot, is_abs, clean, parts, join_path, dir, rel}
use containerd_attributes_cl.FilePath.Ancestors.{
  up, dir_shorter, is_abs-dir_relative, clean-dir, length-parts-dir-le, is_abs-rel,
}
use containerd_attributes_cl.FileStore.Host.{Host}
use containerd_attributes_cl.FileStore.Archive.{no_links, ensure_base_path}

module _ (H : Host) (w : H.World) (root : Text) where
  -- A pass of the loop that succeeds has looked at the directory and goes on above it.
  no_links_step :
      (fuel : ℕ) (d : Text)
      → d ≢ dot
      → no_links H (suc fuel) w root d ≡ ok tt
      → (H.lstat w (join_path root d) ≢ ok true) × (no_links H fuel w root (dir d) ≡ ok tt)
  unfolding no_links
  no_links_step fuel d n h = elim (Result-cases (H.lstat w (join_path root d))) [
    | inr (e, p) ↦ (ground (arith, p), ground (arith, p))
    | inl (b, p) ↦ (ground (arith, p), ground (arith, p))
  ]

  no_links-up :
      (fuel k : ℕ) (d : Text)
      → no_links H fuel w root d ≡ ok tt
      → ((j : ℕ) → j ≤ k → up j d ≢ dot)
      → H.lstat w (join_path root (up k d)) ≢ ok true
  no_links-up zero k d h n = absurd (unfold no_links in ground (arith, h))
  no_links-up (suc fuel) zero d h n = (no_links_step fuel d (n 0 (omega arith)) h).0
  no_links-up (suc fuel) (suc k) d h n =
      no_links-up fuel k (dir d) (no_links_step fuel d (n 0 (omega arith)) h).1
        (λ j l. n (suc j) (omega arith))

  -- What the loop finds of the first directories on the way up, without any fuel.
  abbrev pub check_up : ℕ → Text → Done
  check_up zero d = ok tt
  check_up (suc k) d = elim (H.lstat w (join_path root d)) [
    | err e ↦ if is not_exist e then check_up k (dir d) else err e
    | ok true ↦ err (message (lit "no symbolic link allowed between"))
    | ok false ↦ check_up k (dir d)
  ]

  -- The loop looks at so many directories, and the next one is `.`.
  abbrev pub Ended : Text → Done → Type 0
  Ended d r = (k : ℕ) × (up k d ≡ dot) × ((j : ℕ) → suc j ≤ k → up j d ≢ dot) × (r ≡ check_up k d)

  up-ne-dot :
      (k : ℕ) (d : Text)
      → d ≢ dot
      → ((j : ℕ) → suc j ≤ k → up j (dir d) ≢ dot)
      → (j : ℕ) → suc j ≤ suc k
      → up j d ≢ dot
  up-ne-dot k d n on zero l = n
  up-ne-dot k d n on (suc j) l = on j (omega (arith, l))

  no_links_above :
      (fuel : ℕ) (d : Text)
      → d ≢ dot
      → Ended (dir d) (no_links H fuel w root (dir d))
      → Ended d (no_links H (suc fuel) w root d)
  unfolding no_links
  no_links_above fuel d n (k, top, on, same) =
      (suc k, top, up-ne-dot k d n on, ground (arith, n, same))

  no_links-Ended :
      (fuel : ℕ) (d : Text)
      → clean d ≡ d
      → is_abs d ≡ false
      → suc (length (parts d)) ≤ fuel
      → Ended d (no_links H fuel w root d)
  unfolding no_links
  no_links-Ended zero d c r l = absurd (omega (arith, l))
  no_links-Ended (suc fuel) d c r l = elim (Bool-cases (d == dot)) [
    | inl done ↦
        (zero, ground (arith, done), (λ j m. absurd (omega (arith, m))), ground (arith, done))
    | inr on ↦
        let n : d ≢ dot = ground (arith, on) in
        let shorter = dir_shorter d c r n in
        no_links_above fuel d n (
          no_links-Ended fuel (dir d) (clean-dir d) (is_abs-dir_relative d r)
            (omega (arith, shorter, l)))
  ]

  -- When `ensureBasePath` gives a path, no directory from the path's own up to the first `.` is a
  -- symbolic link below the root.
  pub ensure_base_path_symlink :
      (base target path : Text) (k : ℕ)
      → ensure_base_path H w root base target ≡ ok path
      → ((j : ℕ) → j ≤ k → up j (dir path) ≢ dot)
      → H.lstat w (join_path root (up k (dir path))) ≢ ok true
  unfolding ensure_base_path
  ensure_base_path_symlink base target path k h n =
      no_links-up (suc (length path)) k (dir path) (ground (arith, h)) n

  -- The loop of `ensureBasePath` ends: it climbs from the directory of the path to `.`, looks at each
  -- directory on the way and at no other, and its result is what these looks give. The fuel does not
  -- run out.
  pub no_links_ends :
      (base target path : Text)
      → rel base target ≡ some path
      → Ended (dir path) (no_links H (suc (length path)) w root (dir path))
  no_links_ends base target path h =
      no_links-Ended (suc (length path)) (dir path) (clean-dir path)
        (is_abs-dir_relative path (is_abs-rel base target path h))
        (omega (arith, length-parts-dir-le path))
