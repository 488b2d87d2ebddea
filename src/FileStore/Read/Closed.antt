-- ===== src/FileStore/Read/Closed.antt =====
-- A closed store.
use containerd_attributes_cl.Base.{Text, List, [], ◌∷◌, true, false, ok, ◌≡◌, refl, arith}
use containerd_attributes_cl.FileStore.Host.{Host}
use containerd_attributes_cl.FileStore.Store.{Session}
use containerd_attributes_cl.FileStore.Read.{close_store, remove_all}

module _ (H : Host) where
  -- `Close` leaves a closed store, and a second `Close` succeeds and does nothing.
  pub close_store_twice :
      (s : Session H)
      → ((close_store H s).1.store.closed ≡ true)
        × (close_store H (close_store H s).1 ≡ (ok tt, (close_store H s).1))
  unfolding close_store
  close_store_twice s = (ground arith, ground arith)

  -- The world after the removal of the files one by one.
  abbrev pub without : List Text → H.World → H.World
  without [] w = w
  without (name ∷ names) w = without names (H.remove name w).1

  remove_all-without :
      (names : List Text) (w : H.World) → (remove_all H names w).1 ≡ without names w
  unfolding remove_all
  remove_all-without [] w = refl
  remove_all-without (name ∷ names) w = ground (arith, remove_all-without names (H.remove name w).1)

  -- The first `Close` tries to remove every temporary file, also after one that it cannot remove.
  pub close_store-without :
      (s : Session H)
      → s.store.closed ≡ false
      → (close_store H s).1.world ≡ without s.store.tmp_files s.world
  unfolding close_store
  close_store-without s h = ground (arith, remove_all-without s.store.tmp_files s.world)
