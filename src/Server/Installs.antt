-- ===== src/Server/Installs.antt =====
-- The tails of concurrent SetCentroids calls (internal/server/centroids.go): under installMu each stores
-- its set in memory and then persists it. The threads are numbered, and interleave at every step.
pub mod Atomic
use runed.Prelude.{
  ℕ, ◌≡◌, Bool, true, false, List, [], ◌∷◌, Option, none, some, Bytes, is_empty, ◌==◌,
  if◌then◌else◌,
}
use runed.Prelude.Files.{Disk}
use runed.Prelude.Threads.{update}
use runed.Route.Floats.{Floats}
use runed.Route.Set.{CentroidSet}
use runed.Route.Cache.{PersistCalls, Codec, persist}
use runed.Server.Types.{Server}
use runed.Server.Centroids.{install}

-- A set that was accepted, with the outcomes of its Persist.
pub record Push (V : Type 0) : Type 0 where
  pub set : CentroidSet V
  pub suffix : Bytes
  pub calls : PersistCalls

-- Before Lock, then before Store, before Persist, before Unlock, and after it.
pub data Pc : Type 0 where
  waiting locked stored persisted done : Pc

pub record Pushes (V : Type 0) : Type 0 where
  pub install_mu : Option ℕ
  pub server : Server V
  pub disk : Disk
  pub pc : ℕ → Pc

module _ (F : Floats) (sha256 : Bytes → Bytes) (gob : Codec F.F32) (push : ℕ → Push F.F32) where
  abbrev pub store_set : ℕ → Server F.F32 → Server F.F32
  store_set i s = record s { centroids = some (push i).set }

  unfoldable pub persist_set : ℕ → Server F.F32 → Disk → Disk
  persist_set i s d =
      if is_empty s.centroid_cache_dir
      then d
      else (persist gob (push i).set s.centroid_cache_dir (push i).suffix (push i).calls d).1

  pub data Step (st : Pushes F.F32) : Pushes F.F32 → Type 0 where
    lock :
        (i : ℕ)
        → st.pc i ≡ waiting
        → st.install_mu ≡ none
        → Step st (record st { install_mu = some i; pc = update st.pc i locked })
    store :
        (i : ℕ)
        → st.pc i ≡ locked
        → Step st (record st { server = store_set i st.server; pc = update st.pc i stored })
    save :
        (i : ℕ)
        → st.pc i ≡ stored
        → Step st
            (record st { disk = persist_set i st.server st.disk; pc = update st.pc i persisted })
    unlock :
        (i : ℕ)
        → st.pc i ≡ persisted
        → Step st (record st { install_mu = none; pc = update st.pc i done })

  abbrev pub init : Server F.F32 → Disk → Pushes F.F32
  init s d = record { install_mu = none; server = s; disk = d; pc = λ i. waiting }

  pub data Reach (s : Server F.F32) (d : Disk) : Pushes F.F32 → Type 0 where
    start : Reach s d (init s d)
    later : {st su : Pushes F.F32} → Reach s d st → Step st su → Reach s d su

  -- The specification: whole installs, one after another, the last one first in the list.
  unfoldable pub replay : Server F.F32 → Disk → List ℕ → Server F.F32 × Disk
  replay s d [] = (s, d)
  replay s d (i ∷ log) =
      let r = replay s d log in
      install F sha256 gob (push i).set (push i).suffix (push i).calls r.0 r.1
