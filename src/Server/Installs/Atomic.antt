-- ===== src/Server/Installs/Atomic.antt =====
-- Concurrent installs act one after another.
use runed.Prelude.{
  ℕ, ◌≡◌, ◌↔◌, inl, inr, refl, arith, Bool, true, false, ◌||◌, List, [], ◌∷◌, none, some, Bytes,
  ◌==◌, ==_iff, Bool-cases,
}
use runed.Prelude.Files.{Disk}
use runed.Prelude.Threads.{update}
use runed.Route.Floats.{Floats}
use runed.Route.Cache.{Codec}
use runed.Server.Types.{Server}
use runed.Server.Centroids.{install}
use runed.Server.Installs.{
  Push, Pc, waiting, locked, stored, persisted, done, Pushes, store_set, persist_set, Step, lock,
  store, save, unlock, Reach, start, later, replay,
}

-- The thread holds installMu.
abbrev busy : Pc → Bool
busy locked = true
busy stored = true
busy persisted = true
busy p = false

abbrev is_done : Pc → Bool
is_done done = true
is_done p = false

abbrev pub contains : List ℕ → ℕ → Bool
contains [] i = false
contains (j ∷ log) i = i == j || contains log i

-- No thread twice.
abbrev pub Unique : List ℕ → Type 0
Unique [] = Unit
Unique (i ∷ log) = (contains log i ≡ false) × Unique log

module _ (F : Floats) (sha256 : Bytes → Bytes) (gob : Codec F.F32) (push : ℕ → Push F.F32) where
  -- The set in memory and the disk, from those after the installs of `log`.
  record Inv (s : Server F.F32) (d : Disk) (log : List ℕ) (st : Pushes F.F32) : Type 0 where
    pub owned : (i : ℕ) → (busy (st.pc i) ≡ true) ↔ (st.install_mu ≡ some i)
    pub logged : (i : ℕ) → (is_done (st.pc i) ≡ true) ↔ (contains log i ≡ true)
    pub unique : Unique log
    pub at_rest : st.install_mu ≡ none → (st.server ≡ s) × (st.disk ≡ d)
    pub at_locked : (i : ℕ) → st.pc i ≡ locked → (st.server ≡ s) × (st.disk ≡ d)
    pub at_stored :
        (i : ℕ) → st.pc i ≡ stored → (st.server ≡ store_set F sha256 gob push i s) × (st.disk ≡ d)
    pub at_persisted :
        (i : ℕ)
        → st.pc i ≡ persisted
        → (st.server ≡ store_set F sha256 gob push i s)
          × (st.disk ≡ persist_set F sha256 gob push i (store_set F sha256 gob push i s) d)

  abbrev Kept : Server F.F32 → Disk → Pushes F.F32 → Type 0
  Kept s d su =
      (log : List ℕ) × Inv (replay F sha256 gob push s d log).0 (replay F sha256 gob push s d log).1
        log su

  module _ (s : Server F.F32) (d : Disk) (log : List ℕ) (st : Pushes F.F32) (inv : Inv s d log st)
      (i : ℕ) where
    lock-Inv :
        st.pc i ≡ waiting
        → st.install_mu ≡ none
        → Inv s d log (record st { install_mu = some i; pc = update st.pc i locked })
    lock-Inv e f = record {
      owned = λ j. elim (Bool-cases (j == i)) [
        | inl q ↦ ground (arith, inv.owned i, inv.owned j)
        | inr q ↦ ground (arith, inv.owned i, inv.owned j)
      ];
      logged = λ j. elim (Bool-cases (j == i)) [
        | inl q ↦ ground (arith, inv.logged i, inv.logged j, ==_iff j i)
        | inr q ↦ ground (arith, inv.logged j)
      ];
      unique = inv.unique;
      at_rest = λ q. absurd (cc);
      at_locked = λ j q. inv.at_rest f;
      at_stored = λ j q. absurd (ground (arith, inv.owned j, ==_iff j i));
      at_persisted = λ j q. absurd (ground (arith, inv.owned j, ==_iff j i));
    }

    -- While a thread holds installMu no other is between Lock and Unlock.
    alone : (j : ℕ) → busy (st.pc i) ≡ true → (j == i) ≡ false → busy (st.pc j) ≡ false
    alone j b q = ground (arith, inv.owned i, inv.owned j, ==_iff j i)

    store-Inv :
        st.pc i ≡ locked
        → Inv s d log (record st {
          server = store_set F sha256 gob push i st.server;
          pc = update st.pc i stored;
        })
    store-Inv e = record {
      owned = λ j. elim (Bool-cases (j == i)) [
        | inl q ↦ ground (arith, inv.owned i, inv.owned j)
        | inr q ↦ ground (arith, inv.owned j)
      ];
      logged = λ j. elim (Bool-cases (j == i)) [
        | inl q ↦ ground (arith, inv.logged i, inv.logged j, ==_iff j i)
        | inr q ↦ ground (arith, inv.logged j)
      ];
      unique = inv.unique;
      at_rest = λ q. absurd (ground (arith, inv.owned i));
      at_locked = λ j q. absurd (ground (arith, alone j));
      at_stored = λ j q. elim (Bool-cases (j == i)) [
        | inl p ↦ ground (arith, inv.at_locked i, ==_iff j i)
        | inr p ↦ absurd (ground (arith, alone j))
      ];
      at_persisted = λ j q. absurd (ground (arith, alone j));
    }

    save-Inv :
        st.pc i ≡ stored
        → Inv s d log (record st {
          disk = persist_set F sha256 gob push i st.server st.disk;
          pc = update st.pc i persisted;
        })
    save-Inv e = record {
      owned = λ j. elim (Bool-cases (j == i)) [
        | inl q ↦ ground (arith, inv.owned i, inv.owned j)
        | inr q ↦ ground (arith, inv.owned j)
      ];
      logged = λ j. elim (Bool-cases (j == i)) [
        | inl q ↦ ground (arith, inv.logged i, inv.logged j, ==_iff j i)
        | inr q ↦ ground (arith, inv.logged j)
      ];
      unique = inv.unique;
      at_rest = λ q. absurd (ground (arith, inv.owned i));
      at_locked = λ j q. absurd (ground (arith, alone j));
      at_stored = λ j q. absurd (ground (arith, alone j));
      at_persisted = λ j q. elim (Bool-cases (j == i)) [
        | inl p ↦ ground (arith, inv.at_stored i, ==_iff j i)
        | inr p ↦ absurd (ground (arith, alone j))
      ];
    }

    unlock-Inv :
        st.pc i ≡ persisted
        → Inv
            (store_set F sha256 gob push i s)
            (persist_set F sha256 gob push i (store_set F sha256 gob push i s) d)
            (i ∷ log)
            (record st { install_mu = none; pc = update st.pc i done })
    unlock-Inv e = record {
      owned = λ j. elim (Bool-cases (j == i)) [
        | inl q ↦ ground (arith, inv.owned i, inv.owned j)
        | inr q ↦ ground (arith, inv.owned j, alone j)
      ];
      logged = λ j. elim (Bool-cases (j == i)) [
        | inl q ↦ ground (arith, inv.logged i, inv.logged j, ==_iff j i)
        | inr q ↦ ground (arith, inv.logged j)
      ];
      unique = (
        elim (Bool-cases (contains log i)) [
          | inl q ↦ absurd (ground (arith, inv.logged i))
          | inr q ↦ q
        ],
        inv.unique,
      );
      at_rest = λ q. inv.at_persisted i e;
      at_locked = λ j q. absurd (ground (arith, alone j));
      at_stored = λ j q. absurd (ground (arith, alone j));
      at_persisted = λ j q. absurd (ground (arith, alone j));
    }

  install-parts :
      (i : ℕ) (s : Server F.F32) (d : Disk)
      → install F sha256 gob (push i).set (push i).suffix (push i).calls s d ≡ (
        store_set F sha256 gob push i s,
        persist_set F sha256 gob push i (store_set F sha256 gob push i s) d,
      )
  unfolding install persist_set
  install-parts i s d = ground arith

  Step-Kept :
      (s : Server F.F32) (d : Disk) {st su : Pushes F.F32}
      → Step F sha256 gob push st su
      → Kept s d st
      → Kept s d su
  unfolding replay
  Step-Kept s d {st} (lock i e f) (log, inv) = (log, lock-Inv _ _ log st inv i e f)
  Step-Kept s d {st} (store i e) (log, inv) = (log, store-Inv _ _ log st inv i e)
  Step-Kept s d {st} (save i e) (log, inv) = (log, save-Inv _ _ log st inv i e)
  Step-Kept s d {st} (unlock i e) (log, inv) =
      let r = replay F sha256 gob push s d log in
      (i ∷ log, rw (install-parts i r.0 r.1) (unlock-Inv _ _ log st inv i e))

  Reach-Kept :
      (s : Server F.F32) (d : Disk) {st : Pushes F.F32}
      → Reach F sha256 gob push s d st
      → Kept s d st
  unfolding replay
  Reach-Kept s d start = (
    [],
    record {
      owned = λ i. ground arith;
      logged = λ i. ground arith;
      unique = tt;
      at_rest = λ q. (refl, refl);
      at_locked = λ i q. absurd (cc);
      at_stored = λ i q. absurd (cc);
      at_persisted = λ i q. absurd (cc);
    },
  )
  Reach-Kept s d (later r step) = Step-Kept s d step (Reach-Kept s d r)

  -- However any number of concurrent pushes interleave: whenever installMu is free, the server and the
  -- disk are those after whole installs, one after another in some order, of exactly the pushes that
  -- have released the lock, each once. So the set in memory and the cache come from the same pushes.
  pub installs_atomic :
      (s : Server F.F32) (d : Disk) {st : Pushes F.F32}
      → Reach F sha256 gob push s d st
      → st.install_mu ≡ none
      → (log : List ℕ) × Unique log
        × ((i : ℕ) → (st.pc i ≡ done) ↔ (contains log i ≡ true))
        × (st.server ≡ (replay F sha256 gob push s d log).0)
        × (st.disk ≡ (replay F sha256 gob push s d log).1)
  installs_atomic s d r free =
      let (log, inv) = Reach-Kept s d r in
      let rest = inv.at_rest free in
      (log, inv.unique, λ i. ground (arith, inv.logged i), rest.0, rest.1)
