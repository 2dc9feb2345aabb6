-- ===== src/Examples/InstallsRuns.antt =====
-- Two concurrent pushes of centroid sets.
use runed.Prelude.{
  ℕ, ◌≡◌, ◌↔◌, refl, Bool, true, false, List, none, some, text, ◌==◌, if◌then◌else◌,
}
use runed.Prelude.Threads.{update}
use runed.Server.Installs.{
  Push, Pushes, waiting, locked, stored, persisted, done, store_set, persist_set, lock, store, save,
  unlock, init, Reach, start, later, replay,
}
use runed.Server.Installs.Atomic.{Unique, contains, installs_atomic}
use runed.Examples.Sample.{whole, short_hash}
use runed.Examples.ServerRuns.{pushed, gob, calls, fresh, empty_disk}

-- The second push cannot write its cache.
abbrev push : ℕ → Push Bool
push i = record {
  set = pushed;
  suffix = text "1";
  calls = if i == 0 then calls else record calls { rename = false };
}

-- Thread 0 is past its push, and thread 1 still waits.
abbrev first_done : Pushes Bool
first_done =
    let st1 = record (init whole short_hash gob push fresh empty_disk) {
      install_mu = some 0;
      pc = update (λ i. waiting) 0 locked;
    } in
    let st2 = record st1 {
      server = store_set whole short_hash gob push 0 st1.server;
      pc = update st1.pc 0 stored;
    } in
    let st3 = record st2 {
      disk = persist_set whole short_hash gob push 0 st2.server st2.disk;
      pc = update st2.pc 0 persisted;
    } in
    record st3 { install_mu = none; pc = update st3.pc 0 done }

first_done_reached : Reach whole short_hash gob push fresh empty_disk first_done
first_done_reached =
    later (later (later (later start (lock 0 refl refl)) (store 0 refl)) (save 0 refl))
      (unlock 0 refl)

installs_atomic_example :
    (log : List ℕ) × Unique log
    × ((i : ℕ) → (first_done.pc i ≡ done) ↔ (contains log i ≡ true))
    × (first_done.server ≡ (replay whole short_hash gob push fresh empty_disk log).0)
    × (first_done.disk ≡ (replay whole short_hash gob push fresh empty_disk log).1)
installs_atomic_example =
    installs_atomic whole short_hash gob push fresh empty_disk first_done_reached refl
