-- ===== src/Examples/LockRuns.antt =====
-- Two threads at the locks of the backend.
use runed.Prelude.{ℕ, ◌+◌, ◌<◌, ◌≡◌, ◌≢◌, ◌⊎◌, inl, refl, arith, none, some, false}
use runed.Prelude.Threads.{update}
use runed.Backend.Locks.{
  Locks, Pc, System, pick, Reach, start, later, init, holds_lifecycle, idle, embed_wait, embedding,
  stop_wait, stop_drain, stop_life, stopping, call_embed, rlock, call_stop, stop_announce,
  stop_drained, stop_life_lock,
}
use runed.Backend.Locks.Exclusion.{ending_excludes}
use runed.Backend.Locks.Progress.{some_thread-Moves, Moves}

abbrev free : Locks
free = record { restart = none; writer = none; readers = 0; lifecycle = none }

abbrev after : System → ℕ → Locks → Pc → System
after s i m p = record { locks = m; pc = update s.pc i p }

-- Thread 0 is in Stop, and thread 1 waits with an embedding.
abbrev ends : System
ends =
    let s1 = after init 0 free stop_wait in
    let s2 = after s1 1 free embed_wait in
    let held = record free { writer = some 0 } in
    let s3 = after s2 0 held stop_drain in
    let s4 = after s3 0 held stop_life in after s4 0 (record held { lifecycle = some 0 }) stopping

ends_reached : Reach 2 ends
ends_reached =
    later
      (later
        (later
          (later (later start (pick 0 (omega arith) call_stop)) (pick 1 (omega arith) call_embed))
          (pick 0 (omega arith) (stop_announce refl)))
        (pick 0 (omega arith) (stop_drained refl)))
      (pick 0 (omega arith) (stop_life_lock refl))

ending_excludes_example :
    (ends.pc 1 ≢ embedding) × (◌≡◌ {A = ℕ} 1 0 ⊎ (holds_lifecycle (ends.pc 1) ≡ false))
ending_excludes_example = ending_excludes ends_reached 0 1 (inl refl)

-- Thread 1 embeds, and thread 0 in Stop waits for it.
abbrev drains : System
drains =
    let s1 = after init 1 free embed_wait in
    let s2 = after s1 1 (record free { readers = 0 + 1 }) embedding in
    let s3 = after s2 0 (record free { readers = 0 + 1 }) stop_wait in
    after s3 0 (record free { readers = 0 + 1; writer = some 0 }) stop_drain

drains_reached : Reach 2 drains
drains_reached =
    later
      (later
        (later (later start (pick 1 (omega arith) call_embed)) (pick 1 (omega arith) (rlock refl)))
        (pick 0 (omega arith) call_stop))
      (pick 0 (omega arith) (stop_announce refl))

some_thread-Moves_example :
    (j : ℕ) × (j < 2) × (drains.pc j ≢ idle) × Moves j drains.locks (drains.pc j)
some_thread-Moves_example = some_thread-Moves drains_reached 0 (λ e. cc)
