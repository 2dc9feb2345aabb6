-- ===== src/Backend/Locks.antt =====
-- restartMu, inflightMu and lifecycleMu of internal/backend: threads that call Start, EnsureStarted,
-- Stop, Embed and EmbedBatch, in any order and interleaved at the lock operations. sync.RWMutex as
-- documented: a Lock first excludes other writers and new readers, then waits for the readers.
pub mod Invariant
pub mod Exclusion
pub mod Progress
use runed.Prelude.{ℕ, zero, suc, ◌+◌, ◌-◌, ◌<◌, ◌≡◌, Bool, true, false, Option, none, some, ◌==◌}
use runed.Prelude.Threads.{update}

-- `writer` has announced itself on inflightMu, and may still wait for the `readers`.
pub record Locks : Type 0 where
  pub restart : Option ℕ
  pub writer : Option ℕ
  pub readers : ℕ
  pub lifecycle : Option ℕ

pub data Pc : Type 0 where
  idle : Pc
  embed_wait : Pc  -- before RLock in Embed and EmbedBatch
  embedding : Pc  -- up to RUnlock: the HTTP call
  start_wait : Pc
  starting : Pc  -- startLocked in Start
  ensure_wait : Pc
  ensuring : Pc  -- EnsureStarted up to its Unlock: the quick probe, or a cold start
  restart_wait : Pc  -- restartIfDead, before restartMu
  restart_probe : Pc  -- the checks before the drain
  restart_dead : Pc  -- before Lock on inflightMu
  restart_drain : Pc  -- in Lock, waiting for the readers
  restart_life : Pc  -- before lifecycleMu
  restarting : Pc  -- the verdict, stopLocked and startLocked
  restart_leave : Pc  -- the deferred unlocks: lifecycleMu is free
  restart_left : Pc  -- and inflightMu
  stop_wait : Pc
  stop_drain : Pc
  stop_life : Pc
  stopping : Pc  -- stopLocked in Stop
  stop_leave : Pc

-- Thread `i` at a lock operation, or between two.
pub data Move (i : ℕ) (m : Locks) : Pc → Locks → Pc → Type 0 where
  call_embed : Move i m idle m embed_wait
  rlock : m.writer ≡ none → Move i m embed_wait (record m { readers = m.readers + 1 }) embedding
  runlock : Move i m embedding (record m { readers = m.readers - 1 }) idle
  call_start : Move i m idle m start_wait
  start_lock : m.lifecycle ≡ none → Move i m start_wait (record m { lifecycle = some i }) starting
  start_unlock : Move i m starting (record m { lifecycle = none }) idle
  call_ensure : Move i m idle m ensure_wait
  ensure_lock : m.lifecycle ≡ none → Move i m ensure_wait (record m { lifecycle = some i }) ensuring
  ensure_return : Move i m ensuring (record m { lifecycle = none }) idle
  ensure_escalate : Move i m ensuring (record m { lifecycle = none }) restart_wait
  restart_lock :
      m.restart ≡ none → Move i m restart_wait (record m { restart = some i }) restart_probe
  restart_alive : Move i m restart_probe (record m { restart = none }) idle
  restart_suspect : Move i m restart_probe m restart_dead
  restart_announce :
      m.writer ≡ none → Move i m restart_dead (record m { writer = some i }) restart_drain
  restart_drained : m.readers ≡ 0 → Move i m restart_drain m restart_life
  restart_life_lock :
      m.lifecycle ≡ none → Move i m restart_life (record m { lifecycle = some i }) restarting
  restart_life_unlock : Move i m restarting (record m { lifecycle = none }) restart_leave
  restart_wunlock : Move i m restart_leave (record m { writer = none }) restart_left
  restart_unlock : Move i m restart_left (record m { restart = none }) idle
  call_stop : Move i m idle m stop_wait
  stop_announce : m.writer ≡ none → Move i m stop_wait (record m { writer = some i }) stop_drain
  stop_drained : m.readers ≡ 0 → Move i m stop_drain m stop_life
  stop_life_lock :
      m.lifecycle ≡ none → Move i m stop_life (record m { lifecycle = some i }) stopping
  stop_life_unlock : Move i m stopping (record m { lifecycle = none }) stop_leave
  stop_wunlock : Move i m stop_leave (record m { writer = none }) idle

-- An index from `n` on names no thread.
pub record System : Type 0 where
  pub locks : Locks
  pub pc : ℕ → Pc

pub data Step (n : ℕ) (s : System) : System → Type 0 where
  pick :
      (i : ℕ) {m : Locks} {p : Pc}
      → i < n
      → Move i s.locks (s.pc i) m p
      → Step n s (record { locks = m; pc = update s.pc i p })

abbrev pub init : System
init = record {
  locks = record { restart = none; writer = none; readers = 0; lifecycle = none };
  pc = λ i. idle;
}

pub data Reach (n : ℕ) : System → Type 0 where
  start : Reach n init
  later : {s t : System} → Reach n s → Step n s t → Reach n t

abbrev pub holds_lifecycle : Pc → Bool
holds_lifecycle starting = true
holds_lifecycle ensuring = true
holds_lifecycle restarting = true
holds_lifecycle stopping = true
holds_lifecycle _ = false

abbrev pub holds_restart : Pc → Bool
holds_restart restart_probe = true
holds_restart restart_dead = true
holds_restart restart_drain = true
holds_restart restart_life = true
holds_restart restarting = true
holds_restart restart_leave = true
holds_restart restart_left = true
holds_restart _ = false

-- Lock on inflightMu has returned.
abbrev pub holds_writer : Pc → Bool
holds_writer restart_life = true
holds_writer restarting = true
holds_writer restart_leave = true
holds_writer stop_life = true
holds_writer stopping = true
holds_writer stop_leave = true
holds_writer _ = false

abbrev pub announced : Pc → Bool
announced restart_drain = true
announced stop_drain = true
announced p = holds_writer p

abbrev pub reads : Pc → Bool
reads embedding = true
reads _ = false
