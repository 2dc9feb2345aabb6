-- ===== src/Backend/Locks/Progress.antt =====
-- The order restartMu, inflightMu, lifecycleMu admits no deadlock.
use runed.Prelude.{
  ℕ, zero, suc, ◌<◌, ◌≡◌, refl, ◌≢◌, ◌⊎◌, inl, inr, arith, false, some, Option-cases, Bool-cases,
  sym, subst, ltb,
}
use runed.Backend.Locks.{
  Locks, Pc, Move, System, Reach, holds_lifecycle, holds_restart, announced, reads, idle,
  embed_wait, embedding, start_wait, starting, ensure_wait, ensuring, restart_wait, restart_probe,
  restart_dead, restart_drain, restart_life, restarting, restart_leave, restart_left, stop_wait,
  stop_drain, stop_life, stopping, stop_leave, rlock, runlock, start_lock, start_unlock,
  ensure_lock, ensure_return, restart_lock, restart_alive, restart_announce, restart_drained,
  restart_life_lock, restart_life_unlock, restart_wunlock, restart_unlock, stop_announce,
  stop_drained, stop_life_lock, stop_life_unlock, stop_wunlock,
}
use runed.Backend.Locks.Invariant.{Inv, Reach-Inv, total}

-- The thread can take a step.
abbrev pub Moves : ℕ → Locks → Pc → Type 0
Moves j m q = (m' : Locks) × (p' : Pc) × Move j m q m' p'

-- What a thread waits for. One that holds lifecycleMu waits for nothing, one on inflightMu for no other
-- writer, and one that holds restartMu not for it.
data Blocked (m : Locks) (q : Pc) : Type 0 where
  on_lifecycle : (k : ℕ) → m.lifecycle ≡ some k → holds_lifecycle q ≡ false → Blocked m q
  on_readers : m.readers ≢ 0 → holds_lifecycle q ≡ false → Blocked m q
  on_writer :
      (k : ℕ) → m.writer ≡ some k → holds_lifecycle q ≡ false → announced q ≡ false → Blocked m q
  on_restart :
      (k : ℕ)
      → m.restart ≡ some k
      → holds_lifecycle q ≡ false
      → announced q ≡ false
      → holds_restart q ≡ false
      → Blocked m q

zero_cases : (n : ℕ) → (n ≡ 0) ⊎ (n ≢ 0)
zero_cases zero = inl refl
zero_cases (suc n) = inr (λ e. absurd (omega (arith, e)))

module _ (j : ℕ) (m : Locks) where
  Moves-or_Blocked : (q : Pc) → q ≢ idle → Moves j m q ⊎ Blocked m q
  Moves-or_Blocked idle h = absurd (h refl)
  Moves-or_Blocked embedding h = inl (_, _, runlock)
  Moves-or_Blocked starting h = inl (_, _, start_unlock)
  Moves-or_Blocked ensuring h = inl (_, _, ensure_return)
  Moves-or_Blocked restart_probe h = inl (_, _, restart_alive)
  Moves-or_Blocked restarting h = inl (_, _, restart_life_unlock)
  Moves-or_Blocked restart_leave h = inl (_, _, restart_wunlock)
  Moves-or_Blocked restart_left h = inl (_, _, restart_unlock)
  Moves-or_Blocked stopping h = inl (_, _, stop_life_unlock)
  Moves-or_Blocked stop_leave h = inl (_, _, stop_wunlock)
  Moves-or_Blocked embed_wait h = elim (Option-cases m.writer) [
    | inl e ↦ inl (_, _, rlock e)
    | inr (k, e) ↦ inr (on_writer k e refl refl)
  ]
  Moves-or_Blocked restart_dead h = elim (Option-cases m.writer) [
    | inl e ↦ inl (_, _, restart_announce e)
    | inr (k, e) ↦ inr (on_writer k e refl refl)
  ]
  Moves-or_Blocked stop_wait h = elim (Option-cases m.writer) [
    | inl e ↦ inl (_, _, stop_announce e)
    | inr (k, e) ↦ inr (on_writer k e refl refl)
  ]
  Moves-or_Blocked start_wait h = elim (Option-cases m.lifecycle) [
    | inl e ↦ inl (_, _, start_lock e)
    | inr (k, e) ↦ inr (on_lifecycle k e refl)
  ]
  Moves-or_Blocked ensure_wait h = elim (Option-cases m.lifecycle) [
    | inl e ↦ inl (_, _, ensure_lock e)
    | inr (k, e) ↦ inr (on_lifecycle k e refl)
  ]
  Moves-or_Blocked restart_life h = elim (Option-cases m.lifecycle) [
    | inl e ↦ inl (_, _, restart_life_lock e)
    | inr (k, e) ↦ inr (on_lifecycle k e refl)
  ]
  Moves-or_Blocked stop_life h = elim (Option-cases m.lifecycle) [
    | inl e ↦ inl (_, _, stop_life_lock e)
    | inr (k, e) ↦ inr (on_lifecycle k e refl)
  ]
  Moves-or_Blocked restart_wait h = elim (Option-cases m.restart) [
    | inl e ↦ inl (_, _, restart_lock e)
    | inr (k, e) ↦ inr (on_restart k e refl refl refl)
  ]
  Moves-or_Blocked restart_drain h = elim (zero_cases m.readers) [
    | inl e ↦ inl (_, _, restart_drained e)
    | inr e ↦ inr (on_readers e refl)
  ]
  Moves-or_Blocked stop_drain h = elim (zero_cases m.readers) [
    | inl e ↦ inl (_, _, stop_drained e)
    | inr e ↦ inr (on_readers e refl)
  ]

-- Some thread embeds, if any are counted.
some_reader : (n : ℕ) (pc : ℕ → Pc) → total n pc ≢ 0 → (j : ℕ) × (j < n) × (pc j ≡ embedding)
some_reader zero pc h = absurd (h refl)
some_reader (suc n) pc h = elim (Bool-cases (reads (pc n))) [
  | inl e ↦ (n, omega arith, ground arith)
  | inr e ↦ (let (j, lt, q) = some_reader n pc (λ z. h (ground arith)) in (j, omega arith, q))
]

module _ {n : ℕ} {s : System} (inv : Inv n s.locks s.pc) where
  -- A thread that is in a call and can take a step.
  abbrev SomeMoves : Type 0
  SomeMoves = (j : ℕ) × (j < n) × (s.pc j ≢ idle) × Moves j s.locks (s.pc j)

  below : (j : ℕ) → s.pc j ≢ idle → j < n
  below j h = elim (Bool-cases (ltb j n)) [
    | inl e ↦ ground arith
    | inr e ↦ absurd (h (inv.outside j (ground arith)))
  ]

  by_readers : s.locks.readers ≢ 0 → SomeMoves
  by_readers h =
      let (j, lt, e) = some_reader n s.pc (λ z. h (ground (arith, inv.readers))) in
      (j, lt, λ q. absurd (ground arith), subst (Moves j s.locks) (sym e) (_, _, runlock))

  by_lifecycle : (j : ℕ) → s.locks.lifecycle ≡ some j → SomeMoves
  by_lifecycle j e =
      let busy : s.pc j ≢ idle = λ q. absurd (ground (arith, inv.lifecycle j)) in
      elim (Moves-or_Blocked j s.locks (s.pc j) busy) [
        | inl mv ↦ (j, below j busy, busy, mv)
        | inr (on_lifecycle k f h) ↦ absurd (ground (arith, inv.lifecycle j))
        | inr (on_readers f h) ↦ absurd (ground (arith, inv.lifecycle j))
        | inr (on_writer k f h g) ↦ absurd (ground (arith, inv.lifecycle j))
        | inr (on_restart k f h g x) ↦ absurd (ground (arith, inv.lifecycle j))
      ]

  by_writer : (j : ℕ) → s.locks.writer ≡ some j → SomeMoves
  by_writer j e =
      let busy : s.pc j ≢ idle = λ q. absurd (ground (arith, inv.writer j)) in
      elim (Moves-or_Blocked j s.locks (s.pc j) busy) [
        | inl mv ↦ (j, below j busy, busy, mv)
        | inr (on_lifecycle k f h) ↦ by_lifecycle k f
        | inr (on_readers f h) ↦ by_readers f
        | inr (on_writer k f h g) ↦ absurd (ground (arith, inv.writer j))
        | inr (on_restart k f h g x) ↦ absurd (ground (arith, inv.writer j))
      ]

  by_restart : (j : ℕ) → s.locks.restart ≡ some j → SomeMoves
  by_restart j e =
      let busy : s.pc j ≢ idle = λ q. absurd (ground (arith, inv.restart j)) in
      elim (Moves-or_Blocked j s.locks (s.pc j) busy) [
        | inl mv ↦ (j, below j busy, busy, mv)
        | inr (on_lifecycle k f h) ↦ by_lifecycle k f
        | inr (on_readers f h) ↦ by_readers f
        | inr (on_writer k f h g) ↦ by_writer k f
        | inr (on_restart k f h g x) ↦ absurd (ground (arith, inv.restart j))
      ]

  by_any : (i : ℕ) → s.pc i ≢ idle → SomeMoves
  by_any i busy = elim (Moves-or_Blocked i s.locks (s.pc i) busy) [
    | inl mv ↦ (i, below i busy, busy, mv)
    | inr (on_lifecycle k f h) ↦ by_lifecycle k f
    | inr (on_readers f h) ↦ by_readers f
    | inr (on_writer k f h g) ↦ by_writer k f
    | inr (on_restart k f h g x) ↦ by_restart k f
  ]

-- The locks admit no deadlock: in every reachable state in which some thread is in a call, some thread
-- that is in a call can take its next step.
pub some_thread-Moves :
    {n : ℕ} {s : System}
    → Reach n s
    → (i : ℕ) → s.pc i ≢ idle
    → (j : ℕ) × (j < n) × (s.pc j ≢ idle) × Moves j s.locks (s.pc j)
some_thread-Moves r i busy = by_any (Reach-Inv r) i busy
