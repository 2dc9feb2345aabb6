-- ===== src/Backend/Locks/Invariant.antt =====
-- The owners of the locks, and the readers, in every reachable state.
use runed.Prelude.{
  ℕ, zero, suc, ◌+◌, ◌≤◌, ◌<◌, ◌≡◌, refl, ◌⊎◌, inl, inr, arith, true, false, none, ◌==◌,
  if◌then◌else◌, Bool-cases,
}
use runed.Prelude.Threads.{update, Owned, Turn, same, taken, released, Turn-Owned}
use runed.Backend.Locks.{
  Locks, Pc, Move, System, pick, Reach, start, later, init, holds_lifecycle, holds_restart,
  holds_writer, announced, reads, idle, call_embed, rlock, runlock, call_start, start_lock,
  start_unlock, call_ensure, ensure_lock, ensure_return, ensure_escalate, restart_lock,
  restart_alive, restart_suspect, restart_announce, restart_drained, restart_life_lock,
  restart_life_unlock, restart_wunlock, restart_unlock, call_stop, stop_announce, stop_drained,
  stop_life_lock, stop_life_unlock, stop_wunlock,
}

lifecycle-Turn :
    {i : ℕ} {m m' : Locks} {p p' : Pc}
    → Move i m p m' p'
    → Turn holds_lifecycle i m.lifecycle m'.lifecycle p p'
lifecycle-Turn call_embed = same refl refl
lifecycle-Turn (rlock e) = same refl refl
lifecycle-Turn runlock = same refl refl
lifecycle-Turn call_start = same refl refl
lifecycle-Turn (start_lock e) = taken e refl refl
lifecycle-Turn start_unlock = released refl refl refl
lifecycle-Turn call_ensure = same refl refl
lifecycle-Turn (ensure_lock e) = taken e refl refl
lifecycle-Turn ensure_return = released refl refl refl
lifecycle-Turn ensure_escalate = released refl refl refl
lifecycle-Turn (restart_lock e) = same refl refl
lifecycle-Turn restart_alive = same refl refl
lifecycle-Turn restart_suspect = same refl refl
lifecycle-Turn (restart_announce e) = same refl refl
lifecycle-Turn (restart_drained e) = same refl refl
lifecycle-Turn (restart_life_lock e) = taken e refl refl
lifecycle-Turn restart_life_unlock = released refl refl refl
lifecycle-Turn restart_wunlock = same refl refl
lifecycle-Turn restart_unlock = same refl refl
lifecycle-Turn call_stop = same refl refl
lifecycle-Turn (stop_announce e) = same refl refl
lifecycle-Turn (stop_drained e) = same refl refl
lifecycle-Turn (stop_life_lock e) = taken e refl refl
lifecycle-Turn stop_life_unlock = released refl refl refl
lifecycle-Turn stop_wunlock = same refl refl

restart-Turn :
    {i : ℕ} {m m' : Locks} {p p' : Pc}
    → Move i m p m' p'
    → Turn holds_restart i m.restart m'.restart p p'
restart-Turn call_embed = same refl refl
restart-Turn (rlock e) = same refl refl
restart-Turn runlock = same refl refl
restart-Turn call_start = same refl refl
restart-Turn (start_lock e) = same refl refl
restart-Turn start_unlock = same refl refl
restart-Turn call_ensure = same refl refl
restart-Turn (ensure_lock e) = same refl refl
restart-Turn ensure_return = same refl refl
restart-Turn ensure_escalate = same refl refl
restart-Turn (restart_lock e) = taken e refl refl
restart-Turn restart_alive = released refl refl refl
restart-Turn restart_suspect = same refl refl
restart-Turn (restart_announce e) = same refl refl
restart-Turn (restart_drained e) = same refl refl
restart-Turn (restart_life_lock e) = same refl refl
restart-Turn restart_life_unlock = same refl refl
restart-Turn restart_wunlock = same refl refl
restart-Turn restart_unlock = released refl refl refl
restart-Turn call_stop = same refl refl
restart-Turn (stop_announce e) = same refl refl
restart-Turn (stop_drained e) = same refl refl
restart-Turn (stop_life_lock e) = same refl refl
restart-Turn stop_life_unlock = same refl refl
restart-Turn stop_wunlock = same refl refl

writer-Turn :
    {i : ℕ} {m m' : Locks} {p p' : Pc} → Move i m p m' p' → Turn announced i m.writer m'.writer p p'
writer-Turn call_embed = same refl refl
writer-Turn (rlock e) = same refl refl
writer-Turn runlock = same refl refl
writer-Turn call_start = same refl refl
writer-Turn (start_lock e) = same refl refl
writer-Turn start_unlock = same refl refl
writer-Turn call_ensure = same refl refl
writer-Turn (ensure_lock e) = same refl refl
writer-Turn ensure_return = same refl refl
writer-Turn ensure_escalate = same refl refl
writer-Turn (restart_lock e) = same refl refl
writer-Turn restart_alive = same refl refl
writer-Turn restart_suspect = same refl refl
writer-Turn (restart_announce e) = taken e refl refl
writer-Turn (restart_drained e) = same refl refl
writer-Turn (restart_life_lock e) = same refl refl
writer-Turn restart_life_unlock = same refl refl
writer-Turn restart_wunlock = released refl refl refl
writer-Turn restart_unlock = same refl refl
writer-Turn call_stop = same refl refl
writer-Turn (stop_announce e) = taken e refl refl
writer-Turn (stop_drained e) = same refl refl
writer-Turn (stop_life_lock e) = same refl refl
writer-Turn stop_life_unlock = same refl refl
writer-Turn stop_wunlock = released refl refl refl

abbrev pub one : Pc → ℕ
one p = if reads p then 1 else 0

reader_turn :
    {i : ℕ} {m m' : Locks} {p p' : Pc}
    → Move i m p m' p'
    → one p ≤ m.readers
    → m'.readers + one p ≡ m.readers + one p'
reader_turn call_embed h = omega arith
reader_turn (rlock e) h = omega arith
reader_turn runlock h = omega arith
reader_turn call_start h = omega arith
reader_turn (start_lock e) h = omega arith
reader_turn start_unlock h = omega arith
reader_turn call_ensure h = omega arith
reader_turn (ensure_lock e) h = omega arith
reader_turn ensure_return h = omega arith
reader_turn ensure_escalate h = omega arith
reader_turn (restart_lock e) h = omega arith
reader_turn restart_alive h = omega arith
reader_turn restart_suspect h = omega arith
reader_turn (restart_announce e) h = omega arith
reader_turn (restart_drained e) h = omega arith
reader_turn (restart_life_lock e) h = omega arith
reader_turn restart_life_unlock h = omega arith
reader_turn restart_wunlock h = omega arith
reader_turn restart_unlock h = omega arith
reader_turn call_stop h = omega arith
reader_turn (stop_announce e) h = omega arith
reader_turn (stop_drained e) h = omega arith
reader_turn (stop_life_lock e) h = omega arith
reader_turn stop_life_unlock h = omega arith
reader_turn stop_wunlock h = omega arith

-- Readers come only while no writer is there, and a writer's Lock returns only without readers.
drain_turn :
    {i : ℕ} {m m' : Locks} {p p' : Pc}
    → Move i m p m' p'
    → ((m'.readers ≤ m.readers) ⊎ (m.writer ≡ none))
      × ((holds_writer p' ≡ false) ⊎ ((holds_writer p ≡ true) ⊎ (m'.readers ≡ 0)))
drain_turn call_embed = (inl (omega arith), inl refl)
drain_turn (rlock e) = (inr e, inl refl)
drain_turn runlock = (inl (omega arith), inl refl)
drain_turn call_start = (inl (omega arith), inl refl)
drain_turn (start_lock e) = (inl (omega arith), inl refl)
drain_turn start_unlock = (inl (omega arith), inl refl)
drain_turn call_ensure = (inl (omega arith), inl refl)
drain_turn (ensure_lock e) = (inl (omega arith), inl refl)
drain_turn ensure_return = (inl (omega arith), inl refl)
drain_turn ensure_escalate = (inl (omega arith), inl refl)
drain_turn (restart_lock e) = (inl (omega arith), inl refl)
drain_turn restart_alive = (inl (omega arith), inl refl)
drain_turn restart_suspect = (inl (omega arith), inl refl)
drain_turn (restart_announce e) = (inl (omega arith), inl refl)
drain_turn (restart_drained e) = (inl (omega arith), inr (inr e))
drain_turn (restart_life_lock e) = (inl (omega arith), inr (inl refl))
drain_turn restart_life_unlock = (inl (omega arith), inr (inl refl))
drain_turn restart_wunlock = (inl (omega arith), inl refl)
drain_turn restart_unlock = (inl (omega arith), inl refl)
drain_turn call_stop = (inl (omega arith), inl refl)
drain_turn (stop_announce e) = (inl (omega arith), inl refl)
drain_turn (stop_drained e) = (inl (omega arith), inr (inr e))
drain_turn (stop_life_lock e) = (inl (omega arith), inr (inl refl))
drain_turn stop_life_unlock = (inl (omega arith), inr (inl refl))
drain_turn stop_wunlock = (inl (omega arith), inl refl)

-- The threads below `n` that embed.
abbrev pub total : ℕ → (ℕ → Pc) → ℕ
total zero pc = 0
total (suc n) pc = total n pc + one (pc n)

total-update_ge : (n i : ℕ) (pc : ℕ → Pc) (p : Pc) → n ≤ i → total n (update pc i p) ≡ total n pc
total-update_ge zero i pc p h = refl
total-update_ge (suc n) i pc p h = ground (arith, total-update_ge n i pc p (omega arith))

total-update :
    (n i : ℕ) (pc : ℕ → Pc) (p : Pc)
    → i < n
    → total n (update pc i p) + one (pc i) ≡ total n pc + one p
total-update zero i pc p h = absurd (omega arith)
total-update (suc n) i pc p h = elim (Bool-cases (n == i)) [
  | inl q ↦ ground (arith, total-update_ge n i pc p)
  | inr q ↦ ground (arith, total-update n i pc p)
]

pub one-le-total : (n i : ℕ) (pc : ℕ → Pc) → i < n → one (pc i) ≤ total n pc
one-le-total zero i pc h = absurd (omega arith)
one-le-total (suc n) i pc h = elim (Bool-cases (n == i)) [
  | inl q ↦ ground arith
  | inr q ↦ ground (arith, one-le-total n i pc)
]

pub record Inv (n : ℕ) (m : Locks) (pc : ℕ → Pc) : Type 0 where
  pub lifecycle : Owned holds_lifecycle m.lifecycle pc
  pub restart : Owned holds_restart m.restart pc
  pub writer : Owned announced m.writer pc
  pub readers : m.readers ≡ total n pc
  pub drained : (i : ℕ) → holds_writer (pc i) ≡ true → m.readers ≡ 0
  pub outside : (i : ℕ) → n ≤ i → pc i ≡ idle

holds_writer-announced : (p : Pc) → holds_writer p ≡ true → announced p ≡ true
holds_writer-announced p h = ground arith

module _ (n i : ℕ) (m : Locks) (pc : ℕ → Pc) (inv : Inv n m pc) {m' : Locks} {p' : Pc} (lt : i < n)
    (mv : Move i m (pc i) m' p') where
  step-drained : (j : ℕ) → holds_writer (update pc i p' j) ≡ true → m'.readers ≡ 0
  step-drained j h = elim (Bool-cases (j == i)) [
    | inl q ↦
        ground (arith, drain_turn mv, inv.drained i, inv.writer i, holds_writer-announced (pc i))
    | inr q ↦
        ground (arith, drain_turn mv, inv.drained j, inv.writer j, holds_writer-announced (pc j))
  ]

  step-Inv : Inv n m' (update pc i p')
  step-Inv = record {
    lifecycle = Turn-Owned _ i _ _ pc p' (lifecycle-Turn mv) inv.lifecycle;
    restart = Turn-Owned _ i _ _ pc p' (restart-Turn mv) inv.restart;
    writer = Turn-Owned _ i _ _ pc p' (writer-Turn mv) inv.writer;
    readers =
        omega
          (arith, reader_turn mv, total-update n i pc p' lt, one-le-total n i pc lt, inv.readers);
    drained = step-drained;
    outside = λ j h. ground (arith, inv.outside j);
  }

init-Inv : (n : ℕ) → Inv n init.locks init.pc
init-Inv n = record {
  lifecycle = λ i. ground arith;
  restart = λ i. ground arith;
  writer = λ i. ground arith;
  readers = none_reads n;
  drained = λ i h. refl;
  outside = λ i h. refl;
}
  where
    none_reads : (k : ℕ) → 0 ≡ total k init.pc
    none_reads zero = refl
    none_reads (suc k) = omega (arith, none_reads k)

pub Reach-Inv : {n : ℕ} {s : System} → Reach n s → Inv n s.locks s.pc
Reach-Inv {n} start = init-Inv n
Reach-Inv {n} (later {s} r (pick i lt mv)) = step-Inv n i s.locks s.pc (Reach-Inv r) lt mv
