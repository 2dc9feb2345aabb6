-- ===== src/Backend/Locks/Exclusion.antt =====
-- While a child is ended, no embedding call is in flight.
use runed.Prelude.{ℕ, ◌≡◌, ◌≢◌, ◌⊎◌, arith, false}
use runed.Backend.Locks.{Pc, System, Reach, embedding, restarting, stopping, holds_lifecycle}
use runed.Backend.Locks.Invariant.{Inv, Reach-Inv, one-le-total}

-- The thread is where Stop or restartIfDead calls stopLocked.
abbrev pub EndsChild : Pc → Type 0
EndsChild p = (p ≡ stopping) ⊎ (p ≡ restarting)

reader_counts :
    {n : ℕ} {s : System} (inv : Inv n s.locks s.pc) (j : ℕ)
    → s.pc j ≡ embedding
    → s.locks.readers ≢ 0
reader_counts {n} {s} inv j e z =
    absurd (ground (arith, one-le-total n j s.pc, inv.outside j, inv.readers))

-- However the calls interleave, while a thread ends the child in Stop or restartIfDead, no Embed or
-- EmbedBatch is between its RLock and its RUnlock, and no other thread starts or ends a child.
pub ending_excludes :
    {n : ℕ} {s : System}
    → Reach n s
    → (i j : ℕ) → EndsChild (s.pc i)
    → (s.pc j ≢ embedding) × ((j ≡ i) ⊎ (holds_lifecycle (s.pc j) ≡ false))
ending_excludes {n} {s} r i j h =
    let inv = Reach-Inv r in
    (
      λ e. reader_counts inv j e (inv.drained i (ground arith)),
      ground (arith, inv.lifecycle i, inv.lifecycle j),
    )
