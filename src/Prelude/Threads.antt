-- ===== src/Prelude/Threads.antt =====
-- Threads by number, each with its place in the code, and the owner of a lock that they take and release.
use Prim.Native.Nat.{ℕ}
use mathlib.Core.Path.{◌≡◌}
use mathlib.Core.Logic.{◌↔◌, inl, inr}
use mathlib.Core.Bool.{Bool, true, false}
use mathlib.Core.Option.{Option, none, some}
use native.Mathlib.Omega.{arith}
use runed.Prelude.Tests.{◌==◌, Bool-cases, if◌then◌else◌}

module _ {P : Type 0} where
  abbrev pub update : (ℕ → P) → ℕ → P → ℕ → P
  update pc i p j = if j == i then p else pc j

  -- A thread holds the lock exactly if the lock says so.
  abbrev pub Owned : (P → Bool) → Option ℕ → (ℕ → P) → Type 0
  Owned holds lock pc = (i : ℕ) → (holds (pc i) ≡ true) ↔ (lock ≡ some i)

  -- What a move of thread `i` does to a lock: nothing, or it takes the free lock, or it releases it.
  pub data Turn (holds : P → Bool) (i : ℕ) (l l' : Option ℕ) (p p' : P) : Type 0 where
    same : l' ≡ l → holds p' ≡ holds p → Turn holds i l l' p p'
    taken : l ≡ none → l' ≡ some i → holds p' ≡ true → Turn holds i l l' p p'
    released : holds p ≡ true → l' ≡ none → holds p' ≡ false → Turn holds i l l' p p'

  -- The move of a thread keeps the owner of a lock known.
  pub Turn-Owned :
      (holds : P → Bool) (i : ℕ) (l l' : Option ℕ) (pc : ℕ → P) (p' : P)
      → Turn holds i l l' (pc i) p'
      → Owned holds l pc
      → Owned holds l' (update pc i p')
  Turn-Owned holds i l l' pc p' (same e h) own j = elim (Bool-cases (j == i)) [
    | inl q ↦ ground (arith, own i, own j)
    | inr q ↦ ground (arith, own j)
  ]
  Turn-Owned holds i l l' pc p' (taken e f h) own j = elim (Bool-cases (j == i)) [
    | inl q ↦ ground (arith, own i, own j)
    | inr q ↦ ground (arith, own j)
  ]
  Turn-Owned holds i l l' pc p' (released e f h) own j = elim (Bool-cases (j == i)) [
    | inl q ↦ ground (arith, own i, own j)
    | inr q ↦ ground (arith, own j, own i)
  ]
