-- ===== src/Prelude/Flock.antt =====
-- The polling loop of AcquireLock (internal/bootstrap/lock.go) and acquireLock (internal/spawn/lock.go).
use Prim.Native.Nat.{ℕ, zero, suc, ◌+◌, ◌*◌, ◌≤◌, ◌<◌}
use mathlib.Core.Bool.{Bool, true, false}
use mathlib.Core.Option.{Option, none, some}
use mathlib.Core.Path.{◌≡◌, refl}
use mathlib.Core.Logic.{◌⊎◌, inl, inr}
use native.Mathlib.Omega.{arith}
use runed.Prelude.Tests.{◌==◌, ==_iff, ltb, Bool-cases, if◌then◌else◌}

-- The errors of flock. On some systems the first two are one.
pub data Errno : Type 0 where
  ewouldblock eagain other_errno : Errno

abbrev pub is_would_block : Errno → Bool
is_would_block ewouldblock = true
is_would_block eagain = true
is_would_block other_errno = false

-- What a non-blocking flock comes to: a lock that another process holds is no failure.
pub data FlockReply : Type 0 where
  locked would_block flock_error : FlockReply

abbrev pub flock_reply : Option Errno → FlockReply
flock_reply none = locked
flock_reply (some e) = if is_would_block e then would_block else flock_error

-- The errors of flock by number of the try, and the time after each that would block.
pub record FlockTries : Type 0 where
  pub errno : ℕ → Option Errno
  pub now : ℕ → ℕ

abbrev pub reply : FlockTries → ℕ → FlockReply
reply tries n = flock_reply (tries.errno n)

-- The end of the loop; `polling` stands for a loop that goes on after the given rounds.
pub data Acquired : Type 0 where
  acquired flock_failed timed_out polling : Acquired

-- In nanoseconds.
abbrev pub poll_interval : ℕ
poll_interval = 100000000

module _ (tries : FlockTries) (deadline : ℕ) where
  unfoldable pub after_reply : ℕ → FlockReply → Acquired → Acquired
  after_reply n locked rest = acquired
  after_reply n flock_error rest = flock_failed
  after_reply n would_block rest = if ltb deadline (tries.now n) then timed_out else rest

  -- From try `n` on.
  unfoldable pub poll_lock : ℕ → ℕ → Acquired
  unfolding after_reply
  poll_lock zero n = polling
  poll_lock (suc fuel) n = let rest = poll_lock fuel (suc n) in after_reply n (reply tries n) rest

abbrev pub Ends : FlockTries → ℕ → ℕ → Acquired → Type 0
Ends tries deadline n r =
    ((reply tries n ≡ locked) × (r ≡ acquired))
    ⊎ (((reply tries n ≡ flock_error) × (r ≡ flock_failed))
        ⊎ ((reply tries n ≡ would_block) × (deadline < tries.now n) × (r ≡ timed_out)))

-- The loop ends at a try within the bound, the first that did not block or met the deadline.
abbrev pub SettledBy : FlockTries → ℕ → ℕ → ℕ → Acquired → Type 0
SettledBy tries deadline from last r =
    (n : ℕ) × (from ≤ n)
    × (n ≤ last)
    × ((k : ℕ) → from ≤ k → k < n → (reply tries k ≡ would_block) × (tries.now k ≤ deadline))
    × Ends tries deadline n r

suc_out : (a b : ℕ) → a + suc b ≡ suc a + b
suc_out a b = omega arith

module _ (tries : FlockTries) (deadline : ℕ) where
  -- A try that ends the loop.
  ended :
      (n last : ℕ) (r : Acquired)
      → n ≤ last
      → Ends tries deadline n r
      → SettledBy tries deadline n last r
  ended n last r h e = (n, omega arith, h, λ k a b. absurd (omega arith), e)

  -- A try before.
  blocked_before :
      (n last : ℕ) (r : Acquired)
      → reply tries n ≡ would_block
      → tries.now n ≤ deadline
      → SettledBy tries deadline (suc n) last r
      → SettledBy tries deadline n last r
  blocked_before n last r b t (m, low, high, all, e) = (
    m,
    omega arith,
    high,
    λ k x y. elim (Bool-cases (k == n)) [
      | inl q ↦ ground (arith, ==_iff k n)
      | inr q ↦ all k (ground arith) y
    ],
    e,
  )

module _ (tries : FlockTries) (deadline : ℕ)
    (slept : (k : ℕ) → tries.now k + poll_interval ≤ tries.now (suc k)) where
  abbrev Goal : ℕ → ℕ → FlockReply → Type 0
  Goal fuel n r =
      SettledBy tries deadline n (n + fuel)
        (after_reply tries deadline n r (poll_lock tries deadline fuel (suc n)))

  pub poll_lock-SettledBy :
      (fuel n : ℕ)
      → deadline < tries.now n + fuel * poll_interval
      → SettledBy tries deadline n (n + fuel) (poll_lock tries deadline (suc fuel) n)
  unfolding poll_lock after_reply
  poll_lock-SettledBy zero n h = split (reply tries n) refl
    where
      split : (r : FlockReply) → reply tries n ≡ r → Goal 0 n r
      split locked e = ended tries deadline n _ _ (omega arith) (inl (e, refl))
      split flock_error e = ended tries deadline n _ _ (omega arith) (inr (inl (e, refl)))
      split would_block e =
          ended tries deadline n _ _ (omega arith) (inr (inr (e, omega arith, ground arith)))
  poll_lock-SettledBy (suc fuel) n h = split (reply tries n) refl (poll_lock-SettledBy fuel (suc n))
    where
      split :
          (r : FlockReply)
          → reply tries n ≡ r
          → (deadline < tries.now (suc n) + fuel * poll_interval
              → SettledBy tries deadline
                  (suc n)
                  (suc n + fuel)
                  (poll_lock tries deadline (suc fuel) (suc n)))
          → Goal (suc fuel) n r
      split locked e ih = ended tries deadline n _ _ (omega arith) (inl (e, refl))
      split flock_error e ih = ended tries deadline n _ _ (omega arith) (inr (inl (e, refl)))
      split would_block e ih = elim (Bool-cases (ltb deadline (tries.now n))) [
        | inl q ↦
            rw q (ended tries deadline n _ _ (omega arith) (inr (inr (e, ground arith, refl))))
        | inr q ↦ rw q (
            blocked_before tries deadline n _ _ e (ground arith)
              (rw (suc_out n fuel) (ih (omega (arith, slept n)))))
      ]
