-- ===== src/Bootstrap/Lock/Timeout.antt =====
-- AcquireLock ends, and by when.
use runed.Prelude.{
  ℕ, suc, ◌+◌, ◌/◌, ◌≤◌, ◌<◌, ◌≡◌, ◌⊎◌, inl, inr, refl, arith, true, Bytes, Result, ok, err,
}
use runed.Prelude.Files.{Disk}
use runed.Prelude.Flock.{
  reply, Acquired, Ends, poll_lock-SettledBy, poll_interval, locked, would_block,
  FlockReply.flock_error,
}
use runed.Bootstrap.Lock.{
  LockCalls, LockError, timeout, LockError.flock_error as failed, lock_result, lock_rounds,
  acquire_lock, open_create, read_holder_pid,
}

-- The lock at a try that got it, and the other two ends at a try that did not.
abbrev pub LockEnds : LockCalls → ℕ → ℕ → Result LockError (Unit {0}) → Type 0
LockEnds calls deadline n r =
    ((reply calls.tries n ≡ locked) × (r ≡ ok tt))
    ⊎ (((reply calls.tries n ≡ flock_error) × (r ≡ err failed))
        ⊎ ((reply calls.tries n ≡ would_block)
            × (deadline < calls.tries.now n)
            × (r ≡ err (timeout (read_holder_pid calls.seen)))))

lock_result-LockEnds :
    (path : Bytes) (calls : LockCalls) (d : Disk) (deadline n : ℕ) (r : Acquired)
    → Ends calls.tries deadline n r
    → LockEnds calls deadline n (lock_result path calls d r).0
unfolding lock_result
lock_result-LockEnds path calls d deadline n r (inl (e, q)) = inl (e, rw q refl)
lock_result-LockEnds path calls d deadline n r (inr (inl (e, q))) = inr (inl (e, rw q refl))
lock_result-LockEnds path calls d deadline n r (inr (inr (e, t, q))) = inr (inr (e, t, rw q refl))

-- If the file opens and each sleep lasts 100 ms or more, AcquireLock ends by the try whose number is
-- the wait divided by 100 ms, plus 1, counted from 0. Up to the try at which it ends, every try found
-- the lock held and was not past the deadline; and it returns the lock exactly if that try got it, an
-- error of flock if there was one, and the timeout with the holder's PID after the deadline.
pub acquire_lock-ends :
    (path : Bytes) (start wait : ℕ) (calls : LockCalls) (d : Disk)
    → calls.opened ≡ true
    → start ≤ calls.tries.now 0
    → ((k : ℕ) → calls.tries.now k + poll_interval ≤ calls.tries.now (suc k))
    → (n : ℕ) × (n ≤ wait / poll_interval + 1)
      × ((k : ℕ) → k < n → (reply calls.tries k ≡ would_block) × (calls.tries.now k ≤ start + wait))
      × LockEnds calls (start + wait) n (acquire_lock path start wait calls d).0
unfolding acquire_lock
acquire_lock-ends path start wait calls d o s slept =
    let (n, low, high, all, e) =
      poll_lock-SettledBy calls.tries (start + wait) slept (lock_rounds wait) 0 (omega arith) in
    (
      n,
      omega arith,
      λ k h. all k (omega arith) h,
      rw o (lock_result-LockEnds path calls (open_create path d) (start + wait) n _ e),
    )
