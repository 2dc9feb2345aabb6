-- ===== src/Spawn/Lock.antt =====
-- internal/spawn/lock.go: acquireLock.
use runed.Prelude.{ℕ, suc, ◌+◌, ◌/◌, Bool, Result, ok, err, if◌then◌else◌}
use runed.Prelude.Flock.{
  FlockTries, Acquired, acquired, flock_failed, timed_out, polling, poll_interval, poll_lock,
}

-- `out_of_rounds` is no error of the code.
pub data LockError : Type 0 where
  open_lock flock_error timeout out_of_rounds : LockError

unfoldable pub lock_result : Acquired → Result LockError (Unit {0})
lock_result acquired = ok tt
lock_result flock_failed = err flock_error
lock_result timed_out = err timeout
lock_result polling = err out_of_rounds

unfoldable pub acquire_lock : Bool → FlockTries → ℕ → ℕ → Result LockError (Unit {0})
unfolding lock_result
acquire_lock opened tries start wait =
    if opened
    then lock_result (poll_lock tries (start + wait) (suc (wait / poll_interval + 1)) 0)
    else err open_lock
