-- ===== src/Bootstrap/Lock.antt =====
-- internal/bootstrap/lock.go: AcquireLock and the holder's PID in the file. The replies of
-- flock, the time and the outcomes of the file calls are parameters.
pub mod Timeout
use runed.Prelude.{
  ℕ, zero, suc, ◌+◌, ◌-◌, ◌*◌, ◌/◌, ◌^◌, Bool, true, false, not, ◌&&◌, ◌||◌, List, [], ◌∷◌, ◌++◌,
  Option, none, some, Bytes, is_empty, length, itoa, Result, ok, err, if◌then◌else◌, ltb, leb, ◌==◌,
}
use runed.Prelude.Files.{Disk, put_file}
use runed.Prelude.Flock.{
  FlockTries, Acquired, acquired, flock_failed, timed_out, polling, poll_interval, poll_lock,
}
use mathlib.Core.List.{reverse}

-- `timeout` carries the holder's PID, or nothing; `out_of_rounds` is no error of the code.
pub data LockError : Type 0 where
  open_lock flock_error out_of_rounds : LockError
  timeout : Bytes → LockError

-- Whether the calls succeed, the replies of flock, what readHolderPID reads, and the process's PID.
pub record LockCalls : Type 0 where
  pub opened : Bool
  pub tries : FlockTries
  pub truncate : Bool
  pub write_pid : Bool
  pub seen : Option Bytes
  pub pid : ℕ

-- Of a text in ASCII.
abbrev is_space : ℕ → Bool
is_space c = c == 32 || (leb 9 c && leb c 13)

trim_left : Bytes → Bytes
trim_left [] = []
trim_left (c ∷ s) = let rest = trim_left s in if is_space c then rest else c ∷ s

-- strings.TrimSpace
unfoldable pub trim_space : Bytes → Bytes
unfolding trim_left
trim_space s = reverse (trim_left (reverse (trim_left s)))

-- The number of a sequence of digits.
digits_value : ℕ → Bytes → Option ℕ
digits_value n [] = some n
digits_value n (c ∷ s) =
    let rest = digits_value (n * 10 + (c - b'0')) s in
    if leb b'0' c && leb c b'9' then rest else none

-- At least one digit, for a value up to the bound.
digits_within : ℕ → Bytes → Bool
unfolding digits_value
digits_within bound [] = false
digits_within bound (c ∷ s) = elim (digits_value 0 (c ∷ s)) [ none ↦ false | some n ↦ leb n bound ]

-- Whether strconv.Atoi gives no error, for a 64-bit int.
unfoldable pub is_int : Bytes → Bool
unfolding digits_within
is_int [] = false
is_int (c ∷ s) =
    if c == b'-'
    then digits_within (2 ^ 63) s
    else if c == b'+'
    then digits_within (2 ^ 63 - 1) s
    else digits_within (2 ^ 63 - 1) (c ∷ s)

-- "" if the file is unreadable or holds no integer.
unfoldable pub read_holder_pid : Option Bytes → Bytes
unfolding trim_space is_int
read_holder_pid none = []
read_holder_pid (some content) =
    let s = trim_space content in if is_empty s then [] else if is_int s then s else []

-- The file before the PID is written.
abbrev truncated : Bool → Option Bytes → Bytes
truncated true content = []
truncated false none = []
truncated false (some content) = content

abbrev drop : ℕ → Bytes → Bytes
drop zero s = s
drop (suc n) [] = []
drop (suc n) (c ∷ s) = drop n s

-- The write starts at the beginning; errors are passed over.
unfoldable pub record_holder_pid : Bytes → LockCalls → Disk → Disk
record_holder_pid path calls d =
    let content = truncated calls.truncate (d path) in
    let pid = itoa calls.pid in
    put_file d path (some (if calls.write_pid then pid ++ drop (length pid) content else content))

-- O_CREATE
abbrev pub open_create : Bytes → Disk → Disk
open_create path d = elim (d path) [ none ↦ put_file d path (some []) | some _ ↦ d ]

-- A try each 100 ms up to the deadline, the try that meets it, and one more round.
abbrev pub lock_rounds : ℕ → ℕ
lock_rounds wait = wait / poll_interval + 1

unfoldable pub lock_result :
    Bytes → LockCalls → Disk → Acquired → Result LockError (Unit {0}) × Disk
unfolding record_holder_pid read_holder_pid
lock_result path calls d acquired = (ok tt, record_holder_pid path calls d)
lock_result path calls d flock_failed = (err flock_error, d)
lock_result path calls d timed_out = (err (timeout (read_holder_pid calls.seen)), d)
lock_result path calls d polling = (err out_of_rounds, d)

-- `start` is the time of the call, and times are nanoseconds.
unfoldable pub acquire_lock : Bytes → ℕ → ℕ → LockCalls → Disk → Result LockError (Unit {0}) × Disk
unfolding lock_result
acquire_lock path start wait calls d =
    if calls.opened
    then lock_result path calls (open_create path d)
        (poll_lock calls.tries (start + wait) (suc (lock_rounds wait)) 0)
    else (err open_lock, d)
