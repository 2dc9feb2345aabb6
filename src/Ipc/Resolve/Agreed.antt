-- ===== src/Ipc/Resolve/Agreed.antt =====
-- A client and the daemon resolve the path of a socket in their own working directories.
use runed.Prelude.{
  ℕ, ◌≤◌, ◌<◌, ◌≡◌, ◌⊎◌, inl, inr, arith, refl, true, Bytes, text, Option, some, length, Bool-cases,
  ltb,
}
use runed.Prelude.FilePath.{abs, clean, is_rooted}
use runed.Prelude.FilePath.Cleaned.{Cleaned, join-Cleaned, abs-Cleaned, abs-lem}
use runed.Ipc.Resolve.{sun_path_limit, socket_alias_dir, absolute, alias, resolve_socket_path}
use runed.Ipc.Resolve.Bound.{resolve_socket_path-short}

absolute-lem : (d p : Bytes) → is_rooted d ≡ true → Cleaned (absolute (abs (some d)) p)
absolute-lem d p h = let (a, e, c) = abs-lem d (clean p) h in rw (absolute, e) c

pub absolute-Cleaned : (cwd : Option Bytes) (p : Bytes) → Cleaned p → absolute (abs cwd) p ≡ p
absolute-Cleaned cwd p (h, e) = rw (absolute, e, abs-Cleaned cwd p (h, e)) refl

alias-Cleaned : (sha256 : Bytes → Bytes) (uid : ℕ) (p : Bytes) → Cleaned (alias sha256 uid p)
alias-Cleaned sha256 uid p =
    join-Cleaned (socket_alias_dir uid) _ (join-Cleaned (text "/tmp") _ refl).0

resolve_socket_path-Cleaned :
    (sha256 : Bytes → Bytes) (uid : ℕ) (d p : Bytes)
    → is_rooted d ≡ true
    → Cleaned (resolve_socket_path sha256 (abs (some d)) uid p)
unfolding resolve_socket_path
resolve_socket_path-Cleaned sha256 uid d p h =
    let path = absolute (abs (some d)) p in
    elim (Bool-cases (ltb (length path) sun_path_limit)) [
      | inl e ↦ rw e (absolute-lem d p h)
      | inr e ↦ rw e (alias-Cleaned sha256 uid path)
    ]

-- A path that is short and cleaned is resolved to itself in any directory.
resolve_socket_path_short :
    (sha256 : Bytes → Bytes) (cwd : Option Bytes) (uid : ℕ) (p : Bytes)
    → Cleaned p
    → length p < sun_path_limit
    → resolve_socket_path sha256 (abs cwd) uid p ≡ p
unfolding resolve_socket_path
resolve_socket_path_short sha256 cwd uid p c h = rw (absolute-Cleaned cwd p c) (ground arith)

-- In a working directory that is an absolute path, ResolveSocketPath returns a path shorter than the
-- limit of 104 bytes: the path made absolute, exactly where that is short enough, or the alias of the
-- path made absolute. In any other working directory, or where there is none, it resolves the path made
-- absolute to the same result, and the result to itself: client and daemon agree on the socket.
pub resolve_socket_path_agrees :
    (sha256 : Bytes → Bytes) (uid : ℕ) (cwd path : Bytes) (elsewhere : Option Bytes)
    → is_rooted cwd ≡ true
    → let full = absolute (abs (some cwd)) path in
      let r = resolve_socket_path sha256 (abs (some cwd)) uid path in
      (length r < sun_path_limit)
      × (((length full < sun_path_limit) × (r ≡ full))
          ⊎ ((sun_path_limit ≤ length full) × (r ≡ alias sha256 uid full)))
      × (resolve_socket_path sha256 (abs elsewhere) uid full ≡ r)
      × (resolve_socket_path sha256 (abs elsewhere) uid r ≡ r)
unfolding resolve_socket_path
resolve_socket_path_agrees sha256 uid cwd path elsewhere h =
    let full = absolute (abs (some cwd)) path in
    let r = resolve_socket_path sha256 (abs (some cwd)) uid path in
    let (short, which) = resolve_socket_path-short sha256 (abs (some cwd)) uid path in
    let cleaned = resolve_socket_path-Cleaned sha256 uid cwd path h in
    (
      short,
      which,
      rw (absolute-Cleaned elsewhere full (absolute-lem cwd path h)) refl,
      resolve_socket_path_short sha256 elsewhere uid r cleaned short,
    )
