-- ===== src/Ipc/Ownership.antt =====
-- A listener owns the socket file that it bound, and removes no other.
use runed.Prelude.{
  Result, refl, ℕ, ◌≡◌, ◌≢◌, ◌⊎◌, arith, true, false, none, some, Bytes, bytes_eq_iff, ok, err, inl,
  inr,
}
use runed.Ipc.{
  Node, Sockets, ListenCalls, ListenError, OwnedListener, listen, clear_path, bind, secure,
  same_socket, still_owned, close,
}

-- A listener of this path took it over from nobody: there was no file, or one that is no socket, or
-- a socket without a live listener.
abbrev pub Free : Sockets → Bytes → Type 0
Free fs path =
    (fs.nodes path ≡ none)
    ⊎ ((node : Node) × (fs.nodes path ≡ some node)
        × ((node.is_socket ≡ false) ⊎ (fs.live node.inode ≡ false)))

listen_ok :
    (calls : ListenCalls) (fresh : ℕ) (path : Bytes) (fs : Sockets) (l : OwnedListener)
    → let r = listen calls fresh path fs in
      r.0 ≡ ok l
      → (still_owned l r.1 ≡ true) × (l.path ≡ path) × (r.1.live l.inode ≡ true) × Free fs path
unfolding listen clear_path bind secure still_owned same_socket
listen_ok calls fresh path fs l e = ground (arith, bytes_eq_iff path path, bytes_eq_iff path l.path)

result_cases :
    (r : Result ListenError OwnedListener)
    → ((l : OwnedListener) × (r ≡ ok l)) ⊎ ((e : ListenError) × (r ≡ err e))
result_cases (ok l) = inl (l, refl)
result_cases (err e) = inr (e, refl)

-- A Listen that succeeds owns the path, where it has displaced no live listener, and its socket
-- accepts connections. The files at other paths are as before, in any case.
listen_owned :
    (calls : ListenCalls) (fresh : ℕ) (path : Bytes) (fs : Sockets)
    → let r = listen calls fresh path fs in
      (((l : OwnedListener) × (r.0 ≡ ok l)
          × (still_owned l r.1 ≡ true)
          × (l.path ≡ path)
          × (r.1.live l.inode ≡ true)
          × Free fs path)
        ⊎ ((e : ListenError) × (r.0 ≡ err e)))
      × ((p : Bytes) → (p ≡ path) ⊎ (r.1.nodes p ≡ fs.nodes p))
unfolding listen clear_path bind secure still_owned same_socket
listen_owned calls fresh path fs = (
  elim (result_cases (listen calls fresh path fs).0) [
    | inl (l, e) ↦
        (let (own, at, accepts, free) = listen_ok calls fresh path fs l e in
          inl (l, e, own, at, accepts, free))
    | inr (x, e) ↦ inr (x, e)
  ],
  λ p. ground (arith, bytes_eq_iff path p),
)

-- A Listen at the path of a socket with a live listener returns no listener, and changes nothing.
listen_busy :
    (calls : ListenCalls) (fresh : ℕ) (path : Bytes) (fs : Sockets) (node : Node)
    (l : OwnedListener)
    → fs.nodes path ≡ some node
    → node.is_socket ≡ true
    → fs.live node.inode ≡ true
    → ((listen calls fresh path fs).0 ≢ ok l) × ((listen calls fresh path fs).1 ≡ fs)
unfolding listen clear_path
listen_busy calls fresh path fs node l here socket alive = ground arith

-- After Close the listener's socket accepts no connections, and unless the Close was a repeated one,
-- the file at its path is not its own. A file there that was not its own is untouched, as are the
-- files at other paths. A second Close changes no file.
close_own :
    (l : OwnedListener) (fs : Sockets)
    → let r = close l fs in
      (r.1.live l.inode ≡ false)
      × ((l.closed ≡ true) ⊎ (still_owned l r.1 ≡ false))
      × ((still_owned l fs ≡ true) ⊎ (r.1.nodes l.path ≡ fs.nodes l.path))
      × ((p : Bytes) → (p ≡ l.path) ⊎ (r.1.nodes p ≡ fs.nodes p))
      × ((p : Bytes) → (close r.0 r.1).1.nodes p ≡ r.1.nodes p)
unfolding close still_owned same_socket
close_own l fs = (
  ground arith,
  ground (arith, bytes_eq_iff l.path l.path),
  ground (arith, bytes_eq_iff l.path l.path),
  λ p. ground (arith, bytes_eq_iff l.path p),
  λ p. ground arith,
)

-- A daemon that has lost its path to another one, which bound it anew, does not take it away when it
-- closes: the other still owns its socket, and the socket still accepts. The system gives a new file
-- no inode that a live listener has.
pub close-listen :
    (old new : OwnedListener) (calls : ListenCalls) (fresh : ℕ) (fs : Sockets)
    → fs.live old.inode ≡ true
    → fs.live fresh ≡ false
    → (listen calls fresh old.path fs).0 ≡ ok new
    → let after = (close old (listen calls fresh old.path fs).1).1 in
      (still_owned new after ≡ true) × (after.live new.inode ≡ true)
unfolding listen clear_path bind secure close still_owned same_socket
close-listen old new calls fresh fs alive unused bound =
    ground (arith, bytes_eq_iff old.path old.path, bytes_eq_iff old.path new.path)
