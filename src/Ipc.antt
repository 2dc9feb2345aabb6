-- ===== src/Ipc.antt =====
-- internal/ipc/uds_unix.go: Listen, Close and StillOwned on the files of a system and their live
-- listeners. The path is the one that ResolveSocketPath gave; the device and inode of a file are one
-- number, and `fresh` is that of the file which bind makes.
pub mod Ownership
pub mod Resolve
use runed.Prelude.{
  ℕ, Bool, true, false, not, Option, none, some, Bytes, bytes_eq, Result, ok, err, ◌==◌,
}
use runed.Prelude.{if◌then◌else◌}

pub record Node : Type 0 where
  pub is_socket : Bool
  pub inode : ℕ

-- `live` says whether a listener accepts on the socket with this inode.
pub record Sockets : Type 0 where
  pub nodes : Bytes → Option Node
  pub live : ℕ → Bool

-- Whether each call of a Listen succeeds. `stat` is an error other than that there is no file.
pub record ListenCalls : Type 0 where
  pub parent : Bool
  pub stat_error : Bool
  pub remove_file : Bool
  pub remove_stale : Bool
  pub chmod : Bool
  pub identity : Bool

pub data ListenError : Type 0 where
  mkdir_parent stat_failed remove_non_socket already_in_use bind_failed : ListenError
  chmod_failed stat_bound : ListenError

-- `closed` is the state of the sync.Once of Close.
pub record OwnedListener : Type 0 where
  pub path : Bytes
  pub inode : ℕ
  pub closed : Bool

abbrev pub put_node : Sockets → Bytes → Option Node → Sockets
put_node fs path node = record fs { nodes = λ p. if bytes_eq path p then node else fs.nodes p }

abbrev pub set_live : Sockets → ℕ → Bool → Sockets
set_live fs inode on = record fs { live = λ i. if inode == i then on else fs.live i }

-- From the bound socket on.
unfoldable pub secure :
    ListenCalls → ℕ → Bytes → Sockets → Result ListenError OwnedListener × Sockets
secure calls fresh path fs =
    let gone = put_node (set_live fs fresh false) path none in
    if calls.chmod
    then (if calls.identity
        then (ok (record { path = path; inode = fresh; closed = false }), fs)
        else (err stat_bound, gone))
    else (err chmod_failed, gone)

-- net.Listen: bind fails on a path that exists.
unfoldable pub bind :
    ListenCalls → ℕ → Bytes → Option Node → Sockets → Result ListenError OwnedListener × Sockets
unfolding secure
bind calls fresh path (some node) fs = (err bind_failed, fs)
bind calls fresh path none fs =
    secure calls fresh path
      (set_live (put_node fs path (some (record { is_socket = true; inode = fresh }))) fresh true)

-- What Stat found at the path.
unfoldable pub clear_path :
    ListenCalls → ℕ → Bytes → Option Node → Sockets → Result ListenError OwnedListener × Sockets
unfolding bind
clear_path calls fresh path none fs = bind calls fresh path none fs
clear_path calls fresh path (some node) fs =
    let removed = put_node fs path none in
    if not node.is_socket
    then (if calls.remove_file
        then bind calls fresh path none removed
        else (err remove_non_socket, fs))
    else if fs.live node.inode
    then (err already_in_use, fs)
    else if calls.remove_stale
    then bind calls fresh path none removed
    else bind calls fresh path (some node) fs

unfoldable pub listen :
    ListenCalls → ℕ → Bytes → Sockets → Result ListenError OwnedListener × Sockets
unfolding clear_path
listen calls fresh path fs =
    if calls.parent
    then (if calls.stat_error
        then (err stat_failed, fs)
        else clear_path calls fresh path (fs.nodes path) fs)
    else (err mkdir_parent, fs)

abbrev has_inode : Option Node → ℕ → Bool
has_inode none inode = false
has_inode (some node) inode = node.inode == inode

unfoldable pub same_socket : Sockets → Bytes → ℕ → Bool
same_socket fs path inode = has_inode (fs.nodes path) inode

unfoldable pub still_owned : OwnedListener → Sockets → Bool
unfolding same_socket
still_owned l fs = same_socket fs l.path l.inode

-- The listener stops accepting each time; the file is removed once, and only if it is still its own.
unfoldable pub close : OwnedListener → Sockets → OwnedListener × Sockets
unfolding same_socket
close l fs =
    let quiet = set_live fs l.inode false in
    (
      record l { closed = true },
      if l.closed
          then quiet
          else if same_socket quiet l.path l.inode
          then put_node quiet l.path none
          else quiet,
    )
