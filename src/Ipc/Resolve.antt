-- ===== src/Ipc/Resolve.antt =====
-- internal/ipc/resolve_unix.go: socketAliasDir, ResolveSocketPath and ensureSocketParent. SHA-256,
-- filepath.Abs and the outcomes of the calls are parameters.
pub mod Agreed
pub mod Bound
use runed.Prelude.{
  ℕ, Bool, true, false, not, ◌&&◌, ◌||◌, List, [], ◌∷◌, ◌++◌, Option, none, some, Bytes, text,
  bytes_eq, itoa, length, take, Result, ok, err, if◌then◌else◌, ltb, ◌==◌,
}
use runed.Prelude.FilePath.{join, clean, dir}
use runed.Route.Version.{hex}

abbrev pub sun_path_limit : ℕ
sun_path_limit = 104

abbrev pub socket_alias_dir : ℕ → Bytes
socket_alias_dir uid = join (text "/tmp" ∷ (text "runed-" ++ itoa uid) ∷ [])

-- The path that is cleaned, and made absolute where that succeeds.
abbrev pub absolute : (Bytes → Option Bytes) → Bytes → Bytes
absolute abs canonical =
    let cleaned = clean canonical in elim (abs cleaned) [ none ↦ cleaned | some a ↦ a ]

abbrev pub alias : (Bytes → Bytes) → ℕ → Bytes → Bytes
alias sha256 uid path =
    join
      (socket_alias_dir uid ∷ (text "runed-" ++ (hex (take 16 (sha256 path)) ++ text ".sock")) ∷ [])

unfoldable pub resolve_socket_path : (Bytes → Bytes) → (Bytes → Option Bytes) → ℕ → Bytes → Bytes
resolve_socket_path sha256 abs uid canonical =
    let path = absolute abs canonical in
    if ltb (length path) sun_path_limit then path else alias sha256 uid path

pub data Mkdir : Type 0 where
  made exists not_made : Mkdir

-- What Lstat says; `uid` is missing where the system gives no owner. The permissions are a number.
pub record Info : Type 0 where
  pub is_symlink : Bool
  pub is_dir : Bool
  pub uid : Option ℕ
  pub perm : ℕ

pub record ParentCalls : Type 0 where
  pub mkdir_all : Bool
  pub mkdir : Mkdir
  pub lstat : Option Info
  pub chmod : Bool

pub data ParentError : Type 0 where
  mkdir_failed lstat_failed not_real_dir not_owned chmod_failed : ParentError

-- 0o700
abbrev pub private_perm : ℕ
private_perm = 448

abbrev owned_by : ℕ → Option ℕ → Bool
owned_by uid none = false
owned_by uid (some owner) = owner == uid

-- The result, and the permissions of the alias directory after it, where they are known.
unfoldable pub check_alias_dir : ℕ → ParentCalls → Info → Result ParentError (Unit {0}) × Option ℕ
check_alias_dir uid calls info =
    if info.is_symlink || not info.is_dir
    then (err not_real_dir, some info.perm)
    else if not (owned_by uid info.uid)
    then (err not_owned, some info.perm)
    else if info.perm == private_perm
    then (ok tt, some info.perm)
    else if calls.chmod
    then (ok tt, some private_perm)
    else (err chmod_failed, some info.perm)

unfoldable pub after_lstat :
    ℕ → ParentCalls → Option Info → Result ParentError (Unit {0}) × Option ℕ
unfolding check_alias_dir
after_lstat uid calls none = (err lstat_failed, none)
after_lstat uid calls (some info) = check_alias_dir uid calls info

unfoldable pub after_mkdir : ℕ → ParentCalls → Mkdir → Result ParentError (Unit {0}) × Option ℕ
unfolding after_lstat
after_mkdir uid calls not_made = (err mkdir_failed, none)
after_mkdir uid calls made = after_lstat uid calls calls.lstat
after_mkdir uid calls exists = after_lstat uid calls calls.lstat

unfoldable pub ensure_socket_parent :
    ℕ → ParentCalls → Bytes → Result ParentError (Unit {0}) × Option ℕ
unfolding after_mkdir
ensure_socket_parent uid calls path =
    if not (bytes_eq (dir path) (socket_alias_dir uid))
    then (if calls.mkdir_all then (ok tt, none) else (err mkdir_failed, none))
    else after_mkdir uid calls calls.mkdir
