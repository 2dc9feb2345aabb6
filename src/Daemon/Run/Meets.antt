-- ===== src/Daemon/Run/Meets.antt =====
-- The daemon that EnsureDaemon launches, and the client that waits for it, use the same socket.
use runed.Prelude.{
  ℕ, ◌≡◌, ◌⊎◌, inl, inr, refl, ap, Bool-cases, true, false, List, [], ◌∷◌, ◌++◌, Option, some,
  Bytes, text, is_empty, Result, ok, err,
}
use runed.Prelude.FilePath.{abs, clean, dir, join, is_rooted, through_slash}
use runed.Prelude.FilePath.Cleaned.{join-Cleaned}
use runed.Prelude.FilePath.Relative.{clean-Form}
use runed.Prelude.FilePath.Parent.{abs-dir}
use runed.Bootstrap.Layout.{LayoutError, Paths, layout, resolve, resolve_abs, ensure_dirs}
use runed.Ipc.Resolve.{absolute, resolve_socket_path}
use runed.Ipc.Resolve.Agreed.{absolute-Cleaned}
use runed.Spawn.{Config, launch_env}
use runed.Daemon.Run.{
  Outcomes, ensure_dirs_failed, ends_at_once, unless_running, with_dirs, with_paths, run,
}

clean-full : (p : Bytes) → is_empty (clean p) ≡ false
unfolding clean
clean-full p = elim (Bool-cases (is_rooted p)) [
  | inl r ↦ rw r refl
  | inr r ↦ let (q, f, e) = clean-Form p r in f
]

-- The client's path is resolved as the path of the socket in the directory that is the daemon's home.
resolved_alike :
    (sha256 : Bytes → Bytes) (uid : ℕ) (cwd p n home : Bytes)
    → is_rooted home ≡ true
    → abs (some cwd) (clean p) ≡ some (join (home ∷ n ∷ []))
    → resolve_socket_path sha256 (abs (some cwd)) uid (join (home ∷ n ∷ []))
      ≡ resolve_socket_path sha256 (abs (some cwd)) uid p
unfolding resolve_socket_path
resolved_alike sha256 uid cwd p n home h e =
    let c = join-Cleaned home (n ∷ []) h in
    let same : absolute (abs (some cwd)) p ≡ join (home ∷ n ∷ []) = rw (absolute, e) refl in
    rw (absolute-Cleaned (some cwd) _ c, same) refl

resolve-set :
    (env home : Bytes) (absolute : Bytes → Option Bytes) (user : Option Bytes)
    → is_empty env ≡ false
    → absolute env ≡ some home
    → resolve env absolute user ≡ ok (layout home)
unfolding resolve resolve_abs
resolve-set env home absolute user f e = rw (f, e) refl

-- The value of RUNED_HOME that launchDaemon adds first.
home_variable :
    (home value : Bytes) (cfg : Config) (rest : List Bytes)
    → launch_env home cfg ≡ (text "RUNED_HOME=" ++ value) ∷ rest
    → home ≡ value
unfolding launch_env
home_variable home value cfg rest e = cc

with_dirs-lem :
    (sha256 : Bytes → Bytes) (o : Outcomes) (p : Paths) (path : Bytes)
    → (r : Result LayoutError (Unit {0}))
    → resolve_socket_path sha256 o.abs o.uid (join (p.home ∷ text "embedding.sock" ∷ [])) ≡ path
    → ((e : LayoutError) × (with_dirs sha256 o p r ≡ ends_at_once (some (ensure_dirs_failed e))))
      ⊎ (with_dirs sha256 o p r ≡ unless_running sha256 o path)
unfolding with_dirs
with_dirs-lem sha256 o p path (err x) e = inl (x, refl)
with_dirs-lem sha256 o p path (ok _) e = inr (ap (unless_running sha256 o) e)

-- The daemon that launchDaemon starts for a socket's path whose last element is embedding.sock, in the
-- same working directory, which is an absolute path, for RUNED_HOME as it is in the environment that the
-- daemon is given: it fails to make its directories, or it dials, clears and listens on the very path that
-- the client dials, whether the client's path is absolute or relative, short or replaced by its alias.
pub run_meets :
    (sha256 : Bytes → Bytes) (cwd socket_path : Bytes) (o : Outcomes) (cfg : Config)
    (env : List Bytes)
    → is_rooted cwd ≡ true
    → socket_path ≡ through_slash socket_path ++ text "embedding.sock"
    → launch_env (dir socket_path) cfg ≡ (text "RUNED_HOME=" ++ o.home_env) ∷ env
    → o.abs ≡ abs (some cwd)
    → let path = resolve_socket_path sha256 (abs (some cwd)) o.uid socket_path in
      ((e : LayoutError) × (run sha256 o ≡ ends_at_once (some (ensure_dirs_failed e))))
      ⊎ (run sha256 o ≡ unless_running sha256 o path)
unfolding run with_paths dir
run_meets sha256 cwd socket_path o cfg env h name set e =
    let variable = home_variable (dir socket_path) o.home_env cfg env set in
    let (home, rooted, made, entry) =
      abs-dir cwd socket_path (text "embedding.sock") h (refl, refl, refl, refl) name in
    let full : is_empty o.home_env ≡ false =
      rw (← variable) (clean-full (through_slash socket_path)) in
    let at_home : o.abs o.home_env ≡ some home = rw (e, ← variable) made in
    rw (resolve-set o.home_env home o.abs o.user_home full at_home) (
      with_dirs-lem sha256 o (layout home) _ (ensure_dirs o.mkdir_all (layout home)) (
        rw e
          (resolved_alike sha256 o.uid cwd socket_path (text "embedding.sock") home rooted entry)))
