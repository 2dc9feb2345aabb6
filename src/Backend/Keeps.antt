-- ===== src/Backend/Keeps.antt =====
-- Invariants of the state monad: what a sequence of steps keeps if each step does.
use runed.Prelude.{ℕ, Bool, true, false, some, List, Bytes, ◌≡◌, if◌then◌else◌}
use runed.Backend.Types.{Config, child_running}
use runed.Backend.Host.{
  Host, Sys, M, Reply, call, modify, act, pure, ◌>>=◌, watch_child, probed, spawned, terminated,
  killed,
}

module _ (H : Host) (P : Sys H → Type 0) where
  abbrev pub Keeps : {A : Type 0} → M H A → Type 0
  Keeps m = (s : Sys H) → P s → P (m s).1

  pub keeps_pure : {A : Type 0} (a : A) → Keeps (pure {H = H} a)
  keeps_pure a s h = h

  pub keeps_bind :
      {A B : Type 0} (m : M H A) (f : A → M H B)
      → Keeps m
      → ((a : A) → Keeps (f a))
      → Keeps (m >>= f)
  keeps_bind m f km kf s h = kf (m s).0 (m s).1 (km s h)

  pub keeps_if :
      {A : Type 0} (b : Bool) (m n : M H A) → Keeps m → Keeps n → Keeps (if b then m else n)
  keeps_if true m n km kn s h = km s h
  keeps_if false m n km kn s h = kn s h

-- What a property of the system has to survive so that all operations on the child keep it. `Safe`
-- says of which commands the property allows that they are started and stopped.
pub record Primitive (H : Host) (P : Sys H → Type 0) (Safe : ℕ → Type 0) : Type 1 where
  pub calls : {A : Type 0} (f : H.World → Reply H.World A) → Keeps H P (call H f)
  pub alive : (t : ℕ) → Keeps H P (modify H (λ b. record b { last_alive = t }))
  pub probes : (t : ℕ) (answered : Bool) → Keeps H P (act H (probed t answered))
  pub ports : (p : ℕ) → Keeps H P (modify H (λ b. record b { port = p }))
  pub flags : (f : Bool) → Keeps H P (modify H (λ b. record b { stopping = f }))
  pub reaps : (pid : ℕ) → Keeps H P (modify H (watch_child pid))
  pub running : (s : Sys H) (pid : ℕ) → P s → s.backend.cmd ≡ some pid → Safe pid
  pub fresh :
      (args : List Bytes) (cfg : Config) (w : H.World) (pid : ℕ)
      → (H.start_cmd args cfg w).value ≡ some pid
      → Safe pid
  pub launches :
      (pid : ℕ)
      → Safe pid
      → Keeps H P (modify H (λ b. record b { cmd = some pid; port = 0; state = child_running }))
  pub spawns : (pid : ℕ) → Safe pid → Keeps H P (act H (spawned pid))
  pub terminates : (pid : ℕ) → Safe pid → Keeps H P (act H (terminated pid))
  pub kills : (pid : ℕ) → Safe pid → Keeps H P (act H (killed pid))
