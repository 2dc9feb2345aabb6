-- ===== src/Daemon/Reporter.antt =====
-- The reporter of run (cmd/runed/main.go): what a download reports becomes the status that Health tells.
pub mod Fresh
pub mod Transfer
use runed.Prelude.{ℤ, ℕ, List, [], ◌∷◌, Option, none, some, Bytes}
use runed.Bootstrap.Progress.{Tick, progress}
use runed.Server.Types.{Server, BootstrapState}
use runed.Server.Wiring.{set_bootstrap_status}
use runed.Daemon.Boot.{stage_phase}

module _ {V : Type 0} (stage : Bytes) where
  unfoldable pub reporter : ℕ × ℤ → Server V → Server V
  reporter (done, total) s = let p = stage_phase stage in set_bootstrap_status p.0 done total p.1 s

  unfoldable pub reported : Option (ℕ × ℤ) → Server V → Server V
  unfolding reporter
  reported none s = s
  reported (some r) s = reporter r s

  -- The calls of the ProgressFunc of a download, with its reporter.
  unfoldable pub download_ticks : ℤ → Option ℕ → List Tick → Server V → Server V
  unfolding reported
  download_ticks expected last [] s = s
  download_ticks expected last (t ∷ ts) s =
      let r = progress expected last t in download_ticks expected r.1 ts (reported r.0 s)
