-- ===== src/Examples.antt =====
-- Runs of the definitions and the theorems at concrete inputs.
mod Sample
mod RouteRuns
mod BackendRuns
mod LockRuns
mod ServerRuns
mod BootstrapRuns
mod ClientRuns
mod InstallRuns
mod EnsureRuns
mod DaemonRuns
mod DaemonBoot
mod MeetsRuns
mod SpawningRuns
mod InstallsRuns
mod SpawnRuns
mod ResumeRuns
mod HistoryRuns
mod PortRuns
mod ProgressRuns
