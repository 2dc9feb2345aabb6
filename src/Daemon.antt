-- ===== src/Daemon.antt =====
-- cmd/runed/main.go: parts of the boot, the idle ticker and the socket watchdog.
pub mod Boot
pub mod Reporter
pub mod Run
pub mod SelfBootstrap
pub mod Watch
pub mod Idle
