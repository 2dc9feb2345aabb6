-- ===== src/Backend/Types.antt =====
-- The types of internal/backend/llama.go. Times are nanoseconds.
use runed.Prelude.{ℕ, ◌*◌, Bool, false, Option, none, Bytes, text, is_empty, ◌==◌}
use runed.Prelude.{if◌then◌else◌}

-- 500 ms, 2 s and 15 s.
abbrev pub quick_probe_timeout : ℕ
quick_probe_timeout = 500 * 1000000

abbrev pub verdict_probe_timeout : ℕ
verdict_probe_timeout = 2000 * 1000000

abbrev pub alive_grace : ℕ
alive_grace = 15000 * 1000000

-- `ctx_size` is a Go int; what is not positive is 0 here.
pub record Config : Type 0 where
  pub binary_path : Bytes
  pub model_path : Bytes
  pub log_path : Bytes
  pub host : Bytes
  pub ctx_size : ℕ

pub data ServingState : Type 0 where
  serving_ok serving_idle serving_degraded : ServingState

pub data ChildState : Type 0 where
  child_running child_suspended child_failed : ChildState

-- `cmd` is the identity of the running command, nil as `none`. The locks are no part of it.
pub record LlamaBackend : Type 0 where
  pub cfg : Config
  pub cmd : Option ℕ
  pub port : ℕ
  pub stopping : Bool
  pub state : ChildState
  pub started : Bool  -- daemonCtx != nil
  pub last_alive : ℕ

-- `Running` is the zero value of `childState`.
unfoldable pub new_llama_backend : Config → LlamaBackend
new_llama_backend cfg =
    let host = if is_empty cfg.host then text "127.0.0.1" else cfg.host in
    let ctx_size = if cfg.ctx_size == 0 then 2048 else cfg.ctx_size in
    record {
      cfg = record cfg { host = host; ctx_size = ctx_size };
      cmd = none;
      port = 0;
      stopping = false;
      state = child_running;
      started = false;
      last_alive = 0;
    }

pub data BackendError : Type 0 where
  not_initialized daemon_ctx_done : BackendError
  stderr_pipe start_failed exited_before_ready port_timeout : BackendError
  exited_during_health not_healthy stop_cancelled : BackendError
  -- startLocked has not returned: its wait for the port or for the end of the child goes on.
  still_waiting : BackendError
  -- The health poll of the model ran out of rounds.
  out_of_rounds : BackendError
