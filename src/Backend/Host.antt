-- ===== src/Backend/Host.antt =====
-- What the backend asks of the operating system, the clock, the HTTP client and the other
-- goroutines, as a parameter, and the state monad over it.
use runed.Prelude.{ℕ, Bool, false, Option, none, some, List, [], ◌∷◌, ◌==◌, Bytes}
use runed.Prelude.{if◌then◌else◌}
use runed.Backend.Types.{LlamaBackend, Config, child_failed}

-- What other goroutines do while a call is under way: `watchChild` of a command that has exited,
-- and an embed call that completes and notes the time.
pub data Background : Type 0 where
  exited : ℕ → Background
  noted_alive : ℕ → Background

-- What the backend does to the world, newest first in `trace`.
pub data Action : Type 0 where
  spawned : ℕ → Action
  terminated : ℕ → Action
  killed : ℕ → Action
  probed : ℕ → Bool → Action
  posted : ℕ → Action

-- The selects of startLocked and stopLocked.
-- `port_waiting`: the child logs no port, and it and its log go on; or the log could no longer be read
-- and the child goes on. Neither wait has a timeout.
pub data PortEvent : Type 0 where
  port_line : ℕ → PortEvent
  scanner_done : PortEvent
  ctx_done : PortEvent
  port_waiting : PortEvent

-- `poll_waiting`: the log could no longer be read, and the child goes on.
pub data PollEvent : Type 0 where
  poll_scanner_done poll_deadline poll_tick poll_waiting : PollEvent

pub data ExitEvent : Type 0 where
  exit_done exit_timeout exit_ctx_done : ExitEvent

pub data HttpOutcome : Type 0 where
  transport_error : HttpOutcome
  response : ℕ → Bytes → HttpOutcome

pub record Reply (W A : Type 0) : Type 0 where
  pub value : A
  pub events : List Background
  pub world : W

pub record Host : Type 1 where
  pub World : Type 0
  -- time.Now().UnixNano()
  pub now : World → Reply World ℕ
  -- daemonCtx.Err() != nil
  pub ctx_err : World → Reply World Bool
  -- GET http://host:port/health answered 200 within the time.
  pub get_health : Bytes → ℕ → ℕ → World → Reply World Bool
  -- The stderr pipe, and cmd.Start with the arguments made from the configuration.
  pub open_pipe : World → Reply World Bool
  pub start_cmd : List Bytes → Config → World → Reply World (Option ℕ)
  pub await_port : ℕ → World → Reply World PortEvent
  -- The wait between two health checks, with the deadline of the poll.
  pub await_poll : ℕ → ℕ → World → Reply World PollEvent
  -- The wait after SIGTERM; the flag says whether the caller's context can be cancelled.
  pub await_exit : ℕ → Bool → World → Reply World ExitEvent
  pub post : Bytes → ℕ → Bytes → Bytes → World → Reply World HttpOutcome
  -- The wait for a lock: what the other goroutines make of the backend meanwhile.
  pub wait_lock : LlamaBackend → World → LlamaBackend × World

pub record Sys (H : Host) : Type 0 where
  pub backend : LlamaBackend
  pub world : H.World
  pub trace : List Action

abbrev same_cmd : Option ℕ → ℕ → Bool
same_cmd none pid = false
same_cmd (some p) pid = p == pid

-- watchChild after cmd.Wait: it clears the fields if they still belong to this command.
unfoldable pub watch_child : ℕ → LlamaBackend → LlamaBackend
watch_child pid b =
    if same_cmd b.cmd pid then record b { cmd = none; port = 0; state = child_failed } else b

unfoldable pub apply_event : Background → LlamaBackend → LlamaBackend
apply_event (exited pid) b = watch_child pid b
apply_event (noted_alive t) b = record b { last_alive = t }

unfoldable pub apply_events : List Background → LlamaBackend → LlamaBackend
apply_events [] b = b
apply_events (e ∷ es) b = apply_events es (apply_event e b)

module _ (H : Host) where
  abbrev pub M : Type 0 → Type 0
  M A = Sys H → A × Sys H

  -- A call to the host: its value, after what happened meanwhile.
  unfoldable pub call : {A : Type 0} → (H.World → Reply H.World A) → M A
  call f s =
      let r = f s.world in
      (r.value, record s { backend = apply_events r.events s.backend; world = r.world })

  abbrev pub lock_wait : M (Unit {0})
  lock_wait s =
      let (b, w) = H.wait_lock s.backend s.world in (tt, record s { backend = b; world = w })

  abbrev pub modify : (LlamaBackend → LlamaBackend) → M (Unit {0})
  modify f s = (tt, record s { backend = f s.backend })

  abbrev pub act : Action → M (Unit {0})
  act a s = (tt, record s { trace = a ∷ s.trace })

  abbrev pub get : M LlamaBackend
  get s = (s.backend, s)

abbrev pub pure : {H : Host} {A : Type 0} → A → M H A
pure a s = (a, s)

infixl 5 ◌>>=◌ ◌>>◌
abbrev pub ◌>>=◌ : {H : Host} {A B : Type 0} → M H A → (A → M H B) → M H B
◌>>=◌ m f s = let r = m s in f r.0 r.1

abbrev pub ◌>>◌ : {H : Host} {B : Type 0} → M H (Unit {0}) → M H B → M H B
m >> k = m >>= λ _. k
