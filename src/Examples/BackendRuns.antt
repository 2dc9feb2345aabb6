-- ===== src/Examples/BackendRuns.antt =====
-- The backend at the host of Sample.
use runed.Prelude.{
  ℕ, ◌+◌, ◌≤◌, ◌≡◌, refl, ◌⊎◌, true, false, List, [], ◌∷◌, none, some, is_some, Bytes, text, arith,
  ok,
}
use runed.Backend.Types.{
  Config, LlamaBackend, new_llama_backend, quick_probe_timeout, verdict_probe_timeout, serving_idle,
}
use runed.Backend.Host.{Host, Sys, lock_wait, call, apply_events}
use runed.Backend.Probe.{note_alive}
use runed.Backend.Child.{start_locked}
use runed.Backend.Child.Ready.{Settled, start_locked-Settled}
use runed.Backend.Lifecycle.{start, ensure_started, stop, serving, serving_down}
use runed.Backend.Lifecycle.Consistency.{Consistent}
use runed.Backend.Lifecycle.Verdict.{ends, failures, ensure_started-ends}
use runed.Backend.Lifecycle.Suspend.{stop-serving}
use runed.Backend.Embed.{Json, do_json, embed_batch, check_size, send, answered, decoded}
use runed.Examples.Sample.{clock_host, clock_host-IsTimely}

abbrev config : Config
config = record {
  binary_path = text "/bin/llama-server";
  model_path = text "/m.gguf";
  log_path = [];
  host = [];
  ctx_size = 0;
}

abbrev down : Sys clock_host
down = record { backend = new_llama_backend config; world = 0; trace = [] }

abbrev up : Sys clock_host
up = (start clock_host down).1

defaults : (new_llama_backend config).cfg.ctx_size ≡ 2048
unfolding new_llama_backend
defaults = refl

-- Every vector of the answer is the body itself.
abbrev echo : Json ℕ
echo = record { marshal = λ input. some (text "{}"); decode = λ body. some (body ∷ body ∷ []) }

down-Consistent : Consistent clock_host down
unfolding new_llama_backend
down-Consistent h = refl

-- The child 7 has gone silent, and a new one is called 9.
abbrev silent_host : Host
silent_host = record clock_host {
  get_health = λ host port d w. record { value = false; events = []; world = w };
  start_cmd = λ args cfg w. record { value = some 9; events = []; world = w };
}

abbrev silent : Sys silent_host
silent = record {
  backend = record (new_llama_backend config) { cmd = some 7; port = 8080; started = true };
  world = 20000000000;
  trace = [];
}

ensure_started-ends_example :
    let t = (ensure_started silent_host silent).1 in
    (ends 7 t.trace ≡ 0)
    ⊎ ((0 + 1 ≤ failures quick_probe_timeout t.trace)
        × (0 + 2 ≤ failures verdict_probe_timeout t.trace))
ensure_started-ends_example =
    ensure_started-ends silent_host 7 (λ args cfg w e. absurd (ground arith)) silent

start_locked-Settled_example : Settled (start_locked clock_host down)
start_locked-Settled_example = start_locked-Settled clock_host clock_host-IsTimely down

stop-serving_example :
    let held = (lock_wait clock_host up).1 in
    let t = (stop clock_host true up).1 in
    ((is_some held.backend.cmd ≡ true)
      × (t.backend.cmd ≡ none)
      × (t.backend.port ≡ 0)
      × (t.backend.stopping ≡ false)
      × ((serving clock_host t).0 ≡ serving_idle))
    ⊎ ((held.backend.cmd ≡ none)
        × (t ≡ held)
        × ((serving clock_host t).0 ≡ serving_down held.backend.state))
stop-serving_example = stop-serving clock_host true up

abbrev serving_backend : LlamaBackend
serving_backend = record down.backend { cmd = some 7; port = 8080 }

abbrev two : List Bytes
two = text "a" ∷ text "b" ∷ []

abbrev vectors : List (List ℕ)
vectors = text "{}" ∷ text "{}" ∷ []

abbrev ready : Sys clock_host
ready = record down { backend = serving_backend }

answered_two : (embed_batch clock_host echo two ready).0 ≡ ok vectors
unfolding embed_batch check_size do_json send answered decoded note_alive call apply_events
answered_two = refl
