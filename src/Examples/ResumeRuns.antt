-- ===== src/Examples/ResumeRuns.antt =====
-- A daemon that is suspended and resumes.
use runed.Prelude.{◌+◌, ◌≡◌, refl, arith, Bool, true, false, [], ◌∷◌, some, text, List, ok}
use runed.Backend.Types.{new_llama_backend, serving_ok, Config}
use runed.Backend.Host.{Host, Sys, response}
use runed.Backend.Lifecycle.{stop, serving}
use runed.Backend.Lifecycle.Resume.{IsWilling}
use runed.Backend.Embed.{Json}
use runed.Server.Types.{Server}
use runed.Server.Wiring.{set_backend}
use runed.Server.Embed.{embed, respond, admit}
use runed.Server.Service.{llama_embedder}
use runed.Server.Service.Resumes.{embed_resumes}
use runed.Examples.Sample.{whole, clock_host}
use runed.Examples.ServerRuns.{fresh, pushed}

abbrev vector : List Bool
vector = true ∷ false ∷ []

abbrev host : Host
host = record clock_host {
  get_health = λ host port d w. record { value = true; events = []; world = w };
  post =
      λ host port path body w. record { value = response 200 (text "{}"); events = []; world = w };
}

abbrev json : Json Bool
json = record { marshal = λ input. some (text "{}"); decode = λ body. some (vector ∷ []) }

host-IsWilling : IsWilling host json 8080 vector
host-IsWilling = record {
  alone = λ b w. refl;
  now = λ w. refl;
  ctx_err = λ w. (refl, refl);
  open_pipe = λ w. (refl, refl);
  start_cmd = λ args cfg w. (7, (refl, refl));
  await_port = λ pid w. (refl, refl);
  positive = λ e. absurd (omega arith);
  get_health = λ h d w. (refl, refl);
  marshal = λ input. (text "{}", refl);
  answer = text "{}";
  post = λ h path body w. (refl, refl);
  rest = [];
  decode = refl;
}

abbrev config : Config
config = record {
  binary_path = text "/bin/llama-server";
  model_path = text "/m.gguf";
  log_path = [];
  host = [];
  ctx_size = 0;
}

-- The child 7 runs.
abbrev up : Sys host
up = record {
  backend = record (new_llama_backend config) { cmd = some 7; port = 8080; started = true };
  world = 0;
  trace = [];
}

abbrev service : Server Bool
service = record (set_backend 2048 (text "m") fresh) { centroids = some pushed }

embed_resumes_example :
    let r = embed whole (llama_embedder host json) (text "a") true service (stop host false up).1 in
    (r.0 ≡ ok (respond whole (some pushed) vector))
    × (r.1.requests ≡ service.requests + 1)
    × ((serving host r.2).0 ≡ serving_ok)
unfolding admit set_backend
embed_resumes_example =
    embed_resumes whole host json 8080 vector host-IsWilling false (text "a") true service up
      (some pushed) refl refl
