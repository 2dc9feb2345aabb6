-- ===== src/Examples/ServerRuns.antt =====
-- The service over the host of Sample, with one set of 1024-dimensional centroids.
use runed.Prelude.{
  ℕ, zero, suc, ◌+◌, ◌≡◌, refl, ◌≢◌, ◌↔◌, arith, Bool, true, List, [], ◌∷◌, none, some, Bytes, text,
  ok, err, length, All, map, ap, bytes_eq, Result, ltb, if◌then◌else◌,
}
use runed.Prelude.FilePath.{join}
use runed.Route.Set.{CentroidSet, validate}
use runed.Route.Assign.{assign, dot}
use runed.Route.Version.{verify_version, compute_version}
use runed.Route.Cache.{Codec, Disk, PersistCalls, cache_path}
use runed.Route.Cache.RoundTrip.{temp_path}
use runed.Backend.Types.{new_llama_backend, serving_idle}
use runed.Backend.Host.{Sys, call, apply_events}
use runed.Backend.Lifecycle.{ensure_started, ensure_held, ensure_running}
use runed.Backend.Probe.{probe_healthy, note_alive}
use runed.Backend.Embed
use runed.Backend.Embed.{check_size, do_json, send, answered, decoded}
use runed.Backend.Embed.{Json, EmbedError, not_started}
use runed.Server.Types.{Server, Embedder, EmbedResponse, precondition, no_centroid_set}
use runed.Server.Wiring.{new, set_backend}
use runed.Server.Embed.{
  embed, embed_batch, attempt, admit, respond, serve_admitted, after_ensure, after_run,
}
use runed.Server.Embed.Laws.{Refused, RoutedBy, embed-Refused, embed-RoutedBy, embed_batch-RoutedBy}
use runed.Server.Centroids.{
  Frame, header, batch, eof, set_centroids, SetCentroidsResponse, collect, accept, finish,
}
use runed.Server.Health.{}
use runed.Server.Methods.Laws.{IsSegment}
use runed.Server.Service.{llama_embedder}
use runed.Daemon.Boot.{restore_centroids}
use runed.Daemon.Boot.Restart.{restore_centroids-set_centroids}
use runed.Examples.Sample.{whole, short_hash, clock_host}

abbrev row : ℕ → List Bool
row zero = []
row (suc n) = true ∷ row n

abbrev vector : List Bool
vector = row 1024

-- Its state is the number of embedding calls. Of these the first `bad` find no child.
abbrev restless : ℕ → Embedder Bool
restless bad = record {
  State = ℕ;
  ctx_size = λ t. 2048;
  ensure_started = λ t. (none, t);
  embed = λ text t. (if ltb t bad then err not_started else ok vector, suc t);
  embed_batch = λ texts t. (ok (map (λ text. vector) texts), suc t);
  serving = λ t. (serving_idle, t);
}

abbrev frames : List (Frame Bool)
frames = header (text "sha256:00") 1024 (text "p") ∷ batch (vector ∷ []) ∷ batch (vector ∷ []) ∷ []

abbrev pub pushed : CentroidSet Bool
pushed = record {
  version = text "sha256:00";
  dim = 1024;
  preset = text "p";
  vectors = vector ∷ vector ∷ [];
}

abbrev pub gob : Codec Bool
gob = record { encode = λ s. text "gob"; decode = λ content. some pushed }

abbrev pub calls : PersistCalls
calls = record {
  mkdir_all = true;
  create_temp = true;
  encode = true;
  partial = [];
  close = true;
  rename = true;
  remove = true;
}

abbrev pub fresh : Server Bool
fresh = record (new (text "v1") 5) { centroid_cache_dir = text "/c" }

abbrev pub empty_disk : Disk
empty_disk p = none

abbrev served : Server Bool
served = record (set_backend 2048 (text "m") fresh) { centroids = some pushed }

-- Twice the child comes up and is gone again.
abbrev twice : Embedder Bool
twice = restless 2

abbrev once : Embedder Bool
once = restless 1

abbrev ask : ℕ → Result EmbedError (List Bool) × ℕ
ask = twice.embed (text "a")

embed-Refused_example :
    ((embed whole once (text "a") true fresh 0).0 ≡ err (precondition no_centroid_set))
    ↔ Refused no_centroid_set true fresh
embed-Refused_example = embed-Refused whole once (text "a") true fresh 0 no_centroid_set

abbrev routed : EmbedResponse Bool
routed = record { vector = vector; cluster_id = 0; centroid_set_version = text "sha256:00" }

embed_routed : (embed whole once (text "a") true served 0).0 ≡ ok routed
unfolding embed serve_admitted admit respond attempt after_ensure after_run assign dot set_backend
embed_routed = refl

embed-RoutedBy_example :
    ((u : ℕ) × ((once.embed (text "a") u).0 ≡ ok routed.vector))
    × RoutedBy whole true served routed
    × ((embed whole once (text "a") true served 0).1
        ≡ record served { requests = served.requests + 1 })
embed-RoutedBy_example = embed-RoutedBy whole once (text "a") true served 0 routed embed_routed

abbrev two : List Bytes
two = text "a" ∷ text "b" ∷ []

embed_batch_routed : (embed_batch whole once two true served 0).0 ≡ ok (routed ∷ routed ∷ [])
unfolding embed_batch serve_admitted admit respond attempt after_ensure after_run assign dot
    set_backend
embed_batch_routed = refl

embed_batch-RoutedBy_example :
    ((u : ℕ) × ((once.embed_batch two u).0
        ≡ ok (map (λ (r : EmbedResponse Bool). r.vector) (routed ∷ routed ∷ []))))
    × All (RoutedBy whole true served) (routed ∷ routed ∷ [])
    × ((embed_batch whole once two true served 0).1
        ≡ record served { requests = served.requests + 1 })
embed_batch-RoutedBy_example =
    embed_batch-RoutedBy whole once two true served 0 (routed ∷ routed ∷ []) embed_batch_routed

abbrev two_set : SetCentroidsResponse
two_set = record { version = text "sha256:00"; nlist = 2 }

push_ok :
    (set_centroids whole short_hash gob frames eof (text "1") calls fresh empty_disk).0 ≡ ok two_set
unfolding set_centroids collect accept finish validate verify_version compute_version bytes_eq
push_ok = refl

frames-collect : collect none frames eof ≡ ok (some pushed)
unfolding collect
frames-collect = refl

temp_differs : temp_path (text "/c") (text "1") ≢ cache_path (text "/c")
unfolding join
temp_differs e = absurd (omega (arith, ap length e))

restore_centroids-set_centroids_example :
    let r = set_centroids whole short_hash gob frames eof (text "1") calls fresh empty_disk in
    (restore_centroids whole short_hash gob (text "/c") r.2 (new (text "v2") 9)).centroids
    ≡ r.1.centroids
restore_centroids-set_centroids_example =
    restore_centroids-set_centroids whole short_hash gob frames eof (text "1") calls fresh
      (new (text "v2") 9) empty_disk two_set (λ cs e. ground (arith, frames-collect)) temp_differs
      (λ e. absurd (omega (arith, ap length e)))
      (record { mkdir_all = refl; create_temp = refl; encode = refl; close = refl; rename = refl })
      push_ok

batch-IsSegment : IsSegment (text "EmbedBatch")
batch-IsSegment = ground arith

-- Every answer is two vectors.
abbrev pair : Json Bool
pair = record { marshal = λ input. some (text "{}"); decode = λ body. some (vector ∷ vector ∷ []) }

abbrev child : Sys clock_host
child = record {
  backend =
      record (new_llama_backend (record {
        binary_path = text "/bin/llama-server";
        model_path = text "/m.gguf";
        log_path = [];
        host = [];
        ctx_size = 0;
      })) { cmd = some 7; port = 8080; started = true };
  world = 1000000000;
  trace = [];
}

batch_answered :
    (embed_batch whole (llama_embedder clock_host pair) two true served child).0
    ≡ ok (routed ∷ routed ∷ [])
unfolding embed_batch serve_admitted admit respond attempt after_ensure after_run assign dot
    set_backend ensure_started ensure_held ensure_running probe_healthy call apply_events note_alive
    Embed.embed_batch check_size do_json send answered decoded new_llama_backend
batch_answered = refl
