-- ===== src/Examples/HistoryRuns.antt =====
-- A history of the service: a status, the backend, a request, a push that is refused, and a shutdown.
use runed.Prelude.{pos, ℕ, ◌≡◌, refl, Bool, true, false, List, [], ◌∷◌, none, some, text, ok}
use runed.Backend.Types.{serving_ok}
use runed.Server.Types.{Embedder, phase_fetching_model}
use runed.Server.Centroids.{eof, accept, collect}
use runed.Server.History.{
  Op, op_status, op_backend, op_trigger, op_query, op_embed, op_set_centroids, run_ops, requests_of,
  admitted, last_set, last_backend,
}
use runed.Server.History.Seen.{begin, specified, run_ops-specified}
use runed.Examples.Sample.{whole, short_hash}
use runed.Examples.ServerRuns.{gob, pushed, calls, empty_disk}

abbrev willing : Embedder Bool
willing = record {
  State = ℕ;
  ctx_size = λ t. 2048;
  ensure_started = λ t. (none, t);
  embed = λ text t. (ok (true ∷ []), t);
  embed_batch = λ texts t. (ok [], t);
  serving = λ t. (serving_ok, t);
}

-- The last call first: the second request wants a route, and the first comes before the backend.
abbrev calls_made : List (Op Bool)
calls_made =
    op_trigger
    ∷ op_embed 40 (text "b") true
    ∷ op_set_centroids [] eof [] calls
    ∷ op_backend 2048 (text "m")
    ∷ op_embed 30 (text "a") false
    ∷ op_query 20
    ∷ op_status phase_fetching_model 1 (pos 2) (text "fetching")
    ∷ []

one_counted : requests_of whole short_hash (some pushed) calls_made ≡ 1
unfolding requests_of admitted last_set last_backend accept collect
one_counted = refl

run_ops-specified_example :
    (run_ops whole short_hash gob willing calls_made
      (begin whole short_hash gob willing (text "v1") 5 (text "/c") (some pushed) 0 empty_disk)).0
    ≡ specified whole short_hash (text "v1") 5 (text "/c") (some pushed) calls_made
run_ops-specified_example =
    run_ops-specified whole short_hash gob willing (text "v1") 5 (text "/c") (some pushed) 0
      empty_disk calls_made
