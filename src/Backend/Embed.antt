-- ===== src/Backend/Embed.antt =====
-- internal/backend/embed.go: doJSON, Embed and EmbedBatch. encoding/json is a parameter: Marshal of
-- the request and Decode of the response's `data` list.
pub mod Laws
use runed.Prelude.{ℕ, List, [], ◌∷◌, Option, none, some, Bytes, text, take, length}
use runed.Prelude.{◌==◌, if◌then◌else◌, Result, ok, err}
use runed.Backend.Host.{
  Host, Sys, M, call, get, act, pure, lock_wait, ◌>>=◌, ◌>>◌, posted, HttpOutcome, transport_error,
  response,
}
use runed.Backend.Probe.{note_alive}

abbrev pub max_error_body_bytes : ℕ
max_error_body_bytes = 4096

-- `embedReq.Input`: a string or a list of strings.
pub data EmbedInput : Type 0 where
  single : Bytes → EmbedInput
  several : List Bytes → EmbedInput

pub data EmbedError : Type 0 where
  not_started marshal_failed http_failed decode_failed empty_response : EmbedError
  bad_status : ℕ → Bytes → EmbedError
  batch_mismatch : ℕ → ℕ → EmbedError

pub record Json (V : Type 0) : Type 0 where
  pub marshal : EmbedInput → Option Bytes
  pub decode : Bytes → Option (List (List V))

module _ (H : Host) {V : Type 0} (json : Json V) where
  unfoldable pub decoded : Option (List (List V)) → M H (Result EmbedError (List (List V)))
  decoded none = pure (err decode_failed)
  decoded (some out) = do note_alive H; pure (ok out)

  unfoldable pub answered : HttpOutcome → M H (Result EmbedError (List (List V)))
  answered transport_error = pure (err http_failed)
  answered (response status body) =
      if status == 200
      then decoded (json.decode body)
      else pure (err (bad_status status (take max_error_body_bytes body)))

  -- The port is read before the body is made.
  unfoldable pub send : Bytes → ℕ → Option Bytes → M H (Result EmbedError (List (List V)))
  send host port none = pure (err marshal_failed)
  send host port (some body) = do
    act H (posted port)
    outcome ← call H (H.post host port (text "/v1/embeddings") body)
    answered outcome

  unfoldable pub do_json : EmbedInput → M H (Result EmbedError (List (List V)))
  do_json input = do
    b ← get H
    if b.port == 0 then pure (err not_started) else send b.cfg.host b.port (json.marshal input)

  unfoldable pub first_vector : Result EmbedError (List (List V)) → Result EmbedError (List V)
  first_vector (err e) = err e
  first_vector (ok []) = err empty_response
  first_vector (ok (v ∷ vs)) = ok v

  -- `lock_wait` is the wait for the reader's side of inflightMu.
  unfoldable pub embed : Bytes → M H (Result EmbedError (List V))
  embed input = do lock_wait H; out ← do_json (single input); pure (first_vector out)

  unfoldable pub check_size :
      ℕ → Result EmbedError (List (List V)) → Result EmbedError (List (List V))
  check_size n (err e) = err e
  check_size n (ok vs) = if length vs == n then ok vs else err (batch_mismatch n (length vs))

  unfoldable pub embed_batch : List Bytes → M H (Result EmbedError (List (List V)))
  embed_batch [] = pure (ok [])
  embed_batch (t ∷ ts) = do
    lock_wait H
    out ← do_json (several (t ∷ ts))
    pure (check_size (length (t ∷ ts)) out)
