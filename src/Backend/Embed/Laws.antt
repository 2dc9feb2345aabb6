-- ===== src/Backend/Embed/Laws.antt =====
-- When an embedding call is refused, and what a successful one returns.
use runed.Prelude.{ℕ, ◌≡◌, refl, ◌≢◌, arith, List, [], ◌∷◌, ok, err, length, Bytes}
use runed.Prelude.{Option, none, some, Bool-cases, inl, inr, ◌==◌}
use runed.Prelude.{◌⊎◌}
use runed.Backend.Host.{Host, Sys, transport_error, response, HttpOutcome}
use runed.Backend.Embed.{
  Json, EmbedInput, not_started, do_json, embed_batch, send, answered, decoded, check_size,
}

module _ (H : Host) {V : Type 0} (json : Json V) where
  answered_started : (o : HttpOutcome) (s : Sys H) → (answered H json o s).0 ≢ err not_started
  unfolding answered decoded
  answered_started transport_error s e = cc
  answered_started (response status body) s e = ground arith

  send_started :
      (host : Bytes) (port : ℕ) (body : Option Bytes) (s : Sys H)
      → (send H json host port body s).0 ≢ err not_started
  unfolding send
  send_started host port none s e = cc
  send_started host port (some body) s e = answered_started _ _ e

  -- `ErrNotStarted` comes back exactly if there is no port, and then nothing has been sent and
  -- nothing has changed.
  do_json-not_started :
      (input : EmbedInput) (s : Sys H)
      → ((s.backend.port ≡ 0) × (do_json H json input s ≡ (err not_started, s)))
        ⊎ ((s.backend.port ≢ 0) × ((do_json H json input s).0 ≢ err not_started))
  unfolding do_json
  do_json-not_started input s = elim (Bool-cases (s.backend.port == 0)) [
    | inl e ↦ inl (ground arith, rw e)
    | inr e ↦
        inr (
          ground arith,
          rw e (send_started s.backend.cfg.host s.backend.port (json.marshal input) s),
        )
  ]

  -- A batch that succeeds has one vector for each text; none are asked for no texts, and then the
  -- backend is not touched.
  pub embed_batch-length :
      (texts : List Bytes) (s : Sys H) (vs : List (List V))
      → (embed_batch H json texts s).0 ≡ ok vs
      → (length vs ≡ length texts) × ((texts ≢ []) ⊎ ((embed_batch H json texts s).1 ≡ s))
  unfolding embed_batch check_size
  embed_batch-length [] s vs h = (ground arith, inr refl)
  embed_batch-length (t ∷ ts) s vs h = (ground arith, inl (λ e. cc))
