-- ===== src/Server/Service.antt =====
-- The service over the llama-server backend: *backend.LlamaBackend as the service's embedder.
pub mod Resumes
use runed.Prelude.{◌≡◌, sym, ◌∙◌, Bytes, Bool, List, length, ok, length-map}
use runed.Route.Floats.{Floats}
use runed.Backend.Host.{Host, Sys}
use runed.Backend.Lifecycle.{ensure_started, serving}
use runed.Backend.Embed
use runed.Backend.Embed.{Json}
use runed.Backend.Embed.Laws.{embed_batch-length}
use runed.Server.Types.{Embedder, Server, EmbedResponse}
use runed.Server.Embed.{embed_batch}
use runed.Server.Embed.Laws.{embed_batch-RoutedBy}

abbrev pub llama_embedder : (H : Host) {V : Type 0} → Json V → Embedder V
llama_embedder H json = record {
  State = Sys H;
  ctx_size = λ s. s.backend.cfg.ctx_size;
  ensure_started = ensure_started H;
  embed = Embed.embed H json;
  embed_batch = Embed.embed_batch H json;
  serving = serving H;
}

-- Over the llama-server backend, EmbedBatch answers with exactly one embedding for each text.
embed_batch_one_each :
    (F : Floats) (H : Host) (json : Json F.F32) (texts : List Bytes) (with_route : Bool)
    (s : Server F.F32) (t : Sys H) (resp : List (EmbedResponse F.F32))
    → (embed_batch F (llama_embedder H json) texts with_route s t).0 ≡ ok resp
    → length resp ≡ length texts
embed_batch_one_each F H json texts with_route s t resp h =
    let ((u, answered), routed, counted) =
      embed_batch-RoutedBy F (llama_embedder H json) texts with_route s t resp h in
    sym (length-map (λ (r : EmbedResponse F.F32). r.vector) resp)
    ∙ (embed_batch-length H json texts u _ answered).0
