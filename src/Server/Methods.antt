-- ===== src/Server/Methods.antt =====
-- UnaryActivityInterceptor, with isEmbedMethod and shortMethod.
pub mod Laws
use runed.Prelude.{ℕ, Bool, true, false, List, [], ◌∷◌, Bytes, text, bytes_eq, ◌||◌, ◌==◌}
use runed.Prelude.{if◌then◌else◌, Result, ok, err}
use runed.Server.Types.{Server}
use runed.Server.Wiring.{stamp_activity}

-- strings.HasSuffix
unfoldable pub has_suffix : Bytes → Bytes → Bool
has_suffix [] suffix = bytes_eq [] suffix
has_suffix (c ∷ s) suffix = bytes_eq (c ∷ s) suffix || has_suffix s suffix

unfoldable pub is_embed_method : Bytes → Bool
is_embed_method full_method =
    has_suffix full_method (text "/Embed") || has_suffix full_method (text "/EmbedBatch")

-- What follows the last slash, if there is one, else `kept`.
unfoldable pub after_last_slash : Bytes → Bytes → Bytes
after_last_slash kept [] = kept
after_last_slash kept (c ∷ s) = after_last_slash (if c == b'/' then s else kept) s

unfoldable pub short_method : Bytes → Bytes
unfolding after_last_slash
short_method full_method = after_last_slash full_method full_method

-- The log lines of an RPC; the flag of the second says whether it failed. Durations are left out.
pub data LogLine : Type 0 where
  rpc_start : Bytes → LogLine
  rpc_done : Bytes → Bool → LogLine

abbrev failed : {E A : Type 0} → Result E A → Bool
failed (ok a) = false
failed (err e) = true

-- `now` is time.Now() at the entry; the handler's state is the service and what else it changes.
unfoldable pub intercept :
    {V W E A : Type 0}
    → ℕ
    → Bytes
    → (Server V → W → Result E A × Server V × W)
    → Server V
    → W
    → (Result E A × Server V × W) × List LogLine
unfolding is_embed_method short_method
intercept now full_method handler s w =
    let r = handler (stamp_activity now s) w in
    let method = short_method full_method in
    (
      r,
      if is_embed_method full_method
          then rpc_start method ∷ rpc_done method (failed r.0) ∷ []
          else [],
    )
