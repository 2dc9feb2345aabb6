-- ===== src/Client/Demo.antt =====
-- main of cmd/rundemo/main.go: a client that asks for Info and one embedding, up to its exit code. os.Exit
-- does not run the deferred Close.
use runed.Prelude.{
  Bool, List, [], ◌∷◌, Option, none, some, Bytes, text, Result, ok, err, ltb, length, if◌then◌else◌,
}
use runed.Server.Wiring.{InfoResponse}
use runed.Client.{Code, ClientError, embed}
use runed.Client.Connect.{Dialer, Connected, connect}
use runed.Client.Session.{Stub, Held, remote, info, close}

-- The message on standard error, with exit code 1.
pub data DemoError : Type 0 where
  connect_failed info_failed embed_failed short_vector : DemoError

-- The arguments without the program's name.
abbrev pub demo_text : List Bytes → Bytes
demo_text [] = text "the quick brown fox jumps over the lazy dog"
demo_text (t ∷ ts) = t

module _ {V : Type 0} (D : Dialer) (stub : Stub D V) where
  unfoldable pub embedded : Result ClientError (List V) × Held D stub → Option DemoError × D.State
  embedded (err e, h) = (some embed_failed, h.1)
  embedded (ok vec, h) =
      if ltb (length vec) 5 then (some short_vector, h.1) else (none, close D stub h)

  unfoldable pub informed :
      List Bytes → Result Code InfoResponse × Held D stub → Option DemoError × D.State
  unfolding embedded remote
  informed args (err e, h) = (some info_failed, h.1)
  informed args (ok i, h) = embedded (embed (remote D stub) h.0.no_spawn (demo_text args) h)

  unfoldable pub connected : List Bytes → Connected D → Option DemoError × D.State
  unfolding informed
  connected args (err e, s) = (some connect_failed, s)
  connected args (ok c, s) = informed args (info D stub (c, s))

  unfoldable pub demo : Bool → List Bytes → Option Bytes → D.State → Option DemoError × D.State
  unfolding connected
  demo on_windows args home s = connected args (connect D on_windows [] home s)
