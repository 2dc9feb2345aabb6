-- ===== src/Examples/ClientRuns.antt =====
-- A client whose first call finds the daemon gone, and that reconnects.
use runed.Prelude.{
  ℕ, ◌+◌, ◌≡◌, ◌≢◌, ◌⊎◌, refl, arith, Bool, true, false, not, ◌&&◌, ◌||◌, [], ◌∷◌, Option, none,
  some, Bytes, text, ok, err, bytes_eq, bytes_eq_iff, if◌then◌else◌,
}
use runed.Client.{unavailable, embed}
use runed.Client.Connect.{
  Dialer, connect, default_path, dial_and_probe, reconnect_locked, with_socket_path,
}
use runed.Client.Session.{Stub, call_embed, call_info, session, info}
use runed.Client.Session.Closed.{IsLedger, NoneOpen, CallsOwn, session-Closed}
use runed.Client.Demo.{demo, info_failed}

-- The number of connections made so far, and those that are open.
abbrev Conns : Type 0
Conns = ℕ × (Bytes → Bool)

abbrev dialer : Dialer
dialer = record {
  State = Conns;
  resolve = λ p. p;
  new_client = λ t s. (some (s.0 ∷ []), (s.0 + 1, λ k. bytes_eq k (s.0 ∷ []) || s.1 k));
  health = λ c s. (true, s);
  close = λ c s. (s.0, λ k. not (bytes_eq k c) && s.1 k);
  ensure_daemon = λ p s. (true, s);
}

-- An embedding is answered over a second connection only.
abbrev stub : Stub dialer ℕ
stub = record {
  embed =
      λ c t s. (if bytes_eq c (0 ∷ []) then err unavailable else ok (1 ∷ 2 ∷ 3 ∷ 4 ∷ 5 ∷ []), s);
  embed_batch = λ c ts s. (ok [], s);
  info = λ c s. (err unavailable, s);
  raced = λ s. false;
}

opened :
    (c k : Bytes) (b : Bool)
    → (bytes_eq k c || b) ≡ true
    → (b ≡ true) ⊎ (◌≡◌ {A = Option Bytes} (some c) (some k))
opened c k b h = ground (arith, bytes_eq_iff k c)

not_closed : (c k : Bytes) (b : Bool) → (not (bytes_eq k c) && b) ≡ true → (b ≡ true) × (k ≢ c)
not_closed c k b h = ground (arith, bytes_eq_iff k c)

abbrev ledger : IsLedger dialer stub
ledger = record {
  open_at = λ s k. s.1 k;
  new_client = λ t s k h. opened (s.0 ∷ []) k (s.1 k) h;
  close = λ c s k h. not_closed c k (s.1 k) h;
  health = λ c s k h. h;
  ensure_daemon = λ p s k h. h;
  embed = λ c t s k h. h;
  embed_batch = λ c ts s k h. h;
  info = λ c s k h. h;
}

abbrev at_first : Conns
at_first = (0, λ k. false)

-- Of the two connections neither is open at the end.
second_made :
    (session dialer stub false [] (some (text "/h")) (call_embed (text "a") ∷ []) at_first).0 ≡ 2
unfolding session connect default_path dial_and_probe embed bytes_eq reconnect_locked
second_made = refl

session-Closed_example :
    CallsOwn dialer stub ledger
      (call_embed (text "a") ∷ call_info ∷ [])
      (connect dialer false (with_socket_path (text "/s") ∷ []) none at_first)
    × NoneOpen dialer stub ledger (
        session dialer stub false
          (with_socket_path (text "/s") ∷ [])
          none
          (call_embed (text "a") ∷ call_info ∷ [])
          at_first)
session-Closed_example =
    session-Closed dialer stub ledger false (with_socket_path (text "/s") ∷ []) none
      (call_embed (text "a") ∷ call_info ∷ []) at_first (λ k. refl)

-- rundemo stops at Info, which is not answered.
demo_informed : (demo dialer stub false [] (some (text "/h")) at_first).0 ≡ some info_failed
unfolding demo connect default_path dial_and_probe info
demo_informed = refl
