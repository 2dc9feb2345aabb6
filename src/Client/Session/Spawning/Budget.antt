-- ===== src/Client/Session/Spawning/Budget.antt =====
-- A bound on the processes started, step by step.
use runed.Prelude.{ℕ, ◌+◌, ◌≤◌, ◌≡◌, arith, Bool, true, false, List, [], ◌∷◌, Result}
use runed.Client.{Code, Remote, call_with_respawn}
use runed.Client.Keeps.{call_with_respawn-reaches, call_with_respawn-no_spawn}
use runed.Client.Session.{Call, call_embed, call_embed_batch, call_info}

-- The bound after one step that may start a process, and after one call, unless WithNoSpawn forbids it.
abbrev pub one_more : Bool → ℕ → ℕ
one_more true n = n
one_more false n = n + 1

abbrev pub with_call : Bool → Call → ℕ → ℕ
with_call b (call_embed t) n = one_more b n
with_call b (call_embed_batch ts) n = one_more b n
with_call b call_info n = n

abbrev pub with_calls : Bool → List Call → ℕ → ℕ
with_calls b [] n = n
with_calls b (c ∷ cs) n = with_calls b cs (with_call b c n)

-- A call whose EnsureDaemon uses up one of a budget.
pub call-Budgeted :
    {V B : Type 0} (R : Remote V) (rpc : R.State → Result Code B × R.State)
    (W : Bool → ℕ → R.State → Type 0)
    → ((b : Bool) (n : ℕ) (s : R.State) → W b n s → W b (n + 1) s)
    → ((b : Bool) (n : ℕ) (s : R.State) → W b n s → W b n (rpc s).1)
    → ((b : Bool) (n : ℕ) (s : R.State) → W b n s → W b n (R.wait_lock s))
    → ((b : Bool) (n : ℕ) (s : R.State) → W b n s → W b (n + 1) (R.ensure_daemon s).1)
    → ((b : Bool) (n : ℕ) (s : R.State) → W b n s → W b n (R.reconnect s).1)
    → (b : Bool) (n : ℕ) (s : R.State) (no_spawn : Bool) → no_spawn ≡ b
    → W b n s
    → W b (one_more b n) (call_with_respawn R rpc no_spawn s).1
call-Budgeted R rpc W more kept wait ensure reconnect true n s x e h = rw e (
    call_with_respawn-no_spawn R rpc (W true n) (W true (n + 1)) (more true n) (kept true n)
      (kept true (n + 1)) (wait true n) (ensure true n) (reconnect true (n + 1)) s h)
call-Budgeted R rpc W more kept wait ensure reconnect false n s x e h = rw e (
    call_with_respawn-reaches R rpc (W false n) (W false (n + 1)) (more false n) (kept false n)
      (kept false (n + 1)) (wait false n) (ensure false n) (reconnect false (n + 1)) false s h)

pub one_more-lem : (b : Bool) (n : ℕ) → n ≤ one_more b n
one_more-lem true n = omega arith
one_more-lem false n = omega arith

with_call-lem : (b : Bool) (c : Call) (n : ℕ) → n ≤ with_call b c n
with_call-lem b (call_embed t) n = one_more-lem b n
with_call-lem b (call_embed_batch ts) n = one_more-lem b n
with_call-lem b call_info n = omega arith

pub with_calls-lem : (b : Bool) (cs : List Call) (n : ℕ) → n ≤ with_calls b cs n
with_calls-lem b [] n = omega arith
with_calls-lem b (c ∷ cs) n =
    omega (arith, with_call-lem b c n, with_calls-lem b cs (with_call b c n))
