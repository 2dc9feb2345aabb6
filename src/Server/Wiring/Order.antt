-- ===== src/Server/Wiring/Order.antt =====
-- The order of the stores of SetBackend: a reader that sees the backend sees the rest.
use runed.Prelude.{ℕ, zero, suc, ◌^◌, ◌<◌, ◌≡◌, refl, true, false, arith, take, Bytes}
use runed.Server.Types.{Server}
use runed.Server.Wiring.{set_backend_stores, run_stores, info}

-- However many of the stores have been made, a server that did not have a backend before and has one
-- now reports the model identity and the context size that came with the backend, if the latter
-- is below 2^31 and so a positive int32.
set_backend_stores_order :
    {V : Type 0} (ctx : ℕ) (model : Bytes) (k : ℕ) (s : Server V)
    → ctx < 2 ^ 31
    → s.backend ≡ false
    → (run_stores (take k (set_backend_stores ctx model)) s).backend ≡ true
    → let i = info (run_stores (take k (set_backend_stores ctx model)) s) in
      (i.model_identity ≡ model) × (i.max_text_length ≡ ctx)
unfolding info
set_backend_stores_order ctx model zero s h fresh wired = cc
set_backend_stores_order ctx model (suc zero) s h fresh wired = cc
set_backend_stores_order ctx model (suc (suc zero)) s h fresh wired = cc
set_backend_stores_order ctx model (suc (suc (suc zero))) s h fresh wired = (refl, omega arith)
set_backend_stores_order ctx model (suc (suc (suc (suc k)))) s h fresh wired = (refl, omega arith)
