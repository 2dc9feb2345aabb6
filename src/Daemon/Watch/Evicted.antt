-- ===== src/Daemon/Watch/Evicted.antt =====
-- When the watchdog evicts the daemon.
use runed.Prelude.{
  ◌≡◌, ◌≢◌, refl, ◌↔◌, ◌⊎◌, inl, inr, arith, Bool, true, false, List, [], ◌∷◌, ◌++◌, All,
}
use runed.Server.Wiring.{trigger_shutdown}
use runed.Daemon.Watch.{
  WatchEvent, tick, context_done, shutdown_begun, Daemon, self_evict, watch_socket_ownership,
}

-- A tick at which the socket is still owned.
abbrev pub Owned : WatchEvent → Type 0
Owned e = (closing : Bool) × (e ≡ tick true closing)

-- After ticks that found the socket owned comes one that found it lost while no shutdown had begun.
abbrev pub Loses : List WatchEvent → Type 0
Loses es =
    (before : List WatchEvent) × (after : List WatchEvent) × (es
      ≡ before ++ (tick false false ∷ after))
    × All Owned before

Loses-head :
    (e : WatchEvent) (es : List WatchEvent)
    → Loses (e ∷ es)
    → (e ≡ tick false false) ⊎ (Owned e × Loses es)
Loses-head e es ([], after, q, _) = inl cc
Loses-head e es (b ∷ before, after, q, ((closing, o), owned)) =
    inr ((closing, cc), (before, after, cc, owned))

nothing : ¬ Loses []
nothing ([], after, q, _) = cc
nothing (b ∷ before, after, q, _) = cc

Loses-tail : (closing : Bool) (es : List WatchEvent) → Loses es → Loses (tick true closing ∷ es)
Loses-tail closing es (before, after, q, owned) =
    (tick true closing ∷ before, after, cc, ((closing, refl), owned))

-- A first event that neither loses the socket nor is passed over.
stays :
    (e : WatchEvent) (es : List WatchEvent) → e ≢ tick false false → ¬ Owned e → ¬ Loses (e ∷ es)
stays e es lost owned l = elim (Loses-head e es l) [ inl q ↦ lost q | inr (o, more) ↦ owned o ]

module _ {V : Type 0} where
  -- The watchdog of a daemon that has not been evicted evicts it exactly if the socket is lost before
  -- anything else ends the daemon. Then the shutdown has begun and the context is cancelled; else
  -- nothing has changed.
  pub watch_socket_ownership-Loses :
      (es : List WatchEvent) (d : Daemon V)
      → d.evicted ≡ false
      → let r = watch_socket_ownership es d in
        ((r.evicted ≡ true) ↔ Loses es)
        × (((r.evicted ≡ true) × (r.server.shutdown_closed ≡ true) × (r.cancelled ≡ true))
            ⊎ (r ≡ d))
  unfolding watch_socket_ownership self_evict trigger_shutdown
  watch_socket_ownership-Loses [] d h =
      ((λ q. absurd (ground arith), λ l. absurd (nothing l)), inr refl)
  watch_socket_ownership-Loses (context_done ∷ es) d h =
      ((λ q. absurd (ground arith), λ l. absurd (stays _ es (λ e. cc) (λ o. cc o.1) l)), inr refl)
  watch_socket_ownership-Loses (shutdown_begun ∷ es) d h =
      ((λ q. absurd (ground arith), λ l. absurd (stays _ es (λ e. cc) (λ o. cc o.1) l)), inr refl)
  watch_socket_ownership-Loses (tick true closing ∷ es) d h =
      let (evicts, ended) = watch_socket_ownership-Loses es d h in
      (
        (
          λ q. Loses-tail closing es (evicts.0 q),
          λ l. elim (Loses-head (tick true closing) es l) [
            | inl q ↦ absurd (ground arith)
            | inr (o, more) ↦ evicts.1 more
          ],
        ),
        ended,
      )
  watch_socket_ownership-Loses (tick false true ∷ es) d h = (
    (
      λ q. absurd (ground arith),
      λ l. absurd (stays _ es (λ e. absurd (ground arith)) (λ o. absurd (ground (arith, o.1))) l),
    ),
    inr refl,
  )
  watch_socket_ownership-Loses (tick false false ∷ es) d h =
      ((λ q. ([], es, refl, tt), λ l. refl), inl (refl, refl, refl))
