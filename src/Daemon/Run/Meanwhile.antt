-- ===== src/Daemon/Run/Meanwhile.antt =====
-- What the other goroutines do during a run, and what is left of the events without it.
use runed.Prelude.{
  ◌≡◌, refl, ap, ◌∙◌, arith, Bool, true, false, not, ◌&&◌, List, [], ◌∷◌, ◌++◌, All, Bool-cases,
  inl, inr, if◌then◌else◌, ℕ, ◌<◌, ◌⊎◌,
}
use mathlib.Core.Path.{ap₂}
use runed.Daemon.Run.{
  Event, meanwhile, Background, idle_stop, handler_start, self_evict, rpc_shutdown, start_backend,
  trigger_shutdown, graceful_stop, force_stop, stop_backend, idle_ticker, can_happen, happened,
  Outcomes, stop_grpc, wind_down,
}

-- An act of the goroutine of run itself.
abbrev pub is_own : Event → Bool
is_own (meanwhile b) = false
is_own e = true

abbrev pub own : List Event → List Event
own [] = []
own (e ∷ es) = let rest = own es in if is_own e then e ∷ rest else rest

-- A start of a child, by run or by a handler.
abbrev pub is_start : Event → Bool
is_start (start_backend bin model) = true
is_start (meanwhile handler_start) = true
is_start e = false

-- Part of the end of a run.
abbrev pub is_stop : Event → Bool
is_stop trigger_shutdown = true
is_stop graceful_stop = true
is_stop force_stop = true
is_stop stop_backend = true
is_stop e = false

abbrev pub is_idle_stop : Event → Bool
is_idle_stop (meanwhile idle_stop) = true
is_idle_stop e = false

abbrev pub Unstarted : List Event → Type 0
Unstarted es = All (λ e. is_start e ≡ false) es

-- The idle ticker stops no child before it runs, and it runs only for a positive timeout.
abbrev pub Ticked : List Event → Type 0
Ticked [] = Unit
Ticked (e ∷ es) = ((t : ℕ) × (e ≡ idle_ticker t) × (0 < t)) ⊎ ((is_idle_stop e ≡ false) × Ticked es)

-- An act of run itself that is no part of its end.
abbrev pub calm : Event → Bool
calm e = is_own e && not (is_stop e) && not (is_idle_stop e)

abbrev pub Calm : List Event → Type 0
Calm es = All (λ e. calm e ≡ true) es

pub All-append : (P : Event → Type 0) (xs ys : List Event) → All P xs → All P ys → All P (xs ++ ys)
All-append P [] ys h k = k
All-append P (x ∷ xs) ys h k = (h.0, All-append P xs ys h.1 k)

pub own-append : (xs ys : List Event) → own (xs ++ ys) ≡ own xs ++ own ys
own-append [] ys = refl
own-append (x ∷ xs) ys = elim (Bool-cases (is_own x)) [
  | inl e ↦ rw e (ap (λ zs. x ∷ zs) (own-append xs ys))
  | inr e ↦ rw e (own-append xs ys)
]

pub own-Calm : (es : List Event) → Calm es → own es ≡ es
own-Calm [] h = refl
own-Calm (e ∷ es) h = ground (arith, own-Calm es h.1)

pub Ticked-append :
    (xs ys : List Event) → All (λ e. is_idle_stop e ≡ false) xs → Ticked ys → Ticked (xs ++ ys)
Ticked-append [] ys h k = k
Ticked-append (x ∷ xs) ys h k = inr (h.0, Ticked-append xs ys h.1 k)

pub Calm-idle : (es : List Event) → Calm es → All (λ e. is_idle_stop e ≡ false) es
Calm-idle [] h = tt
Calm-idle (e ∷ es) h = (ground arith, Calm-idle es h.1)

pub own-happened :
    (served ticking : Bool) (bs : List Background) → own (happened served ticking bs) ≡ []
unfolding happened
own-happened served ticking [] = refl
own-happened served ticking (b ∷ bs) = elim (Bool-cases (can_happen served ticking b)) [
  | inl e ↦ rw e (own-happened served ticking bs)
  | inr e ↦ rw e (own-happened served ticking bs)
]

-- A property of events that what can happen has.
happened-All :
    (P : Event → Type 0) (served ticking : Bool)
    → ((b : Background) → can_happen served ticking b ≡ true → P (meanwhile b))
    → (bs : List Background) → All P (happened served ticking bs)
unfolding happened
happened-All P served ticking k [] = tt
happened-All P served ticking k (b ∷ bs) = elim (Bool-cases (can_happen served ticking b)) [
  | inl e ↦ rw e (k b e, happened-All P served ticking k bs)
  | inr e ↦ rw e (happened-All P served ticking k bs)
]

idle_stop_needs :
    (served : Bool) (b : Background)
    → can_happen served false b ≡ true
    → is_idle_stop (meanwhile b) ≡ false
idle_stop_needs served idle_stop h = absurd (ground arith)
idle_stop_needs served handler_start h = refl
idle_stop_needs served self_evict h = refl
idle_stop_needs served rpc_shutdown h = refl

start_needs :
    (ticking : Bool) (b : Background)
    → can_happen false ticking b ≡ true
    → is_start (meanwhile b) ≡ false
start_needs ticking idle_stop h = refl
start_needs ticking handler_start h = absurd (ground arith)
start_needs ticking self_evict h = refl
start_needs ticking rpc_shutdown h = refl

pub happened-idle :
    (served : Bool) (bs : List Background)
    → All (λ e. is_idle_stop e ≡ false) (happened served false bs)
happened-idle served bs = happened-All _ served false (idle_stop_needs served) bs

pub happened-Unstarted :
    (ticking : Bool) (bs : List Background) → Unstarted (happened false ticking bs)
happened-Unstarted ticking bs = happened-All _ false ticking (start_needs ticking) bs

-- The shutdown is announced, gRPC is stopped, by force where it is not drained in time, and then the
-- backend.
abbrev pub ending : Bool → Bool → List Event
ending drained backend =
    trigger_shutdown
    ∷ graceful_stop
    ∷ ((if drained then [] else force_stop ∷ []) ++ (if backend then stop_backend ∷ [] else []))

pub own-past : (xs ys : List Event) → own xs ≡ [] → own (xs ++ ys) ≡ own ys
own-past xs ys h = own-append xs ys ∙ ap (λ zs. zs ++ own ys) h

own-forced :
    (drained : Bool) (es : List Event)
    → own es ≡ []
    → own (if drained then [] else force_stop ∷ es) ≡ (if drained then [] else force_stop ∷ [])
own-forced true es h = refl
own-forced false es h = ap (λ fs. force_stop ∷ fs) h

own-last :
    (backend : Bool)
    → own (if backend then stop_backend ∷ [] else []) ≡ (if backend then stop_backend ∷ [] else [])
own-last true = refl
own-last false = refl

module _ (o : Outcomes) where
  -- A property of events that the end of a run has.
  wind_down-All :
      (P : Event → Type 0) (served ticking backend : Bool)
      → ((bs : List Background) → All P (happened served ticking bs))
      → P trigger_shutdown
      → P graceful_stop
      → P force_stop
      → ((backend ≡ false) ⊎ P stop_backend)
      → All P (wind_down o served ticking backend)
  unfolding wind_down stop_grpc
  wind_down-All P served ticking backend k a b c d =
      let stopped : All P
          (if o.drained then [] else force_stop ∷ happened served ticking o.forced) =
        elim (Bool-cases o.drained) [ inl e ↦ rw e tt | inr e ↦ rw e (c, k o.forced) ] in
      let last : All P (if backend then stop_backend ∷ [] else []) = elim d [
        | inl e ↦ rw e tt
        | inr p ↦ elim (Bool-cases backend) [ inl e ↦ rw e (p, tt) | inr e ↦ rw e tt ]
      ] in
      (
        a,
        (
          b,
          All-append P _ _
              (All-append P (happened served ticking o.draining) _ (k o.draining) stopped) last,
        ),
      )

  pub own-wind_down :
      (served ticking backend : Bool)
      → own (wind_down o served ticking backend) ≡ ending o.drained backend
  unfolding wind_down stop_grpc
  own-wind_down served ticking backend =
      let forced : List Event =
        if o.drained then [] else force_stop ∷ happened served ticking o.forced in
      let last : List Event = if backend then stop_backend ∷ [] else [] in
      ap (λ es. trigger_shutdown ∷ graceful_stop ∷ es)
        (own-append (happened served ticking o.draining ++ forced) last
          ∙ ap₂ (λ es fs. es ++ fs)
              (own-past (happened served ticking o.draining) forced
                  (own-happened served ticking o.draining)
                ∙ own-forced o.drained (happened served ticking o.forced)
                    (own-happened served ticking o.forced))
              (own-last backend))

  pub wind_down-idle :
      (served backend : Bool) → All (λ e. is_idle_stop e ≡ false) (wind_down o served false backend)
  wind_down-idle served backend =
      wind_down-All _ served false backend (happened-idle served) refl refl refl (inr refl)

  pub wind_down-Unstarted : (ticking : Bool) → Unstarted (wind_down o false ticking false)
  wind_down-Unstarted ticking =
      wind_down-All _ false ticking false (happened-Unstarted ticking) refl refl refl (inl refl)
