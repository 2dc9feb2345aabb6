-- ===== src/Server/Embed/Laws.antt =====
-- When an embedding request is refused before the backend is asked, how often the backend is asked,
-- and how the response is routed.
use runed.Prelude.{
  ℕ, zero, suc, ◌+◌, ◌≡◌, refl, ◌≢◌, sym, ap, ◌∙◌, arith, List, [], ◌∷◌, map, Bool, true, false,
}
use runed.Prelude.{Option, none, some, Bytes, Result, ok, err, ◌↔◌, All, subst}
use runed.Route.Floats.{Floats}
use runed.Route.Set.{CentroidSet}
use runed.Route.Assign.{assign}
use runed.Backend.Types.{BackendError}
use runed.Backend.Embed.{EmbedError, not_started}
use runed.Server.Types.{
  Server, Embedder, RpcError, precondition, kept_suspending, Reason, bootstrapping, no_centroid_set,
  EmbedResponse,
}
use runed.Server.Embed.{
  admit, respond, attempt, after_ensure, after_run, serve_admitted, embed, embed_batch, map_result,
}

-- When each of the two preconditions fails.
abbrev pub Refused : {V : Type 0} → Reason → Bool → Server V → Type 0
Refused bootstrapping with_route s = s.backend ≡ false
Refused no_centroid_set with_route s =
    (s.backend ≡ true) × (with_route ≡ true) × (s.centroids ≡ none)

-- What a response says of its vector, given the set that was live when the request came in.
abbrev pub RoutedBy : (F : Floats) → Bool → Server F.F32 → EmbedResponse F.F32 → Type 0
RoutedBy F false s r = (r.cluster_id ≡ 0) × (r.centroid_set_version ≡ [])
RoutedBy F true s r =
    (cs : CentroidSet F.F32) × (s.centroids ≡ some cs)
    × (r.cluster_id ≡ assign F cs r.vector)
    × (r.centroid_set_version ≡ cs.version)

module _ {V A : Type 0} (E : Embedder V) (run : E.State → Result EmbedError A × E.State) where
  after_run_reason :
      (again : E.State → Result RpcError A × E.State) (r : Result EmbedError A × E.State)
      (reason : Reason)
      → ((t : E.State) → (again t).0 ≢ err (precondition reason))
      → (after_run E run again r).0 ≢ err (precondition reason)
  unfolding after_run
  after_run_reason again r reason h = ground (arith, h r.1)

  after_ensure_reason :
      (again : E.State → Result RpcError A × E.State) (r : Option BackendError × E.State)
      (reason : Reason)
      → ((t : E.State) → (again t).0 ≢ err (precondition reason))
      → (after_ensure E run again r).0 ≢ err (precondition reason)
  unfolding after_ensure
  after_ensure_reason again (some e, t) reason h = λ q. cc
  after_ensure_reason again (none, t) reason h = after_run_reason again (run t) reason h

  attempt_reason :
      (n : ℕ) (t : E.State) (reason : Reason) → (attempt E run n t).0 ≢ err (precondition reason)
  unfolding attempt
  attempt_reason zero t reason = λ q. cc
  attempt_reason (suc n) t reason =
      after_ensure_reason (attempt E run n) (E.ensure_started t) reason
        (λ u. attempt_reason n u reason)

  after_run_ok :
      (again : E.State → Result RpcError A × E.State) (u : E.State)
      (r : Result EmbedError A × E.State) (a : A)
      → ((t : E.State) → (again t).0 ≡ ok a → (v : E.State) × (run v ≡ (ok a, (again t).1)))
      → run u ≡ r
      → (after_run E run again r).0 ≡ ok a
      → (v : E.State) × (run v ≡ (ok a, (after_run E run again r).1))
  unfolding after_run
  after_run_ok again u (ok b, t) a h e q = (u, e ∙ ground arith)
  after_run_ok again u (err not_started, t) a h e q = h t q
  after_run_ok again u (err x, t) a h e q = cc

  -- A result of the loop is what one call of the backend returned.
  attempt_ok :
      (n : ℕ) (t : E.State) (a : A)
      → (attempt E run n t).0 ≡ ok a
      → (u : E.State) × (run u ≡ (ok a, (attempt E run n t).1))
  unfolding attempt
  attempt_ok zero t a h = cc
  attempt_ok (suc n) t a h = ensured (λ u e. attempt_ok n u a e) (E.ensure_started t) h
    where
      ensured :
          ((u : E.State)
            → (attempt E run n u).0 ≡ ok a
            → (v : E.State) × (run v ≡ (ok a, (attempt E run n u).1)))
          → (r : Option BackendError × E.State) → (after_ensure E run (attempt E run n) r).0 ≡ ok a
          → (u : E.State) × (run u ≡ (ok a, (after_ensure E run (attempt E run n) r).1))
      ensured k (some e, u) q = cc
      ensured k (none, u) q = after_run_ok (attempt E run n) u (run u) a k refl q

  -- The loop gives up exactly if the backend was asked twice, each time came up, and each time had
  -- been stopped again before the call.
  attempt-kept_suspending :
      (t : E.State)
      → let up1 = E.ensure_started t in
        let run1 = run up1.1 in
        let up2 = E.ensure_started run1.1 in
        let run2 = run up2.1 in
        ((attempt E run 2 t).0 ≡ err kept_suspending) ↔ (
          (up1.0 ≡ none) × (run1.0 ≡ err not_started) × (up2.0 ≡ none) × (run2.0 ≡ err not_started))
  unfolding attempt after_ensure after_run
  attempt-kept_suspending t = ground arith

module _ (F : Floats) (E : Embedder F.F32) where
  -- Embed fails with FAILED_PRECONDITION exactly for the two documented reasons, tagged with the one
  -- that applies.
  pub embed-Refused :
      (text : Bytes) (with_route : Bool) (s : Server F.F32) (t : E.State) (reason : Reason)
      → ((embed F E text with_route s t).0 ≡ err (precondition reason))
        ↔ Refused reason with_route s
  unfolding embed serve_admitted admit
  embed-Refused text with_route s t bootstrapping =
      ground (arith, attempt_reason E (E.embed text) 2 t bootstrapping)
  embed-Refused text with_route s t no_centroid_set =
      ground (arith, attempt_reason E (E.embed text) 2 t no_centroid_set)

  admit_routed :
      (with_route : Bool) (s : Server F.F32) (route : Option (CentroidSet F.F32)) (vec : List F.F32)
      → admit with_route s ≡ ok route
      → RoutedBy F with_route s (respond F route vec)
  unfolding admit respond
  admit_routed false s none vec h = (refl, refl)
  admit_routed false s (some cs) vec h = absurd (ground arith)
  admit_routed true s none vec h = absurd (ground arith)
  admit_routed true s (some cs) vec h = (cs, ground arith, refl, refl)

  respond-vector :
      (route : Option (CentroidSet F.F32)) (vec : List F.F32) → (respond F route vec).vector ≡ vec
  unfolding respond
  respond-vector none vec = refl
  respond-vector (some cs) vec = refl

  map_result_ok :
      {A B : Type 0} (f : A → B) (r : Result RpcError A) (b : B)
      → map_result F E f r ≡ ok b
      → (a : A) × (r ≡ ok a) × (f a ≡ b)
  map_result_ok f (ok a) b h = (a, refl, ground arith)
  map_result_ok f (err e) b h = cc

  -- What comes of an admitted request that succeeds.
  served_ok :
      {A B : Type 0} (run : E.State → Result EmbedError A × E.State)
      (reply : Option (CentroidSet F.F32) → A → B)
      (r : Result RpcError (Option (CentroidSet F.F32))) (s : Server F.F32) (t : E.State) (b : B)
      → (serve_admitted F E run reply r s t).0 ≡ ok b
      → (route : Option (CentroidSet F.F32)) × (a : A) × (u : E.State) × (r ≡ ok route)
        × ((run u).0 ≡ ok a)
        × (reply route a ≡ b)
        × ((serve_admitted F E run reply r s t).1 ≡ record s { requests = s.requests + 1 })
  unfolding serve_admitted
  served_ok run reply (err e) s t b h = cc
  served_ok run reply (ok route) s t b h =
      let (a, got, made) = map_result_ok (reply route) (attempt E run 2 t).0 b h in
      let (u, ran) = attempt_ok E run 2 t a got in
      (route, a, u, refl, ap (λ x. x.0) ran, made, refl)

  -- A response of Embed has the vector that one call of the backend returned for the text. If the
  -- request wants a route, the cluster is the one that the set which was live at the start assigns
  -- to this vector, with the version of that set. The request is counted, and nothing else of the
  -- service changes.
  pub embed-RoutedBy :
      (text : Bytes) (with_route : Bool) (s : Server F.F32) (t : E.State)
      (resp : EmbedResponse F.F32)
      → (embed F E text with_route s t).0 ≡ ok resp
      → ((u : E.State) × ((E.embed text u).0 ≡ ok resp.vector))
        × RoutedBy F with_route s resp
        × ((embed F E text with_route s t).1 ≡ record s { requests = s.requests + 1 })
  unfolding embed
  embed-RoutedBy text with_route s t resp h =
      let (route, vec, u, admitted, ran, made, counted) =
        served_ok (E.embed text) (respond F) (admit with_route s) s t resp h in
      (
        (u, ran ∙ ap ok (sym (respond-vector route vec) ∙ ap (λ r. r.vector) made)),
        subst (RoutedBy F with_route s) made (admit_routed with_route s route vec admitted),
        counted,
      )

  All-respond :
      (with_route : Bool) (s : Server F.F32) (route : Option (CentroidSet F.F32))
      (vecs : List (List F.F32))
      → admit with_route s ≡ ok route
      → All (RoutedBy F with_route s) (map (respond F route) vecs)
  All-respond with_route s route [] h = tt
  All-respond with_route s route (v ∷ vs) h =
      (admit_routed with_route s route v h, All-respond with_route s route vs h)

  vectors-respond :
      (route : Option (CentroidSet F.F32)) (vecs : List (List F.F32))
      → map (λ (r : EmbedResponse F.F32). r.vector) (map (respond F route) vecs) ≡ vecs
  vectors-respond route [] = refl
  vectors-respond route (v ∷ vs) = cc (respond-vector route v, vectors-respond route vs)

  -- A response of EmbedBatch has, in order, the vectors that one call of the backend returned for
  -- the texts, each routed as by Embed, all with the set that was live at the start.
  pub embed_batch-RoutedBy :
      (texts : List Bytes) (with_route : Bool) (s : Server F.F32) (t : E.State)
      (resp : List (EmbedResponse F.F32))
      → (embed_batch F E texts with_route s t).0 ≡ ok resp
      → ((u : E.State) × ((E.embed_batch texts u).0
            ≡ ok (map (λ (r : EmbedResponse F.F32). r.vector) resp)))
        × All (RoutedBy F with_route s) resp
        × ((embed_batch F E texts with_route s t).1 ≡ record s { requests = s.requests + 1 })
  unfolding embed_batch
  embed_batch-RoutedBy texts with_route s t resp h =
      let (route, vecs, u, admitted, ran, made, counted) =
        served_ok (E.embed_batch texts) (λ r vs. map (respond F r) vs) (admit with_route s) s t resp
          h in
      (
        (
          u,
          ran
              ∙ ap ok (
                  sym (vectors-respond route vecs)
                  ∙ ap (map (λ (r : EmbedResponse F.F32). r.vector)) made),
        ),
        subst (All (RoutedBy F with_route s)) made (All-respond with_route s route vecs admitted),
        counted,
      )
