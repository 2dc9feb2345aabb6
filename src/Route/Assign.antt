-- ===== src/Route/Assign.antt =====
-- `Assign`: the cluster with the highest inner product, the lowest id among equals.
pub mod Best
use runed.Prelude.{ℕ, ◌+◌, ◌%◌, ◌^◌, List, [], ◌∷◌, if◌then◌else◌}
use runed.Route.Floats.{Floats}
use runed.Route.Set.{CentroidSet}

module _ (F : Floats) where
  open F use {F32, F64, widen, zero64, neg_inf, add, mul, gtb}

  -- The inner loop, which stops at the shorter of the two vectors.
  dot_from : F64 → List F32 → List F32 → F64
  dot_from dot [] vec = dot
  dot_from dot (c ∷ cs) [] = dot
  dot_from dot (c ∷ cs) (v ∷ vs) = dot_from (add dot (mul (widen c) (widen v))) cs vs

  unfoldable pub dot : List F32 → List F32 → F64
  unfolding dot_from
  dot c vec = dot_from zero64 c vec

  -- The loop over `s.Vectors` from row `i` on. The id is a uint32.
  assign_from : List F32 → ℕ → F64 → ℕ → List (List F32) → ℕ
  assign_from vec i best best_id [] = best_id
  assign_from vec i best best_id (c ∷ cs) =
      let higher = gtb (dot c vec) best in
      assign_from vec (i + 1) (if higher then dot c vec else best)
        (if higher then i % 2 ^ 32 else best_id) cs

  unfoldable pub assign : CentroidSet F32 → List F32 → ℕ
  unfolding assign_from
  assign s vec = assign_from vec 0 neg_inf 0 s.vectors
