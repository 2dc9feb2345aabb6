-- ===== src/Route/Set/Laws.antt =====
-- `Validate` decides a plain description of a usable set.
use runed.Prelude.{ℕ, ◌+◌, ◌≡◌, refl, ◌≢◌, ◌↔◌, List, [], ◌∷◌, some, arith}
use runed.Prelude.{length, All, ok}
use runed.Route.Set.{CentroidSet, check_rows, validate}

-- The set is named, has a centroid, and each centroid has the dimension that the daemon serves.
pub record IsWellFormed {V : Type 0} (s : CentroidSet V) (want : ℕ) : Type 0 where
  pub named : s.version ≢ []
  pub filled : s.vectors ≢ []
  pub dim_matches : s.dim ≡ want
  pub rows_match : All (λ row. length row ≡ s.dim) s.vectors

module _ {V : Type 0} where
  check_rows-All :
      (dim i : ℕ) (rows : List (List V))
      → check_rows dim i rows ≡ ok tt
      → All (λ row. length row ≡ dim) rows
  unfolding check_rows
  check_rows-All dim i [] h = tt
  check_rows-All dim i (v ∷ rows) h = ground (arith, check_rows-All dim (i + 1) rows)

  All-check_rows :
      (dim i : ℕ) (rows : List (List V))
      → All (λ row. length row ≡ dim) rows
      → check_rows dim i rows ≡ ok tt
  unfolding check_rows
  All-check_rows dim i [] h = refl
  All-check_rows dim i (v ∷ rows) h = ground (arith, All-check_rows dim (i + 1) rows h.1)

  -- `Validate(want)` returns no error exactly for a non-nil set that has a version, at least one
  -- centroid, the dimension `want`, and rows that all have this dimension.
  pub validate-IsWellFormed :
      (s : CentroidSet V) (want : ℕ) → (validate (some s) want ≡ ok tt) ↔ IsWellFormed s want
  unfolding validate
  validate-IsWellFormed s want = (
    λ h. ground (arith, check_rows-All s.dim 0 s.vectors),
    λ h. ground (arith, All-check_rows s.dim 0 s.vectors h.rows_match),
  )
