-- ===== src/Route/Set.antt =====
-- `CentroidSet` and `Validate`. `Dim` is never negative: it comes from a uint32 of the header, or
-- from a cache that `Persist` wrote.
pub mod Laws
use runed.Prelude.{ℕ, zero, suc, ◌+◌, List, [], ◌∷◌, Option, none, some, Bytes, is_empty}
use runed.Prelude.{◌==◌, ◌||◌, if◌then◌else◌, not, Bool, true, false, length, Result, ok, err}

pub record CentroidSet (V : Type 0) : Type 0 where
  pub version : Bytes
  pub dim : ℕ
  pub preset : Bytes
  pub vectors : List (List V)

-- The errors of the package, with the values that their messages print.
pub data RouteError : Type 0 where
  set_empty : RouteError
  dim_mismatch : ℕ → ℕ → RouteError
  row_mismatch : ℕ → ℕ → ℕ → RouteError
  version_mismatch : Bytes → Bytes → RouteError
  cache_dir cache_temp cache_encode cache_close cache_rename : RouteError
  cache_open cache_decode : RouteError

module _ {V : Type 0} where
  abbrev pub has_no_rows : List (List V) → Bool
  has_no_rows [] = true
  has_no_rows (v ∷ vs) = false

  -- The loop over `s.Vectors`, from row `i` on.
  check_rows : ℕ → ℕ → List (List V) → Result RouteError (Unit {0})
  check_rows dim i [] = ok tt
  check_rows dim i (v ∷ vs) =
      if length v == dim then check_rows dim (i + 1) vs else err (row_mismatch i (length v) dim)

  -- A nil set is `none`.
  unfoldable pub validate : Option (CentroidSet V) → ℕ → Result RouteError (Unit {0})
  unfolding check_rows
  validate none want = err set_empty
  validate (some s) want =
      if is_empty s.version || has_no_rows s.vectors
      then err set_empty
      else if not (s.dim == want)
      then err (dim_mismatch s.dim want)
      else check_rows s.dim 0 s.vectors
