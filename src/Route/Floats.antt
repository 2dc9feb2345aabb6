-- ===== src/Route/Floats.antt =====
-- Go's float32 and float64, with the operations that route.go applies to them, as a parameter.
use runed.Prelude.{ℕ, ◌<◌, ◌^◌, ◌≡◌, ◌⊎◌, Bool, true, false}

pub record Floats : Type 1 where
  pub F32 : Type 0
  pub F64 : Type 0
  -- float64(x)
  pub widen : F32 → F64
  pub zero64 : F64
  -- math.Inf(-1)
  pub neg_inf : F64
  pub add : F64 → F64 → F64
  pub mul : F64 → F64 → F64
  -- x > y
  pub gtb : F64 → F64 → Bool
  pub is_nan : F64 → Bool
  -- math.Float32bits
  pub bits : F32 → ℕ

-- What IEEE 754 says of `>` and of the bit patterns.
pub record IsIeee (F : Floats) : Type 0 where
  pub gtb_asym : (x y : F.F64) → F.gtb x y ≡ true → F.gtb y x ≡ false
  pub gtb_trans : (x y z : F.F64) → F.gtb x y ≡ true → F.gtb y z ≡ true → F.gtb x z ≡ true
  -- A number lies above the lower of two others or below the higher.
  pub gtb_split :
      (x y z : F.F64)
      → F.is_nan y ≡ false
      → F.gtb x z ≡ true
      → (F.gtb x y ≡ true) ⊎ (F.gtb y z ≡ true)
  -- Nothing lies below the negative infinity, which is a number.
  pub neg_inf_least : (x : F.F64) → F.gtb F.neg_inf x ≡ false
  pub neg_inf_number : F.is_nan F.neg_inf ≡ false
  pub bits_bounded : (x : F.F32) → F.bits x < 2 ^ 32
  pub bits_injective : (x y : F.F32) → F.bits x ≡ F.bits y → x ≡ y
