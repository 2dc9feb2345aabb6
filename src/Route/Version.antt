-- ===== src/Route/Version.antt =====
-- `ComputeVersion` and `VerifyVersion`: the content hash of a set. SHA-256 is a parameter.
pub mod Encoding
pub mod Integrity
use runed.Prelude.{ℕ, ◌+◌, ◌-◌, ◌/◌, ◌%◌, ◌^◌, List, [], ◌∷◌, ◌++◌, Bytes, text, is_empty, bytes_eq}
use runed.Prelude.{if◌then◌else◌, ltb, length, Result, ok, err}
use runed.Route.Floats.{Floats}
use runed.Route.Set.{CentroidSet, RouteError, version_mismatch}

-- binary.LittleEndian.PutUint32
abbrev pub le32 : ℕ → Bytes
le32 x = (x % 256) ∷ (x / 256 % 256) ∷ (x / 65536 % 256) ∷ (x / 16777216 % 256) ∷ []

hex_digit : ℕ → ℕ
hex_digit d = if ltb d 10 then b'0' + d else b'a' - 10 + d

-- hex.EncodeToString
unfoldable pub hex : Bytes → Bytes
unfolding hex_digit
hex [] = []
hex (b ∷ bs) = hex_digit (b / 16) ∷ hex_digit (b % 16) ∷ hex bs

module _ (F : Floats) where
  row_bytes : List F.F32 → Bytes
  row_bytes [] = []
  row_bytes (f ∷ fs) = le32 (F.bits f) ++ row_bytes fs

  rows_bytes : List (List F.F32) → Bytes
  rows_bytes [] = []
  rows_bytes (v ∷ vs) = row_bytes v ++ rows_bytes vs

  -- All that is written to the hash, in order. uint32(s.Dim) and uint32(len) wrap.
  pub hash_input : CentroidSet F.F32 → Bytes
  unfolding rows_bytes row_bytes
  hash_input s =
      le32 (s.dim % 2 ^ 32)
      ++ (le32 (length s.vectors % 2 ^ 32) ++ (s.preset ++ (0 ∷ rows_bytes s.vectors)))

module _ (F : Floats) (sha256 : Bytes → Bytes) where
  unfoldable pub compute_version : CentroidSet F.F32 → Bytes
  unfolding hash_input hex
  compute_version s = text "sha256:" ++ hex (sha256 (hash_input F s))

  unfoldable pub verify_version : CentroidSet F.F32 → Result RouteError (Unit {0})
  verify_version s =
      if is_empty s.preset
      then ok tt
      else if bytes_eq (compute_version s) s.version
      then ok tt
      else err (version_mismatch s.version (compute_version s))
