-- ===== src/Route/Version/Integrity.antt =====
-- What `VerifyVersion` guarantees of a set that it accepts.
use runed.Prelude.{◌^◌, ◌<◌, ◌≡◌, refl, ◌≢◌, arith, ◌∙◌, Bytes, text}
use runed.Prelude.{[], length, All, append_cancel, bytes_eq_iff, ok}
use runed.Route.Floats.{Floats, IsIeee}
use runed.Route.Set.{CentroidSet}
use runed.Route.Version.{hex, hash_input, compute_version, verify_version}
use runed.Route.Version.Encoding.{hex-injective, hash_input-injective}

-- What is used of SHA-256: digests are bytes.
pub record IsDigest (sha256 : Bytes → Bytes) : Type 0 where
  pub bytes : (x : Bytes) → All (λ b. b < 256) (sha256 x)

-- The two inputs are no collision.
abbrev pub NoCollision : (Bytes → Bytes) → Bytes → Bytes → Type 0
NoCollision sha256 x y = sha256 x ≡ sha256 y → x ≡ y

-- The set can be encoded: rows of the declared dimension, and sizes that fit 32 bits.
pub record Encodable {V : Type 0} (s : CentroidSet V) : Type 0 where
  pub rows_match : All (λ row. length row ≡ s.dim) s.vectors
  pub dim_fits : s.dim < 2 ^ 32
  pub count_fits : length s.vectors < 2 ^ 32

module _ (F : Floats) (sha256 : Bytes → Bytes) where
  compute_version-input :
      IsDigest sha256
      → (s t : CentroidSet F.F32) → compute_version F sha256 s ≡ compute_version F sha256 t
      → sha256 (hash_input F s) ≡ sha256 (hash_input F t)
  unfolding compute_version
  compute_version-input D s t e =
      hex-injective _ _ (D.bytes _) (D.bytes _)
        (append_cancel (text "sha256:") (hex (sha256 (hash_input F s))) (text "sha256:")
          (hex (sha256 (hash_input F t))) refl e).1

  verify_version-ok :
      (s : CentroidSet F.F32)
      → s.preset ≢ []
      → verify_version F sha256 s ≡ ok tt
      → compute_version F sha256 s ≡ s.version
  unfolding verify_version
  verify_version-ok s h e = ground (arith, bytes_eq_iff (compute_version F sha256 s) s.version)

  -- A set with a preset that `VerifyVersion` accepts under the tag that the engine computed for its
  -- own set has the dimension, the preset and the centroids of the engine's set, if both sets can
  -- be encoded and their encodings are no collision of SHA-256.
  pub verify_version-content :
      IsIeee F
      → IsDigest sha256
      → (s engine : CentroidSet F.F32) → Encodable s
      → Encodable engine
      → s.preset ≢ []
      → s.version ≡ compute_version F sha256 engine
      → NoCollision sha256 (hash_input F s) (hash_input F engine)
      → verify_version F sha256 s ≡ ok tt
      → (s.dim ≡ engine.dim) × (s.preset ≡ engine.preset) × (s.vectors ≡ engine.vectors)
  verify_version-content L D s t es et h tag apart e =
      hash_input-injective F L s t es.rows_match et.rows_match es.dim_fits et.dim_fits es.count_fits
        et.count_fits (apart (compute_version-input D s t (verify_version-ok s h e ∙ tag)))

  -- A set that carries the tag computed for it is accepted.
  pub verify_version-tagged :
      (s : CentroidSet F.F32)
      → s.version ≡ compute_version F sha256 s
      → verify_version F sha256 s ≡ ok tt
  unfolding verify_version
  verify_version-tagged s h = ground (arith, bytes_eq_iff (compute_version F sha256 s) s.version)
