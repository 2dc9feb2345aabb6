-- ===== src/Route/Version/Encoding.antt =====
-- The bytes that are hashed determine the set.
use runed.Prelude.{ℕ, ◌*◌, ◌/◌, ◌%◌, ◌^◌, ◌<◌, ◌≡◌, refl, arith, ap}
use runed.Prelude.{
  List, [], ◌∷◌, ◌++◌, Bytes, length, length-append, append_cancel, All, ◌∙◌, sym, subst,
}
use runed.Route.Floats.{Floats, IsIeee}
use runed.Route.Set.{CentroidSet}
use runed.Route.Version.{le32, hex_digit, hex, row_bytes, rows_bytes, hash_input}

pub le32-injective : (x y : ℕ) → x < 2 ^ 32 → y < 2 ^ 32 → le32 x ≡ le32 y → x ≡ y
le32-injective x y hx hy e = ground arith

hex_digit-injective : (x y : ℕ) → x < 16 → y < 16 → hex_digit x ≡ hex_digit y → x ≡ y
unfolding hex_digit
hex_digit-injective x y hx hy e = ground arith

pub hex-injective :
    (xs ys : Bytes) → All (λ b. b < 256) xs → All (λ b. b < 256) ys → hex xs ≡ hex ys → xs ≡ ys
unfolding hex
hex-injective [] [] hx hy e = refl
hex-injective [] (y ∷ ys) hx hy e = ground arith
hex-injective (x ∷ xs) [] hx hy e = ground arith
hex-injective (x ∷ xs) (y ∷ ys) hx hy e = ground (
  arith,
  hex-injective xs ys hx.1 hy.1,
  hex_digit-injective (x / 16) (y / 16),
  hex_digit-injective (x % 16) (y % 16),
)

module _ (F : Floats) where
  length-row_bytes : (v : List F.F32) → length (row_bytes F v) ≡ 4 * length v
  unfolding row_bytes
  length-row_bytes [] = refl
  length-row_bytes (f ∷ fs) = omega (arith, length-row_bytes fs)

  length-rows_bytes :
      (dim : ℕ) (vs : List (List F.F32))
      → All (λ row. length row ≡ dim) vs
      → length (rows_bytes F vs) ≡ length vs * (4 * dim)
  unfolding rows_bytes
  length-rows_bytes dim [] h = omega arith
  length-rows_bytes dim (v ∷ vs) h = grind (
    arith,
    length-append (row_bytes F v) (rows_bytes F vs),
    length-row_bytes v,
    length-rows_bytes dim vs h.1,
  )

module _ (F : Floats) (L : IsIeee F) where
  row_bytes-injective :
      (u v : List F.F32) → length u ≡ length v → row_bytes F u ≡ row_bytes F v → u ≡ v
  unfolding row_bytes
  row_bytes-injective [] [] h e = refl
  row_bytes-injective [] (y ∷ v) h e = absurd (omega arith)
  row_bytes-injective (x ∷ u) [] h e = absurd (omega arith)
  row_bytes-injective (x ∷ u) (y ∷ v) h e =
      let (head, tail) = append_cancel (le32 (F.bits x)) _ (le32 (F.bits y)) _ refl e in
      let bits_eq = le32-injective _ _ (L.bits_bounded x) (L.bits_bounded y) head in
      cc (L.bits_injective x y bits_eq, row_bytes-injective u v (omega arith) tail)

  rows_bytes-injective :
      (dim : ℕ) (us vs : List (List F.F32))
      → All (λ row. length row ≡ dim) us
      → All (λ row. length row ≡ dim) vs
      → length us ≡ length vs
      → rows_bytes F us ≡ rows_bytes F vs
      → us ≡ vs
  unfolding rows_bytes
  rows_bytes-injective dim [] [] hu hv h e = refl
  rows_bytes-injective dim [] (v ∷ vs) hu hv h e = absurd (omega arith)
  rows_bytes-injective dim (u ∷ us) [] hu hv h e = absurd (omega arith)
  rows_bytes-injective dim (u ∷ us) (v ∷ vs) hu hv h e =
      let same : length u ≡ length v = hu.0 ∙ sym hv.0 in
      let (head, tail) =
        append_cancel (row_bytes F u) _ (row_bytes F v) _
          (omega (arith, length-row_bytes F u, length-row_bytes F v)) e in
      cc (
        row_bytes-injective u v same head,
        rows_bytes-injective dim us vs hu.1 hv.1 (omega arith) tail,
      )

  tail-injective :
      (dim : ℕ) (p q : Bytes) (us vs : List (List F.F32))
      → All (λ row. length row ≡ dim) us
      → All (λ row. length row ≡ dim) vs
      → length us ≡ length vs
      → p ++ (0 ∷ rows_bytes F us) ≡ q ++ (0 ∷ rows_bytes F vs)
      → (p ≡ q) × (us ≡ vs)
  tail-injective dim p q us vs hu hv h e =
      let sizes : length (rows_bytes F us) ≡ length (rows_bytes F vs) =
        length-rows_bytes F dim us hu
        ∙ (ap (λ n. n * (4 * dim)) h ∙ sym (length-rows_bytes F dim vs hv)) in
      let lengths : length (p ++ (0 ∷ rows_bytes F us)) ≡ length (q ++ (0 ∷ rows_bytes F vs)) =
        ap length e in
      let (head, tail) =
        append_cancel p _ q _
          (omega (
            arith,
            sizes,
            lengths,
            length-append p (0 ∷ rows_bytes F us),
            length-append q (0 ∷ rows_bytes F vs),
          ))
          e in
      (head, rows_bytes-injective dim us vs hu hv h (cc tail))

  -- Sets whose rows have the declared dimension, with a dimension and a number of rows below 2^32, are
  -- hashed from different bytes, unless they agree in dimension, preset and centroids: the unframed
  -- preset cannot shift into the centroids.
  pub hash_input-injective :
      (s t : CentroidSet F.F32)
      → All (λ row. length row ≡ s.dim) s.vectors
      → All (λ row. length row ≡ t.dim) t.vectors
      → s.dim < 2 ^ 32
      → t.dim < 2 ^ 32
      → length s.vectors < 2 ^ 32
      → length t.vectors < 2 ^ 32
      → hash_input F s ≡ hash_input F t
      → (s.dim ≡ t.dim) × (s.preset ≡ t.preset) × (s.vectors ≡ t.vectors)
  unfolding hash_input
  hash_input-injective s t hs ht ds dt ns nt e =
      let (dims, rest) = append_cancel (le32 (s.dim % 2 ^ 32)) _ (le32 (t.dim % 2 ^ 32)) _ refl e in
      let (counts, rest') =
        append_cancel (le32 (length s.vectors % 2 ^ 32)) _ (le32 (length t.vectors % 2 ^ 32)) _ refl
          rest in
      let dim_eq : s.dim ≡ t.dim = omega (
        arith,
        le32-injective (s.dim % 2 ^ 32) (t.dim % 2 ^ 32) (omega arith) (omega arith) dims,
      ) in
      let count_eq : length s.vectors ≡ length t.vectors = omega (
        arith,
        le32-injective (length s.vectors % 2 ^ 32) (length t.vectors % 2 ^ 32) (omega arith)
            (omega arith) counts,
      ) in
      let (presets, vectors) =
        tail-injective s.dim s.preset t.preset s.vectors t.vectors hs
          (subst (λ d. All (λ row. length row ≡ d) t.vectors) (sym dim_eq) ht) count_eq rest' in
      (dim_eq, presets, vectors)
