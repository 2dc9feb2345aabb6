-- ===== src/Examples/RouteRuns.antt =====
-- The route package at concrete sets.
use runed.Prelude.{
  ◌≡◌, refl, ◌≢◌, ◌⊎◌, arith, Bool, true, false, [], ◌∷◌, none, some, Bytes, text, ok, err, length,
  bytes_eq, All, ap, ◌<◌,
}
use runed.Prelude.FilePath.{join}
use runed.Route.Set.{CentroidSet, validate, row_mismatch}
use runed.Route.Assign.{assign, dot}
use runed.Route.Assign.Best.{IsFirstMaximum, scores, assign-IsFirstMaximum}
use runed.Route.Version.{compute_version, verify_version}
use runed.Route.Version.Encoding.{hash_input-injective}
use runed.Route.Version.Integrity.{verify_version-content, IsDigest}
use runed.Route.Cache.{Disk, Codec, PersistCalls, persist, cache_path}
use runed.Route.Cache.RoundTrip.{persist_atomic, temp_path}
use runed.Examples.Sample.{whole, whole-IsIeee, short_hash}

abbrev three : CentroidSet Bool
three = record {
  version = text "sha256:02";
  dim = 2;
  preset = text "p";
  vectors = (true ∷ false ∷ []) ∷ (true ∷ true ∷ []) ∷ (true ∷ true ∷ []) ∷ [];
}

ragged : validate (some (record three { vectors = (true ∷ []) ∷ [] })) 2 ≡ err (row_mismatch 0 1 2)
unfolding validate
ragged = refl

-- Rows 1 and 2 tie.
tie : assign whole three (true ∷ true ∷ []) ≡ 1
unfolding assign dot
tie = refl

assign-IsFirstMaximum_example :
    IsFirstMaximum whole
      (scores whole (true ∷ true ∷ []) three.vectors)
      (assign whole three (true ∷ true ∷ []))
assign-IsFirstMaximum_example =
    assign-IsFirstMaximum whole whole-IsIeee three (true ∷ true ∷ []) (λ e. cc) (omega arith)
      (refl, (refl, (refl, tt)))

short_hash_small : (x : Bytes) → All (λ b. b < 256) (short_hash x)
short_hash_small [] = (omega arith, tt)
short_hash_small (b ∷ bs) = (omega arith, tt)

short_hash_bytes : IsDigest short_hash
short_hash_bytes = record { bytes = short_hash_small }

tag : compute_version whole short_hash three ≡ text "sha256:02"
unfolding compute_version
tag = refl

hash_input-injective_example :
    (three.dim ≡ three.dim) × (three.preset ≡ three.preset) × (three.vectors ≡ three.vectors)
hash_input-injective_example =
    hash_input-injective whole whole-IsIeee three three (refl, (refl, (refl, tt)))
      (refl, (refl, (refl, tt))) (omega arith) (omega arith) (omega arith) (omega arith) refl

verified_three : verify_version whole short_hash three ≡ ok tt
unfolding verify_version compute_version bytes_eq
verified_three = refl

verify_version-content_example :
    (three.dim ≡ three.dim) × (three.preset ≡ three.preset) × (three.vectors ≡ three.vectors)
unfolding compute_version
verify_version-content_example =
    verify_version-content whole short_hash whole-IsIeee short_hash_bytes three three
      (record {
        rows_match = (refl, (refl, (refl, tt)));
        dim_fits = omega arith;
        count_fits = omega arith;
      })
      (record {
        rows_match = (refl, (refl, (refl, tt)));
        dim_fits = omega arith;
        count_fits = omega arith;
      })
      (λ e. cc) refl (λ e. refl) verified_three

-- A codec that knows one set.
abbrev codec : Codec Bool
codec = record { encode = λ s. text "gob"; decode = λ content. some three }

abbrev calls : PersistCalls
calls = record {
  mkdir_all = true;
  create_temp = true;
  encode = true;
  partial = [];
  close = true;
  rename = true;
  remove = true;
}

abbrev empty_disk : Disk
empty_disk p = none

abbrev dir : Bytes
dir = text "/c"

temp_differs : temp_path dir (text "1") ≢ cache_path dir
unfolding join
temp_differs e = absurd (omega (arith, ap length e))

abbrev written : Disk
written = (persist codec three dir (text "1") calls empty_disk).1

persist_atomic_example :
    ((written (temp_path dir (text "1")) ≡ none)
      ⊎ (((persist codec three dir (text "1") calls empty_disk).0 ≢ ok tt)
          × (calls.remove ≡ false)))
    × ((p : Bytes) → (p ≡ cache_path dir) ⊎ ((p ≡ temp_path dir (text "1")) ⊎ (written p ≡ none)))
    × ((((persist codec three dir (text "1") calls empty_disk).0 ≡ ok tt)
          × (written (cache_path dir) ≡ some (text "gob")))
        ⊎ (((persist codec three dir (text "1") calls empty_disk).0 ≢ ok tt)
            × (written (cache_path dir) ≡ none)))
persist_atomic_example =
    persist_atomic codec three dir (text "1") calls empty_disk temp_differs refl

persisted : (persist codec three dir (text "1") calls empty_disk).0 ≡ ok tt
unfolding persist
persisted = refl
