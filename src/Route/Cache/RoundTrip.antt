-- ===== src/Route/Cache/RoundTrip.antt =====
-- The cache file is replaced whole or not at all, and what is loaded has been verified.
use runed.Prelude.{false, ◌≡◌, ◌≢◌, ◌⊎◌, arith, Bytes, text, bytes_eq_iff, some, none}
use runed.Prelude.{◌++◌, [], ◌∷◌, ok}
use runed.Prelude.FilePath.{join}
use runed.Route.Floats.{Floats}
use runed.Route.Set.{CentroidSet}
use runed.Route.Version.{verify_version}
use runed.Route.Cache.{Disk, Codec, PersistCalls, AllSucceed, persist, load, cache_path, cache_file}

abbrev pub temp_path : Bytes → Bytes → Bytes
temp_path dir suffix = join (dir ∷ (cache_file ++ (text ".tmp-" ++ suffix)) ∷ [])

module _ {V : Type 0} (gob : Codec V) (s : CentroidSet V) (dir suffix : Bytes)
    (calls : PersistCalls) (d : Disk) where
  -- Whatever calls fail, `Persist` leaves no temporary file behind, unless it returns an error and the
  -- removal of the file failed; it leaves every other file alone, and leaves at the cache's path the whole
  -- encoding of the set if it returns no error and the former content if it returns one. The temporary
  -- file is a new one.
  pub persist_atomic :
      temp_path dir suffix ≢ cache_path dir
      → d (temp_path dir suffix) ≡ none
      → let r = persist gob s dir suffix calls d in
        ((r.1 (temp_path dir suffix) ≡ none) ⊎ ((r.0 ≢ ok tt) × (calls.remove ≡ false)))
        × ((p : Bytes) → (p ≡ cache_path dir) ⊎ ((p ≡ temp_path dir suffix) ⊎ (r.1 p ≡ d p)))
        × (((r.0 ≡ ok tt) × (r.1 (cache_path dir) ≡ some (gob.encode s)))
            ⊎ ((r.0 ≢ ok tt) × (r.1 (cache_path dir) ≡ d (cache_path dir))))
  unfolding persist
  persist_atomic apart fresh =
      let tmp = temp_path dir suffix in
      let target = cache_path dir in
      (
        ground (arith, bytes_eq_iff tmp tmp, bytes_eq_iff target tmp),
        λ p. ground (arith, bytes_eq_iff tmp p, bytes_eq_iff target p, fresh),
        ground (arith, bytes_eq_iff tmp target, bytes_eq_iff target target),
      )

  pub persist_ok : AllSucceed calls → (persist gob s dir suffix calls d).0 ≡ ok tt
  unfolding persist
  persist_ok h = ground arith

module _ (F : Floats) (sha256 : Bytes → Bytes) (gob : Codec F.F32) where
  -- `Load` after a `Persist` that returned no error gives back a set that passes `VerifyVersion`,
  -- if gob decodes what it encoded.
  pub load-persist :
      (s : CentroidSet F.F32) (dir suffix : Bytes) (calls : PersistCalls) (d : Disk)
      → gob.decode (gob.encode s) ≡ some s
      → temp_path dir suffix ≢ cache_path dir
      → verify_version F sha256 s ≡ ok tt
      → (persist gob s dir suffix calls d).0 ≡ ok tt
      → load F sha256 gob dir (persist gob s dir suffix calls d).1 ≡ ok s
  unfolding persist load
  load-persist s dir suffix calls d decodes apart verified done =
      let tmp = temp_path dir suffix in
      let target = cache_path dir in
      ground (arith, bytes_eq_iff tmp target, bytes_eq_iff target target)

  -- Whatever the disk holds, a set that `Load` returns is what gob decodes from the cache file, and
  -- has passed `VerifyVersion`.
  load_verified :
      (dir : Bytes) (d : Disk) (s : CentroidSet F.F32)
      → load F sha256 gob dir d ≡ ok s
      → (verify_version F sha256 s ≡ ok tt)
        × (content : Bytes) × (d (cache_path dir) ≡ some content)
        × (gob.decode content ≡ some s)
  unfolding load
  load_verified dir d s h = ground arith
