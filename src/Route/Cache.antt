-- ===== src/Route/Cache.antt =====
-- `Persist` and `Load`: the set's cache file. The gob encoding, the random part of the temporary
-- file's name and the outcome of each system call are parameters; the disk maps paths to contents.
pub mod RoundTrip
pub use runed.Prelude.Files.{Disk, put_file}
use runed.Prelude.{◌≡◌, Bool, true, false, List, [], ◌∷◌, ◌++◌, Option, none, some, Bytes, text}
use runed.Prelude.{bytes_eq, if◌then◌else◌, Result, ok, err}
use runed.Prelude.FilePath.{join}
use runed.Route.Floats.{Floats}
use runed.Route.Set.{
  CentroidSet, RouteError, cache_dir, cache_temp, cache_encode, cache_close, cache_rename,
  cache_open, cache_decode,
}
use runed.Route.Version.{verify_version}

abbrev pub cache_file : Bytes
cache_file = text "centroids.gob"

abbrev pub cache_path : Bytes → Bytes
cache_path dir = join (dir ∷ cache_file ∷ [])

-- Whether each call of a `Persist` succeeds, and what an encoder that fails has written.
pub record PersistCalls : Type 0 where
  pub mkdir_all : Bool
  pub create_temp : Bool
  pub encode : Bool
  pub partial : Bytes
  pub close : Bool
  pub rename : Bool
  pub remove : Bool

-- Every call succeeds.
pub record AllSucceed (calls : PersistCalls) : Type 0 where
  pub mkdir_all : calls.mkdir_all ≡ true
  pub create_temp : calls.create_temp ≡ true
  pub encode : calls.encode ≡ true
  pub close : calls.close ≡ true
  pub rename : calls.rename ≡ true

-- gob's Encode and Decode.
pub record Codec (V : Type 0) : Type 0 where
  pub encode : CentroidSet V → Bytes
  pub decode : Bytes → Option (CentroidSet V)

module _ {V : Type 0} (gob : Codec V) where
  -- The deferred os.Remove(tmp.Name()), whose error is passed over.
  abbrev pub remove_temp : PersistCalls → Bytes → Disk → Disk
  remove_temp calls tmp d = put_file d tmp (if calls.remove then none else d tmp)

  -- From the open temporary file on.
  persist_temp :
      CentroidSet V → Bytes → Bytes → PersistCalls → Disk → Result RouteError (Unit {0}) × Disk
  persist_temp s target tmp calls d =
      if calls.encode
      then (let written = put_file d tmp (some (gob.encode s)) in
          if calls.close
          then (if calls.rename
              then (
                ok tt,
                remove_temp calls tmp
                    (put_file (put_file written target (some (gob.encode s))) tmp none),
              )
              else (err cache_rename, remove_temp calls tmp written))
          else (err cache_close, remove_temp calls tmp written))
      else (err cache_encode, remove_temp calls tmp (put_file d tmp (some calls.partial)))

  -- `suffix` is what `CreateTemp` puts in place of the star.
  unfoldable pub persist :
      CentroidSet V → Bytes → Bytes → PersistCalls → Disk → Result RouteError (Unit {0}) × Disk
  unfolding persist_temp
  persist s dir suffix calls d =
      if calls.mkdir_all
      then (if calls.create_temp
          then persist_temp s (cache_path dir)
              (join (dir ∷ (cache_file ++ (text ".tmp-" ++ suffix)) ∷ [])) calls d
          else (err cache_temp, d))
      else (err cache_dir, d)

module _ (F : Floats) (sha256 : Bytes → Bytes) (gob : Codec F.F32) where
  load_set : CentroidSet F.F32 → Result RouteError (CentroidSet F.F32)
  load_set s = elim (verify_version F sha256 s) [ ok _ ↦ ok s | err e ↦ err e ]

  load_file : Option Bytes → Result RouteError (CentroidSet F.F32)
  unfolding load_set
  load_file none = err cache_open
  load_file (some content) = elim (gob.decode content) [
    | none ↦ err cache_decode
    | some s ↦ load_set s
  ]

  unfoldable pub load : Bytes → Disk → Result RouteError (CentroidSet F.F32)
  unfolding load_file
  load dir d = load_file (d (cache_path dir))
