-- ===== src/Daemon/Boot/Restart.antt =====
-- A restarted daemon serves the set that was pushed last.
use runed.Prelude.{◌≡◌, refl, ◌≢◌, arith, ok, err, some, none, Bytes, List, [], ◌∷◌, Result}
use runed.Prelude.{is_empty, false}
use runed.Route.Floats.{Floats}
use runed.Route.Set.{CentroidSet, validate}
use runed.Route.Version.{verify_version}
use runed.Route.Cache.{Disk, Codec, PersistCalls, AllSucceed, cache_path}
use runed.Route.Cache.RoundTrip.{temp_path, load-persist, persist_ok}
use runed.Server.Types.{Server, vector_dim, RpcError}
use runed.Server.Centroids.{
  Frame, StreamEnd, set_centroids, SetCentroidsResponse, install, collect, finish, load_centroids,
}
use runed.Server.Centroids.Laws.{accept_ok}
use runed.Daemon.Boot.{restore_centroids}

load_centroids_usable :
    {V : Type 0} (cs : CentroidSet V) (s : Server V)
    → validate (some cs) vector_dim ≡ ok tt
    → (load_centroids (some cs) s).1.centroids ≡ some cs
unfolding load_centroids
load_centroids_usable cs s h = ground arith

is_empty-ne : (dir : Bytes) → dir ≢ [] → is_empty dir ≡ false
is_empty-ne [] h = absurd (h refl)
is_empty-ne (c ∷ s) h = refl

module _ (F : Floats) (sha256 : Bytes → Bytes) (gob : Codec F.F32) where
  restored :
      (r : Result RpcError (CentroidSet F.F32)) (suffix : Bytes) (calls : PersistCalls)
      (s fresh : Server F.F32) (d : Disk) (resp : SetCentroidsResponse)
      → ((cs : CentroidSet F.F32)
          → r ≡ ok cs
          → (validate (some cs) vector_dim ≡ ok tt) × (verify_version F sha256 cs ≡ ok tt))
      → ((cs : CentroidSet F.F32) → r ≡ ok cs → gob.decode (gob.encode cs) ≡ some cs)
      → temp_path s.centroid_cache_dir suffix ≢ cache_path s.centroid_cache_dir
      → s.centroid_cache_dir ≢ []
      → AllSucceed calls
      → let t = finish F sha256 gob r suffix calls s d in
        t.0 ≡ ok resp
        → (restore_centroids F sha256 gob s.centroid_cache_dir t.2 fresh).centroids ≡ t.1.centroids
  unfolding finish install restore_centroids
  restored (err e) suffix calls s fresh d resp fine codec apart dir calls_ok h = cc
  restored (ok cs) suffix calls s fresh d resp fine codec apart dir calls_ok h =
      let (valid, verified) = fine cs refl in
      let home = s.centroid_cache_dir in
      let loaded =
        load-persist F sha256 gob cs home suffix calls d (codec cs refl) apart verified
          (persist_ok gob cs home suffix calls d calls_ok) in
      ground (arith, loaded, is_empty-ne home dir, load_centroids_usable cs fresh valid)

  -- After a push that succeeded and whose calls on the disk succeeded, on a service with a cache
  -- directory, a new service that restores its set from the disk has the set that the old one had
  -- live. gob decodes what it encoded of the pushed set, and the temporary file has a name of its own.
  pub restore_centroids-set_centroids :
      (frames : List (Frame F.F32)) (end : StreamEnd) (suffix : Bytes) (calls : PersistCalls)
      (s fresh : Server F.F32) (d : Disk) (resp : SetCentroidsResponse)
      → ((cs : CentroidSet F.F32)
          → collect none frames end ≡ ok (some cs)
          → gob.decode (gob.encode cs) ≡ some cs)
      → temp_path s.centroid_cache_dir suffix ≢ cache_path s.centroid_cache_dir
      → s.centroid_cache_dir ≢ []
      → AllSucceed calls
      → let r = set_centroids F sha256 gob frames end suffix calls s d in
        r.0 ≡ ok resp
        → (restore_centroids F sha256 gob s.centroid_cache_dir r.2 fresh).centroids ≡ r.1.centroids
  unfolding set_centroids
  restore_centroids-set_centroids frames end suffix calls s fresh d resp codec apart dir calls_ok
        h =
      restored _ suffix calls s fresh d resp
        (λ cs q. let (assembled, fine) = accept_ok F sha256 (collect none frames end) cs q in fine)
        (λ cs q. codec cs (accept_ok F sha256 (collect none frames end) cs q).0) apart dir calls_ok
        h
