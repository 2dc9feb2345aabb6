-- ===== src/Bootstrap/Model/Installed.antt =====
-- The model file that is there after ensureModel.
use runed.Prelude.{
  ◌≡◌, ◌≢◌, inl, inr, refl, ◌⊎◌, arith, Bool, true, false, Option, none, some, Bytes, equal_fold,
  Result, ok, err, Bool-cases,
}
use runed.Prelude.Files.{Disk}
use runed.Route.Version.{hex}
use runed.Bootstrap.Download.{Network, DownloadError, download_with_retry}
use runed.Bootstrap.Download.Verified.{Delivered}
use runed.Bootstrap.Download.Retry.{outcome-Delivered}
use runed.Bootstrap.Manifest.{ArtifactSpec, Manifest, ManifestError, model_spec}
use runed.Bootstrap.Model.{
  InstallCalls, InstallError, mkdir_failed, model_path, file_matches_sha256, installed, fetch_model,
  ensure_spec, ensure_model,
}

module _ (sha256 : Bytes → Bytes) where
  -- The content has the hash of the manifest's entry.
  abbrev pub Matches : ArtifactSpec → Bytes → Type 0
  Matches spec content = equal_fold (hex (sha256 content)) spec.sha256 ≡ true

  -- The file has matching content, or there was an error and it is as before.
  abbrev pub Ensured :
      Bytes → ArtifactSpec → Disk → Result InstallError (Bytes × ArtifactSpec) × Disk → Type 0
  Ensured target spec d r =
      ((r.0 ≡ ok (target, spec))
        × (content : Bytes) × (r.1 target ≡ some content)
        × Matches spec content)
      ⊎ ((e : InstallError) × (r.0 ≡ err e) × (r.1 target ≡ d target))

  installed-Ensured :
      (target : Bytes) (spec : ArtifactSpec) (d : Disk) (r : Result DownloadError (Unit {0}) × Disk)
      → Delivered sha256 spec.sha256 spec.size target d r
      → Ensured target spec d (installed sha256 target spec r)
  unfolding installed
  installed-Ensured target spec d (ok tt, s) h = ground (arith, h.outcome)
  installed-Ensured target spec d (err e, s) h = ground (arith, h.outcome)

  fetch_model-Ensured :
      (calls : InstallCalls) (net : Network) (target : Bytes) (spec : ArtifactSpec)
      (r : Result InstallError Bool) (d : Disk)
      → (r ≡ ok true → (content : Bytes) × (d target ≡ some content) × Matches spec content)
      → Ensured target spec d (fetch_model sha256 calls net target spec r d)
  unfolding fetch_model
  fetch_model-Ensured calls net target spec (err e) d h = inr (e, refl, refl)
  fetch_model-Ensured calls net target spec (ok true) d h =
      let (content, here, same) = h refl in inl (refl, content, here, same)
  fetch_model-Ensured calls net target spec (ok false) d h =
      let r = download_with_retry sha256 spec.url spec.sha256 spec.size target net d in
      let got =
        installed-Ensured target spec d r
          (outcome-Delivered sha256 spec.url spec.sha256 spec.size target net d) in
      elim (Bool-cases calls.mkdir_all) [
        | inl e ↦ rw e got
        | inr e ↦ inr (mkdir_failed, rw e, rw e)
      ]

  file_matches_sha256-Matches :
      (calls : InstallCalls) (file : Option Bytes) (spec : ArtifactSpec)
      → file_matches_sha256 sha256 calls file spec.sha256 ≡ ok true
      → (content : Bytes) × (file ≡ some content) × Matches spec content
  unfolding file_matches_sha256
  file_matches_sha256-Matches calls none spec h = absurd (ground arith)
  file_matches_sha256-Matches calls (some content) spec h = (content, refl, ground arith)

  cached :
      (calls : InstallCalls) (net : Network) (target : Bytes) (spec : ArtifactSpec)
      (r : Result InstallError Bool) (d : Disk)
      → (r ≢ ok true) ⊎ ((fetch_model sha256 calls net target spec r d).1 ≡ d)
  unfolding fetch_model
  cached calls net target spec (err e) d = inl (λ q. cc)
  cached calls net target spec (ok true) d = inr refl
  cached calls net target spec (ok false) d = inl (λ q. absurd (ground arith))

  -- After ensureModel, either it returned the path of the variant and the manifest's entry for it, and
  -- the file at this path has content of the entry's hash; or it returned an error and the file is as
  -- before. A file that matched already is not downloaded again: nothing on the disk changes.
  pub ensure_model-Ensured :
      (calls : InstallCalls) (net : Network) (models : Bytes) (m : Manifest) (variant : Bytes)
      (d : Disk)
      → let target = model_path models variant in
        let r = ensure_model sha256 calls net models m variant d in
        ((spec : ArtifactSpec) × (model_spec m variant ≡ ok spec)
          × Ensured target spec d r
          × ((file_matches_sha256 sha256 calls (d target) spec.sha256 ≢ ok true) ⊎ (r.1 ≡ d)))
        ⊎ ((e : InstallError) × (r ≡ (err e, d)))
  unfolding ensure_model ensure_spec
  ensure_model-Ensured calls net models m variant d = go (model_spec m variant) refl
    where
      go :
          (q : Result ManifestError ArtifactSpec)
          → model_spec m variant ≡ q
          → let target = model_path models variant in
            let r = ensure_spec sha256 calls net target q d in
            ((spec : ArtifactSpec) × (model_spec m variant ≡ ok spec)
              × Ensured target spec d r
              × ((file_matches_sha256 sha256 calls (d target) spec.sha256 ≢ ok true) ⊎ (r.1 ≡ d)))
            ⊎ ((e : InstallError) × (r ≡ (err e, d)))
      go (err e) q = inr (_, refl)
      go (ok spec) q = inl (
        spec,
        q,
        fetch_model-Ensured calls net (model_path models variant) spec _ d
            (file_matches_sha256-Matches calls (d (model_path models variant)) spec),
        cached calls net (model_path models variant) spec _ d,
      )
