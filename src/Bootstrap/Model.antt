-- ===== src/Bootstrap/Model.antt =====
-- FileSHA256 and FileMatchesSHA256 of internal/bootstrap/download.go, ModelPath of paths.go, and
-- ensureModel of install.go.
pub mod Installed
use runed.Prelude.{
  Bool, true, false, List, [], ◌∷◌, ◌++◌, Option, none, some, Bytes, text, equal_fold, Result, ok,
  err, if◌then◌else◌,
}
use runed.Prelude.FilePath.{join}
use runed.Prelude.Files.{Disk}
use runed.Route.Version.{hex}
use runed.Bootstrap.Download.{DownloadError, Network, download_with_retry}
use runed.Bootstrap.Manifest.{ArtifactSpec, Manifest, ManifestError, model_spec}

pub data InstallError : Type 0 where
  no_spec : ManifestError → InstallError
  stat_failed read_failed mkdir_failed : InstallError
  download_failed : DownloadError → InstallError

-- Whether Stat gives an error other than that the file does not exist, and whether the other calls of
-- an installation succeed.
pub record InstallCalls : Type 0 where
  pub stat_error : Bool
  pub read : Bool
  pub mkdir_all : Bool

-- The variant's file in the directory of the models.
abbrev pub model_path : Bytes → Bytes → Bytes
model_path models variant = join (models ∷ (variant ++ text ".gguf") ∷ [])

module _ (sha256 : Bytes → Bytes) where
  unfoldable pub file_matches_sha256 :
      InstallCalls → Option Bytes → Bytes → Result InstallError Bool
  file_matches_sha256 calls none expected = if calls.stat_error then err stat_failed else ok false
  file_matches_sha256 calls (some content) expected =
      if calls.stat_error
      then err stat_failed
      else if calls.read
      then ok (equal_fold (hex (sha256 content)) expected)
      else err read_failed

  -- The end of ensureModel: the result of the download.
  unfoldable pub installed :
      Bytes
      → ArtifactSpec
      → Result DownloadError (Unit {0}) × Disk
      → Result InstallError (Bytes × ArtifactSpec) × Disk
  installed target spec (ok _, d) = (ok (target, spec), d)
  installed target spec (err e, d) = (err (download_failed e), d)

  -- After the check of the file that is there.
  unfoldable pub fetch_model :
      InstallCalls
      → Network
      → Bytes
      → ArtifactSpec
      → Result InstallError Bool
      → Disk
      → Result InstallError (Bytes × ArtifactSpec) × Disk
  unfolding installed
  fetch_model calls net target spec (err e) d = (err e, d)
  fetch_model calls net target spec (ok true) d = (ok (target, spec), d)
  fetch_model calls net target spec (ok false) d =
      if calls.mkdir_all
      then installed target spec
          (download_with_retry sha256 spec.url spec.sha256 spec.size target net d)
      else (err mkdir_failed, d)

  unfoldable pub ensure_spec :
      InstallCalls
      → Network
      → Bytes
      → Result ManifestError ArtifactSpec
      → Disk
      → Result InstallError (Bytes × ArtifactSpec) × Disk
  unfolding fetch_model file_matches_sha256
  ensure_spec calls net target (err e) d = (err (no_spec e), d)
  ensure_spec calls net target (ok spec) d =
      fetch_model calls net target spec (file_matches_sha256 calls (d target) spec.sha256) d

  unfoldable pub ensure_model :
      InstallCalls
      → Network
      → Bytes
      → Manifest
      → Bytes
      → Disk
      → Result InstallError (Bytes × ArtifactSpec) × Disk
  unfolding ensure_spec
  ensure_model calls net models m variant d =
      ensure_spec calls net (model_path models variant) (model_spec m variant) d
