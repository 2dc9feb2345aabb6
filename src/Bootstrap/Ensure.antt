-- ===== src/Bootstrap/Ensure.antt =====
-- EnsureAll, EnsureLlamaServer and EnsureModel of internal/bootstrap/install.go, over the parts of an
-- installation. The deferred Release of the lock is the end of each; reports of progress are left out.
pub mod Complete
use runed.Prelude.{
  ℕ, ◌*◌, Bool, true, false, List, [], ◌∷◌, Option, none, some, Bytes, text, Result, ok, err,
  if◌then◌else◌,
}
use runed.Prelude.Files.{Disk}
use runed.Bootstrap.Download.{Network}
use runed.Bootstrap.Manifest.{
  ArtifactSpec, LlamaServerSpec, Manifest, ManifestError, ConfigFile, resolve_model_variant,
}
use runed.Bootstrap.Extract.{Archive, ExtractCalls}
use runed.Bootstrap.Layout.{Paths, LayoutError, ensure_dirs}
use runed.Bootstrap.Lock.{LockCalls, LockError, acquire_lock}
use runed.Bootstrap.Licenses.{LicenseEntry, LicenseError, install_licenses}
use runed.Bootstrap.Install.{ServerCalls, ServerError, ensure_llama_server}
use runed.Bootstrap.Model.{InstallCalls, InstallError, ensure_model}
use runed.Bootstrap.Audit.{
  InstalledArtifact, Json, AuditCalls, AuditError, Install, record_install, stat_size,
}

-- 2 * downloadTimeout, in nanoseconds.
abbrev pub install_lock_timeout : ℕ
install_lock_timeout = 2 * (2 * (3600 * 1000000000))

pub data EnsureError : Type 0 where
  dirs_failed : LayoutError → EnsureError
  no_variant : ManifestError → EnsureError
  lock_failed : LockError → EnsureError
  licenses_failed : LicenseError → EnsureError
  server_failed : ServerError → EnsureError
  model_failed : InstallError → EnsureError

-- The environment of an installation: the platform, RUNED_MODEL_VARIANT, config.json, the manifest's
-- URL, the times, the embedded licences and the outcomes of every call.
pub record World : Type 0 where
  pub platform : Bytes
  pub variant_env : Bytes
  pub config : ConfigFile
  pub url : Bytes
  pub start : ℕ
  pub now : Bytes
  pub mkdir_all : Bytes → Bool
  pub lock : LockCalls
  pub licenses : List LicenseEntry
  pub server_net : Network
  pub server : ServerCalls
  pub model_net : Network
  pub model : InstallCalls
  pub audit : AuditCalls

abbrev pub server_artifact : Bytes → LlamaServerSpec → Disk → InstalledArtifact
server_artifact path spec d = record {
  url = spec.url;
  sha256 = spec.sha256;
  path = path;
  size = stat_size (d path) spec.size;
}

abbrev pub model_artifact : Bytes → ArtifactSpec → Disk → InstalledArtifact
model_artifact path spec d = record {
  url = spec.url;
  sha256 = spec.sha256;
  path = path;
  size = stat_size (d path) spec.size;
}

-- The next step, unless there was an error.
abbrev pub then_with :
    {A B E : Type 0}
    → (E → EnsureError)
    → (A → Disk → Result EnsureError B × Disk)
    → Result E A × Disk
    → Result EnsureError B × Disk
then_with fail next (err e, d) = (err (fail e), d)
then_with fail next (ok a, d) = next a d

module _ (sha256 : Bytes → Bytes) (untar : Bytes → ExtractCalls × Archive) (json : Json) (w : World)
    (p : Paths) (m : Manifest) where
  -- An audit that fails is logged, and no error.
  unfoldable pub audited : {A : Type 0} → A → Install → Disk → Result EnsureError A × Disk
  audited a i d = (ok a, (record_install json w.audit p.home w.platform w.now i d).1)

  -- The lock, and the licences before anything is downloaded.
  unfoldable pub with_lock :
      {A : Type 0} → (Disk → Result EnsureError A × Disk) → Disk → Result EnsureError A × Disk
  with_lock body d =
      then_with lock_failed
        (λ _ s. then_with licenses_failed (λ _ t. body t) (install_licenses p.home w.licenses s))
        (acquire_lock p.install_lock w.start install_lock_timeout w.lock d)

  unfoldable pub audit_all :
      Bytes
      → Bytes × LlamaServerSpec
      → Bytes × ArtifactSpec
      → Disk
      → Result EnsureError (Bytes × Bytes × Bytes) × Disk
  unfolding audited
  audit_all variant (bin, server) (path, spec) d =
      audited (bin, path, variant)
        (record {
          url = w.url;
          version = m.version;
          variant = variant;
          artifacts =
              (text "llama_server", server_artifact bin server d)
              ∷ (text "model", model_artifact path spec d)
              ∷ [];
        })
        d

  unfoldable pub all_model :
      Bytes → Bytes × LlamaServerSpec → Disk → Result EnsureError (Bytes × Bytes × Bytes) × Disk
  unfolding audit_all
  all_model variant bin d =
      then_with model_failed (audit_all variant bin)
        (ensure_model sha256 w.model w.model_net p.models m variant d)

  unfoldable pub all_installed : Bytes → Disk → Result EnsureError (Bytes × Bytes × Bytes) × Disk
  unfolding all_model
  all_installed variant d =
      then_with server_failed (all_model variant)
        (ensure_llama_server sha256 untar w.server w.server_net p m w.platform d)

  unfoldable pub all_variant :
      Result ManifestError Bytes → Disk → Result EnsureError (Bytes × Bytes × Bytes) × Disk
  unfolding with_lock all_installed
  all_variant (err e) d = (err (no_variant e), d)
  all_variant (ok variant) d = with_lock (all_installed variant) d

  unfoldable pub ensure_all : Disk → Result EnsureError (Bytes × Bytes × Bytes) × Disk
  unfolding all_variant
  ensure_all d = elim (ensure_dirs w.mkdir_all p) [
    | err e ↦ (err (dirs_failed e), d)
    | ok _ ↦ all_variant (resolve_model_variant w.variant_env w.config m) d
  ]

  unfoldable pub only_server : Disk → Result EnsureError Bytes × Disk
  unfolding audited
  only_server d =
      then_with server_failed
        (λ (r : Bytes × LlamaServerSpec) s.
          audited r.0
            (record {
              url = w.url;
              version = m.version;
              variant = [];
              artifacts = (text "llama_server", server_artifact r.0 r.1 s) ∷ [];
            })
            s)
        (ensure_llama_server sha256 untar w.server w.server_net p m w.platform d)

  unfoldable pub ensure_only_llama_server : Disk → Result EnsureError Bytes × Disk
  unfolding with_lock only_server
  ensure_only_llama_server d = elim (ensure_dirs w.mkdir_all p) [
    | err e ↦ (err (dirs_failed e), d)
    | ok _ ↦ with_lock only_server d
  ]

  unfoldable pub only_model : Bytes → Disk → Result EnsureError (Bytes × Bytes) × Disk
  unfolding audited
  only_model variant d =
      then_with model_failed
        (λ (r : Bytes × ArtifactSpec) s.
          audited (r.0, variant)
            (record {
              url = w.url;
              version = m.version;
              variant = variant;
              artifacts = (text "model", model_artifact r.0 r.1 s) ∷ [];
            })
            s)
        (ensure_model sha256 w.model w.model_net p.models m variant d)

  unfoldable pub model_variant :
      Result ManifestError Bytes → Disk → Result EnsureError (Bytes × Bytes) × Disk
  unfolding with_lock only_model
  model_variant (err e) d = (err (no_variant e), d)
  model_variant (ok variant) d = with_lock (only_model variant) d

  unfoldable pub ensure_only_model : Disk → Result EnsureError (Bytes × Bytes) × Disk
  unfolding model_variant
  ensure_only_model d = elim (ensure_dirs w.mkdir_all p) [
    | err e ↦ (err (dirs_failed e), d)
    | ok _ ↦ model_variant (resolve_model_variant w.variant_env w.config m) d
  ]
