-- ===== src/Daemon/SelfBootstrap.antt =====
-- selfBootstrap of cmd/runed/main.go, over the installation of Bootstrap.
use runed.Prelude.{[], Bool, true, false, Bytes, is_empty, Result, ok, err, if◌then◌else◌}
use runed.Prelude.Files.{Disk}
use runed.Bootstrap.Manifest.{Manifest, ManifestError, Requests, fetch_manifest}
use runed.Bootstrap.Extract.{Archive, ExtractCalls}
use runed.Bootstrap.Layout.{Paths}
use runed.Bootstrap.Audit.{Json}
use runed.Bootstrap.Ensure.{
  EnsureError, World, ensure_all, ensure_only_llama_server, ensure_only_model,
}
use mathlib.Core.Option.{Option}

pub data BootstrapError : Type 0 where
  no_manifest_url nothing_to_do : BootstrapError
  manifest_failed : ManifestError → BootstrapError
  install_failed : EnsureError → BootstrapError

-- The paths of the executable and of the model; one that was not asked for is empty.
abbrev pub Bootstrapped : Type 0
Bootstrapped = Result BootstrapError (Bytes × Bytes) × Disk

unfoldable pub all_paths : Result EnsureError (Bytes × Bytes × Bytes) × Disk → Bootstrapped
all_paths (err e, d) = (err (install_failed e), d)
all_paths (ok (bin, model, variant), d) = (ok (bin, model), d)

unfoldable pub server_path : Result EnsureError Bytes × Disk → Bootstrapped
server_path (err e, d) = (err (install_failed e), d)
server_path (ok bin, d) = (ok (bin, []), d)

unfoldable pub model_only : Result EnsureError (Bytes × Bytes) × Disk → Bootstrapped
model_only (err e, d) = (err (install_failed e), d)
model_only (ok (model, variant), d) = (ok ([], model), d)

module _ (sha256 : Bytes → Bytes) (untar : Bytes → ExtractCalls × Archive) (json : Json) (w : World)
    (p : Paths) where
  -- `need_llama` and `need_model` say which of the two paths the environment leaves out.
  unfoldable pub install_needed : Bool → Bool → Manifest → Disk → Bootstrapped
  unfolding all_paths server_path model_only
  install_needed true true m d = all_paths (ensure_all sha256 untar json w p m d)
  install_needed true false m d = server_path (ensure_only_llama_server sha256 untar json w p m d)
  install_needed false true m d = model_only (ensure_only_model sha256 untar json w p m d)
  install_needed false false m d = (err nothing_to_do, d)

  unfoldable pub with_manifest : Bool → Bool → Result ManifestError Manifest → Disk → Bootstrapped
  unfolding install_needed
  with_manifest need_llama need_model (err e) d = (err (manifest_failed e), d)
  with_manifest need_llama need_model (ok m) d = install_needed need_llama need_model m d

  -- `w.url` is the manifest's URL.
  unfoldable pub self_bootstrap :
      (Bytes → Option Manifest) → Requests → Bool → Bool → Disk → Bootstrapped
  unfolding with_manifest
  self_bootstrap unmarshal requests need_llama need_model d =
      if is_empty w.url
      then (err no_manifest_url, d)
      else with_manifest need_llama need_model (fetch_manifest unmarshal requests w.url).0 d
