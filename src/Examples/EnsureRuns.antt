-- ===== src/Examples/EnsureRuns.antt =====
-- Whole installations and their record at concrete inputs.
use runed.Prelude.{
  ◌≡◌, refl, ◌≢◌, ◌⊎◌, arith, true, false, [], ◌∷◌, none, some, Bytes, text, ok, if◌then◌else◌,
  bytes_eq, is_empty,
}
use runed.Prelude.FilePath.{join, clean}
use runed.Prelude.Files.{Disk, put_file, complete}
use runed.Bootstrap.Manifest.{
  absent, model_spec, resolve_model_variant, variant_of, load_config, check_model,
}
use runed.Bootstrap.Model.{model_path}
use runed.Bootstrap.Licenses.{directory, license}
use runed.Bootstrap.Audit.{
  InstalledArtifact, InstalledManifest, Json, AuditCalls, Install, installed_manifest_path,
  installed_temp_path, updated, read_installed_manifest, parse_installed, record_install,
}
use runed.Bootstrap.Audit.Kept.{MergedFrom, record_install_kept}
use runed.Bootstrap.Ensure.{World, ensure_all}
use runed.Bootstrap.Ensure.Complete.{Complete, ensure_all-Complete}
use runed.Examples.Sample.{short_hash}
use runed.Examples.BootstrapRuns.{network, spec, manifest, calls}
use runed.Examples.InstallRuns.{paths, server_calls, untar, lock_calls, no_files}

abbrev artifact : Bytes → InstalledArtifact
artifact url = record { url = url; sha256 = text "ab"; path = text "/r/x"; size = 1 }

abbrev old : InstalledManifest
old = record {
  manifest_url = text "u0";
  manifest_version = 1;
  platform = text "linux-amd64";
  installed_at = text "then";
  model_variant = text "q";
  artifacts = λ k. if bytes_eq k (text "model") then some (artifact (text "m0")) else none;
}

-- A new llama-server, and no new model.
abbrev install : Install
install = record {
  url = text "u1";
  version = 1;
  variant = [];
  artifacts = (text "llama_server", artifact (text "l1")) ∷ [];
}

abbrev next : InstalledManifest
next = record {
  manifest_url = text "u1";
  manifest_version = 1;
  platform = text "linux-amd64";
  installed_at = text "now";
  model_variant = text "q";
  artifacts = λ k.
      if bytes_eq (text "llama_server") k
      then some (artifact (text "l1"))
      else if bytes_eq k (text "model")
      then some (artifact (text "m0"))
      else none;
}

-- A codec of these two records.
abbrev json : Json
json = record {
  marshal = λ m. some (text "{}");
  unmarshal = λ content. if bytes_eq content (text "{}") then some next else some old;
}

abbrev audit_calls : AuditCalls
audit_calls = record {
  read = true;
  mkdir_all = true;
  create_temp = true;
  suffix = text "1";
  write = true;
  partial = [];
  close = true;
  chmod = true;
  rename = true;
}

abbrev audited_disk : Disk
audited_disk = put_file no_files (installed_manifest_path (text "/r")) (some (text "{0}"))

temp_differs :
    bytes_eq (installed_temp_path (text "/r") (text "1")) (installed_manifest_path (text "/r"))
    ≡ false
unfolding join clean bytes_eq
temp_differs = refl

was_old : read_installed_manifest json true (text "/r") audited_disk ≡ ok old
unfolding read_installed_manifest parse_installed bytes_eq join clean
was_old = refl

decodes_next :
    (content : Bytes)
    → json.marshal (updated (text "linux-amd64") (text "now") install old) ≡ some content
    → json.unmarshal content ≡ some (updated (text "linux-amd64") (text "now") install old)
unfolding updated bytes_eq
decodes_next content e = ground arith

record_install_kept_example :
    let r =
      record_install json audit_calls
        (text "/r")
        (text "linux-amd64")
        (text "now")
        install
        audited_disk in
    ((r.0 ≡ ok tt)
      × (m : InstalledManifest) × (read_installed_manifest json true (text "/r") r.1 ≡ ok m)
      × (m.manifest_url ≡ install.url)
      × (m.manifest_version ≡ install.version)
      × (m.model_variant
          ≡ (if is_empty install.variant then old.model_variant else install.variant))
      × ((k : Bytes) → MergedFrom install.artifacts old m k))
    ⊎ ((r.0 ≢ ok tt)
        × (r.1 (installed_manifest_path (text "/r"))
            ≡ audited_disk (installed_manifest_path (text "/r"))))
record_install_kept_example =
    record_install_kept json audit_calls (text "/r") (text "linux-amd64") (text "now") install
      audited_disk old decodes_next temp_differs was_old

abbrev world : World
world = record {
  platform = text "linux-amd64";
  variant_env = [];
  config = absent;
  url = text "https://m";
  start = 5;
  now = text "now";
  mkdir_all = λ p. true;
  lock = lock_calls;
  licenses = directory (text ".") true ∷ license (text "LICENSE") (some (text "x")) complete ∷ [];
  server_net = network;
  server = server_calls;
  model_net = network;
  model = calls;
  audit = audit_calls;
}

variant_q : resolve_model_variant world.variant_env world.config manifest ≡ ok (text "q")
unfolding resolve_model_variant load_config variant_of
variant_q = refl

model_q : model_spec manifest (text "q") ≡ ok spec
unfolding model_spec check_model
model_q = refl

audit_apart :
    (bytes_eq (installed_manifest_path (text "/r")) (model_path paths.models (text "q")) ≡ false)
    × (bytes_eq (installed_temp_path (text "/r") (text "1")) (model_path paths.models (text "q"))
        ≡ false)
unfolding join clean bytes_eq
audit_apart = (refl, refl)

ensure_all-Complete_example :
    Complete short_hash
      (model_path paths.models (text "q"))
      (text "q")
      spec
      (ensure_all short_hash untar json world paths manifest no_files)
ensure_all-Complete_example =
    ensure_all-Complete short_hash untar json world paths manifest (text "q") spec no_files
      variant_q model_q audit_apart.0 audit_apart.1
