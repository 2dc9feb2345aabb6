-- ===== src/Examples/BootstrapRuns.antt =====
-- Downloads and the manifest at concrete inputs.
use runed.Prelude.{
  ◌≡◌, refl, ◌≢◌, ◌⊎◌, true, false, [], ◌∷◌, Option, none, some, Bytes, text, ok, err, equal_fold,
  ◌==◌, if◌then◌else◌,
}
use runed.Prelude.Files.{Disk}
use runed.Bootstrap.Download.{Network, download_with_retry, download_and_verify}
use runed.Bootstrap.Download.Verified.{Delivered}
use runed.Bootstrap.Download.Retry.{RemovalFailed, download_with_retry-Delivered}
use runed.Bootstrap.Download.Removed.{Removed}
use runed.Bootstrap.Manifest.{
  ArtifactSpec, LlamaServerSpec, Manifest, Requests, model_spec, fetch_manifest, fetch_from,
  fetch_manifest_body, check_body, after_fetch,
}
use runed.Bootstrap.Manifest.Laws.{fetch_manifest-Fetched, FetchedOrFailed}
use runed.Bootstrap.Model.{
  InstallCalls, InstallError, ensure_model, model_path, file_matches_sha256,
}
use runed.Bootstrap.Model.Installed.{Ensured, ensure_model-Ensured}
use runed.Route.Version.{hex}
use runed.Examples.Sample.{short_hash}

-- The first attempt is refused, the second brings the byte 0xab in two chunks.
abbrev pub network : Network
network = record {
  fetch = λ n. record {
    response =
        if n == 1
        then none
        else some (record {
          status = 200;
          content_length = 2;
          chunks = (0xab ∷ []) ∷ [] ∷ (0xcd ∷ []) ∷ [];
          ends_in_eof = true;
        });
    open_partial = true;
    write = λ i. true;
    sync = true;
    rename = true;
    remove = true;
  };
  wait = λ n backoff. true;
  cancelled = λ n. false;
}

abbrev empty_disk : Disk
empty_disk p = none

-- Its hash is of one byte, written in capitals.
abbrev pub spec : ArtifactSpec
spec = record { url = text "https://u"; sha256 = text "AB"; size = 2 }

abbrev pub server_spec : LlamaServerSpec
server_spec = record {
  url = text "https://s";
  sha256 = text "cd";
  size = 0;
  extract = text "tar.gz";
  exec = text "bin/llama-server";
}

abbrev pub manifest : Manifest
manifest = record {
  version = 1;
  platforms = λ tuple. some (some server_spec);
  models = λ variant. some spec;
  default_model = text "q";
}

download_with_retry-Delivered_example :
    let r =
      download_with_retry short_hash
        (text "https://u")
        (text "AB")
        2
        (text "/m")
        network
        empty_disk in
    Delivered short_hash (text "AB") 2 (text "/m") empty_disk r
    × Removed
        (RemovalFailed short_hash (text "https://u") (text "AB") 2 (text "/m") network)
        (text "/m")
        empty_disk
        r
download_with_retry-Delivered_example =
    download_with_retry-Delivered short_hash (text "https://u") (text "AB") 2 (text "/m") network
      empty_disk

retried :
    (download_with_retry short_hash
      (text "https://u")
      (text "AB")
      2
      (text "/m")
      network
      empty_disk).0
    ≡ ok tt
unfolding download_with_retry download_and_verify equal_fold hex
retried = refl

abbrev unmarshal : Bytes → Option Manifest
unmarshal body = some manifest

-- A gateway error, then the manifest.
abbrev requests : Requests
requests = record {
  get = λ n. if n == 1 then some (504, some []) else some (200, some (text "{}"));
  wait = λ n backoff. true;
  cancelled = λ n. false;
}

fetched : fetch_manifest unmarshal requests (text "https://m") ≡ (ok manifest, 2)
unfolding fetch_manifest fetch_from after_fetch fetch_manifest_body check_body
fetched = refl

fetch_manifest-Fetched_example :
    FetchedOrFailed unmarshal requests (fetch_manifest unmarshal requests (text "https://m"))
fetch_manifest-Fetched_example = fetch_manifest-Fetched unmarshal requests (text "https://m")

abbrev pub calls : InstallCalls
calls = record { stat_error = false; read = true; mkdir_all = true }

ensure_model-Ensured_example :
    let target = model_path (text "/models") (text "q") in
    let r = ensure_model short_hash calls network (text "/models") manifest (text "q") empty_disk in
    ((s : ArtifactSpec) × (model_spec manifest (text "q") ≡ ok s)
      × Ensured short_hash target s empty_disk r
      × ((file_matches_sha256 short_hash calls none s.sha256 ≢ ok true) ⊎ (r.1 ≡ empty_disk)))
    ⊎ ((e : InstallError) × (r ≡ (err e, empty_disk)))
ensure_model-Ensured_example =
    ensure_model-Ensured short_hash calls network (text "/models") manifest (text "q") empty_disk
