-- ===== src/Bootstrap/Install.antt =====
-- llamaServerTarget and ensureLlamaServer of internal/bootstrap/install.go. What gzip and tar make of
-- the downloaded bytes, with the outcomes of the extraction's calls, is a parameter.
pub mod Steps
pub mod Verified
use runed.Prelude.{
  Bool, false, not, ◌&&◌, ◌||◌, [], ◌∷◌, Option, none, some, is_some, Bytes, text, is_empty,
  bytes_eq, Result, ok, err, if◌then◌else◌,
}
use runed.Prelude.FilePath.{join}
use runed.Prelude.Files.{Disk, put_file, FileWrite, write_file}
use runed.Bootstrap.Download.{DownloadError, Network, download_with_retry}
use runed.Bootstrap.Manifest.{LlamaServerSpec, Manifest, ManifestError, llama_server_for_platform}
use runed.Bootstrap.Extract.{
  Archive, ExtractCalls, ExtractError, open_archive, Extraction, extract_tar_gz, extract_failed,
}
use runed.Bootstrap.Layout.{Paths}

pub data ServerError : Type 0 where
  no_spec : ManifestError → ServerError
  mkdir_failed chmod_failed exec_missing chmod_target : ServerError
  download_failed : DownloadError → ServerError
  extraction_failed : ExtractError → ServerError
  unsupported_extract : Bytes → ServerError

-- Whether the calls succeed, and whether the path of the executable is that of a directory.
pub record ServerCalls : Type 0 where
  pub read_marker : Bool
  pub mkdir_all : Bool
  pub chmod_raw : Bool
  pub is_dir : Bool
  pub chmod : Bool
  pub marker : FileWrite

abbrev pub llama_server_target : Bytes → LlamaServerSpec → Bytes
llama_server_target llama_dir spec =
    join (llama_dir ∷ (if is_empty spec.exec then text "llama-server" else spec.exec) ∷ [])

abbrev pub marker_path : Bytes → Bytes
marker_path llama_dir = join (llama_dir ∷ text ".llama_server.sha256" ∷ [])

abbrev pub tar_path : Bytes → Bytes
tar_path cache = join (cache ∷ text "llama-server.tar.gz" ∷ [])

-- The marker names the hash, and the executable is there.
unfoldable pub cache_hit : ServerCalls → Bytes → Bytes → LlamaServerSpec → Disk → Bool
cache_hit calls marker target spec d =
    calls.read_marker
    && (elim (d marker) [ none ↦ false | some existing ↦ bytes_eq existing spec.sha256 ]
        && (is_some (d target) || calls.is_dir))

-- After the switch on the kind of the artifact.
unfoldable pub complete_install :
    ServerCalls
    → Bytes
    → Bytes
    → LlamaServerSpec
    → Result ServerError (Unit {0}) × Disk
    → Result ServerError (Bytes × LlamaServerSpec) × Disk
unfolding write_file
complete_install calls marker target spec (err e, d) = (err e, d)
complete_install calls marker target spec (ok _, d) =
    if not (is_some (d target) || calls.is_dir)
    then (err exec_missing, d)
    else if not calls.chmod
    then (err chmod_target, d)
    else (ok (target, spec), write_file marker spec.sha256 calls.marker d)

unfoldable pub install_raw :
    ServerCalls → Result DownloadError (Unit {0}) × Disk → Result ServerError (Unit {0}) × Disk
install_raw calls (err e, d) = (err (download_failed e), d)
install_raw calls (ok _, d) = if calls.chmod_raw then (ok tt, d) else (err chmod_failed, d)

unfoldable pub extraction_result : Extraction → Result ServerError (Unit {0}) × Disk
extraction_result x = (elim x.error [ none ↦ ok tt | some e ↦ err (extraction_failed e) ], x.disk)

-- ExtractTarGz on the file at a path.
unfoldable pub extract_content : (Bytes → ExtractCalls × Archive) → Option Bytes → Disk → Extraction
extract_content untar none d = extract_failed open_archive d
extract_content untar (some content) d = extract_tar_gz (untar content).0 (untar content).1 d

-- Of a function, the deferred removal of a file.
abbrev pub deferred_remove : {A : Type 0} → Bytes → A × Disk → A × Disk
deferred_remove path (r, d) = (r, put_file d path none)

module _ (sha256 : Bytes → Bytes) (untar : Bytes → ExtractCalls × Archive) where
  unfoldable pub install_tar :
      ServerCalls
      → Bytes
      → Bytes
      → Bytes
      → LlamaServerSpec
      → Result DownloadError (Unit {0}) × Disk
      → Result ServerError (Bytes × LlamaServerSpec) × Disk
  unfolding extraction_result extract_content complete_install
  install_tar calls marker target tar spec (err e, d) = (err (download_failed e), d)
  install_tar calls marker target tar spec (ok _, d) = deferred_remove tar (
      complete_install calls marker target spec
        (extraction_result (extract_content untar (d tar) d)))

  -- The switch on the kind of the artifact.
  unfoldable pub install_server :
      ServerCalls
      → Network
      → Paths
      → LlamaServerSpec
      → Disk
      → Result ServerError (Bytes × LlamaServerSpec) × Disk
  unfolding install_raw install_tar complete_install
  install_server calls net p spec d =
      let target = llama_server_target p.llama_dir spec in
      let marker = marker_path p.llama_dir in
      let tar = tar_path p.cache in
      if is_empty spec.extract
      then (if calls.mkdir_all
          then complete_install calls marker target spec (
              install_raw calls
                (download_with_retry sha256 spec.url spec.sha256 spec.size target net d))
          else (err mkdir_failed, d))
      else if bytes_eq spec.extract (text "tar.gz")
      then install_tar calls marker target tar spec
          (download_with_retry sha256 spec.url spec.sha256 spec.size tar net d)
      else (err (unsupported_extract spec.extract), d)

  unfoldable pub ensure_server_spec :
      ServerCalls
      → Network
      → Paths
      → Result ManifestError LlamaServerSpec
      → Disk
      → Result ServerError (Bytes × LlamaServerSpec) × Disk
  unfolding install_server cache_hit
  ensure_server_spec calls net p (err e) d = (err (no_spec e), d)
  ensure_server_spec calls net p (ok spec) d =
      let target = llama_server_target p.llama_dir spec in
      if cache_hit calls (marker_path p.llama_dir) target spec d
      then (ok (target, spec), d)
      else install_server calls net p spec d

  unfoldable pub ensure_llama_server :
      ServerCalls
      → Network
      → Paths
      → Manifest
      → Bytes
      → Disk
      → Result ServerError (Bytes × LlamaServerSpec) × Disk
  unfolding ensure_server_spec
  ensure_llama_server calls net p m tuple d =
      ensure_server_spec calls net p (llama_server_for_platform m tuple) d
