-- ===== src/Bootstrap/Audit.antt =====
-- internal/bootstrap/audit.go: installed.json. The JSON codec, the random part of the temporary file's
-- name and the outcomes of the calls are parameters; the map of artifacts is a function.
pub mod Kept
use runed.Prelude.{
  ℕ, Bool, true, false, not, List, [], ◌∷◌, ◌++◌, Option, none, some, Bytes, text, is_empty,
  bytes_eq, length, Result, ok, err, if◌then◌else◌,
}
use runed.Prelude.FilePath.{join}
use runed.Prelude.Files.{Disk, put_file}

pub record InstalledArtifact : Type 0 where
  pub url : Bytes
  pub sha256 : Bytes
  pub path : Bytes
  pub size : ℕ

pub record InstalledManifest : Type 0 where
  pub manifest_url : Bytes
  pub manifest_version : ℕ
  pub platform : Bytes
  pub installed_at : Bytes
  pub model_variant : Bytes
  pub artifacts : Bytes → Option InstalledArtifact

pub data AuditError : Type 0 where
  marshal_failed mkdir_failed tmp_failed write_failed close_failed chmod_failed : AuditError
  rename_failed read_failed parse_failed : AuditError

-- MarshalIndent and Unmarshal.
pub record Json : Type 0 where
  pub marshal : InstalledManifest → Option Bytes
  pub unmarshal : Bytes → Option InstalledManifest

-- Whether the calls succeed, what a write that fails has written, and what CreateTemp puts for the star.
pub record AuditCalls : Type 0 where
  pub read : Bool
  pub mkdir_all : Bool
  pub create_temp : Bool
  pub suffix : Bytes
  pub write : Bool
  pub partial : Bytes
  pub close : Bool
  pub chmod : Bool
  pub rename : Bool

abbrev pub installed_manifest_path : Bytes → Bytes
installed_manifest_path home = join (home ∷ text "installed.json" ∷ [])

abbrev pub installed_temp_path : Bytes → Bytes → Bytes
installed_temp_path home suffix = join (home ∷ (text ".installed.json." ++ suffix) ∷ [])

-- From the open temporary file on. The deferred Remove runs on every return.
unfoldable pub write_temp :
    AuditCalls → Bytes → Bytes → Bytes → Disk → Result AuditError (Unit {0}) × Disk
write_temp calls target tmp content d =
    let written = put_file d tmp (some content) in
    if not calls.write
    then (err write_failed, put_file (put_file d tmp (some calls.partial)) tmp none)
    else if not calls.close
    then (err close_failed, put_file written tmp none)
    else if not calls.chmod
    then (err chmod_failed, put_file written tmp none)
    else if not calls.rename
    then (err rename_failed, put_file written tmp none)
    else (ok tt, put_file (put_file (put_file written target (some content)) tmp none) tmp none)

unfoldable pub write_marshalled :
    AuditCalls → Bytes → Option Bytes → Disk → Result AuditError (Unit {0}) × Disk
unfolding write_temp
write_marshalled calls home none d = (err marshal_failed, d)
write_marshalled calls home (some content) d =
    if not calls.mkdir_all
    then (err mkdir_failed, d)
    else if not calls.create_temp
    then (err tmp_failed, d)
    else write_temp calls (installed_manifest_path home) (installed_temp_path home calls.suffix)
        content d

-- stat's size, or the fallback where it fails.
abbrev pub stat_size : Option Bytes → ℕ → ℕ
stat_size none fallback = fallback
stat_size (some content) fallback = length content

-- A record with no content yet.
abbrev pub fresh : InstalledManifest
fresh = record {
  manifest_url = [];
  manifest_version = 0;
  platform = [];
  installed_at = [];
  model_variant = [];
  artifacts = λ k. none;
}

-- The artifacts of this installation over those that are recorded. The keys are those of a Go map.
abbrev pub merge :
    List (Bytes × InstalledArtifact)
    → (Bytes → Option InstalledArtifact)
    → Bytes
    → Option InstalledArtifact
merge [] old k = old k
merge ((j, a) ∷ rest) old k = if bytes_eq j k then some a else merge rest old k

-- What recordInstall writes down, apart from the time.
pub record Install : Type 0 where
  pub url : Bytes
  pub version : ℕ
  pub variant : Bytes
  pub artifacts : List (Bytes × InstalledArtifact)

unfoldable pub updated : Bytes → Bytes → Install → InstalledManifest → InstalledManifest
updated platform now i cur = record {
  manifest_url = i.url;
  manifest_version = i.version;
  platform = platform;
  installed_at = now;
  model_variant = if is_empty i.variant then cur.model_variant else i.variant;
  artifacts = merge i.artifacts cur.artifacts;
}

module _ (json : Json) where
  unfoldable pub write_installed_manifest :
      AuditCalls → Bytes → InstalledManifest → Disk → Result AuditError (Unit {0}) × Disk
  unfolding write_marshalled
  write_installed_manifest calls home m d = write_marshalled calls home (json.marshal m) d

  unfoldable pub parse_installed : Option Bytes → Result AuditError InstalledManifest
  parse_installed none = err read_failed
  parse_installed (some content) = elim (json.unmarshal content) [
    | none ↦ err parse_failed
    | some m ↦ ok m
  ]

  unfoldable pub read_installed_manifest : Bool → Bytes → Disk → Result AuditError InstalledManifest
  unfolding parse_installed
  read_installed_manifest readable home d =
      if readable then parse_installed (d (installed_manifest_path home)) else err read_failed

  -- Whatever the error, the record starts afresh.
  unfoldable pub current : Result AuditError InstalledManifest → InstalledManifest
  current (ok m) = m
  current (err e) = fresh

  unfoldable pub record_install :
      AuditCalls → Bytes → Bytes → Bytes → Install → Disk → Result AuditError (Unit {0}) × Disk
  unfolding write_installed_manifest read_installed_manifest current updated
  record_install calls home platform now i d =
      write_installed_manifest calls home
        (updated platform now i (current (read_installed_manifest calls.read home d))) d
