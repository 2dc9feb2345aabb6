-- ===== src/Bootstrap/Manifest.antt =====
-- internal/bootstrap/manifest.go, LoadConfig of config.go and ResolveModelVariant of install.go. The
-- JSON decoder and the network are parameters; the maps of a manifest are functions.
pub mod Laws
use runed.Prelude.{
  ℕ, zero, suc, ◌+◌, ◌*◌, ◌^◌, Bool, true, false, not, ◌&&◌, ◌||◌, Option, none, some, [], Bytes,
  is_empty, length, Result, ok, err, if◌then◌else◌, ltb, ◌==◌, take,
}
use runed.Bootstrap.Download.{
  max_download_attempts, download_retry_backoff, retry_backoff_multiplier,
}

pub record LlamaServerSpec : Type 0 where
  pub url : Bytes
  pub sha256 : Bytes
  pub size : ℕ
  pub extract : Bytes
  pub exec : Bytes

pub record ArtifactSpec : Type 0 where
  pub url : Bytes
  pub sha256 : Bytes
  pub size : ℕ

-- A platform that has no entry, or one without a llama-server, is `none`, apart.
pub record Manifest : Type 0 where
  pub version : ℕ
  pub platforms : Bytes → Option (Option LlamaServerSpec)
  pub models : Bytes → Option ArtifactSpec
  pub default_model : Bytes

pub data ManifestError : Type 0 where
  url_missing parse_failed get_failed read_failed body_exceeds retry_aborted : ManifestError
  http_status : ℕ → ManifestError
  unsupported_version : ℕ → ManifestError
  attempts_failed : ManifestError → ManifestError
  no_artifact_for_platform platform_incomplete exec_required : ManifestError
  variant_empty variant_unknown model_incomplete : ManifestError
  config_read config_parse no_variant : ManifestError
  config_version : ℕ → ManifestError

abbrev pub manifest_version : ℕ
manifest_version = 1

abbrev pub manifest_max_bytes : ℕ
manifest_max_bytes = 2 ^ 20

abbrev pub resolve_manifest_url : Bytes → Bytes → Bytes
resolve_manifest_url env default_url = if is_empty env then default_url else env

-- The body is read up to one byte more than it may have.
unfoldable pub check_body : ℕ → Bytes → Result ManifestError Bytes
check_body status body =
    if not (status == 200)
    then err (http_status status)
    else if ltb manifest_max_bytes (length body)
    then err body_exceeds
    else ok body

-- One GET: the response's status and its body, or the error of the read.
unfoldable pub fetch_manifest_body : Option (ℕ × Option Bytes) → Result ManifestError Bytes
fetch_manifest_body none = err get_failed
fetch_manifest_body (some (status, none)) =
    if status == 200 then err read_failed else err (http_status status)
fetch_manifest_body (some (status, some content)) =
    check_body status (take (manifest_max_bytes + 1) content)

-- `unmarshal` is json.Unmarshal.
unfoldable pub check_version : Option Manifest → Result ManifestError Manifest
check_version none = err parse_failed
check_version (some m) =
    if m.version == manifest_version then ok m else err (unsupported_version m.version)

unfoldable pub parse_manifest : (Bytes → Option Manifest) → Bytes → Result ManifestError Manifest
unfolding check_version
parse_manifest unmarshal body = check_version (unmarshal body)

-- The requests by number, whether the backoff before one passes, and whether the context is
-- cancelled after one.
pub record Requests : Type 0 where
  pub get : ℕ → Option (ℕ × Option Bytes)
  pub wait : ℕ → ℕ → Bool
  pub cancelled : ℕ → Bool

module _ (unmarshal : Bytes → Option Manifest) (net : Requests) where
  -- A result, with the number of requests that were made for it.
  abbrev pub Counted : Type 0
  Counted = Result ManifestError Manifest × ℕ

  -- After a request.
  unfoldable pub after_fetch :
      Bool → (ManifestError → Counted) → Result ManifestError Bytes → Counted
  unfolding parse_manifest
  after_fetch cancelled again (ok body) = (parse_manifest unmarshal body, 1)
  after_fetch cancelled again (err e) =
      let rest = again e in if cancelled then (err e, 1) else (rest.0, rest.1 + 1)

  unfoldable pub fetch_from : ℕ → ℕ → ℕ → ManifestError → Counted
  unfolding after_fetch
  fetch_from zero n backoff last = (err (attempts_failed last), 0)
  fetch_from (suc left) n backoff last =
      if net.wait n backoff
      then after_fetch (net.cancelled n)
          (fetch_from left (n + 1) (backoff * retry_backoff_multiplier))
          (fetch_manifest_body (net.get n))
      else (err retry_aborted, 0)

  unfoldable pub fetch_manifest : Bytes → Counted
  unfolding fetch_from after_fetch
  fetch_manifest url =
      if is_empty url
      then (err url_missing, 0)
      else after_fetch (net.cancelled 1) (fetch_from 2 2 download_retry_backoff)
          (fetch_manifest_body (net.get 1))

unfoldable pub check_llama_server :
    Option (Option LlamaServerSpec) → Result ManifestError LlamaServerSpec
check_llama_server none = err no_artifact_for_platform
check_llama_server (some none) = err no_artifact_for_platform
check_llama_server (some (some s)) =
    if is_empty s.url || is_empty s.sha256
    then err platform_incomplete
    else if is_empty s.exec && not (is_empty s.extract)
    then err exec_required
    else ok s

unfoldable pub llama_server_for_platform : Manifest → Bytes → Result ManifestError LlamaServerSpec
unfolding check_llama_server
llama_server_for_platform m tuple = check_llama_server (m.platforms tuple)

unfoldable pub check_model : Option ArtifactSpec → Result ManifestError ArtifactSpec
check_model none = err variant_unknown
check_model (some s) = if is_empty s.url || is_empty s.sha256 then err model_incomplete else ok s

unfoldable pub model_spec : Manifest → Bytes → Result ManifestError ArtifactSpec
unfolding check_model
model_spec m variant =
    if is_empty variant then err variant_empty else check_model (m.models variant)

pub record Config : Type 0 where
  pub version : ℕ
  pub model_variant : Bytes

-- The configuration file: absent, unreadable, or with what decodes of it.
pub data ConfigFile : Type 0 where
  absent unreadable : ConfigFile
  decodes : Option Config → ConfigFile

unfoldable pub load_config : ConfigFile → Result ManifestError Config
load_config absent = ok (record { version = 1; model_variant = [] })
load_config unreadable = err config_read
load_config (decodes none) = err config_parse
load_config (decodes (some c)) = if c.version == 1 then ok c else err (config_version c.version)

unfoldable pub variant_of : Manifest → Result ManifestError Config → Result ManifestError Bytes
variant_of m (err e) = err e
variant_of m (ok c) =
    if not (is_empty c.model_variant)
    then ok c.model_variant
    else if not (is_empty m.default_model)
    then ok m.default_model
    else err no_variant

unfoldable pub resolve_model_variant : Bytes → ConfigFile → Manifest → Result ManifestError Bytes
unfolding variant_of load_config
resolve_model_variant env file m = if is_empty env then variant_of m (load_config file) else ok env
