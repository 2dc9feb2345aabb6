-- ===== src/Spawn/Load.antt =====
-- LoadConfig of internal/spawn/config.go, with resolveConfigPath, validateExecutable and validateGGUF. The
-- file system, filepath.Abs and the JSON decoder are parameters.
pub mod Valid
use runed.Prelude.{
  ℕ, Bool, true, false, not, ◌&&◌, List, [], ◌∷◌, ◌++◌, Option, none, some, Bytes, text, is_empty,
  bytes_eq, take, length, ltb, Result, ok, err, if◌then◌else◌, ◌==◌,
}
use runed.Prelude.FilePath.{join}
use runed.Spawn.{Config, SpawnError, resolve_runed_binary}

pub data ConfigError : Type 0 where
  user_home read_failed parse_failed : ConfigError
  unsupported_version : ℕ → ConfigError
  unresolved : SpawnError → ConfigError
  stat_failed is_directory not_executable open_failed magic_failed not_gguf abs_failed :
      Bytes → ConfigError

-- What Stat says of a path.
pub data Stat : Type 0 where
  missing directory : Stat
  regular : Bool → Stat

-- What is read of config.json: the decoded fields over the defaults, apart from the version.
pub data ConfigFile : Type 0 where
  absent unreadable malformed : ConfigFile
  decoded : ℕ → Config → ConfigFile

-- The system, with LookPath, DefaultRunedBinary and os.Executable for the daemon's binary.
pub record Files : Type 0 where
  pub config : Bytes → ConfigFile
  pub stat : Bytes → Stat
  pub content : Bytes → Option Bytes
  pub abs : Bytes → Option Bytes
  pub look_path : Option Bytes
  pub default_binary : Bytes
  pub self : Option (Bytes × Bytes)

abbrev pub config_version : ℕ
config_version = 1

-- RUNED_CONFIG, RUNED_HOME and os.UserHomeDir.
unfoldable pub resolve_config_path : Bytes → Bytes → Option Bytes → Result ConfigError Bytes
resolve_config_path config home user =
    if not (is_empty config)
    then ok config
    else if not (is_empty home)
    then ok (join (home ∷ text "config.json" ∷ []))
    else elim user [
      | none ↦ err user_home
      | some u ↦ ok (join (u ∷ text ".runed" ∷ text "config.json" ∷ []))
    ]

unfoldable pub executable : Bytes → Stat → Result ConfigError (Unit {0})
executable path missing = err (stat_failed path)
executable path directory = err (is_directory path)
executable path (regular x) = if x then ok tt else err (not_executable path)

unfoldable pub gguf : Bytes → Option Bytes → Result ConfigError (Unit {0})
gguf path none = err (open_failed path)
gguf path (some content) =
    if ltb (length content) 4
    then err (magic_failed path)
    else if bytes_eq (take 4 content) (text "GGUF")
    then ok tt
    else err (not_gguf path)

abbrev pub defaults : Config
defaults = record { llama_server = []; model = []; runed_binary = []; idle_timeout = [] }

unfoldable pub check_config : ConfigFile → Result ConfigError Config
check_config absent = ok defaults
check_config unreadable = err read_failed
check_config malformed = err parse_failed
check_config (decoded version cfg) =
    if version == config_version then ok cfg else err (unsupported_version version)

-- The path made absolute, once it has been validated.
unfoldable pub absolute :
    (Bytes → Option Bytes) → Bytes → Result ConfigError (Unit {0}) → Result ConfigError Bytes
absolute abs path (err e) = err e
absolute abs path (ok _) = elim (abs path) [ none ↦ err (abs_failed path) | some a ↦ ok a ]

module _ (S : Files) where
  -- An empty path is left to the daemon.
  unfoldable pub optional : Bytes → Result ConfigError (Unit {0}) → Result ConfigError Bytes
  unfolding absolute
  optional path checked = if is_empty path then ok [] else absolute S.abs path checked

  unfoldable pub with_binary :
      Config → Bytes → Bytes → Result ConfigError Bytes → Result ConfigError Config
  with_binary cfg llama model (err e) = err e
  with_binary cfg llama model (ok bin) =
      ok (record cfg { llama_server = llama; model = model; runed_binary = bin })

  unfoldable pub with_model :
      Config → Bytes → Bytes → Result ConfigError Bytes → Result ConfigError Config
  unfolding with_binary
  with_model cfg bin llama (err e) = err e
  with_model cfg bin llama (ok model) =
      with_binary cfg llama model (absolute S.abs bin (executable bin (S.stat bin)))

  unfoldable pub with_llama : Config → Bytes → Result ConfigError Bytes → Result ConfigError Config
  unfolding with_model
  with_llama cfg bin (err e) = err e
  with_llama cfg bin (ok llama) =
      with_model cfg bin llama (optional cfg.model (gguf cfg.model (S.content cfg.model)))

  unfoldable pub with_resolved : Config → Result SpawnError Bytes → Result ConfigError Config
  unfolding with_llama
  with_resolved cfg (err e) = err (unresolved e)
  with_resolved cfg (ok bin) =
      with_llama cfg bin
        (optional cfg.llama_server (executable cfg.llama_server (S.stat cfg.llama_server)))

  unfoldable pub with_config : Result ConfigError Config → Result ConfigError Config
  unfolding with_resolved
  with_config (err e) = err e
  with_config (ok cfg) =
      with_resolved cfg (resolve_runed_binary S.look_path S.default_binary S.self cfg.runed_binary)

  unfoldable pub from_path : Result ConfigError Bytes → Result ConfigError Config
  unfolding with_config
  from_path (err e) = err e
  from_path (ok path) = with_config (check_config (S.config path))

  unfoldable pub load_config : Bytes → Bytes → Option Bytes → Result ConfigError Config
  unfolding from_path
  load_config config home user = from_path (resolve_config_path config home user)
