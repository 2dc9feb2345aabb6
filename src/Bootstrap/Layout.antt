-- ===== src/Bootstrap/Layout.antt =====
-- internal/bootstrap/paths.go: Resolve, EnsureDirs and PlatformTuple. filepath.Abs and the system's
-- answers are parameters.
use runed.Prelude.{
  Bool, List, [], ◌∷◌, ◌++◌, Option, none, some, Bytes, text, is_empty, Result, ok, err,
  if◌then◌else◌,
}
use runed.Prelude.FilePath.{join}

pub record Paths : Type 0 where
  pub home : Bytes
  pub bin : Bytes
  pub llama_dir : Bytes
  pub models : Bytes
  pub config : Bytes
  pub install_lock : Bytes
  pub logs : Bytes
  pub cache : Bytes

pub data LayoutError : Type 0 where
  user_home abs_failed : LayoutError
  mkdir_failed : Bytes → LayoutError

abbrev pub layout : Bytes → Paths
layout abs =
    let bin = join (abs ∷ text "bin" ∷ []) in
    record {
      home = abs;
      bin = bin;
      llama_dir = join (bin ∷ text "llama-cpp" ∷ []);
      models = join (abs ∷ text "models" ∷ []);
      config = join (abs ∷ text "config.json" ∷ []);
      install_lock = join (abs ∷ text "install.lock" ∷ []);
      logs = join (abs ∷ text "logs" ∷ []);
      cache = join (abs ∷ text "cache" ∷ []);
    }

unfoldable pub resolve_abs : Option Bytes → Result LayoutError Paths
resolve_abs none = err abs_failed
resolve_abs (some abs) = ok (layout abs)

unfoldable pub resolve_user : (Bytes → Option Bytes) → Option Bytes → Result LayoutError Paths
unfolding resolve_abs
resolve_user abs none = err user_home
resolve_user abs (some u) = resolve_abs (abs (join (u ∷ text ".runed" ∷ [])))

-- RUNED_HOME, filepath.Abs and os.UserHomeDir.
unfoldable pub resolve : Bytes → (Bytes → Option Bytes) → Option Bytes → Result LayoutError Paths
unfolding resolve_user resolve_abs
resolve env abs user = if is_empty env then resolve_user abs user else resolve_abs (abs env)

unfoldable pub mkdirs : (Bytes → Bool) → List Bytes → Result LayoutError (Unit {0})
mkdirs mkdir_all [] = ok tt
mkdirs mkdir_all (p ∷ ps) =
    let rest = mkdirs mkdir_all ps in if mkdir_all p then rest else err (mkdir_failed p)

unfoldable pub ensure_dirs : (Bytes → Bool) → Paths → Result LayoutError (Unit {0})
unfolding mkdirs
ensure_dirs mkdir_all p = mkdirs mkdir_all (p.bin ∷ p.llama_dir ∷ p.models ∷ p.logs ∷ p.cache ∷ [])

abbrev pub platform_tuple : Bytes → Bytes → Bytes
platform_tuple goos goarch = goos ++ (text "-" ++ goarch)
