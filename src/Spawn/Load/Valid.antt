-- ===== src/Spawn/Load/Valid.antt =====
-- What a loaded configuration names.
use runed.Prelude.{
  ◌≡◌, ◌⊎◌, inl, inr, refl, arith, true, false, [], Option, none, some, Option-cases, Bytes, text,
  is_empty, bytes_eq_iff, take, Result, ok, err, Bool-cases,
}
use runed.Spawn.{Config, SpawnError}
use runed.Spawn.Load.{
  ConfigError, Stat, missing, directory, regular, Files, executable, gguf, check_config, absolute,
  optional, with_binary, with_model, with_llama, with_resolved, with_config, from_path, load_config,
  resolve_config_path,
}

-- The path made absolute of an executable file.
abbrev pub IsExecutable : Files → Bytes → Type 0
IsExecutable S p = (q : Bytes) × (S.stat q ≡ regular true) × (S.abs q ≡ some p)

-- The path made absolute of a file that starts with the magic of GGUF.
abbrev pub IsGguf : Files → Bytes → Type 0
IsGguf S p =
    (q : Bytes) × (content : Bytes) × (S.content q ≡ some content)
    × (take 4 content ≡ text "GGUF")
    × (S.abs q ≡ some p)

abbrev pub IsValid : Files → Config → Type 0
IsValid S cfg =
    IsExecutable S cfg.runed_binary
    × ((cfg.llama_server ≡ []) ⊎ IsExecutable S cfg.llama_server)
    × ((cfg.model ≡ []) ⊎ IsGguf S cfg.model)

-- An error, or a valid configuration.
abbrev pub ValidOrFailed : Files → Result ConfigError Config → Type 0
ValidOrFailed S r =
    ((e : ConfigError) × (r ≡ err e)) ⊎ ((cfg : Config) × (r ≡ ok cfg) × IsValid S cfg)

executable_regular : (path : Bytes) (s : Stat) → executable path s ≡ ok tt → s ≡ regular true
unfolding executable
executable_regular path missing h = absurd (cc)
executable_regular path directory h = absurd (cc)
executable_regular path (regular true) h = refl
executable_regular path (regular false) h = absurd (cc)

gguf_magic :
    (path : Bytes) (c : Option Bytes)
    → gguf path c ≡ ok tt
    → (content : Bytes) × (c ≡ some content) × (take 4 content ≡ text "GGUF")
unfolding gguf
gguf_magic path none h = absurd (cc)
gguf_magic path (some content) h =
    (content, refl, ground (arith, bytes_eq_iff (take 4 content) (text "GGUF")))

absolute_ok :
    (abs : Bytes → Option Bytes) (path p : Bytes) (r : Result ConfigError (Unit {0}))
    → absolute abs path r ≡ ok p
    → (r ≡ ok tt) × (abs path ≡ some p)
unfolding absolute
absolute_ok abs path p (err e) h = absurd (cc)
absolute_ok abs path p (ok u) h = elim (Option-cases (abs path)) [
  | inl e ↦ absurd (ground arith)
  | inr (a, e) ↦ (refl, ground arith)
]

module _ (S : Files) where
  optional_ok :
      (path p : Bytes) (r : Result ConfigError (Unit {0}))
      → optional S path r ≡ ok p
      → (p ≡ []) ⊎ ((r ≡ ok tt) × (S.abs path ≡ some p))
  unfolding optional
  optional_ok path p r h = elim (Bool-cases (is_empty path)) [
    | inl e ↦ inl (ground arith)
    | inr e ↦ inr (absolute_ok S.abs path p r (ground arith))
  ]

  binary_ok :
      (path p : Bytes)
      → absolute S.abs path (executable path (S.stat path)) ≡ ok p
      → IsExecutable S p
  binary_ok path p h =
      let (e, a) = absolute_ok S.abs path p (executable path (S.stat path)) h in
      (path, executable_regular path (S.stat path) e, a)

  with_binary-Valid :
      (cfg : Config) (llama model : Bytes) (r : Result ConfigError Bytes)
      → ((p : Bytes) → r ≡ ok p → IsExecutable S p)
      → (llama ≡ []) ⊎ IsExecutable S llama
      → (model ≡ []) ⊎ IsGguf S model
      → ValidOrFailed S (with_binary S cfg llama model r)
  unfolding with_binary
  with_binary-Valid cfg llama model (err e) b l m = inl (e, refl)
  with_binary-Valid cfg llama model (ok p) b l m = inr (_, refl, (b p refl, l, m))

  with_model-Valid :
      (cfg : Config) (bin llama : Bytes) (r : Result ConfigError Bytes)
      → (llama ≡ []) ⊎ IsExecutable S llama
      → ((p : Bytes) → r ≡ ok p → (p ≡ []) ⊎ IsGguf S p)
      → ValidOrFailed S (with_model S cfg bin llama r)
  unfolding with_model
  with_model-Valid cfg bin llama (err e) l m = inl (e, refl)
  with_model-Valid cfg bin llama (ok p) l m =
      with_binary-Valid cfg llama p (absolute S.abs bin (executable bin (S.stat bin)))
        (λ q h. binary_ok bin q h) l (m p refl)

  with_llama-Valid :
      (cfg : Config) (bin : Bytes) (r : Result ConfigError Bytes)
      → ((p : Bytes) → r ≡ ok p → (p ≡ []) ⊎ IsExecutable S p)
      → ValidOrFailed S (with_llama S cfg bin r)
  unfolding with_llama
  with_llama-Valid cfg bin (err e) l = inl (e, refl)
  with_llama-Valid cfg bin (ok llama) l =
      with_model-Valid cfg bin llama (optional S cfg.model (gguf cfg.model (S.content cfg.model)))
        (l llama refl)
        (λ p h. elim (optional_ok cfg.model p (gguf cfg.model (S.content cfg.model)) h) [
          | inl e ↦ inl e
          | inr (g, a) ↦
              (let (c, here, magic) = gguf_magic cfg.model (S.content cfg.model) g in
                inr (cfg.model, c, here, magic, a))
        ])

  with_resolved-Valid :
      (cfg : Config) (r : Result SpawnError Bytes) → ValidOrFailed S (with_resolved S cfg r)
  unfolding with_resolved
  with_resolved-Valid cfg (err e) = inl (_, refl)
  with_resolved-Valid cfg (ok bin) =
      let checked = executable cfg.llama_server (S.stat cfg.llama_server) in
      with_llama-Valid cfg bin (optional S cfg.llama_server checked) (λ p h.
        elim (optional_ok cfg.llama_server p checked h) [
          | inl e ↦ inl e
          | inr (g, a) ↦
              inr (
                cfg.llama_server,
                executable_regular cfg.llama_server (S.stat cfg.llama_server) g,
                a,
              )
        ])

  with_config-Valid : (r : Result ConfigError Config) → ValidOrFailed S (with_config S r)
  unfolding with_config
  with_config-Valid (err e) = inl (e, refl)
  with_config-Valid (ok cfg) = with_resolved-Valid cfg _

  from_path-Valid : (r : Result ConfigError Bytes) → ValidOrFailed S (from_path S r)
  unfolding from_path
  from_path-Valid (err e) = inl (e, refl)
  from_path-Valid (ok path) = with_config-Valid (check_config (S.config path))

  -- LoadConfig, whatever config.json holds, returns an error or a configuration in which the daemon's
  -- binary, and the llama-server if one is set, are absolute paths of executable files, and the model,
  -- if one is set, is the absolute path of a file that starts with "GGUF".
  pub load_config-Valid :
      (config home : Bytes) (user : Option Bytes) → ValidOrFailed S (load_config S config home user)
  unfolding load_config
  load_config-Valid config home user = from_path-Valid (resolve_config_path config home user)
