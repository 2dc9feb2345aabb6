-- ===== src/Bootstrap/Install/Verified.antt =====
-- What is installed when ensureLlamaServer returns no error.
use runed.Prelude.{
  ◌≡◌, ◌≢◌, ◌⊎◌, inl, inr, refl, ap, ◌∙◌, arith, true, [], ◌∷◌, some, Option-cases, Bytes, text,
  is_empty, bytes_eq, bytes_eq_iff, Result, ok, err, Bool-cases,
}
use runed.Prelude.Files.{Disk}
use runed.Bootstrap.Download.{DownloadError, Network}
use runed.Bootstrap.Download.Verified.{Delivered}
use runed.Bootstrap.Download.Retry.{outcome-Delivered}
use runed.Bootstrap.Manifest.{LlamaServerSpec, Manifest, llama_server_for_platform}
use runed.Bootstrap.Extract.{Archive, ExtractCalls}
use runed.Bootstrap.Layout.{Paths}
use runed.Bootstrap.Install.{
  ServerError, mkdir_failed, unsupported_extract, ServerCalls, llama_server_target, marker_path,
  tar_path, cache_hit, complete_install, install_raw, install_tar, install_server,
  ensure_server_spec, ensure_llama_server,
}
use runed.Bootstrap.Install.Steps.{
  Present, Downloaded, Extracted, install_tar_ok, install_raw-Downloaded,
}

abbrev pub Failed : Result ServerError (Bytes × LlamaServerSpec) × Disk → Type 0
Failed r = (e : ServerError) × (r.0 ≡ err e)

-- The executable's path and the entry for the platform.
abbrev pub Returned :
    Paths → LlamaServerSpec → Result ServerError (Bytes × LlamaServerSpec) × Disk → Type 0
Returned p spec r = r.0 ≡ ok (llama_server_target p.llama_dir spec, spec)

module _ (sha256 : Bytes → Bytes) (untar : Bytes → ExtractCalls × Archive) where
  empty_text : (s : Bytes) → is_empty s ≡ true → s ≡ []
  empty_text [] h = refl
  empty_text (c ∷ s) h = absurd (cc)

  Result-cases :
      {A : Type 0} (r : Result ServerError A)
      → ((e : ServerError) × (r ≡ err e)) ⊎ ((a : A) × (r ≡ ok a))
  Result-cases (err e) = inl (e, refl)
  Result-cases (ok a) = inr (a, refl)

  -- The two kinds of artifact.
  abbrev pub Installed : ServerCalls → Paths → LlamaServerSpec → Disk → Type 0
  Installed calls p spec d =
      ((spec.extract ≡ [])
        × (content : Bytes) × Downloaded sha256 untar spec (llama_server_target p.llama_dir spec) d
            content)
      ⊎ ((spec.extract ≡ text "tar.gz") × Extracted sha256 untar calls p spec d)

  abbrev pub InstalledOrFailed :
      ServerCalls
      → Paths
      → LlamaServerSpec
      → Result ServerError (Bytes × LlamaServerSpec) × Disk
      → Type 0
  InstalledOrFailed calls p spec r = Failed r ⊎ (Returned p spec r × Installed calls p spec r.1)

  module _ (calls : ServerCalls) (net : Network) (p : Paths) (spec : LlamaServerSpec)
      (d : Disk) where
    from_raw :
        (r : Result DownloadError (Unit {0}) × Disk)
        → spec.extract ≡ []
        → marker_path p.llama_dir ≢ llama_server_target p.llama_dir spec
        → Delivered sha256 spec.sha256 spec.size (llama_server_target p.llama_dir spec) d r
        → InstalledOrFailed calls p spec (
            complete_install calls
              (marker_path p.llama_dir)
              (llama_server_target p.llama_dir spec)
              spec
              (install_raw calls r))
    from_raw r e apart del =
        elim (Result-cases
          (complete_install calls (marker_path p.llama_dir) (llama_server_target p.llama_dir spec)
            spec (install_raw calls r)).0) [
              | inl f ↦ inl f
              | inr (out, h) ↦
                  (let (named, content, got) =
                      install_raw-Downloaded sha256 untar calls net p spec d r out apart del h in
                    inr (h ∙ ap ok named, inl (e, content, got)))
            ]

    from_tar :
        (r : Result DownloadError (Unit {0}) × Disk)
        → spec.extract ≡ text "tar.gz"
        → Delivered sha256 spec.sha256 spec.size (tar_path p.cache) d r
        → InstalledOrFailed calls p spec (
            install_tar sha256 untar calls
              (marker_path p.llama_dir)
              (llama_server_target p.llama_dir spec)
              (tar_path p.cache)
              spec
              r)
    from_tar r e del =
        elim (Result-cases
          (install_tar sha256 untar calls (marker_path p.llama_dir)
            (llama_server_target p.llama_dir spec) (tar_path p.cache) spec r).0) [
              | inl f ↦ inl f
              | inr (out, h) ↦
                  (let (named, got) = install_tar_ok sha256 untar calls net p spec d r out del h in
                    inr (h ∙ ap ok named, inr (e, got)))
            ]

    install_server_lem :
        marker_path p.llama_dir ≢ llama_server_target p.llama_dir spec
        → InstalledOrFailed calls p spec (install_server sha256 untar calls net p spec d)
    unfolding install_server
    install_server_lem apart =
        let delivered =
          λ (path : Bytes). outcome-Delivered sha256 spec.url spec.sha256 spec.size path net d in
        elim (Bool-cases (is_empty spec.extract)) [
          | inl e ↦ elim (Bool-cases calls.mkdir_all) [
            | inl f ↦
                rw (e, f)
                  (from_raw _ (empty_text spec.extract e) apart
                    (delivered (llama_server_target p.llama_dir spec)))
            | inr f ↦ rw (e, f) (inl (mkdir_failed, refl))
          ]
          | inr e ↦ elim (Bool-cases (bytes_eq spec.extract (text "tar.gz"))) [
            | inl f ↦
                rw (e, f)
                  (from_tar _ ((bytes_eq_iff spec.extract (text "tar.gz")).0 f)
                    (delivered (tar_path p.cache)))
            | inr f ↦ rw (e, f) (inl (unsupported_extract spec.extract, refl))
          ]
        ]

    cache_hit-Present :
        cache_hit calls (marker_path p.llama_dir) (llama_server_target p.llama_dir spec) spec d
          ≡ true
        → (d (marker_path p.llama_dir) ≡ some spec.sha256)
          × Present calls d (llama_server_target p.llama_dir spec)
    unfolding cache_hit
    cache_hit-Present h = elim (Option-cases (d (marker_path p.llama_dir))) [
      | inl e ↦ absurd (ground arith)
      | inr (x, e) ↦ ground (arith, bytes_eq_iff x spec.sha256)
    ]

    -- If the manifest has an entry for the platform, and the executable's path is not the marker's,
    -- then ensureLlamaServer returns an error, or it returns the executable's path and the entry, and
    -- either the marker named the entry's hash, something was at the path and the disk is as before;
    -- or the artifact is raw and the executable has content that passed the checks of the entry's
    -- hash and size; or it is a tar.gz and an archive that passed them was extracted without an
    -- error, after which something was at the path and only the marker and the archive's file changed.
    pub ensure_llama_server-verified :
        (m : Manifest) (tuple : Bytes)
        → llama_server_for_platform m tuple ≡ ok spec
        → marker_path p.llama_dir ≢ llama_server_target p.llama_dir spec
        → let r = ensure_llama_server sha256 untar calls net p m tuple d in
          Failed r
          ⊎ (Returned p spec r
              × (((d (marker_path p.llama_dir) ≡ some spec.sha256)
                    × Present calls d (llama_server_target p.llama_dir spec)
                    × (r.1 ≡ d))
                  ⊎ Installed calls p spec r.1))
    unfolding ensure_llama_server ensure_server_spec
    ensure_llama_server-verified m tuple e apart =
        elim (Bool-cases (
          cache_hit calls (marker_path p.llama_dir) (llama_server_target p.llama_dir spec) spec
            d)) [
              | inl q ↦
                  let (named, there) = cache_hit-Present q in
                  rw (e, q) (inr (refl, inl (named, there, refl)))
              | inr q ↦ elim (install_server_lem apart) [
                | inl f ↦ rw (e, q) (inl f)
                | inr (f, g) ↦ rw (e, q) (inr (f, inr g))
              ]
            ]
