-- ===== src/Bootstrap/Ensure/Complete.antt =====
-- The model that EnsureAll returns.
use runed.Prelude.{
  ◌≡◌, ◌⊎◌, inl, inr, refl, sym, ◌∙◌, ap, subst, arith, false, some, Bytes, bytes_eq, Result, ok,
  err,
}
use runed.Prelude.Files.{Disk}
use runed.Bootstrap.Manifest.{
  ArtifactSpec, LlamaServerSpec, Manifest, model_spec, resolve_model_variant,
}
use runed.Bootstrap.Extract.{Archive, ExtractCalls}
use runed.Bootstrap.Layout.{Paths, LayoutError, ensure_dirs}
use runed.Bootstrap.Lock.{acquire_lock}
use runed.Bootstrap.Licenses.{install_licenses}
use runed.Bootstrap.Install.{ensure_llama_server}
use runed.Bootstrap.Model.{InstallError, ensure_model, model_path}
use runed.Bootstrap.Model.Installed.{Matches, Ensured, ensure_model-Ensured}
use runed.Bootstrap.Audit.{Json, installed_manifest_path, installed_temp_path}
use runed.Bootstrap.Audit.Kept.{record_install-elsewhere}
use runed.Bootstrap.Ensure.{
  EnsureError, dirs_failed, model_failed, server_failed, lock_failed, licenses_failed,
  install_lock_timeout, audit_all, World, then_with, audited, with_lock, all_model, all_installed,
  all_variant, ensure_all,
}

-- An error, or the model's path and variant, with content of the entry's hash at that path.
abbrev pub Complete :
    (Bytes → Bytes)
    → Bytes
    → Bytes
    → ArtifactSpec
    → Result EnsureError (Bytes × Bytes × Bytes) × Disk
    → Type 0
Complete sha256 target variant spec r =
    ((e : EnsureError) × (r.0 ≡ err e))
    ⊎ ((bin : Bytes) × (content : Bytes) × (r.0 ≡ ok (bin, target, variant))
        × (r.1 target ≡ some content)
        × Matches sha256 spec content)

module _ (sha256 : Bytes → Bytes) (target variant : Bytes) (spec : ArtifactSpec) where
  then_with-Complete :
      {A E : Type 0} (fail : E → EnsureError)
      (next : A → Disk → Result EnsureError (Bytes × Bytes × Bytes) × Disk) (r : Result E A × Disk)
      → ((a : A) (s : Disk) → Complete sha256 target variant spec (next a s))
      → Complete sha256 target variant spec (then_with fail next r)
  then_with-Complete fail next (err e, d) h = inl (fail e, refl)
  then_with-Complete fail next (ok a, d) h = h a d

module _ (sha256 : Bytes → Bytes) (untar : Bytes → ExtractCalls × Archive) (json : Json) (w : World)
    (p : Paths) (m : Manifest) (variant : Bytes) (spec : ArtifactSpec) where
  abbrev Goal : Result EnsureError (Bytes × Bytes × Bytes) × Disk → Type 0
  Goal r = Complete sha256 (model_path p.models variant) variant spec r

  abbrev Apart : Type 0
  Apart =
      (bytes_eq (installed_manifest_path p.home) (model_path p.models variant) ≡ false)
      × (bytes_eq (installed_temp_path p.home w.audit.suffix) (model_path p.models variant) ≡ false)

  -- Of ensureModel.
  abbrev ModelThere : Result InstallError (Bytes × ArtifactSpec) × Disk → Type 0
  ModelThere r =
      ((e : InstallError) × (r.0 ≡ err e))
      ⊎ ((content : Bytes) × (r.0 ≡ ok (model_path p.models variant, spec))
          × (r.1 (model_path p.models variant) ≡ some content)
          × Matches sha256 spec content)

  Ensured-ModelThere :
      (d : Disk) (r : Result InstallError (Bytes × ArtifactSpec) × Disk)
      → Ensured sha256 (model_path p.models variant) spec d r
      → ModelThere r
  Ensured-ModelThere d r (inl (e, c, here, h)) = inr (c, e, here, h)
  Ensured-ModelThere d r (inr (x, e, same)) = inl (x, e)

  ensure_model-ModelThere :
      (d : Disk)
      → model_spec m variant ≡ ok spec
      → ModelThere (ensure_model sha256 w.model w.model_net p.models m variant d)
  ensure_model-ModelThere d e =
      elim (ensure_model-Ensured sha256 w.model w.model_net p.models m variant d) [
        | inl (s, q, ens, cached) ↦
            (let same : s ≡ spec = ground (arith, sym q ∙ e) in
              Ensured-ModelThere d (ensure_model sha256 w.model w.model_net p.models m variant d) (
                subst
                  (λ x.
                    Ensured sha256 (model_path p.models variant) x d
                      (ensure_model sha256 w.model w.model_net p.models m variant d))
                  same ens))
        | inr (x, q) ↦ inl (x, ap (λ r. r.0) q)
      ]

  audit_all-Complete :
      (bin : Bytes × LlamaServerSpec) (r : Result InstallError (Bytes × ArtifactSpec) × Disk)
      → Apart
      → ModelThere r
      → Goal (then_with model_failed (audit_all sha256 untar json w p m variant bin) r)
  unfolding audit_all audited
  audit_all-Complete bin (err e, d) a h = inl (model_failed e, refl)
  audit_all-Complete (bin, server) (ok (path, s), d) (x, y) (inl (e, q)) = absurd (cc)
  audit_all-Complete (bin, server) (ok (path, s), d) (x, y) (inr (content, q, here, h)) = inr (
    bin,
    content,
    ground arith,
    record_install-elsewhere json w.audit p.home w.platform w.now _ d (model_path p.models variant)
          x y
        ∙ here,
    h,
  )

  all_installed-Complete :
      (d : Disk)
      → Apart
      → model_spec m variant ≡ ok spec
      → Goal (all_installed sha256 untar json w p m variant d)
  unfolding all_installed all_model
  all_installed-Complete d a e =
      then_with-Complete sha256 (model_path p.models variant) variant spec server_failed _
        (ensure_llama_server sha256 untar w.server w.server_net p m w.platform d)
        (λ bin s. audit_all-Complete bin _ a (ensure_model-ModelThere s e))

  with_lock-Complete :
      (body : Disk → Result EnsureError (Bytes × Bytes × Bytes) × Disk) (d : Disk)
      → ((s : Disk) → Goal (body s))
      → Goal (with_lock sha256 untar json w p m body d)
  unfolding with_lock
  with_lock-Complete body d h =
      then_with-Complete sha256 (model_path p.models variant) variant spec lock_failed _
        (acquire_lock p.install_lock w.start install_lock_timeout w.lock d)
        (λ _ s.
          then_with-Complete sha256 (model_path p.models variant) variant spec licenses_failed _
            (install_licenses p.home w.licenses s) (λ _ t. h t))

  -- EnsureAll, for the variant that the environment, config.json and the manifest give and the
  -- manifest's entry for it, returns an error; or it returns the path of the variant's model and the
  -- variant, and when it has returned, with the licences and the llama-server installed and the audit
  -- written or not, the file at this path has content of the hash in the manifest. The audit's files
  -- are not the model's.
  pub ensure_all-Complete :
      (d : Disk)
      → resolve_model_variant w.variant_env w.config m ≡ ok variant
      → model_spec m variant ≡ ok spec
      → bytes_eq (installed_manifest_path p.home) (model_path p.models variant) ≡ false
      → bytes_eq (installed_temp_path p.home w.audit.suffix) (model_path p.models variant) ≡ false
      → Complete sha256
          (model_path p.models variant)
          variant
          spec
          (ensure_all sha256 untar json w p m d)
  unfolding ensure_all all_variant
  ensure_all-Complete d v e x y = go (ensure_dirs w.mkdir_all p)
    where
      go :
          (q : Result LayoutError (Unit {0}))
          → Goal (elim q [
            | err z ↦ (err (dirs_failed z), d)
            | ok _ ↦
                all_variant sha256 untar json w p m
                  (resolve_model_variant w.variant_env w.config m)
                  d
          ])
      go (err z) = inl (dirs_failed z, refl)
      go (ok _) = rw v (with_lock-Complete _ d (λ s. all_installed-Complete s (x, y) e))
