-- ===== src/Bootstrap/Audit/Kept.antt =====
-- What a record of an installation keeps of the record before.
use runed.Prelude.{
  ◌≡◌, ◌≢◌, ◌⊎◌, inl, inr, refl, arith, true, false, List, [], ◌∷◌, Option, none, some, Bytes,
  is_empty, bytes_eq, bytes_eq_iff, Result, ok, Bool-cases, Option-cases, if◌then◌else◌,
}
use runed.Prelude.Files.{Disk}
use runed.Bootstrap.Audit.{
  InstalledArtifact, InstalledManifest, Json, AuditCalls, AuditError, Install,
  installed_manifest_path, installed_temp_path, write_temp, write_marshalled, merge, updated,
  write_installed_manifest, parse_installed, read_installed_manifest, current, record_install,
}

-- The target has the content, or there was an error and it is as before. Other files are as before,
-- except the temporary one.
abbrev pub WrittenOrKept :
    Bytes → Bytes → Option Bytes → Disk → Result AuditError (Unit {0}) × Disk → Type 0
WrittenOrKept target tmp content d r =
    (((r.0 ≡ ok tt) × (r.1 target ≡ content)) ⊎ ((r.0 ≢ ok tt) × (r.1 target ≡ d target)))
    × ((q : Bytes) → (target ≡ q) ⊎ ((tmp ≡ q) ⊎ (r.1 q ≡ d q)))

write_temp-elsewhere :
    (calls : AuditCalls) (target tmp content : Bytes) (d : Disk) (q : Bytes)
    → bytes_eq target q ≡ false
    → bytes_eq tmp q ≡ false
    → (write_temp calls target tmp content d).1 q ≡ d q
unfolding write_temp
write_temp-elsewhere calls target tmp content d q h k = ground arith

write_marshalled-elsewhere :
    (calls : AuditCalls) (home : Bytes) (content : Option Bytes) (d : Disk) (q : Bytes)
    → bytes_eq (installed_manifest_path home) q ≡ false
    → bytes_eq (installed_temp_path home calls.suffix) q ≡ false
    → (write_marshalled calls home content d).1 q ≡ d q
unfolding write_marshalled
write_marshalled-elsewhere calls home none d q h k = refl
write_marshalled-elsewhere calls home (some content) d q h k =
    let e =
      write_temp-elsewhere calls (installed_manifest_path home)
        (installed_temp_path home calls.suffix) content d q h k in
    ground (arith, e)

-- recordInstall changes no other file.
pub record_install-elsewhere :
    (json : Json) (calls : AuditCalls) (home platform now : Bytes) (i : Install) (d : Disk)
    (q : Bytes)
    → bytes_eq (installed_manifest_path home) q ≡ false
    → bytes_eq (installed_temp_path home calls.suffix) q ≡ false
    → (record_install json calls home platform now i d).1 q ≡ d q
unfolding record_install write_installed_manifest
record_install-elsewhere json calls home platform now i d q h k =
    write_marshalled-elsewhere calls home _ d q h k

write_temp-WrittenOrKept :
    (calls : AuditCalls) (target tmp content : Bytes) (d : Disk)
    → bytes_eq tmp target ≡ false
    → WrittenOrKept target tmp (some content) d (write_temp calls target tmp content d)
unfolding write_temp
write_temp-WrittenOrKept calls target tmp content d h = (
  ground (arith, bytes_eq_iff target target),
  λ q. ground (arith, bytes_eq_iff target q, bytes_eq_iff tmp q),
)

write_marshalled-WrittenOrKept :
    (calls : AuditCalls) (home : Bytes) (content : Option Bytes) (d : Disk)
    → bytes_eq (installed_temp_path home calls.suffix) (installed_manifest_path home) ≡ false
    → WrittenOrKept
        (installed_manifest_path home)
        (installed_temp_path home calls.suffix)
        content
        d
        (write_marshalled calls home content d)
unfolding write_marshalled
write_marshalled-WrittenOrKept calls home none d h = (inr (λ e. cc, refl), λ q. inr (inr refl))
write_marshalled-WrittenOrKept calls home (some content) d h =
    let w =
      write_temp-WrittenOrKept calls (installed_manifest_path home)
        (installed_temp_path home calls.suffix) content d h in
    elim (Bool-cases calls.mkdir_all) [
      | inl e ↦ elim (Bool-cases calls.create_temp) [
        | inl f ↦ rw (e, f) w
        | inr f ↦ rw (e, f) (inr (λ x. cc, refl), λ q. inr (inr refl))
      ]
      | inr e ↦ rw e (inr (λ x. cc, refl), λ q. inr (inr refl))
    ]

abbrev pub lookup : List (Bytes × InstalledArtifact) → Bytes → Option InstalledArtifact
lookup [] k = none
lookup ((j, a) ∷ rest) k = if bytes_eq j k then some a else lookup rest k

-- An artifact of this installation, or of the record before.
abbrev pub MergedFrom :
    List (Bytes × InstalledArtifact) → InstalledManifest → InstalledManifest → Bytes → Type 0
MergedFrom new old m k =
    ((a : InstalledArtifact) × (lookup new k ≡ some a) × (m.artifacts k ≡ some a))
    ⊎ ((lookup new k ≡ none) × (m.artifacts k ≡ old.artifacts k))

merge-cases :
    (new : List (Bytes × InstalledArtifact)) (old : Bytes → Option InstalledArtifact) (k : Bytes)
    → ((a : InstalledArtifact) × (lookup new k ≡ some a) × (merge new old k ≡ some a))
      ⊎ ((lookup new k ≡ none) × (merge new old k ≡ old k))
merge-cases [] old k = inr (refl, refl)
merge-cases ((j, a) ∷ rest) old k = elim (Bool-cases (bytes_eq j k)) [
  | inl e ↦ inl (a, rw e refl, rw e refl)
  | inr e ↦ rw e (merge-cases rest old k)
]

updated-MergedFrom :
    (platform now : Bytes) (i : Install) (old : InstalledManifest) (k : Bytes)
    → MergedFrom i.artifacts old (updated platform now i old) k
unfolding updated
updated-MergedFrom platform now i old k = merge-cases i.artifacts old.artifacts k

module _ (json : Json) where
  parsed :
      (content : Bytes) (m : InstalledManifest)
      → json.unmarshal content ≡ some m
      → parse_installed json (some content) ≡ ok m
  unfolding parse_installed
  parsed content m e = ground arith

  marshalled :
      (calls : AuditCalls) (home : Bytes) (m : InstalledManifest) (d : Disk)
      → ((content : Bytes) → json.marshal m ≡ some content → json.unmarshal content ≡ some m)
      → bytes_eq (installed_temp_path home calls.suffix) (installed_manifest_path home) ≡ false
      → let r = write_installed_manifest json calls home m d in
        ((r.0 ≡ ok tt) × (read_installed_manifest json true home r.1 ≡ ok m))
        ⊎ ((r.0 ≢ ok tt) × (r.1 (installed_manifest_path home) ≡ d (installed_manifest_path home)))
  unfolding write_installed_manifest read_installed_manifest
  marshalled calls home m d back h = elim (Option-cases (json.marshal m)) [
    | inl e ↦ inr (rw e (λ q. cc), rw e refl)
    | inr (content, e) ↦ elim (write_marshalled-WrittenOrKept calls home (some content) d h).0 [
      | inl (f, g) ↦ rw e (inl (f, rw g (parsed content m (back content e))))
      | inr w ↦ rw e (inr w)
    ]
  ]

  -- If installed.json could be read, and the record that is encoded next is decoded to itself: recordInstall either returns an
  -- error, and installed.json is as before; or it returns none, and installed.json holds a record with
  -- the URL and version of this installation, its variant, or the one before where it has none, and for
  -- each key the artifact of this installation, or the one before where it has none. The name of the
  -- temporary file is not that of installed.json.
  pub record_install_kept :
      (calls : AuditCalls) (home platform now : Bytes) (i : Install) (d : Disk)
      (old : InstalledManifest)
      → ((content : Bytes)
          → json.marshal (updated platform now i old) ≡ some content
          → json.unmarshal content ≡ some (updated platform now i old))
      → bytes_eq (installed_temp_path home calls.suffix) (installed_manifest_path home) ≡ false
      → read_installed_manifest json calls.read home d ≡ ok old
      → let r = record_install json calls home platform now i d in
        ((r.0 ≡ ok tt)
          × (m : InstalledManifest) × (read_installed_manifest json true home r.1 ≡ ok m)
          × (m.manifest_url ≡ i.url)
          × (m.manifest_version ≡ i.version)
          × (m.model_variant ≡ (if is_empty i.variant then old.model_variant else i.variant))
          × ((k : Bytes) → MergedFrom i.artifacts old m k))
        ⊎ ((r.0 ≢ ok tt) × (r.1 (installed_manifest_path home) ≡ d (installed_manifest_path home)))
  unfolding record_install current updated
  record_install_kept calls home platform now i d old back h e =
      let m = updated platform now i old in
      elim (marshalled calls home m d back h) [
        | inl (f, g) ↦
            rw e (inl (f, m, g, refl, refl, refl, λ k. updated-MergedFrom platform now i old k))
        | inr w ↦ rw e (inr w)
      ]
