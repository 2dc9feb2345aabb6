-- ===== src/Bootstrap/Manifest/Laws.antt =====
-- What the lookups in a manifest give, and which manifests are fetched.
use runed.Prelude.{
  ℕ, ◌≤◌, ◌≡◌, refl, ◌≢◌, ◌↔◌, ◌⊎◌, arith, Bool, true, false, Option, none, some, Bytes, [], ◌∷◌,
  is_empty, length, Result, ok, err, ◌+◌, if◌then◌else◌,
}
use runed.Bootstrap.Manifest.{
  LlamaServerSpec, ArtifactSpec, Manifest, ManifestError, Requests, fetch_manifest, fetch_from,
  after_fetch, fetch_manifest_body, check_body, parse_manifest, check_version,
  llama_server_for_platform, check_llama_server, model_spec, check_model, manifest_version,
  manifest_max_bytes,
}

is_empty-true : (s : Bytes) → is_empty s ≡ true → s ≡ []
is_empty-true [] h = refl
is_empty-true (c ∷ s) h = cc

-- A lookup of a model succeeds exactly if the variant is named, the manifest has it, and its URL and
-- its hash are given; and the result is the manifest's entry.
model_spec_ok :
    (m : Manifest) (variant : Bytes) (spec : ArtifactSpec)
    → (model_spec m variant ≡ ok spec)
      ↔ ((variant ≢ []) × (m.models variant ≡ some spec) × (spec.url ≢ []) × (spec.sha256 ≢ []))
unfolding model_spec check_model
model_spec_ok m variant spec = ground arith

-- A lookup of llama-server succeeds exactly if the platform has an entry with its URL and hash, and
-- with the name of the executable if there is an archive to extract.
llama_server_for_platform_ok :
    (m : Manifest) (tuple : Bytes) (spec : LlamaServerSpec)
    → (llama_server_for_platform m tuple ≡ ok spec) ↔ (
        (m.platforms tuple ≡ some (some spec))
        × (spec.url ≢ [])
        × (spec.sha256 ≢ [])
        × ((spec.extract ≡ []) ⊎ (spec.exec ≢ [])))
unfolding llama_server_for_platform check_llama_server
llama_server_for_platform_ok m tuple spec = ground arith

check_body_fits :
    (status : ℕ) (read body : Bytes)
    → check_body status read ≡ ok body
    → length body ≤ manifest_max_bytes
unfolding check_body
check_body_fits status read body h = ground arith

body_fits :
    (r : Option (ℕ × Option Bytes)) (body : Bytes)
    → fetch_manifest_body r ≡ ok body
    → length body ≤ manifest_max_bytes
unfolding fetch_manifest_body
body_fits none body h = cc
body_fits (some (status, none)) body h = absurd (ground arith)
body_fits (some (status, some content)) body h = check_body_fits status _ body h

module _ (unmarshal : Bytes → Option Manifest) (net : Requests) where
  -- The manifest that some request brought: it parses, and has the supported version.
  abbrev pub Fetched : Manifest → Type 0
  Fetched m =
      (n : ℕ) × (body : Bytes) × (1 ≤ n)
      × (n ≤ 3)
      × (fetch_manifest_body (net.get n) ≡ ok body)
      × (unmarshal body ≡ some m)
      × (m.version ≡ manifest_version)
      × (length body ≤ manifest_max_bytes)

  parse_manifest_ok :
      (body : Bytes) (m : Manifest)
      → parse_manifest unmarshal body ≡ ok m
      → (unmarshal body ≡ some m) × (m.version ≡ manifest_version)
  unfolding parse_manifest check_version
  parse_manifest_ok body m h = ground arith

  -- At most so many requests were made, and a manifest is one that some of them brought.
  abbrev CountedFetch : ℕ → Result ManifestError Manifest × ℕ → Type 0
  CountedFetch most (ok m, k) = (k ≤ most) × Fetched m
  CountedFetch most (err e, k) = k ≤ most

  abbrev pub FetchedOrFailed : Result ManifestError Manifest × ℕ → Type 0
  FetchedOrFailed r = CountedFetch 3 r

  one_more :
      (most : ℕ) (r : Result ManifestError Manifest × ℕ)
      → CountedFetch most r
      → CountedFetch (most + 1) (r.0, r.1 + 1)
  one_more most (ok m, k) (h, f) = (omega (arith, h), f)
  one_more most (err e, k) h = omega (arith, h)

  fewer :
      (a b : ℕ) (r : Result ManifestError Manifest × ℕ)
      → a ≤ b
      → CountedFetch a r
      → CountedFetch b r
  fewer a b (ok m, k) l (h, f) = (omega (arith, h), f)
  fewer a b (err e, k) l h = omega (arith, h)

  parsed-Counted :
      (n : ℕ) (body : Bytes) (p : Result ManifestError Manifest)
      → 1 ≤ n
      → n ≤ 3
      → fetch_manifest_body (net.get n) ≡ ok body
      → parse_manifest unmarshal body ≡ p
      → CountedFetch 1 (p, 1)
  parsed-Counted n body (err e) low high q h = omega arith
  parsed-Counted n body (ok m) low high q h =
      let (parsed, version) = parse_manifest_ok body m h in
      (omega arith, (n, body, low, high, q, parsed, version, body_fits (net.get n) body q))

  after_fetch-Counted :
      (n most : ℕ) (c : Bool) (again : ManifestError → Result ManifestError Manifest × ℕ)
      (r : Result ManifestError Bytes)
      → 1 ≤ n
      → n ≤ 3
      → ((e : ManifestError) → CountedFetch most (again e))
      → fetch_manifest_body (net.get n) ≡ r
      → CountedFetch (most + 1) (after_fetch unmarshal net c again r)
  unfolding after_fetch
  after_fetch-Counted n most c again (ok body) low high more e =
      fewer 1 (most + 1) _ (omega arith) (parsed-Counted n body _ low high e refl)
  after_fetch-Counted n most false again (err x) low high more e = one_more most (again x) (more x)
  after_fetch-Counted n most true again (err x) low high more e = omega arith

  if-Counted :
      (most : ℕ) (b : Bool) (r s : Result ManifestError Manifest × ℕ)
      → CountedFetch most r
      → CountedFetch most s
      → CountedFetch most (if b then r else s)
  if-Counted most true r s h k = h
  if-Counted most false r s h k = k

  -- FetchManifest makes at most three requests, whatever comes of them; and a manifest that it returns was
  -- the body of one of the first three, of at most 1 MiB, and has the supported version.
  pub fetch_manifest-Fetched : (url : Bytes) → FetchedOrFailed (fetch_manifest unmarshal net url)
  unfolding fetch_manifest fetch_from
  fetch_manifest-Fetched url =
      if-Counted 3 (is_empty url) _ _ (omega arith)
        (after_fetch-Counted 1 2 (net.cancelled 1) _ _ (omega arith) (omega arith) second refl)
    where
      third : (e : ManifestError) → CountedFetch 1 (fetch_from unmarshal net 1 3 15 e)
      third e =
          if-Counted 1 (net.wait 3 15) _ _
            (after_fetch-Counted 3 0 (net.cancelled 3) (fetch_from unmarshal net 0 4 45) _
              (omega arith) (omega arith) (λ x. omega arith) refl)
            (omega arith)

      second : (e : ManifestError) → CountedFetch 2 (fetch_from unmarshal net 2 2 5 e)
      second e =
          if-Counted 2 (net.wait 2 5) _ _
            (after_fetch-Counted 2 1 (net.cancelled 2) _ _ (omega arith) (omega arith) third refl)
            (omega arith)
