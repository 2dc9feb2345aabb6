-- ===== src/Bootstrap/Install/Steps.antt =====
-- The two ways of installing the llama-server, each with what a success means.
use runed.Prelude.{
  ◌≡◌, ◌≢◌, ◌⊎◌, inl, inr, refl, sym, arith, true, ◌||◌, Option, none, some, is_some, Option-cases,
  Bytes, bytes_eq_iff, Result, ok, err,
}
use runed.Prelude.Files.{write_file-elsewhere, Disk, put_file}
use runed.Bootstrap.Download.{DownloadError, Network}
use runed.Bootstrap.Download.Verified.{Verified, Delivered}
use runed.Bootstrap.Manifest.{LlamaServerSpec}
use runed.Bootstrap.Extract.{Archive, ExtractCalls, Extraction, extract_tar_gz}
use runed.Bootstrap.Layout.{Paths}
use runed.Bootstrap.Install.{
  ServerError, ServerCalls, llama_server_target, marker_path, tar_path, complete_install,
  install_raw, extraction_result, extract_content, install_tar,
}

-- Something is at the path.
abbrev pub Present : ServerCalls → Disk → Bytes → Type 0
Present calls d target = (is_some (d target) || calls.is_dir) ≡ true

complete_install_ok :
    (calls : ServerCalls) (marker target : Bytes) (spec : LlamaServerSpec)
    (r : Result ServerError (Unit {0}) × Disk) (out : Bytes × LlamaServerSpec)
    → (complete_install calls marker target spec r).0 ≡ ok out
    → (r.0 ≡ ok tt)
      × (out ≡ (target, spec))
      × Present calls r.1 target
      × ((q : Bytes) → (marker ≡ q) ⊎ ((complete_install calls marker target spec r).1 q ≡ r.1 q))
unfolding complete_install
complete_install_ok calls marker target spec (err e, d) out h = absurd (cc)
complete_install_ok calls marker target spec (ok tt, d) out h = (
  refl,
  ground arith,
  ground arith,
  λ q. ground (arith, write_file-elsewhere marker spec.sha256 calls.marker d q),
)

module _ (sha256 : Bytes → Bytes) (untar : Bytes → ExtractCalls × Archive) where
  -- Content that passed the checks of a download is at the path.
  abbrev pub Downloaded : LlamaServerSpec → Bytes → Disk → Bytes → Type 0
  Downloaded spec path d content =
      (d path ≡ some content) × Verified sha256 spec.sha256 spec.size content

  -- An archive that passed them was extracted without an error, and only the marker and the archive's
  -- file have changed since.
  abbrev pub Extracted : ServerCalls → Paths → LlamaServerSpec → Disk → Type 0
  Extracted calls p spec d =
      (s : Disk) × (content : Bytes) × Downloaded spec (tar_path p.cache) s content
      × let x = extract_tar_gz (untar content).0 (untar content).1 s in
        (x.error ≡ none)
        × Present calls x.disk (llama_server_target p.llama_dir spec)
        × ((q : Bytes)
            → (marker_path p.llama_dir ≡ q) ⊎ ((tar_path p.cache ≡ q) ⊎ (d q ≡ x.disk q)))

  download_ok :
      (net : Network) (spec : LlamaServerSpec) (dest : Bytes) (d : Disk)
      (r : Result DownloadError (Unit {0}) × Disk)
      → Delivered sha256 spec.sha256 spec.size dest d r
      → r.0 ≡ ok tt
      → (content : Bytes) × Downloaded spec dest r.1 content
  download_ok net spec dest d r h e = elim h.outcome [
    | inl (q, c, here, v) ↦ (c, (here, v))
    | inr (q, same) ↦ absurd (q e)
  ]

  install_raw_ok :
      (calls : ServerCalls) (r : Result DownloadError (Unit {0}) × Disk)
      → (install_raw calls r).0 ≡ ok tt
      → (r.0 ≡ ok tt) × ((install_raw calls r).1 ≡ r.1)
  unfolding install_raw
  install_raw_ok calls (err e, d) h = absurd (cc)
  install_raw_ok calls (ok tt, d) h = (refl, ground arith)

  extraction_result_ok : (x : Extraction) → (extraction_result x).0 ≡ ok tt → x.error ≡ none
  unfolding extraction_result
  extraction_result_ok x h = elim (Option-cases x.error) [
    | inl e ↦ e
    | inr (y, e) ↦ absurd (ground arith)
  ]

  content_of_some :
      (file : Option Bytes) (content : Bytes) (d : Disk)
      → file ≡ some content
      → extract_content untar file d ≡ extract_tar_gz (untar content).0 (untar content).1 d
  unfolding extract_content
  content_of_some none content d e = absurd (cc)
  content_of_some (some c) content d e = ground arith

  tar_done :
      (calls : ServerCalls) (marker target tar : Bytes) (spec : LlamaServerSpec) (x : Extraction)
      (out : Bytes × LlamaServerSpec)
      → (complete_install calls marker target spec (extraction_result x)).0 ≡ ok out
      → (out ≡ (target, spec))
        × (x.error ≡ none)
        × Present calls x.disk target
        × ((q : Bytes)
            → (marker ≡ q)
              ⊎ ((tar ≡ q)
                  ⊎ (put_file
                        (complete_install calls marker target spec (extraction_result x)).1
                        tar
                        none
                        q
                      ≡ x.disk q)))
  unfolding extraction_result
  tar_done calls marker target tar spec x out h =
      let (fine, named, there, same) =
        complete_install_ok calls marker target spec (extraction_result x) out h in
      (
        named,
        extraction_result_ok x fine,
        there,
        λ q. elim (same q) [ inl e ↦ inl e | inr e ↦ inr (ground (arith, bytes_eq_iff tar q)) ],
      )

  pub install_tar_ok :
      (calls : ServerCalls) (net : Network) (p : Paths) (spec : LlamaServerSpec) (d : Disk)
      (r : Result DownloadError (Unit {0}) × Disk) (out : Bytes × LlamaServerSpec)
      → Delivered sha256 spec.sha256 spec.size (tar_path p.cache) d r
      → let target = llama_server_target p.llama_dir spec in
        let i =
          install_tar sha256 untar calls
            (marker_path p.llama_dir)
            target
            (tar_path p.cache)
            spec
            r in
        i.0 ≡ ok out → (out ≡ (target, spec)) × Extracted calls p spec i.1
  unfolding install_tar
  install_tar_ok calls net p spec d (err e, s) out del h = absurd (cc)
  install_tar_ok calls net p spec d (ok u, s) out del h =
      let (content, got) = download_ok net spec (tar_path p.cache) d (ok tt, s) del refl in
      let same = content_of_some (s (tar_path p.cache)) content s got.0 in
      let (named, fine, there, others) =
        tar_done calls (marker_path p.llama_dir) (llama_server_target p.llama_dir spec)
          (tar_path p.cache) spec (extract_content untar (s (tar_path p.cache)) s) out h in
      (
        named,
        (s, content, got, (rw (sym same) fine, rw (sym same) there, λ q. rw (sym same) (others q))),
      )

  -- A raw artifact: the downloaded content is the executable.
  pub install_raw-Downloaded :
      (calls : ServerCalls) (net : Network) (p : Paths) (spec : LlamaServerSpec) (d : Disk)
      (r : Result DownloadError (Unit {0}) × Disk) (out : Bytes × LlamaServerSpec)
      → let target = llama_server_target p.llama_dir spec in
        let marker = marker_path p.llama_dir in
        let i = complete_install calls marker target spec (install_raw calls r) in
        marker ≢ target
        → Delivered sha256 spec.sha256 spec.size target d r
        → i.0 ≡ ok out
        → (out ≡ (target, spec)) × (content : Bytes) × Downloaded spec target i.1 content
  install_raw-Downloaded calls net p spec d r out apart del h =
      let target = llama_server_target p.llama_dir spec in
      let (fine, named, there, same) =
        complete_install_ok calls (marker_path p.llama_dir) target spec (install_raw calls r) out
          h in
      let (downloaded, kept) = install_raw_ok calls r fine in
      let (content, got) = download_ok net spec target d r del downloaded in
      (
        named,
        content,
        elim (same target) [ inl e ↦ absurd (apart e) | inr e ↦ (ground arith, got.1) ],
      )
