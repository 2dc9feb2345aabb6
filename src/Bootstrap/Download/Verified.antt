-- ===== src/Bootstrap/Download/Verified.antt =====
-- What a download leaves on the disk.
use runed.Prelude.{
  ℕ, ◌≡◌, refl, ◌≢◌, ◌⊎◌, inr, ap, arith, Bool, true, false, Option, none, some, Bytes, text,
  equal_fold, length, length-append, Result, ok, err, bytes_eq_iff, ◌==◌, not, if◌then◌else◌,
}
use runed.Prelude.Files.{Disk, put_file}
use runed.Route.Version.{hex}
use runed.Bootstrap.Download.{
  DownloadError, Fetch, Response, partial_path, check_content, commit, receive, received,
  download_and_verify, stream_with_progress,
}

module _ (sha256 : Bytes → Bytes) (sha : Bytes) (size : ℕ) where
  -- The content has the wanted hash, and the wanted size if there is one.
  abbrev pub Verified : Bytes → Type 0
  Verified content =
      (equal_fold (hex (sha256 content)) sha ≡ true) × ((size ≡ 0) ⊎ (length content ≡ size))

  -- With success the destination has verified content; with an error it is as before. Other files
  -- than the partial one are as before.
  pub record Delivered (dest : Bytes) (d : Disk) (r : Result DownloadError (Unit {0}) × Disk)
      : Type 0 where
    pub outcome :
        ((r.0 ≡ ok tt) × (content : Bytes) × (r.1 dest ≡ some content) × Verified content)
        ⊎ ((r.0 ≢ ok tt) × (r.1 dest ≡ d dest))
    pub others : (p : Bytes) → (p ≡ dest) ⊎ ((p ≡ partial_path dest) ⊎ (r.1 p ≡ d p))

  pub untouched : (dest : Bytes) (d : Disk) (e : DownloadError) → Delivered dest d (err e, d)
  untouched dest d e = record { outcome = inr (λ q. cc, refl); others = λ p. inr (inr refl) }

  pub if-Delivered :
      (dest : Bytes) (d : Disk) (b : Bool) (r s : Result DownloadError (Unit {0}) × Disk)
      → Delivered dest d r
      → Delivered dest d s
      → Delivered dest d (if b then r else s)
  if-Delivered dest d true r s h k = h
  if-Delivered dest d false r s h k = k

  partial_differs : (dest : Bytes) → partial_path dest ≢ dest
  partial_differs dest e = absurd (omega (arith, ap length e, length-append dest (text ".partial")))

  check_content-Verified :
      (got : Bytes × Bool) (content : Bytes)
      → check_content sha256 sha size got ≡ ok content
      → (got.0 ≡ content) × Verified content
  unfolding check_content
  check_content-Verified (bytes, complete) content h = ground arith

  commit-Delivered :
      (dest : Bytes) (f : Fetch) (checked : Result DownloadError Bytes) (d : Disk) (content : Bytes)
      → ((c : Bytes) → checked ≡ ok c → Verified c)
      → Delivered dest d
          (commit sha256 dest f checked (put_file d (partial_path dest) (some content)))
  unfolding commit
  commit-Delivered dest f (err e) d content h =
      let tmp = partial_path dest in
      record {
        outcome = inr (λ q. cc, ground (arith, partial_differs dest, bytes_eq_iff tmp dest));
        others = λ p. ground (arith, bytes_eq_iff tmp p);
      }
  commit-Delivered dest f (ok c) d content h =
      let tmp = partial_path dest in
      record {
        outcome =
            ground (
              arith,
              partial_differs dest,
              bytes_eq_iff tmp dest,
              bytes_eq_iff dest dest,
              h c refl,
            );
        others = λ p. ground (arith, bytes_eq_iff tmp p, bytes_eq_iff dest p);
      }

  receive-Delivered :
      (dest : Bytes) (f : Fetch) (r : Response) (d : Disk)
      → Delivered dest d (receive sha256 sha size dest f r d)
  unfolding receive
  receive-Delivered dest f r d =
      let got = stream_with_progress f.write 0 r.chunks r.ends_in_eof in
      let stored =
        commit-Delivered dest f (check_content sha256 sha size got) d got.0
          (λ c q. (check_content-Verified got c q).1) in
      if-Delivered dest d (not (r.status == 200)) _ _ (untouched dest d _) (
        if-Delivered dest d _ _ _ (untouched dest d _)
          (if-Delivered dest d f.open_partial _ _ stored (untouched dest d _)))

  received-Delivered :
      (dest : Bytes) (f : Fetch) (r : Option Response) (d : Disk)
      → Delivered dest d (received sha256 sha size dest f r d)
  unfolding received
  received-Delivered dest f none d = untouched dest d _
  received-Delivered dest f (some r) d = receive-Delivered dest f r d

  -- One attempt. With success the destination has content of the wanted hash and size; with an error
  -- it is as before. Other files than the partial one are as before.
  pub download_and_verify-Delivered :
      (url dest : Bytes) (f : Fetch) (d : Disk)
      → Delivered dest d (download_and_verify sha256 url sha size dest f d)
  unfolding download_and_verify
  download_and_verify-Delivered url dest f d =
      if-Delivered dest d _ _ _ (untouched dest d _) (received-Delivered dest f f.response d)

  -- What is delivered after an attempt that failed is delivered.
  pub trans-Delivered :
      (dest : Bytes) (d : Disk) (r s : Result DownloadError (Unit {0}) × Disk)
      → Delivered dest d r
      → r.0 ≢ ok tt
      → Delivered dest r.1 s
      → Delivered dest d s
  trans-Delivered dest d r s first failed second = record {
    outcome = ground (arith, first.outcome, second.outcome);
    others = λ p. ground (arith, first.others p, second.others p);
  }
