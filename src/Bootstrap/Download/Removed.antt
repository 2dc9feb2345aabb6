-- ===== src/Bootstrap/Download/Removed.antt =====
-- What becomes of a download's partial file.
use runed.Prelude.{
  ℕ, ◌≡◌, ◌≢◌, ◌⊎◌, inl, inr, arith, Bool, true, false, not, Option, none, some, Option-cases,
  Bytes, Result, ok, err, bytes_eq_iff, ◌==◌, if◌then◌else◌,
}
use runed.Prelude.Files.{Disk}
use runed.Bootstrap.Download.{
  DownloadError, Fetch, Response, partial_path, check_content, commit, receive, received,
  download_and_verify, stream_with_progress,
}

-- There is no partial file after it, unless an error was returned, and there was one before, or a removal
-- failed: `Failed`.
abbrev pub Removed : Type 0 → Bytes → Disk → Result DownloadError (Unit {0}) × Disk → Type 0
Removed Failed dest d r =
    (r.1 (partial_path dest) ≡ none) ⊎ ((r.0 ≢ ok tt) × ((d (partial_path dest) ≢ none) ⊎ Failed))

pub nothing-Removed :
    (Failed : Type 0) (dest : Bytes) (d : Disk) (e : DownloadError)
    → Removed Failed dest d (err e, d)
nothing-Removed Failed dest d e = elim (Option-cases (d (partial_path dest))) [
  | inl q ↦ inl q
  | inr (c, q) ↦ inr (λ p. cc, inl (λ p. cc))
]

pub if-Removed :
    (Failed : Type 0) (dest : Bytes) (d : Disk) (b : Bool)
    (r s : Result DownloadError (Unit {0}) × Disk)
    → Removed Failed dest d r
    → Removed Failed dest d s
    → Removed Failed dest d (if b then r else s)
if-Removed Failed dest d true r s h k = h
if-Removed Failed dest d false r s h k = k

module _ (sha256 : Bytes → Bytes) (sha : Bytes) (size : ℕ) (dest : Bytes) (f : Fetch) where
  commit-Removed :
      (checked : Result DownloadError Bytes) (d e : Disk)
      → Removed (f.remove ≡ false) dest e (commit sha256 dest f checked d)
  unfolding commit
  commit-Removed (err x) d e = let tmp = partial_path dest in ground (arith, bytes_eq_iff tmp tmp)
  commit-Removed (ok c) d e = let tmp = partial_path dest in ground (arith, bytes_eq_iff tmp tmp)

  receive-Removed :
      (r : Response) (d : Disk)
      → Removed (f.remove ≡ false) dest d (receive sha256 sha size dest f r d)
  unfolding receive
  receive-Removed r d =
      let got = stream_with_progress f.write 0 r.chunks r.ends_in_eof in
      let stored = commit-Removed (check_content sha256 sha size got) _ d in
      if-Removed _ dest d (not (r.status == 200)) _ _ (nothing-Removed _ dest d _) (
        if-Removed _ dest d _ _ _ (nothing-Removed _ dest d _)
          (if-Removed _ dest d f.open_partial _ _ stored (nothing-Removed _ dest d _)))

  received-Removed :
      (r : Option Response) (d : Disk)
      → Removed (f.remove ≡ false) dest d (received sha256 sha size dest f r d)
  unfolding received
  received-Removed none d = nothing-Removed _ dest d _
  received-Removed (some r) d = receive-Removed r d

  pub download_and_verify-Removed :
      (url : Bytes) (d : Disk)
      → Removed (f.remove ≡ false) dest d (download_and_verify sha256 url sha size dest f d)
  unfolding download_and_verify
  download_and_verify-Removed url d =
      if-Removed _ dest d _ _ _ (nothing-Removed _ dest d _) (received-Removed f.response d)

-- After an attempt that returned an error and another one.
pub trans-Removed :
    (Failed : Type 0) (dest : Bytes) (d : Disk) (r s : Result DownloadError (Unit {0}) × Disk)
    → Removed Failed dest d r
    → Removed Failed dest r.1 s
    → Removed Failed dest d s
trans-Removed Failed dest d r s first (inl e) = inl e
trans-Removed Failed dest d r s first (inr (x, inr f)) = inr (x, inr f)
trans-Removed Failed dest d r s (inl e) (inr (x, inl q)) = absurd (q e)
trans-Removed Failed dest d r s (inr (y, h)) (inr (x, inl q)) = inr (x, h)
