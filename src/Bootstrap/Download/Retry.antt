-- ===== src/Bootstrap/Download/Retry.antt =====
-- The retries of a download: what they leave on the disk, and which failures they survive.
use runed.Prelude.{
  ℕ, zero, suc, ◌+◌, ◌*◌, ◌≡◌, ◌↔◌, ◌⊎◌, inl, inr, arith, Bool, true, false, Bytes, Result, ok, err,
}
use runed.Prelude.Files.{Disk}
use runed.Bootstrap.Download.{
  DownloadError, Fetch, Network, after_attempt, retry_from, download_with_retry,
  download_and_verify, receive, commit, received, download_retry_backoff,
}
use runed.Bootstrap.Download.Removed.{
  Removed, if-Removed, nothing-Removed, trans-Removed, download_and_verify-Removed,
}
use runed.Bootstrap.Download.Verified.{
  Delivered, if-Delivered, untouched, trans-Delivered, download_and_verify-Delivered,
}

module _ (sha256 : Bytes → Bytes) (url sha : Bytes) (size : ℕ) (dest : Bytes) where
  -- An attempt has the same result whatever is on the disk.
  pub download_disk :
      (f : Fetch) (d e : Disk)
      → (download_and_verify sha256 url sha size dest f d).0
        ≡ (download_and_verify sha256 url sha size dest f e).0
  unfolding download_and_verify received receive commit
  download_disk f d e = ground arith

module _ (sha256 : Bytes → Bytes) (url sha : Bytes) (size : ℕ) (dest : Bytes) (net : Network) where
  after_attempt-Delivered :
      (c : Bool) (again : DownloadError → Disk → Result DownloadError (Unit {0}) × Disk) (d : Disk)
      (r : Result DownloadError (Unit {0}) × Disk)
      → Delivered sha256 sha size dest d r
      → ((e : DownloadError) (s : Disk) → Delivered sha256 sha size dest s (again e s))
      → Delivered sha256 sha size dest d (after_attempt c again r)
  unfolding after_attempt
  after_attempt-Delivered c again d (ok tt, s) first more = first
  after_attempt-Delivered true again d (err e, s) first more = first
  after_attempt-Delivered false again d (err e, s) first more =
      trans-Delivered sha256 sha size dest d (err e, s) (again e s) first (λ q. cc) (more e s)

  retry_from-Delivered :
      (left n backoff : ℕ) (last : DownloadError) (d : Disk)
      → Delivered sha256 sha size dest d
          (retry_from sha256 url sha size dest net left n backoff last d)
  unfolding retry_from
  retry_from-Delivered zero n backoff last d = untouched sha256 sha size dest d _
  retry_from-Delivered (suc left) n backoff last d =
      if-Delivered sha256 sha size dest d (net.wait n backoff) _ _
        (after_attempt-Delivered (net.cancelled n) _ d _
          (download_and_verify-Delivered sha256 sha size url dest (net.fetch n) d)
          (λ x s. retry_from-Delivered left (n + 1) (backoff * 3) x s))
        (untouched sha256 sha size dest d _)

  pub outcome-Delivered :
      (d : Disk)
      → Delivered sha256 sha size dest d (download_with_retry sha256 url sha size dest net d)
  unfolding download_with_retry
  outcome-Delivered d =
      after_attempt-Delivered (net.cancelled 1) _ d _
        (download_and_verify-Delivered sha256 sha size url dest (net.fetch 1) d)
        (λ e s. retry_from-Delivered 2 2 download_retry_backoff e s)

  -- Some attempt failed to remove its partial file.
  abbrev pub RemovalFailed : Type 0
  RemovalFailed = (n : ℕ) × ((net.fetch n).remove ≡ false)

  attempt-Removed :
      (n : ℕ) (d : Disk)
      → Removed RemovalFailed dest d (download_and_verify sha256 url sha size dest (net.fetch n) d)
  attempt-Removed n d =
      elim (download_and_verify-Removed sha256 sha size dest (net.fetch n) url d) [
        | inl e ↦ inl e
        | inr (x, h) ↦ inr (x, elim h [ inl e ↦ inl e | inr e ↦ inr (n, e) ])
      ]

  after_attempt-Removed :
      (c : Bool) (again : DownloadError → Disk → Result DownloadError (Unit {0}) × Disk) (d : Disk)
      (r : Result DownloadError (Unit {0}) × Disk)
      → Removed RemovalFailed dest d r
      → ((e : DownloadError) (s : Disk) → Removed RemovalFailed dest s (again e s))
      → Removed RemovalFailed dest d (after_attempt c again r)
  unfolding after_attempt
  after_attempt-Removed c again d (ok tt, s) first more = first
  after_attempt-Removed true again d (err e, s) first more = first
  after_attempt-Removed false again d (err e, s) first more =
      trans-Removed RemovalFailed dest d (err e, s) (again e s) first (more e s)

  retry_from-Removed :
      (left n backoff : ℕ) (last : DownloadError) (d : Disk)
      → Removed RemovalFailed dest d (retry_from sha256 url sha size dest net left n backoff last d)
  unfolding retry_from
  retry_from-Removed zero n backoff last d = nothing-Removed _ dest d _
  retry_from-Removed (suc left) n backoff last d =
      if-Removed _ dest d (net.wait n backoff) _ _
        (after_attempt-Removed (net.cancelled n) _ d _ (attempt-Removed n d)
          (λ x s. retry_from-Removed left (n + 1) (backoff * 3) x s))
        (nothing-Removed _ dest d _)

  -- A download with its retries. If it succeeds, the destination has content of the wanted hash and,
  -- if a size is given, of that size, and there is no partial file. If it fails, the destination is as
  -- before, and there is no partial file unless there was one before or the removal of one failed. Other
  -- files are as before.
  pub download_with_retry-Delivered :
      (d : Disk)
      → let r = download_with_retry sha256 url sha size dest net d in
        Delivered sha256 sha size dest d r × Removed RemovalFailed dest d r
  unfolding download_with_retry
  download_with_retry-Delivered d = (
    outcome-Delivered d,
    after_attempt-Removed (net.cancelled 1) _ d _ (attempt-Removed 1 d)
        (λ e s. retry_from-Removed 2 2 download_retry_backoff e s),
  )

  -- This attempt, taken by itself, succeeds.
  abbrev pub Succeeds : ℕ → Disk → Type 0
  Succeeds n d = (download_and_verify sha256 url sha size dest (net.fetch n) d).0 ≡ ok tt

  -- While the context is not cancelled, the download succeeds exactly if one of three attempts does.
  download_with_retry-attempts :
      (d : Disk)
      → ((n : ℕ) → net.cancelled n ≡ false)
      → ((n backoff : ℕ) → net.wait n backoff ≡ true)
      → ((download_with_retry sha256 url sha size dest net d).0 ≡ ok tt)
        ↔ (Succeeds 1 d ⊎ (Succeeds 2 d ⊎ Succeeds 3 d))
  unfolding download_with_retry retry_from after_attempt
  download_with_retry-attempts d going waited =
      let d1 = (download_and_verify sha256 url sha size dest (net.fetch 1) d).1 in
      let d2 = (download_and_verify sha256 url sha size dest (net.fetch 2) d1).1 in
      ground (
        arith,
        going 1,
        going 2,
        going 3,
        waited 2 download_retry_backoff,
        waited 3 (download_retry_backoff * 3),
        download_disk sha256 url sha size dest (net.fetch 2) d1 d,
        download_disk sha256 url sha size dest (net.fetch 3) d2 d,
      )
