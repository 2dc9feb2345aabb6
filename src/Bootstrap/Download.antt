-- ===== src/Bootstrap/Download.antt =====
-- internal/bootstrap/download.go and downloadWithRetry of install.go. The network, the time and the
-- outcomes of the file calls are parameters; the disk maps paths to contents.
pub mod Verified
pub mod Removed
pub mod Retry
use runed.Prelude.{
  ℕ, zero, suc, ◌+◌, ◌*◌, Bool, true, false, not, ◌&&◌, ◌||◌, List, [], ◌∷◌, ◌++◌, Option, none,
  some, Bytes, text, is_empty, equal_fold, length, Result, ok, err, if◌then◌else◌, ltb, ◌==◌,
}
use runed.Prelude.Files.{Disk, put_file}
use runed.Route.Version.{hex}

pub data DownloadError : Type 0 where
  missing_url get_failed open_partial write_failed fsync_failed rename_failed : DownloadError
  http_status : ℕ → DownloadError
  length_mismatch : ℕ → ℕ → DownloadError
  size_mismatch : ℕ → ℕ → DownloadError
  checksum_mismatch : Bytes → Bytes → DownloadError
  retry_aborted : DownloadError
  attempts_failed : DownloadError → DownloadError

-- A response: the chunks that Read returns, and whether they end in io.EOF. A length that is not
-- advertised is 0.
pub record Response : Type 0 where
  pub status : ℕ
  pub content_length : ℕ
  pub chunks : List Bytes
  pub ends_in_eof : Bool

-- What happens in one attempt: the response, if there is one, and whether each file call succeeds.
pub record Fetch : Type 0 where
  pub response : Option Response
  pub open_partial : Bool
  pub write : ℕ → Bool
  pub sync : Bool
  pub rename : Bool
  pub remove : Bool

-- The bytes that reached the file and the hash, and whether there was no error. `i` counts the writes.
unfoldable pub stream_with_progress : (ℕ → Bool) → ℕ → List Bytes → Bool → Bytes × Bool
stream_with_progress write i [] eof = ([], eof)
stream_with_progress write i (c ∷ cs) eof =
    let rest = stream_with_progress write (if is_empty c then i else i + 1) cs eof in
    if is_empty c then rest else if write i then (c ++ rest.0, rest.1) else ([], false)

abbrev pub partial_path : Bytes → Bytes
partial_path dest = dest ++ text ".partial"

module _ (sha256 : Bytes → Bytes) where
  -- The checks after the stream, in order. A size of 0 is not checked.
  unfoldable pub check_content : Bytes → ℕ → Bytes × Bool → Result DownloadError Bytes
  check_content sha size (content, complete) =
      if complete
      then (if ltb 0 size && not (length content == size)
          then err (size_mismatch (length content) size)
          else if equal_fold (hex (sha256 content)) sha
          then ok content
          else err (checksum_mismatch (hex (sha256 content)) sha))
      else err write_failed

  -- The deferred removal, whose error is passed over. A file that was renamed is not removed.
  abbrev pub remove_partial : Bytes → Fetch → Disk → Disk
  remove_partial dest f d = if f.remove then put_file d (partial_path dest) none else d

  -- Sync, rename and the deferred removal of the partial file.
  unfoldable pub commit :
      Bytes → Fetch → Result DownloadError Bytes → Disk → Result DownloadError (Unit {0}) × Disk
  commit dest f (err e) d = (err e, remove_partial dest f d)
  commit dest f (ok content) d =
      if f.sync
      then (if f.rename
          then (ok tt, put_file (put_file d dest (some content)) (partial_path dest) none)
          else (err rename_failed, remove_partial dest f d))
      else (err fsync_failed, remove_partial dest f d)

  -- From the response on.
  unfoldable pub receive :
      Bytes → ℕ → Bytes → Fetch → Response → Disk → Result DownloadError (Unit {0}) × Disk
  unfolding stream_with_progress check_content commit
  receive sha size dest f r d =
      let (content, complete) = stream_with_progress f.write 0 r.chunks r.ends_in_eof in
      if not (r.status == 200)
      then (err (http_status r.status), d)
      else if ltb 0 size && (ltb 0 r.content_length && not (r.content_length == size))
      then (err (length_mismatch r.content_length size), d)
      else if f.open_partial
      then commit dest f (check_content sha size (content, complete))
          (put_file d (partial_path dest) (some content))
      else (err open_partial, d)

  unfoldable pub received :
      Bytes → ℕ → Bytes → Fetch → Option Response → Disk → Result DownloadError (Unit {0}) × Disk
  unfolding receive
  received sha size dest f none d = (err get_failed, d)
  received sha size dest f (some r) d = receive sha size dest f r d

  unfoldable pub download_and_verify :
      Bytes → Bytes → ℕ → Bytes → Fetch → Disk → Result DownloadError (Unit {0}) × Disk
  unfolding received
  download_and_verify url sha size dest f d =
      if is_empty url || is_empty sha
      then (err missing_url, d)
      else received sha size dest f f.response d

-- What happens over the attempts, numbered from 1: each attempt, whether the backoff (in seconds)
-- before it passes or the context is cancelled first, and whether the context is cancelled after it.
pub record Network : Type 0 where
  pub fetch : ℕ → Fetch
  pub wait : ℕ → ℕ → Bool
  pub cancelled : ℕ → Bool

abbrev pub max_download_attempts : ℕ
max_download_attempts = 3

abbrev pub retry_backoff_multiplier : ℕ
retry_backoff_multiplier = 3

-- The initial backoff.
abbrev pub download_retry_backoff : ℕ
download_retry_backoff = 5

-- After an attempt; `again` makes the next one.
unfoldable pub after_attempt :
    Bool
    → (DownloadError → Disk → Result DownloadError (Unit {0}) × Disk)
    → Result DownloadError (Unit {0}) × Disk
    → Result DownloadError (Unit {0}) × Disk
after_attempt cancelled again (ok _, d) = (ok tt, d)
after_attempt cancelled again (err e, d) = elim cancelled [ true ↦ (err e, d) | false ↦ again e d ]

module _ (sha256 : Bytes → Bytes) (url sha : Bytes) (size : ℕ) (dest : Bytes) (net : Network) where
  -- The attempts from number `n` on, `left` of them, with the last error.
  unfoldable pub retry_from :
      ℕ → ℕ → ℕ → DownloadError → Disk → Result DownloadError (Unit {0}) × Disk
  unfolding after_attempt
  retry_from zero n backoff last d = (err (attempts_failed last), d)
  retry_from (suc left) n backoff last d =
      if net.wait n backoff
      then after_attempt (net.cancelled n)
          (retry_from left (n + 1) (backoff * retry_backoff_multiplier))
          (download_and_verify sha256 url sha size dest (net.fetch n) d)
      else (err retry_aborted, d)

  -- The first attempt is not waited for.
  unfoldable pub download_with_retry : Disk → Result DownloadError (Unit {0}) × Disk
  unfolding retry_from after_attempt
  download_with_retry d =
      after_attempt (net.cancelled 1) (retry_from 2 2 download_retry_backoff)
        (download_and_verify sha256 url sha size dest (net.fetch 1) d)
