-- ===== src/Bootstrap/Progress.antt =====
-- makeProgress of internal/bootstrap/install.go: the throttled report of a download, and its calls by
-- streamWithProgress (download.go). The log line carries what the reporter gets.
pub mod Throttled
use runed.Prelude.{
  ℤ, pos, negsuc, pos_part, ℕ, ◌-◌, ◌*◌, Bool, true, false, not, ◌&&◌, List, [], ◌∷◌, Option, none,
  some, leb, ltb, ◌==◌, ◌+◌, Bytes, length, is_empty, if◌then◌else◌,
}

-- 2 s
abbrev pub progress_log_interval : ℕ
progress_log_interval = 2 * 1000000000

-- A call of the ProgressFunc at `now`. The total is -1 where no Content-Length was advertised.
pub record Tick : Type 0 where
  pub now : ℕ
  pub downloaded : ℕ
  pub observed_total : ℤ

abbrev pub total_of : ℤ → Tick → ℤ
total_of expected t = if ltb 0 (pos_part expected) then expected else t.observed_total

abbrev pub complete : ℤ → Tick → Bool
complete expected t =
    let total = pos_part (total_of expected t) in ltb 0 total && leb total t.downloaded

-- time.Since(lastReport): the zero time is long ago.
abbrev pub too_soon : Option ℕ → ℕ → Bool
too_soon none now = false
too_soon (some last) now = ltb (now - last) progress_log_interval

-- What is reported, and the new lastReport.
unfoldable pub progress : ℤ → Option ℕ → Tick → Option (ℕ × ℤ) × Option ℕ
progress expected last t =
    if not (complete expected t) && too_soon last t.now
    then (none, last)
    else (some (t.downloaded, total_of expected t), some t.now)

-- A download's calls in their order; the reports with their times.
unfoldable pub reports : ℤ → Option ℕ → List Tick → List (Tick × Option (ℕ × ℤ))
unfolding progress
reports expected last [] = []
reports expected last (t ∷ ts) =
    let r = progress expected last t in (t, r.0) ∷ reports expected r.1 ts

-- The calls that streamWithProgress makes of it, one after each chunk that is written: `i` numbers the
-- writes, at `now i`, and `written` are the bytes before. `total` is resp.ContentLength, which is
-- -1 where it is not known.
unfoldable pub transfer_ticks : (ℕ → Bool) → (ℕ → ℕ) → ℤ → ℕ → ℕ → List Bytes → List Tick
transfer_ticks write now total i written [] = []
transfer_ticks write now total i written (c ∷ cs) =
    let done = written + length c in
    let rest = transfer_ticks write now total (if is_empty c then i else i + 1) done cs in
    if is_empty c
    then rest
    else if write i
    then record { now = now i; downloaded = done; observed_total = total } ∷ rest
    else []
