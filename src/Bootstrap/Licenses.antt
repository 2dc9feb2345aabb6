-- ===== src/Bootstrap/Licenses.antt =====
-- internal/bootstrap/licenses.go: installLicenses over the entries of the embedded file system, in the
-- order in which fs.WalkDir visits them.
use runed.Prelude.{
  Bool, List, [], ◌∷◌, Option, none, some, Bytes, text, Result, ok, err, if◌then◌else◌,
}
use runed.Prelude.FilePath.{join}
use runed.Prelude.Files.{Disk, FileWrite, complete, unopened, partly, write_file}

pub data LicenseError : Type 0 where
  walk_failed : LicenseError
  mkdir_failed read_failed write_failed : Bytes → LicenseError

-- An entry, with the outcomes of the calls for it. A directory comes before what it holds.
pub data LicenseEntry : Type 0 where
  walk_error : LicenseEntry
  directory : Bytes → Bool → LicenseEntry
  license : Bytes → Option Bytes → FileWrite → LicenseEntry

abbrev pub licenses_root : Bytes → Bytes
licenses_root home = join (home ∷ text "licenses" ∷ [])

unfoldable pub write_result : Bytes → FileWrite → Result LicenseError (Unit {0})
write_result dst complete = ok tt
write_result dst unopened = err (write_failed dst)
write_result dst (partly s) = err (write_failed dst)

-- The function that WalkDir calls.
unfoldable pub install_entry : Bytes → LicenseEntry → Disk → Result LicenseError (Unit {0}) × Disk
unfolding write_result
install_entry root walk_error d = (err walk_failed, d)
install_entry root (directory path made) d =
    (if made then ok tt else err (mkdir_failed (join (root ∷ path ∷ []))), d)
install_entry root (license path none w) d = (err (read_failed path), d)
install_entry root (license path (some content) w) d =
    let dst = join (root ∷ path ∷ []) in (write_result dst w, write_file dst content w d)

-- The walk stops at the first error.
unfoldable pub walk_on :
    (Disk → Result LicenseError (Unit {0}) × Disk)
    → Result LicenseError (Unit {0}) × Disk
    → Result LicenseError (Unit {0}) × Disk
walk_on rest (err e, d) = (err e, d)
walk_on rest (ok _, d) = rest d

unfoldable pub install_entries :
    Bytes → List LicenseEntry → Disk → Result LicenseError (Unit {0}) × Disk
unfolding walk_on install_entry
install_entries root [] d = (ok tt, d)
install_entries root (e ∷ es) d = walk_on (install_entries root es) (install_entry root e d)

unfoldable pub install_licenses :
    Bytes → List LicenseEntry → Disk → Result LicenseError (Unit {0}) × Disk
unfolding install_entries
install_licenses home entries d = install_entries (licenses_root home) entries d
