-- ===== src/Bootstrap/Extract.antt =====
-- internal/bootstrap/extract.go: ExtractTarGz and writeOne. gzip and tar give the entries; the outcome
-- of each system call is a parameter. Modes are left out, and of the disk only regular files are kept.
pub mod Confined
use runed.Prelude.{
  Bool, true, false, not, List, [], ◌∷◌, ◌++◌, Option, none, some, Bytes, text, Result, ok, err,
  if◌then◌else◌,
}
use runed.Prelude.FilePath.{join, is_local}
use runed.Prelude.Files.{Disk, put_file}

pub data WriteError : Type 0 where
  open_tmp copy fsync close chmod rename : WriteError

pub data ExtractError : Type 0 where
  open_archive gzip_reader mkdir_dest abs_dest tar_next : ExtractError
  mkdir_entry mkdir_parent : Bytes → ExtractError
  write_failed : Bytes → WriteError → ExtractError

-- TypeReg stands for TypeRegA too.
pub data Typeflag : Type 0 where
  type_dir type_reg type_other : Typeflag

-- Whether the calls for an entry succeed, and what a copy that fails has written.
pub record EntryCalls : Type 0 where
  pub mkdir_all : Bool
  pub open_tmp : Bool
  pub copy : Bool
  pub partial : Bytes
  pub sync : Bool
  pub close : Bool
  pub chmod : Bool
  pub rename : Bool

pub record Entry : Type 0 where
  pub name : Bytes
  pub typeflag : Typeflag
  pub content : Bytes
  pub calls : EntryCalls

-- What tar.Next gives: the entries, and then the end of the archive or an error.
pub record Archive : Type 0 where
  pub entries : List Entry
  pub ends_in_eof : Bool

-- The calls before the first entry; `abs` is the result of filepath.Abs.
pub record ExtractCalls : Type 0 where
  pub open_archive : Bool
  pub gzip_reader : Bool
  pub mkdir_all : Bool
  pub abs : Option Bytes

-- The list and the error that ExtractTarGz returns, and the disk.
pub record Extraction : Type 0 where
  pub extracted : List Bytes
  pub error : Option ExtractError
  pub disk : Disk

abbrev pub extract_partial : Bytes → Bytes
extract_partial dest = dest ++ text ".extract.partial"

unfoldable pub write_one : Bytes → Entry → Disk → Result WriteError (Unit {0}) × Disk
write_one dest e d =
    let tmp = extract_partial dest in
    let calls = e.calls in
    let written = put_file d tmp (some e.content) in
    if not calls.open_tmp
    then (err open_tmp, d)
    else if not calls.copy
    then (err copy, put_file (put_file d tmp (some calls.partial)) tmp none)
    else if not calls.sync
    then (err fsync, put_file written tmp none)
    else if not calls.close
    then (err close, put_file written tmp none)
    else if not calls.chmod
    then (err chmod, put_file written tmp none)
    else if not calls.rename
    then (err rename, put_file written tmp none)
    else (ok tt, put_file (put_file written dest (some e.content)) tmp none)

-- What becomes of an entry: it is passed over or a directory, a file at a path, or the end.
pub data Outcome : Type 0 where
  passed : Outcome
  wrote : Bytes → Outcome
  failed : ExtractError → Outcome

unfoldable pub write_outcome : Bytes → Bytes → Result WriteError (Unit {0}) × Disk → Outcome × Disk
write_outcome name dest (ok _, d) = (wrote dest, d)
write_outcome name dest (err x, d) = (failed (write_failed name x), d)

-- The switch on the type of a local entry.
unfoldable pub extract_local : Bytes → Entry → Typeflag → Disk → Outcome × Disk
unfolding write_one write_outcome
extract_local dest e type_dir d =
    if e.calls.mkdir_all then (passed, d) else (failed (mkdir_entry dest), d)
extract_local dest e type_reg d =
    if e.calls.mkdir_all
    then write_outcome e.name dest (write_one dest e d)
    else (failed (mkdir_parent dest), d)
extract_local dest e type_other d = (passed, d)

-- One turn of the loop.
unfoldable pub extract_entry : Bytes → Entry → Disk → Outcome × Disk
unfolding extract_local
extract_entry dest_abs e d =
    if is_local e.name
    then extract_local (join (dest_abs ∷ e.name ∷ [])) e e.typeflag d
    else (passed, d)

-- Up to the next turn, which is `go_on`.
unfoldable pub after_entry :
    (List Bytes → Disk → Extraction) → List Bytes → Outcome × Disk → Extraction
after_entry go_on extracted (passed, d) = go_on extracted d
after_entry go_on extracted (wrote p, d) = go_on (extracted ++ (p ∷ [])) d
after_entry go_on extracted (failed x, d) = record {
  extracted = extracted;
  error = some x;
  disk = d;
}

unfoldable pub extract_loop : Bytes → Bool → List Entry → List Bytes → Disk → Extraction
unfolding after_entry extract_entry
extract_loop dest_abs eof [] extracted d = record {
  extracted = extracted;
  error = if eof then none else some tar_next;
  disk = d;
}
extract_loop dest_abs eof (e ∷ es) extracted d =
    after_entry (extract_loop dest_abs eof es) extracted (extract_entry dest_abs e d)

unfoldable pub extract_failed : ExtractError → Disk → Extraction
extract_failed x d = record { extracted = []; error = some x; disk = d }

unfoldable pub extract_to : Option Bytes → Archive → Disk → Extraction
unfolding extract_loop extract_failed
extract_to none archive d = extract_failed abs_dest d
extract_to (some dest_abs) archive d =
    extract_loop dest_abs archive.ends_in_eof archive.entries [] d

unfoldable pub extract_tar_gz : ExtractCalls → Archive → Disk → Extraction
unfolding extract_to extract_failed
extract_tar_gz calls archive d =
    if not calls.open_archive
    then extract_failed open_archive d
    else if not calls.gzip_reader
    then extract_failed gzip_reader d
    else if not calls.mkdir_all
    then extract_failed mkdir_dest d
    else extract_to calls.abs archive d
