-- ===== src/Prelude/Files.antt =====
-- The regular files of a disk, by path.
use runed.Prelude.Tests.{if◌then◌else◌}
use runed.Prelude.Strings.{Bytes, bytes_eq, bytes_eq_iff}
use mathlib.Core.Option.{Option, some}
use mathlib.Core.Path.{◌≡◌, refl}
use mathlib.Core.Logic.{◌⊎◌, inr}
use native.Mathlib.Omega.{arith}

abbrev pub Disk : Type 0
Disk = Bytes → Option Bytes

-- A write of a whole file, and a removal.
abbrev pub put_file : Disk → Bytes → Option Bytes → Disk
put_file d path content p = if bytes_eq path p then content else d p

-- What a WriteFile leaves: the file, or an error before or after the file was truncated.
pub data FileWrite : Type 0 where
  complete unopened : FileWrite
  partly : Bytes → FileWrite

unfoldable pub write_file : Bytes → Bytes → FileWrite → Disk → Disk
write_file path content complete d = put_file d path (some content)
write_file path content unopened d = d
write_file path content (partly written) d = put_file d path (some written)

pub write_file-elsewhere :
    (path content : Bytes) (w : FileWrite) (d : Disk) (q : Bytes)
    → (path ≡ q) ⊎ (write_file path content w d q ≡ d q)
unfolding write_file
write_file-elsewhere path content complete d q = ground (arith, bytes_eq_iff path q)
write_file-elsewhere path content unopened d q = inr refl
write_file-elsewhere path content (partly s) d q = ground (arith, bytes_eq_iff path q)
