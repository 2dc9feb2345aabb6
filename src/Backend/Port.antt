-- ===== src/Backend/Port.antt =====
-- The goroutine of startLocked that reads the child's standard error (internal/backend/llama.go): portRe on
-- each line, and the first port on the channel. Lines are ASCII, `\s` and `\b` are RE2's.
pub mod Found
use runed.Prelude.{
  ℕ, zero, suc, ◌+◌, ◌-◌, ◌*◌, ◌^◌, Bool, true, false, not, ◌&&◌, ◌||◌, List, [], ◌∷◌, Option, none,
  some, Bytes, text, is_digit, value_from, length, lower, leb, ltb, ◌==◌, if◌then◌else◌,
}

-- \w of RE2
abbrev pub is_word : ℕ → Bool
is_word c = is_digit c || (leb b'a' (lower c) && leb (lower c) b'z') || c == b'_'

-- \s of RE2
abbrev pub is_space : ℕ → Bool
is_space c = c == 32 || c == 9 || c == 10 || c == 12 || c == 13

-- \d+ takes as many digits as there are: they, and what follows.
unfoldable pub digits : Bytes → Bytes × Bytes
digits [] = ([], [])
digits (c ∷ s) = let r = digits s in if is_digit c then (c ∷ r.0, r.1) else ([], c ∷ s)

-- \b after a digit. Fewer digits would be followed by one.
abbrev pub at_boundary : Bytes → Bool
at_boundary [] = true
at_boundary (c ∷ s) = not (is_word c)

-- The text after a prefix, with (?i); the prefix is in lower case.
unfoldable pub after_prefix : Bytes → Bytes → Option Bytes
unfolding lower
after_prefix [] s = some s
after_prefix (c ∷ p) [] = none
after_prefix (c ∷ p) (d ∷ s) = let rest = after_prefix p s in if lower d == c then rest else none

unfoldable pub drop_spaces : Bytes → Bytes
drop_spaces [] = []
drop_spaces (c ∷ s) = let rest = drop_spaces s in if is_space c then rest else c ∷ s

abbrev pub non_empty : Bytes → Option Bytes
non_empty [] = none
non_empty (c ∷ s) = some (c ∷ s)

-- :(\d+)\b
unfoldable pub colon_port : Bytes → Option Bytes
unfolding digits
colon_port [] = none
colon_port (c ∷ s) =
    let r = digits s in if c == b':' && at_boundary r.1 then non_empty r.0 else none

unfoldable pub spaced_port : Option Bytes → Option Bytes
unfolding digits drop_spaces
spaced_port none = none
spaced_port (some []) = none
spaced_port (some (c ∷ s)) = if is_space c then non_empty (digits (drop_spaces s)).0 else none

-- port\s+(\d+)
unfoldable pub named_port : Bytes → Option Bytes
unfolding spaced_port after_prefix
named_port s = spaced_port (after_prefix (text "port") s)

abbrev pub or_else : {A : Type 0} → Option A → Option A → Option A
or_else none b = b
or_else (some a) b = some a

-- .*? and the two alternatives: the first place where one matches.
unfoldable pub lazy_port : Bytes → Option Bytes
unfolding colon_port named_port
lazy_port [] = or_else (colon_port []) (named_port [])
lazy_port (c ∷ s) =
    let rest = lazy_port s in or_else (or_else (colon_port (c ∷ s)) (named_port (c ∷ s))) rest

unfoldable pub listening_port : Option Bytes → Option Bytes
unfolding lazy_port
listening_port none = none
listening_port (some s) = lazy_port s

-- portRe.FindStringSubmatch, of which the group that matched is kept: the leftmost match.
unfoldable pub find_port : Bytes → Option Bytes
unfolding listening_port after_prefix
find_port [] = none
find_port (c ∷ s) =
    let rest = find_port s in
    or_else (listening_port (after_prefix (text "listening on ") (c ∷ s))) rest

-- Sscanf with %d of digits: a number that is no int64 is an error, and leaves 0.
unfoldable pub scan_int : Bytes → ℕ
scan_int s = let n = value_from 0 s in if ltb n (2 ^ 63) then n else 0

unfoldable pub scanned : Option Bytes → Option ℕ → Option ℕ
unfolding scan_int
scanned none rest = rest
scanned (some raw) rest = some (scan_int raw)

-- bufio.MaxScanTokenSize: a line that does not fit with its newline ends the scan.
abbrev pub max_scan_token_size : ℕ
max_scan_token_size = 64 * 1024

-- What the channel, with room for one, gives first. A line is without its newline.
unfoldable pub first_port : List Bytes → Option ℕ
unfolding find_port scanned
first_port [] = none
first_port (line ∷ lines) =
    let rest = first_port lines in
    if ltb (length line) max_scan_token_size then scanned (find_port line) rest else none
