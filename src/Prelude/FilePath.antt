-- ===== src/Prelude/FilePath.antt =====
-- path/filepath of Go on Unix: Clean, Join, Dir and Base, on the bytes of a path.
pub mod Below
pub mod Cleaned
pub mod Parent
pub mod Relative
pub mod Shorter
use runed.Prelude.Tests.{◌==◌, if◌then◌else◌}
use runed.Prelude.Strings.{Bytes, text, is_empty, bytes_eq}
use Prim.Native.Nat.{ℕ}
use mathlib.Core.Bool.{Bool, true, false, not, ◌&&◌, ◌||◌}
use mathlib.Core.List.{List, [], ◌∷◌, ◌++◌, reverse}
use mathlib.Core.Option.{Option, none, some}
use mathlib.Core.Path.{◌≡◌, refl}

cons_head : ℕ → List Bytes → List Bytes
cons_head c [] = (c ∷ []) ∷ []
cons_head c (s ∷ ss) = (c ∷ s) ∷ ss

-- strings.Split(s, "/")
unfoldable pub split_slash : Bytes → List Bytes
unfolding cons_head
split_slash [] = [] ∷ []
split_slash (c ∷ s) = let rest = split_slash s in if c == b'/' then [] ∷ rest else cons_head c rest

-- strings.Join(elems, "/")
unfoldable pub join_slash : List Bytes → Bytes
join_slash [] = []
join_slash (s ∷ []) = s
join_slash (s ∷ t ∷ ss) = s ++ (b'/' ∷ join_slash (t ∷ ss))

abbrev pub is_rooted : Bytes → Bool
is_rooted [] = false
is_rooted (c ∷ s) = c == b'/'

-- ".." on the elements kept so far, the last one first.
unfoldable pub go_up : Bool → List Bytes → List Bytes
go_up true [] = []
go_up false [] = text ".." ∷ []
go_up rooted (top ∷ kept) = if bytes_eq top (text "..") then text ".." ∷ top ∷ kept else kept

unfoldable pub clean_step : Bool → List Bytes → Bytes → List Bytes
unfolding go_up bytes_eq
clean_step rooted kept s =
    if is_empty s || bytes_eq s (text ".")
    then kept
    else if bytes_eq s (text "..")
    then go_up rooted kept
    else s ∷ kept

unfoldable pub clean_loop : Bool → List Bytes → List Bytes → List Bytes
unfolding clean_step
clean_loop rooted kept [] = kept
clean_loop rooted kept (s ∷ ss) = clean_loop rooted (clean_step rooted kept s) ss

-- The elements of a path's cleaned form.
unfoldable pub clean_elements : Bytes → List Bytes
unfolding clean_loop split_slash
clean_elements path = reverse (clean_loop (is_rooted path) [] (split_slash path))

unfoldable pub clean : Bytes → Bytes
unfolding clean_elements join_slash
clean path =
    let rooted = is_rooted path in
    let out = join_slash (clean_elements path) in
    if rooted then b'/' ∷ out else if is_empty out then text "." else out

abbrev drop_empty : List Bytes → List Bytes
drop_empty [] = []
drop_empty ([] ∷ ss) = drop_empty ss
drop_empty ((c ∷ s) ∷ ss) = (c ∷ s) ∷ ss

abbrev clean_all : List Bytes → Bytes
clean_all [] = []
clean_all (s ∷ ss) = clean (join_slash (s ∷ ss))

-- filepath.Join(elems...)
unfoldable pub join : List Bytes → Bytes
unfolding clean
join elems = clean_all (drop_empty elems)

-- filepath.Abs(path), with the working directory as os.Getwd gives it, or its error.
unfoldable pub abs : Option Bytes → Bytes → Option Bytes
abs none path = if is_rooted path then some (clean path) else none
abs (some cwd) path = some (if is_rooted path then clean path else join (cwd ∷ path ∷ []))

-- The part up to the last slash, with it: nothing where there is none.
unfoldable pub through_slash : Bytes → Bytes
through_slash [] = []
through_slash (c ∷ s) =
    let rest = through_slash s in
    if is_empty rest then (if c == b'/' then c ∷ [] else []) else c ∷ rest

-- filepath.Dir(path)
unfoldable pub dir : Bytes → Bytes
unfolding clean through_slash
dir path = clean (through_slash path)

-- The part after the last slash, or all of it.
unfoldable pub after_slash : Bytes → Bytes → Bytes
after_slash kept [] = kept
after_slash kept (c ∷ s) = after_slash (if c == b'/' then s else kept) s

-- The element that was kept first is "..".
unfoldable pub starts_up : List Bytes → Bool
unfolding bytes_eq
starts_up [] = false
starts_up (s ∷ []) = bytes_eq s (text "..")
starts_up (s ∷ t ∷ ss) = starts_up (t ∷ ss)

-- filepath.IsLocal(path): not empty, not rooted, and the cleaned path is not ".." or below it.
unfoldable pub is_local : Bytes → Bool
unfolding starts_up clean_loop split_slash
is_local path =
    not (is_empty path)
    && (not (is_rooted path) && not (starts_up (clean_loop false [] (split_slash path))))

join_demo : join (text "/home/u/" ∷ text "../v//x" ∷ text "./cache" ∷ []) ≡ text "/home/v/x/cache"
unfolding join
join_demo = refl

dir_demo :
    (dir (text "/a/b/c.sock") ≡ text "/a/b")
    × (dir (text "c") ≡ text ".")
    × (dir (text "/c") ≡ text "/")
unfolding dir clean
dir_demo = (refl, refl, refl)
