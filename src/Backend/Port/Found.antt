-- ===== src/Backend/Port/Found.antt =====
-- The port that llama-server logs is the one that is found.
use runed.Prelude.{
  ℕ, ◌+◌, ◌^◌, ◌<◌, ◌≤◌, ltb, length, length-append, length-itoa, ◌≡◌, refl, ap, arith, Bool, true,
  false, not, ◌&&◌, List, [], ◌∷◌, ◌++◌, Option, none, some, Bytes, text, itoa, AllDigits,
  itoa-AllDigits, itoa_non_empty, value_from-itoa, ◌∙◌, ◌≢◌, ◌==◌, lower,
}
use runed.Backend.Port.{
  digits, drop_spaces, after_prefix, non_empty, named_port, or_else, lazy_port, find_port, scan_int,
  scanned, first_port, max_scan_token_size,
}

-- A byte of a host name: neither a colon nor a `p`.
abbrev is_plain : ℕ → Bool
is_plain c = not (c == b':') && not (lower c == b'p')

abbrev pub IsPlain : Bytes → Type 0
IsPlain [] = Unit
IsPlain (c ∷ s) = (is_plain c ≡ true) × IsPlain s

digits-AllDigits : (s : Bytes) → AllDigits s → digits s ≡ (s, [])
unfolding digits
digits-AllDigits [] h = refl
digits-AllDigits (c ∷ s) h = ground (arith, digits-AllDigits s h.1)

unnamed : (c : ℕ) (s : Bytes) → (lower c == b'p') ≡ false → named_port (c ∷ s) ≡ none
unfolding named_port after_prefix
unnamed c s h = ground arith

non_empty-some : (s : Bytes) → s ≢ [] → non_empty s ≡ some s
non_empty-some [] h = absurd (h refl)
non_empty-some (c ∷ s) h = refl

drop_spaces-AllDigits : (s : Bytes) → AllDigits s → drop_spaces s ≡ s
unfolding drop_spaces
drop_spaces-AllDigits [] h = refl
drop_spaces-AllDigits (c ∷ s) h = ground arith

-- Nothing matches at such a byte.
lazy_port-plain : (c : ℕ) (s : Bytes) → is_plain c ≡ true → lazy_port (c ∷ s) ≡ lazy_port s
unfolding lazy_port
lazy_port-plain c s h = ground (arith, unnamed c s)

lazy_port-host : (host s : Bytes) → IsPlain host → lazy_port (host ++ s) ≡ lazy_port s
lazy_port-host [] s h = refl
lazy_port-host (c ∷ host) s h = lazy_port-plain c (host ++ s) h.0 ∙ lazy_port-host host s h.1

lazy_port-colon : (s : Bytes) → AllDigits s → s ≢ [] → lazy_port (b':' ∷ s) ≡ some s
unfolding lazy_port
lazy_port-colon s h e = ground (arith, digits-AllDigits s h, non_empty-some s e)

lazy_port-named : (s : Bytes) → AllDigits s → s ≢ [] → lazy_port (text ", port " ++ s) ≡ some s
unfolding lazy_port
lazy_port-named s h e =
    ground (arith, drop_spaces-AllDigits s h, digits-AllDigits s h, non_empty-some s e)

-- The two forms of the line, with the host and the port that the child has chosen.
abbrev pub logged : Bytes → ℕ → Bytes
logged host p = text "main: server is listening on http://" ++ (host ++ (b':' ∷ itoa p))

abbrev pub logged_named : Bytes → ℕ → Bytes
logged_named host p = text "HTTP server listening on host " ++ (host ++ (text ", port " ++ itoa p))

or_else-some : {A : Type 0} (o b : Option A) (a : A) → o ≡ some a → or_else o b ≡ some a
or_else-some o b a e = rw e refl

find_port-logged : (host : Bytes) (p : ℕ) → IsPlain host → find_port (logged host p) ≡ some (itoa p)
unfolding find_port
find_port-logged host p h = or_else-some _ _ (itoa p) (
    lazy_port-host host (b':' ∷ itoa p) h
    ∙ lazy_port-colon (itoa p) (itoa-AllDigits p) (itoa_non_empty p))

find_port-logged_named :
    (host : Bytes) (p : ℕ) → IsPlain host → find_port (logged_named host p) ≡ some (itoa p)
unfolding find_port
find_port-logged_named host p h = or_else-some _ _ (itoa p) (
    lazy_port-host host (text ", port " ++ itoa p) h
    ∙ lazy_port-named (itoa p) (itoa-AllDigits p) (itoa_non_empty p))

scan_int-itoa : (p : ℕ) → p < 2 ^ 63 → scan_int (itoa p) ≡ p
unfolding scan_int
scan_int-itoa p h = ground (arith, value_from-itoa p (omega arith))

-- Lines that the scanner passes over: they fit, and no port is found in them.
abbrev pub Silent : List Bytes → Type 0
Silent [] = Unit
Silent (l ∷ ls) = ((length l < max_scan_token_size) × (find_port l ≡ none)) × Silent ls

fits : (a b : ℕ) → a < b → ltb a b ≡ true
fits a b h = ground arith

first_port-Silent :
    (before : List Bytes) (line : Bytes) (after : List Bytes) (p : ℕ)
    → Silent before
    → length line < max_scan_token_size
    → find_port line ≡ some (itoa p)
    → p < 2 ^ 63
    → first_port (before ++ line ∷ after) ≡ some p
unfolding first_port scanned
first_port-Silent [] line after p h f e b = rw (fits _ _ f, e) (ap some (scan_int-itoa p b))
first_port-Silent (l ∷ before) line after p h f e b =
    rw (fits _ _ h.0.0, h.0.1) (first_port-Silent before line after p h.1 f e b)

length-logged : (host : Bytes) (p : ℕ) → length (logged host p) ≤ length host + 60
length-logged host p = omega (arith, length-append host (b':' ∷ itoa p), length-itoa p)

length-logged_named : (host : Bytes) (p : ℕ) → length (logged_named host p) ≤ length host + 60
length-logged_named host p =
    omega (arith, length-append host (text ", port " ++ itoa p), length-itoa p)

-- Whatever llama-server logs before it in lines of less than 64 KiB where portRe finds nothing, and
-- whatever after: of a line that tells its port in one of the two known forms, for a host name of at most
-- 60000 bytes without a colon or a `p`, that port is the first that the reader of the log sends to
-- startLocked.
pub first_port-logged :
    (before after : List Bytes) (host : Bytes) (p : ℕ)
    → Silent before
    → IsPlain host
    → length host ≤ 60000
    → p < 2 ^ 63
    → (first_port (before ++ logged host p ∷ after) ≡ some p)
      × (first_port (before ++ logged_named host p ∷ after) ≡ some p)
first_port-logged before after host p quiet plain short h = (
  first_port-Silent before (logged host p) after p quiet (omega (arith, length-logged host p))
      (find_port-logged host p plain) h,
  first_port-Silent before (logged_named host p) after p quiet
      (omega (arith, length-logged_named host p)) (find_port-logged_named host p plain) h,
)
