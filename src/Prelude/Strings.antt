-- ===== src/Prelude/Strings.antt =====
-- Go's strings and byte slices: lists of bytes. Text literals are ASCII.
use runed.Prelude.Lists.{length}
use Prim.Native.Nat.{ℕ, zero, suc, ◌+◌, ◌-◌, ◌*◌, ◌/◌, ◌%◌, ◌^◌, ◌≤◌, ◌<◌}
use Prim.Native.Char.{code}
use Prim.Native.String.{String}
use mathlib.Core.Path.{◌≡◌, refl, ap, ◌∙◌}
use mathlib.Core.Logic.{◌↔◌, ◌≢◌, inl, inr}
use mathlib.Core.Bool.{Bool, true, false, ◌&&◌}
use mathlib.Core.List.{List, [], ◌∷◌}
use native.Mathlib.Nat.{pow-suc}
use native.Mathlib.Omega.{arith}
use runed.Prelude.Tests.{◌==◌, leb, ltb, Bool-cases, if◌then◌else◌}

abbrev pub Bytes : Type 0
Bytes = List ℕ

-- The bytes of a literal.
abbrev pub text : String → Bytes
text String.[] = []
text (String.◌∷◌ c s) = code c ∷ text s

-- s == ""
abbrev pub is_empty : Bytes → Bool
is_empty [] = true
is_empty (c ∷ s) = false

-- s == t
unfoldable pub bytes_eq : Bytes → Bytes → Bool
bytes_eq [] [] = true
bytes_eq [] (d ∷ t) = false
bytes_eq (c ∷ s) [] = false
bytes_eq (c ∷ s) (d ∷ t) = c == d && bytes_eq s t

pub bytes_eq_iff : (s t : Bytes) → (bytes_eq s t ≡ true) ↔ (s ≡ t)
unfolding bytes_eq
bytes_eq_iff [] [] = (λ _. refl, λ _. refl)
bytes_eq_iff [] (d ∷ t) = (λ h. cc, λ h. cc)
bytes_eq_iff (c ∷ s) [] = (λ h. cc, λ h. cc)
bytes_eq_iff (c ∷ s) (d ∷ t) = ground (arith, bytes_eq_iff s t)

-- An ASCII letter in lower case.
unfoldable pub lower : ℕ → ℕ
lower c = if leb b'A' c && leb c b'Z' then c + 32 else c

-- strings.EqualFold on ASCII text.
unfoldable pub equal_fold : Bytes → Bytes → Bool
unfolding lower
equal_fold [] [] = true
equal_fold [] (d ∷ t) = false
equal_fold (c ∷ s) [] = false
equal_fold (c ∷ s) (d ∷ t) = lower c == lower d && equal_fold s t

abbrev pub is_digit : ℕ → Bool
is_digit c = leb b'0' c && leb c b'9'

-- The number that digits write, after one that was read before.
abbrev pub value_from : ℕ → Bytes → ℕ
value_from n [] = n
value_from n (c ∷ s) = value_from (n * 10 + (c - b'0')) s

decimal : ℕ → ℕ → Bytes → Bytes
decimal zero n digits = digits
decimal (suc f) n digits =
    let d = b'0' + n % 10 in
    let more = decimal f (n / 10) (d ∷ digits) in if ltb n 10 then d ∷ digits else more

-- strconv.Itoa of a number that is not negative. A 64-bit integer has at most 20 digits.
unfoldable pub itoa : ℕ → Bytes
unfolding decimal
itoa n = decimal 20 n []

length-decimal : (f n : ℕ) (digits : Bytes) → length (decimal f n digits) ≤ length digits + f
unfolding decimal
length-decimal zero n digits = omega arith
length-decimal (suc f) n digits =
    ground (arith, length-decimal f (n / 10) ((b'0' + n % 10) ∷ digits))

pub length-itoa : (n : ℕ) → length (itoa n) ≤ 20
unfolding itoa
length-itoa n = length-decimal 20 n []

abbrev pub AllDigits : Bytes → Type 0
AllDigits [] = Unit
AllDigits (c ∷ s) = (is_digit c ≡ true) × AllDigits s

last_digit-is_digit : (n : ℕ) → is_digit (b'0' + n % 10) ≡ true
last_digit-is_digit n = ground arith

decimal-AllDigits : (f n : ℕ) (s : Bytes) → AllDigits s → AllDigits (decimal f n s)
unfolding decimal
decimal-AllDigits zero n s h = h
decimal-AllDigits (suc f) n s h = elim (Bool-cases (ltb n 10)) [
  | inl e ↦ rw e (last_digit-is_digit n, h)
  | inr e ↦ rw e (decimal-AllDigits f (n / 10) ((b'0' + n % 10) ∷ s) (last_digit-is_digit n, h))
]

pub itoa-AllDigits : (n : ℕ) → AllDigits (itoa n)
unfolding itoa
itoa-AllDigits n = decimal-AllDigits 20 n [] tt

tenth : (f n : ℕ) → n < 10 ^ suc f → n / 10 < 10 ^ f
tenth f n h = omega (arith, pow-suc 10 f)

value_from-decimal :
    (f n : ℕ) (s : Bytes) → n < 10 ^ f → value_from 0 (decimal f n s) ≡ value_from n s
unfolding decimal
value_from-decimal zero n s h = ap (λ k. value_from k s) (omega arith)
value_from-decimal (suc f) n s h = elim (Bool-cases (ltb n 10)) [
  | inl e ↦ rw e (ap (λ k. value_from k s) (ground arith))
  | inr e ↦ rw e (
      value_from-decimal f (n / 10) ((b'0' + n % 10) ∷ s) (tenth f n h)
      ∙ ap (λ k. value_from k s) (omega arith))
]

pub value_from-itoa : (n : ℕ) → n < 10 ^ 20 → value_from 0 (itoa n) ≡ n
unfolding itoa
value_from-itoa n h = value_from-decimal 20 n [] h

decimal_non_empty : (f n c : ℕ) (s : Bytes) → decimal f n (c ∷ s) ≢ []
unfolding decimal
decimal_non_empty zero n c s = λ e. cc
decimal_non_empty (suc f) n c s = elim (Bool-cases (ltb n 10)) [
  | inl b ↦ rw b (λ e. cc)
  | inr b ↦ rw b (decimal_non_empty f (n / 10) (b'0' + n % 10) (c ∷ s))
]

pub itoa_non_empty : (n : ℕ) → itoa n ≢ []
unfolding itoa decimal
itoa_non_empty n = elim (Bool-cases (ltb n 10)) [
  | inl b ↦ rw b (λ e. cc)
  | inr b ↦ rw b (decimal_non_empty 19 (n / 10) (b'0' + n % 10) [])
]
