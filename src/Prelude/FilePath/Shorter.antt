-- ===== src/Prelude/FilePath/Shorter.antt =====
-- A cleaned path is no longer than the path.
use runed.Prelude.Tests.{◌==◌, Bool-cases}
use runed.Prelude.Strings.{Bytes, bytes_eq}
use runed.Prelude.Lists.{length, length-append}
use runed.Prelude.FilePath.{
  join, split_slash, join_slash, cons_head, go_up, clean_step, clean_loop, clean_elements, clean,
}
use Prim.Native.Nat.{ℕ, suc, ◌+◌, ◌-◌, ◌≤◌}
use mathlib.Core.Bool.{Bool, true, false}
use mathlib.Core.List.{List, [], ◌∷◌, ◌++◌, reverse, reverse-append}
use mathlib.Core.Logic.{inl, inr}
use mathlib.Core.Path.{◌≡◌, refl}
use native.Mathlib.Omega.{arith}

-- The bytes of the elements, with a slash for each.
abbrev weight : List Bytes → ℕ
weight [] = 0
weight (s ∷ ss) = suc (length s + weight ss)

weight-cons_head :
    (c n : ℕ) (ss : List Bytes) → weight ss ≡ suc n → weight (cons_head c ss) ≡ suc (suc n)
unfolding cons_head
weight-cons_head c n [] h = absurd (omega arith)
weight-cons_head c n (s ∷ ss) h = omega arith

weight-split_slash : (s : Bytes) → weight (split_slash s) ≡ suc (length s)
unfolding split_slash
weight-split_slash [] = refl
weight-split_slash (c ∷ s) =
    let ih = weight-split_slash s in
    elim (Bool-cases (c == b'/')) [
      | inl e ↦ rw e (omega arith)
      | inr e ↦ rw e (weight-cons_head c (length s) (split_slash s) ih)
    ]

weight-clean_step :
    (r : Bool) (kept : List Bytes) (s : Bytes)
    → weight (clean_step r kept s) ≤ weight kept + suc (length s)
unfolding clean_step go_up bytes_eq
weight-clean_step true [] s = ground arith
weight-clean_step false [] [] = omega arith
weight-clean_step false [] (a ∷ []) = ground arith
weight-clean_step false [] (a ∷ b ∷ s) = ground arith
weight-clean_step r (t ∷ kept) [] = omega arith
weight-clean_step r (t ∷ kept) (a ∷ []) = ground arith
weight-clean_step true (t ∷ kept) (a ∷ b ∷ s) = ground arith
weight-clean_step false (t ∷ kept) (a ∷ b ∷ s) = ground arith

weight-clean_loop :
    (r : Bool) (kept ss : List Bytes) → weight (clean_loop r kept ss) ≤ weight kept + weight ss
unfolding clean_loop
weight-clean_loop r kept [] = omega arith
weight-clean_loop r kept (s ∷ ss) =
    omega (arith, weight-clean_loop r (clean_step r kept s) ss, weight-clean_step r kept s)

weight-append : (xs ys : List Bytes) → weight (xs ++ ys) ≡ weight xs + weight ys
weight-append [] ys = omega arith
weight-append (x ∷ xs) ys = omega (arith, weight-append xs ys)

weight-reverse : (xs : List Bytes) → weight (reverse xs) ≡ weight xs
weight-reverse [] = refl
weight-reverse (x ∷ xs) =
    rw (reverse-append (x ∷ []) xs)
      (omega (arith, weight-append (reverse xs) (x ∷ []), weight-reverse xs))

length-join_slash : (xs : List Bytes) → length (join_slash xs) ≤ weight xs - 1
unfolding join_slash
length-join_slash [] = omega arith
length-join_slash (s ∷ []) = omega arith
length-join_slash (s ∷ t ∷ ss) =
    omega (arith, length-append s (b'/' ∷ join_slash (t ∷ ss)), length-join_slash (t ∷ ss))

weight-loop :
    (r : Bool) (s : Bytes) → weight (reverse (clean_loop r [] (split_slash s))) ≤ suc (length s)
weight-loop r s = omega (
  arith,
  weight-reverse (clean_loop r [] (split_slash s)),
  weight-clean_loop r [] (split_slash s),
  weight-split_slash s,
)

-- The first element of a rooted path is empty and is left out.
rooted_elements :
    (c : ℕ) (s : Bytes)
    → (c == b'/') ≡ true
    → clean_elements (c ∷ s) ≡ reverse (clean_loop true [] (split_slash s))
unfolding clean_elements split_slash clean_loop clean_step
rooted_elements c s h = rw h refl

relative_elements :
    (c : ℕ) (s : Bytes)
    → (c == b'/') ≡ false
    → clean_elements (c ∷ s) ≡ reverse (clean_loop false [] (split_slash (c ∷ s)))
unfolding clean_elements
relative_elements c s h = rw h refl

pub length-clean : (c : ℕ) (s : Bytes) → length (clean (c ∷ s)) ≤ suc (length s)
unfolding clean
length-clean c s = elim (Bool-cases (c == b'/')) [
  | inl e ↦
      let path = reverse (clean_loop true [] (split_slash s)) in
      rw (rooted_elements c s e, e) (omega (arith, length-join_slash path, weight-loop true s))
  | inr e ↦
      let path = reverse (clean_loop false [] (split_slash (c ∷ s))) in
      rw (relative_elements c s e, e)
        (ground (arith, length-join_slash path, weight-loop false (c ∷ s)))
]

pub length-join :
    (a : Bytes) (d : ℕ) (t : Bytes)
    → length (join (a ∷ (d ∷ t) ∷ [])) ≤ length a + suc (suc (length t))
unfolding join join_slash
length-join [] d t = omega (arith, length-clean d t)
length-join (c ∷ s) d t =
    omega (arith, length-clean c (s ++ (b'/' ∷ d ∷ t)), length-append s (b'/' ∷ d ∷ t))
