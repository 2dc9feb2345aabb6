-- ===== src/Prelude/FilePath/Cleaned.antt =====
-- A rooted path that has been cleaned stays as it is.
use runed.Prelude.Tests.{◌==◌, Bool-cases}
use runed.Prelude.Strings.{Bytes}
use runed.Prelude.Lists.{All}
use runed.Prelude.FilePath.{
  split_slash, join_slash, cons_head, is_rooted, go_up, clean_step, clean_loop, clean_elements,
  clean, join, abs,
}
use runed.Prelude.FilePath.Below.{
  Plain, OneElement, split_slash-OneElement, split_slash-append, is_rooted-cons, All-reverse,
}
use mathlib.Core.Bool.{true}
use mathlib.Core.List.{
  List, [], ◌∷◌, ◌++◌, reverse, reverse-append, reverse-reverse, append-nil, append_assoc,
}
use mathlib.Core.Logic.{inl, inr}
use mathlib.Core.Option.{Option, none, some}
use mathlib.Core.Path.{◌≡◌, refl}
use native.Mathlib.Omega.{arith}

-- A rooted path in its cleaned form.
abbrev pub Cleaned : Bytes → Type 0
Cleaned p = (is_rooted p ≡ true) × (clean p ≡ p)

step-Plain :
    (kept : List Bytes) (s : Bytes)
    → All Plain kept
    → OneElement s
    → All Plain (clean_step true kept s)
unfolding clean_step go_up
step-Plain [] s h o = ground arith
step-Plain (t ∷ kept) s h o = ground arith

pub loop-Plain :
    (kept ss : List Bytes)
    → All Plain kept
    → All OneElement ss
    → All Plain (clean_loop true kept ss)
unfolding clean_loop
loop-Plain kept [] h o = h
loop-Plain kept (s ∷ ss) h o = loop-Plain (clean_step true kept s) ss (step-Plain kept s h o.0) o.1

loop_kept : (kept ss : List Bytes) → All Plain ss → clean_loop true kept ss ≡ reverse ss ++ kept
unfolding clean_loop clean_step
loop_kept kept [] h = refl
loop_kept kept (s ∷ ss) ((o, e, d, u), h) =
    rw
      (
        e,
        d,
        u,
        loop_kept (s ∷ kept) ss h,
        reverse-append (s ∷ []) ss,
        append_assoc (reverse ss) (s ∷ []) kept,
      )
      refl

pub split_slash-one : (s : Bytes) → OneElement s → split_slash s ≡ s ∷ []
unfolding split_slash cons_head
split_slash-one [] o = refl
split_slash-one (c ∷ s) o = elim (Bool-cases (c == b'/')) [
  | inl q ↦ absurd (ground arith)
  | inr q ↦ rw (q, split_slash-one s (ground arith)) refl
]

pub split_slash-join_slash :
    (s : Bytes) (ss : List Bytes)
    → All OneElement (s ∷ ss)
    → split_slash (join_slash (s ∷ ss)) ≡ s ∷ ss
unfolding join_slash
split_slash-join_slash s [] h = split_slash-one s h.0
split_slash-join_slash s (t ∷ ss) h =
    rw
      (
        split_slash-append s (join_slash (t ∷ ss)),
        split_slash-one s h.0,
        split_slash-join_slash t ss h.1,
      )
      refl

loop_elements : (ss : List Bytes) → All Plain ss → reverse (clean_loop true [] ([] ∷ ss)) ≡ ss
unfolding clean_loop clean_step
loop_elements ss h = rw (loop_kept [] ss h, append-nil (reverse ss), reverse-reverse ss) refl

Plain-OneElement : (ss : List Bytes) → All Plain ss → All OneElement ss
Plain-OneElement [] h = tt
Plain-OneElement (s ∷ ss) h = (h.0.0, Plain-OneElement ss h.1)

-- The elements of a rooted path with plain elements are these elements.
pub clean_elements-join_slash :
    (ss : List Bytes) → All Plain ss → clean_elements (b'/' ∷ join_slash ss) ≡ ss
unfolding clean_elements split_slash clean_loop clean_step join_slash
clean_elements-join_slash [] h = refl
clean_elements-join_slash (s ∷ ss) h =
    rw (split_slash-join_slash s ss (Plain-OneElement (s ∷ ss) h)) (loop_elements (s ∷ ss) h)

clean_elements-Plain : (s : Bytes) → All Plain (clean_elements (b'/' ∷ s))
unfolding clean_elements
clean_elements-Plain s =
    let ss = split_slash (b'/' ∷ s) in
    All-reverse Plain (clean_loop true [] ss)
      (loop-Plain [] ss tt (split_slash-OneElement (b'/' ∷ s)))

-- Clean of a rooted path is rooted, and does nothing when it is done again.
pub clean-Cleaned : (p : Bytes) → is_rooted p ≡ true → Cleaned (clean p)
unfolding clean
clean-Cleaned p h =
    let (s, e) = is_rooted-cons p h in
    rw e (
      refl,
      rw (clean_elements-join_slash (clean_elements (b'/' ∷ s)) (clean_elements-Plain s)) refl,
    )

pub join-Cleaned : (d : Bytes) (es : List Bytes) → is_rooted d ≡ true → Cleaned (join (d ∷ es))
unfolding join join_slash
join-Cleaned [] es h = absurd (cc)
join-Cleaned (c ∷ d) [] h = clean-Cleaned (c ∷ d) h
join-Cleaned (c ∷ d) (e ∷ es) h = clean-Cleaned (c ∷ (d ++ (b'/' ∷ join_slash (e ∷ es)))) h

-- filepath.Abs of a rooted path that is cleaned is this path, in any directory.
pub abs-Cleaned : (cwd : Option Bytes) (p : Bytes) → Cleaned p → abs cwd p ≡ some p
unfolding abs
abs-Cleaned none p (h, e) = rw (h, e) refl
abs-Cleaned (some d) p (h, e) = rw (h, e) refl

-- In a rooted directory filepath.Abs always gives such a path.
pub abs-lem :
    (d p : Bytes) → is_rooted d ≡ true → (a : Bytes) × (abs (some d) p ≡ some a) × Cleaned a
unfolding abs
abs-lem d p h = elim (Bool-cases (is_rooted p)) [
  | inl q ↦ (clean p, rw q refl, clean-Cleaned p q)
  | inr q ↦ (join (d ∷ p ∷ []), rw q refl, join-Cleaned d (p ∷ []) h)
]
