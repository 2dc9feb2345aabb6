-- ===== src/Prelude/FilePath/Below.antt =====
-- A local name joined to a directory stays below the directory.
use runed.Prelude.Tests.{◌==◌, Bool-cases}
use runed.Prelude.Strings.{Bytes, text, is_empty, bytes_eq}
use runed.Prelude.Lists.{All}
use runed.Prelude.FilePath.{
  split_slash, join_slash, cons_head, is_rooted, go_up, clean_step, clean_loop, clean_elements,
  clean, starts_up, is_local, join,
}
use Prim.Native.Nat.{ℕ}
use mathlib.Core.Bool.{◌||◌, Bool, true, false}
use mathlib.Core.List.{List, [], ◌∷◌, ◌++◌, reverse, reverse-append}
use mathlib.Core.Logic.{◌⊎◌, inl, inr}
use mathlib.Core.Path.{◌≡◌, refl}
use native.Mathlib.Omega.{arith}

abbrev pub has_slash : Bytes → Bool
has_slash [] = false
has_slash (c ∷ s) = c == b'/' || has_slash s

abbrev pub OneElement : Bytes → Type 0
OneElement s = has_slash s ≡ false

-- An element of a path that names an entry of the directory before it.
abbrev pub Plain : Bytes → Type 0
Plain s =
    (has_slash s ≡ false)
    × (is_empty s ≡ false)
    × (bytes_eq s (text ".") ≡ false)
    × (bytes_eq s (text "..") ≡ false)

-- The path of the directory's cleaned form with further plain elements.
abbrev pub Below : Bytes → Bytes → Type 0
Below dir p =
    (rest : List Bytes) × All Plain rest × (p ≡ b'/' ∷ join_slash (clean_elements dir ++ rest))

split_slash-cons : (s : Bytes) → (h : Bytes) × (t : List Bytes) × (split_slash s ≡ h ∷ t)
unfolding split_slash cons_head
split_slash-cons [] = ([], [], refl)
split_slash-cons (c ∷ s) =
    let (h, t, e) = split_slash-cons s in
    elim (Bool-cases (c == b'/')) [
      | inl q ↦ ([], split_slash s, rw q refl)
      | inr q ↦ (c ∷ h, t, rw (q, e) refl)
    ]

cons_head-OneElement :
    (c : ℕ) (ss : List Bytes)
    → (c == b'/') ≡ false
    → All OneElement ss
    → All OneElement (cons_head c ss)
unfolding cons_head
cons_head-OneElement c [] q h = (ground arith, tt)
cons_head-OneElement c (s ∷ ss) q h = (ground arith, h.1)

pub split_slash-OneElement : (s : Bytes) → All OneElement (split_slash s)
unfolding split_slash
split_slash-OneElement [] = (refl, tt)
split_slash-OneElement (c ∷ s) = elim (Bool-cases (c == b'/')) [
  | inl q ↦ rw q (refl, split_slash-OneElement s)
  | inr q ↦ rw q (cons_head-OneElement c (split_slash s) q (split_slash-OneElement s))
]

pub split_slash-append :
    (s n : Bytes) → split_slash (s ++ (b'/' ∷ n)) ≡ split_slash s ++ split_slash n
unfolding split_slash cons_head
split_slash-append [] n = refl
split_slash-append (c ∷ s) n =
    let (h, t, e) = split_slash-cons s in
    let ih = split_slash-append s n in
    elim (Bool-cases (c == b'/')) [ inl q ↦ rw (q, ih) refl | inr q ↦ rw (q, ih, e) refl ]

pub clean_loop-append :
    (r : Bool) (kept xs ys : List Bytes)
    → clean_loop r kept (xs ++ ys) ≡ clean_loop r (clean_loop r kept xs) ys
unfolding clean_loop
clean_loop-append r kept [] ys = refl
clean_loop-append r kept (x ∷ xs) ys = clean_loop-append r (clean_step r kept x) xs ys

-- Once ".." is kept first it stays.
starts_up-step :
    (kept : List Bytes) (s : Bytes)
    → starts_up kept ≡ true
    → starts_up (clean_step false kept s) ≡ true
unfolding starts_up clean_step go_up
starts_up-step [] s h = absurd (cc)
starts_up-step (t ∷ []) s h = ground arith
starts_up-step (t ∷ u ∷ kept) s h = ground arith

starts_up-loop :
    (kept ss : List Bytes) → starts_up kept ≡ true → starts_up (clean_loop false kept ss) ≡ true
unfolding clean_loop
starts_up-loop kept [] h = h
starts_up-loop kept (s ∷ ss) h =
    starts_up-loop (clean_step false kept s) ss (starts_up-step kept s h)

-- One element, on plain elements above others: both loops do the same, or the relative one goes up.
step_above :
    (kept base : List Bytes) (s : Bytes)
    → All Plain kept
    → OneElement s
    → ((clean_step true (kept ++ base) s ≡ clean_step false kept s ++ base)
        × All Plain (clean_step false kept s))
      ⊎ (starts_up (clean_step false kept s) ≡ true)
unfolding clean_step go_up starts_up
step_above [] base s h o = ground arith
step_above (t ∷ kept) base s h o = ground arith

loop_above :
    (kept base ss : List Bytes)
    → All Plain kept
    → All OneElement ss
    → ((clean_loop true (kept ++ base) ss ≡ clean_loop false kept ss ++ base)
        × All Plain (clean_loop false kept ss))
      ⊎ (starts_up (clean_loop false kept ss) ≡ true)
unfolding clean_loop
loop_above kept base [] h o = inl (refl, h)
loop_above kept base (s ∷ ss) h o = elim (step_above kept base s h o.0) [
  | inl (e, q) ↦ rw e (loop_above (clean_step false kept s) base ss q o.1)
  | inr u ↦ inr (starts_up-loop (clean_step false kept s) ss u)
]

pub is_rooted-cons : (dir : Bytes) → is_rooted dir ≡ true → (s : Bytes) × (dir ≡ b'/' ∷ s)
is_rooted-cons [] h = absurd (cc)
is_rooted-cons (c ∷ s) h = (s, ground arith)

pub All-append : (P : Bytes → Type 0) (xs ys : List Bytes) → All P xs → All P ys → All P (xs ++ ys)
All-append P [] ys h k = k
All-append P (x ∷ xs) ys h k = (h.0, All-append P xs ys h.1 k)

pub All-reverse : (P : Bytes → Type 0) (xs : List Bytes) → All P xs → All P (reverse xs)
All-reverse P [] h = h
All-reverse P (x ∷ xs) h =
    rw (reverse-append (x ∷ []) xs)
      (All-append P (reverse xs) (x ∷ []) (All-reverse P xs h.1) (h.0, tt))

is_local-lem :
    (name : Bytes)
    → is_local name ≡ true
    → (is_empty name ≡ false)
      × (is_rooted name ≡ false)
      × (starts_up (clean_loop false [] (split_slash name)) ≡ false)
unfolding is_local
is_local-lem name h = ground arith

pub join-rooted :
    (s name : Bytes)
    → is_empty name ≡ false
    → join ((b'/' ∷ s) ∷ name ∷ []) ≡ clean (b'/' ∷ (s ++ (b'/' ∷ name)))
unfolding join join_slash
join-rooted s [] h = absurd (cc)
join-rooted s (c ∷ name) h = refl

-- filepath.Join of a rooted directory and a local name is a path below the directory.
pub join-Below :
    (dir name : Bytes)
    → is_rooted dir ≡ true
    → is_local name ≡ true
    → Below dir (join (dir ∷ name ∷ []))
unfolding clean clean_elements
join-Below dir name h l =
    let (s, e) = is_rooted-cons dir h in
    let (full, free, down) = is_local-lem name l in
    let base = clean_loop true [] (split_slash (b'/' ∷ s)) in
    let rel = clean_loop false [] (split_slash name) in
    let (same, plain) : (clean_loop true base (split_slash name) ≡ rel ++ base) × All Plain rel =
      elim (loop_above [] base (split_slash name) tt (split_slash-OneElement name)) [
        | inl r ↦ r
        | inr u ↦ absurd (cc)
      ] in
    (
      reverse rel,
      All-reverse Plain rel plain,
      rw
          (
            e,
            join-rooted s name full,
            split_slash-append (b'/' ∷ s) name,
            clean_loop-append true [] (split_slash (b'/' ∷ s)) (split_slash name),
            same,
            reverse-append rel base,
          )
          refl,
    )
