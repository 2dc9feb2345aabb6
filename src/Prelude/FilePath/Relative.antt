-- ===== src/Prelude/FilePath/Relative.antt =====
-- A relative path means the same below a directory after it has been cleaned.
use runed.Prelude.Tests.{Bool-cases, if◌then◌else◌}
use runed.Prelude.Strings.{Bytes, text, is_empty, bytes_eq}
use runed.Prelude.Lists.{All}
use runed.Prelude.FilePath.{
  split_slash, join_slash, is_rooted, go_up, clean_step, clean_loop, clean_elements, clean,
}
use runed.Prelude.FilePath.Below.{
  OneElement, split_slash-OneElement, clean_loop-append, All-reverse,
}
use runed.Prelude.FilePath.Cleaned.{split_slash-join_slash}
use Prim.Native.Nat.{ℕ}
use mathlib.Core.Bool.{◌||◌, Bool, true, false}
use mathlib.Core.List.{List, [], ◌∷◌, ◌++◌, reverse, reverse-append}
use mathlib.Core.Logic.{inl, inr}
use mathlib.Core.Path.{◌≡◌, refl, ◌∙◌}
use native.Mathlib.Omega.{arith}

-- What a relative path keeps: the name of an entry, or "..".
abbrev Named : Bytes → Type 0
Named s = OneElement s × (is_empty s ≡ false) × (bytes_eq s (text ".") ≡ false)

step-Named :
    (kept : List Bytes) (s : Bytes)
    → All Named kept
    → OneElement s
    → All Named (clean_step false kept s)
unfolding clean_step go_up
step-Named [] s h o = ground arith
step-Named (t ∷ kept) s h o = ground arith

loop-Named :
    (kept ss : List Bytes)
    → All Named kept
    → All OneElement ss
    → All Named (clean_loop false kept ss)
unfolding clean_loop
loop-Named kept [] h o = h
loop-Named kept (s ∷ ss) h o = loop-Named (clean_step false kept s) ss (step-Named kept s h o.0) o.1

-- Elements are read one after another.
clean_loop-reverse :
    (base : List Bytes) (t : Bytes) (kept : List Bytes)
    → clean_loop true base (reverse (t ∷ kept))
      ≡ clean_step true (clean_loop true base (reverse kept)) t
unfolding clean_loop
clean_loop-reverse base t kept =
    rw (reverse-append (t ∷ []) kept, clean_loop-append true base (reverse kept) (t ∷ [])) refl

-- The three things that an element does.
skips :
    (r : Bool) (kept : List Bytes) (s : Bytes)
    → (is_empty s || bytes_eq s (text ".")) ≡ true
    → clean_step r kept s ≡ kept
unfolding clean_step
skips r kept s h = rw h refl

goes_up :
    (r : Bool) (kept : List Bytes) (s : Bytes)
    → (is_empty s || bytes_eq s (text ".")) ≡ false
    → bytes_eq s (text "..") ≡ true
    → clean_step r kept s ≡ go_up r kept
unfolding clean_step
goes_up r kept s h u = rw (h, u) refl

pub descends :
    (r : Bool) (kept : List Bytes) (s : Bytes)
    → (is_empty s || bytes_eq s (text ".")) ≡ false
    → bytes_eq s (text "..") ≡ false
    → clean_step r kept s ≡ s ∷ kept
unfolding clean_step
descends r kept s h u = rw (h, u) refl

go_up_past :
    (r : Bool) (t : Bytes) (kept : List Bytes)
    → bytes_eq t (text "..") ≡ false
    → go_up r (t ∷ kept) ≡ kept
unfolding go_up
go_up_past true t kept u = rw u refl
go_up_past false t kept u = rw u refl

go_up_more :
    (t : Bytes) (kept : List Bytes)
    → bytes_eq t (text "..") ≡ true
    → go_up false (t ∷ kept) ≡ text ".." ∷ t ∷ kept
unfolding go_up
go_up_more t kept u = rw u refl

up_same :
    (base kept : List Bytes)
    → All Named kept
    → clean_loop true base (reverse (go_up false kept))
      ≡ go_up true (clean_loop true base (reverse kept))
unfolding clean_loop go_up bytes_eq
up_same base [] h = goes_up true base (text "..") refl refl
up_same base (t ∷ kept) ((o, e, d), h) = elim (Bool-cases (bytes_eq t (text ".."))) [
  | inl u ↦
      let above = clean_loop true base (reverse (t ∷ kept)) in
      rw (go_up_more t kept u)
        (clean_loop-reverse base (text "..") (t ∷ kept) ∙ goes_up true above (text "..") refl refl)
  | inr u ↦
      let above = clean_loop true base (reverse kept) in
      let step : clean_step true above t ≡ t ∷ above = descends true above t (ground arith) u in
      rw
        (go_up_past false t kept u, clean_loop-reverse base t kept, step, go_up_past true t above u)
        refl
]

step_same :
    (base kept : List Bytes) (s : Bytes)
    → All Named kept
    → clean_loop true base (reverse (clean_step false kept s))
      ≡ clean_step true (clean_loop true base (reverse kept)) s
step_same base kept s h =
    let above = clean_loop true base (reverse kept) in
    elim (Bool-cases (is_empty s || bytes_eq s (text "."))) [
      | inl e ↦ rw (skips false kept s e, skips true above s e) refl
      | inr e ↦ elim (Bool-cases (bytes_eq s (text ".."))) [
        | inl u ↦ rw (goes_up false kept s e u, goes_up true above s e u) (up_same base kept h)
        | inr u ↦ rw (descends false kept s e u) (clean_loop-reverse base s kept)
      ]
    ]

loop_same :
    (base kept ss : List Bytes)
    → All Named kept
    → All OneElement ss
    → clean_loop true base (reverse (clean_loop false kept ss))
      ≡ clean_loop true (clean_loop true base (reverse kept)) ss
unfolding clean_loop
loop_same base kept [] h o = refl
loop_same base kept (s ∷ ss) h o =
    rw (← (step_same base kept s h))
      (loop_same base (clean_step false kept s) ss (step-Named kept s h o.0) o.1)

Named-OneElement : (ss : List Bytes) → All Named ss → All OneElement ss
Named-OneElement [] h = tt
Named-OneElement (s ∷ ss) h = (h.0.0, Named-OneElement ss h.1)

-- A relative path that means the same below any directory as the elements `es`.
abbrev pub Form : List Bytes → Bytes → Type 0
Form es p =
    (is_rooted p ≡ false)
    × (is_empty p ≡ false)
    × ((base : List Bytes) → clean_loop true base (split_slash p) ≡ clean_loop true base es)

join_slash-head :
    (c : ℕ) (s : Bytes) (ss : List Bytes) → (p : Bytes) × (join_slash ((c ∷ s) ∷ ss) ≡ c ∷ p)
unfolding join_slash
join_slash-head c s [] = (s, refl)
join_slash-head c s (t ∷ ss) = (s ++ (b'/' ∷ join_slash (t ∷ ss)), refl)

elements-Form :
    (es : List Bytes)
    → All Named es
    → let out = join_slash es in Form es (if is_empty out then text "." else out)
unfolding join_slash split_slash clean_loop clean_step bytes_eq
elements-Form [] h = (refl, refl, λ base. refl)
elements-Form ([] ∷ ss) h = absurd (ground arith)
elements-Form ((c ∷ s) ∷ ss) h =
    let (p, e) = join_slash-head c s ss in
    let same = split_slash-join_slash (c ∷ s) ss (Named-OneElement ((c ∷ s) ∷ ss) h) in
    let full : is_empty (join_slash ((c ∷ s) ∷ ss)) ≡ false = rw e refl in
    (rw e (ground arith), rw e refl, λ base. rw (full, same) refl)

-- Clean of a relative path is relative, not empty, and means the same below any directory.
pub clean-Form : (q : Bytes) → is_rooted q ≡ false → Form (split_slash q) (clean q)
unfolding clean clean_elements
clean-Form q h =
    let ss = split_slash q in
    let kept = clean_loop false [] ss in
    let one = split_slash-OneElement q in
    let (relative, full, same) =
      elements-Form (reverse kept) (All-reverse Named kept (loop-Named [] ss tt one)) in
    rw h (relative, full, λ base. same base ∙ loop_same base [] ss tt one)
