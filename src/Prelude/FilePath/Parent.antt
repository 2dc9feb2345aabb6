-- ===== src/Prelude/FilePath/Parent.antt =====
-- The path of an entry, and the directory of the entry, made absolute.
use runed.Prelude.Tests.{◌==◌, Bool-cases, if◌then◌else◌}
use runed.Prelude.Strings.{Bytes, is_empty}
use runed.Prelude.Lists.{All}
use runed.Prelude.FilePath.{
  split_slash, join_slash, is_rooted, clean_step, clean_loop, clean_elements, clean, join, abs, dir,
  through_slash,
}
use runed.Prelude.FilePath.Below.{
  Plain, split_slash-append, split_slash-OneElement, clean_loop-append, is_rooted-cons, join-rooted,
  All-reverse,
}
use runed.Prelude.FilePath.Cleaned.{
  clean-Cleaned, clean_elements-join_slash, split_slash-one, loop-Plain,
}
use runed.Prelude.FilePath.Relative.{clean-Form, descends}
use Prim.Native.Nat.{ℕ}
use mathlib.Core.Bool.{true, false}
use mathlib.Core.List.{List, [], ◌∷◌, ◌++◌, reverse, reverse-reverse, append_assoc}
use mathlib.Core.Logic.{◌⊎◌, inl, inr}
use mathlib.Core.Option.{some}
use mathlib.Core.Path.{◌≡◌, refl, sym, ap, ◌∙◌}
use native.Mathlib.Omega.{arith}

-- The rooted path with these elements, the last one first.
abbrev path_of : List Bytes → Bytes
path_of kept = b'/' ∷ join_slash (reverse kept)

-- What is kept of a path that is read in the working directory.
abbrev elements_in : Bytes → Bytes → List Bytes
elements_in cwd p =
    clean_loop true (if is_rooted p then [] else clean_loop true [] (split_slash cwd))
      (split_slash p)

clean-path_of :
    (p : Bytes) → is_rooted p ≡ true → clean p ≡ path_of (clean_loop true [] (split_slash p))
unfolding clean clean_elements
clean-path_of p h = rw h refl

path_of-elements :
    (kept : List Bytes) → All Plain kept → clean_loop true [] (split_slash (path_of kept)) ≡ kept
unfolding clean_elements
path_of-elements kept h =
    let es : clean_elements (path_of kept) ≡ reverse kept =
      clean_elements-join_slash (reverse kept) (All-reverse Plain kept h) in
    let ks = clean_loop true [] (split_slash (path_of kept)) in
    sym (reverse-reverse ks) ∙ ap reverse es ∙ reverse-reverse kept

join-path_of :
    (d p : Bytes)
    → is_rooted d ≡ true
    → is_empty p ≡ false
    → join (d ∷ p ∷ [])
      ≡ path_of (clean_loop true (clean_loop true [] (split_slash d)) (split_slash p))
join-path_of d p h f =
    let (s, e) = is_rooted-cons d h in
    let q = b'/' ∷ (s ++ (b'/' ∷ p)) in
    rw (e, join-rooted s p f, clean-path_of q refl)
      (ap path_of (
        ap (clean_loop true []) (split_slash-append (b'/' ∷ s) p)
        ∙ clean_loop-append true [] (split_slash (b'/' ∷ s)) (split_slash p)))

elements_in-Plain : (cwd p : Bytes) → All Plain (elements_in cwd p)
elements_in-Plain cwd p =
    let one = split_slash-OneElement p in
    elim (Bool-cases (is_rooted p)) [
      | inl r ↦ rw r (loop-Plain [] (split_slash p) tt one)
      | inr r ↦
          let above = loop-Plain [] (split_slash cwd) tt (split_slash-OneElement cwd) in
          rw r (loop-Plain _ (split_slash p) above one)
    ]

abs-path_of :
    (cwd p : Bytes)
    → is_rooted cwd ≡ true
    → abs (some cwd) (clean p) ≡ some (path_of (elements_in cwd p))
unfolding abs
abs-path_of cwd p h = elim (Bool-cases (is_rooted p)) [
  | inl r ↦ let (c, e) = clean-Cleaned p r in rw (c, e, r) (ap some (clean-path_of p r))
  | inr r ↦
      let (q, f, e) = clean-Form p r in
      let base = clean_loop true [] (split_slash cwd) in
      rw (q, r) (ap some (join-path_of cwd (clean p) h f ∙ ap path_of (e base)))
]

ends_full : (d : Bytes) (c : ℕ) → is_empty (d ++ (c ∷ [])) ≡ false
ends_full [] c = refl
ends_full (x ∷ d) c = refl

through_slash-lem :
    (p : Bytes) → (through_slash p ≡ []) ⊎ ((d : Bytes) × (through_slash p ≡ d ++ (b'/' ∷ [])))
unfolding through_slash
through_slash-lem [] = inl refl
through_slash-lem (c ∷ s) = elim (through_slash-lem s) [
  | inl e ↦ elim (Bool-cases (c == b'/')) [
    | inl q ↦ inr ([], ground arith)
    | inr q ↦ inl (rw (e, q) refl)
  ]
  | inr (d, e) ↦ inr (c ∷ d, rw (e, ends_full d b'/') refl)
]

-- One plain element, below what is kept.
clean_loop-Plain :
    (kept : List Bytes) (n : Bytes) → Plain n → clean_loop true kept (split_slash n) ≡ n ∷ kept
unfolding clean_loop
clean_loop-Plain kept n (o, e, d, u) =
    rw (split_slash-one n o) (descends true kept n (ground arith) u)

-- An entry of a directory is kept on top of what the directory keeps.
clean_loop-entry :
    (base : List Bytes) (p n : Bytes)
    → Plain n
    → let d = through_slash p in
      clean_loop true base (split_slash (d ++ n)) ≡ n ∷ clean_loop true base (split_slash d)
unfolding clean_loop clean_step split_slash
clean_loop-entry base p n h = elim (through_slash-lem p) [
  | inl e ↦ rw e (clean_loop-Plain base n h)
  | inr (d, e) ↦
      let above = clean_loop true base (split_slash d) in
      let twice : clean_loop true base (split_slash (d ++ (b'/' ∷ n))) ≡ n ∷ above =
        rw (split_slash-append d n, clean_loop-append true base (split_slash d) (split_slash n))
          (clean_loop-Plain above n h) in
      let once : clean_loop true base (split_slash (d ++ (b'/' ∷ []))) ≡ above =
        rw (split_slash-append d [], clean_loop-append true base (split_slash d) ([] ∷ [])) refl in
      rw (e, append_assoc d (b'/' ∷ []) n, twice, once) refl
]

Plain-relative : (n : Bytes) → Plain n → is_rooted n ≡ false
Plain-relative [] h = refl
Plain-relative (c ∷ n) h = ground arith

slash_ended : (d n : Bytes) → is_rooted ((d ++ (b'/' ∷ [])) ++ n) ≡ is_rooted (d ++ (b'/' ∷ []))
slash_ended [] n = refl
slash_ended (c ∷ d) n = refl

rooted_entry :
    (p n : Bytes) → Plain n → is_rooted (through_slash p ++ n) ≡ is_rooted (through_slash p)
rooted_entry p n h = elim (through_slash-lem p) [
  | inl e ↦ rw e (Plain-relative n h)
  | inr (d, e) ↦ rw e (slash_ended d n)
]

-- In a rooted directory, the entry `n` of the directory dir(p), made absolute, is p made absolute.
pub abs-dir :
    (cwd p n : Bytes)
    → is_rooted cwd ≡ true
    → Plain n
    → p ≡ through_slash p ++ n
    → (home : Bytes) × (is_rooted home ≡ true)
      × (abs (some cwd) (dir p) ≡ some home)
      × (abs (some cwd) (clean p) ≡ some (join (home ∷ n ∷ [])))
unfolding dir
abs-dir cwd p n h plain e =
    let d = through_slash p in
    let kept = elements_in cwd d in
    let same : elements_in cwd (d ++ n) ≡ n ∷ kept =
      rw (rooted_entry p n plain) (clean_loop-entry _ p n plain) in
    let joined : join (path_of kept ∷ n ∷ []) ≡ path_of (n ∷ kept) =
      join-path_of (path_of kept) n refl plain.1
      ∙ ap path_of (
          ap (λ ks. clean_loop true ks (split_slash n))
            (path_of-elements kept (elements_in-Plain cwd d))
          ∙ clean_loop-Plain kept n plain) in
    (
      path_of kept,
      refl,
      abs-path_of cwd d h,
      rw joined (
          ap (λ q. abs (some cwd) (clean q)) e
          ∙ abs-path_of cwd (d ++ n) h
          ∙ ap (λ ks. some (path_of ks)) same),
    )
