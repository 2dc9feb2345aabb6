-- ===== src/Server/Methods/Laws.antt =====
-- The two readings of a method path agree.
use runed.Prelude.{◌≡◌, refl, ◌≢◌, sym, ap, ◌∙◌, arith, [], ◌∷◌, ◌++◌, true, Bytes, text}
use runed.Prelude.{bytes_eq, bytes_eq_iff, ◌⊎◌, inl, inr, Bool-cases, ◌==◌, All, if◌then◌else◌, ◌↔◌}
use runed.Server.Methods.{has_suffix, is_embed_method, after_last_slash, short_method}

has_suffix_split :
    (s suffix : Bytes) → has_suffix s suffix ≡ true → (front : Bytes) × (s ≡ front ++ suffix)
unfolding has_suffix
has_suffix_split [] suffix h = ([], (bytes_eq_iff [] suffix).0 h)
has_suffix_split (c ∷ s) suffix h = elim (Bool-cases (bytes_eq (c ∷ s) suffix)) [
  | inl e ↦ ([], (bytes_eq_iff (c ∷ s) suffix).0 e)
  | inr e ↦
      (let (front, q) = has_suffix_split s suffix (ground arith) in (c ∷ front, ap (λ r. c ∷ r) q))
]

has_suffix-append : (front suffix : Bytes) → has_suffix (front ++ suffix) suffix ≡ true
unfolding has_suffix
has_suffix-append [] [] = (bytes_eq_iff [] []).1 refl
has_suffix-append [] (c ∷ s) = ground (arith, bytes_eq_iff (c ∷ s) (c ∷ s))
has_suffix-append (c ∷ front) suffix = ground (arith, has_suffix-append front suffix)

-- A segment has no slash.
abbrev pub IsSegment : Bytes → Type 0
IsSegment name = All (λ c. c ≢ b'/') name

after_last_slash-segment : (kept name : Bytes) → IsSegment name → after_last_slash kept name ≡ kept
unfolding after_last_slash
after_last_slash-segment kept [] h = refl
after_last_slash-segment kept (c ∷ s) h = ground (arith, after_last_slash-segment kept s h.1)

after_last_slash-append :
    (kept front name : Bytes)
    → IsSegment name
    → after_last_slash kept (front ++ (b'/' ∷ name)) ≡ name
unfolding after_last_slash
after_last_slash-append kept [] name h = after_last_slash-segment name name h
after_last_slash-append kept (c ∷ front) name h =
    after_last_slash-append (if c == b'/' then front ++ (b'/' ∷ name) else kept) front name h

suffix_name :
    (front name wanted : Bytes)
    → IsSegment name
    → IsSegment wanted
    → has_suffix (front ++ (b'/' ∷ name)) (b'/' ∷ wanted) ≡ true
    → name ≡ wanted
suffix_name front name wanted h k e =
    let (before, q) = has_suffix_split (front ++ (b'/' ∷ name)) (b'/' ∷ wanted) e in
    sym (after_last_slash-append [] front name h)
    ∙ (ap (after_last_slash []) q ∙ after_last_slash-append [] before wanted k)

has_name :
    (front name wanted : Bytes)
    → name ≡ wanted
    → has_suffix (front ++ (b'/' ∷ name)) (b'/' ∷ wanted) ≡ true
has_name front name wanted e = rw e (has_suffix-append front (b'/' ∷ wanted))

-- The label of a path whose last segment is `name` is `name`, and exactly the paths that end in a
-- segment Embed or EmbedBatch are embed methods.
short_method-append :
    (front name : Bytes)
    → IsSegment name
    → let path = front ++ (b'/' ∷ name) in
      (short_method path ≡ name)
      × ((is_embed_method path ≡ true) ↔ ((name ≡ text "Embed") ⊎ (name ≡ text "EmbedBatch")))
unfolding short_method is_embed_method
short_method-append front name h = (
  after_last_slash-append (front ++ (b'/' ∷ name)) front name h,
  (
    λ e. elim (Bool-cases (has_suffix (front ++ (b'/' ∷ name)) (text "/Embed"))) [
      | inl q ↦ inl (suffix_name front name (text "Embed") h (omega arith) q)
      | inr q ↦ inr (suffix_name front name (text "EmbedBatch") h (omega arith) (rw q at e))
    ],
    λ e. elim e [
      | inl q ↦ rw (has_name front name (text "Embed") q)
      | inr q ↦ ground (arith, has_name front name (text "EmbedBatch") q)
    ],
  ),
)
