-- ===== src/Bootstrap/Extract/Confined.antt =====
-- Where an extraction writes.
use runed.Prelude.{
  subst, ◌≡◌, ◌⊎◌, inl, inr, refl, ◌∙◌, arith, Bool, true, false, List, [], ◌∷◌, ◌++◌, some, Bytes,
  bytes_eq, bytes_eq_iff, Result, ok, err, Bool-cases, All,
}
use runed.Prelude.FilePath.{join, is_local, is_rooted}
use runed.Prelude.FilePath.Below.{Below, join-Below}
use runed.Prelude.Files.{Disk}
use runed.Bootstrap.Extract.{
  mkdir_dest, gzip_reader, open_archive, Entry, Archive, Typeflag, type_dir, type_reg, type_other,
  ExtractCalls, Extraction, ExtractError, Outcome, passed, wrote, failed, WriteError,
  extract_partial, write_one, write_outcome, extract_local, extract_entry, after_entry,
  extract_loop, extract_failed, extract_to, extract_tar_gz,
}

-- A path below the directory, or the temporary file of one.
abbrev pub Written : Bytes → Bytes → Type 0
Written dir p = (q : Bytes) × Below dir q × ((p ≡ q) ⊎ (p ≡ extract_partial q))

-- Files elsewhere are as before.
abbrev pub Confined : Bytes → Disk → Disk → Type 0
Confined dir d e = (p : Bytes) → (e p ≡ d p) ⊎ Written dir p

abbrev Wrote : Bytes → Outcome → Type 0
Wrote dir passed = Unit {0}
Wrote dir (wrote p) = Below dir p
Wrote dir (failed x) = Unit {0}

trans-Confined :
    (dir : Bytes) (d e f : Disk) → Confined dir d e → Confined dir e f → Confined dir d f
trans-Confined dir d e f h k p = elim (k p) [
  | inl x ↦ elim (h p) [ inl y ↦ inl (x ∙ y) | inr w ↦ inr w ]
  | inr w ↦ inr w
]

write_one-elsewhere :
    (dest : Bytes) (e : Entry) (d : Disk) (p : Bytes)
    → bytes_eq dest p ≡ false
    → bytes_eq (extract_partial dest) p ≡ false
    → (write_one dest e d).1 p ≡ d p
unfolding write_one
write_one-elsewhere dest e d p h k = ground arith

write_one-Confined :
    (dir dest : Bytes) (e : Entry) (d : Disk)
    → Below dir dest
    → Confined dir d (write_one dest e d).1
write_one-Confined dir dest e d b p = elim (Bool-cases (bytes_eq dest p)) [
  | inl q ↦ inr (p, subst (Below dir) ((bytes_eq_iff dest p).0 q) b, inl refl)
  | inr q ↦ elim (Bool-cases (bytes_eq (extract_partial dest) p)) [
    | inl r ↦ inr (dest, b, inr (ground (arith, bytes_eq_iff (extract_partial dest) p)))
    | inr r ↦ inl (write_one-elsewhere dest e d p q r)
  ]
]

write_outcome-lem :
    (dir name dest : Bytes) (d : Disk) (r : Result WriteError (Unit {0}) × Disk)
    → Below dir dest
    → Confined dir d r.1
    → Confined dir d (write_outcome name dest r).1 × Wrote dir (write_outcome name dest r).0
unfolding write_outcome
write_outcome-lem dir name dest d (ok _, s) b h = (h, b)
write_outcome-lem dir name dest d (err x, s) b h = (h, tt)

extract_local-Confined :
    (dir dest : Bytes) (e : Entry) (t : Typeflag) (d : Disk)
    → Below dir dest
    → Confined dir d (extract_local dest e t d).1 × Wrote dir (extract_local dest e t d).0
unfolding extract_local
extract_local-Confined dir dest e type_dir d b = elim (Bool-cases e.calls.mkdir_all) [
  | inl q ↦ rw q (λ p. inl refl, tt)
  | inr q ↦ rw q (λ p. inl refl, tt)
]
extract_local-Confined dir dest e type_reg d b = elim (Bool-cases e.calls.mkdir_all) [
  | inl q ↦ rw q (
      write_outcome-lem dir e.name dest d (write_one dest e d) b
        (write_one-Confined dir dest e d b))
  | inr q ↦ rw q (λ p. inl refl, tt)
]
extract_local-Confined dir dest e type_other d b = (λ p. inl refl, tt)

extract_entry-Confined :
    (dir : Bytes) (e : Entry) (d : Disk)
    → is_rooted dir ≡ true
    → Confined dir d (extract_entry dir e d).1 × Wrote dir (extract_entry dir e d).0
unfolding extract_entry
extract_entry-Confined dir e d h = elim (Bool-cases (is_local e.name)) [
  | inl q ↦ rw q (
      extract_local-Confined dir (join (dir ∷ e.name ∷ [])) e e.typeflag d
        (join-Below dir e.name h q))
  | inr q ↦ rw q (λ p. inl refl, tt)
]

abbrev ExtractionConfined : Bytes → Disk → Extraction → Type 0
ExtractionConfined dir d r = All (Below dir) r.extracted × Confined dir d r.disk

All-snoc :
    (P : Bytes → Type 0) (xs : List Bytes) (x : Bytes) → All P xs → P x → All P (xs ++ (x ∷ []))
All-snoc P [] x h k = (k, tt)
All-snoc P (y ∷ xs) x h k = (h.0, All-snoc P xs x h.1 k)

after_entry-Confined :
    (dir : Bytes) (go_on : List Bytes → Disk → Extraction) (done : List Bytes) (d : Disk)
    (r : Outcome × Disk)
    → All (Below dir) done
    → Confined dir d r.1 × Wrote dir r.0
    → ((xs : List Bytes) (s : Disk) → All (Below dir) xs → ExtractionConfined dir s (go_on xs s))
    → ExtractionConfined dir d (after_entry go_on done r)
unfolding after_entry
after_entry-Confined dir go_on done d (passed, s) b (c, w) ih =
    let (all, more) = ih done s b in (all, trans-Confined dir d s _ c more)
after_entry-Confined dir go_on done d (wrote p, s) b (c, w) ih =
    let (all, more) = ih (done ++ (p ∷ [])) s (All-snoc (Below dir) done p b w) in
    (all, trans-Confined dir d s _ c more)
after_entry-Confined dir go_on done d (failed x, s) b (c, w) ih = (b, c)

extract_loop-Confined :
    (dir : Bytes) (eof : Bool) (es : List Entry) (done : List Bytes) (d : Disk)
    → is_rooted dir ≡ true
    → All (Below dir) done
    → ExtractionConfined dir d (extract_loop dir eof es done d)
unfolding extract_loop
extract_loop-Confined dir eof [] done d h b = (b, λ p. inl refl)
extract_loop-Confined dir eof (e ∷ es) done d h b =
    after_entry-Confined dir (extract_loop dir eof es) done d (extract_entry dir e d) b
      (extract_entry-Confined dir e d h) (λ xs s k. extract_loop-Confined dir eof es xs s h k)

extract_failed-Confined :
    (dir : Bytes) (x : ExtractError) (d : Disk) → ExtractionConfined dir d (extract_failed x d)
unfolding extract_failed
extract_failed-Confined dir x d = (tt, λ p. inl refl)

-- Whatever the entries are called and whichever call fails: if the destination is the absolute path
-- `dir`, every path that ExtractTarGz returns lies below it, by further elements none of which is
-- empty, ".", ".." or holds a slash (none for the destination itself); and only such paths, and their
-- ".extract.partial" files, may have other content than before.
pub extract_tar_gz-Confined :
    (calls : ExtractCalls) (archive : Archive) (d : Disk) (dir : Bytes)
    → calls.abs ≡ some dir
    → is_rooted dir ≡ true
    → let r = extract_tar_gz calls archive d in All (Below dir) r.extracted × Confined dir d r.disk
unfolding extract_tar_gz extract_to
extract_tar_gz-Confined calls archive d dir a h =
    let no = λ (x : ExtractError). extract_failed-Confined dir x d in
    elim (Bool-cases calls.open_archive) [
      | inl p ↦ elim (Bool-cases calls.gzip_reader) [
        | inl q ↦ elim (Bool-cases calls.mkdir_all) [
          | inl r ↦
              rw (p, q, r, a)
                (extract_loop-Confined dir archive.ends_in_eof archive.entries [] d h tt)
          | inr r ↦ rw (p, q, r) (no mkdir_dest)
        ]
        | inr q ↦ rw (p, q) (no gzip_reader)
      ]
      | inr p ↦ rw p (no open_archive)
    ]
