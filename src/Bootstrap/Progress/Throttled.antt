-- ===== src/Bootstrap/Progress/Throttled.antt =====
-- How often a download is reported.
use runed.Prelude.{
  ℤ, ℕ, ◌+◌, ◌-◌, ◌*◌, ◌≤◌, ◌≡◌, refl, arith, true, not, ◌&&◌, List, [], ◌∷◌, Option, none, some,
  is_some, if◌then◌else◌, Bool-cases, inl, inr,
}
use runed.Bootstrap.Progress.{
  Tick, total_of, complete, too_soon, progress, progress_log_interval, reports,
}

-- The clock is not set back between the calls, from `now` on.
abbrev pub Forward : ℕ → List Tick → Type 0
Forward now [] = Unit
Forward now (t ∷ ts) = (now ≤ t.now) × Forward t.now ts

abbrev pub final_time : ℕ → List Tick → ℕ
final_time now [] = now
final_time now (t ∷ ts) = final_time t.now ts

-- The reports of a download that is not complete.
abbrev pub unfinished : ℤ → List (Tick × Option (ℕ × ℤ)) → ℕ
unfinished expected [] = 0
unfinished expected ((t, r) ∷ rs) =
    (if is_some r && not (complete expected t) then 1 else 0) + unfinished expected rs

-- Each report tells the bytes and the total, and none of a complete download is held back.
abbrev pub Told : ℤ → List (Tick × Option (ℕ × ℤ)) → Type 0
Told expected [] = Unit
Told expected ((t, r) ∷ rs) =
    ((is_some r ≡ true → r ≡ some (t.downloaded, total_of expected t))
      × (complete expected t ≡ true → is_some r ≡ true))
    × Told expected rs

module _ (expected : ℤ) where
  reports-Told : (last : Option ℕ) (ts : List Tick) → Told expected (reports expected last ts)
  unfolding reports progress
  reports-Told last [] = tt
  reports-Told last (t ∷ ts) = (ground arith, reports-Told (progress expected last t).1 ts)

  abbrev counted : Tick → Option (ℕ × ℤ) → ℕ
  counted t r = if is_some r && not (complete expected t) then 1 else 0

  -- A report of an unfinished download comes an interval after the one before.
  progress_spaced :
      (last : ℕ) (t : Tick)
      → last ≤ t.now
      → let r = progress expected (some last) t in
        (k : ℕ) × (r.1 ≡ some k) × (k ≤ t.now) × (counted t r.0 * progress_log_interval + last ≤ k)
  unfolding progress
  progress_spaced last t h = elim (Bool-cases (complete expected t)) [
    | inl e ↦ rw e (t.now, refl, omega arith, omega arith)
    | inr e ↦ rw e (elim (Bool-cases (too_soon (some last) t.now)) [
      | inl q ↦ rw q (last, refl, h, omega arith)
      | inr q ↦ rw q (t.now, refl, omega arith, ground arith)
    ])
  ]

  unfinished-reports :
      (last now : ℕ) (ts : List Tick)
      → last ≤ now
      → Forward now ts
      → unfinished expected (reports expected (some last) ts) * progress_log_interval + last
        ≤ final_time now ts
  unfolding reports
  unfinished-reports last now [] h f = omega arith
  unfinished-reports last now (t ∷ ts) h f =
      let (k, e, b, c) = progress_spaced last t (omega (arith, h, f.0)) in
      rw e (omega (arith, c, unfinished-reports k t.now ts b f.1))

  -- If the clock is not set back: while a download is not complete it is reported at most once in each
  -- interval of 2 s since its first call, and once more; each report tells the bytes and the total: the
  -- expected one if that is positive, and else that of the call, which is -1 where the response tells no
  -- length; and a call for a complete download is always reported.
  pub reports-Throttled :
      (t : Tick) (ts : List Tick)
      → Forward t.now ts
      → let rs = reports expected none (t ∷ ts) in
        (unfinished expected rs * progress_log_interval
          ≤ (final_time t.now ts - t.now) + progress_log_interval)
        × Told expected rs
  unfolding reports progress
  reports-Throttled t ts f = (
    ground (arith, unfinished-reports t.now t.now ts (omega arith) f),
    reports-Told none (t ∷ ts),
  )
