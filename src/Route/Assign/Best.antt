-- ===== src/Route/Assign/Best.antt =====
-- What `Assign` returns: the first of the centroids with the highest inner product.
use runed.Prelude.{ℕ, zero, suc, ◌+◌, ◌%◌, ◌^◌, ◌≤◌, ◌<◌, ◌≡◌, refl, ◌≢◌, ◌⊎◌, inl, inr, arith}
use runed.Prelude.{List, [], ◌∷◌, some, get_elem?, length, All, true, false, Bool-cases, map}
use runed.Prelude.{if◌then◌else◌, length-map, subst}
use mathlib.Core.Option.{some-injective}
use runed.Route.Floats.{Floats, IsIeee}
use runed.Route.Set.{CentroidSet}
use runed.Route.Assign.{dot, assign_from, assign}

module _ (F : Floats) where
  open F use {F32, F64, gtb, is_nan, neg_inf}

  -- The inner product of each centroid, in id order.
  abbrev pub scores : List F32 → List (List F32) → List F64
  scores vec cs = map (λ c. dot F c vec) cs

  abbrev pub NoneAbove : F64 → List F64 → Type 0
  NoneAbove top xs = (n : ℕ) (x : F64) → get_elem? xs n ≡ some x → gtb x top ≡ false

  abbrev pub AllBelow : F64 → ℕ → List F64 → Type 0
  AllBelow top m xs = (n : ℕ) (x : F64) → n < m → get_elem? xs n ≡ some x → gtb top x ≡ true

  -- Entry `m` is a maximum, and the entries before it are strictly lower.
  pub record IsFirstMaximum (xs : List F64) (m : ℕ) : Type 0 where
    pub top : F64
    pub found : get_elem? xs m ≡ some top
    pub highest : NoneAbove top xs
    pub first : AllBelow top m xs

  -- The loop of `Assign` on the scores alone.
  argmax : ℕ → F64 → ℕ → List F64 → ℕ
  argmax i best best_id [] = best_id
  argmax i best best_id (x ∷ xs) =
      let higher = gtb x best in
      argmax (i + 1) (if higher then x else best) (if higher then i % 2 ^ 32 else best_id) xs

  assign_from-argmax :
      (vec : List F32) (i : ℕ) (best : F64) (best_id : ℕ) (cs : List (List F32))
      → assign_from F vec i best best_id cs ≡ argmax i best best_id (scores vec cs)
  unfolding assign_from argmax
  assign_from-argmax vec i best best_id [] = refl
  assign_from-argmax vec i best best_id (c ∷ cs) = assign_from-argmax vec (i + 1) _ _ cs

-- The outcome of the loop from row `i` on: it kept what it had, or found a first maximum above it.
record Kept (F : Floats) (best : F.F64) (best_id : ℕ) (xs : List F.F64) (r : ℕ) : Type 0 where
  same : r ≡ best_id
  bound : NoneAbove F best xs

record Found (F : Floats) (i : ℕ) (best : F.F64) (xs : List F.F64) (r : ℕ) : Type 0 where
  m : ℕ
  place : r ≡ (i + m) % 2 ^ 32
  maximum : IsFirstMaximum F xs m
  above : F.gtb maximum.top best ≡ true

get_elem?-lt : {A : Type 0} (xs : List A) (m : ℕ) (a : A) → get_elem? xs m ≡ some a → m < length xs
get_elem?-lt [] m a e = cc
get_elem?-lt (x ∷ xs) zero a e = omega arith
get_elem?-lt (x ∷ xs) (suc m) a e = omega (arith, get_elem?-lt xs m a e)

module _ (F : Floats) (L : IsIeee F) where
  open F use {F64, gtb, is_nan, neg_inf}

  NoneAbove-cons :
      (top x : F64) (xs : List F64)
      → gtb x top ≡ false
      → NoneAbove F top xs
      → NoneAbove F top (x ∷ xs)
  NoneAbove-cons top x xs h rest zero y e = subst (λ z. gtb z top ≡ false) (some-injective x y e) h
  NoneAbove-cons top x xs h rest (suc n) y e = rest n y e

  AllBelow-cons :
      (top x : F64) (m : ℕ) (xs : List F64)
      → gtb top x ≡ true
      → AllBelow F top m xs
      → AllBelow F top (suc m) (x ∷ xs)
  AllBelow-cons top x m xs h rest zero y lt e =
      subst (λ z. gtb top z ≡ true) (some-injective x y e) h
  AllBelow-cons top x m xs h rest (suc n) y lt e = rest n y (omega arith) e

  -- What does not exceed `best` does not exceed what exceeds `best`.
  not_above : (x best top : F64) → gtb x best ≡ false → gtb top best ≡ true → gtb x top ≡ false
  not_above x best top h t = elim (Bool-cases (gtb x top)) [
    | inl e ↦ cc (L.gtb_trans x top best e t)
    | inr e ↦ e
  ]

  above_number :
      (x best top : F64)
      → is_nan x ≡ false
      → gtb x best ≡ false
      → gtb top best ≡ true
      → gtb top x ≡ true
  above_number x best top number h t = elim (L.gtb_split top x best number t) [
    | inl e ↦ e
    | inr e ↦ cc
  ]

  -- Row `i` exceeds what was best so far.
  step_up :
      (i : ℕ) (best x : F64) (best_id : ℕ) (xs : List F64) (r : ℕ)
      → gtb x best ≡ true
      → Kept F x (i % 2 ^ 32) xs r ⊎ Found F (i + 1) x xs r
      → Found F i best (x ∷ xs) r
  step_up i best x best_id xs r e (inl k) = record {
    m = 0;
    place = omega (arith, k.same);
    maximum = record {
      top = x;
      found = refl;
      highest =
          NoneAbove-cons x x xs
            (elim (Bool-cases (gtb x x)) [ inl y ↦ L.gtb_asym x x y | inr y ↦ y ]) k.bound;
      first = λ n y lt q. absurd (omega arith);
    };
    above = e;
  }
  step_up i best x best_id xs r e (inr f) = record {
    m = suc f.m;
    place = omega (arith, f.place);
    maximum = record {
      top = f.maximum.top;
      found = f.maximum.found;
      highest = NoneAbove-cons f.maximum.top x xs (L.gtb_asym _ _ f.above) f.maximum.highest;
      first = AllBelow-cons f.maximum.top x f.m xs f.above f.maximum.first;
    };
    above = L.gtb_trans f.maximum.top x best f.above e;
  }

  -- Row `i` does not.
  step_keep :
      (i : ℕ) (best x : F64) (best_id : ℕ) (xs : List F64) (r : ℕ)
      → is_nan x ≡ false
      → gtb x best ≡ false
      → Kept F best best_id xs r ⊎ Found F (i + 1) best xs r
      → Kept F best best_id (x ∷ xs) r ⊎ Found F i best (x ∷ xs) r
  step_keep i best x best_id xs r number e (inl k) =
      inl (record { same = k.same; bound = NoneAbove-cons best x xs e k.bound })
  step_keep i best x best_id xs r number e (inr f) = inr (record {
    m = suc f.m;
    place = omega (arith, f.place);
    maximum = record {
      top = f.maximum.top;
      found = f.maximum.found;
      highest = NoneAbove-cons f.maximum.top x xs (not_above x best _ e f.above) f.maximum.highest;
      first =
          AllBelow-cons f.maximum.top x f.m xs (above_number x best _ number e f.above)
            f.maximum.first;
    };
    above = f.above;
  })

  argmax-outcome :
      (i : ℕ) (best : F64) (best_id : ℕ) (xs : List F64)
      → All (λ x. is_nan x ≡ false) xs
      → let r = argmax F i best best_id xs in Kept F best best_id xs r ⊎ Found F i best xs r
  unfolding argmax
  argmax-outcome i best best_id [] h = inl (record { same = refl; bound = λ n x e. cc })
  argmax-outcome i best best_id (x ∷ xs) h = elim (Bool-cases (gtb x best)) [
    | inl e ↦
        rw e (inr (step_up i best x best_id xs _ e (argmax-outcome (i + 1) x (i % 2 ^ 32) xs h.1)))
    | inr e ↦
        rw e (step_keep i best x best_id xs _ h.0 e (argmax-outcome (i + 1) best best_id xs h.1))
  ]

  -- With nothing above the negative infinity, all scores are equal to it.
  none_above : (x : F64) (xs : List F64) → NoneAbove F neg_inf (x ∷ xs) → NoneAbove F x (x ∷ xs)
  none_above x xs h n y e = elim (Bool-cases (gtb y x)) [
    | inl above ↦ elim (L.gtb_split y neg_inf x L.neg_inf_number above) [
      | inl p ↦ cc (h n y e)
      | inr p ↦ cc (L.neg_inf_least x)
    ]
    | inr q ↦ q
  ]

  first_of_outcome :
      (xs : List F64) (r : ℕ)
      → xs ≢ []
      → length xs ≤ 2 ^ 32
      → Kept F neg_inf 0 xs r ⊎ Found F 0 neg_inf xs r
      → IsFirstMaximum F xs r
  first_of_outcome [] r filled fits o = absurd (filled refl)
  first_of_outcome (x ∷ xs) r filled fits (inl k) = rw k.same (record {
    top = x;
    found = refl;
    highest = none_above x xs k.bound;
    first = λ n y lt q. absurd (omega arith);
  })
  first_of_outcome (x ∷ xs) r filled fits (inr f) = rw place_eq f.maximum
    where
      place_eq : r ≡ f.m
      place_eq = omega (arith, f.place, get_elem?-lt (x ∷ xs) f.m _ f.maximum.found)

  -- On a set with at least one centroid and at most 2^32, none of whose inner products with the
  -- vector is a NaN, `Assign` returns an id of the set: that of the highest inner product, and of
  -- those that are equally high the lowest.
  pub assign-IsFirstMaximum :
      (s : CentroidSet F.F32) (vec : List F.F32)
      → s.vectors ≢ []
      → length s.vectors ≤ 2 ^ 32
      → All (λ x. is_nan x ≡ false) (scores F vec s.vectors)
      → IsFirstMaximum F (scores F vec s.vectors) (assign F s vec)
  unfolding assign
  assign-IsFirstMaximum s vec filled fits numbers =
      rw (assign_from-argmax F vec 0 neg_inf 0 s.vectors) (
        first_of_outcome (scores F vec s.vectors) _ (scores_filled s.vectors filled)
          (rw (length-map (λ c. dot F c vec) s.vectors) fits)
          (argmax-outcome 0 neg_inf 0 (scores F vec s.vectors) numbers))
    where
      scores_filled : (cs : List (List F.F32)) → cs ≢ [] → scores F vec cs ≢ []
      scores_filled [] h e = h refl
      scores_filled (c ∷ cs) h e = cc
