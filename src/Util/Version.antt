-- ===== src/Util/Version.antt =====
-- src/util.cpp: `version_compare`.
use haiku_mgmt_agent.Prelude.{
  ℕ, zero, suc, ◌<◌, ◌≡◌, ◌⊎◌, inl, inr, refl, arith, true, false, List, [], ◌∷◌, if◌then◌else◌,
  by_test,
}
use haiku_mgmt_agent.Prelude.Int.{ℤ, pos, negsuc, eqb_ℤ, ltb_ℤ}
use haiku_mgmt_agent.Prelude.Text.{Bytes}
use haiku_mgmt_agent.Util.Text.{split}

-- `std::strtol(..., 10)` belongs to the C library.
module _ (strtol : Bytes → ℤ) where
  -- The loop over the parts; a part that is missing counts as 0.
  unfoldable pub compare_parts : List Bytes → List Bytes → ℤ
  compare_parts [] [] = pos 0
  compare_parts (a ∷ pa) [] =
      let rest = compare_parts pa [] in
      if eqb_ℤ (strtol a) (pos 0)
      then rest
      else if ltb_ℤ (strtol a) (pos 0)
      then negsuc 0
      else pos 1
  compare_parts [] (b ∷ pb) =
      let rest = compare_parts [] pb in
      if eqb_ℤ (pos 0) (strtol b)
      then rest
      else if ltb_ℤ (pos 0) (strtol b)
      then negsuc 0
      else pos 1
  compare_parts (a ∷ pa) (b ∷ pb) =
      let rest = compare_parts pa pb in
      if eqb_ℤ (strtol a) (strtol b)
      then rest
      else if ltb_ℤ (strtol a) (strtol b)
      then negsuc 0
      else pos 1

  unfoldable pub version_compare : Bytes → Bytes → ℤ
  version_compare a b = compare_parts (split a b'.') (split b b'.')

  -- The value of the i-th part; a part that is missing counts as 0.
  abbrev pub part : List Bytes → ℕ → ℤ
  part [] i = pos 0
  part (p ∷ ps) zero = strtol p
  part (p ∷ ps) (suc i) = part ps i

  -- At the first position where two versions differ, the first one is greater.
  abbrev pub Newer : List Bytes → List Bytes → Type 0
  Newer pa pb =
      (i : ℕ) × (((j : ℕ) → j < i → eqb_ℤ (part pa j) (part pb j) ≡ true)
        × (ltb_ℤ (part pb i) (part pa i) ≡ true))

  abbrev pub Same : List Bytes → List Bytes → Type 0
  Same pa pb = (j : ℕ) → eqb_ℤ (part pa j) (part pb j) ≡ true

  -- What each result says of the versions.
  abbrev pub Verdict : ℤ → List Bytes → List Bytes → Type 0
  Verdict n pa pb =
      ((n ≡ pos 1) × Newer pa pb) ⊎ (((n ≡ negsuc 0) × Newer pb pa) ⊎ ((n ≡ pos 0) × Same pa pb))

  abbrev tail : List Bytes → List Bytes
  tail [] = []
  tail (p ∷ ps) = ps

  part-tail : (ps : List Bytes) (i : ℕ) → part ps (suc i) ≡ part (tail ps) i
  part-tail [] i = refl
  part-tail (p ∷ ps) i = refl

  -- Equal first parts leave the question to the tails.
  equal_below :
      (pa pb : List Bytes) (i : ℕ)
      → eqb_ℤ (part pa 0) (part pb 0) ≡ true
      → ((j : ℕ) → j < i → eqb_ℤ (part (tail pa) j) (part (tail pb) j) ≡ true)
      → (j : ℕ) → j < suc i
      → eqb_ℤ (part pa j) (part pb j) ≡ true
  equal_below pa pb i e h zero k = e
  equal_below pa pb i e h (suc j) k = rw (part-tail pa j, part-tail pb j) (h j (omega (arith, k)))

  Newer-tail :
      (pa pb : List Bytes)
      → eqb_ℤ (part pa 0) (part pb 0) ≡ true
      → Newer (tail pa) (tail pb)
      → Newer pa pb
  Newer-tail pa pb e (i, (same, more)) =
      (suc i, (equal_below pa pb i e same, rw (part-tail pa i, part-tail pb i) more))

  Same-tail :
      (pa pb : List Bytes)
      → eqb_ℤ (part pa 0) (part pb 0) ≡ true
      → Same (tail pa) (tail pb)
      → Same pa pb
  Same-tail pa pb e h zero = e
  Same-tail pa pb e h (suc j) = rw (part-tail pa j, part-tail pb j) (h j)

  Newer-head : (pa pb : List Bytes) → ltb_ℤ (part pb 0) (part pa 0) ≡ true → Newer pa pb
  Newer-head pa pb h = (0, (λ j k. absurd (omega (arith, k)), h))

  eqb_ℤ-sym : (x y : ℤ) → eqb_ℤ x y ≡ true → eqb_ℤ y x ≡ true
  eqb_ℤ-sym x y h = ground (arith, h)

  greater : (x y : ℤ) → eqb_ℤ x y ≡ false → ltb_ℤ x y ≡ false → ltb_ℤ y x ≡ true
  greater x y h k = ground (arith, h, k)

  -- One round of the loop.
  round-Verdict :
      (pa pb : List Bytes) (rest : ℤ)
      → Verdict rest (tail pa) (tail pb)
      → Verdict
          (if eqb_ℤ (part pa 0) (part pb 0)
            then rest
            else if ltb_ℤ (part pa 0) (part pb 0)
            then negsuc 0
            else pos 1)
          pa
          pb
  round-Verdict pa pb rest h =
      by_test (λ (n : ℤ). Verdict n pa pb) (eqb_ℤ (part pa 0) (part pb 0)) _ _
        (λ e. elim h [
          | inl (n, newer) ↦ inl (n, Newer-tail pa pb e newer)
          | inr (inl (n, newer)) ↦
              inr (inl (n, Newer-tail pb pa (eqb_ℤ-sym (part pa 0) (part pb 0) e) newer))
          | inr (inr (n, same)) ↦ inr (inr (n, Same-tail pa pb e same))
        ])
        (λ e.
          by_test (λ (n : ℤ). Verdict n pa pb) (ltb_ℤ (part pa 0) (part pb 0)) _ _
            (λ less. inr (inl (refl, Newer-head pb pa less)))
            (λ more. inl (refl, Newer-head pa pb (greater (part pa 0) (part pb 0) e more))))

  compare_parts-Verdict : (pa pb : List Bytes) → Verdict (compare_parts pa pb) pa pb
  unfolding compare_parts
  compare_parts-Verdict [] [] = inr (inr (refl, λ j. refl))
  compare_parts-Verdict (a ∷ pa) [] = round-Verdict (a ∷ pa) [] _ (compare_parts-Verdict pa [])
  compare_parts-Verdict [] (b ∷ pb) = round-Verdict [] (b ∷ pb) _ (compare_parts-Verdict [] pb)
  compare_parts-Verdict (a ∷ pa) (b ∷ pb) =
      round-Verdict (a ∷ pa) (b ∷ pb) _ (compare_parts-Verdict pa pb)

  -- `version_compare` gives 1, and then the first version is newer: at the first position where the
  -- numbers between the dots differ its number is the greater, a missing number counting as 0. Or it
  -- gives -1, and the second is newer in that sense. Or it gives 0, and all the numbers are equal.
  pub version_compare-Verdict :
      (a b : Bytes) → Verdict (version_compare a b) (split a b'.') (split b b'.')
  unfolding version_compare
  version_compare-Verdict a b = compare_parts-Verdict (split a b'.') (split b b'.')
