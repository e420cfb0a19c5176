-- ===== src/Runner/Output/Bounds.antt =====
-- The size of what `truncate_output` returns.
use haiku_mgmt_agent.Prelude.{
  ℕ, ◌+◌, ◌-◌, ◌/◌, ◌^◌, ◌≤◌, ◌<◌, ◌≡◌, refl, ap, arith, ◌&&◌, [], ◌∷◌, ◌++◌, ltb, leb, length,
  take, min, length-append, length-take, Bool-cases, inl, inr,
}
use haiku_mgmt_agent.Prelude.Text.{Bytes}
use haiku_mgmt_agent.Runner.Output.{
  err_title, truncate_out, truncate_error, title_for, both_half, keep_beside, truncate_to,
  truncate_output,
}

sizes : (length err_title ≡ 24) × (length truncate_out ≡ 23) × (length truncate_error ≡ 23)
unfolding err_title truncate_out truncate_error
sizes = (refl, refl, refl)

length-title_for : (err : Bytes) → length (title_for err) ≤ 24
length-title_for [] = omega arith
length-title_for (c ∷ err) = omega (arith, sizes)

both_half_le : (a : ℕ) → 46 ≤ a → a < 2 ^ 64 → both_half a + both_half a + 46 ≤ a
unfolding both_half
both_half_le a lo hi = omega (arith, sizes)

keep_beside_le :
    (a other : ℕ) → 46 ≤ a → a < 2 ^ 64 → other ≤ a / 2 → keep_beside a 23 other + other + 23 ≤ a
unfolding keep_beside
keep_beside_le a other lo hi h = ground arith

length-title_error :
    (title err suffix : Bytes)
    → length (title ++ (err ++ suffix)) ≡ length title + length err + length suffix
length-title_error title err suffix =
    omega (arith, length-append title (err ++ suffix), length-append err suffix)

length-truncate_to :
    (out title err : Bytes) (a : ℕ)
    → 46 ≤ a
    → a < 2 ^ 64
    → a ≤ length out + length err
    → length (truncate_to out title err a) ≤ length title + a
length-truncate_to out title err a lo hi long =
    elim (Bool-cases (ltb (a / 2) (length out) && ltb (a / 2) (length err))) [
      | inl both ↦
          unfold truncate_to in
          rw both (
            omega (
              arith,
              sizes,
              length-append (take (both_half a) out)
                  (truncate_out ++ (title ++ (take (both_half a) err ++ truncate_error))),
              length-append truncate_out (title ++ (take (both_half a) err ++ truncate_error)),
              length-title_error title (take (both_half a) err) truncate_error,
              length-take (both_half a) out,
              length-take (both_half a) err,
              both_half_le a lo hi,
            ))
      | inr one ↦ elim (Bool-cases (leb (length out) (a / 2))) [
        | inl short ↦
            let keep = min (keep_beside a (length truncate_error) (length out)) (length err) in
            unfold truncate_to in
            rw (one, short)
              (omega (
                arith,
                length-append out (title ++ (take keep err ++ truncate_error)),
                length-title_error title (take keep err) truncate_error,
                length-take keep err,
                sizes,
                ap (λ (n : ℕ). keep_beside a n (length out)) sizes.2,
                keep_beside_le a (length out) lo hi (ground arith),
              ))
        | inr long_out ↦
            let keep = min (keep_beside a (length truncate_out) (length err)) (length out) in
            unfold truncate_to in
            rw (one, long_out)
              (omega (
                arith,
                length-append (take keep out) (truncate_out ++ (title ++ err)),
                length-append truncate_out (title ++ err),
                length-append title err,
                length-take keep out,
                sizes,
                ap (λ (n : ℕ). keep_beside a n (length err)) sizes.1,
                keep_beside_le a (length err) lo hi (ground arith),
              ))
      ]
    ]

length-truncate_output :
    (out err : Bytes) (capacity : ℕ)
    → 70 ≤ capacity
    → capacity < 2 ^ 64
    → (length (truncate_output out err capacity) ≤ capacity)
      × (length out + length (title_for err) + length err < capacity
          → truncate_output out err capacity ≡ out ++ (title_for err ++ err))
unfolding truncate_output
length-truncate_output out err capacity lo hi =
    let title = title_for err in
    (
      ground (
        arith,
        length-title_for err,
        length-append out (title ++ err),
        length-append title err,
        length-truncate_to out title err (capacity - length title),
      ),
      λ h. ground (arith, length-title_for err),
    )

-- With a capacity of at least 70 bytes the combined output never takes more than the capacity.
pub truncate_output_fits :
    (out err : Bytes) (capacity : ℕ)
    → 70 ≤ capacity
    → capacity < 2 ^ 64
    → length (truncate_output out err capacity) ≤ capacity
truncate_output_fits out err capacity lo hi = (length-truncate_output out err capacity lo hi).0

-- Output that is shorter than the capacity together with the title is kept whole, stdout first.
pub truncate_output_whole :
    (out err : Bytes) (capacity : ℕ)
    → 70 ≤ capacity
    → capacity < 2 ^ 64
    → length out + length (title_for err) + length err < capacity
    → truncate_output out err capacity ≡ out ++ (title_for err ++ err)
truncate_output_whole out err capacity lo hi room =
    (length-truncate_output out err capacity lo hi).1 room
