-- ===== src/Contracts/Singularity/Bounds.antt =====
-- The interest of a Singularity market stays between its two bounds.
use tapioca_lending_engine.Base.{
  ℕ, ◌+◌, ◌-◌, ◌*◌, ◌/◌, ◌^◌, ◌==◌, ◌≤◌, ◌<◌, ◌≡◌, ◌≢◌, ltb, ok, arith, fail_if, if◌then◌else◌,
  if-true, if-false, >>=-eq-ok, ok-injective, Bool-cases, inl, inr, subst, sym, ◌∙◌,
}
use native.Mathlib.Nat.{div-le_of_le-mul, mul-le-mul_left, le-div_iff_mul-le, mul_comm}
use tapioca_lending_engine.Contracts.BigBang.{checked, minus, checked_lem}
use tapioca_lending_engine.Contracts.Singularity.{Singularity}
use tapioca_lending_engine.Contracts.Singularity.Interest.{
  lowered_interest, raised_interest, next_interest,
}

-- The interest, and the one that a market without a debt starts with, are between the bounds.
abbrev pub InBounds : Singularity → Type 0
InBounds s =
    (s.minimum_interest_per_second ≤ s.interest_per_second)
    × (s.interest_per_second ≤ s.maximum_interest_per_second)
    × (s.minimum_interest_per_second ≤ s.starting_interest_per_second)
    × (s.starting_interest_per_second ≤ s.maximum_interest_per_second)

-- A product with a smaller number over a greater one is no greater,
scaled_down : (i e square : ℕ) → i * e / (e + square) ≤ i
scaled_down i e square =
    div-le_of_le-mul (e + square)
      (subst (λ x. i * e ≤ x) (mul_comm i (e + square)) (mul-le-mul_left i (omega arith)))

-- and the other way round no smaller.
scaled_up : (i e square : ℕ) → e ≢ 0 → i ≤ i * (e + square) / e
scaled_up i e square nz =
    let positive : 0 < e = omega (arith, λ (z : e ≡ 0). nz z) in
    (le-div_iff_mul-le positive).1 (mul-le-mul_left i (omega arith))

lowest :
    (low high i rate r : ℕ)
    → low ≤ i
    → i ≤ high
    → rate ≤ i
    → (if ltb rate low then low else rate) ≡ r
    → (low ≤ r) × (r ≤ high)
lowest low high i rate r h k l e = ground arith

highest :
    (low high i rate r : ℕ)
    → low ≤ i
    → i ≤ high
    → i ≤ rate
    → r ≡ (if ltb high rate then high else rate)
    → (low ≤ r) × (r ≤ high)
highest low high i rate r h k l e = ground arith

not_zero : (n : ℕ) {u : Unit {0}} → fail_if (n == 0) "Panic(0x12)" ≡ ok u → n ≢ 0
not_zero n h z = ground arith

module _ (utilization elapsed : ℕ) (s : Singularity) (bounds : InBounds s) where
  lowered_interest-bounds :
      {r : ℕ}
      → lowered_interest utilization elapsed s ≡ ok r
      → (s.minimum_interest_per_second ≤ r) × (r ≤ s.maximum_interest_per_second)
  unfolding lowered_interest
  lowered_interest-bounds {r} h =
      let i = s.interest_per_second in
      let e = s.interest_elasticity in
      let (product, _, h1) =
        >>=-eq-ok (checked 256 ((s.minimum_target_utilization - utilization) * 10 ^ 18)) _ h in
      let under = product / s.minimum_target_utilization in
      let (square, _, h2) = >>=-eq-ok (checked 256 (under * under * elapsed)) _ h1 in
      let (scale, hs, h3) = >>=-eq-ok (checked 256 (e + square)) _ h2 in
      let (scaled, hd, h4) = >>=-eq-ok (checked 256 (i * e)) _ h3 in
      let (_, _, h5) = >>=-eq-ok (fail_if (scale == 0) "Panic(0x12)") _ h4 in
      let (rate, hr, h6) = >>=-eq-ok (checked 64 (scaled / scale)) _ h5 in
      let less : rate ≤ i =
        subst (λ x. x ≤ i) (sym ((checked_lem 64 (scaled / scale) hr).0))
          (subst (λ x. x / scale ≤ i) (sym ((checked_lem 256 (i * e) hd).0))
            (subst (λ x. i * e / x ≤ i) (sym ((checked_lem 256 (e + square) hs).0))
              (scaled_down i e square))) in
      lowest s.minimum_interest_per_second s.maximum_interest_per_second i rate r bounds.0 bounds.1
        less (ok-injective h6)

  raised_interest-bounds :
      {r : ℕ}
      → raised_interest utilization elapsed s ≡ ok r
      → (s.minimum_interest_per_second ≤ r) × (r ≤ s.maximum_interest_per_second)
  unfolding raised_interest
  raised_interest-bounds {r} h =
      let i = s.interest_per_second in
      let e = s.interest_elasticity in
      let (product, _, h1) =
        >>=-eq-ok (checked 256 ((utilization - s.maximum_target_utilization) * 10 ^ 18)) _ h in
      let (range, _, h2) = >>=-eq-ok (minus (10 ^ 18) s.maximum_target_utilization) _ h1 in
      let (_, _, h3) = >>=-eq-ok (fail_if (range == 0) "Panic(0x12)") _ h2 in
      let over = product / range in
      let (square, _, h4) = >>=-eq-ok (checked 256 (over * over * elapsed)) _ h3 in
      let (scale, hs, h5) = >>=-eq-ok (checked 256 (e + square)) _ h4 in
      let (scaled, hd, h6) = >>=-eq-ok (checked 256 (i * scale)) _ h5 in
      let (_, nz, h7) = >>=-eq-ok (fail_if (e == 0) "Panic(0x12)") _ h6 in
      let more : i ≤ scaled / e =
        subst (λ x. i ≤ x / e) (sym ((checked_lem 256 (i * scale) hd).0))
          (subst (λ x. i ≤ i * x / e) (sym ((checked_lem 256 (e + square) hs).0))
            (scaled_up i e square (not_zero e nz))) in
      let rate = scaled / e in
      highest s.minimum_interest_per_second s.maximum_interest_per_second i rate r bounds.0 bounds.1
        more
        ((checked_lem 64
          (if ltb s.maximum_interest_per_second rate then s.maximum_interest_per_second else rate)
          h7).0)

  pub next_interest-bounds :
      {r : ℕ}
      → next_interest utilization elapsed s ≡ ok r
      → (s.minimum_interest_per_second ≤ r) × (r ≤ s.maximum_interest_per_second)
  unfolding next_interest
  next_interest-bounds {r} h = elim (Bool-cases (ltb utilization s.minimum_target_utilization)) [
    | inl low ↦
        lowered_interest-bounds
          (sym (if-true (ltb utilization s.minimum_target_utilization) _ _ low) ∙ h)
    | inr no_low ↦
        let h1 = sym (if-false (ltb utilization s.minimum_target_utilization) _ _ no_low) ∙ h in
        elim (Bool-cases (ltb s.maximum_target_utilization utilization)) [
          | inl high ↦
              raised_interest-bounds
                (sym (if-true (ltb s.maximum_target_utilization utilization) _ _ high) ∙ h1)
          | inr no_high ↦
              subst (λ x. (s.minimum_interest_per_second ≤ x) × (x ≤ s.maximum_interest_per_second))
                (ok-injective
                  (sym (if-false (ltb s.maximum_target_utilization utilization) _ _ no_high) ∙ h1))
                (bounds.0, bounds.1)
        ]
  ]
