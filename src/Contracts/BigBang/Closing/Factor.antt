-- ===== src/Contracts/BigBang/Closing/Factor.antt =====
-- The closing factor against what it is for: the greatest amount whose repayment, with the bonus in
-- collateral that goes with it, takes no more than the debt is past the start of the liquidation.
use tapioca_lending_engine.Base.{
  ℕ, ◌+◌, ◌-◌, ◌*◌, ◌/◌, ◌^◌, ◌==◌, ◌≤◌, ◌<◌, ◌≡◌, ltb, ok, ◌>>=◌, arith, fail_if, ltb→lt,
  if◌then◌else◌, if-true, if-false, >>=-eq-ok, ok-injective, Bool-cases, inl, inr, subst, sym, ap,
  ◌∙◌,
}
use native.Mathlib.Nat.{
  div-mul-le_self, lt-div-mul-add, mul-div-mul_right, mul-le-mul_right, le_trans, le_of_lt,
  div-le_of_le-mul,
}
use tapioca_lending_engine.Base.Int.{
  ℤ, pos, ◌-ℤ◌, ◌/ℤ◌, ◌*ℤ◌, is_negative, to_int256, to_uint256, checked_int, divided,
  checked_int_lem, to_int256_small,
}
use tapioca_lending_engine.Contracts.BigBang.{BigBang, checked, checked_lem}
use tapioca_lending_engine.Contracts.BigBang.Closing.{
  borrow_amount, closing_denominator, closing_amount, compute_closing_factor,
}
use tapioca_lending_engine.Contracts.MarketConfig.{MarketConfig}

-- What a repaid unit takes off the excess, at five decimals
abbrev pub relief : ℕ → ℕ → ℕ
relief rate multiplier = 10 ^ 5 - rate * (10 ^ 5 + multiplier) / 10 ^ 5

difference_lem : (q : ℕ) → q < 10 ^ 5 → (pos (10 ^ 5) -ℤ to_int256 q) ≡ pos (10 ^ 5 - q)
difference_lem q h = ground arith

times_lem : (a b : ℕ) → (pos a *ℤ pos b) ≡ pos (a * b)
times_lem a b = ground arith

closing_denominator_lem :
    (rate multiplier : ℕ) {d : ℤ}
    → rate * (10 ^ 5 + multiplier) / 10 ^ 5 < 10 ^ 5
    → closing_denominator rate multiplier ≡ ok d
    → d ≡ pos (relief rate multiplier * 10 ^ 13)
unfolding closing_denominator
closing_denominator_lem rate multiplier {d} small h =
    let (sum, hs, h1) = >>=-eq-ok (checked 256 (10 ^ 5 + multiplier)) _ h in
    let (product, hp, h2) = >>=-eq-ok (checked 256 (rate * sum)) _ h1 in
    let (difference, hd, h3) =
      >>=-eq-ok (checked_int (pos (10 ^ 5) -ℤ to_int256 (product / 10 ^ 5))) _ h2 in
    let ep =
      (checked_lem 256 (rate * sum) hp).0
      ∙ ap (λ x. rate * x) ((checked_lem 256 (10 ^ 5 + multiplier) hs).0) in
    let ed : difference ≡ pos (relief rate multiplier) =
      checked_int_lem (pos (10 ^ 5) -ℤ to_int256 (product / 10 ^ 5)) hd
      ∙ ap (λ x. pos (10 ^ 5) -ℤ to_int256 (x / 10 ^ 5)) ep
      ∙ difference_lem (rate * (10 ^ 5 + multiplier) / 10 ^ 5) small in
    checked_int_lem (difference *ℤ pos (10 ^ 13)) h3
    ∙ ap (λ x. x *ℤ pos (10 ^ 13)) ed
    ∙ times_lem (relief rate multiplier) (10 ^ 13)

-- The amount is no more than the debt, takes no more than the excess, and is the greatest such one.
abbrev pub IsGreatest : ℕ → ℕ → ℕ → ℕ → Type 0
IsGreatest debt excess unit f =
    (f ≤ debt) × (f * unit ≤ excess * 10 ^ 5) × (f < debt → excess * 10 ^ 5 < (f + 1) * unit)

-- A quotient that is capped
capped_quotient :
    (debt excess unit q f : ℕ)
    → 0 < unit
    → q ≡ excess * 10 ^ 5 / unit
    → f ≡ (if ltb debt q then debt else q)
    → IsGreatest debt excess unit f
capped_quotient debt excess unit q f pos_unit eq ef =
    let low : q * unit ≤ excess * 10 ^ 5 =
      subst (λ x. x * unit ≤ excess * 10 ^ 5) (sym eq) (div-mul-le_self (excess * 10 ^ 5) unit) in
    let high : excess * 10 ^ 5 < q * unit + unit =
      subst (λ x. excess * 10 ^ 5 < x * unit + unit) (sym eq) (lt-div-mul-add pos_unit) in
    elim (Bool-cases (ltb debt q)) [
      | inl over ↦
          let e = ef ∙ if-true (ltb debt q) _ _ over in
          subst (IsGreatest debt excess unit) (sym e) (
            omega arith,
            le_trans (mul-le-mul_right unit (le_of_lt (ltb→lt debt q over))) low,
            (λ less. absurd (omega arith)),
          )
      | inr under ↦
          let e = ef ∙ if-false (ltb debt q) _ _ under in
          subst (IsGreatest debt excess unit) (sym e) (ground arith, low, (λ less. grind arith))
    ]

divided_pos : (a b : ℕ) {x : ℤ} → divided (pos a) (pos b) ≡ ok x → (x ≡ pos (a / b)) × (0 < b)
divided_pos a b h = ground (arith, checked_int_lem (pos a /ℤ pos b))

magnitude_lem :
    (debt q : ℕ) (x : ℤ) {f : ℕ}
    → x ≡ pos q
    → ((if is_negative x then checked_int (pos 0 -ℤ x) else ok x) >>= λ x_pos.
        ok (if ltb debt (to_uint256 x_pos) then debt else to_uint256 x_pos))
      ≡ ok f
    → f ≡ (if ltb debt q then debt else q)
magnitude_lem debt q x {f} e h = sym (
    ok-injective (
      subst
        (λ y.
          ((if is_negative y then checked_int (pos 0 -ℤ y) else ok y) >>= λ x_pos.
          ok (if ltb debt (to_uint256 x_pos) then debt else to_uint256 x_pos))
          ≡ ok f)
        e h))

mul_assoc_lem : (n : ℕ) → n * 10 ^ 18 ≡ n * 10 ^ 5 * 10 ^ 13
mul_assoc_lem n = omega arith

closing_amount_lem :
    (debt starts_at rate multiplier : ℕ) {f : ℕ}
    → debt < 2 ^ 255
    → rate * (10 ^ 5 + multiplier) / 10 ^ 5 < 10 ^ 5
    → closing_amount debt starts_at rate multiplier ≡ ok f
    → IsGreatest debt (debt - starts_at) (relief rate multiplier) f
unfolding closing_amount
closing_amount_lem debt starts_at rate multiplier {f} fits small h =
    let (d, hd, h1) = >>=-eq-ok (closing_denominator rate multiplier) _ h in
    let (n, hn, h2) =
      >>=-eq-ok (checked_int (to_int256 (debt - starts_at) *ℤ pos (10 ^ 18))) _ h1 in
    let (x, hx, h3) = >>=-eq-ok (divided n d) _ h2 in
    let ed = closing_denominator_lem rate multiplier small hd in
    let en : n ≡ pos ((debt - starts_at) * 10 ^ 18) =
      checked_int_lem (to_int256 (debt - starts_at) *ℤ pos (10 ^ 18)) hn
      ∙ ap (λ y. y *ℤ pos (10 ^ 18)) (to_int256_small (debt - starts_at) (omega arith))
      ∙ times_lem (debt - starts_at) (10 ^ 18) in
    let (ex, positive) =
      divided_pos ((debt - starts_at) * 10 ^ 18) (relief rate multiplier * 10 ^ 13) (
        subst (λ y. divided y (pos (relief rate multiplier * 10 ^ 13)) ≡ ok x) en
          (subst (λ y. divided n y ≡ ok x) ed hx)) in
    capped_quotient debt (debt - starts_at) (relief rate multiplier)
      ((debt - starts_at) * 10 ^ 18 / (relief rate multiplier * 10 ^ 13)) f (omega arith)
      (ap (λ y. y / (relief rate multiplier * 10 ^ 13)) (mul_assoc_lem (debt - starts_at))
        ∙ mul-div-mul_right ((debt - starts_at) * 10 ^ 5) (relief rate multiplier) (omega arith))
      (magnitude_lem debt ((debt - starts_at) * 10 ^ 18 / (relief rate multiplier * 10 ^ 13)) x ex
        h3)

pub borrow_amount_lem :
    (part : ℕ) (b : BigBang) {d : ℕ}
    → borrow_amount part b ≡ ok d
    → d ≡ part * b.total_borrow.elastic / b.total_borrow.base
unfolding borrow_amount
borrow_amount_lem part b h =
    let (product, hp, h1) = >>=-eq-ok (checked 256 (part * b.total_borrow.elastic)) _ h in
    let (_, _, h2) = >>=-eq-ok (fail_if (b.total_borrow.base == 0) "Panic(0x12)") _ h1 in
    sym (ok-injective h2)
    ∙ ap (λ x. x / b.total_borrow.base) ((checked_lem 256 (part * b.total_borrow.elastic) hp).0)

debt_small :
    (part : ℕ) (b : BigBang)
    → part ≤ b.total_borrow.base
    → b.total_borrow.elastic < 2 ^ 128
    → part * b.total_borrow.elastic / b.total_borrow.base < 2 ^ 255
debt_small part b within fits =
    let le : part * b.total_borrow.elastic / b.total_borrow.base ≤ b.total_borrow.elastic =
      div-le_of_le-mul b.total_borrow.base (mul-le-mul_right b.total_borrow.elastic within) in
    omega arith

-- The closing factor of a debt, where the liquidation starts at another one
abbrev pub IsClosing : ℕ → ℕ → ℕ → ℕ → Type 0
IsClosing debt starts_at unit f =
    (debt < starts_at → f ≡ 0) × (starts_at ≤ debt → IsGreatest debt (debt - starts_at) unit f)

-- Where the part is no more than the base, the debt fits 128 bits and a repaid unit relieves: a debt
-- below the start of the liquidation has the closing factor 0, and another one the greatest amount that is
-- no more than the debt and takes no more than what the debt is past the start.
pub compute_closing_factor-IsGreatest :
    (part collateral_in_asset : ℕ) (c : MarketConfig) (b : BigBang) {f : ℕ}
    → part ≤ b.total_borrow.base
    → b.total_borrow.elastic < 2 ^ 128
    → b.liquidation_collateralization_rate * (10 ^ 5 + c.liquidation_multiplier) / 10 ^ 5 < 10 ^ 5
    → compute_closing_factor part collateral_in_asset c b ≡ ok f
    → IsClosing
        (part * b.total_borrow.elastic / b.total_borrow.base)
        (collateral_in_asset * b.liquidation_collateralization_rate / 10 ^ 5)
        (relief b.liquidation_collateralization_rate c.liquidation_multiplier)
        f
unfolding compute_closing_factor
compute_closing_factor-IsGreatest part collateral c b {f} within fits small h =
    let rate = b.liquidation_collateralization_rate in
    let (debt, hd, h1) = >>=-eq-ok (borrow_amount part b) _ h in
    let (product, hp, h2) = >>=-eq-ok (checked 256 (collateral * rate)) _ h1 in
    let ed = borrow_amount_lem part b hd in
    let ep = (checked_lem 256 (collateral * rate) hp).0 in
    let debt_fits = subst (λ x. x < 2 ^ 255) (sym ed) (debt_small part b within fits) in
    subst (λ x. IsClosing x (collateral * rate / 10 ^ 5) (relief rate c.liquidation_multiplier) f)
      ed
      (subst (λ x. IsClosing debt (x / 10 ^ 5) (relief rate c.liquidation_multiplier) f) ep
        (elim (Bool-cases (ltb debt (product / 10 ^ 5))) [
          | inl below ↦ (
            (λ _. sym (ok-injective (sym (if-true (ltb debt (product / 10 ^ 5)) _ _ below) ∙ h2))),
            (λ past. absurd (ground arith)),
          )
          | inr past ↦ (
            (λ less. absurd (ground arith)),
            (λ _.
                closing_amount_lem debt (product / 10 ^ 5) rate c.liquidation_multiplier debt_fits
                  small (sym (if-false (ltb debt (product / 10 ^ 5)) _ _ past) ∙ h2)),
          )
        ]))
