-- ===== src/Contracts/BigBang/Fee.antt =====
-- `_computeVariableOpeningFee` of contracts/markets/bigBang/BBLendingCommon.sol. `updated` and `rate` are
-- what the oracle of USDO's price answers.
use tapioca_lending_engine.Base.{
  ℕ, ◌-◌, ◌*◌, ◌/◌, ◌^◌, ◌==◌, ◌≤◌, ◌≡◌, ltb, leb, Bool, not, Outcome, ok, ◌>>=◌, ◌>>◌, arith,
  fail_if, if◌then◌else◌, if-true, if-false, >>=-eq-ok, ok-injective, Bool-cases, inl, inr, sym, ap,
  ◌∙◌, ==_iff,
}
use tapioca_lending_engine.Contracts.BigBang.{BigBang, checked, minus, checked_lem}

-- `(amount * fee) / FEE_PRECISION`
unfoldable pub fee_of : ℕ → ℕ → Outcome ℕ
fee_of amount fee = do product ← checked 256 (amount * fee); ok (product / 10 ^ 5)

-- The fee between its two bounds: `max` less what the rate takes off
unfoldable pub sloped_fee : ℕ → BigBang → Outcome ℕ
sloped_fee rate b = do
  range ← minus b.max_mint_fee b.min_mint_fee
  product ← checked 256 ((rate - b.max_mint_fee_start) * range)
  fee ← minus b.max_mint_fee (product / (b.min_mint_fee_start - b.max_mint_fee_start))
  ok (
      if ltb b.max_mint_fee fee
      then b.max_mint_fee
      else (if ltb fee b.min_mint_fee then b.min_mint_fee else fee))

-- A fee of 0 gives 0, as the last return of the source.
unfoldable pub compute_variable_opening_fee : Bool → ℕ → ℕ → BigBang → Outcome ℕ
unfolding fee_of sloped_fee
compute_variable_opening_fee updated rate amount b =
    if amount == 0
    then ok 0
    else (fail_if (not updated) "OracleCallFailed"
        >> (if leb b.min_mint_fee_start rate
            then fee_of amount b.min_mint_fee
            else (if leb rate b.max_mint_fee_start
                then fee_of amount b.max_mint_fee
                else (sloped_fee rate b >>= λ fee. fee_of amount fee))))

clamp_lem :
    (min max fee : ℕ) {f : ℕ}
    → min ≤ max
    → (if ltb max fee then max else (if ltb fee min then min else fee)) ≡ f
    → (min ≤ f) × (f ≤ max)
clamp_lem min max fee order h = ground arith

zero_fee : (amount f r : ℕ) → amount ≡ 0 → r ≡ 0 → r ≡ amount * f / 10 ^ 5
zero_fee amount f r ha hr = rw (ha, hr) (omega arith)

sloped_fee_lem :
    (rate : ℕ) (b : BigBang) {f : ℕ}
    → b.min_mint_fee ≤ b.max_mint_fee
    → sloped_fee rate b ≡ ok f
    → (b.min_mint_fee ≤ f) × (f ≤ b.max_mint_fee)
unfolding sloped_fee
sloped_fee_lem rate b order h =
    let (range, _, h1) = >>=-eq-ok (minus b.max_mint_fee b.min_mint_fee) _ h in
    let (product, _, h2) = >>=-eq-ok (checked 256 ((rate - b.max_mint_fee_start) * range)) _ h1 in
    let (fee, _, h3) =
      >>=-eq-ok (minus b.max_mint_fee (product / (b.min_mint_fee_start - b.max_mint_fee_start))) _
        h2 in
    clamp_lem b.min_mint_fee b.max_mint_fee fee order (ok-injective h3)

-- The fee of an amount, at some percentage between the bounds of the market
abbrev pub IsFee : BigBang → ℕ → ℕ → Type 0
IsFee b amount r = (f : ℕ) × (b.min_mint_fee ≤ f) × (f ≤ b.max_mint_fee) × (r ≡ amount * f / 10 ^ 5)

fee_of-IsFee :
    (amount f : ℕ) (b : BigBang) {r : ℕ}
    → b.min_mint_fee ≤ f
    → f ≤ b.max_mint_fee
    → fee_of amount f ≡ ok r
    → IsFee b amount r
unfolding fee_of
fee_of-IsFee amount f b low high h =
    let (p, hp, h1) = >>=-eq-ok (checked 256 (amount * f)) _ h in
    (
      f,
      low,
      high,
      sym (ok-injective h1) ∙ ap (λ x. x / 10 ^ 5) ((checked_lem 256 (amount * f) hp).0),
    )

-- Where the bounds are in order, the opening fee of an amount is a percentage of it between the smallest
-- and the greatest fee of the market.
pub compute_variable_opening_fee-IsFee :
    (updated : Bool) (rate amount : ℕ) (b : BigBang) {r : ℕ}
    → b.min_mint_fee ≤ b.max_mint_fee
    → compute_variable_opening_fee updated rate amount b ≡ ok r
    → IsFee b amount r
unfolding compute_variable_opening_fee
compute_variable_opening_fee-IsFee updated rate amount b {r} order h =
    elim (Bool-cases (amount == 0)) [
      | inl none ↦
          let e = ok-injective (sym (if-true (amount == 0) _ _ none) ∙ h) in
          (
            b.min_mint_fee,
            omega arith,
            order,
            zero_fee amount b.min_mint_fee r ((==_iff amount 0).0 none) (sym e),
          )
      | inr some_amount ↦
          let (_, _, h1) =
            >>=-eq-ok (fail_if (not updated) "OracleCallFailed") _
              (sym (if-false (amount == 0) _ _ some_amount) ∙ h) in
          elim (Bool-cases (leb b.min_mint_fee_start rate)) [
            | inl above ↦
                fee_of-IsFee amount b.min_mint_fee b (omega arith) order
                  (sym (if-true (leb b.min_mint_fee_start rate) _ _ above) ∙ h1)
            | inr under ↦
                let h2 = sym (if-false (leb b.min_mint_fee_start rate) _ _ under) ∙ h1 in
                elim (Bool-cases (leb rate b.max_mint_fee_start)) [
                  | inl low ↦
                      fee_of-IsFee amount b.max_mint_fee b order (omega arith)
                        (sym (if-true (leb rate b.max_mint_fee_start) _ _ low) ∙ h2)
                  | inr between ↦
                      let (f, hf, h3) =
                        >>=-eq-ok (sloped_fee rate b) _
                          (sym (if-false (leb rate b.max_mint_fee_start) _ _ between) ∙ h2) in
                      let bounds = sloped_fee_lem rate b order hf in
                      fee_of-IsFee amount f b bounds.0 bounds.1 h3
                ]
          ]
    ]
