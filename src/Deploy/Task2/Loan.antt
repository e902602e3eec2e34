-- ===== src/Deploy/Task2/Loan.antt =====
-- The loans against the solvency test of contracts/markets/Market.sol, which Origins uses.
use tapioca_lending_engine.Base.{
  ℕ, ◌+◌, ◌*◌, ◌/◌, ◌^◌, ◌≤◌, ◌<◌, ◌==◌, leb, ◌≡◌, arith, true, false, ok, >>=-eq-ok, >>=-ok,
  if-true, if-false, fail_if, ok-injective, Bool-cases, inl, inr, ap, sym, ◌∙◌,
}
use native.Mathlib.Nat.{div-mul-le_self, mul-le-mul_right, mul-le-mul_left, div-le_of_le-mul}
use tapioca_lending_engine.Base.Int.{ℤ, pos, ◌-ℤ◌, ◌*ℤ◌, ◌/ℤ◌}
use tapioca_lending_engine.Deploy.Task2.{pool_borrow_amount}
use tapioca_lending_engine.Contracts.BigBang.{BigBang, checked}
use tapioca_lending_engine.Contracts.BigBang.Lending.{is_solvent, covers}

pos-injective : {m n : ℕ} → pos m ≡ pos n → m ≡ n
pos-injective h = cc

-- What is left after a share of it is taken off
less_share : (m d : ℕ) {x : ℕ} → pos m -ℤ pos m *ℤ pos d /ℤ pos 100 ≡ pos x → x ≤ m
less_share m d h =
    let product : pos m *ℤ pos d ≡ pos (m * d) = ground arith in
    let h' : pos m -ℤ pos (m * d / 100) ≡ pos _ =
      ap (λ z. pos m -ℤ z /ℤ pos 100) (sym product) ∙ h in
    ground arith

price_bound : (rate amount : ℕ) → 10 ^ 36 / rate * amount / 10 ^ 18 * rate ≤ amount * 10 ^ 18
price_bound rate amount =
    let q = 10 ^ 36 / rate in
    let m = q * amount / 10 ^ 18 in
    let rounded = mul-le-mul_right rate (div-mul-le_self (q * amount) (10 ^ 18)) in
    let inverse = mul-le-mul_right amount (div-mul-le_self (10 ^ 36) rate) in
    omega (arith, rounded, inverse)

-- With a delta that is not negative, the amount at the rate is at most the ETH at 1e18.
pool_borrow_amount-bound :
    (rate amount delta : ℕ) {x : ℕ}
    → pool_borrow_amount rate amount (pos delta) ≡ ok (pos x)
    → x * rate ≤ amount * 10 ^ 18
unfolding pool_borrow_amount
pool_borrow_amount-bound rate amount delta h =
    let (_, _, h1) = >>=-eq-ok (fail_if (rate == 0) "division-by-zero") _ h in
    let m = 10 ^ 36 / rate * amount / 10 ^ 18 in
    let fewer = mul-le-mul_right rate (less_share m delta (ok-injective h1)) in
    omega (arith, fewer, price_bound rate amount)

pool_borrow_amount-rate :
    (rate amount : ℕ) (delta : ℤ) {x : ℤ} → pool_borrow_amount rate amount delta ≡ ok x → 0 < rate
unfolding pool_borrow_amount
pool_borrow_amount-rate rate amount delta h =
    let (_, k, _) = >>=-eq-ok (fail_if (rate == 0) "division-by-zero") _ h in ground arith

le→leb : (a b : ℕ) → a ≤ b → leb a b ≡ true
le→leb a b h = ground arith

checked-fits : (w n : ℕ) → n < 2 ^ w → checked w n ≡ ok n
checked-fits w n h = ground arith

-- The test of a loan that the collateral is worth, where elastic and base are the same
covers-true :
    (c p e : ℕ) (b : BigBang)
    → 0 < e
    → b.exchange_rate_precision ≡ 10 ^ 18
    → b.total_borrow.elastic ≡ b.total_borrow.base
    → 0 < b.total_borrow.base
    → p * e ≤ c * 10 ^ 18
    → c * 10 ^ 18 < 2 ^ 256
    → p * b.total_borrow.elastic * e < 2 ^ 256
    → covers c p e (10 ^ 5) b ≡ ok true
unfolding covers
covers-true c p e b pe precision same some_debt worth small_value small_debt =
    let unit : b.exchange_rate_precision / 10 ^ 5 ≡ 10 ^ 13 = ap (λ x. x / 10 ^ 5) precision in
    let debt = p * b.total_borrow.elastic in
    let more : debt * 1 ≤ debt * e = mul-le-mul_left debt pe in
    let base = b.total_borrow.base in
    let product : debt * e ≡ base * (p * e) = ap (λ x. p * x * e) same ∙ omega arith in
    let above : base * (p * e) ≤ base * (c * 10 ^ 18) = mul-le-mul_left base worth in
    let quotient : debt * e / base ≤ c * 10 ^ 18 =
      div-le_of_le-mul base (omega (arith, product, above)) in
    >>=-ok (checked 256 (c * (b.exchange_rate_precision / 10 ^ 5))) _
      (ap (λ x. checked 256 (c * x)) unit ∙ checked-fits 256 (c * 10 ^ 13) (omega arith))
      (>>=-ok (checked 256 (c * 10 ^ 13 * 10 ^ 5)) _ (checked-fits 256 _ (omega arith)) (
        >>=-ok (checked 256 debt) _ (checked-fits 256 _ (omega (arith, more))) (
          >>=-ok (checked 256 (debt * e)) _ (checked-fits 256 _ small_debt) (
            >>=-ok (fail_if (base == 0) "Panic(0x12)") _ (ground arith) (
              ap ok (le→leb (debt * e / base) (c * 10 ^ 13 * 10 ^ 5) (omega (arith, quotient))))))))

-- Where the market's books hold the two loans that the task takes, with a delta that is not negative,
-- and collateral worth the ETH of both, and no interest or fee has been added to the debts, the market's
-- solvency test at the same rate, with the precision of buildOrigins and a collateralization rate of
-- 100%, answers true, if its products fit 256 bits.
pub pool_loans-is_solvent :
    (to_amount : ℕ → ℕ) (user rate for_usdc for_dai delta : ℕ) (b : BigBang) {x y : ℕ}
    → pool_borrow_amount rate for_usdc (pos delta) ≡ ok (pos x)
    → pool_borrow_amount rate for_dai (pos delta) ≡ ok (pos y)
    → b.exchange_rate_precision ≡ 10 ^ 18
    → b.collateralization_rate ≡ 10 ^ 5
    → b.user_borrow_part user ≡ x + y
    → for_usdc + for_dai ≤ to_amount (b.user_collateral_share user)
    → 0 < b.user_collateral_share user
    → b.total_borrow.elastic ≡ b.total_borrow.base
    → 0 < b.total_borrow.base
    → to_amount (b.user_collateral_share user) * 10 ^ 18 < 2 ^ 256
    → (x + y) * b.total_borrow.elastic * rate < 2 ^ 256
    → is_solvent to_amount user rate false b ≡ ok true
unfolding is_solvent
pool_loans-is_solvent to_amount user rate for_usdc for_dai delta b {x} {y} hx hy precision cr part
      worth some_share same some_debt small_value small_debt =
    let bx = pool_borrow_amount-bound rate for_usdc delta hx in
    let by = pool_borrow_amount-bound rate for_dai delta hy in
    let c = to_amount (b.user_collateral_share user) in
    let covered : covers c (x + y) rate (10 ^ 5) b ≡ ok true =
      covers-true c (x + y) rate b (pool_borrow_amount-rate rate for_usdc (pos delta) hx) precision
        same some_debt (omega (arith, bx, by)) small_value small_debt in
    elim (Bool-cases (b.user_borrow_part user == 0)) [
      | inl none ↦ if-true (b.user_borrow_part user == 0) _ _ none
      | inr some ↦
          if-false (b.user_borrow_part user == 0) _ _ some
          ∙ if-false (b.user_collateral_share user == 0) _ _ (ground arith)
          ∙ ap (λ p. covers c p rate b.collateralization_rate b) part
          ∙ ap (λ r. covers c (x + y) rate r b) cr
          ∙ covered
    ]
