-- ===== src/Contracts/InitRates.antt =====
-- The rates of a new market: `_initCoreStorage` of contracts/markets/bigBang/BigBang.sol and
-- `_initDefaultValues` of contracts/markets/singularity/Singularity.sol.
use tapioca_lending_engine.Base.{
  ℕ, ltb, leb, ◌≡◌, ◌⊎◌, inl, inr, true, not, Outcome, ok, ◌>>◌, fail_if, if◌then◌else◌, arith,
}

-- A rate, or the default where it is 0
abbrev or_default : ℕ → ℕ → ℕ
or_default rate default = if ltb 0 rate then rate else default

-- The collateralization rate and the liquidation rate that a BigBang market starts with
unfoldable pub big_bang_init_rates : ℕ → ℕ → Outcome (ℕ × ℕ)
big_bang_init_rates rate liquidation_rate = do
  fail_if (ltb 100_000 rate) "NotValid"
  fail_if (ltb 100_000 liquidation_rate) "NotValid"
  let r = or_default rate 75_000
  let l = or_default liquidation_rate 80_000
  fail_if (ltb l r) "NotValid"
  ok (r, l)

-- Those of a Singularity market, where they may not be equal
unfoldable pub singularity_init_rates : ℕ → ℕ → Outcome (ℕ × ℕ)
singularity_init_rates rate liquidation_rate = do
  let r = or_default rate 75_000
  let l = or_default liquidation_rate 80_000
  fail_if (not (ltb r l)) "SGL: liquidationCollateralizationRate not valid"
  ok (r, l)

-- Where a market of either kind starts, its liquidation rate is no smaller than its collateralization rate.
pub init_rates_ordered :
    (rate liquidation_rate : ℕ) {r : ℕ × ℕ}
    → (big_bang_init_rates rate liquidation_rate ≡ ok r)
      ⊎ (singularity_init_rates rate liquidation_rate ≡ ok r)
    → leb r.0 r.1 ≡ true
unfolding big_bang_init_rates singularity_init_rates
init_rates_ordered rate l (inl h) = ground arith
init_rates_ordered rate l (inr h) = ground arith
