-- ===== src/Contracts/MarketConfig.antt =====
-- `setMarketConfig` and `setLiquidationMaxSlippage` of contracts/markets/Market.sol: the settings of a market,
-- each of which is left as it is where its argument is 0 (or empty).
use tapioca_lending_engine.Base.{
  ℕ, ◌+◌, ◌*◌, ◌==◌, ◌≤◌, ◌<◌, ◌≡◌, ltb, Bool, not, List, [], ◌∷◌, Outcome, ok, ◌>>=◌, ◌>>◌,
  fail_if, arith, if◌then◌else◌, >>=-eq-ok,
}

pub record MarketConfig : Type 0 where
  pub owner : ℕ
  pub oracle : ℕ
  pub oracle_data : List ℕ
  pub conservator : ℕ
  pub protocol_fee : ℕ
  pub liquidation_bonus_amount : ℕ
  pub min_liquidator_reward : ℕ
  pub max_liquidator_reward : ℕ
  pub total_borrow_cap : ℕ
  pub collateralization_rate : ℕ
  pub liquidation_collateralization_rate : ℕ
  pub liquidation_multiplier : ℕ
  pub max_liquidation_slippage : ℕ

abbrev is_empty : List ℕ → Bool
is_empty [] = Bool.true
is_empty (b ∷ bs) = Bool.false

-- The three addresses and data that are not checked
abbrev set_references : ℕ → List ℕ → ℕ → MarketConfig → MarketConfig
set_references oracle oracle_data conservator c = record c {
  oracle = if oracle == 0 then c.oracle else oracle;
  oracle_data = if is_empty oracle_data then c.oracle_data else oracle_data;
  conservator = if conservator == 0 then c.conservator else conservator;
}

unfoldable set_protocol_fee : ℕ → MarketConfig → Outcome MarketConfig
set_protocol_fee v c =
    if v == 0
    then ok c
    else (fail_if (ltb 100_000 v) "Market: not valid" >> ok (record c { protocol_fee = v }))

unfoldable set_bonus : ℕ → MarketConfig → Outcome MarketConfig
set_bonus v c =
    if v == 0
    then ok c
    else (fail_if (not (ltb v 100_000)) "Market: not valid"
        >> ok (record c { liquidation_bonus_amount = v }))

unfoldable set_min_reward : ℕ → MarketConfig → Outcome MarketConfig
set_min_reward v c =
    if v == 0
    then ok c
    else (fail_if (not (ltb v 100_000)) "Market: not valid"
        >> (fail_if (not (ltb v c.max_liquidator_reward)) "Market: not valid"
            >> ok (record c { min_liquidator_reward = v })))

unfoldable set_max_reward : ℕ → MarketConfig → Outcome MarketConfig
set_max_reward v c =
    if v == 0
    then ok c
    else (fail_if (not (ltb v 100_000)) "Market: not valid"
        >> (fail_if (not (ltb c.min_liquidator_reward v)) "Market: not valid"
            >> ok (record c { max_liquidator_reward = v })))

abbrev set_cap : ℕ → MarketConfig → MarketConfig
set_cap v c = record c { total_borrow_cap = if v == 0 then c.total_borrow_cap else v }

unfoldable set_rate : ℕ → MarketConfig → Outcome MarketConfig
set_rate v c =
    if v == 0
    then ok c
    else (fail_if (ltb 100_000 v) "Market: not valid"
        >> (fail_if (ltb c.liquidation_collateralization_rate v)
              "Market: collateralizationRate too big"
            >> (fail_if (not (ltb (v * (100_000 + c.liquidation_multiplier)) (100_000 * 100_000)))
                  "Market: CR * (1 + LM) >= 1"
                >> ok (record c { collateralization_rate = v }))))

unfoldable set_liquidation_rate : ℕ → MarketConfig → Outcome MarketConfig
set_liquidation_rate v c =
    if v == 0
    then ok c
    else (fail_if (ltb v c.collateralization_rate)
          "Market: liquidationCollateralizationRate too small"
        >> (fail_if (ltb 100_000 v) "Market: not valid"
            >> ok (record c { liquidation_collateralization_rate = v })))

-- `setMarketConfig`, its arguments in order
unfoldable pub set_market_config :
    ℕ → ℕ → List ℕ → ℕ → ℕ → ℕ → ℕ → ℕ → ℕ → ℕ → ℕ → MarketConfig → Outcome MarketConfig
unfolding set_protocol_fee set_bonus set_min_reward set_max_reward set_rate set_liquidation_rate
set_market_config sender oracle oracle_data conservator fee bonus min_reward max_reward cap rate
      liquidation_rate c =
    do
      fail_if (not (sender == c.owner)) "Ownable: caller is not the owner"
      c1 ← set_protocol_fee fee (set_references oracle oracle_data conservator c)
      c2 ← set_bonus bonus c1
      c3 ← set_min_reward min_reward c2
      c4 ← set_max_reward max_reward c3
      c5 ← set_rate rate (set_cap cap c4)
      set_liquidation_rate liquidation_rate c5

unfoldable pub set_liquidation_max_slippage : ℕ → ℕ → MarketConfig → Outcome MarketConfig
set_liquidation_max_slippage sender v c = do
  fail_if (not (sender == c.owner)) "Ownable: caller is not the owner"
  fail_if (not (ltb v 100_000)) "Market: not valid"
  ok (record c { max_liquidation_slippage = v })

-- The settings are in order: the rates, the rewards and the percentages.
abbrev pub InOrder : MarketConfig → Type 0
InOrder c =
    (c.collateralization_rate ≤ c.liquidation_collateralization_rate)
    × (c.liquidation_collateralization_rate ≤ 100_000)
    × (c.min_liquidator_reward < c.max_liquidator_reward)
    × (c.max_liquidator_reward < 100_000)
    × (c.protocol_fee ≤ 100_000)
    × (c.liquidation_bonus_amount < 100_000)
    × (c.max_liquidation_slippage < 100_000)

set_protocol_fee-InOrder :
    (v : ℕ) (c : MarketConfig) {d : MarketConfig}
    → InOrder c
    → set_protocol_fee v c ≡ ok d
    → InOrder d
unfolding set_protocol_fee
set_protocol_fee-InOrder v c i h = ground arith

set_bonus-InOrder :
    (v : ℕ) (c : MarketConfig) {d : MarketConfig} → InOrder c → set_bonus v c ≡ ok d → InOrder d
unfolding set_bonus
set_bonus-InOrder v c i h = ground arith

set_min_reward-InOrder :
    (v : ℕ) (c : MarketConfig) {d : MarketConfig}
    → InOrder c
    → set_min_reward v c ≡ ok d
    → InOrder d
unfolding set_min_reward
set_min_reward-InOrder v c i h = ground arith

set_max_reward-InOrder :
    (v : ℕ) (c : MarketConfig) {d : MarketConfig}
    → InOrder c
    → set_max_reward v c ≡ ok d
    → InOrder d
unfolding set_max_reward
set_max_reward-InOrder v c i h = ground arith

set_rate-InOrder :
    (v : ℕ) (c : MarketConfig) {d : MarketConfig} → InOrder c → set_rate v c ≡ ok d → InOrder d
unfolding set_rate
set_rate-InOrder v c i h = ground arith

set_liquidation_rate-InOrder :
    (v : ℕ) (c : MarketConfig) {d : MarketConfig}
    → InOrder c
    → set_liquidation_rate v c ≡ ok d
    → InOrder d
unfolding set_liquidation_rate
set_liquidation_rate-InOrder v c i h = ground arith

-- Settings that were in order are so after a `setMarketConfig` that does not revert.
pub set_market_config-InOrder :
    (s o : ℕ) (data_bytes : List ℕ) (k fee bonus low high cap rate liquidation_rate : ℕ)
    (c : MarketConfig) {d : MarketConfig}
    → InOrder c
    → set_market_config s o data_bytes k fee bonus low high cap rate liquidation_rate c ≡ ok d
    → InOrder d
unfolding set_market_config
set_market_config-InOrder s o data_bytes k fee bonus low high cap rate liquidation_rate c i h =
    let (_, _, h0) =
      >>=-eq-ok (fail_if (not (s == c.owner)) "Ownable: caller is not the owner") _ h in
    let (c1, e1, h1) = >>=-eq-ok (set_protocol_fee fee (set_references o data_bytes k c)) _ h0 in
    let (c2, e2, h2) = >>=-eq-ok (set_bonus bonus c1) _ h1 in
    let (c3, e3, h3) = >>=-eq-ok (set_min_reward low c2) _ h2 in
    let (c4, e4, h4) = >>=-eq-ok (set_max_reward high c3) _ h3 in
    let (c5, e5, h5) = >>=-eq-ok (set_rate rate (set_cap cap c4)) _ h4 in
    set_liquidation_rate-InOrder liquidation_rate c5
      (set_rate-InOrder rate (set_cap cap c4)
        (set_max_reward-InOrder high c3
          (set_min_reward-InOrder low c2
            (set_bonus-InOrder bonus c1
              (set_protocol_fee-InOrder fee (set_references o data_bytes k c) i e1) e2)
            e3)
          e4)
        e5)
      h5

-- Settings that were in order are so after a `setLiquidationMaxSlippage` that does not revert, which changes
-- no other setting.
pub set_liquidation_max_slippage-InOrder :
    (s v : ℕ) (c : MarketConfig) {d : MarketConfig}
    → InOrder c
    → set_liquidation_max_slippage s v c ≡ ok d
    → InOrder d × (d ≡ record c { max_liquidation_slippage = v })
unfolding set_liquidation_max_slippage
set_liquidation_max_slippage-InOrder s v c i h = ground arith
