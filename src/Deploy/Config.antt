-- ===== src/Deploy/Config.antt =====
-- `DEPLOY_CONFIG` of tasks/deploy/DEPLOY_CONFIG.ts. A key that a chain lacks is `none`; rates and
-- amounts are in the units of the contracts (1e5 is 100% for a collateralization rate, 1e18 for a
-- debt rate), and an address is the number that its hexadecimal text stands for.
use tapioca_lending_engine.Base.{ℕ, ◌*◌, ◌^◌, Option, none, some}
use tapioca_lending_engine.Sdk.{
  ChainId, arbitrum, arbitrum_sepolia, mainnet, sepolia, optimism_sepolia, hardhat, other,
}

-- `TBBMarketConfig`
pub record BbMarketConfig : Type 0 where
  pub debt_rate_against_eth : ℕ
  pub debt_rate_min : ℕ
  pub debt_rate_max : ℕ
  pub collateralization_rate : ℕ
  pub liquidation_collateralization_rate : ℕ

-- `TSGLMarketConfig`
pub record SglMarketConfig : Type 0 where
  pub collateralization_rate : ℕ
  pub liquidation_collateralization_rate : ℕ

pub record GlpStrat : Type 0 where
  pub gmx_reward_router : ℕ
  pub glp_reward_router : ℕ

-- The value type of `TPostLbp`
pub record PostLbp : Type 0 where
  pub sdai : Option ℕ
  pub sglp : Option ℕ
  pub glp_strat : Option GlpStrat
  pub teth_origins_market_config : Option ℕ
  pub mteth_market_config : Option BbMarketConfig
  pub treth_market_config : Option BbMarketConfig
  pub twsteth_market_config : Option BbMarketConfig
  pub tsdai_market_config : Option SglMarketConfig
  pub tsglp_market_config : Option SglMarketConfig

abbrev pub market_config_arb : PostLbp
market_config_arb = record {
  sdai = none;
  sglp = none;
  glp_strat = none;
  teth_origins_market_config = some 100_000;
  mteth_market_config = some (record {
    debt_rate_against_eth = 0;
    debt_rate_min = 0;
    debt_rate_max = 0;
    collateralization_rate = 87_000;
    liquidation_collateralization_rate = 93_000;
  });
  treth_market_config = some (record {
    debt_rate_against_eth = 15 * 10 ^ 16;
    debt_rate_min = 5 * 10 ^ 16;
    debt_rate_max = 35 * 10 ^ 16;
    collateralization_rate = 87_000;
    liquidation_collateralization_rate = 93_000;
  });
  twsteth_market_config = some (record {
    debt_rate_against_eth = 15 * 10 ^ 16;
    debt_rate_min = 5 * 10 ^ 16;
    debt_rate_max = 35 * 10 ^ 16;
    collateralization_rate = 86_000;
    liquidation_collateralization_rate = 92_000;
  });
  tsdai_market_config = none;
  tsglp_market_config =
      some
        (record { collateralization_rate = 85_000; liquidation_collateralization_rate = 90_000 });
}

abbrev pub market_config_mainnet : PostLbp
market_config_mainnet = record {
  sdai = none;
  sglp = none;
  glp_strat = none;
  teth_origins_market_config = none;
  mteth_market_config = none;
  treth_market_config = none;
  twsteth_market_config = none;
  tsdai_market_config =
      some
        (record { collateralization_rate = 98_000; liquidation_collateralization_rate = 99_000 });
  tsglp_market_config = none;
}

abbrev post_lbp_arbitrum : PostLbp
post_lbp_arbitrum = record market_config_arb {
  sglp = some 0x5402B5F40310bDED796c7D0F3FF6683f5C0cFfdf;
  glp_strat = some (record {
    gmx_reward_router = 0xA906F338CB21815cBc4Bc87ace9e68c87eF8d8F1;
    glp_reward_router = 0xB95DB5B167D75e6d04227CfFFA61069348d271F5;
  });
}

abbrev pub post_lbp_arbitrum_sepolia : PostLbp
post_lbp_arbitrum_sepolia = record market_config_arb {
  sglp = some 0x1B460E311753fDB46451EF3d11d7B9eE5542b369;
}

abbrev pub post_lbp : ChainId → Option PostLbp
post_lbp arbitrum = some post_lbp_arbitrum
post_lbp arbitrum_sepolia = some post_lbp_arbitrum_sepolia
post_lbp mainnet =
    some (record market_config_mainnet { sdai = some 0x83f20f44975d03b1b09e64809b757c47f942beea })
post_lbp sepolia =
    some (record market_config_mainnet { sdai = some 0xC6EA2075314a58cf74DE8430b24714E600A21Dd8 })
post_lbp optimism_sepolia =
    some (record market_config_mainnet { sdai = some 0x37359B8bfbFAE28E513EE31a2A94A9Ec60668d90 })
post_lbp hardhat = some post_lbp_arbitrum
post_lbp other = none

-- The value type of `TUSDOUniswapPool`
pub record UsdoUniswapPool : Type 0 where
  pub eth_amount_to_mint_for_usdc_pool : ℕ
  pub eth_amount_to_mint_for_dai_pool : ℕ

abbrev pub usdo_uniswap_pool : ChainId → Option UsdoUniswapPool
usdo_uniswap_pool arbitrum =
    some (record { eth_amount_to_mint_for_usdc_pool = 0; eth_amount_to_mint_for_dai_pool = 0 })
usdo_uniswap_pool arbitrum_sepolia = some (record {
  eth_amount_to_mint_for_usdc_pool = 10 ^ 18;
  eth_amount_to_mint_for_dai_pool = 10 ^ 18;
})
usdo_uniswap_pool _ = none

-- `MISC`, whose entries have the one field `WETH`
abbrev pub misc_weth : ChainId → Option ℕ
misc_weth arbitrum = some 0x82aF49447D8a07e3bd95BD0d56f35241523fBab1
misc_weth mainnet = some 0xC02aaA39b223FE8D0A0e5C4F27eAD9083C756Cc2
misc_weth arbitrum_sepolia = some 0x2EAe4fbc552fE35C1D3Df2B546032409bb0E431E
misc_weth sepolia = some 0xD8a79b479b0c47675E3882A1DAA494b6775CE227
misc_weth optimism_sepolia = some 0x4fB538Ed1a085200bD08F66083B72c0bfEb29112
misc_weth hardhat = none
misc_weth other = none
