-- ===== src/Setup/Register.antt =====
-- The steps that make the contracts known to one another: `setupUsdoInPenrose`,
-- `setupRegisterMCInPenrose`, `setupRegisterBBAndSGLMarketsInPenrose`, `setupRegisterBigBangEthMarket`,
-- `setupUsdoFlashloanHelperInUsdo` and `setupRegisterBBAsMinterBurnerInUsdo`.
use tapioca_lending_engine.Base.{
  ℕ, ◌==◌, String, str_eq, Bool, true, false, ◌||◌, none, some, List, [], ◌∷◌, ◌++◌, Outcome, ok,
  fail, ◌>>=◌, present, if◌then◌else◌,
}
use tapioca_lending_engine.Sdk.{
  addr, num, flag, encoded, Values, nil, ◌⸴◌, Call, Hre, Deployed, Contract,
}
use tapioca_lending_engine.Deploy.Names
use tapioca_lending_engine.Deploy.Loads.{is_arbitrum}
use tapioca_lending_engine.Setup.Item.{
  Item, has_usdo_token, has_singularity_master_contract, has_big_bang_master_contract, has_market,
  has_main_market, has_flashloan_helper, has_minter, has_burner,
}

-- `deployed.find((e) => e.name === name)!.address`
unfoldable pub find_address : List Deployed → String → Outcome ℕ
find_address [] name = fail "TypeError: undefined"
find_address (e ∷ es) name = if str_eq e.name name then ok e.address else find_address es name

-- `{ target, callData: interface.encodeFunctionData(fn, args), allowFailure: false }`
abbrev pub call : ℕ → String → Values → Call
call target fn args = record { target = target; allow_failure = false; call_data = encoded fn args }

-- The check of the `try` block: the id is there and the token is USDO. The source declares the id as a text:
-- an empty one counts as missing, as does an id that is not there, and "0" does not.
abbrev usdo_asset_of : Contract → ℕ → Outcome Contract
usdo_asset_of c usdo = elim c.yb_asset_id [
  | none ↦ fail "[+] 1 - USDO No ybAssetId found"
  | some id ↦ elim c.token [
    | none ↦ fail "TypeError: undefined"
    | some t ↦ if t == usdo then ok c else fail "[+] 1 - USDO No ybAssetId found"
  ]
]

-- The `try` block and its `catch`: what the database holds for the empty strategy of USDO, or, if it is
-- not there or not of this USDO, what it holds once the strategy is created. `create` is
-- `createEmptyStratYbAsset__task`, which returns the environment with the new database.
unfoldable pub load_usdo_asset :
    (Hre → String → ℕ → Outcome Hre) → Hre → ℕ → Outcome (Hre × Contract)
load_usdo_asset create hre usdo =
    elim (hre.load_local Names.yb_usdo_asset_without_strategy >>= λ c. usdo_asset_of c usdo) [
      | ok c ↦ ok (hre, c)
      | fail _ ↦
          (create hre Names.yb_usdo_asset_without_strategy usdo >>= λ hre'.
          hre'.load_local Names.yb_usdo_asset_without_strategy >>= λ c. ok (hre', c))
    ]

-- The environment comes back, for the steps that read the database later.
unfoldable pub setup_usdo_in_penrose :
    (Hre → String → ℕ → Outcome Hre) → Hre → List Deployed → Outcome (Hre × List Item)
unfolding find_address load_usdo_asset
setup_usdo_in_penrose create hre deployed = do
  penrose ← find_address deployed Names.penrose
  usdo ← find_address deployed Names.usdo
  r ← load_usdo_asset create hre usdo
  asset_id ← present r.1.yb_asset_id
  ok (
    r.0,
    record {
      goal = has_usdo_token penrose usdo;
      calls = call penrose "setUsdoToken" (addr usdo ⸴ num asset_id ⸴ nil) ∷ [];
    }
        ∷ [],
  )

unfoldable pub setup_register_mc_in_penrose : Hre → List Deployed → Outcome (List Item)
unfolding find_address
setup_register_mc_in_penrose hre deployed = do
  penrose ← find_address deployed Names.penrose
  sgl_mc ← find_address deployed Names.sgl_medium_risk_mc
  let sgl_item : Item = record {
    goal = has_singularity_master_contract penrose sgl_mc;
    calls = call penrose "registerSingularityMasterContract" (addr sgl_mc ⸴ num 1 ⸴ nil) ∷ [];
  }
  bb_items ←
      if is_arbitrum hre
      then (find_address deployed Names.bb_medium_risk_mc >>= λ bb_mc. ok (
          record {
            goal = has_big_bang_master_contract penrose bb_mc;
            calls = call penrose "registerBigBangMasterContract" (addr bb_mc ⸴ num 1 ⸴ nil) ∷ [];
          }
          ∷ []))
      else ok []
  ok (sgl_item ∷ bb_items)

-- `registerMarket`
abbrev pub register_market : ℕ → Bool → ℕ → ℕ → Item
register_market penrose is_bb mc market = record {
  goal = has_market penrose market;
  calls =
      call penrose (if is_bb then "addBigBang" else "addSingularity") (addr mc ⸴ addr market ⸴ nil)
      ∷ [];
}

-- The Arbitrum part of `setupRegisterBBAndSGLMarketsInPenrose`
unfoldable pub register_arb_markets : ℕ → List Deployed → Outcome (List Item)
unfolding find_address
register_arb_markets penrose deployed = do
  bb_mc ← find_address deployed Names.bb_medium_risk_mc
  mt_eth ← find_address deployed Names.bb_mt_eth_market
  t_reth ← find_address deployed Names.bb_t_reth_market
  t_wst_eth ← find_address deployed Names.bb_t_wst_eth_market
  sgl_mc ← find_address deployed Names.sgl_medium_risk_mc
  s_glp ← find_address deployed Names.sgl_s_glp_market
  ok (
      register_market penrose true bb_mc mt_eth
      ∷ register_market penrose true bb_mc t_reth
      ∷ register_market penrose true bb_mc t_wst_eth
      ∷ register_market penrose false sgl_mc s_glp
      ∷ [])

-- The part for the test networks that have sDAI; Ethereum itself is not among them.
unfoldable pub register_eth_markets : ℕ → List Deployed → Outcome (List Item)
unfolding find_address
register_eth_markets penrose deployed = do
  sgl_mc ← find_address deployed Names.sgl_medium_risk_mc
  s_dai ← find_address deployed Names.sgl_s_dai_market
  ok (register_market penrose false sgl_mc s_dai ∷ [])

unfoldable pub setup_register_bb_and_sgl_markets_in_penrose :
    Hre → List Deployed → Outcome (List Item)
unfolding register_arb_markets register_eth_markets
setup_register_bb_and_sgl_markets_in_penrose hre deployed = do
  penrose ← find_address deployed Names.penrose
  arb ← if is_arbitrum hre then register_arb_markets penrose deployed else ok []
  eth ←
      if str_eq hre.chain_name "sepolia" || str_eq hre.chain_name "optimism_sepolia"
      then register_eth_markets penrose deployed
      else ok []
  ok (arb ++ eth)

unfoldable pub setup_register_big_bang_eth_market : Hre → List Deployed → Outcome (List Item)
unfolding find_address
setup_register_big_bang_eth_market hre deployed = do
  penrose ← find_address deployed Names.penrose
  mt_eth ← find_address deployed Names.bb_mt_eth_market
  ok (
      record {
        goal = has_main_market penrose mt_eth;
        calls = call penrose "setBigBangEthMarket" (addr mt_eth ⸴ nil) ∷ [];
      }
      ∷ [])

unfoldable pub setup_usdo_flashloan_helper_in_usdo : Hre → List Deployed → Outcome (List Item)
unfolding find_address
setup_usdo_flashloan_helper_in_usdo hre deployed = do
  helper ← find_address deployed Names.usdo_flashloan_helper
  usdo ← find_address deployed Names.usdo
  ok (
      record {
        goal = has_flashloan_helper usdo helper;
        calls = call usdo "setFlashloanHelper" (addr helper ⸴ nil) ∷ [];
      }
      ∷ record {
        goal = has_minter usdo hre.lz_chain_id helper;
        calls = call usdo "setMinterStatus" (addr helper ⸴ flag true ⸴ nil) ∷ [];
      }
      ∷ record {
        goal = has_burner usdo hre.lz_chain_id helper;
        calls = call usdo "setBurnerStatus" (addr helper ⸴ flag true ⸴ nil) ∷ [];
      }
      ∷ [])

-- `registerMinterBurner`, which reads the minter's role alone and sets both.
unfoldable pub register_minter_burner : Hre → List Deployed → ℕ → Outcome Item
unfolding find_address
register_minter_burner hre deployed market = do
  usdo ← find_address deployed Names.usdo
  ok (record {
    goal = has_minter usdo hre.lz_chain_id market;
    calls =
        call usdo "setMinterStatus" (addr market ⸴ flag true ⸴ nil)
        ∷ call usdo "setBurnerStatus" (addr market ⸴ flag true ⸴ nil)
        ∷ [];
  })

-- The Arbitrum part of `setupRegisterBBAsMinterBurnerInUsdo`, which is all of it
unfoldable pub arb_minter_burners : Hre → List Deployed → Outcome (List Item)
unfolding register_minter_burner
arb_minter_burners hre deployed = do
  mt_eth ← find_address deployed Names.bb_mt_eth_market
  t_reth ← find_address deployed Names.bb_t_reth_market
  t_wst_eth ← find_address deployed Names.bb_t_wst_eth_market
  i ← register_minter_burner hre deployed mt_eth
  j ← register_minter_burner hre deployed t_reth
  k ← register_minter_burner hre deployed t_wst_eth
  ok (i ∷ j ∷ k ∷ [])

unfoldable pub setup_register_bb_as_minter_burner_in_usdo :
    Hre → List Deployed → Outcome (List Item)
unfolding arb_minter_burners
setup_register_bb_as_minter_burner_in_usdo hre deployed =
    if is_arbitrum hre then arb_minter_burners hre deployed else ok []
