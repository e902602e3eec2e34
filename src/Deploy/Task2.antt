-- ===== src/Deploy/Task2.antt =====
-- Phase 2 (tasks/deploy/1-2-deployPostLbp.ts and postDepSetup/1-2-setupOriginsMintUSDO.ts): the build of
-- the Origins market, and the multicall that makes it a minter, borrows USDO from it for two pools and
-- sends the second loan to another chain. The multicall owns what the calls move.
pub mod Loan
pub mod Flows
use tapioca_lending_engine.Base.{
  ℕ, ◌^◌, ◌*◌, ◌/◌, ◌==◌, ltb, ◌||◌, String, Bool, true, false, List, [], ◌∷◌, ◌++◌, Outcome, ok,
  fail, ◌>>=◌, ◌>>◌, fail_if, present, if◌then◌else◌, str_eq,
}
use tapioca_lending_engine.Base.Int.{ℤ, pos, negsuc, ◌-ℤ◌, ◌*ℤ◌, ◌/ℤ◌}
use tapioca_lending_engine.Sdk.{
  Hre, Build, CallValue, Value, Values, addr, num, flag, text, struct, encoded, end, field, nil,
  ◌⸴◌, yield_box, teth,
}
use tapioca_lending_engine.Deploy.Names
use tapioca_lending_engine.Deploy.Config.{post_lbp, usdo_uniswap_pool}
use tapioca_lending_engine.Deploy.Loads.{global_address, is_arbitrum, load_deployments_arb}
use tapioca_lending_engine.Deploy.Builds.{build_origins}

-- `loadLocalContract(...).address`
abbrev pub local_address : Hre → String → Outcome ℕ
local_address hre name = do c ← hre.load_local name; ok c.address

unfoldable pub deploy_task_2 : (ℕ → ℕ → ℕ → ℕ → ℕ → ℕ) → Hre → Outcome (List Build)
unfolding load_deployments_arb
deploy_task_2 ids hre = do
  d ← load_deployments_arb hre
  usdo ← local_address hre Names.usdo
  usdo_strategy ← local_address hre Names.yb_usdo_asset_without_strategy
  t_eth_strategy ← local_address hre Names.yb_t_eth_asset_without_strategy
  if is_arbitrum hre
      then (do
        config ← present (post_lbp hre.e_chain_id)
        rate ← present config.teth_origins_market_config
        ok (
            build_origins ids Names.origins_t_eth_market hre.multicall_addr d.generic.yield_box usdo
              usdo_strategy d.teth t_eth_strategy d.eth_market_oracle rate
            ∷ []))
      else ok []

-- The contracts that `loadContracts__deployPostLbp__task_2` loads
pub record Contracts2 : Type 0 where
  pub origins : ℕ
  pub usdo : ℕ
  pub yield_box : ℕ
  pub t_eth : ℕ

unfoldable pub load_contracts_2 : Hre → Outcome Contracts2
load_contracts_2 hre = do
  origins ← local_address hre Names.origins_t_eth_market
  usdo ← local_address hre Names.usdo
  yb ← global_address hre yield_box
  t ← global_address hre teth
  ok (record { origins = origins; usdo = usdo; yield_box = yb; t_eth = t })

-- What the task reads: of the Origins market its rate and its ids, of USDO `removeDust` and the fee of
-- `quoteSend`, of the deployment database the other chains, and the options of LayerZero.
pub record Reads : Type 0 where
  pub exchange_rate : ℕ
  pub collateral_id : ℕ
  pub asset_id : ℕ
  pub remove_dust : ℕ → ℕ
  pub quote_send : Value → Outcome ℕ
  pub find_multicall : String → Outcome ℕ
  pub lz_chain_id : String → ℕ
  pub lz_receive_option : ℕ → Value

-- `encodeFunctionData` of a `uint256`: a number that does not fit throws.
abbrev pub encode_uint256 : ℤ → Outcome ℕ
encode_uint256 (pos n) = if ltb n (2 ^ 256) then ok n else fail "value out-of-bounds"
encode_uint256 (negsuc n) = fail "value out-of-bounds"

-- A call that must not fail
abbrev pub call_value : ℕ → String → Values → ℕ → CallValue
call_value target name args value = record {
  target = target;
  allow_failure = false;
  call_data = encoded name args;
  value = value;
}

-- What `mintOriginUSDO__deployPostLbp_2` returns, once its arguments are encoded
abbrev pub mint_calls : Contracts2 → Reads → ℕ → ℕ → ℕ → List CallValue
mint_calls c r multicall collateral_amount borrow_amount =
    call_value c.t_eth "approve" (addr c.yield_box ⸴ num collateral_amount ⸴ nil) 0
    ∷ call_value c.yield_box "depositAsset"
        (num r.collateral_id
          ⸴ addr multicall
          ⸴ addr multicall
          ⸴ num collateral_amount
          ⸴ num 0
          ⸴ nil)
        0
    ∷ call_value c.yield_box "setApprovalForAsset"
        (addr c.origins ⸴ num r.collateral_id ⸴ flag true ⸴ nil) 0
    ∷ call_value c.origins "addCollateral" (num collateral_amount ⸴ num 0 ⸴ nil) 0
    ∷ call_value c.origins "borrow" (num borrow_amount ⸴ nil) 0
    ∷ call_value c.yield_box "withdraw"
        (num r.asset_id ⸴ addr multicall ⸴ addr multicall ⸴ num borrow_amount ⸴ num 0 ⸴ nil) 0
    ∷ call_value c.yield_box "setApprovalForAsset"
        (addr c.origins ⸴ num r.collateral_id ⸴ flag false ⸴ nil) 0
    ∷ []

unfoldable pub mint_origin_usdo : Hre → Reads → ℕ → ℤ → Outcome (List CallValue)
unfolding load_contracts_2
mint_origin_usdo hre r collateral_amount borrow_amount = do
  c ← load_contracts_2 hre
  collateral ← encode_uint256 (pos collateral_amount)
  borrowed ← encode_uint256 borrow_amount
  ok (mint_calls c r hre.multicall_addr collateral borrowed)

-- The USDO that is borrowed against an amount of ETH: its price at the rate, less `delta` percent
unfoldable pub pool_borrow_amount : ℕ → ℕ → ℤ → Outcome ℤ
pool_borrow_amount exchange_rate eth_amount delta = do
  fail_if (exchange_rate == 0) "division-by-zero"
  let amount = pos (10 ^ 36 / exchange_rate * eth_amount / 10 ^ 18)
  ok (amount -ℤ amount *ℤ delta /ℤ pos 100)

abbrev pub role_calls : Contracts2 → List CallValue
role_calls c =
    call_value c.usdo "setMinterStatus" (addr c.origins ⸴ flag true ⸴ nil) 0
    ∷ call_value c.usdo "setBurnerStatus" (addr c.origins ⸴ flag true ⸴ nil) 0
    ∷ []

-- The chain that the second loan goes to
abbrev pub target_chain : Hre → Outcome String
target_chain hre =
    if str_eq hre.chain_name "arbitrum_sepolia"
    then ok "optimism_sepolia"
    else if str_eq hre.chain_name "arbitrum"
    then ok "ethereum"
    else fail "Not implemented"

abbrev pub send_data : Reads → String → ℕ → ℕ → Value
send_data r chain to amount = struct (
    field "amountLD" (num amount) (
      field "minAmountLD" (num (r.remove_dust amount)) (
        field "to" (num to) (
          field "dstEid" (num (r.lz_chain_id chain)) (
            field "extraOptions" (r.lz_receive_option 200_000)
              (field "composeMsg" (text "0x") (field "oftCmd" (text "0x") end)))))))

-- The transfer to the other chain, and the fee that is sent with it
unfoldable pub send_call : Hre → Reads → Contracts2 → ℤ → Outcome (CallValue × ℕ)
send_call hre r c borrow_amount = do
  chain ← target_chain hre
  to ← r.find_multicall chain
  amount ← encode_uint256 borrow_amount
  let data_sent = send_data r chain to amount
  fee ← r.quote_send data_sent
  ok (
    call_value c.usdo "send"
        (data_sent
          ⸴ struct (field "lzTokenFee" (num 0) (field "nativeFee" (num fee) end))
          ⸴ addr hre.multicall_addr
          ⸴ nil)
        fee,
    fee,
  )

-- The calls with the transfer, where there is one, and the value that is sent with them
unfoldable pub with_transfer :
    Hre → Reads → Contracts2 → Bool → ℤ → List CallValue → Outcome (List CallValue × ℕ)
unfolding send_call
with_transfer hre r c no_transfer borrow_amount calls =
    if no_transfer
    then ok (calls, 0)
    else (do sent ← send_call hre r c borrow_amount; ok (calls ++ sent.0 ∷ [], sent.1))

-- The calls of the multicall and the value that is sent with it
unfoldable pub post_deploy_task_2 : Hre → Reads → ℤ → Bool → Outcome (List CallValue × ℕ)
unfolding load_contracts_2 mint_origin_usdo pool_borrow_amount with_transfer
post_deploy_task_2 hre r delta no_transfer = do
  c ← load_contracts_2 hre
  pool ← present (usdo_uniswap_pool hre.e_chain_id)
  let eth_for_usdc = pool.eth_amount_to_mint_for_usdc_pool
  let eth_for_dai = pool.eth_amount_to_mint_for_dai_pool
  fail_if (eth_for_usdc == 0 || eth_for_dai == 0) "Skipping USDO minting"
  for_usdc ← pool_borrow_amount r.exchange_rate eth_for_usdc delta
  for_dai ← pool_borrow_amount r.exchange_rate eth_for_dai delta
  usdc_calls ← mint_origin_usdo hre r eth_for_usdc for_usdc
  dai_calls ← mint_origin_usdo hre r eth_for_dai for_dai
  with_transfer hre r c no_transfer for_dai (role_calls c ++ (usdc_calls ++ dai_calls))
