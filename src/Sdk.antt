-- ===== src/Sdk.antt =====
-- What the tasks take from the packages that they call (tapioca-sdk, ethers, hardhat), none of which
-- stands in the repository: the shapes of their values, and `Hre`, which holds what they return.
use tapioca_lending_engine.Base.{ℕ, String, Bool, Option, List, Outcome}

-- A value that is passed to a contract. `struct` has its field names, `encoded` is the result of
-- `encodeFunctionData`, held by the function's name and its arguments.
mutual
  pub data Value : Type 0 where
    addr : ℕ → Value
    num : ℕ → Value
    flag : Bool → Value
    text : String → Value
    seq : Values → Value
    struct : Fields → Value
    encoded : String → Values → Value

  pub data Values : Type 0 where
    nil : Values
    cons : Value → Values → Values

  pub data Fields : Type 0 where
    end : Fields
    field : String → Value → Fields → Fields

infixr 67 ◌⸴◌
pattern abbrev pub ◌⸴◌ : Value → Values → Values
v ⸴ vs = cons v vs

-- `TapiocaMulticall.CallStruct`
pub record Call : Type 0 where
  pub target : ℕ
  pub allow_failure : Bool
  pub call_data : Value

-- `TapiocaMulticall.CallValueStruct`
pub record CallValue : Type 0 where
  pub target : ℕ
  pub allow_failure : Bool
  pub call_data : Value
  pub value : ℕ

-- `IDependentOn`: the deployed address of `deployment_name` goes to an argument, or to a field of it.
pub record Dependency : Type 0 where
  pub arg_position : ℕ
  pub key_name : Option String
  pub deployment_name : String

-- `IDeployerVMAdd`
pub record Build : Type 0 where
  pub contract : String
  pub deployment_name : String
  pub args : List Value
  pub depends_on : List Dependency

-- `TDeploymentVMContract`, an entry of `VM.list()`
pub record Deployed : Type 0 where
  pub name : String
  pub address : ℕ

-- `TContract`, an entry of the deployment database; the two fields of `meta` may be missing.
pub record Contract : Type 0 where
  pub address : ℕ
  pub yb_asset_id : Option ℕ
  pub token : Option ℕ

-- `EChainID`, the members that the configuration has a key for
pub data ChainId : Type 0 where
  arbitrum arbitrum_sepolia mainnet sepolia optimism_sepolia hardhat other : ChainId

-- The contracts of other repositories, by the keys of their `DEPLOYMENT_NAMES`
pub data GlobalName : Type 0 where
  tap_token yield_box cluster pearlmit zero_x_swapper tap_token_yb_empty_strat : GlobalName
  weth_yb_empty_strat market_sdai_oracle tsdai mteth teth treth twsteth : GlobalName
  market_teth_oracle market_reth_oracle market_wsteth_oracle market_glp_oracle : GlobalName
  eth_glp_oracle tsglp usdo_usdc_uni_v3_oracle : GlobalName

-- The run time environment of a task: `hre.SDK` and the parameters that the deployer passes on.
pub record Hre : Type 0 where
  pub chain_name : String
  pub e_chain_id : ChainId
  pub lz_chain_id : ℕ
  pub endpoint : ℕ
  pub is_testnet : Bool
  pub multicall_addr : ℕ
  pub load_global : GlobalName → Outcome Contract
  pub load_local : String → Outcome Contract
