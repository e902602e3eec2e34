-- ===== src/Tests/Data.antt =====
-- Concrete inputs: a registry, a token, a test network and what was deployed there.
use tapioca_lending_engine.Base.{
  ℕ, ◌+◌, ◌==◌, String, Bool, true, false, ◌&&◌, none, some, List, [], ◌∷◌, Outcome, ok, fail,
  arith, if◌then◌else◌,
}
use tapioca_lending_engine.Sdk.{
  Hre, Deployed, GlobalName, arbitrum_sepolia, tsglp, teth, mteth, treth, twsteth, yield_box,
}
use tapioca_lending_engine.Deploy.Queue.{Entry, queue_outline}
use tapioca_lending_engine.Contracts.Penrose.{Penrose}
use tapioca_lending_engine.Contracts.Usdo.{Usdo}
use tapioca_lending_engine.Setup.World.{World, Outside}
use tapioca_lending_engine.Setup.Stable.{Registers}

-- The value of a call that returns, or the default
abbrev pub value_or {ℓ} : {A : Type ℓ} → A → Outcome A → A
value_or d (ok a) = a
value_or d (fail e) = d

-- A new registry, owned by 9
abbrev pub new_penrose : Penrose
new_penrose = record {
  owner = 9;
  conservator = 8;
  paused = false;
  cluster = 2;
  yield_box = 3;
  pearlmit = 4;
  usdo_token = 0;
  usdo_asset_id = 0;
  main_asset_id = 1;
  singularity_master_contracts = [];
  bigbang_master_contracts = [];
  is_singularity_master_contract_registered = λ _. false;
  is_big_bang_master_contract_registered = λ _. false;
  is_market_registered = λ _. false;
  big_bang_eth_market = 0;
  big_bang_eth_debt_rate = 5;
  all_big_bang_markets = [];
  is_origin_registered = λ _. false;
  all_origins_markets = [];
  master_contract_of = λ _. 0;
  clones_of = λ _. [];
}

abbrev pub new_usdo : Usdo
new_usdo = record {
  owner = 9;
  this = 106;
  chain_id = 40_231;
  paused = false;
  flash_loan_helper = 0;
  fees = 10;
  allowed_minter = λ _. λ _. false;
  allowed_burner = λ _. λ _. false;
}

-- The addresses of what is queued: 100, 101 and so on. USDO is the seventh.
abbrev pub addresses_from : ℕ → List Entry → List Deployed
addresses_from a [] = []
addresses_from a (e ∷ es) = record { name = e.0; address = a } ∷ addresses_from (a + 1) es

abbrev pub deployed : List Deployed
deployed = addresses_from 100 (queue_outline true false true)

abbrev pub global_number : GlobalName → ℕ
global_number yield_box = 3
global_number tsglp = 21
global_number teth = 22
global_number mteth = 23
global_number treth = 24
global_number twsteth = 25
global_number _ = 20

-- Arbitrum's test network
abbrev pub hre : Hre
hre = record {
  chain_name = "arbitrum_sepolia";
  e_chain_id = arbitrum_sepolia;
  lz_chain_id = 40_231;
  endpoint = 5;
  is_testnet = true;
  multicall_addr = 9;
  load_global = λ n. ok (record { address = global_number n; yb_asset_id = some 7; token = none });
  load_local = λ _. ok (record { address = 30; yb_asset_id = some 6; token = some 106 });
}

abbrev pub create : Hre → String → ℕ → Outcome Hre
create h _ _ = ok h

abbrev pub world : World
world = record {
  penrose_at = λ _. new_penrose;
  usdo_at = λ _. new_usdo;
  ids_at = λ _. λ _. λ _. λ _. λ _. 0;
}

-- A YieldBox that gives every asset the id 12
abbrev pub same_key : ℕ → ℕ → ℕ → ℕ → ℕ → ℕ → ℕ → ℕ → Bool
same_key ty a s i ty' a' s' i' = ty' == ty && (a' == a && (s' == s && i' == i))

abbrev pub outside : Outside
outside = record {
  register_asset =
      λ ty a s i ids ty' a' s' i'. if same_key ty a s i ty' a' s' i' then 12 else ids ty' a' s' i';
  accrue = λ _. λ _. ok tt;
}

pub outside-Registers : Registers outside
outside-Registers = record {
  registered = λ ty a s i ids. ground arith;
  kept = λ ty a s i ids ty' a' s' i' h. ground arith;
}
