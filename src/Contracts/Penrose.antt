-- ===== src/Contracts/Penrose.antt =====
-- contracts/Penrose.sol: the registry of master contracts and markets. A function takes the caller,
-- its arguments and the state; a revert is `fail` with the error's name. Events are left out. A call
-- of a market's `accrue` changes no state of Penrose, so the functions return the markets that they
-- make it to, in order.
pub mod Arrays
pub mod Clones
pub mod Debt
pub mod Remove
pub mod Invariant
pub mod Origins
pub mod Authority
use tapioca_lending_engine.Base.{
  ℕ, ◌==◌, Bool, true, false, not, ◌&&◌, ◌||◌, List, [], ◌∷◌, ◌++◌, Outcome, ok, ◌>>=◌, ◌>>◌,
  fail_if, Mapping, update, if◌then◌else◌,
}
use Arrays.{swap_remove}

-- `IPenrose.MasterContract`: the location and the risk
pub record MasterContract : Type 0 where
  pub location : ℕ
  pub risk : ℕ

pub record Penrose : Type 0 where
  pub owner : ℕ
  pub conservator : ℕ
  pub paused : Bool
  pub cluster : ℕ
  pub yield_box : ℕ
  pub pearlmit : ℕ
  pub usdo_token : ℕ
  pub usdo_asset_id : ℕ
  pub main_asset_id : ℕ
  pub singularity_master_contracts : List MasterContract
  pub bigbang_master_contracts : List MasterContract
  pub is_singularity_master_contract_registered : Mapping Bool
  pub is_big_bang_master_contract_registered : Mapping Bool
  pub is_market_registered : Mapping Bool
  pub big_bang_eth_market : ℕ
  pub big_bang_eth_debt_rate : ℕ
  pub all_big_bang_markets : List ℕ
  pub is_origin_registered : Mapping Bool
  pub all_origins_markets : List ℕ
  pub master_contract_of : Mapping ℕ
  pub clones_of : Mapping (List ℕ)

-- The modifier `onlyOwner`
abbrev pub only_owner : ℕ → Penrose → Outcome (Unit {0})
only_owner sender p = fail_if (not (sender == p.owner)) "Ownable: caller is not the owner"

unfoldable pub set_cluster : ℕ → ℕ → Penrose → Outcome Penrose
set_cluster sender cluster p = do
  only_owner sender p
  fail_if (cluster == 0) "ZeroAddress"
  ok (record p { cluster = cluster })

unfoldable pub set_conservator : ℕ → ℕ → Penrose → Outcome Penrose
set_conservator sender conservator p = do
  only_owner sender p
  fail_if (conservator == 0) "ZeroAddress"
  ok (record p { conservator = conservator })

-- `val == paused`, for booleans
abbrev pub same : Bool → Bool → Bool
same true b = b
same false b = not b

unfoldable pub update_pause : ℕ → Bool → Penrose → Outcome Penrose
update_pause sender val p = do
  fail_if (not (sender == p.conservator)) "NotAuthorized"
  fail_if (same val p.paused) "NotValid"
  ok (record p { paused = val })

unfoldable pub set_usdo_token : ℕ → ℕ → ℕ → Penrose → Outcome Penrose
set_usdo_token sender token asset_id p = do
  only_owner sender p
  fail_if (token == 0) "ZeroAddress"
  fail_if (asset_id == 0) "NotValid"
  ok (record p { usdo_token = token; usdo_asset_id = asset_id })

unfoldable pub register_singularity_master_contract : ℕ → ℕ → ℕ → Penrose → Outcome Penrose
register_singularity_master_contract sender mc risk p = do
  only_owner sender p
  fail_if (p.is_singularity_master_contract_registered mc) "Registered"
  ok (record p {
    singularity_master_contracts =
        p.singularity_master_contracts ++ record { location = mc; risk = risk } ∷ [];
    is_singularity_master_contract_registered =
        update p.is_singularity_master_contract_registered mc true;
  })

unfoldable pub register_big_bang_master_contract : ℕ → ℕ → ℕ → Penrose → Outcome Penrose
register_big_bang_master_contract sender mc risk p = do
  only_owner sender p
  fail_if (p.is_big_bang_master_contract_registered mc) "Registered"
  ok (record p {
    bigbang_master_contracts =
        p.bigbang_master_contracts ++ record { location = mc; risk = risk } ∷ [];
    is_big_bang_master_contract_registered =
        update p.is_big_bang_master_contract_registered mc true;
  })

-- `deploy`, with the address that `create` or `create2` returned; the call of the clone's `init`,
-- which comes last, is the caller's.
unfoldable pub deploy : ℕ → ℕ → ℕ → Penrose → Outcome Penrose
deploy sender mc clone p = do
  only_owner sender p
  fail_if (mc == 0) "BoringFactory: No masterContract"
  ok (record p {
    master_contract_of = update p.master_contract_of clone mc;
    clones_of = update p.clones_of mc (p.clones_of mc ++ clone ∷ []);
  })

-- `has_code` says whether the clone's address has code.
unfoldable pub register_singularity : ℕ → ℕ → ℕ → Bool → Penrose → Outcome Penrose
unfolding deploy
register_singularity sender mc clone has_code p = do
  only_owner sender p
  fail_if (not (p.is_singularity_master_contract_registered mc)) "NotRegistered"
  p' ← deploy sender mc clone p
  fail_if (clone == 0) "ZeroAddress"
  fail_if (not has_code) "Failed"
  ok (record p' { is_market_registered = update p'.is_market_registered clone true })

unfoldable pub register_big_bang : ℕ → ℕ → ℕ → Bool → Penrose → Outcome Penrose
unfolding deploy
register_big_bang sender mc clone has_code p = do
  only_owner sender p
  fail_if (not (p.is_big_bang_master_contract_registered mc)) "NotRegistered"
  p' ← deploy sender mc clone p
  fail_if (clone == 0) "ZeroAddress"
  fail_if (not has_code) "Failed"
  ok (record p' {
    is_market_registered = update p'.is_market_registered clone true;
    all_big_bang_markets = p'.all_big_bang_markets ++ clone ∷ [];
  })

unfoldable pub add_singularity : ℕ → ℕ → ℕ → Penrose → Outcome Penrose
add_singularity sender mc market p = do
  only_owner sender p
  fail_if (not (p.is_singularity_master_contract_registered mc)) "NotRegistered"
  fail_if (p.is_market_registered market) "AlreadyAdded"
  ok (record p {
    is_market_registered = update p.is_market_registered market true;
    clones_of = update p.clones_of mc (p.clones_of mc ++ market ∷ []);
    master_contract_of = update p.master_contract_of market mc;
  })

unfoldable pub add_big_bang : ℕ → ℕ → ℕ → Penrose → Outcome Penrose
add_big_bang sender mc market p = do
  only_owner sender p
  fail_if (not (p.is_big_bang_master_contract_registered mc)) "NotRegistered"
  fail_if (p.is_market_registered market) "AlreadyAdded"
  ok (record p {
    is_market_registered = update p.is_market_registered market true;
    clones_of = update p.clones_of mc (p.clones_of mc ++ market ∷ []);
    master_contract_of = update p.master_contract_of market mc;
    all_big_bang_markets = p.all_big_bang_markets ++ market ∷ [];
  })

unfoldable pub add_origins_market : ℕ → ℕ → Penrose → Outcome Penrose
add_origins_market sender market p = do
  only_owner sender p
  fail_if (p.is_origin_registered market) "AlreadyAdded"
  ok (record p {
    is_origin_registered = update p.is_origin_registered market true;
    all_origins_markets = p.all_origins_markets ++ market ∷ [];
  })

-- The part of `unregisterContract` that depends on the market's type (1 is BigBang, 2 is Origins):
-- `allBigBangMarkets` and `allOriginsMarkets` afterwards.
unfoldable pub remove_listed : ℕ → ℕ → Penrose → Outcome (List ℕ × List ℕ)
unfolding swap_remove
remove_listed mkt market_type p =
    if market_type == 1
    then (swap_remove p.all_big_bang_markets mkt >>= λ l. ok (l, p.all_origins_markets))
    else (if market_type == 2
        then (swap_remove p.all_origins_markets mkt >>= λ l. ok (p.all_big_bang_markets, l))
        else ok (p.all_big_bang_markets, p.all_origins_markets))

unfoldable pub unregister_contract : ℕ → ℕ → ℕ → Penrose → Outcome Penrose
unfolding remove_listed
unregister_contract sender mkt market_type p = do
  only_owner sender p
  lists ← remove_listed mkt market_type p
  clones ← swap_remove (p.clones_of (p.master_contract_of mkt)) mkt
  ok (record p {
    is_market_registered = update p.is_market_registered mkt false;
    master_contract_of = update p.master_contract_of mkt 0;
    all_big_bang_markets = lists.0;
    all_origins_markets = lists.1;
    clones_of = update p.clones_of (p.master_contract_of mkt) clones;
  })

-- The loop that `setBigBangEthMarket` and `_reAccrueMarkets` share: the registered markets of the
-- list, without the main one unless it is included.
unfoldable pub accrued : Penrose → Bool → List ℕ → List ℕ
accrued p include_main [] = []
accrued p include_main (m ∷ ms) =
    let rest = accrued p include_main ms in
    if p.is_market_registered m && (include_main || not (m == p.big_bang_eth_market))
    then m ∷ rest
    else rest

unfoldable pub set_big_bang_eth_market : ℕ → ℕ → Penrose → Outcome (Penrose × List ℕ)
unfolding accrued
set_big_bang_eth_market sender market p = do
  only_owner sender p
  fail_if (market == 0) "ZeroAddress"
  let calls = if p.big_bang_eth_market == 0 then [] else accrued p false p.all_big_bang_markets
  ok (record p { big_bang_eth_market = market }, calls)

unfoldable pub set_big_bang_eth_market_debt_rate : ℕ → ℕ → Penrose → Outcome (Penrose × List ℕ)
set_big_bang_eth_market_debt_rate sender rate p = do
  only_owner sender p
  let calls = if p.big_bang_eth_market == 0 then [] else p.big_bang_eth_market ∷ []
  ok (record p { big_bang_eth_debt_rate = rate }, calls)

unfoldable pub re_accrue_big_bang_markets : ℕ → Penrose → Outcome (List ℕ)
unfolding accrued
re_accrue_big_bang_markets sender p = do
  fail_if p.paused "Paused"
  ok (if sender == p.big_bang_eth_market then accrued p false p.all_big_bang_markets else [])
