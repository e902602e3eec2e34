-- ===== src/Setup/Item.antt =====
-- A step of the setup tasks has one form: read a value of a contract, and push calls unless it is what
-- it should be already. `Goal` is the value that is read, `Item` the whole step.
use tapioca_lending_engine.Base.{ℕ, ◌==◌, Bool, not, List, [], ◌∷◌, ◌++◌, if◌then◌else◌}
use tapioca_lending_engine.Sdk.{Call}
use tapioca_lending_engine.Setup.World.{World}

pub data Goal : Type 0 where
  -- `penrose.usdoToken()` is the address
  has_usdo_token : ℕ → ℕ → Goal
  -- `penrose.isSingularityMasterContractRegistered(mc)`
  has_singularity_master_contract : ℕ → ℕ → Goal
  -- `penrose.isBigBangMasterContractRegistered(mc)`
  has_big_bang_master_contract : ℕ → ℕ → Goal
  -- `penrose.isMarketRegistered(market)`
  has_market : ℕ → ℕ → Goal
  -- `penrose.bigBangEthMarket()` is the address
  has_main_market : ℕ → ℕ → Goal
  -- `usdo.flashLoanHelper()` is the address
  has_flashloan_helper : ℕ → ℕ → Goal
  -- `usdo.allowedMinter(chain, a)`
  has_minter : ℕ → ℕ → ℕ → Goal
  -- `usdo.allowedBurner(chain, a)`
  has_burner : ℕ → ℕ → ℕ → Goal
  -- `yieldBox.ids(1, asset, strategy, 0)` is not 0
  has_asset : ℕ → ℕ → ℕ → Goal

abbrev pub met : Goal → World → Bool
met (has_usdo_token p u) w = (w.penrose_at p).usdo_token == u
met (has_singularity_master_contract p mc) w =
    (w.penrose_at p).is_singularity_master_contract_registered mc
met (has_big_bang_master_contract p mc) w =
    (w.penrose_at p).is_big_bang_master_contract_registered mc
met (has_market p m) w = (w.penrose_at p).is_market_registered m
met (has_main_market p m) w = (w.penrose_at p).big_bang_eth_market == m
met (has_flashloan_helper u h) w = (w.usdo_at u).flash_loan_helper == h
met (has_minter u chain a) w = (w.usdo_at u).allowed_minter chain a
met (has_burner u chain a) w = (w.usdo_at u).allowed_burner chain a
met (has_asset yb a s) w = not (w.ids_at yb 1 a s 0 == 0)

pub record Item : Type 0 where
  pub goal : Goal
  pub calls : List Call

-- The calls that the steps push, in the world that they all read
unfoldable pub pending : List Item → World → List Call
pending [] w = []
pending (i ∷ is) w = if met i.goal w then pending is w else i.calls ++ pending is w
