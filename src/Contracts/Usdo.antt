-- ===== src/Contracts/Usdo.antt =====
-- contracts/usdo/Usdo.sol: the owner's settings, the roles of minters and burners, and the flash loan
-- fees. The token itself, ERC20 of another library, is what a function returns a transfer for.
pub mod Laws
pub mod Codec
use tapioca_lending_engine.Base.{
  ℕ, ◌+◌, ◌-◌, ◌==◌, leb, Bool, not, Outcome, ok, ◌>>◌, fail_if, Mapping, update, if◌then◌else◌,
}

pub record Usdo : Type 0 where
  pub owner : ℕ
  pub this : ℕ
  pub chain_id : ℕ
  pub paused : Bool
  pub flash_loan_helper : ℕ
  pub fees : ℕ
  pub allowed_minter : ℕ → Mapping Bool
  pub allowed_burner : ℕ → Mapping Bool

abbrev pub only_owner : ℕ → Usdo → Outcome (Unit {0})
only_owner sender u = fail_if (not (sender == u.owner)) "Ownable: caller is not the owner"

-- A write to a mapping of mappings
abbrev pub update_role : (ℕ → Mapping Bool) → ℕ → ℕ → Bool → ℕ → Mapping Bool
update_role roles chain a status c b =
    if c == chain then update (roles chain) a status b else roles c b

unfoldable pub set_flashloan_helper : ℕ → ℕ → Usdo → Outcome Usdo
set_flashloan_helper sender helper u = do
  only_owner sender u
  ok (record u { flash_loan_helper = helper })

unfoldable pub set_minter_status : ℕ → ℕ → Bool → Usdo → Outcome Usdo
set_minter_status sender a status u = do
  only_owner sender u
  ok (record u { allowed_minter = update_role u.allowed_minter u.chain_id a status })

unfoldable pub set_burner_status : ℕ → ℕ → Bool → Usdo → Outcome Usdo
set_burner_status sender a status u = do
  only_owner sender u
  ok (record u { allowed_burner = update_role u.allowed_burner u.chain_id a status })

unfoldable pub set_pause : ℕ → Bool → Usdo → Outcome Usdo
set_pause sender state u = do
  only_owner sender u
  fail_if (if state then u.paused else not u.paused) "Pausable"
  ok (record u { paused = state })

-- The guards of `mint`; the token mints after them.
unfoldable pub may_mint : ℕ → Usdo → Outcome (Unit {0})
may_mint sender u = do
  fail_if u.paused "Pausable: paused"
  fail_if (not (u.allowed_minter u.chain_id sender)) "Usdo_NotAuthorized"

-- The guards of `burn`; the token burns after them, from any account.
unfoldable pub may_burn : ℕ → Usdo → Outcome (Unit {0})
may_burn sender u = do
  fail_if u.paused "Pausable: paused"
  fail_if (not (u.allowed_burner u.chain_id sender)) "Usdo_NotAuthorized"

unfoldable pub add_flashloan_fee : ℕ → ℕ → Usdo → Outcome Usdo
add_flashloan_fee sender fee u = do
  fail_if (not (sender == u.flash_loan_helper)) "Usdo_NotAuthorized"
  ok (record u { fees = u.fees + fee })

-- The state and the amount that the token then transfers to the caller, with the contract's balance.
unfoldable pub extract_fees : ℕ → ℕ → Usdo → Outcome (Usdo × ℕ)
extract_fees sender balance u = do
  only_owner sender u
  let amount = if leb u.fees balance then u.fees else balance
  ok (record u { fees = u.fees - amount }, amount)
