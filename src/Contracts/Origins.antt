-- ===== src/Contracts/Origins.antt =====
-- contracts/markets/origins/Origins.sol: a market that mints USDO for the addresses that its owner allows,
-- without fee and interest. `core` is the state of contracts/markets/Market.sol, of which the fields of
-- BigBang's own stay 0; `_borrow`, `_repay`, `_addCollateral` and `_removeCollateral` have the same effect
-- on it as those of BBLendingCommon.sol without a fee and an allowance. Tokens are left out, but for the
-- roles that USDO asks for.
pub mod Pause
pub mod Backed
pub mod Life
use tapioca_lending_engine.Base.{
  ℕ, ◌^◌, ◌==◌, ltb, Bool, true, false, not, ◌||◌, Option, List, [], ◌∷◌, Mapping, update, Outcome,
  ok, fail, ◌>>=◌, ◌>>◌, fail_if, if◌then◌else◌, ◌+◌,
}
use tapioca_lending_engine.Contracts.Usdo.{Usdo, may_mint, may_burn}
use tapioca_lending_engine.Contracts.BigBang.{BigBang, Rebase}
use tapioca_lending_engine.Contracts.BigBang.Lending.{borrow, is_solvent}
use tapioca_lending_engine.Contracts.BigBang.Repay.{repay}
use tapioca_lending_engine.Contracts.BigBang.Entry.{
  Env, update_exchange_rate, share_or, add_collateral, remove_collateral,
}
use tapioca_lending_engine.Contracts.Origins.Pause
use tapioca_lending_engine.Contracts.Origins.Pause.{PauseType, same_type}

pub record Origins : Type 0 where
  pub owner : ℕ
  pub conservator : ℕ
  pub allowed_participants : Mapping Bool
  pub pause_options : PauseType → Bool
  pub core : BigBang

-- What the constructor writes before the rate
abbrev pub new_core : ℕ → ℕ → BigBang
new_core precision rate = record {
  is_main_market = false;
  min_debt_rate = 0;
  max_debt_rate = 0;
  debt_rate_against_eth_market = 0;
  min_mint_fee = 0;
  max_mint_fee = 0;
  min_mint_fee_start = 0;
  max_mint_fee_start = 0;
  open_interest_debt = 0;
  debt_rate = 0;
  last_accrued = 0;
  total_borrow = record { elastic = 0; base = 0 };
  total_borrow_cap = 0;
  user_borrow_part = λ _. 0;
  allowance = λ _. λ _. 0;
  allowance_borrow = λ _. λ _. 0;
  exchange_rate = 0;
  rate_timestamp = 0;
  user_collateral_share = λ _. 0;
  total_collateral_share = 0;
  collateralization_rate = rate;
  liquidation_collateralization_rate = 10 ^ 5;
  exchange_rate_precision = if ltb 0 precision then precision else 10 ^ 18;
}

-- The constructor, with what the oracle answers at the time of the block
unfoldable pub new_origins : ℕ → ℕ → ℕ → ℕ → Option (Bool × ℕ) → ℕ → ℕ → ℕ → Outcome Origins
unfolding update_exchange_rate
new_origins owner asset collateral oracle answer now precision rate = do
  fail_if (collateral == 0) "BadPair"
  fail_if (asset == 0) "BadPair"
  fail_if (oracle == 0) "BadPair"
  fail_if (ltb (10 ^ 5) rate) "NotValid"
  core ← update_exchange_rate answer now (new_core precision rate)
  ok (record {
    owner = owner;
    conservator = owner;
    allowed_participants = update (λ _. false) owner true;
    pause_options = λ _. false;
    core = core;
  })

-- The calls of users, the owner and the conservator
pub data Request : Type 0 where
  add_collateral_of : ℕ → ℕ → Request
  remove_collateral_of : ℕ → Request
  borrow_of : ℕ → Request
  repay_of : ℕ → Request
  update_allowed_participants : ℕ → Bool → Request
  update_pause : PauseType → Bool → Request
  update_pause_all : Bool → Request

-- The new state, the USDO that is minted and the USDO that is burned
pub record Effect : Type 0 where
  pub after : Origins
  pub minted : ℕ
  pub burned : ℕ

abbrev pub with_core : Origins → BigBang → ℕ → ℕ → Effect
with_core o core minted burned = record {
  after = record o { core = core };
  minted = minted;
  burned = burned;
}

-- `require(!pauseOptions[...])` and `allowedParticipants[msg.sender]`
abbrev pub not_paused : PauseType → Origins → Outcome (Unit {0})
not_paused ty o = fail_if (o.pause_options ty) "Market: paused"

abbrev pub only_allowed : ℕ → Origins → Outcome (Unit {0})
only_allowed sender o = fail_if (not (o.allowed_participants sender)) "NotAuthorized"

-- The modifier `solvent`, where `_accrue` does nothing
unfoldable pub solvent_here : Env → (BigBang → Outcome BigBang) → BigBang → Outcome BigBang
unfolding update_exchange_rate
solvent_here env body b = do
  b1 ← update_exchange_rate env.oracle env.now b
  b2 ← body b1
  is_safe ← is_solvent env.terms.to_amount env.sender b2.exchange_rate false b2
  fail_if (not is_safe) "Market: insolvent"
  ok b2

module _ (add sub : Rebase → ℕ → Bool → Outcome (Rebase × ℕ)) (usdo : Usdo) (env : Env) where
  -- The body of `borrow`
  unfoldable pub borrow_here : ℕ → Origins → BigBang → Outcome BigBang
  unfolding may_mint borrow
  borrow_here amount o b =
      only_allowed env.sender o
      >> (if amount == 0 then ok b else do
        r ← borrow add env.sender amount 0 b
        _ ← may_mint env.self usdo
        _ ← fail_if env.transfer_fails "deposit"
        ok r.0)

  unfoldable pub repay_here : ℕ → Origins → Outcome Effect
  unfolding may_burn update_exchange_rate repay
  repay_here part o = do
    _ ← not_paused Pause.repay o
    _ ← only_allowed env.sender o
    b ← update_exchange_rate env.oracle env.now o.core
    r ← repay sub env.terms.to_amount env.decimals 0 false env.sender env.sender env.sender part b
    _ ← fail_if env.transfer_fails "withdraw"
    _ ← may_burn env.self usdo
    ok (with_core o r.0 0 r.1)

  unfoldable pub call_origins : Request → Origins → Outcome Effect
  unfolding solvent_here add_collateral remove_collateral borrow_here repay_here
  call_origins (add_collateral_of amount share) o = do
    _ ← not_paused Pause.add_collateral o
    _ ← only_allowed env.sender o
    b ←
        add_collateral env env.sender false amount (share_or env.terms.to_share amount share) true
          o.core
    ok (with_core o b 0 0)
  call_origins (remove_collateral_of share) o = do
    _ ← not_paused Pause.remove_collateral o
    b ←
        solvent_here env (λ b1. only_allowed env.sender o >> remove_collateral env.sender share b1)
          o.core
    _ ← fail_if env.transfer_fails "transfer"
    ok (with_core o b 0 0)
  call_origins (borrow_of amount) o = do
    _ ← not_paused Pause.borrow o
    b ← solvent_here env (borrow_here amount o) o.core
    ok (with_core o b amount 0)
  call_origins (repay_of part) o = repay_here part o
  call_origins (update_allowed_participants participant status) o = do
    _ ← fail_if (not (env.sender == o.owner)) "Ownable: caller is not the owner"
    ok (record {
      after = record o { allowed_participants = update o.allowed_participants participant status };
      minted = 0;
      burned = 0;
    })
  call_origins (update_pause ty status) o = do
    _ ← fail_if (not (env.sender == o.conservator)) "Market: unauthorized"
    _ ←
        fail_if (if status then o.pause_options ty else not (o.pause_options ty))
          "Market: same state"
    ok (record {
      after = record o {
        pause_options = λ t. if same_type t ty then status else o.pause_options t;
      };
      minted = 0;
      burned = 0;
    })
  call_origins (update_pause_all status) o = do
    _ ← fail_if (not (env.sender == o.conservator)) "Market: unauthorized"
    ok (record {
      after = record o {
        pause_options = λ t. if Pause.in_all t then status else o.pause_options t;
      };
      minted = 0;
      burned = 0;
    })

-- A call that reverts changes nothing.
abbrev pub effect_of : Origins → Outcome Effect → Effect
effect_of o (ok e) = e
effect_of o (fail message) = record { after = o; minted = 0; burned = 0 }

-- Calls in a row, each with its block, its sender and the settings of USDO
pub record Sent : Type 0 where
  pub usdo : Usdo
  pub env : Env
  pub request : Request

unfoldable pub run_origins :
    (Rebase → ℕ → Bool → Outcome (Rebase × ℕ))
    → (Rebase → ℕ → Bool → Outcome (Rebase × ℕ))
    → List Sent
    → Origins
    → Effect
unfolding call_origins
run_origins add sub [] o = record { after = o; minted = 0; burned = 0 }
run_origins add sub (s ∷ ss) o =
    let first = effect_of o (call_origins add sub s.usdo s.env s.request o) in
    let rest = run_origins add sub ss first.after in
    record {
      after = rest.after;
      minted = first.minted + rest.minted;
      burned = first.burned + rest.burned;
    }
