-- ===== src/Deploy/Task2/Flows.antt =====
-- What the calls of the multicall do with its ETH and its USDO. Each call is read together with the contract
-- that it goes to, the asset, the spender and the recipient, and one that has others is refused.
pub mod Steps
pub mod Closed
use tapioca_lending_engine.Base.{
  ℕ, ◌+◌, ◌-◌, ◌==◌, ◌≡◌, leb, String, str_eq, Bool, true, false, ◌&&◌, Option, some, none, List,
  [], ◌∷◌, Outcome, ok, fail, ◌>>=◌, if◌then◌else◌,
}
use tapioca_lending_engine.Sdk.{
  Hre, CallValue, Value, Values, addr, num, flag, struct, encoded, nil, cons, field, end,
}
use tapioca_lending_engine.Deploy.Task2.{Contracts2, Reads, target_chain}

-- The contracts, the assets in YieldBox, the multicall itself, and where its USDO may be sent to
pub record Parties : Type 0 where
  pub contracts : Contracts2
  pub collateral_id : ℕ
  pub asset_id : ℕ
  pub multicall : ℕ
  pub to : ℕ
  pub lz_chain_id : ℕ

abbrev pub found_or_zero : Outcome (ℕ × ℕ) → ℕ × ℕ
found_or_zero (ok d) = d
found_or_zero (fail message) = (0, 0)

abbrev pub find_destination : Hre → Reads → Outcome (ℕ × ℕ)
find_destination hre r = do
  chain ← target_chain hre
  to ← r.find_multicall chain
  ok (to, r.lz_chain_id chain)

-- The multicall of the other chain and the number of that chain, where the task finds them
abbrev pub destination : Hre → Reads → ℕ × ℕ
destination hre r = found_or_zero (find_destination hre r)

abbrev pub parties_for : Hre → Reads → Contracts2 → ℕ × ℕ → Parties
parties_for hre r c d = record {
  contracts = c;
  collateral_id = r.collateral_id;
  asset_id = r.asset_id;
  multicall = hre.multicall_addr;
  to = d.0;
  lz_chain_id = d.1;
}

abbrev pub parties : Hre → Reads → Contracts2 → Parties
parties hre r c = parties_for hre r c (destination hre r)

-- What a call may be: a role of the Origins market, the approval of YieldBox for the ETH, a deposit of it,
-- the permission of the market to take it, the market's calls, a withdrawal of USDO and a transfer of it
pub data Move : Type 0 where
  may_mint may_burn : Move
  approves deposits adds borrows withdraws sends : ℕ → Move
  permits : Bool → Move

abbrev pub only_if {ℓ} : {A : Type ℓ} → Bool → A → Option A
only_if true a = some a
only_if false a = none

-- A call that takes no value, by its target, its function and its arguments
abbrev pub read_plain : Parties → ℕ → String → Values → Option Move
read_plain p target fn (cons (addr spender) (cons (num n) nil)) =
    only_if
      (str_eq fn "approve" && (target == p.contracts.t_eth && spender == p.contracts.yield_box))
      (approves n)
read_plain p target fn (cons (addr a) (cons (flag true) nil)) =
    if str_eq fn "setMinterStatus"
    then only_if (target == p.contracts.usdo && a == p.contracts.origins) may_mint
    else only_if
        (str_eq fn "setBurnerStatus" && (target == p.contracts.usdo && a == p.contracts.origins))
        may_burn
read_plain p target fn
      (cons (num id) (cons (addr from) (cons (addr to) (cons (num n) (cons (num share) nil))))) =
    if str_eq fn "depositAsset"
    then only_if
        (target == p.contracts.yield_box
          && (id == p.collateral_id && (from == p.multicall && (to == p.multicall && share == 0))))
        (deposits n)
    else only_if
        (str_eq fn "withdraw"
          && (target == p.contracts.yield_box
              && (id == p.asset_id && (from == p.multicall && (to == p.multicall && share == 0)))))
        (withdraws n)
read_plain p target fn (cons (addr operator) (cons (num id) (cons (flag b) nil))) =
    only_if
      (str_eq fn "setApprovalForAsset"
        && (target == p.contracts.yield_box
            && (operator == p.contracts.origins && id == p.collateral_id)))
      (permits b)
read_plain p target fn (cons (num n) (cons (num share) nil)) =
    only_if (str_eq fn "addCollateral" && (target == p.contracts.origins && share == 0)) (adds n)
read_plain p target fn (cons (num n) nil) =
    only_if (str_eq fn "borrow" && target == p.contracts.origins) (borrows n)
read_plain p target fn _ = none

-- A transfer to the other chain, whose fee is the value of the call and whose refund goes to the multicall
abbrev pub read_send : Parties → ℕ → ℕ → String → Values → Option Move
read_send p target value fn
      (cons
        (struct (field k (num n) (field l (num least) (field t (num to) (field e (num eid) more)))))
        (cons
          (struct (field z (num token_fee) (field f (num fee) end)))
          (cons (addr refund) nil))) =
    only_if
      (str_eq fn "send"
        && (target == p.contracts.usdo
            && (to == p.to
                && (eid == p.lz_chain_id
                    && (token_fee == 0 && (fee == value && refund == p.multicall))))))
      (sends n)
read_send p target value fn _ = none

abbrev pub read_data : Parties → ℕ → ℕ → Value → Option Move
read_data p target value (encoded fn args) =
    if str_eq fn "send"
    then read_send p target value fn args
    else if value == 0
    then read_plain p target fn args
    else none
read_data p target value _ = none

-- A call that may not fail
abbrev pub read_call : Parties → CallValue → Option Move
read_call p call =
    if call.allow_failure then none else read_data p call.target call.value call.call_data

-- What the multicall has: what YieldBox may take of its ETH and what it has deposited there, whether the
-- market may take that, what it gave the market as collateral and owes it, its USDO in YieldBox, in hand
-- and sent away; and the market's roles
pub record Held : Type 0 where
  pub minter : Bool
  pub burner : Bool
  pub approved : ℕ
  pub deposited : ℕ
  pub permitted : Bool
  pub collateral : ℕ
  pub debt : ℕ
  pub in_box : ℕ
  pub in_hand : ℕ
  pub sent : ℕ

-- Nothing is used that is not there, and no USDO is borrowed before the market may mint it.
abbrev pub play : Held → Move → Option Held
play h may_mint = some (record h { minter = true })
play h may_burn = some (record h { burner = true })
play h (approves n) = some (record h { approved = n })
play h (deposits n) =
    only_if (leb n h.approved) (record h { approved = h.approved - n; deposited = h.deposited + n })
play h (permits b) = some (record h { permitted = b })
play h (adds n) =
    only_if (h.permitted && leb n h.deposited)
      (record h { deposited = h.deposited - n; collateral = h.collateral + n })
play h (borrows n) = only_if h.minter (record h { debt = h.debt + n; in_box = h.in_box + n })
play h (withdraws n) =
    only_if (leb n h.in_box) (record h { in_box = h.in_box - n; in_hand = h.in_hand + n })
play h (sends n) =
    only_if (leb n h.in_hand) (record h { in_hand = h.in_hand - n; sent = h.sent + n })

abbrev pub and_then {ℓ κ} : {A : Type ℓ} {B : Type κ} → Option A → (A → Option B) → Option B
and_then none f = none
and_then (some a) f = f a

-- What the multicall has after the calls, `none` where one of them is refused
abbrev pub follow : Parties → Held → List CallValue → Option Held
follow p h [] = some h
follow p h (call ∷ calls) =
    and_then (and_then (read_call p call) (play h)) (λ h'. follow p h' calls)

abbrev pub total_value : List CallValue → ℕ
total_value [] = 0
total_value (c ∷ cs) = c.value + total_value cs

-- The multicall at the start
abbrev pub nothing_held : Held
nothing_held = record {
  minter = false;
  burner = false;
  approved = 0;
  deposited = 0;
  permitted = false;
  collateral = 0;
  debt = 0;
  in_box = 0;
  in_hand = 0;
  sent = 0;
}

-- The market has its roles, an amount of ETH is its collateral and none is left on the way, what was
-- borrowed is in hand or sent, the market may take nothing more, and the value is spent.
pub record IsClosed (p : Parties) (calls : List CallValue) (eth value : ℕ) : Type 0 where
  pub held : Held
  pub followed : follow p nothing_held calls ≡ some held
  pub roles : (held.minter ≡ true) × (held.burner ≡ true)
  pub on_the_way : (held.approved ≡ 0) × (held.deposited ≡ 0) × (held.in_box ≡ 0)
  pub revoked : held.permitted ≡ false
  pub collateral_lem : held.collateral ≡ eth
  pub borrowed : held.in_hand + held.sent ≡ held.debt
  pub paid : total_value calls ≡ value
