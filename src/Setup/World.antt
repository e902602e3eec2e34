-- ===== src/Setup/World.antt =====
-- The chain as the tasks see it, by address, and what the calls of the setup do there. `decode` reads a
-- call's data back into the function of contracts/ that it is for, and `run_op` runs that function.
use tapioca_lending_engine.Base.{
  ℕ, String, str_eq, Bool, Option, none, some, List, [], ◌∷◌, Outcome, ok, fail, ◌>>=◌, ◌>>◌,
  Mapping, update, if◌then◌else◌,
}
use tapioca_lending_engine.Sdk.{Value, addr, num, flag, encoded, nil, ◌⸴◌, Call}
use tapioca_lending_engine.Contracts.Penrose
use tapioca_lending_engine.Contracts.Penrose.{Penrose}
use tapioca_lending_engine.Contracts.Usdo
use tapioca_lending_engine.Contracts.Usdo.{Usdo}

-- YieldBox's `ids`: token type, contract, strategy and token id to the asset's id, 0 for none.
abbrev pub Ids : Type 0
Ids = ℕ → ℕ → ℕ → ℕ → ℕ

pub record World : Type 0 where
  pub penrose_at : Mapping Penrose
  pub usdo_at : Mapping Usdo
  pub ids_at : Mapping Ids

-- What the calls reach outside these contracts: `registerAsset` of YieldBox, and whether the `accrue` of
-- a list of markets succeeds.
pub record Outside : Type 0 where
  pub register_asset : ℕ → ℕ → ℕ → ℕ → Ids → Ids
  pub accrue : List ℕ → World → Outcome (Unit {0})

-- The functions that the setup calls
pub data Op : Type 0 where
  set_usdo_token : ℕ → ℕ → Op
  register_singularity_master_contract : ℕ → ℕ → Op
  register_big_bang_master_contract : ℕ → ℕ → Op
  add_big_bang : ℕ → ℕ → Op
  add_singularity : ℕ → ℕ → Op
  set_big_bang_eth_market : ℕ → Op
  set_flashloan_helper : ℕ → Op
  set_minter_status : ℕ → Bool → Op
  set_burner_status : ℕ → Bool → Op
  register_asset : ℕ → ℕ → ℕ → ℕ → Op

abbrev decode_number : String → ℕ → ℕ → Option Op
decode_number fn a n =
    if str_eq fn "setUsdoToken"
    then some (set_usdo_token a n)
    else (if str_eq fn "registerSingularityMasterContract"
        then some (register_singularity_master_contract a n)
        else (if str_eq fn "registerBigBangMasterContract"
            then some (register_big_bang_master_contract a n)
            else none))

abbrev decode_addresses : String → ℕ → ℕ → Option Op
decode_addresses fn a b =
    if str_eq fn "addBigBang"
    then some (add_big_bang a b)
    else (if str_eq fn "addSingularity" then some (add_singularity a b) else none)

abbrev decode_flag : String → ℕ → Bool → Option Op
decode_flag fn a b =
    if str_eq fn "setMinterStatus"
    then some (set_minter_status a b)
    else (if str_eq fn "setBurnerStatus" then some (set_burner_status a b) else none)

abbrev decode_address : String → ℕ → Option Op
decode_address fn a =
    if str_eq fn "setBigBangEthMarket"
    then some (set_big_bang_eth_market a)
    else (if str_eq fn "setFlashloanHelper" then some (set_flashloan_helper a) else none)

abbrev pub decode : Value → Option Op
decode (encoded fn (addr a ⸴ num n ⸴ nil)) = decode_number fn a n
decode (encoded fn (addr a ⸴ addr b ⸴ nil)) = decode_addresses fn a b
decode (encoded fn (addr a ⸴ flag b ⸴ nil)) = decode_flag fn a b
decode (encoded fn (addr a ⸴ nil)) = decode_address fn a
decode (encoded fn (num ty ⸴ addr a ⸴ addr s ⸴ num i ⸴ nil)) =
    if str_eq fn "registerAsset" then some (register_asset ty a s i) else none
decode _ = none

abbrev pub on_penrose : ℕ → (Penrose → Outcome Penrose) → World → Outcome World
on_penrose t f w =
    f (w.penrose_at t) >>= λ p. ok (record w { penrose_at = update w.penrose_at t p })

abbrev pub on_usdo : ℕ → (Usdo → Outcome Usdo) → World → Outcome World
on_usdo t f w = f (w.usdo_at t) >>= λ u. ok (record w { usdo_at = update w.usdo_at t u })

module _ (outside : Outside) (sender : ℕ) where
  -- A function's call at the address `t`
  unfoldable pub run_op : ℕ → Op → World → Outcome World
  unfolding Penrose.set_usdo_token Penrose.register_singularity_master_contract
      Penrose.register_big_bang_master_contract Penrose.add_big_bang Penrose.add_singularity
      Penrose.set_big_bang_eth_market Usdo.set_flashloan_helper Usdo.set_minter_status
      Usdo.set_burner_status
  run_op t (set_usdo_token a n) w = on_penrose t (Penrose.set_usdo_token sender a n) w
  run_op t (register_singularity_master_contract a n) w =
      on_penrose t (Penrose.register_singularity_master_contract sender a n) w
  run_op t (register_big_bang_master_contract a n) w =
      on_penrose t (Penrose.register_big_bang_master_contract sender a n) w
  run_op t (add_big_bang a b) w = on_penrose t (Penrose.add_big_bang sender a b) w
  run_op t (add_singularity a b) w = on_penrose t (Penrose.add_singularity sender a b) w
  run_op t (set_big_bang_eth_market a) w =
      Penrose.set_big_bang_eth_market sender a (w.penrose_at t) >>= λ r.
      outside.accrue r.1 w >> ok (record w { penrose_at = update w.penrose_at t r.0 })
  run_op t (set_flashloan_helper a) w = on_usdo t (Usdo.set_flashloan_helper sender a) w
  run_op t (set_minter_status a b) w = on_usdo t (Usdo.set_minter_status sender a b) w
  run_op t (set_burner_status a b) w = on_usdo t (Usdo.set_burner_status sender a b) w
  run_op t (register_asset ty a s i) w =
      ok (record w { ids_at = update w.ids_at t (outside.register_asset ty a s i (w.ids_at t)) })

  unfoldable pub run_decoded : ℕ → Option Op → World → Outcome World
  run_decoded t none w = fail "no such function"
  run_decoded t (some op) w = run_op t op w

  -- No call of the setup allows a failure.
  abbrev pub run_call : Call → World → Outcome World
  run_call c w = run_decoded c.target (decode c.call_data) w

  -- The calls of a multicall, one after the other, all or none.
  unfoldable pub run_calls : List Call → World → Outcome World
  unfolding run_decoded
  run_calls [] w = ok w
  run_calls (c ∷ cs) w = run_call c w >>= λ w'. run_calls cs w'
