-- ===== src/Deploy/Task2/Flows/Steps.antt =====
-- What each part of the multicall leaves: the roles, a loan, and the transfer.
use tapioca_lending_engine.Base.{
  ℕ, ◌+◌, ◌-◌, ◌≤◌, ◌≡◌, leb, refl, arith, ==_refl, true, some, List, [], ◌∷◌, ◌++◌,
}
use tapioca_lending_engine.Sdk.{
  Hre, CallValue, Value, addr, num, text, struct, nil, field, end, ◌⸴◌,
}
use tapioca_lending_engine.Deploy.Task2.{Contracts2, Reads, mint_calls, role_calls, call_value}
use tapioca_lending_engine.Deploy.Task2.Flows.{parties_for, Held, follow, nothing_held}

leb_self : (n : ℕ) → leb n n ≡ true
leb_self n = ground arith

nothing_left : (n : ℕ) → n - n ≡ 0
nothing_left n = omega arith

none_before : (n : ℕ) → 0 + n ≡ n
none_before n = omega arith

-- Between two loans
abbrev pub after_loan : ℕ → ℕ → Held
after_loan eth debt = record nothing_held {
  minter = true;
  burner = true;
  collateral = eth;
  debt = debt;
  in_hand = debt;
}

module _ (hre : Hre) (r : Reads) (c : Contracts2) (d : ℕ × ℕ) where
  pub role_calls-follow :
      (calls : List CallValue)
      → follow (parties_for hre r c d) nothing_held (role_calls c ++ calls)
        ≡ follow (parties_for hre r c d) (after_loan 0 0) calls
  role_calls-follow calls = rw (==_refl c.usdo, ==_refl c.origins) refl

  pub mint_calls-follow :
      (eth debt a b : ℕ) (calls : List CallValue)
      → follow
          (parties_for hre r c d)
          (after_loan eth debt)
          (mint_calls c r hre.multicall_addr a b ++ calls)
        ≡ follow (parties_for hre r c d) (after_loan (eth + a) (debt + b)) calls
  mint_calls-follow eth debt a b calls =
      rw
        (
          ==_refl c.t_eth,
          ==_refl c.yield_box,
          ==_refl c.origins,
          ==_refl r.collateral_id,
          ==_refl r.asset_id,
          ==_refl hre.multicall_addr,
          none_before a,
          leb_self a,
          leb_self a,
          nothing_left a,
          none_before b,
          leb_self b,
          nothing_left b,
        )
        refl

  pub send-follow :
      (eth debt n fee least : ℕ) (options : Value)
      → n ≤ debt
      → follow (parties_for hre r c d) (after_loan eth debt) (
          call_value c.usdo "send"
            (struct (
                field "amountLD" (num n) (
                  field "minAmountLD" (num least) (
                    field "to" (num d.0) (
                      field "dstEid" (num d.1) (
                        field "extraOptions" options
                          (field "composeMsg" (text "0x") (field "oftCmd" (text "0x") end)))))))
              ⸴ struct (field "lzTokenFee" (num 0) (field "nativeFee" (num fee) end))
              ⸴ addr hre.multicall_addr
              ⸴ nil)
            fee
          ∷ [])
        ≡ some (record (after_loan eth debt) { in_hand = debt - n; sent = n })
  send-follow eth debt n fee least options le =
      let enough : leb n debt ≡ true = ground arith in
      rw
        (
          ==_refl c.usdo,
          ==_refl d.0,
          ==_refl d.1,
          ==_refl fee,
          ==_refl hre.multicall_addr,
          enough,
          none_before n,
        )
        refl
