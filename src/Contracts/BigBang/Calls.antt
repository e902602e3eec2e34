-- ===== src/Contracts/BigBang/Calls.antt =====
-- Sequences of the calls that users and the owner make on a market of contracts/markets/bigBang: whatever is
-- called, the parts of the users add up to the base of the debt and their collateral to its sum.
use tapioca_lending_engine.Base.{
  ℕ, ◌+◌, ◌==◌, ◌≡◌, sym, ◌∙◌, Bool, true, not, List, [], ◌∷◌, Outcome, ok, elem, length,
  Bool-cases, inl, inr, if-true, if-false, subst, >>=-eq-ok, ok-injective, fail_if, if◌then◌else◌,
}
use tapioca_lending_engine.Contracts.Penrose.Debt.{Distinct}
use tapioca_lending_engine.Contracts.BigBang.{BigBang, Rebase, checked}
use tapioca_lending_engine.Contracts.BigBang.Rate.{accrue}
use tapioca_lending_engine.Contracts.BigBang.Fee.{compute_variable_opening_fee}
use tapioca_lending_engine.Contracts.BigBang.Lending.{borrow, AddsUp, is_solvent}
use tapioca_lending_engine.Contracts.BigBang.Repay.{compute_allowance_amount_in_asset}
use tapioca_lending_engine.Contracts.BigBang.Repaid.{SubsDown}
use tapioca_lending_engine.Contracts.BigBang.Liquidation.{
  bad_debt_books, swap_collateral_with_asset, requests,
}
use tapioca_lending_engine.Contracts.BigBang.Entry.{
  Env, update_exchange_rate, try_update_oracle_rate, allowed_borrow, solvent, share_or,
  add_collateral_call, remove_collateral_call, borrow_body, borrow_call, repay_call, liquidate_call,
  liquidate_bad_debt_call,
}
use tapioca_lending_engine.Contracts.BigBang.Keeps.{
  IsBooked, kept, accrue-KeepsBooks, update_exchange_rate-KeepsBooks,
  try_update_oracle_rate-KeepsBooks, allowed_borrow-KeepsBooks,
}
use tapioca_lending_engine.Contracts.BigBang.Booked.{
  AllIn, borrow-IsBooked, repay-IsBooked, add_collateral-IsBooked, remove_collateral-IsBooked,
  closed_liquidation-IsBooked, bad_debt_books-IsBooked,
}

-- Each of the addresses is in the list.
abbrev pub AllListed : List ℕ → List ℕ → Type 0
AllListed users [] = Unit
AllListed users (a ∷ as_) = (elem a users ≡ true) × AllListed users as_

-- A call that does not revert, for users of the list
pub data Call (users : List ℕ) (b c : BigBang) : Type 0 where
  by_borrow :
      (add : Rebase → ℕ → Bool → Outcome (Rebase × ℕ)) (updated : Bool) (rate : ℕ) (env : Env)
      (from to amount : ℕ)
      → AddsUp add
      → elem from users ≡ true
      → borrow_call add updated rate env from to amount b ≡ ok c
      → Call users b c
  by_repay :
      (sub : Rebase → ℕ → Bool → Outcome (Rebase × ℕ)) (env : Env) (from to part amount : ℕ)
      → SubsDown sub
      → elem to users ≡ true
      → repay_call sub env from to part b ≡ ok (c, amount)
      → Call users b c
  by_add_collateral :
      (env : Env) (from to : ℕ) (skim : Bool) (amount share : ℕ)
      → elem to users ≡ true
      → add_collateral_call env from to skim amount share b ≡ ok c
      → Call users b c
  by_remove_collateral :
      (env : Env) (from to share : ℕ)
      → elem from users ≡ true
      → remove_collateral_call env from to share b ≡ ok c
      → Call users b c
  by_liquidate :
      (env : Env) (us max_parts bonuses : List ℕ) (receivers : List (List ℕ → ℕ → Outcome ℕ))
      (datas : List (List ℕ))
      → AllListed users us
      → liquidate_call env us max_parts bonuses receivers datas b ≡ ok c
      → Call users b c
  by_liquidate_bad_debt :
      (env : Env) (whitelisted : Bool) (user : ℕ) (receive : ℕ → Outcome ℕ) (swaps : Bool)
      (amount : ℕ)
      → elem user users ≡ true
      → liquidate_bad_debt_call env whitelisted user receive swaps b ≡ ok (c, amount)
      → Call users b c
  by_accrue : (main_rate eth_debt now : ℕ) → accrue main_rate eth_debt now b ≡ ok c → Call users b c

pub data Calls (users : List ℕ) (b : BigBang) : BigBang → Type 0 where
  none_yet : Calls users b b
  then_call : {c d : BigBang} → Calls users b c → Call users c d → Calls users b d

requests-AllIn :
    (users us parts : List ℕ) (receivers : List (List ℕ → ℕ → Outcome ℕ)) (datas : List (List ℕ))
    → AllListed users us
    → AllIn users (requests us parts receivers datas)
unfolding requests
requests-AllIn users [] parts receivers datas all = tt
requests-AllIn users (u ∷ us) [] receivers datas all = tt
requests-AllIn users (u ∷ us) (p ∷ ps) [] datas all = tt
requests-AllIn users (u ∷ us) (p ∷ ps) (r ∷ rs) [] all = tt
requests-AllIn users (u ∷ us) (p ∷ ps) (r ∷ rs) (x ∷ xs) all =
    (all.0, requests-AllIn users us ps rs xs all.1)

module _ (users : List ℕ) (d : Distinct users) where
  -- The modifier `solvent` keeps the books if its body does.
  solvent-IsBooked :
      (env : Env) (from : ℕ) (body : BigBang → Outcome BigBang) (b : BigBang) {c : BigBang}
      → ((x y : BigBang) → body x ≡ ok y → IsBooked users x → IsBooked users y)
      → solvent env from body b ≡ ok c
      → IsBooked users b
      → IsBooked users c
  unfolding solvent
  solvent-IsBooked env from body b keeps h k =
      let (b1, e1, h1) = >>=-eq-ok (update_exchange_rate env.oracle env.now b) _ h in
      let (b2, e2, h2) = >>=-eq-ok (accrue env.main_rate env.eth_debt env.now b1) _ h1 in
      let (b3, e3, h3) = >>=-eq-ok (body b2) _ h2 in
      let (safe, _, h4) =
        >>=-eq-ok (is_solvent env.terms.to_amount from b3.exchange_rate Bool.false b3) _ h3 in
      let (_, _, h5) = >>=-eq-ok (fail_if (not safe) "Market: insolvent") _ h4 in
      let k1 = kept users b b1 (update_exchange_rate-KeepsBooks env.oracle env.now b e1) k in
      let k2 = kept users b1 b2 (accrue-KeepsBooks env.main_rate env.eth_debt env.now b1 e2) k1 in
      subst (IsBooked users) (ok-injective h5) (keeps b2 b3 e3 k2)

  borrow_body-IsBooked :
      (add : Rebase → ℕ → Bool → Outcome (Rebase × ℕ)) (updated : Bool) (rate : ℕ) (env : Env)
      (from amount : ℕ)
      → AddsUp add
      → elem from users ≡ true
      → (x y : BigBang) → borrow_body add updated rate env from amount x ≡ ok y
      → IsBooked users x
      → IsBooked users y
  unfolding borrow_body
  borrow_body-IsBooked add updated rate env from amount law mem x y h k =
      elim (Bool-cases (amount == 0)) [
        | inl nothing ↦
            subst (IsBooked users) (ok-injective (sym (if-true (amount == 0) _ _ nothing) ∙ h)) k
        | inr something ↦
            let h0 = sym (if-false (amount == 0) _ _ something) ∙ h in
            let (fee, _, h1) =
              >>=-eq-ok (compute_variable_opening_fee updated rate amount x) _ h0 in
            let (sum, _, h2) = >>=-eq-ok (checked 256 (amount + fee)) _ h1 in
            let (share, _, h3) =
              >>=-eq-ok
                (compute_allowance_amount_in_asset env.terms.to_amount from x.exchange_rate sum
                  env.decimals x)
                _ h2 in
            let (x1, e1, h4) =
              >>=-eq-ok (allowed_borrow env.pearlmit_allowed env.sender from share x) _ h3 in
            let (r, e2, h5) = >>=-eq-ok (borrow add from amount fee x1) _ h4 in
            let k1 =
              kept users x x1
                (allowed_borrow-KeepsBooks env.pearlmit_allowed env.sender from share x e1) k in
            subst (IsBooked users) (ok-injective h5)
              (borrow-IsBooked users d add from amount fee x1 law mem e2 k1)
      ]

  Call-IsBooked : {b c : BigBang} → Call users b c → IsBooked users b → IsBooked users c
  unfolding borrow_call repay_call add_collateral_call remove_collateral_call liquidate_call
      liquidate_bad_debt_call
  Call-IsBooked {b} (by_borrow add updated rate env from to amount law mem h) k =
      let (_, _, h1) = >>=-eq-ok (fail_if env.paused "Market: paused") _ h in
      let (_, _, h2) =
        >>=-eq-ok (fail_if (to == env.self) "Market: cannot execute on itself") _ h1 in
      solvent-IsBooked env from (borrow_body add updated rate env from amount) b
        (borrow_body-IsBooked add updated rate env from amount law mem) h2 k
  Call-IsBooked {b} {c} (by_repay sub env from to part amount law mem h) k =
      let (_, _, h1) = >>=-eq-ok (fail_if env.paused "Market: paused") _ h in
      let (_, _, h2) =
        >>=-eq-ok (fail_if (to == env.self) "Market: cannot execute on itself") _ h1 in
      let (b1, e1, h3) = >>=-eq-ok (try_update_oracle_rate env.oracle env.now b) _ h2 in
      let (b2, e2, h4) = >>=-eq-ok (accrue env.main_rate env.eth_debt env.now b1) _ h3 in
      let k1 = kept users b b1 (try_update_oracle_rate-KeepsBooks env.oracle env.now b e1) k in
      let k2 = kept users b1 b2 (accrue-KeepsBooks env.main_rate env.eth_debt env.now b1 e2) k1 in
      repay-IsBooked users d sub env.terms.to_amount env.decimals env.pearlmit_allowed env.sender
        from to true part b2 law mem h4 k2
  Call-IsBooked {b} (by_add_collateral env from to skim amount share mem h) k =
      let added = share_or env.terms.to_share amount share in
      let (_, _, h1) =
        >>=-eq-ok (fail_if (to == env.self) "Market: cannot execute on itself") _ h in
      let (_, _, h2) = >>=-eq-ok (fail_if env.paused "Market: paused") _ h1 in
      let (b1, e1, h3) =
        >>=-eq-ok (allowed_borrow env.pearlmit_allowed env.sender from added b) _ h2 in
      add_collateral-IsBooked users d env to skim amount added true b1 mem h3 (
        kept users b b1 (allowed_borrow-KeepsBooks env.pearlmit_allowed env.sender from added b e1)
          k)
  Call-IsBooked {b} (by_remove_collateral env from to share mem h) k =
      let (_, _, h1) = >>=-eq-ok (fail_if env.paused "Market: paused") _ h in
      solvent-IsBooked env from _ b
        (λ x y hy kx.
          let (_, _, g1) =
            >>=-eq-ok (fail_if (to == env.self) "Market: cannot execute on itself") _ hy in
          let (x1, e1, g2) =
            >>=-eq-ok (allowed_borrow env.pearlmit_allowed env.sender from share x) _ g1 in
          remove_collateral-IsBooked users d from share x1 mem g2 (
            kept users x x1
              (allowed_borrow-KeepsBooks env.pearlmit_allowed env.sender from share x e1) kx))
        h1 k
  Call-IsBooked {b} (by_liquidate env us max_parts bonuses receivers datas all h) k =
      let (_, _, h1) = >>=-eq-ok (fail_if env.paused "Market: paused") _ h in
      let (_, _, h2) = >>=-eq-ok (fail_if (length us == 0) "NothingToLiquidate") _ h1 in
      let (_, _, h3) =
        >>=-eq-ok (fail_if (not (length us == length max_parts)) "LengthMismatch") _ h2 in
      let (_, _, h4) =
        >>=-eq-ok (fail_if (not (length us == length receivers)) "LengthMismatch") _ h3 in
      let (_, _, h5) =
        >>=-eq-ok (fail_if (not (length datas == length receivers)) "LengthMismatch") _ h4 in
      let (b1, e1, h6) = >>=-eq-ok (try_update_oracle_rate env.oracle env.now b) _ h5 in
      let (b2, e2, h7) = >>=-eq-ok (accrue env.main_rate env.eth_debt env.now b1) _ h6 in
      let k1 = kept users b b1 (try_update_oracle_rate-KeepsBooks env.oracle env.now b e1) k in
      let k2 = kept users b1 b2 (accrue-KeepsBooks env.main_rate env.eth_debt env.now b1 e2) k1 in
      closed_liquidation-IsBooked users d env.terms b2.exchange_rate
        (requests us max_parts receivers datas) bonuses b2
        (requests-AllIn users us max_parts receivers datas all) h7 k2
  Call-IsBooked {b} {c} (by_liquidate_bad_debt env whitelisted user receive swaps amount mem h) k =
      let (_, _, h1) =
        >>=-eq-ok
          (fail_if (not (env.sender == env.terms.settings.owner))
            "Ownable: caller is not the owner")
          _ h in
      let (b1, e1, h2) = >>=-eq-ok (try_update_oracle_rate env.oracle env.now b) _ h1 in
      let (_, _, h3) = >>=-eq-ok (fail_if (not whitelisted) "NotAuthorized") _ h2 in
      let (b2, e2, h4) = >>=-eq-ok (accrue env.main_rate env.eth_debt env.now b1) _ h3 in
      let (r, e3, h5) = >>=-eq-ok (bad_debt_books env.terms user b2) _ h4 in
      let (_, _, h6) =
        >>=-eq-ok
          (if swaps
            then swap_collateral_with_asset env.terms r.2 receive 0 Bool.false r.0
            else ok (0, 0))
          _ h5 in
      let k1 = kept users b b1 (try_update_oracle_rate-KeepsBooks env.oracle env.now b e1) k in
      let k2 = kept users b1 b2 (accrue-KeepsBooks env.main_rate env.eth_debt env.now b1 e2) k1 in
      subst (λ (x : BigBang × ℕ). IsBooked users x.0) (ok-injective h6)
        (bad_debt_books-IsBooked users d env.terms user b2 mem e3 k2)
  Call-IsBooked {b} {c} (by_accrue main_rate eth_debt now h) k =
      kept users b c (accrue-KeepsBooks main_rate eth_debt now b h) k

  -- After any sequence of calls that do not revert, of users that the list names once each and with
  -- libraries that add up, the parts of these users add up to the base of the debt, and their
  -- collateral to the sum of the collateral, if they did before.
  pub Calls-IsBooked : {b c : BigBang} → Calls users b c → IsBooked users b → IsBooked users c
  Calls-IsBooked none_yet k = k
  Calls-IsBooked (then_call before call) k = Call-IsBooked call (Calls-IsBooked before k)
