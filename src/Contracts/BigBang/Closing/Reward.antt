-- ===== src/Contracts/BigBang/Closing/Reward.antt =====
-- The share of the surplus that a liquidator has, against the natural numbers that it stands for.
use tapioca_lending_engine.Base.{
  ℕ, suc, ◌-◌, ◌*◌, ◌/◌, ◌^◌, ◌==◌, ◌≤◌, ◌<◌, ◌≡◌, ltb, leb, ◌||◌, ok, ◌>>=◌, arith, fail_if,
  if◌then◌else◌, if-true, if-false, >>=-eq-ok, ok-injective, Bool-cases, inl, inr, subst, sym, ap,
  ◌∙◌, false, true,
}
use native.Mathlib.Nat.{mul-le-mul_left, mul-le-mul_right, div-le_of_le-mul}
use tapioca_lending_engine.Base.Int.{
  ℤ, pos, negsuc, sub_ℕ, ◌+ℤ◌, ◌-ℤ◌, ◌*ℤ◌, ◌/ℤ◌, ltb_ℤ, to_int256, to_uint256, checked_int, divided,
  checked_int_lem, to_int256_small,
}
use tapioca_lending_engine.Contracts.BigBang.{BigBang, checked, checked_lem}
use tapioca_lending_engine.Contracts.BigBang.Closing.{
  borrow_amount, compute_max_and_min_ltv_in_asset, sloped_reward, reward_between, get_caller_reward,
}
use tapioca_lending_engine.Contracts.BigBang.Closing.Factor.{borrow_amount_lem}
use tapioca_lending_engine.Contracts.MarketConfig.{MarketConfig}

-- The greatest reward, less what the percentage of the way takes off it
abbrev pub fallen : ℕ → ℕ → ℕ → ℕ
fallen low high percentage = high - (high - low) * percentage / 10 ^ 5

diff_lem :
    (low high : ℕ)
    → low < high
    → high < 10 ^ 5
    → (to_int256 low -ℤ to_int256 high) ≡ negsuc (high - low - 1)
diff_lem low high h k = ground arith

product_lem : (n p : ℕ) → p < 2 ^ 255 → (negsuc n *ℤ to_int256 p) ≡ sub_ℕ 0 (suc n * p)
product_lem n p h = rw (to_int256_small p h) (ground arith)

fall_lem : (a : ℕ) {x : ℤ} → divided (sub_ℕ 0 a) (pos (10 ^ 5)) ≡ ok x → x ≡ sub_ℕ 0 (a / 10 ^ 5)
fall_lem a h = ground (arith, checked_int_lem (sub_ℕ 0 a /ℤ pos (10 ^ 5)))

reward_lem :
    (low high q : ℕ) {r : ℤ}
    → low < high
    → high < 10 ^ 5
    → q ≤ high - low
    → r ≡ (sub_ℕ 0 q +ℤ to_int256 high)
    → to_uint256 (if ltb_ℤ r (to_int256 low) then to_int256 low else r) ≡ high - q
reward_lem low high q h k l e = ground arith

commuted : (n : ℕ) → n * 10 ^ 5 ≡ 10 ^ 5 * n
commuted n = omega arith

sloped_reward_lem :
    (percentage : ℕ) (c : MarketConfig) {r : ℕ}
    → c.min_liquidator_reward < c.max_liquidator_reward
    → c.max_liquidator_reward < 10 ^ 5
    → percentage ≤ 10 ^ 5
    → sloped_reward percentage c ≡ ok r
    → r ≡ fallen c.min_liquidator_reward c.max_liquidator_reward percentage
unfolding sloped_reward
sloped_reward_lem p c {r} order top small h =
    let low = c.min_liquidator_reward in
    let high = c.max_liquidator_reward in
    let (diff, hd, h1) = >>=-eq-ok (checked_int (to_int256 low -ℤ to_int256 high)) _ h in
    let (product, hp, h2) = >>=-eq-ok (checked_int (diff *ℤ to_int256 p)) _ h1 in
    let (fall, hf, h3) = >>=-eq-ok (divided product (pos (10 ^ 5))) _ h2 in
    let (reward, hr, h4) = >>=-eq-ok (checked_int (fall +ℤ to_int256 high)) _ h3 in
    let ed = checked_int_lem (to_int256 low -ℤ to_int256 high) hd ∙ diff_lem low high order top in
    let ep : product ≡ sub_ℕ 0 ((high - low) * p) =
      checked_int_lem (diff *ℤ to_int256 p) hp
      ∙ ap (λ x. x *ℤ to_int256 p) ed
      ∙ product_lem (high - low - 1) p (omega arith)
      ∙ ap (λ x. sub_ℕ 0 (x * p)) (let e : suc (high - low - 1) ≡ high - low = omega arith in e) in
    let ef = fall_lem ((high - low) * p) (subst (λ x. divided x (pos (10 ^ 5)) ≡ ok fall) ep hf) in
    let er = checked_int_lem (fall +ℤ to_int256 high) hr ∙ ap (λ x. x +ℤ to_int256 high) ef in
    sym (ok-injective h4)
    ∙ reward_lem low high ((high - low) * p / 10 ^ 5) order top
        (div-le_of_le-mul (10 ^ 5) (
          subst (λ x. (high - low) * p ≤ x) (commuted (high - low))
            (mul-le-mul_left (high - low) small)))
        er

-- The reward for a debt between a smallest and a greatest value of the collateral
abbrev pub IsReward : ℕ → ℕ → ℕ → MarketConfig → ℕ → Type 0
IsReward debt min max c r =
    (debt < min → r ≡ 0)
    × (min ≤ debt → max ≤ debt → r ≡ c.min_liquidator_reward)
    × (min ≤ debt
        → debt < max
        → r
          ≡ fallen c.min_liquidator_reward c.max_liquidator_reward
              ((debt - min) * 10 ^ 5 / (max - min)))

percentage_small :
    (debt min max : ℕ) → min ≤ debt → debt < max → (debt - min) * 10 ^ 5 / (max - min) ≤ 10 ^ 5
percentage_small debt min max h k =
    div-le_of_le-mul (max - min) (mul-le-mul_right (10 ^ 5) (omega arith))

reward_between_lem :
    (debt min max : ℕ) (c : MarketConfig) {r : ℕ}
    → c.min_liquidator_reward < c.max_liquidator_reward
    → c.max_liquidator_reward < 10 ^ 5
    → reward_between debt min max c ≡ ok r
    → IsReward debt min max c r
unfolding reward_between
reward_between_lem debt min max c {r} order top h = elim (Bool-cases (ltb debt min)) [
  | inl below ↦ (
    (λ _. sym (ok-injective (sym (if-true (ltb debt min) _ _ below) ∙ h))),
    (λ k _. absurd (ground arith)),
    (λ k _. absurd (ground arith)),
  )
  | inr past ↦
      let h1 = sym (if-false (ltb debt min) _ _ past) ∙ h in
      elim (Bool-cases (leb max debt)) [
        | inl full ↦ (
          (λ k. absurd (ground arith)),
          (λ _ _. sym (ok-injective (sym (if-true (leb max debt) _ _ full) ∙ h1))),
          (λ _ k. absurd (ground arith)),
        )
        | inr between ↦
            let h2 = sym (if-false (leb max debt) _ _ between) ∙ h1 in
            let (product, hp, h3) = >>=-eq-ok (checked 256 ((debt - min) * 10 ^ 5)) _ h2 in
            let ep = (checked_lem 256 ((debt - min) * 10 ^ 5) hp).0 in
            (
              (λ k. absurd (ground arith)),
              (λ _ k. absurd (ground arith)),
              (λ k l.
                  sloped_reward_lem ((debt - min) * 10 ^ 5 / (max - min)) c order top
                    (percentage_small debt min max k l)
                    (subst (λ x. sloped_reward (x / (max - min)) c ≡ ok r) ep h3)),
            )
      ]
]

-- The reward of the caller who liquidates a user, at a rate of exchange
abbrev pub IsCallerReward : (ℕ → ℕ) → ℕ → ℕ → MarketConfig → BigBang → ℕ → Type 0
IsCallerReward to_amount user rate c b r =
    let part = b.user_borrow_part user in
    let max = to_amount (b.user_collateral_share user) * b.exchange_rate_precision / rate in
    let min = max * b.collateralization_rate / 10 ^ 5 in
    ((part == 0 || min == 0) ≡ true → r ≡ 0)
    × ((part == 0 || min == 0) ≡ false
        → IsReward (part * b.total_borrow.elastic / b.total_borrow.base) min max c r)

ltv_lem :
    (to_amount : ℕ → ℕ) (share rate : ℕ) (b : BigBang) {v : ℕ × ℕ}
    → compute_max_and_min_ltv_in_asset to_amount share rate b ≡ ok v
    → v ≡ (
      to_amount share * b.exchange_rate_precision / rate * b.collateralization_rate / 10 ^ 5,
      to_amount share * b.exchange_rate_precision / rate,
    )
unfolding compute_max_and_min_ltv_in_asset
ltv_lem to_amount share rate b {v} h =
    let (_, _, h1) = >>=-eq-ok (fail_if (rate == 0) "Market: exchangeRate not valid") _ h in
    let (product, hp, h2) =
      >>=-eq-ok (checked 256 (to_amount share * b.exchange_rate_precision)) _ h1 in
    let (scaled, hs, h3) =
      >>=-eq-ok (checked 256 (product / rate * b.collateralization_rate)) _ h2 in
    let ep = (checked_lem 256 (to_amount share * b.exchange_rate_precision) hp).0 in
    let es = (checked_lem 256 (product / rate * b.collateralization_rate) hs).0 in
    sym (ok-injective h3)
    ∙ ap (λ x. (x / 10 ^ 5, product / rate)) es
    ∙ ap (λ x. (x / rate * b.collateralization_rate / 10 ^ 5, x / rate)) ep

-- Where the smallest reward is below the greatest and that below 100%: the reward of the caller is 0 for
-- a user without a debt or whose collateral counts for nothing, 0 where the debt is below the smallest value of
-- the collateral, the smallest reward where it is at least the greatest value, and between the two the greatest
-- reward less what the percentage of the way takes off it.
pub get_caller_reward-IsCallerReward :
    (to_amount : ℕ → ℕ) (user rate : ℕ) (c : MarketConfig) (b : BigBang) {r : ℕ}
    → c.min_liquidator_reward < c.max_liquidator_reward
    → c.max_liquidator_reward < 10 ^ 5
    → get_caller_reward to_amount user rate c b ≡ ok r
    → IsCallerReward to_amount user rate c b r
unfolding get_caller_reward
get_caller_reward-IsCallerReward to_amount user rate c b {r} order top h =
    let (v, hv, h1) =
      >>=-eq-ok (compute_max_and_min_ltv_in_asset to_amount (b.user_collateral_share user) rate b) _
        h in
    let ev = ltv_lem to_amount (b.user_collateral_share user) rate b hv in
    let part = b.user_borrow_part user in
    let max = to_amount (b.user_collateral_share user) * b.exchange_rate_precision / rate in
    let min = max * b.collateralization_rate / 10 ^ 5 in
    let test = part == 0 || min == 0 in
    let h2 : (if test
          then ok 0
          else (borrow_amount part b >>= λ debt. reward_between debt min max c))
        ≡ ok r =
      subst
        (λ w.
          (if part == 0 || w.0 == 0
            then ok 0
            else (borrow_amount part b >>= λ debt. reward_between debt w.0 w.1 c))
          ≡ ok r)
        ev h1 in
    (
      (λ none. sym (ok-injective (sym (if-true test _ _ none) ∙ h2))),
      (λ some_debt.
          let h3 = sym (if-false test _ _ some_debt) ∙ h2 in
          let (debt, hd, h4) = >>=-eq-ok (borrow_amount part b) _ h3 in
          subst (λ d. IsReward d min max c r) (borrow_amount_lem part b hd)
            (reward_between_lem debt min max c order top h4)),
    )
