-- ===== src/Contracts/BigBang/Liquidation/Taken.antt =====
-- What a closed liquidation takes from a user, and what it leaves to the others.
use tapioca_lending_engine.Base.{
  ℕ, ◌+◌, ◌-◌, ◌*◌, ◌/◌, ◌^◌, ◌==◌, ◌≤◌, ◌≡◌, ◌≢◌, refl, ltb, true, false, ok, arith, fail_if,
  if◌then◌else◌, if-true, if-false, >>=-eq-ok, ok-injective, subst, ap, ◌∙◌, ==_refl,
}
use tapioca_lending_engine.Contracts.BigBang.{
  BigBang, Rebase, checked, minus, checked_lem, minus_lem,
}
use tapioca_lending_engine.Contracts.BigBang.Closing.{compute_closing_factor, get_caller_reward}
use tapioca_lending_engine.Contracts.BigBang.Lending.{==_ne}
use tapioca_lending_engine.Contracts.BigBang.Liquidation.{
  Terms, Request, Liquidated, capped, liquidable_amount, liquidable_part, liquidable_share,
  take_off, update_borrow_and_collateral_share, extract_liquidation_fees,
  swap_collateral_with_asset, liquidate_user,
}

-- The closing factor that a liquidation of a user is bounded by
abbrev pub ClosingOf : Terms → ℕ → ℕ → BigBang → ℕ → Type 0
ClosingOf t user rate b f =
    compute_closing_factor (b.user_borrow_part user)
      (t.to_amount (b.user_collateral_share user) * b.exchange_rate_precision / rate) t.settings b
    ≡ ok f

capped_le : (a b c : ℕ) → (capped (capped a b) c ≤ c) × (capped (capped a b) c ≤ a)
capped_le a b c = ground arith

not_zero : (n : ℕ) (e : _) {u : Unit {0}} → fail_if (n == 0) e ≡ ok u → n ≢ 0
not_zero n e h z = ground arith

written : (n m k : ℕ) → (m ≤ n) × (k ≡ n - m) → k + m ≡ n
written n m k h = omega arith

-- The books of the user alone, after a part and a collateral are taken off
abbrev IsOff : ℕ → ℕ → ℕ → BigBang → BigBang → Type 0
IsOff user part share b c =
    (c.user_borrow_part user + part ≡ b.user_borrow_part user)
    × (c.user_collateral_share user + share ≡ b.user_collateral_share user)
    × ((u : ℕ) → u ≢ user → c.user_borrow_part u ≡ b.user_borrow_part u)
    × ((u : ℕ) → u ≢ user → c.user_collateral_share u ≡ b.user_collateral_share u)
    × (c.total_borrow ≡ b.total_borrow)
    × (c.total_collateral_share ≡ b.total_collateral_share)

take_off-IsOff :
    (user part share : ℕ) (b : BigBang) {c : BigBang}
    → take_off user part share b ≡ ok c
    → IsOff user part share b c
unfolding take_off
take_off-IsOff user part share b h =
    let (part_left, hp, h1) = >>=-eq-ok (minus (b.user_borrow_part user) part) _ h in
    let (share_left, hs, h2) = >>=-eq-ok (minus (b.user_collateral_share user) share) _ h1 in
    subst (IsOff user part share b) (ok-injective h2) (
      ap (λ x. x + part) (if-true (user == user) _ _ (==_refl user))
          ∙ written (b.user_borrow_part user) part part_left
              (minus_lem (b.user_borrow_part user) part hp),
      ap (λ x. x + share) (if-true (user == user) _ _ (==_refl user))
          ∙ written (b.user_collateral_share user) share share_left
              (minus_lem (b.user_collateral_share user) share hs),
      (λ u ne. if-false (u == user) _ _ (==_ne u user ne)),
      (λ u ne. if-false (u == user) _ _ (==_ne u user ne)),
      refl,
      refl,
    )

-- An amount within the limit of the caller and the closing factor
abbrev pub IsWithin : Terms → ℕ → ℕ → ℕ → BigBang → ℕ → Type 0
IsWithin t user max_part rate b amount =
    (amount ≤ max_part) × ((f : ℕ) × (ClosingOf t user rate b f × (amount ≤ f)))

liquidable_amount-IsWithin :
    (t : Terms) (user max_part rate : ℕ) (b : BigBang) {r : ℕ × ℕ × ℕ}
    → liquidable_amount t user max_part rate b ≡ ok r
    → IsWithin t user max_part rate b r.2
unfolding liquidable_amount
liquidable_amount-IsWithin t user max_part rate b h =
    let worth = t.to_amount (b.user_collateral_share user) * b.exchange_rate_precision in
    let (_, _, h0) = >>=-eq-ok (fail_if (rate == 0) "ExchangeRateNotValid") _ h in
    let (value, hv, h1) = >>=-eq-ok (checked 256 worth) _ h0 in
    let (factor, hf, h2) =
      >>=-eq-ok (compute_closing_factor (b.user_borrow_part user) (value / rate) t.settings b) _
        h1 in
    let (total, _, h3) =
      >>=-eq-ok (t.to_elastic b.total_borrow (b.user_borrow_part user) true) _ h2 in
    let (_, _, h4) =
      >>=-eq-ok (fail_if (ltb (value / rate) (capped factor total)) "BadDebt") _ h3 in
    let ev = (checked_lem 256 worth hv).0 in
    let hf' =
      subst
        (λ x. compute_closing_factor (b.user_borrow_part user) (x / rate) t.settings b ≡ ok factor)
        ev hf in
    subst (λ r. IsWithin t user max_part rate b r.2) (ok-injective h4)
      ((capped_le factor total max_part).0, (factor, (hf', (capped_le factor total max_part).1)))

liquidable_part-ne-zero :
    (t : Terms) (user total amount : ℕ) (b : BigBang) {p : ℕ}
    → liquidable_part t user total amount b ≡ ok p
    → p ≢ 0
unfolding liquidable_part
liquidable_part-ne-zero t user total amount b h =
    let (part, _, h1) =
      >>=-eq-ok
        (if amount == total
          then ok (b.user_borrow_part user)
          else t.to_base b.total_borrow amount false)
        _ h in
    let (_, nz, h2) = >>=-eq-ok (fail_if (part == 0) "Solvent") _ h1 in
    subst (λ p. p ≢ 0) (ok-injective h2) (not_zero part "Solvent" nz)

abbrev pub IsTaken : Terms → ℕ → ℕ → ℕ → BigBang → BigBang × ℕ × ℕ × ℕ → Type 0
IsTaken t user max_part rate b (c, amount, part, share) =
    IsWithin t user max_part rate b amount × (part ≢ 0) × IsOff user part share b c

update_borrow_and_collateral_share-IsTaken :
    (t : Terms) (user max_part min_bonus rate : ℕ) (b : BigBang) {r : BigBang × ℕ × ℕ × ℕ}
    → update_borrow_and_collateral_share t user max_part min_bonus rate b ≡ ok r
    → IsTaken t user max_part rate b r
unfolding update_borrow_and_collateral_share
update_borrow_and_collateral_share-IsTaken t user max_part min_bonus rate b h =
    let (a, ha, h1) = >>=-eq-ok (liquidable_amount t user max_part rate b) _ h in
    let (part, hp, h2) = >>=-eq-ok (liquidable_part t user a.1 a.2 b) _ h1 in
    let (share, _, h3) = >>=-eq-ok (liquidable_share t user a.0 a.1 a.2 min_bonus rate b) _ h2 in
    let (c, hc, h4) = >>=-eq-ok (take_off user part share b) _ h3 in
    subst (IsTaken t user max_part rate b) (ok-injective h4) (
      liquidable_amount-IsWithin t user max_part rate b ha,
      liquidable_part-ne-zero t user a.1 a.2 b hp,
      take_off-IsOff user part share b hc,
    )

-- The books after the liquidation of a user, against those before
abbrev pub IsLiquidation : Terms → ℕ → Request → BigBang → BigBang × Liquidated → Type 0
IsLiquidation t rate q b (c, l) =
    IsWithin t q.user q.max_borrow_part rate b l.amount
    × (l.part ≢ 0)
    × (c.user_borrow_part q.user + l.part ≡ b.user_borrow_part q.user)
    × (c.user_collateral_share q.user + l.collateral_share ≡ b.user_collateral_share q.user)
    × ((u : ℕ) → u ≢ q.user → c.user_borrow_part u ≡ b.user_borrow_part u)
    × ((u : ℕ) → u ≢ q.user → c.user_collateral_share u ≡ b.user_collateral_share u)
    × (c.total_borrow.elastic + l.amount ≡ b.total_borrow.elastic)
    × (c.total_borrow.base + l.part ≡ b.total_borrow.base)
    × (c.total_collateral_share ≡ b.total_collateral_share - l.collateral_share)
    × (t.asset_to_share l.amount true + (l.caller_share + l.fee_share) ≡ l.returned_share)

split : (n m k : ℕ) → (m ≤ n) × (k ≡ n - m) → m + k ≡ n
split n m k h = omega arith

extract_liquidation_fees_lem :
    (returned borrowed reward : ℕ) {r : ℕ × ℕ}
    → extract_liquidation_fees returned borrowed reward ≡ ok r
    → r.1 + r.0 ≡ returned - borrowed
unfolding extract_liquidation_fees
extract_liquidation_fees_lem returned borrowed reward h =
    let (product, _, h1) = >>=-eq-ok (checked 256 ((returned - borrowed) * reward)) _ h in
    let (fee, hf, h2) = >>=-eq-ok (minus (returned - borrowed) (product / 10 ^ 5)) _ h1 in
    subst (λ r. r.1 + r.0 ≡ returned - borrowed) (ok-injective h2)
      (split (returned - borrowed) (product / 10 ^ 5) fee
        (minus_lem (returned - borrowed) (product / 10 ^ 5) hf))

left_over : (share total : ℕ) → (if ltb share total then total - share else 0) ≡ total - share
left_over share total = ground arith

down : (a b c d e : ℕ) → d ≡ a → (d ≤ b) × (c ≡ b - d) → b ≡ e → c + a ≡ e
down a b c d e h k l = omega arith

surplus :
    (borrowed returned sum : ℕ) (u : Unit {0})
    → fail_if (ltb returned borrowed) "AmountNotValid" ≡ ok u
    → sum ≡ returned - borrowed
    → borrowed + sum ≡ returned
surplus borrowed returned sum u h k = ground arith

-- A liquidation of a user that does not revert repays no more than the caller's limit and the closing
-- factor; the debt and its base fall by what is burned and by the part, which is not 0, and the part and the
-- collateral of the user by what is taken; no other user's change; the shares that come back
-- cover the debt, and what is above it goes to the caller and to the protocol.
pub liquidate_user-IsLiquidation :
    (t : Terms) (rate min_bonus : ℕ) (q : Request) (b : BigBang) {r : BigBang × Liquidated}
    → liquidate_user t rate min_bonus q b ≡ ok r
    → IsLiquidation t rate q b r
unfolding liquidate_user
liquidate_user-IsLiquidation t rate min_bonus q b h =
    let (reward, _, h0) = >>=-eq-ok (get_caller_reward t.to_amount q.user rate t.settings b) _ h in
    let (r, hr, h1) =
      >>=-eq-ok (update_borrow_and_collateral_share t q.user q.max_borrow_part min_bonus rate b) _
        h0 in
    let c = r.0 in
    let amount = r.1 in
    let part = r.2 in
    let share = r.3 in
    let (amount_128, ha, h2) = >>=-eq-ok (checked 128 amount) _ h1 in
    let (elastic, he, h3) = >>=-eq-ok (minus c.total_borrow.elastic amount_128) _ h2 in
    let (part_128, hp, h4) = >>=-eq-ok (checked 128 part) _ h3 in
    let (base, hb, h5) = >>=-eq-ok (minus c.total_borrow.base part_128) _ h4 in
    let (swapped, hs, h6) =
      >>=-eq-ok (swap_collateral_with_asset t share q.receive rate true c) _ h5 in
    let (u, enough, h7) =
      >>=-eq-ok (fail_if (ltb swapped.0 (t.asset_to_share amount true)) "AmountNotValid") _ h6 in
    let (fees, hf, h8) =
      >>=-eq-ok (extract_liquidation_fees swapped.0 (t.asset_to_share amount true) reward) _ h7 in
    let (within, some_part, off) =
      update_borrow_and_collateral_share-IsTaken t q.user q.max_borrow_part min_bonus rate b hr in
    subst (IsLiquidation t rate q b) (ok-injective h8) (
      within,
      some_part,
      off.0,
      off.1,
      off.2,
      off.3,
      down amount c.total_borrow.elastic elastic amount_128 b.total_borrow.elastic
          ((checked_lem 128 amount ha).0) (minus_lem c.total_borrow.elastic amount_128 he)
          (ap (λ (x : Rebase). x.elastic) off.4),
      down part c.total_borrow.base base part_128 b.total_borrow.base ((checked_lem 128 part hp).0)
          (minus_lem c.total_borrow.base part_128 hb) (ap (λ (x : Rebase). x.base) off.4),
      left_over share c.total_collateral_share ∙ ap (λ x. x - share) off.5,
      surplus (t.asset_to_share amount true) swapped.0 (fees.1 + fees.0) u enough
          (extract_liquidation_fees_lem swapped.0 (t.asset_to_share amount true) reward hf),
    )
