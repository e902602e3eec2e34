-- ===== src/Contracts/Singularity/Lenders.antt =====
-- The fees, the loans and the transfers of a Singularity market (contracts/markets/singularity,
-- contracts/markets/MarketERC20.sol) keep the fractions and the parts.
use tapioca_lending_engine.Base.{
  ℕ, ◌+◌, ◌-◌, ◌*◌, ◌/◌, ◌^◌, ◌==◌, ◌≤◌, ◌≡◌, sym, ◌∙◌, ltb, Bool, true, not, ◌&&◌, ◌||◌, List,
  Outcome, ok, arith, elem, update, fail_if, if-true, if-false, >>=-eq-ok, ok-injective, Bool-cases,
  inl, inr, subst,
}
use tapioca_lending_engine.Contracts.Penrose.Debt.{Distinct}
use tapioca_lending_engine.Contracts.BigBang.{Rebase, checked, minus, checked_lem, minus_lem}
use tapioca_lending_engine.Contracts.BigBang.Sums.{sum_parts, sum_parts-update}
use tapioca_lending_engine.Contracts.BigBang.Lending.{AddsUp}
use tapioca_lending_engine.Contracts.BigBang.Repaid.{SubsDown}
use tapioca_lending_engine.Contracts.Singularity.{Singularity}
use tapioca_lending_engine.Contracts.Singularity.Interest.{full_asset_amount, accrue}
use tapioca_lending_engine.Contracts.Singularity.Shares.{
  IsShared, grown, accrue-IsShared, remove_asset-IsShared,
}
use tapioca_lending_engine.Contracts.Singularity.Assets.{
  add_tokens, collect_fees, refresh_penrose_fees, opening_fraction, borrow_asset, repaid_asset_part,
  repay_asset, move_balance, transfer, spend_allowance, transfer_from,
}

collected :
    (s' f s v fees base : ℕ) → s' + f ≡ s + v → v ≡ f + fees → s + fees ≡ base → s' + 0 ≡ base
collected s' f s v fees base h k l = omega arith

raised : (s' f s v x t t' : ℕ) → s' + f ≡ s + v → v ≡ f + x → t' ≡ t + x → s ≡ t → s' ≡ t'
raised s' f s v x t t' h k l e = omega arith

lowered :
    (s' f s v x t t' : ℕ) → s' + f ≡ s + v → (x ≤ f) × (v ≡ f - x) → t' + x ≡ t → s ≡ t → s' ≡ t'
lowered s' f s v x t t' h k l e = omega arith

moved :
    (s2 s1 s f left g got x fees base : ℕ)
    → s1 + f ≡ s + left
    → (x ≤ f) × (left ≡ f - x)
    → s2 + g ≡ s1 + got
    → got ≡ g + x
    → s + fees ≡ base
    → s2 + fees ≡ base
moved s2 s1 s f left g got x fees base h k l m e = omega arith

module _ (users : List ℕ) (d : Distinct users) where
  collect_fees-IsShared :
      (to_amount : ℕ → ℕ) (now : ℕ) (s : Singularity) {t : Singularity}
      → collect_fees to_amount now s ≡ ok t
      → IsShared users s
      → IsShared users t
  unfolding collect_fees
  collect_fees-IsShared to_amount now s h shared =
      elim (Bool-cases (ltb 0 s.fees_earned_fraction)) [
        | inl earned ↦
            let (t, ht, h1) =
              >>=-eq-ok (accrue to_amount now s) _
                (sym (if-true (ltb 0 s.fees_earned_fraction) _ _ earned) ∙ h) in
            let (fees, hf, h2) =
              >>=-eq-ok (checked 256 (t.balance_of t.penrose + t.fees_earned_fraction)) _ h1 in
            let in_t = accrue-IsShared users d to_amount now s ht shared in
            subst (IsShared users) (ok-injective h2) (
              in_t.0,
              in_t.1,
              collected (sum_parts users (update t.balance_of t.penrose fees))
                  (t.balance_of t.penrose) (sum_parts users t.balance_of) fees
                  t.fees_earned_fraction t.total_asset.base
                  (sum_parts-update users d t.balance_of t.penrose fees in_t.1)
                  ((checked_lem 256 (t.balance_of t.penrose + t.fees_earned_fraction) hf).0) in_t.2,
              in_t.3,
            )
        | inr nothing ↦
            subst (IsShared users)
              (ok-injective (sym (if-false (ltb 0 s.fees_earned_fraction) _ _ nothing) ∙ h)) shared
      ]

  pub refresh_penrose_fees-IsShared :
      (to_amount : ℕ → ℕ) (to_share : ℕ → Bool → ℕ) (now : ℕ) (is_owner : Bool) (s : Singularity)
      {r : Singularity × ℕ}
      → refresh_penrose_fees to_amount to_share now is_owner s ≡ ok r
      → IsShared users s
      → IsShared users r.0
  unfolding refresh_penrose_fees
  refresh_penrose_fees-IsShared to_amount to_share now is_owner s h shared =
      let (_, _, h1) = >>=-eq-ok (fail_if (not is_owner) "Ownable: caller is not the owner") _ h in
      let (t, ht, h2) = >>=-eq-ok (collect_fees to_amount now s) _ h1 in
      let in_t = collect_fees-IsShared to_amount now s ht shared in
      remove_asset-IsShared users d to_share t.penrose (t.balance_of t.penrose) t in_t.1 h2 in_t

  opening_fraction-IsShared :
      (fee full : ℕ) (s : Singularity) {t : Singularity}
      → opening_fraction fee full s ≡ ok t
      → IsShared users s
      → IsShared users t
  unfolding opening_fraction
  opening_fraction-IsShared fee full s h shared = elim (Bool-cases (fee == 0)) [
    | inl free ↦
        subst (IsShared users) (ok-injective (sym (if-true (fee == 0) _ _ free) ∙ h)) shared
    | inr some_fee ↦
        let (product, _, h1) =
          >>=-eq-ok (checked 256 (fee * s.total_asset.base)) _
            (sym (if-false (fee == 0) _ _ some_fee) ∙ h) in
        let (_, _, h2) = >>=-eq-ok (fail_if (full == 0) "Panic(0x12)") _ h1 in
        let (fraction, _, h3) = >>=-eq-ok (checked 128 (product / full)) _ h2 in
        let (base, hb, h4) = >>=-eq-ok (checked 128 (s.total_asset.base + fraction)) _ h3 in
        let (balance, hm, h5) = >>=-eq-ok (checked 256 (s.balance_of s.penrose + fraction)) _ h4 in
        subst (IsShared users) (ok-injective h5) (
          shared.0,
          shared.1,
          grown (sum_parts users (update s.balance_of s.penrose balance)) (s.balance_of s.penrose)
              (sum_parts users s.balance_of) balance fraction s.fees_earned_fraction
              s.total_asset.base base
              (sum_parts-update users d s.balance_of s.penrose balance shared.1)
              ((checked_lem 256 (s.balance_of s.penrose + fraction) hm).0)
              ((checked_lem 128 (s.total_asset.base + fraction) hb).0) shared.2,
          shared.3,
        )
  ]

  pub borrow_asset-IsShared :
      (add_debt : Rebase → ℕ → Bool → Outcome (Rebase × ℕ)) (to_amount : ℕ → ℕ)
      (to_share : ℕ → Bool → ℕ) (from amount : ℕ) (s : Singularity) {r : Singularity × ℕ × ℕ}
      → AddsUp add_debt
      → elem from users ≡ true
      → borrow_asset add_debt to_amount to_share from amount s ≡ ok r
      → IsShared users s
      → IsShared users r.0
  unfolding borrow_asset
  borrow_asset-IsShared add_debt to_amount to_share from amount s law mem h shared =
      let (_, _, h1) = >>=-eq-ok (fail_if (ltb s.total_asset.base 1000) "MinLimit") _ h in
      let (full, _, h2) = >>=-eq-ok (full_asset_amount to_amount s) _ h1 in
      let (share, _, h3) = >>=-eq-ok (checked 128 (to_share amount true)) _ h2 in
      let (elastic, _, h4) = >>=-eq-ok (minus s.total_asset.elastic share) _ h3 in
      let (product, _, h5) = >>=-eq-ok (checked 256 (amount * s.borrow_opening_fee)) _ h4 in
      let (debt, _, h6) = >>=-eq-ok (checked 256 (amount + product / 10 ^ 5)) _ h5 in
      let (r, hr, h7) = >>=-eq-ok (add_debt s.total_borrow debt true) _ h6 in
      let (_, _, h8) =
        >>=-eq-ok
          (fail_if (not (s.total_borrow_cap == 0) && ltb s.total_borrow_cap r.0.elastic)
            "BorrowCapReached")
          _ h7 in
      let (part, hp, h9) = >>=-eq-ok (checked 256 (s.user_borrow_part from + r.1)) _ h8 in
      let lent = record s {
        total_asset = record { elastic = elastic; base = s.total_asset.base };
        total_borrow = r.0;
        user_borrow_part = update s.user_borrow_part from part;
      } in
      let (t, ht, h10) = >>=-eq-ok (opening_fraction (product / 10 ^ 5) full lent) _ h9 in
      let in_lent : IsShared users lent = (
        shared.0,
        shared.1,
        shared.2,
        raised (sum_parts users (update s.user_borrow_part from part)) (s.user_borrow_part from)
            (sum_parts users s.user_borrow_part) part r.1 s.total_borrow.base r.0.base
            (sum_parts-update users d s.user_borrow_part from part mem)
            ((checked_lem 256 (s.user_borrow_part from + r.1) hp).0)
            ((law s.total_borrow debt true r hr).1) shared.3,
      ) in
      subst (λ (x : Singularity × ℕ × ℕ). IsShared users x.0) (ok-injective h10)
        (opening_fraction-IsShared (product / 10 ^ 5) full lent ht in_lent)

  pub repay_asset-IsShared :
      (sub_debt : Rebase → ℕ → Bool → Outcome (Rebase × ℕ)) (to_share : ℕ → Bool → ℕ) (balance : ℕ)
      (fails : Bool) (to : ℕ) (skim : Bool) (part : ℕ) (s : Singularity) {r : Singularity × ℕ}
      → SubsDown sub_debt
      → elem to users ≡ true
      → repay_asset sub_debt to_share balance fails to skim part s ≡ ok r
      → IsShared users s
      → IsShared users r.0
  unfolding repay_asset
  repay_asset-IsShared sub_debt to_share balance fails to skim part s law mem h shared =
      let asked = repaid_asset_part to part s in
      let (_, _, h1) = >>=-eq-ok (fail_if (asked == 0) "NothingToRepay") _ h in
      let (r, hr, h2) = >>=-eq-ok (sub_debt s.total_borrow asked true) _ h1 in
      let (left, hl, h3) = >>=-eq-ok (minus (s.user_borrow_part to) asked) _ h2 in
      let (_, _, h4) =
        >>=-eq-ok (add_tokens balance fails (to_share r.1 true) s.total_asset.elastic skim) _ h3 in
      let (share, _, h5) = >>=-eq-ok (checked 128 (to_share r.1 true)) _ h4 in
      let (elastic, _, h6) = >>=-eq-ok (checked 128 (s.total_asset.elastic + share)) _ h5 in
      subst (λ (x : Singularity × ℕ). IsShared users x.0) (ok-injective h6)
        (
          shared.0,
          shared.1,
          shared.2,
          lowered (sum_parts users (update s.user_borrow_part to left)) (s.user_borrow_part to)
              (sum_parts users s.user_borrow_part) left asked s.total_borrow.base r.0.base
              (sum_parts-update users d s.user_borrow_part to left mem)
              (minus_lem (s.user_borrow_part to) asked hl) ((law s.total_borrow asked true r hr).1)
              shared.3,
        )

  move_balance-IsShared :
      (from to amount : ℕ) (s : Singularity) {t : Singularity}
      → elem from users ≡ true
      → elem to users ≡ true
      → move_balance from to amount s ≡ ok t
      → IsShared users s
      → IsShared users t
  unfolding move_balance
  move_balance-IsShared from to amount s mem_from mem_to h shared =
      let (_, _, h1) = >>=-eq-ok (fail_if (to == 0) "ERC20: no zero address") _ h in
      let (left, hl, h2) = >>=-eq-ok (minus (s.balance_of from) amount) _ h1 in
      let rest = update s.balance_of from left in
      let (got, hg, h3) = >>=-eq-ok (checked 256 (rest to + amount)) _ h2 in
      subst (IsShared users) (ok-injective h3) (
        shared.0,
        shared.1,
        moved (sum_parts users (update rest to got)) (sum_parts users rest)
            (sum_parts users s.balance_of) (s.balance_of from) left (rest to) got amount
            s.fees_earned_fraction s.total_asset.base
            (sum_parts-update users d s.balance_of from left mem_from)
            (minus_lem (s.balance_of from) amount hl) (sum_parts-update users d rest to got mem_to)
            ((checked_lem 256 (rest to + amount) hg).0) shared.2,
        shared.3,
      )

  pub transfer-IsShared :
      (sender to amount : ℕ) (s : Singularity) {t : Singularity}
      → elem sender users ≡ true
      → elem to users ≡ true
      → transfer sender to amount s ≡ ok t
      → IsShared users s
      → IsShared users t
  unfolding transfer
  transfer-IsShared sender to amount s mem_from mem_to h shared =
      elim (Bool-cases (not (amount == 0) || sender == to)) [
        | inr skipped ↦
            subst (IsShared users)
              (ok-injective (sym (if-false (not (amount == 0) || sender == to) _ _ skipped) ∙ h))
              shared
        | inl done ↦
            let (_, _, h1) =
              >>=-eq-ok (fail_if (ltb (s.balance_of sender) amount) "ERC20: balance too low") _
                (sym (if-true (not (amount == 0) || sender == to) _ _ done) ∙ h) in
            elim (Bool-cases (sender == to)) [
              | inl own ↦
                  subst (IsShared users) (ok-injective (sym (if-true (sender == to) _ _ own) ∙ h1))
                    shared
              | inr other ↦
                  move_balance-IsShared sender to amount s mem_from mem_to
                    (sym (if-false (sender == to) _ _ other) ∙ h1) shared
            ]
      ]

  spend_allowance-IsShared :
      (from sender amount : ℕ) (s : Singularity) {t : Singularity}
      → spend_allowance from sender amount s ≡ ok t
      → IsShared users s
      → IsShared users t
  unfolding spend_allowance
  spend_allowance-IsShared from sender amount s h shared =
      elim (Bool-cases (s.allowance from sender == 2 ^ 256 - 1)) [
        | inl greatest ↦
            subst (IsShared users)
              (ok-injective
                (sym (if-true (s.allowance from sender == 2 ^ 256 - 1) _ _ greatest) ∙ h))
              shared
        | inr limited ↦
            let (_, _, h1) =
              >>=-eq-ok (fail_if (ltb (s.allowance from sender) amount) "ERC20: allowance too low")
                _ (sym (if-false (s.allowance from sender == 2 ^ 256 - 1) _ _ limited) ∙ h) in
            subst (IsShared users) (ok-injective h1) shared
      ]

  pub transfer_from-IsShared :
      (sender from to amount : ℕ) (s : Singularity) {t : Singularity}
      → elem from users ≡ true
      → elem to users ≡ true
      → transfer_from sender from to amount s ≡ ok t
      → IsShared users s
      → IsShared users t
  unfolding transfer_from
  transfer_from-IsShared sender from to amount s mem_from mem_to h shared =
      elim (Bool-cases (amount == 0)) [
        | inl nothing ↦
            subst (IsShared users) (ok-injective (sym (if-true (amount == 0) _ _ nothing) ∙ h))
              shared
        | inr something ↦
            let (_, _, h1) =
              >>=-eq-ok (fail_if (ltb (s.balance_of from) amount) "ERC20: balance too low") _
                (sym (if-false (amount == 0) _ _ something) ∙ h) in
            elim (Bool-cases (from == to)) [
              | inl own ↦
                  subst (IsShared users) (ok-injective (sym (if-true (from == to) _ _ own) ∙ h1))
                    shared
              | inr other ↦
                  let (t, ht, h2) =
                    >>=-eq-ok (spend_allowance from sender amount s) _
                      (sym (if-false (from == to) _ _ other) ∙ h1) in
                  move_balance-IsShared from to amount t mem_from mem_to h2
                    (spend_allowance-IsShared from sender amount s ht shared)
            ]
      ]
