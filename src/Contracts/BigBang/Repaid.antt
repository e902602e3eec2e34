-- ===== src/Contracts/BigBang/Repaid.antt =====
-- The books after `_repay` of contracts/markets/bigBang/BBLendingCommon.sol, against those before.
use tapioca_lending_engine.Base.{
  ℕ, ◌+◌, ◌-◌, ◌==◌, ◌≤◌, ◌≡◌, ◌≢◌, refl, leb, Bool, true, false, not, ◌&&◌, ◌||◌, Outcome, ok,
  arith, fail_if, update, if◌then◌else◌, if-true, if-false, >>=-eq-ok, ok-injective, Bool-cases,
  inl, inr, subst, sym, ap, ◌∙◌, ==_refl, ==_iff,
}
use tapioca_lending_engine.Contracts.BigBang.{BigBang, Rebase, SameCollateral, minus, minus_lem}
use tapioca_lending_engine.Contracts.BigBang.Repay.{
  compute_allowance_amount_in_asset, allowed_lend, use_allowance, repaid_part, repay,
}

-- What is assumed of `RebaseLibrary.sub`: it takes the amount that it returns from the elastic side and
-- the part from the base.
abbrev pub SubsDown : (Rebase → ℕ → Bool → Outcome (Rebase × ℕ)) → Type 0
SubsDown sub =
    (t : Rebase) (part : ℕ) (up : Bool) (r : Rebase × ℕ)
    → sub t part up ≡ ok r
    → (r.0.elastic + r.1 ≡ t.elastic) × (r.0.base + part ≡ t.base)

-- An allowance changes no books.
abbrev pub SameBooks : BigBang → BigBang → Type 0
SameBooks b b' =
    (b'.total_borrow ≡ b.total_borrow)
    × (b'.user_borrow_part ≡ b.user_borrow_part)
    × SameCollateral b b'

allowed_lend-SameBooks :
    (p sender from share : ℕ) (b : BigBang) {b' : BigBang}
    → allowed_lend p sender from share b ≡ ok b'
    → SameBooks b b'
unfolding allowed_lend
allowed_lend-SameBooks p sender from share b h = elim (Bool-cases (from == sender)) [
  | inl own ↦
      subst (SameBooks b) (ok-injective (sym (if-true (from == sender) _ _ own) ∙ h))
        (refl, refl, (refl, refl))
  | inr foreign ↦
      let (_, _, h1) =
        >>=-eq-ok (fail_if (share == 0) "AllowanceNotValid") _
          (sym (if-false (from == sender) _ _ foreign) ∙ h) in
      let (_, _, h2) =
        >>=-eq-ok
          (fail_if (not (leb share (b.allowance from sender) || leb share p))
            "Market: not approved")
          _ h1 in
      elim (Bool-cases (leb share p)) [
        | inl enough ↦
            subst (SameBooks b) (sym (if-true (leb share p) _ _ enough) ∙ ok-injective h2)
              (refl, refl, (refl, refl))
        | inr spent ↦
            subst (SameBooks b) (sym (if-false (leb share p) _ _ spent) ∙ ok-injective h2)
              (refl, refl, (refl, refl))
      ]
]

-- The books after a repayment of `part`, against those before
abbrev pub IsRepay : ℕ → ℕ → BigBang → BigBang × ℕ → Type 0
IsRepay to part b (b', amount) =
    (b'.total_borrow.elastic + amount ≡ b.total_borrow.elastic)
    × (b'.total_borrow.base + b.user_borrow_part to ≡ b.total_borrow.base + b'.user_borrow_part to)
    × (b'.user_borrow_part to ≡ b.user_borrow_part to - part)
    × ((u : ℕ) → u ≢ to → b'.user_borrow_part u ≡ b.user_borrow_part u)
    × SameCollateral b b'

not_zero : (a : ℕ) {u : Unit {0}} → fail_if (a == 0) "NothingToRepay" ≡ ok u → a ≢ 0
not_zero a h = ground arith

sub_le : (l u p : ℕ) → (p ≤ u) × (l ≡ u - p) → l + p ≡ u
sub_le l u p h = omega (arith, h.0, h.1)

base_kept : (x y z w p : ℕ) → x + p ≡ y → w + p ≡ z → x + z ≡ y + w
base_kept x y z w p h k = omega arith

==_ne : (a b : ℕ) → a ≢ b → (a == b) ≡ false
==_ne a b h = ground (arith, ==_iff a b)

module _ (sub : Rebase → ℕ → Bool → Outcome (Rebase × ℕ)) (law : SubsDown sub) (to_amount : ℕ → ℕ)
    (decimals pearlmit_allowed sender from to : ℕ) where
  use_allowance-SameBooks :
      (part : ℕ) (b : BigBang) {b' : BigBang}
      → use_allowance sub to_amount decimals pearlmit_allowed sender from to part b ≡ ok b'
      → SameBooks b b'
  unfolding use_allowance
  use_allowance-SameBooks part b h =
      let (r, _, h1) = >>=-eq-ok (sub b.total_borrow part true) _ h in
      let (share, _, h2) =
        >>=-eq-ok (compute_allowance_amount_in_asset to_amount to b.exchange_rate r.1 decimals b) _
          h1 in
      let (_, _, h3) = >>=-eq-ok (fail_if (share == 0) "NotEnough") _ h2 in
      allowed_lend-SameBooks pearlmit_allowed sender from share b h3

  -- The books of the last lines of `_repay`, from a state with the same debt
  repaid-IsRepay :
      (part : ℕ) (b b' : BigBang) (r : Rebase × ℕ) (left : ℕ)
      → SameBooks b b'
      → sub b'.total_borrow part true ≡ ok r
      → minus (b'.user_borrow_part to) part ≡ ok left
      → IsRepay to part b (
        record b' { total_borrow = r.0; user_borrow_part = update b'.user_borrow_part to left },
        r.1,
      )
  repaid-IsRepay part b b' r left same hr hl =
      let sums = law b'.total_borrow part true r hr in
      let user = ap (λ (f : ℕ → ℕ). f to) same.1 in
      let total = same.0 in
      let difference = minus_lem (b'.user_borrow_part to) part hl in
      let new : update b'.user_borrow_part to left to ≡ left =
        if-true (to == to) _ _ (==_refl to) in
      (
        sums.0 ∙ ap (λ (t : Rebase). t.elastic) total,
        base_kept r.0.base b.total_borrow.base (b.user_borrow_part to)
            (update b'.user_borrow_part to left to) part
            (sums.1 ∙ ap (λ (t : Rebase). t.base) total)
            (ap (λ x. x + part) new ∙ sub_le left (b'.user_borrow_part to) part difference ∙ user),
        new ∙ difference.1 ∙ ap (λ x. x - part) user,
        (λ u ne. if-false (u == to) _ _ (==_ne u to ne) ∙ ap (λ (f : ℕ → ℕ). f u) same.1),
        same.2,
      )

  -- With a `RebaseLibrary` that takes off what it returns, a repayment that does not revert repays the part
  -- asked for, or all of the user's if that is less, and not nothing: the debt falls by the amount that
  -- is burned, the base by what the user's part falls by, and neither another user's part nor a
  -- collateral changes.
  pub repay-IsRepay :
      (check_allowance : Bool) (part : ℕ) (b : BigBang) {r : BigBang × ℕ}
      → repay sub to_amount decimals pearlmit_allowed check_allowance sender from to part b ≡ ok r
      → IsRepay to (repaid_part to part b) b r × (repaid_part to part b ≢ 0)
  unfolding repay
  repay-IsRepay check_allowance part b h =
      let asked = repaid_part to part b in
      let other = check_allowance && not (sender == from) in
      let (_, hz, h1) = >>=-eq-ok (fail_if (asked == 0) "NothingToRepay") _ h in
      let (b', hb, h2) =
        >>=-eq-ok
          (if other
            then use_allowance sub to_amount decimals pearlmit_allowed sender from to asked b
            else ok b)
          _ h1 in
      let (r, hr, h3) = >>=-eq-ok (sub b'.total_borrow asked true) _ h2 in
      let (left, hl, h4) = >>=-eq-ok (minus (b'.user_borrow_part to) asked) _ h3 in
      let same : SameBooks b b' = elim (Bool-cases other) [
        | inl checked_it ↦ use_allowance-SameBooks asked b (sym (if-true other _ _ checked_it) ∙ hb)
        | inr not_checked ↦
            subst (SameBooks b) (ok-injective (sym (if-false other _ _ not_checked) ∙ hb))
              (refl, refl, (refl, refl))
      ] in
      (
        subst (IsRepay to asked b) (ok-injective h4) (repaid-IsRepay asked b b' r left same hr hl),
        not_zero asked hz,
      )
