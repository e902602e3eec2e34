-- ===== src/Contracts/BigBang/Accrual.antt =====
-- The bounds of the debt rate, and what an accrual does to the books.
use tapioca_lending_engine.Base.{
  ℕ, ◌+◌, ◌-◌, ◌*◌, ◌/◌, ◌^◌, ◌==◌, ◌≤◌, ◌<◌, ◌≡◌, refl, ltb, leb, false, ok, arith, if◌then◌else◌,
  if-true, if-false, >>=-ok, >>=-eq-ok, ok-injective, Bool-cases, inl, inr, subst, sym, ◌∙◌,
}
use tapioca_lending_engine.Contracts.BigBang.{
  BigBang, SameCollateral, checked, minus, checked_lem, minus_lem,
}
use tapioca_lending_engine.Contracts.BigBang.Rate.{
  sloped_rate, relative_rate, get_debt_rate, extra_amount, accrue_view_since, accrue_view,
  accrue_since, accrue,
}

-- A sum that is capped
capped_lem :
    (min max rise debt : ℕ) {r : ℕ}
    → min ≤ max
    → debt ≡ rise + min
    → (if ltb max debt then max else debt) ≡ r
    → (min ≤ r) × (r ≤ max)
capped_lem min max rise debt order e h = ground arith

cap_lem :
    (top elastic max extra : ℕ) {x : ℕ}
    → (elastic ≤ top) × (max ≡ top - elastic)
    → (if ltb max extra then max else extra) ≡ x
    → elastic + x < top + 1
cap_lem top elastic max extra m h = ground arith

sloped_rate_lem :
    (p : ℕ) (b : BigBang) {r : ℕ}
    → b.min_debt_rate ≤ b.max_debt_rate
    → sloped_rate p b ≡ ok r
    → (b.min_debt_rate ≤ r) × (r ≤ b.max_debt_rate)
unfolding sloped_rate
sloped_rate_lem p b order h =
    let (s, _, h1) = >>=-eq-ok (checked 256 (b.total_borrow.elastic * 10 ^ 18)) _ h in
    let (range, _, h2) = >>=-eq-ok (minus b.max_debt_rate b.min_debt_rate) _ h1 in
    let (rise, _, h3) = >>=-eq-ok (checked 256 (range * (s / p))) _ h2 in
    let (debt, hd, h4) = >>=-eq-ok (checked 256 (rise / 10 ^ 18 + b.min_debt_rate)) _ h3 in
    capped_lem b.min_debt_rate b.max_debt_rate (rise / 10 ^ 18) debt order
      ((checked_lem 256 (rise / 10 ^ 18 + b.min_debt_rate) hd).0) (ok-injective h4)

pub relative_rate_lem :
    (eth_debt : ℕ) (b : BigBang) {r : ℕ}
    → b.min_debt_rate ≤ b.max_debt_rate
    → relative_rate eth_debt b ≡ ok r
    → (b.min_debt_rate ≤ r) × (r ≤ b.max_debt_rate)
unfolding relative_rate
relative_rate_lem eth_debt b {r} order h =
    let (p, _, h1) = >>=-eq-ok (checked 256 (eth_debt * b.debt_rate_against_eth_market)) _ h in
    let full = leb (p / 10 ^ 18) b.total_borrow.elastic in
    elim (Bool-cases (leb (p / 10 ^ 18) b.total_borrow.elastic)) [
      | inl past ↦
          subst (λ x. (b.min_debt_rate ≤ x) × (x ≤ b.max_debt_rate))
            (ok-injective (sym (if-true full _ _ past) ∙ h1)) (order, omega arith)
      | inr below ↦ sloped_rate_lem (p / 10 ^ 18) b order (sym (if-false full _ _ below) ∙ h1)
    ]

-- A market that is not the main one has a debt rate between its two bounds.
pub get_debt_rate_bounds :
    (main_rate eth_debt : ℕ) (b : BigBang) {r : ℕ}
    → b.is_main_market ≡ false
    → b.min_debt_rate ≤ b.max_debt_rate
    → get_debt_rate main_rate eth_debt b ≡ ok r
    → (b.min_debt_rate ≤ r) × (r ≤ b.max_debt_rate)
unfolding get_debt_rate
get_debt_rate_bounds main_rate eth_debt b {r} side order h =
    let h1 = sym (if-false b.is_main_market _ _ side) ∙ h in
    elim (Bool-cases (b.total_borrow.elastic == 0)) [
      | inl none ↦
          let e = ok-injective (sym (if-true (b.total_borrow.elastic == 0) _ _ none) ∙ h1) in
          subst (λ x. (b.min_debt_rate ≤ x) × (x ≤ b.max_debt_rate)) e (omega arith, order)
      | inr some_debt ↦
          relative_rate_lem eth_debt b order
            (sym (if-false (b.total_borrow.elastic == 0) _ _ some_debt) ∙ h1)
    ]

extra_amount_lem :
    (per_second elapsed : ℕ) (b : BigBang) {x : ℕ}
    → extra_amount per_second elapsed b ≡ ok x
    → b.total_borrow.elastic + x < 2 ^ 128
unfolding extra_amount
extra_amount_lem per_second elapsed b h =
    let (q, _, h1) = >>=-eq-ok (checked 256 (b.total_borrow.elastic * per_second * elapsed)) _ h in
    let (max, hm, h2) = >>=-eq-ok (minus (2 ^ 128 - 1) b.total_borrow.elastic) _ h1 in
    cap_lem (2 ^ 128 - 1) b.total_borrow.elastic max (q / 10 ^ 18)
      (minus_lem (2 ^ 128 - 1) b.total_borrow.elastic hm) (ok-injective h2)

-- The debt stays within 128 bits and grows by what the open interest debt grows by, and no part or collateral changes.
abbrev pub IsAccrual : BigBang → BigBang → Type 0
IsAccrual b b' =
    (b'.total_borrow.elastic < 2 ^ 128)
    × (b'.open_interest_debt + b.total_borrow.elastic
        ≡ b.open_interest_debt + b'.total_borrow.elastic)
    × (b'.total_borrow.base ≡ b.total_borrow.base)
    × (b'.user_borrow_part ≡ b.user_borrow_part)
    × SameCollateral b b'

shift : (o e x d : ℕ) → d ≡ o + x → d + e ≡ o + (e + x)
shift o e x d h = omega arith

pub accrue_since_lem :
    (main_rate eth_debt now elapsed : ℕ) (b : BigBang) {b' : BigBang}
    → accrue_since main_rate eth_debt now elapsed b ≡ ok b'
    → (accrue_view_since main_rate eth_debt elapsed b ≡ ok b'.total_borrow) × IsAccrual b b'
unfolding accrue_since accrue_view_since
accrue_since_lem main_rate eth_debt now elapsed b h =
    let (rate, hr, h1) = >>=-eq-ok (get_debt_rate main_rate eth_debt b) _ h in
    let (per_second, hp, h2) = >>=-eq-ok (checked 64 (rate / 31_557_600)) _ h1 in
    let (last, _, h3) = >>=-eq-ok (checked 64 now) _ h2 in
    let (extra, hx, h4) = >>=-eq-ok (extra_amount per_second elapsed b) _ h3 in
    let (debt, hd, h5) = >>=-eq-ok (checked 256 (b.open_interest_debt + extra)) _ h4 in
    let same = (checked_lem 64 (rate / 31_557_600) hp).0 in
    let hx' = subst (λ p. extra_amount p elapsed b ≡ ok extra) same hx in
    subst
      (λ x. (accrue_view_since main_rate eth_debt elapsed b ≡ ok x.total_borrow) × IsAccrual b x)
      (ok-injective h5)
      (
        >>=-ok (get_debt_rate main_rate eth_debt b) _ hr
            (>>=-ok (extra_amount (rate / 31_557_600) elapsed b) _ hx' refl),
        (
          extra_amount_lem per_second elapsed b hx,
          shift b.open_interest_debt b.total_borrow.elastic extra debt
              ((checked_lem 256 (b.open_interest_debt + extra) hd).0),
          refl,
          refl,
          (refl, refl),
        ),
      )

-- What the part of `_accrue` after the main market's accrual does to the books, where it does not revert:
-- `_accrueView`, given the same debt of the main market, shows the debt that is left, the debt stays within 128 bits, it grows by what the open interest debt grows by, and no user's part or collateral
-- changes.
pub accrue-accrue_view :
    (main_rate eth_debt now : ℕ) (b : BigBang) {b' : BigBang}
    → b.total_borrow.elastic < 2 ^ 128
    → accrue main_rate eth_debt now b ≡ ok b'
    → (accrue_view main_rate eth_debt now b ≡ ok b'.total_borrow) × IsAccrual b b'
unfolding accrue accrue_view
accrue-accrue_view main_rate eth_debt now b {b'} small h =
    let (elapsed, he, h1) = >>=-eq-ok (minus now b.last_accrued) _ h in
    elim (Bool-cases (elapsed == 0)) [
      | inl same ↦
          let e = ok-injective (sym (if-true (elapsed == 0) _ _ same) ∙ h1) in
          subst (λ x. (accrue_view main_rate eth_debt now b ≡ ok x.total_borrow) × IsAccrual b x) e
            (
              >>=-ok (minus now b.last_accrued) _ he (if-true (elapsed == 0) _ _ same),
              (small, refl, refl, refl, (refl, refl)),
            )
      | inr passed ↦
          let (v, books) =
            accrue_since_lem main_rate eth_debt now elapsed b
              (sym (if-false (elapsed == 0) _ _ passed) ∙ h1) in
          (>>=-ok (minus now b.last_accrued) _ he (if-false (elapsed == 0) _ _ passed ∙ v), books)
    ]
