-- ===== src/Contracts/BigBang/Both.antt =====
-- The accrual of a market together with the main market's, and what `_accrueView` shows before it and
-- between the two.
use tapioca_lending_engine.Base.{
  ℕ, ◌+◌, ◌-◌, ◌*◌, ◌/◌, ◌^◌, ◌==◌, ◌≤◌, ◌<◌, ◌≡◌, ltb, leb, Bool, false, ok, arith, if◌then◌else◌,
  if-true, if-false, >>=-eq-ok, ok-injective, Bool-cases, inl, inr, subst, sym, ap, ◌∙◌, fail_if,
}
use native.Mathlib.Nat.{le-div_iff_mul-le, div-mul-le_self, mul-le-mul_left, mul-le-mul_right}
use tapioca_lending_engine.Contracts.BigBang.{BigBang, Rebase, checked, minus, checked_lem}
use tapioca_lending_engine.Contracts.BigBang.Rate.{
  sloped_rate, relative_rate, get_debt_rate, extra_amount, accrue_view_since, accrue_view, accrue,
  accrue_both,
}
use tapioca_lending_engine.Contracts.BigBang.Accrual.{
  accrue-accrue_view, IsAccrual, relative_rate_lem,
}

smaller_quotient : (n p q : ℕ) → 0 < p → p ≤ q → n / q ≤ n / p
smaller_quotient n p q positive le =
    let fewer = mul-le-mul_left (n / q) le in
    (le-div_iff_mul-le positive).1 (omega (arith, fewer, div-mul-le_self n q))

capped_mono :
    (top a b : ℕ) {r s : ℕ}
    → a ≤ b
    → (if ltb top b then top else b) ≡ r
    → (if ltb top a then top else a) ≡ s
    → s ≤ r
capped_mono top a b le h k = ground arith

-- A greater point of the greatest rate gives no greater rate.
sloped_rate_antitone :
    (p q : ℕ) (b : BigBang) {r s : ℕ}
    → 0 < p
    → p ≤ q
    → sloped_rate p b ≡ ok r
    → sloped_rate q b ≡ ok s
    → s ≤ r
unfolding sloped_rate
sloped_rate_antitone p q b positive le h k =
    let scale = b.total_borrow.elastic * 10 ^ 18 in
    let (n, hn, h1) = >>=-eq-ok (checked 256 scale) _ h in
    let (range, hr, h2) = >>=-eq-ok (minus b.max_debt_rate b.min_debt_rate) _ h1 in
    let (rise, hp, h3) = >>=-eq-ok (checked 256 (range * (n / p))) _ h2 in
    let (debt, hd, h4) = >>=-eq-ok (checked 256 (rise / 10 ^ 18 + b.min_debt_rate)) _ h3 in
    let (n', hn', k1) = >>=-eq-ok (checked 256 scale) _ k in
    let (range', hr', k2) = >>=-eq-ok (minus b.max_debt_rate b.min_debt_rate) _ k1 in
    let (rise', hp', k3) = >>=-eq-ok (checked 256 (range' * (n' / q))) _ k2 in
    let (debt', hd', k4) = >>=-eq-ok (checked 256 (rise' / 10 ^ 18 + b.min_debt_rate)) _ k3 in
    let en : n' ≡ n = ok-injective (sym hn' ∙ hn) in
    let er : range' ≡ range = ok-injective (sym hr' ∙ hr) in
    let less : range * (n / q) ≤ range * (n / p) =
      mul-le-mul_left range (smaller_quotient n p q positive le) in
    let same : rise' ≡ range * (n / q) =
      (checked_lem 256 (range' * (n' / q)) hp').0
      ∙ ap (λ x. range' * (x / q)) en
      ∙ ap (λ x. x * (n / q)) er in
    let d : debt ≡ rise / 10 ^ 18 + b.min_debt_rate =
      (checked_lem 256 (rise / 10 ^ 18 + b.min_debt_rate) hd).0 in
    let d' : debt' ≡ rise' / 10 ^ 18 + b.min_debt_rate =
      (checked_lem 256 (rise' / 10 ^ 18 + b.min_debt_rate) hd').0 in
    let rises : rise' ≤ rise =
      omega (arith, same, less, (checked_lem 256 (range * (n / p)) hp).0) in
    capped_mono b.max_debt_rate debt' debt (omega (arith, rises, d, d')) (ok-injective h4)
      (ok-injective k4)

relative_rate_antitone :
    (d e : ℕ) (b : BigBang) {r s : ℕ}
    → b.min_debt_rate ≤ b.max_debt_rate
    → d ≤ e
    → relative_rate d b ≡ ok r
    → relative_rate e b ≡ ok s
    → s ≤ r
unfolding relative_rate
relative_rate_antitone d e b {r} {s} order le h k =
    let (m, hm, h1) = >>=-eq-ok (checked 256 (d * b.debt_rate_against_eth_market)) _ h in
    let (n, hn, k1) = >>=-eq-ok (checked 256 (e * b.debt_rate_against_eth_market)) _ k in
    let em = (checked_lem 256 (d * b.debt_rate_against_eth_market) hm).0 in
    let en = (checked_lem 256 (e * b.debt_rate_against_eth_market) hn).0 in
    let more = mul-le-mul_right b.debt_rate_against_eth_market le in
    let points : m / 10 ^ 18 ≤ n / 10 ^ 18 = omega (arith, em, en, more) in
    elim (Bool-cases (leb (m / 10 ^ 18) b.total_borrow.elastic)) [
      | inl past ↦
          let top : b.max_debt_rate ≡ r =
            ok-injective (sym (if-true (leb (m / 10 ^ 18) b.total_borrow.elastic) _ _ past) ∙ h1) in
          omega (arith, top, (relative_rate_lem e b order k).1)
      | inr below ↦
          let below' : leb (n / 10 ^ 18) b.total_borrow.elastic ≡ false = ground arith in
          sloped_rate_antitone (m / 10 ^ 18) (n / 10 ^ 18) b (ground arith) points
            (sym (if-false (leb (m / 10 ^ 18) b.total_borrow.elastic) _ _ below) ∙ h1)
            (sym (if-false (leb (n / 10 ^ 18) b.total_borrow.elastic) _ _ below') ∙ k1)
    ]

-- The more debt the main market has, the smaller is the rate.
get_debt_rate_antitone :
    (main_rate d e : ℕ) (b : BigBang) {r s : ℕ}
    → b.min_debt_rate ≤ b.max_debt_rate
    → d ≤ e
    → get_debt_rate main_rate d b ≡ ok r
    → get_debt_rate main_rate e b ≡ ok s
    → s ≤ r
unfolding get_debt_rate
get_debt_rate_antitone main_rate d e b {r} {s} order le h k = elim (Bool-cases b.is_main_market) [
  | inl main ↦
      let e : s ≡ r =
        ok-injective (
          sym k
          ∙ if-true b.is_main_market _ _ main
          ∙ sym (if-true b.is_main_market _ _ main)
          ∙ h) in
      omega (arith, e)
  | inr side ↦
      let h1 = sym (if-false b.is_main_market _ _ side) ∙ h in
      let k1 = sym (if-false b.is_main_market _ _ side) ∙ k in
      elim (Bool-cases (b.total_borrow.elastic == 0)) [
        | inl none ↦
            let e : s ≡ r = ok-injective (
              sym k1
              ∙ if-true (b.total_borrow.elastic == 0) _ _ none
              ∙ sym (if-true (b.total_borrow.elastic == 0) _ _ none)
              ∙ h1) in
            omega (arith, e)
        | inr some ↦
            relative_rate_antitone d e b order le
              (sym (if-false (b.total_borrow.elastic == 0) _ _ some) ∙ h1)
              (sym (if-false (b.total_borrow.elastic == 0) _ _ some) ∙ k1)
      ]
]

extra_amount_mono :
    (a c elapsed : ℕ) (b : BigBang) {x y : ℕ}
    → a ≤ c
    → extra_amount c elapsed b ≡ ok x
    → extra_amount a elapsed b ≡ ok y
    → y ≤ x
unfolding extra_amount
extra_amount_mono a c elapsed b le h k =
    let (n, hn, h1) = >>=-eq-ok (checked 256 (b.total_borrow.elastic * c * elapsed)) _ h in
    let (max, hm, h2) = >>=-eq-ok (minus (2 ^ 128 - 1) b.total_borrow.elastic) _ h1 in
    let (n', hn', k1) = >>=-eq-ok (checked 256 (b.total_borrow.elastic * a * elapsed)) _ k in
    let (max', hm', k2) = >>=-eq-ok (minus (2 ^ 128 - 1) b.total_borrow.elastic) _ k1 in
    let en = (checked_lem 256 (b.total_borrow.elastic * c * elapsed) hn).0 in
    let en' = (checked_lem 256 (b.total_borrow.elastic * a * elapsed) hn').0 in
    let more = mul-le-mul_right elapsed (mul-le-mul_left b.total_borrow.elastic le) in
    let same : max' ≡ max = ok-injective (sym hm' ∙ hm) in
    capped_mono max (n' / 10 ^ 18) (n / 10 ^ 18) (omega (arith, en, en', more)) (ok-injective h2)
      (ap (λ m. if ltb m (n' / 10 ^ 18) then m else n' / 10 ^ 18) (sym same) ∙ ok-injective k2)

-- The more debt the main market has, the less debt the view shows, and never less than there is.
accrue_view_antitone :
    (main_rate d e now : ℕ) (b : BigBang) {v w : Rebase}
    → b.min_debt_rate ≤ b.max_debt_rate
    → d ≤ e
    → accrue_view main_rate d now b ≡ ok v
    → accrue_view main_rate e now b ≡ ok w
    → w.elastic ≤ v.elastic
unfolding accrue_view accrue_view_since
accrue_view_antitone main_rate d e now b {v} {w} order le h k =
    let (t, ht, h1) = >>=-eq-ok (minus now b.last_accrued) _ h in
    let (t', ht', k1) = >>=-eq-ok (minus now b.last_accrued) _ k in
    let same : t' ≡ t = ok-injective (sym ht' ∙ ht) in
    let k1' =
      subst (λ x. (if x == 0 then ok b.total_borrow else accrue_view_since main_rate e x b) ≡ ok w)
        same k1 in
    elim (Bool-cases (t == 0)) [
      | inl none ↦
          let e : w ≡ v =
            ok-injective
              (sym k1' ∙ if-true (t == 0) _ _ none ∙ sym (if-true (t == 0) _ _ none) ∙ h1) in
          omega (arith, ap (λ (x : Rebase). x.elastic) e)
      | inr some ↦
          let h2 = sym (if-false (t == 0) _ _ some) ∙ h1 in
          let k2 = sym (if-false (t == 0) _ _ some) ∙ k1' in
          let (r, hr, h3) = >>=-eq-ok (get_debt_rate main_rate d b) _ h2 in
          let (x, hx, h4) = >>=-eq-ok (extra_amount (r / 31_557_600) t b) _ h3 in
          let (s, hs, k3) = >>=-eq-ok (get_debt_rate main_rate e b) _ k2 in
          let (y, hy, k4) = >>=-eq-ok (extra_amount (s / 31_557_600) t b) _ k3 in
          let rates = get_debt_rate_antitone main_rate d e b order le hr hs in
          let seconds : s / 31_557_600 ≤ r / 31_557_600 = omega (arith, rates) in
          let extras = extra_amount_mono (s / 31_557_600) (r / 31_557_600) t b seconds hx hy in
          omega (
            arith,
            extras,
            ap (λ (z : Rebase). z.elastic) (ok-injective h4),
            ap (λ (z : Rebase). z.elastic) (ok-injective k4),
          )
    ]

accrue_view_grows :
    (main_rate d now : ℕ) (b : BigBang) {v : Rebase}
    → accrue_view main_rate d now b ≡ ok v
    → b.total_borrow.elastic ≤ v.elastic
unfolding accrue_view accrue_view_since
accrue_view_grows main_rate d now b {v} h =
    let (t, ht, h1) = >>=-eq-ok (minus now b.last_accrued) _ h in
    elim (Bool-cases (t == 0)) [
      | inl none ↦
          let e = ok-injective (sym (if-true (t == 0) _ _ none) ∙ h1) in
          omega (arith, ap (λ (x : Rebase). x.elastic) e)
      | inr some ↦
          let h2 = sym (if-false (t == 0) _ _ some) ∙ h1 in
          let (r, _, h3) = >>=-eq-ok (get_debt_rate main_rate d b) _ h2 in
          let (x, _, h4) = >>=-eq-ok (extra_amount (r / 31_557_600) t b) _ h3 in
          omega (arith, ap (λ (z : Rebase). z.elastic) (ok-injective h4))
    ]

-- Where `_accrue` of a market that is not the main one does not revert and both debts were within 128 bits:
-- `_accrueView` of it shows the debt that `_accrue` leaves, if it reads the main market after that has
-- accrued; and of both markets the debt stays within 128 bits and grows by what the open interest debt
-- grows by, and no part or collateral changes.
pub accrue_both-accrue_view :
    (main_rate now : ℕ) (paused : Bool) (main b : BigBang) {r : BigBang × BigBang}
    → main.total_borrow.elastic < 2 ^ 128
    → b.total_borrow.elastic < 2 ^ 128
    → accrue_both main_rate paused now main b ≡ ok r
    → (accrue_view main_rate r.0.total_borrow.elastic now b ≡ ok r.1.total_borrow)
      × IsAccrual main r.0
      × IsAccrual b r.1
unfolding accrue_both
accrue_both-accrue_view main_rate now paused main b {r} small_main small h =
    let own = main.total_borrow.elastic in
    let (_, _, h1) = >>=-eq-ok (fail_if paused "AccruePaused") _ h in
    let (m, hm, h2) = >>=-eq-ok (accrue main_rate own now main) _ h1 in
    let (c, hc, h3) = >>=-eq-ok (accrue main_rate m.total_borrow.elastic now b) _ h2 in
    let (vm, books) = accrue-accrue_view main_rate own now main small_main hm in
    let (vb, books') = accrue-accrue_view main_rate m.total_borrow.elastic now b small hc in
    subst
      (λ (x : BigBang × BigBang).
        (accrue_view main_rate x.0.total_borrow.elastic now b ≡ ok x.1.total_borrow)
        × IsAccrual main x.0
        × IsAccrual b x.1)
      (ok-injective h3) (vb, books, books')

accrue_both_grows :
    (main_rate now : ℕ) (paused : Bool) (main b : BigBang) {r : BigBang × BigBang}
    → main.total_borrow.elastic < 2 ^ 128
    → accrue_both main_rate paused now main b ≡ ok r
    → main.total_borrow.elastic ≤ r.0.total_borrow.elastic
unfolding accrue_both
accrue_both_grows main_rate now paused main b {r} small h =
    let own = main.total_borrow.elastic in
    let (_, _, h1) = >>=-eq-ok (fail_if paused "AccruePaused") _ h in
    let (m, hm, h2) = >>=-eq-ok (accrue main_rate own now main) _ h1 in
    let (c, _, h3) = >>=-eq-ok (accrue main_rate m.total_borrow.elastic now b) _ h2 in
    let (v, _) = accrue-accrue_view main_rate own now main small hm in
    subst (λ (x : BigBang × BigBang). own ≤ x.0.total_borrow.elastic) (ok-injective h3)
      (accrue_view_grows main_rate own now main v)

-- `_accrueView` of a market that is not the main one, read before any accrual, shows no less debt than
-- `_accrue` then leaves, if neither reverts, the smallest rate is no greater than the greatest and both
-- debts were within 128 bits.
pub accrue_view_before :
    (main_rate now : ℕ) (paused : Bool) (main b : BigBang) {r : BigBang × BigBang} {v : Rebase}
    → main.total_borrow.elastic < 2 ^ 128
    → b.total_borrow.elastic < 2 ^ 128
    → b.min_debt_rate ≤ b.max_debt_rate
    → accrue_both main_rate paused now main b ≡ ok r
    → accrue_view main_rate main.total_borrow.elastic now b ≡ ok v
    → r.1.total_borrow.elastic ≤ v.elastic
accrue_view_before main_rate now paused main b {r} {v} small_main small order h shown =
    accrue_view_antitone main_rate main.total_borrow.elastic r.0.total_borrow.elastic now b order
      (accrue_both_grows main_rate now paused main b small_main h) shown
      ((accrue_both-accrue_view main_rate now paused main b small_main small h).0)
