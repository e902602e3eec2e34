-- ===== src/Contracts/BigBang/Booked.antt =====
-- What each operation of a market does to the two sums of contracts/markets/bigBang: the parts of the users,
-- which are the base of the debt, and their collateral.
use tapioca_lending_engine.Base.{
  ℕ, ◌+◌, ◌-◌, ◌*◌, ◌/◌, ◌^◌, ◌==◌, ◌≡◌, ◌≤◌, sym, ap, ◌∙◌, Bool, true, false, List, [], ◌∷◌,
  Outcome, ok, ◌>>=◌, arith, elem, ltb, Bool-cases, inl, inr, if-true, if-false, subst, >>=-eq-ok,
  ok-injective, fail_if, if◌then◌else◌, update,
}
use tapioca_lending_engine.Contracts.Penrose.Debt.{Distinct}
use tapioca_lending_engine.Contracts.BigBang.{
  BigBang, Rebase, checked, minus, checked_lem, minus_lem,
}
use tapioca_lending_engine.Contracts.BigBang.Sums.{
  sum_parts, sum_parts-inside, sum_parts-update, balance,
}
use tapioca_lending_engine.Contracts.BigBang.Lending.{borrow, AddsUp, borrow-IsBorrow, is_solvent}
use tapioca_lending_engine.Contracts.BigBang.Repay.{repay}
use tapioca_lending_engine.Contracts.BigBang.Repaid.{SubsDown, repay-IsRepay}
use tapioca_lending_engine.Contracts.BigBang.Liquidation.{
  Terms, Request, Liquidated, liquidate_user, closed_loop, closed_liquidation, bad_debt_books,
}
use tapioca_lending_engine.Contracts.BigBang.Liquidation.Taken.{liquidate_user-IsLiquidation}
use tapioca_lending_engine.Contracts.BigBang.Entry.{
  Env, add_tokens, share_or, add_collateral, remove_collateral,
}
use tapioca_lending_engine.Contracts.BigBang.Keeps.{IsBooked}

-- A sum after one entry of it fell or grew, with a total that did the same
fallen_sum : (s' f s g t t' x : ℕ) → s' + f ≡ s + g → g + x ≡ f → t' ≡ t - x → s ≡ t → s' ≡ t'
fallen_sum s' f s g t t' x h k l e = omega arith

grown_sum : (s' f s g t t' x : ℕ) → s' + f ≡ s + g → g ≡ f + x → t' ≡ t + x → s ≡ t → s' ≡ t'
grown_sum s' f s g t t' x h k l e = omega arith

-- Each user of the requests is in the list.
abbrev pub AllIn : List ℕ → List Request → Type 0
AllIn users [] = Unit
AllIn users (q ∷ qs) = (elem q.user users ≡ true) × AllIn users qs

module _ (users : List ℕ) (d : Distinct users) where
  pub borrow-IsBooked :
      (add : Rebase → ℕ → Bool → Outcome (Rebase × ℕ)) (from amount fee : ℕ) (b : BigBang)
      {r : BigBang × ℕ × ℕ}
      → AddsUp add
      → elem from users ≡ true
      → borrow add from amount fee b ≡ ok r
      → IsBooked users b
      → IsBooked users r.0
  borrow-IsBooked add from amount fee b {r} law mem h (p, q) =
      let books = borrow-IsBorrow add law from amount fee b h in
      (
        balance (sum_parts users r.0.user_borrow_part) (b.user_borrow_part from)
            (sum_parts users b.user_borrow_part) (r.0.user_borrow_part from) b.total_borrow.base
            r.0.total_borrow.base
            (sum_parts-inside users b.user_borrow_part r.0.user_borrow_part from d mem books.3)
            books.2 p,
        ap (sum_parts users) (books.5.0) ∙ q ∙ sym (books.5.1),
      )

  pub repay-IsBooked :
      (sub : Rebase → ℕ → Bool → Outcome (Rebase × ℕ)) (to_amount : ℕ → ℕ)
      (decimals allowed sender from to : ℕ) (check : Bool) (part : ℕ) (b : BigBang)
      {r : BigBang × ℕ}
      → SubsDown sub
      → elem to users ≡ true
      → repay sub to_amount decimals allowed check sender from to part b ≡ ok r
      → IsBooked users b
      → IsBooked users r.0
  repay-IsBooked sub to_amount decimals allowed sender from to check part b {r} law mem h (p, q) =
      let books =
        (repay-IsRepay sub law to_amount decimals allowed sender from to check part b h).0 in
      (
        balance (sum_parts users r.0.user_borrow_part) (b.user_borrow_part to)
            (sum_parts users b.user_borrow_part) (r.0.user_borrow_part to) b.total_borrow.base
            r.0.total_borrow.base
            (sum_parts-inside users b.user_borrow_part r.0.user_borrow_part to d mem books.3)
            books.1 p,
        ap (sum_parts users) (books.4.0) ∙ q ∙ sym (books.4.1),
      )

  pub add_collateral-IsBooked :
      (env : Env) (to : ℕ) (skim : Bool) (amount share : ℕ) (adds : Bool) (b : BigBang)
      {c : BigBang}
      → elem to users ≡ true
      → add_collateral env to skim amount share adds b ≡ ok c
      → IsBooked users b
      → IsBooked users c
  unfolding add_collateral
  add_collateral-IsBooked env to skim amount share adds b mem h (p, q) =
      let added = share_or env.terms.to_share amount share in
      let (mine, hm, h1) = >>=-eq-ok (checked 256 (b.user_collateral_share to + added)) _ h in
      let (total, ht, h2) = >>=-eq-ok (checked 256 (b.total_collateral_share + added)) _ h1 in
      let (_, _, h3) =
        >>=-eq-ok (if adds then add_tokens env added b.total_collateral_share skim else ok tt) _
          h2 in
      subst (IsBooked users) (ok-injective h3) (
        p,
        grown_sum (sum_parts users (update b.user_collateral_share to mine))
            (b.user_collateral_share to) (sum_parts users b.user_collateral_share) mine
            b.total_collateral_share total added
            (sum_parts-update users d b.user_collateral_share to mine mem)
            ((checked_lem 256 (b.user_collateral_share to + added) hm).0)
            ((checked_lem 256 (b.total_collateral_share + added) ht).0) q,
      )

  less : (n m k : ℕ) → (m ≤ n) × (k ≡ n - m) → k + m ≡ n
  less n m k h = omega arith

  pub remove_collateral-IsBooked :
      (from share : ℕ) (b : BigBang) {c : BigBang}
      → elem from users ≡ true
      → remove_collateral from share b ≡ ok c
      → IsBooked users b
      → IsBooked users c
  unfolding remove_collateral
  remove_collateral-IsBooked from share b mem h (p, q) =
      let (mine, hm, h1) = >>=-eq-ok (minus (b.user_collateral_share from) share) _ h in
      let (total, ht, h2) = >>=-eq-ok (minus b.total_collateral_share share) _ h1 in
      subst (IsBooked users) (ok-injective h2) (
        p,
        fallen_sum (sum_parts users (update b.user_collateral_share from mine))
            (b.user_collateral_share from) (sum_parts users b.user_collateral_share) mine
            b.total_collateral_share total share
            (sum_parts-update users d b.user_collateral_share from mine mem)
            (less (b.user_collateral_share from) share mine
              (minus_lem (b.user_collateral_share from) share hm))
            ((minus_lem b.total_collateral_share share ht).1) q,
      )

  liquidate_user-IsBooked :
      (t : Terms) (rate bonus : ℕ) (r : Request) (b : BigBang) {c : BigBang × Liquidated}
      → elem r.user users ≡ true
      → liquidate_user t rate bonus r b ≡ ok c
      → IsBooked users b
      → IsBooked users c.0
  liquidate_user-IsBooked t rate bonus r b {c} mem h (p, q) =
      let books = liquidate_user-IsLiquidation t rate bonus r b h in
      (
        fallen_sum (sum_parts users c.0.user_borrow_part) (b.user_borrow_part r.user)
            (sum_parts users b.user_borrow_part) (c.0.user_borrow_part r.user) b.total_borrow.base
            c.0.total_borrow.base c.1.part
            (sum_parts-inside users b.user_borrow_part c.0.user_borrow_part r.user d mem books.4)
            books.2
            (let e : c.0.total_borrow.base ≡ b.total_borrow.base - c.1.part =
                omega (arith, books.7) in
              e)
            p,
        fallen_sum (sum_parts users c.0.user_collateral_share) (b.user_collateral_share r.user)
            (sum_parts users b.user_collateral_share) (c.0.user_collateral_share r.user)
            b.total_collateral_share c.0.total_collateral_share c.1.collateral_share
            (sum_parts-inside users b.user_collateral_share c.0.user_collateral_share r.user d mem
              books.5)
            books.3 books.8 q,
      )

  closed_loop-IsBooked :
      (t : Terms) (rate : ℕ) (qs : List Request) (bonuses : List ℕ) (b : BigBang) {r : BigBang × ℕ}
      → AllIn users qs
      → closed_loop t rate qs bonuses b ≡ ok r
      → IsBooked users b
      → IsBooked users r.0
  unfolding closed_loop
  closed_loop-IsBooked t rate [] bonuses b all h k =
      subst (λ (r : BigBang × ℕ). IsBooked users r.0) (ok-injective h) k
  closed_loop-IsBooked t rate (q ∷ qs) [] b all h k = cc
  closed_loop-IsBooked t rate (q ∷ qs) (bonus ∷ bonuses) b all h k =
      let (safe, _, h1) = >>=-eq-ok (is_solvent t.to_amount q.user rate true b) _ h in
      let (c, hc, h2) =
        >>=-eq-ok (if safe then ok b else (liquidate_user t rate bonus q b >>= λ l. ok l.0)) _ h1 in
      let (r, hr, h3) = >>=-eq-ok (closed_loop t rate qs bonuses c) _ h2 in
      let k' : IsBooked users c = elim (Bool-cases safe) [
        | inl yes_safe ↦
            subst (IsBooked users) (ok-injective (sym (if-true safe _ _ yes_safe) ∙ hc)) k
        | inr not_safe ↦
            let (l, hl, e) =
              >>=-eq-ok (liquidate_user t rate bonus q b) _
                (sym (if-false safe _ _ not_safe) ∙ hc) in
            subst (IsBooked users) (ok-injective e)
              (liquidate_user-IsBooked t rate bonus q b all.0 hl k)
      ] in
      subst (λ (r : BigBang × ℕ). IsBooked users r.0) (ok-injective h3)
        (closed_loop-IsBooked t rate qs bonuses c all.1 hr k')

  pub closed_liquidation-IsBooked :
      (t : Terms) (rate : ℕ) (qs : List Request) (bonuses : List ℕ) (b : BigBang) {c : BigBang}
      → AllIn users qs
      → closed_liquidation t rate qs bonuses b ≡ ok c
      → IsBooked users b
      → IsBooked users c
  unfolding closed_liquidation
  closed_liquidation-IsBooked t rate qs bonuses b all h k =
      let (r, hr, h1) = >>=-eq-ok (closed_loop t rate qs bonuses b) _ h in
      let (_, _, h2) = >>=-eq-ok (fail_if (r.1 == 0) "BB: no users found") _ h1 in
      subst (IsBooked users) (ok-injective h2) (closed_loop-IsBooked t rate qs bonuses b all hr k)

  cleared : (s' f s t t' : ℕ) → s' + f ≡ s + 0 → (f ≤ t) × (t' ≡ t - f) → s ≡ t → s' ≡ t'
  cleared s' f s t t' h k e = omega arith

  pub bad_debt_books-IsBooked :
      (t : Terms) (user : ℕ) (b : BigBang) {r : BigBang × ℕ × ℕ}
      → elem user users ≡ true
      → bad_debt_books t user b ≡ ok r
      → IsBooked users b
      → IsBooked users r.0
  unfolding bad_debt_books
  bad_debt_books-IsBooked t user b mem h (p, q) =
      let (debt, _, h1) =
        >>=-eq-ok (t.to_elastic b.total_borrow (b.user_borrow_part user) false) _ h in
      let (bonus, _, h2) =
        >>=-eq-ok (checked 256 (debt * t.settings.liquidation_multiplier)) _ h1 in
      let (with, _, h3) = >>=-eq-ok (checked 256 (debt + bonus / 10 ^ 5)) _ h2 in
      let (product, _, h4) = >>=-eq-ok (checked 256 (with * b.exchange_rate)) _ h3 in
      let (_, _, h5) = >>=-eq-ok (fail_if (b.exchange_rate_precision == 0) "Panic(0x12)") _ h4 in
      let (_, _, h6) =
        >>=-eq-ok
          (fail_if
            (ltb (t.to_share (product / b.exchange_rate_precision)) (b.user_collateral_share user))
            "ForbiddenAction")
          _ h5 in
      let (amount, _, h7) =
        >>=-eq-ok (t.to_elastic b.total_borrow (b.user_borrow_part user) true) _ h6 in
      let (amount_128, _, h8) = >>=-eq-ok (checked 128 amount) _ h7 in
      let (elastic, _, h9) = >>=-eq-ok (minus b.total_borrow.elastic amount_128) _ h8 in
      let (part, hp, h10) = >>=-eq-ok (checked 128 (b.user_borrow_part user)) _ h9 in
      let (base, hb, h11) = >>=-eq-ok (minus b.total_borrow.base part) _ h10 in
      let (total, ht, h12) =
        >>=-eq-ok (minus b.total_collateral_share (b.user_collateral_share user)) _ h11 in
      let base_less =
        subst (λ x. (x ≤ b.total_borrow.base) × (base ≡ b.total_borrow.base - x))
          ((checked_lem 128 (b.user_borrow_part user) hp).0)
          (minus_lem b.total_borrow.base part hb) in
      subst (λ (r : BigBang × ℕ × ℕ). IsBooked users r.0) (ok-injective h12)
        (
          cleared (sum_parts users (update b.user_borrow_part user 0)) (b.user_borrow_part user)
              (sum_parts users b.user_borrow_part) b.total_borrow.base base
              (sum_parts-update users d b.user_borrow_part user 0 mem) base_less p,
          cleared (sum_parts users (update b.user_collateral_share user 0))
              (b.user_collateral_share user) (sum_parts users b.user_collateral_share)
              b.total_collateral_share total
              (sum_parts-update users d b.user_collateral_share user 0 mem)
              (minus_lem b.total_collateral_share (b.user_collateral_share user) ht) q,
        )
