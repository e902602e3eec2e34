-- ===== src/Contracts/BigBang/Entry/Safe.antt =====
-- Whoever has borrowed, or has taken collateral out, cannot be liquidated at the rate of that moment.
use tapioca_lending_engine.Base.{
  ℕ, ◌+◌, ◌==◌, ◌≤◌, ◌≡◌, ◌≢◌, sym, ap, ◌∙◌, Bool, true, false, not, List, [], ◌∷◌, Outcome, ok,
  ◌>>=◌, arith, fail_if, >>=-eq-ok, ok-injective, subst, if◌then◌else◌,
}
use tapioca_lending_engine.Contracts.BigBang.{BigBang, Rebase}
use tapioca_lending_engine.Contracts.BigBang.Rate.{accrue}
use tapioca_lending_engine.Contracts.BigBang.Lending.{is_solvent, is_solvent-liquidation}
use tapioca_lending_engine.Contracts.BigBang.Liquidation.{
  Terms, Request, liquidate_user, closed_loop, closed_liquidation,
}
use tapioca_lending_engine.Contracts.BigBang.Entry.{
  Env, update_exchange_rate, solvent, remove_collateral_call, borrow_body, borrow_call,
}

-- Each user of the requests is solvent by the collateralization rate.
abbrev pub AllSolvent : Terms → ℕ → BigBang → List Request → Type 0
AllSolvent t rate b [] = Unit
AllSolvent t rate b (q ∷ qs) =
    (is_solvent t.to_amount q.user rate false b ≡ ok true) × AllSolvent t rate b qs

nobody :
    (t : Terms) (rate : ℕ) (qs : List Request) (bonuses : List ℕ) (b : BigBang) {r : BigBang × ℕ}
    → b.collateralization_rate ≤ b.liquidation_collateralization_rate
    → AllSolvent t rate b qs
    → closed_loop t rate qs bonuses b ≡ ok r
    → r.1 ≡ 0
unfolding closed_loop
nobody t rate [] bonuses b le all h = ap (λ (r : BigBang × ℕ). r.1) (sym (ok-injective h))
nobody t rate (q ∷ qs) [] b le all h = cc
nobody t rate (q ∷ qs) (bonus ∷ bonuses) b {r} le all h =
    let (safe, hs, h1) = >>=-eq-ok (is_solvent t.to_amount q.user rate true b) _ h in
    let is_safe : safe ≡ true = is_solvent-liquidation t.to_amount q.user rate b le all.0 hs in
    let h2 : (closed_loop t rate qs bonuses b >>= λ d. ok (d.0, d.1)) ≡ ok r =
      subst
        (λ x.
          ((if x then ok b else (liquidate_user t rate bonus q b >>= λ l. ok l.0)) >>= λ c.
          closed_loop t rate qs bonuses c >>= λ d. ok (d.0, if x then d.1 else d.1 + 1))
          ≡ ok r)
        is_safe h1 in
    let (d, hd, h3) = >>=-eq-ok (closed_loop t rate qs bonuses b) _ h2 in
    ap (λ (x : BigBang × ℕ). x.1) (sym (ok-injective h3)) ∙ nobody t rate qs bonuses b le all.1 hd

-- Where every user is solvent by the collateralization rate, and that is no greater than the liquidation
-- rate, a closed liquidation reverts.
closed_liquidation-solvent :
    (t : Terms) (rate : ℕ) (qs : List Request) (bonuses : List ℕ) (b : BigBang) {c : BigBang}
    → b.collateralization_rate ≤ b.liquidation_collateralization_rate
    → AllSolvent t rate b qs
    → closed_liquidation t rate qs bonuses b ≢ ok c
unfolding closed_liquidation
closed_liquidation-solvent t rate qs bonuses b le all h =
    let (r, hr, h1) = >>=-eq-ok (closed_loop t rate qs bonuses b) _ h in
    let (_, counted, _) = >>=-eq-ok (fail_if (r.1 == 0) "BB: no users found") _ h1 in
    let none = nobody t rate qs bonuses b le all hr in
    let refused : fail_if (0 == 0) "BB: no users found" ≡ ok _ =
      subst (λ n. fail_if (n == 0) "BB: no users found" ≡ ok _) none counted in
    ground arith

solvent-is_solvent :
    (env : Env) (from : ℕ) (body : BigBang → Outcome BigBang) (b : BigBang) {c : BigBang}
    → solvent env from body b ≡ ok c
    → is_solvent env.terms.to_amount from c.exchange_rate false c ≡ ok true
unfolding solvent
solvent-is_solvent env from body b h =
    let (b1, _, h1) = >>=-eq-ok (update_exchange_rate env.oracle env.now b) _ h in
    let (b2, _, h2) = >>=-eq-ok (accrue env.main_rate env.eth_debt env.now b1) _ h1 in
    let (b3, _, h3) = >>=-eq-ok (body b2) _ h2 in
    let (safe, hs, h4) =
      >>=-eq-ok (is_solvent env.terms.to_amount from b3.exchange_rate false b3) _ h3 in
    let (_, hn, h5) = >>=-eq-ok (fail_if (not safe) "Market: insolvent") _ h4 in
    let is_safe : safe ≡ true = ground arith in
    subst (λ c. is_solvent env.terms.to_amount from c.exchange_rate false c ≡ ok true)
      (ok-injective h5) (hs ∙ ap ok is_safe)

-- A call that makes the position of a user worse: a borrow, or collateral that is taken out
pub data Guarded (env : Env) (from : ℕ) (b c : BigBang) : Type 0 where
  by_borrow :
      (add : Rebase → ℕ → Bool → Outcome (Rebase × ℕ)) (updated : Bool) (rate to amount : ℕ)
      → borrow_call add updated rate env from to amount b ≡ ok c
      → Guarded env from b c
  by_removal :
      (to share : ℕ) → remove_collateral_call env from to share b ≡ ok c → Guarded env from b c

Guarded-is_solvent :
    (env : Env) (from : ℕ) {b c : BigBang}
    → Guarded env from b c
    → is_solvent env.terms.to_amount from c.exchange_rate false c ≡ ok true
unfolding borrow_call remove_collateral_call
Guarded-is_solvent env from {b} {c} (by_borrow add updated rate to amount h) =
    let (_, _, h1) = >>=-eq-ok (fail_if env.paused "Market: paused") _ h in
    let (_, _, h2) = >>=-eq-ok (fail_if (to == env.self) "Market: cannot execute on itself") _ h1 in
    solvent-is_solvent env from (borrow_body add updated rate env from amount) b h2
Guarded-is_solvent env from {b} {c} (by_removal to share h) =
    let (_, _, h1) = >>=-eq-ok (fail_if env.paused "Market: paused") _ h in
    solvent-is_solvent env from _ b h1

-- all requests of a list name one user
abbrev pub AllOf : ℕ → List Request → Type 0
AllOf user [] = Unit
AllOf user (q ∷ qs) = (q.user ≡ user) × AllOf user qs

all_solvent :
    (t : Terms) (rate user : ℕ) (b : BigBang) (qs : List Request)
    → is_solvent t.to_amount user rate false b ≡ ok true
    → AllOf user qs
    → AllSolvent t rate b qs
all_solvent t rate user b [] h all = tt
all_solvent t rate user b (q ∷ qs) h all = (
  subst (λ u. is_solvent t.to_amount u rate false b ≡ ok true) (sym all.0) h,
  all_solvent t rate user b qs h all.1,
)

-- After a borrow or a removal of collateral that does not revert, a closed liquidation of that user at
-- the rate of exchange that is then stored reverts, however often it names the user, if the
-- collateralization rate is no greater than the liquidation rate.
pub Guarded-not_liquidated :
    (env : Env) (from : ℕ) {b c : BigBang}
    → Guarded env from b c
    → c.collateralization_rate ≤ c.liquidation_collateralization_rate
    → (qs : List Request) (bonuses : List ℕ) → AllOf from qs
    → {d : BigBang} → closed_liquidation env.terms c.exchange_rate qs bonuses c ≢ ok d
Guarded-not_liquidated env from {b} {c} g le qs bonuses all =
    closed_liquidation-solvent env.terms c.exchange_rate qs bonuses c le
      (all_solvent env.terms c.exchange_rate from c qs (Guarded-is_solvent env from g) all)
