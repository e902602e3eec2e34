-- ===== src/Contracts/Origins/Backed.antt =====
-- The debt of an Origins market against the USDO that it mints and burns, and its books, over sequences of
-- the calls of contracts/markets/origins/Origins.sol.
use tapioca_lending_engine.Base.{
  ℕ, ◌+◌, ◌==◌, ◌≡◌, refl, sym, ap, ◌∙◌, subst, arith, Bool, true, false, not, Option, some, none,
  List, [], ◌∷◌, Outcome, ok, fail_if, elem, >>=-eq-ok, ok-injective, Bool-cases, inl, inr, if-true,
  if-false, if◌then◌else◌, Outcome-cases,
}
use tapioca_lending_engine.Contracts.Usdo.{Usdo, may_mint, may_burn}
use tapioca_lending_engine.Contracts.Penrose.Debt.{Distinct}
use tapioca_lending_engine.Contracts.BigBang.{BigBang, Rebase, checked, minus}
use tapioca_lending_engine.Contracts.BigBang.Lending.{borrow, AddsUp, borrow-IsBorrow, is_solvent}
use tapioca_lending_engine.Contracts.BigBang.Repay.{repay}
use tapioca_lending_engine.Contracts.BigBang.Repaid.{SubsDown, repay-IsRepay}
use tapioca_lending_engine.Contracts.BigBang.Entry.{
  Env, update_exchange_rate, share_or, add_collateral, remove_collateral, add_tokens,
}
use tapioca_lending_engine.Contracts.BigBang.Keeps.{IsBooked, kept, update_exchange_rate-KeepsBooks}
use tapioca_lending_engine.Contracts.BigBang.Booked.{
  borrow-IsBooked, repay-IsBooked, add_collateral-IsBooked, remove_collateral-IsBooked,
}
use tapioca_lending_engine.Contracts.Origins.Pause
use tapioca_lending_engine.Contracts.Origins.{
  Origins, Request, add_collateral_of, remove_collateral_of, borrow_of, repay_of,
  update_allowed_participants, update_pause, update_pause_all, Effect, not_paused, only_allowed,
  solvent_here, borrow_here, repay_here, call_origins, effect_of, Sent, run_origins,
}

-- The books add up, and the debt has grown from what it was by what was minted and fallen by what was
-- burned.
abbrev pub IsBacked : List ℕ → BigBang → BigBang → ℕ → ℕ → Type 0
IsBacked users b c minted burned =
    IsBooked users c × (c.total_borrow.elastic + burned ≡ b.total_borrow.elastic + minted)

same_debt :
    (b c : BigBang)
    → c.total_borrow ≡ b.total_borrow
    → c.total_borrow.elastic + 0 ≡ b.total_borrow.elastic + 0
same_debt b c e = ap (λ (t : Rebase). t.elastic + 0) e

pub update_exchange_rate-same_debt :
    (oracle : Option (Bool × ℕ)) (now : ℕ) (b : BigBang) {c : BigBang}
    → update_exchange_rate oracle now b ≡ ok c
    → c.total_borrow ≡ b.total_borrow
unfolding update_exchange_rate
update_exchange_rate-same_debt none now b h = cc
update_exchange_rate-same_debt (some (updated, rate)) now b h =
    let (_, _, h1) = >>=-eq-ok (fail_if (not updated) "Market: rate too old") _ h in
    let (_, _, h2) = >>=-eq-ok (fail_if (rate == 0) "Market: invalid rate") _ h1 in
    ap (λ (x : BigBang). x.total_borrow) (sym (ok-injective h2))

add_collateral-same_debt :
    (env : Env) (to : ℕ) (skim : Bool) (amount share : ℕ) (adds : Bool) (b : BigBang) {c : BigBang}
    → add_collateral env to skim amount share adds b ≡ ok c
    → c.total_borrow ≡ b.total_borrow
unfolding add_collateral
add_collateral-same_debt env to skim amount share adds b h =
    let added = share_or env.terms.to_share amount share in
    let (_, _, h1) = >>=-eq-ok (checked 256 (b.user_collateral_share to + added)) _ h in
    let (_, _, h2) = >>=-eq-ok (checked 256 (b.total_collateral_share + added)) _ h1 in
    let (_, _, h3) =
      >>=-eq-ok (if adds then add_tokens env added b.total_collateral_share skim else ok tt) _ h2 in
    ap (λ (x : BigBang). x.total_borrow) (sym (ok-injective h3))

remove_collateral-same_debt :
    (from share : ℕ) (b : BigBang) {c : BigBang}
    → remove_collateral from share b ≡ ok c
    → c.total_borrow ≡ b.total_borrow
unfolding remove_collateral
remove_collateral-same_debt from share b h =
    let (_, _, h1) = >>=-eq-ok (minus (b.user_collateral_share from) share) _ h in
    let (_, _, h2) = >>=-eq-ok (minus b.total_collateral_share share) _ h1 in
    ap (λ (x : BigBang). x.total_borrow) (sym (ok-injective h2))

solvent_here-IsBacked :
    (users : List ℕ) (env : Env) (body : BigBang → Outcome BigBang) (minted : ℕ) (b : BigBang)
    {c : BigBang}
    → ((x y : BigBang) → body x ≡ ok y → IsBooked users x → IsBacked users x y minted 0)
    → solvent_here env body b ≡ ok c
    → IsBooked users b
    → IsBacked users b c minted 0
unfolding solvent_here
solvent_here-IsBacked users env body minted b {c} keeps h k =
    let (b1, e1, h1) = >>=-eq-ok (update_exchange_rate env.oracle env.now b) _ h in
    let (b2, e2, h2) = >>=-eq-ok (body b1) _ h1 in
    let (safe, _, h3) =
      >>=-eq-ok (is_solvent env.terms.to_amount env.sender b2.exchange_rate false b2) _ h2 in
    let (_, _, h4) = >>=-eq-ok (fail_if (not safe) "Market: insolvent") _ h3 in
    let k1 = kept users b b1 (update_exchange_rate-KeepsBooks env.oracle env.now b e1) k in
    let same =
      ap (λ (t : Rebase). t.elastic + minted)
        (update_exchange_rate-same_debt env.oracle env.now b e1) in
    let (booked, debt) = keeps b1 b2 e2 k1 in
    subst (λ x. IsBacked users b x minted 0) (ok-injective h4) (booked, debt ∙ same)

-- Each sender is in the list.
abbrev pub SendersIn : List ℕ → List Sent → Type 0
SendersIn users [] = Unit {0}
SendersIn users (s ∷ ss) = (elem s.env.sender users ≡ true) × SendersIn users ss

nothing_minted : (users : List ℕ) (b : BigBang) → IsBooked users b → IsBacked users b b 0 0
nothing_minted users b k = (k, refl)

module _ (users : List ℕ) (d : Distinct users) (add sub : Rebase → ℕ → Bool → Outcome (Rebase × ℕ))
    (adds : AddsUp add) (subs : SubsDown sub) where
  borrow_here-IsBacked :
      (usdo : Usdo) (env : Env) (amount : ℕ) (o : Origins) (b : BigBang) {c : BigBang}
      → elem env.sender users ≡ true
      → borrow_here add sub usdo env amount o b ≡ ok c
      → IsBooked users b
      → IsBacked users b c amount 0
  unfolding borrow_here
  borrow_here-IsBacked usdo env amount o b {c} mem h k =
      let (_, _, h1) = >>=-eq-ok (only_allowed env.sender o) _ h in
      elim (Bool-cases (amount == 0)) [
        | inl none_asked ↦
            let e : amount ≡ 0 = ground arith in
            subst (λ x. IsBacked users b x amount 0)
              (ok-injective (sym (if-true (amount == 0) _ _ none_asked) ∙ h1))
              (k, ap (λ n. b.total_borrow.elastic + n) (sym e))
        | inr asked ↦
            let (r, e, h2) =
              >>=-eq-ok (borrow add env.sender amount 0 b) _
                (sym (if-false (amount == 0) _ _ asked) ∙ h1) in
            let (_, _, h3) = >>=-eq-ok (may_mint env.self usdo) _ h2 in
            let (_, _, h4) = >>=-eq-ok (fail_if env.transfer_fails "deposit") _ h3 in
            let grown = (borrow-IsBorrow add adds env.sender amount 0 b e).1 in
            subst (λ x. IsBacked users b x amount 0) (ok-injective h4)
              (borrow-IsBooked users d add env.sender amount 0 b adds mem e k, omega (arith, grown))
      ]

  repay_here-IsBacked :
      (usdo : Usdo) (env : Env) (part : ℕ) (o : Origins) {e : Effect}
      → elem env.sender users ≡ true
      → repay_here add sub usdo env part o ≡ ok e
      → IsBooked users o.core
      → IsBacked users o.core e.after.core e.minted e.burned
  unfolding repay_here
  repay_here-IsBacked usdo env part o {e} mem h k =
      let me = env.sender in
      let to_amount = env.terms.to_amount in
      let (_, _, h1) = >>=-eq-ok (not_paused Pause.repay o) _ h in
      let (_, _, h2) = >>=-eq-ok (only_allowed env.sender o) _ h1 in
      let (b, eb, h3) = >>=-eq-ok (update_exchange_rate env.oracle env.now o.core) _ h2 in
      let (r, er, h4) = >>=-eq-ok (repay sub to_amount env.decimals 0 false me me me part b) _ h3 in
      let (_, _, h5) = >>=-eq-ok (fail_if env.transfer_fails "withdraw") _ h4 in
      let (_, _, h6) = >>=-eq-ok (may_burn env.self usdo) _ h5 in
      let k1 =
        kept users o.core b (update_exchange_rate-KeepsBooks env.oracle env.now o.core eb) k in
      let fallen = (repay-IsRepay sub subs to_amount env.decimals 0 me me me false part b er).0.0 in
      let same =
        ap (λ (t : Rebase). t.elastic)
          (update_exchange_rate-same_debt env.oracle env.now o.core eb) in
      subst (λ (x : Effect). IsBacked users o.core x.after.core x.minted x.burned) (ok-injective h6)
        (
          repay-IsBooked users d sub to_amount env.decimals 0 me me me false part b subs mem er k1,
          omega (arith, fallen, same),
        )

  call_origins-IsBacked :
      (usdo : Usdo) (env : Env) (q : Request) (o : Origins) {e : Effect}
      → elem env.sender users ≡ true
      → call_origins add sub usdo env q o ≡ ok e
      → IsBooked users o.core
      → IsBacked users o.core e.after.core e.minted e.burned
  unfolding call_origins
  call_origins-IsBacked usdo env (add_collateral_of amount share) o {e} mem h k =
      let (_, _, h1) = >>=-eq-ok (not_paused Pause.add_collateral o) _ h in
      let (_, _, h2) = >>=-eq-ok (only_allowed env.sender o) _ h1 in
      let added = share_or env.terms.to_share amount share in
      let (b, eb, h3) =
        >>=-eq-ok (add_collateral env env.sender false amount added true o.core) _ h2 in
      subst (λ (x : Effect). IsBacked users o.core x.after.core x.minted x.burned) (ok-injective h3)
        (
          add_collateral-IsBooked users d env env.sender false amount added true o.core mem eb k,
          same_debt o.core b
              (add_collateral-same_debt env env.sender false amount added true o.core eb),
        )
  call_origins-IsBacked usdo env (remove_collateral_of share) o {e} mem h k =
      let (_, _, h1) = >>=-eq-ok (not_paused Pause.remove_collateral o) _ h in
      let (b, eb, h2) = >>=-eq-ok (solvent_here env _ o.core) _ h1 in
      let (_, _, h3) = >>=-eq-ok (fail_if env.transfer_fails "transfer") _ h2 in
      subst (λ (x : Effect). IsBacked users o.core x.after.core x.minted x.burned) (ok-injective h3)
        (solvent_here-IsBacked users env _ 0 o.core
          (λ x y hy kx.
            let (_, _, g) = >>=-eq-ok (only_allowed env.sender o) _ hy in
            (
              remove_collateral-IsBooked users d env.sender share x mem g kx,
              same_debt x y (remove_collateral-same_debt env.sender share x g),
            ))
          eb k)
  call_origins-IsBacked usdo env (borrow_of amount) o {e} mem h k =
      let (_, _, h1) = >>=-eq-ok (not_paused Pause.borrow o) _ h in
      let body = borrow_here add sub usdo env amount o in
      let (b, eb, h2) = >>=-eq-ok (solvent_here env body o.core) _ h1 in
      subst (λ (x : Effect). IsBacked users o.core x.after.core x.minted x.burned) (ok-injective h2)
        (solvent_here-IsBacked users env body amount o.core
          (λ x y hy kx. borrow_here-IsBacked usdo env amount o x mem hy kx) eb k)
  call_origins-IsBacked usdo env (repay_of part) o mem h k =
      repay_here-IsBacked usdo env part o mem h k
  call_origins-IsBacked usdo env (update_allowed_participants participant status) o mem h k =
      let (_, _, h1) =
        >>=-eq-ok (fail_if (not (env.sender == o.owner)) "Ownable: caller is not the owner") _ h in
      subst (λ (x : Effect). IsBacked users o.core x.after.core x.minted x.burned) (ok-injective h1)
        (nothing_minted users o.core k)
  call_origins-IsBacked usdo env (update_pause ty status) o mem h k =
      let (_, _, h1) =
        >>=-eq-ok (fail_if (not (env.sender == o.conservator)) "Market: unauthorized") _ h in
      let (_, _, h2) =
        >>=-eq-ok
          (fail_if (if status then o.pause_options ty else not (o.pause_options ty))
            "Market: same state")
          _ h1 in
      subst (λ (x : Effect). IsBacked users o.core x.after.core x.minted x.burned) (ok-injective h2)
        (nothing_minted users o.core k)
  call_origins-IsBacked usdo env (update_pause_all status) o mem h k =
      let (_, _, h1) =
        >>=-eq-ok (fail_if (not (env.sender == o.conservator)) "Market: unauthorized") _ h in
      subst (λ (x : Effect). IsBacked users o.core x.after.core x.minted x.burned) (ok-injective h1)
        (nothing_minted users o.core k)

  effect_of-IsBacked :
      (s : Sent) (o : Origins)
      → elem s.env.sender users ≡ true
      → IsBooked users o.core
      → let e = effect_of o (call_origins add sub s.usdo s.env s.request o) in
        IsBacked users o.core e.after.core e.minted e.burned
  effect_of-IsBacked s o mem k =
      elim (Outcome-cases (call_origins add sub s.usdo s.env s.request o)) [
        | inl (e, h) ↦
            subst
              (λ m. let e = effect_of o m in IsBacked users o.core e.after.core e.minted e.burned)
              (sym h) (call_origins-IsBacked s.usdo s.env s.request o mem h k)
        | inr (message, h) ↦
            subst
              (λ m. let e = effect_of o m in IsBacked users o.core e.after.core e.minted e.burned)
              (sym h) (nothing_minted users o.core k)
      ]

  joined : (x y z m n p q : ℕ) → y + p ≡ x + m → z + q ≡ y + n → z + (p + q) ≡ x + (m + n)
  joined x y z m n p q h k = omega arith

  -- Whatever calls are made in a row, each of them run or reverted, by users that the list names once
  -- each and with libraries that add up: the parts of the users add up to the base of the debt and their
  -- collateral to its sum, if they did before, and the debt is what it was and the USDO minted, less the
  -- USDO burned.
  pub run_origins-IsBacked :
      (ss : List Sent) (o : Origins)
      → SendersIn users ss
      → IsBooked users o.core
      → let e = run_origins add sub ss o in IsBacked users o.core e.after.core e.minted e.burned
  unfolding run_origins
  run_origins-IsBacked [] o all k = nothing_minted users o.core k
  run_origins-IsBacked (s ∷ ss) o all k =
      let first = effect_of o (call_origins add sub s.usdo s.env s.request o) in
      let rest = run_origins add sub ss first.after in
      let (k1, e1) = effect_of-IsBacked s o all.0 k in
      let (k2, e2) = run_origins-IsBacked ss first.after all.1 k1 in
      (
        k2,
        joined o.core.total_borrow.elastic first.after.core.total_borrow.elastic
            rest.after.core.total_borrow.elastic first.minted rest.minted first.burned rest.burned
            e1 e2,
      )
