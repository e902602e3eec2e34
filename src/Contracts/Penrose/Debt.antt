-- ===== src/Contracts/Penrose/Debt.antt =====
-- `viewTotalDebt` and `mintOpenInterestDebt` of contracts/Penrose.sol, over the `openInterestDebt` of
-- every market. `consumeMintableOpenInterestDebt` returns a market's debt and sets it to 0.
use tapioca_lending_engine.Base.{
  ℕ, ◌+◌, ◌≡◌, ◌⊎◌, inl, refl, Bool, ==_refl, true, false, List, [], ◌∷◌, Outcome, ok, ◌>>◌, arith,
  elem, Mapping, update, if◌then◌else◌,
}
use tapioca_lending_engine.Contracts.Penrose.{Penrose, only_owner}

-- `consumeMintableOpenInterestDebt` of contracts/markets/bigBang/BigBang.sol, on the debts of all
-- markets
abbrev pub consume_mintable_open_interest_debt : ℕ → Mapping ℕ → ℕ × Mapping ℕ
consume_mintable_open_interest_debt m debts = (debts m, update debts m 0)

-- The loop of `viewTotalDebt`
unfoldable pub total_debt : Mapping Bool → Mapping ℕ → List ℕ → ℕ
total_debt registered debts [] = 0
total_debt registered debts (m ∷ ms) =
    (if registered m then debts m else 0) + total_debt registered debts ms

unfoldable pub view_total_debt : Penrose → Mapping ℕ → ℕ
unfolding total_debt
view_total_debt p debts = total_debt p.is_market_registered debts p.all_big_bang_markets

-- The loop of `mintOpenInterestDebt`: the sum and the debts that are left
unfoldable pub consume_all : Mapping Bool → List ℕ → ℕ × Mapping ℕ → ℕ × Mapping ℕ
consume_all registered [] acc = acc
consume_all registered (m ∷ ms) (sum, debts) =
    let (debt, debts') = consume_mintable_open_interest_debt m debts in
    consume_all registered ms
      (if registered m then sum + debt else sum, if registered m then debts' else debts)

-- The amount that is minted and handed on to twTap (nothing is minted for 0), and the debts left.
unfoldable pub mint_open_interest_debt : ℕ → Penrose → Mapping ℕ → Outcome (ℕ × Mapping ℕ)
unfolding consume_all
mint_open_interest_debt sender p debts = do
  only_owner sender p
  ok (consume_all p.is_market_registered p.all_big_bang_markets (0, debts))

-- No address stands twice.
abbrev pub Distinct : List ℕ → Type 0
Distinct [] = Unit {0}
Distinct (m ∷ ms) = (elem m ms ≡ false) × Distinct ms

-- Debts outside the list do not count.
total_debt-update :
    (registered : Mapping Bool) (debts : Mapping ℕ) (a v : ℕ) (ms : List ℕ)
    → elem a ms ≡ false
    → total_debt registered (update debts a v) ms ≡ total_debt registered debts ms
unfolding total_debt
total_debt-update registered debts a v [] h = refl
total_debt-update registered debts a v (m ∷ ms) h =
    ground (arith, total_debt-update registered debts a v ms)

consume_all-total_debt :
    (registered : Mapping Bool) (ms : List ℕ) (sum : ℕ) (debts : Mapping ℕ)
    → Distinct ms
    → (consume_all registered ms (sum, debts)).0 ≡ sum + total_debt registered debts ms
unfolding consume_all total_debt
consume_all-total_debt registered [] sum debts h = omega arith
consume_all-total_debt registered (m ∷ ms) sum debts h = ground (
  arith,
  consume_all-total_debt registered ms (sum + debts m) (update debts m 0) h.1,
  consume_all-total_debt registered ms sum debts h.1,
  total_debt-update registered debts m 0 ms h.0,
)

-- Where no market is listed twice, the amount minted is the total debt that `viewTotalDebt` shows.
pub mint_open_interest_debt-view_total_debt :
    (sender : ℕ) (p : Penrose) (debts : Mapping ℕ) {r : ℕ × Mapping ℕ}
    → Distinct p.all_big_bang_markets
    → mint_open_interest_debt sender p debts ≡ ok r
    → r.0 ≡ view_total_debt p debts
unfolding mint_open_interest_debt view_total_debt
mint_open_interest_debt-view_total_debt sender p debts h e =
    ground (arith, consume_all-total_debt p.is_market_registered p.all_big_bang_markets 0 debts h)

consume_all_clears :
    (registered : Mapping Bool) (ms : List ℕ) (sum : ℕ) (debts : Mapping ℕ) (m : ℕ)
    → (elem m ms ≡ true) × (registered m ≡ true) ⊎ (debts m ≡ 0)
    → (consume_all registered ms (sum, debts)).1 m ≡ 0
unfolding consume_all
consume_all_clears registered [] sum debts m h = ground arith
consume_all_clears registered (x ∷ ms) sum debts m h = ground (
  arith,
  consume_all_clears registered ms (sum + debts x) (update debts x 0) m,
  consume_all_clears registered ms sum debts m,
)

total_debt-zero :
    (registered : Mapping Bool) (debts : Mapping ℕ) (ms : List ℕ)
    → ((m : ℕ) → elem m ms ≡ true → registered m ≡ true → debts m ≡ 0)
    → total_debt registered debts ms ≡ 0
unfolding total_debt
total_debt-zero registered debts [] h = refl
total_debt-zero registered debts (m ∷ ms) h =
    ground
      (arith, h m, ==_refl m, total_debt-zero registered debts ms (λ k e r. h k (ground arith) r))

-- After a mint no registered BigBang market has debt left to mint, also where one is listed twice.
pub mint_open_interest_debt_clears :
    (sender : ℕ) (p : Penrose) (debts : Mapping ℕ) {r : ℕ × Mapping ℕ}
    → mint_open_interest_debt sender p debts ≡ ok r
    → view_total_debt p r.1 ≡ 0
unfolding mint_open_interest_debt view_total_debt
mint_open_interest_debt_clears sender p debts {r} e =
    total_debt-zero p.is_market_registered r.1 p.all_big_bang_markets (λ m l reg. ground (
      arith,
      consume_all_clears p.is_market_registered p.all_big_bang_markets 0 debts m (inl (l, reg)),
    ))
