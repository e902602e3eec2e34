-- ===== src/Contracts/Usdo/Laws.antt =====
-- The roles and the fees of contracts/usdo/Usdo.sol: what a setting changes for `mint` and `burn`, and
-- what `extractFees` pays out.
use tapioca_lending_engine.Base.{
  ℕ, ◌+◌, ◌==◌, ◌≡◌, ◌≢◌, ◌≤◌, Bool, false, not, ok, fail, fail_if, arith, if◌then◌else◌, ==_iff,
  ==_refl, refl, ap, subst, ◌∙◌, >>=-eq-ok, ok-injective,
}
use tapioca_lending_engine.Contracts.Usdo.{
  Usdo, set_flashloan_helper, set_minter_status, set_burner_status, set_pause, may_mint, may_burn,
  extract_fees, add_flashloan_fee,
}

-- After `setMinterStatus` of an address, on a token that is not paused, the address may mint if and only
-- if the status is true, and every other address may mint or burn as before.
pub set_minter_status-may_mint :
    (s a : ℕ) (b : Bool) (u : Usdo) {u' : Usdo} (c : ℕ)
    → u.paused ≡ false
    → set_minter_status s a b u ≡ ok u'
    → (may_mint c u'
        ≡ (if c == a then (if b then ok tt else fail "Usdo_NotAuthorized") else may_mint c u))
      × (may_burn c u' ≡ may_burn c u)
unfolding set_minter_status may_mint may_burn
set_minter_status-may_mint s a b u c p h = ground (arith, ==_refl u.chain_id)

-- The same of `setBurnerStatus` and burning.
pub set_burner_status-may_burn :
    (s a : ℕ) (b : Bool) (u : Usdo) {u' : Usdo} (c : ℕ)
    → u.paused ≡ false
    → set_burner_status s a b u ≡ ok u'
    → (may_burn c u'
        ≡ (if c == a then (if b then ok tt else fail "Usdo_NotAuthorized") else may_burn c u))
      × (may_mint c u' ≡ may_mint c u)
unfolding set_burner_status may_mint may_burn
set_burner_status-may_burn s a b u c p h = ground (arith, ==_refl u.chain_id)

-- What `extractFees` pays out is neither more than the fees nor more than the balance, it is one of the
-- two, and the fees that are left are the rest.
pub extract_fees_lem :
    (s balance : ℕ) (u : Usdo) {r : Usdo × ℕ}
    → extract_fees s balance u ≡ ok r
    → (r.1 ≤ balance) × (r.1 + r.0.fees ≡ u.fees) × (u.fees ≤ balance → r.0.fees ≡ 0)
unfolding extract_fees
extract_fees_lem s balance u h = ground arith

-- A call that changes the state and does not revert, by a sender
pub data UsdoCall (s : ℕ) (u u' : Usdo) : Type 0 where
  by_set_flashloan_helper : (a : ℕ) → set_flashloan_helper s a u ≡ ok u' → UsdoCall s u u'
  by_set_minter_status : (a : ℕ) (b : Bool) → set_minter_status s a b u ≡ ok u' → UsdoCall s u u'
  by_set_burner_status : (a : ℕ) (b : Bool) → set_burner_status s a b u ≡ ok u' → UsdoCall s u u'
  by_set_pause : (b : Bool) → set_pause s b u ≡ ok u' → UsdoCall s u u'
  by_add_flashloan_fee : (fee : ℕ) → add_flashloan_fee s fee u ≡ ok u' → UsdoCall s u u'
  by_extract_fees :
      (balance amount : ℕ) → extract_fees s balance u ≡ ok (u', amount) → UsdoCall s u u'

-- Calls in a row, none of them by the owner
pub data StrangerCalls (u : Usdo) : Usdo → Type 0 where
  none_yet : StrangerCalls u u
  then_call :
      {v w : Usdo} (s : ℕ) → StrangerCalls u v → s ≢ v.owner → UsdoCall s v w → StrangerCalls u w

-- All but the fees is as before, and these are no less.
abbrev pub OnlyFees : Usdo → Usdo → Type 0
OnlyFees u v = (v ≡ record u { fees = v.fees }) × (u.fees ≤ v.fees)

UsdoCall-OnlyFees : (s : ℕ) {u v : Usdo} → s ≢ u.owner → UsdoCall s u v → OnlyFees u v
unfolding set_flashloan_helper set_minter_status set_burner_status set_pause add_flashloan_fee
    extract_fees
UsdoCall-OnlyFees s {u} h (by_set_flashloan_helper a e) = absurd (ground (arith, ==_iff s u.owner))
UsdoCall-OnlyFees s {u} h (by_set_minter_status a b e) = absurd (ground (arith, ==_iff s u.owner))
UsdoCall-OnlyFees s {u} h (by_set_burner_status a b e) = absurd (ground (arith, ==_iff s u.owner))
UsdoCall-OnlyFees s {u} h (by_set_pause b e) = absurd (ground (arith, ==_iff s u.owner))
UsdoCall-OnlyFees s {u} {v} h (by_add_flashloan_fee fee e) =
    let (_, _, e1) =
      >>=-eq-ok (fail_if (not (s == u.flash_loan_helper)) "Usdo_NotAuthorized") _ e in
    subst (OnlyFees u) (ok-injective e1) (refl, omega arith)
UsdoCall-OnlyFees s {u} h (by_extract_fees balance amount e) =
    absurd (ground (arith, ==_iff s u.owner))

StrangerCalls-OnlyFees : {u v : Usdo} → StrangerCalls u v → OnlyFees u v
StrangerCalls-OnlyFees none_yet = (refl, omega arith)
StrangerCalls-OnlyFees {u} {v} (then_call s before h call) =
    let (e, le) = StrangerCalls-OnlyFees before in
    let (e', le') = UsdoCall-OnlyFees s h call in
    (e' ∙ ap (λ (x : Usdo). record x { fees = v.fees }) e, omega (arith, le, le'))

-- Whatever calls are made in a row without the owner's, each address may mint or burn as before, the
-- owner, the helper and the pause are as before, and the fees have not fallen.
pub StrangerCalls-may_mint :
    {u v : Usdo} (a : ℕ)
    → StrangerCalls u v
    → (may_mint a v ≡ may_mint a u)
      × (may_burn a v ≡ may_burn a u)
      × (v.owner ≡ u.owner)
      × (v.flash_loan_helper ≡ u.flash_loan_helper)
      × (v.paused ≡ u.paused)
      × (u.fees ≤ v.fees)
unfolding may_mint may_burn
StrangerCalls-may_mint a calls =
    let (e, le) = StrangerCalls-OnlyFees calls in
    (
      ap (may_mint a) e,
      ap (may_burn a) e,
      ap (λ (x : Usdo). x.owner) e,
      ap (λ (x : Usdo). x.flash_loan_helper) e,
      ap (λ (x : Usdo). x.paused) e,
      le,
    )
