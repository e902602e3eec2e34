-- ===== src/Setup/Stable.antt =====
-- One call of the setup (tasks/deploy/postDepSetup) against the goal of any step.
use tapioca_lending_engine.Base.{ℕ, ◌≡◌, ◌≢◌, true, ok, arith}
use tapioca_lending_engine.Setup.World.{
  World, Outside, Op, set_usdo_token, register_singularity_master_contract,
  register_big_bang_master_contract, add_big_bang, add_singularity, set_big_bang_eth_market,
  set_flashloan_helper, set_minter_status, set_burner_status, register_asset, run_op,
}
use tapioca_lending_engine.Setup.Item.{
  Goal, has_usdo_token, has_singularity_master_contract, has_big_bang_master_contract, has_market,
  has_main_market, has_flashloan_helper, has_minter, has_burner, has_asset, met,
}

-- The values that all steps of one setup agree on
pub record Plan : Type 0 where
  pub usdo : ℕ
  pub main_market : ℕ
  pub helper : ℕ
  pub chain : ℕ

abbrev pub FitsGoal : Plan → Goal → Type 0
FitsGoal e (has_usdo_token p u) = u ≡ e.usdo
FitsGoal e (has_main_market p m) = m ≡ e.main_market
FitsGoal e (has_flashloan_helper u h) = h ≡ e.helper
FitsGoal e (has_minter u c a) = c ≡ e.chain
FitsGoal e (has_burner u c a) = c ≡ e.chain
FitsGoal e _ = Unit {0}

abbrev pub FitsOp : Plan → Op → Type 0
FitsOp e (set_usdo_token a n) = a ≡ e.usdo
FitsOp e (set_big_bang_eth_market m) = m ≡ e.main_market
FitsOp e (set_flashloan_helper h) = h ≡ e.helper
FitsOp e (set_minter_status a b) = b ≡ true
FitsOp e (set_burner_status a b) = b ≡ true
FitsOp e _ = Unit {0}

-- The call of `op` at `t` is the one that reaches the goal.
abbrev pub Makes : Goal → ℕ → Op → Type 0
Makes (has_usdo_token p u) t (set_usdo_token a n) = (t ≡ p) × (a ≡ u)
Makes (has_singularity_master_contract p mc) t (register_singularity_master_contract a n) =
    (t ≡ p) × (a ≡ mc)
Makes (has_big_bang_master_contract p mc) t (register_big_bang_master_contract a n) =
    (t ≡ p) × (a ≡ mc)
Makes (has_market p m) t (add_big_bang mc a) = (t ≡ p) × (a ≡ m)
Makes (has_market p m) t (add_singularity mc a) = (t ≡ p) × (a ≡ m)
Makes (has_main_market p m) t (set_big_bang_eth_market a) = (t ≡ p) × (a ≡ m)
Makes (has_flashloan_helper u h) t (set_flashloan_helper a) = (t ≡ u) × (a ≡ h)
Makes (has_minter u c a) t (set_minter_status b x) = (t ≡ u) × (b ≡ a) × (x ≡ true)
Makes (has_burner u c a) t (set_burner_status b x) = (t ≡ u) × (b ≡ a) × (x ≡ true)
Makes (has_asset yb a s) t (register_asset ty b r i) =
    (t ≡ yb) × (ty ≡ 1) × (b ≡ a) × (r ≡ s) × (i ≡ 0)
Makes _ t _ = ⊥

-- What is assumed of YieldBox: `registerAsset` gives the asset an id, and takes none away.
pub record Registers (outside : Outside) : Type 0 where
  pub registered :
      (ty a s i : ℕ) (ids : ℕ → ℕ → ℕ → ℕ → ℕ) → outside.register_asset ty a s i ids ty a s i ≢ 0
  pub kept :
      (ty a s i : ℕ) (ids : ℕ → ℕ → ℕ → ℕ → ℕ) (ty' a' s' i' : ℕ)
      → ids ty' a' s' i' ≢ 0
      → outside.register_asset ty a s i ids ty' a' s' i' ≢ 0

module _ (outside : Outside) (law : Registers outside) (sender : ℕ) (e : Plan) where
  -- One call keeps every goal that is met.
  pub run_op-met :
      (g : Goal) (t : ℕ) (op : Op) (w : World) {w' : World}
      → FitsGoal e g
      → FitsOp e op
      → run_op outside sender t op w ≡ ok w'
      → met g w ≡ true
      → met g w' ≡ true
  unfolding run_op
  run_op-met (has_usdo_token p u) t (set_usdo_token a n) w fg fo r m = ground arith
  run_op-met (has_asset yb a s) t (register_asset ty a' s' i) w fg fo r m =
      ground (arith, law.kept ty a' s' i (w.ids_at t) 1 a s 0)
  run_op-met _ t _ w fg fo r m = ground arith

  -- The call of a goal reaches it. (A role is set for the chain's own id.)
  pub run_op-Makes :
      (g : Goal) (t : ℕ) (op : Op) (w : World) {w' : World}
      → FitsGoal e g
      → Makes g t op
      → ((u : ℕ) → (w.usdo_at u).chain_id ≡ e.chain)
      → run_op outside sender t op w ≡ ok w'
      → met g w' ≡ true
  unfolding run_op
  run_op-Makes (has_usdo_token p u) t (set_usdo_token a n) w fg mk ch r = ground arith
  run_op-Makes (has_asset yb a s) t (register_asset ty b k i) w fg mk ch r =
      ground (arith, law.registered 1 a s 0 (w.ids_at yb))
  run_op-Makes _ t _ w fg mk ch r = ground (arith, ch t)

  pub run_op-chain :
      (t : ℕ) (op : Op) (w : World) {w' : World} (u : ℕ)
      → run_op outside sender t op w ≡ ok w'
      → (w.usdo_at u).chain_id ≡ e.chain
      → (w'.usdo_at u).chain_id ≡ e.chain
  unfolding run_op
  run_op-chain t (set_usdo_token a n) w u r h = ground arith
  run_op-chain t _ w u r h = ground arith
