-- ===== src/Setup/Converge.antt =====
-- The calls of a list of setup steps (tasks/deploy/postDepSetup), run one after the other, against the goals
-- of the steps.
use tapioca_lending_engine.Base.{
  ℕ, ◌≡◌, refl, true, none, some, List, [], ◌∷◌, ◌++◌, ok, >>=-eq-ok, Bool-cases, inl, inr, Option,
  subst, ok-injective,
}
use tapioca_lending_engine.Sdk.{Call}
use tapioca_lending_engine.Setup.World.{
  World, Outside, Op, decode, run_decoded, run_call, run_calls,
}
use tapioca_lending_engine.Setup.Item.{Goal, met, Item, pending}
use tapioca_lending_engine.Setup.Stable.{
  Plan, FitsGoal, FitsOp, Makes, Registers, run_op-met, run_op-Makes, run_op-chain,
}

-- The call is one of the setup's, with the plan's values.
abbrev pub FitsDecoded : Plan → Option Op → Type 0
FitsDecoded e none = ⊥
FitsDecoded e (some op) = FitsOp e op

abbrev pub FitsCall : Plan → Call → Type 0
FitsCall e c = FitsDecoded e (decode c.call_data)

-- The call is the one of the goal.
abbrev pub MakesDecoded : Goal → ℕ → Option Op → Type 0
MakesDecoded g t none = ⊥
MakesDecoded g t (some op) = Makes g t op

abbrev pub MakesCall : Goal → Call → Type 0
MakesCall g c = MakesDecoded g c.target (decode c.call_data)

abbrev pub FitCalls : Plan → List Call → Type 0
FitCalls e [] = Unit {0}
FitCalls e (c ∷ cs) = FitsCall e c × FitCalls e cs

-- The first call is the one that the step reads for.
abbrev pub Reaches : Goal → List Call → Type 0
Reaches g [] = ⊥
Reaches g (c ∷ cs) = MakesCall g c

abbrev pub Fits : Plan → List Item → Type 0
Fits e [] = Unit {0}
Fits e (i ∷ is) = FitsGoal e i.goal × FitCalls e i.calls × Reaches i.goal i.calls × Fits e is

abbrev pub AllMet : List Item → World → Type 0
AllMet [] w = Unit {0}
AllMet (i ∷ is) w = (met i.goal w ≡ true) × AllMet is w

pub pending-AllMet : (is : List Item) (w : World) → AllMet is w → pending is w ≡ []
unfolding pending
pending-AllMet [] w h = refl
pending-AllMet (i ∷ is) w h = rw h.0 (pending-AllMet is w h.1)

pub AllMet-append : (is js : List Item) (w : World) → AllMet (is ++ js) w → AllMet js w
AllMet-append [] js w h = h
AllMet-append (i ∷ is) js w h = AllMet-append is js w h.1

pub Fits-append : (e : Plan) (is js : List Item) → Fits e is → Fits e js → Fits e (is ++ js)
Fits-append e [] js h k = k
Fits-append e (i ∷ is) js h k = (h.0, h.1, h.2, Fits-append e is js h.3 k)

FitCalls-append :
    (e : Plan) (cs ds : List Call) → FitCalls e cs → FitCalls e ds → FitCalls e (cs ++ ds)
FitCalls-append e [] ds h k = k
FitCalls-append e (c ∷ cs) ds h k = (h.0, FitCalls-append e cs ds h.1 k)

-- All contracts have the chain's id.
abbrev pub OnChain : Plan → World → Type 0
OnChain e w = (u : ℕ) → (w.usdo_at u).chain_id ≡ e.chain

module _ (outside : Outside) (law : Registers outside) (sender : ℕ) (e : Plan) where
  run_decoded-met :
      (g : Goal) (t : ℕ) (o : Option Op) (w : World) {w' : World}
      → FitsGoal e g
      → FitsDecoded e o
      → run_decoded outside sender t o w ≡ ok w'
      → met g w ≡ true
      → met g w' ≡ true
  unfolding run_decoded
  run_decoded-met g t none w fg fc r m = absurd fc
  run_decoded-met g t (some op) w fg fc r m = run_op-met outside law sender e g t op w fg fc r m

  run_decoded-Makes :
      (g : Goal) (t : ℕ) (o : Option Op) (w : World) {w' : World}
      → FitsGoal e g
      → MakesDecoded g t o
      → OnChain e w
      → run_decoded outside sender t o w ≡ ok w'
      → met g w' ≡ true
  unfolding run_decoded
  run_decoded-Makes g t none w fg mk ch r = absurd mk
  run_decoded-Makes g t (some op) w fg mk ch r =
      run_op-Makes outside law sender e g t op w fg mk ch r

  run_decoded-OnChain :
      (t : ℕ) (o : Option Op) (w : World) {w' : World}
      → FitsDecoded e o
      → run_decoded outside sender t o w ≡ ok w'
      → OnChain e w
      → OnChain e w'
  unfolding run_decoded
  run_decoded-OnChain t none w fc r h u = absurd fc
  run_decoded-OnChain t (some op) w fc r h u = run_op-chain outside law sender e t op w u r (h u)

  -- A list of calls keeps what is met, and the chain's id.
  run_calls-met :
      (g : Goal) (cs : List Call) (w : World) {w' : World}
      → FitsGoal e g
      → FitCalls e cs
      → run_calls outside sender cs w ≡ ok w'
      → met g w ≡ true
      → met g w' ≡ true
  unfolding run_calls
  run_calls-met g [] w fg fc r m = subst (λ v. met g v ≡ true) (ok-injective r) m
  run_calls-met g (c ∷ cs) w fg fc r m =
      let (v, first, rest) = >>=-eq-ok (run_call outside sender c w) _ r in
      run_calls-met g cs v fg fc.1 rest
        (run_decoded-met g c.target (decode c.call_data) w fg fc.0 first m)

  run_calls-OnChain :
      (cs : List Call) (w : World) {w' : World}
      → FitCalls e cs
      → run_calls outside sender cs w ≡ ok w'
      → OnChain e w
      → OnChain e w'
  unfolding run_calls
  run_calls-OnChain [] w fc r h = subst (OnChain e) (ok-injective r) h
  run_calls-OnChain (c ∷ cs) w fc r h =
      let (v, first, rest) = >>=-eq-ok (run_call outside sender c w) _ r in
      run_calls-OnChain cs v fc.1 rest
        (run_decoded-OnChain c.target (decode c.call_data) w fc.0 first h)

  -- A step's calls reach its goal: the first does, and the others keep it.
  run_calls-Reaches :
      (g : Goal) (cs : List Call) (w : World) {w' : World}
      → FitsGoal e g
      → FitCalls e cs
      → Reaches g cs
      → OnChain e w
      → run_calls outside sender cs w ≡ ok w'
      → met g w' ≡ true
  unfolding run_calls
  run_calls-Reaches g [] w fg fc rg h r = absurd rg
  run_calls-Reaches g (c ∷ cs) w fg fc rg h r =
      let (v, first, rest) = >>=-eq-ok (run_call outside sender c w) _ r in
      run_calls-met g cs v fg fc.1 rest
        (run_decoded-Makes g c.target (decode c.call_data) w fg rg h first)

  run_calls-append :
      (cs ds : List Call) (w : World) {w' : World}
      → run_calls outside sender (cs ++ ds) w ≡ ok w'
      → (v : World) × (run_calls outside sender cs w ≡ ok v)
        × (run_calls outside sender ds v ≡ ok w')
  unfolding run_calls
  run_calls-append [] ds w r = (w, refl, r)
  run_calls-append (c ∷ cs) ds w r =
      let (v, first, rest) = >>=-eq-ok (run_call outside sender c w) _ r in
      let (u, p, q) = run_calls-append cs ds v rest in (u, rw first p, q)

  FitCalls-pending : (is : List Item) (w : World) → Fits e is → FitCalls e (pending is w)
  unfolding pending
  FitCalls-pending [] w h = tt
  FitCalls-pending (i ∷ is) w h = elim (Bool-cases (met i.goal w)) [
    | inl m ↦ rw m (FitCalls-pending is w h.3)
    | inr m ↦ rw m (FitCalls-append e i.calls (pending is w) h.1 (FitCalls-pending is w h.3))
  ]

  -- The steps read the world `w0`; the calls of the steps before these led from it to `w1`, where every
  -- goal that `w0` meets is still met.
  run_pending-AllMet :
      (is : List Item) (w0 w1 : World) {w2 : World}
      → Fits e is
      → ((g : Goal) → FitsGoal e g → met g w0 ≡ true → met g w1 ≡ true)
      → OnChain e w1
      → run_calls outside sender (pending is w0) w1 ≡ ok w2
      → AllMet is w2
  unfolding pending
  run_pending-AllMet [] w0 w1 f keep ch r = tt
  run_pending-AllMet (i ∷ is) w0 w1 {w2} f keep ch r = elim (Bool-cases (met i.goal w0)) [
    | inl m ↦
        let rest : run_calls outside sender (pending is w0) w1 ≡ ok w2 = rw m at r in
        (
          run_calls-met i.goal (pending is w0) w1 f.0 (FitCalls-pending is w0 f.3) rest
              (keep i.goal f.0 m),
          run_pending-AllMet is w0 w1 f.3 keep ch rest,
        )
    | inr m ↦
        let all : run_calls outside sender (i.calls ++ pending is w0) w1 ≡ ok w2 = rw m at r in
        let (v, own, rest) = run_calls-append i.calls (pending is w0) w1 all in
        (
          run_calls-met i.goal (pending is w0) v f.0 (FitCalls-pending is w0 f.3) rest
              (run_calls-Reaches i.goal i.calls w1 f.0 f.1 f.2 ch own),
          run_pending-AllMet is w0 v f.3
              (λ g fg k. run_calls-met g i.calls w1 fg f.1 own (keep g fg k))
              (run_calls-OnChain i.calls w1 f.1 own ch) rest,
        )
  ]

  -- Once the pending calls of the steps went through, nothing is pending.
  pub run_pending :
      (is : List Item) (w : World) {w' : World}
      → Fits e is
      → OnChain e w
      → run_calls outside sender (pending is w) w ≡ ok w'
      → pending is w' ≡ []
  run_pending is w {w'} f ch r =
      pending-AllMet is w' (run_pending-AllMet is w w f (λ g fg m. m) ch r)

  -- Once the pending calls of the steps went through, all that they read is as it should be.
  pub run_pending_met :
      (is : List Item) (w : World) {w' : World}
      → Fits e is
      → OnChain e w
      → run_calls outside sender (pending is w) w ≡ ok w'
      → AllMet is w'
  run_pending_met is w f ch r = run_pending-AllMet is w w f (λ g fg m. m) ch r
