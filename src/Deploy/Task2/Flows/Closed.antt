-- ===== src/Deploy/Task2/Flows/Closed.antt =====
-- The calls of the multicall leave nothing open.
use tapioca_lending_engine.Base.{
  ℕ, ◌+◌, ◌-◌, ◌==◌, ◌≡◌, refl, sym, ap, subst, ◌∙◌, arith, String, Bool, true, false, ◌||◌, Option,
  some, none, List, [], ◌∷◌, ◌++◌, Outcome, ok, >>=-eq-ok, >>=-ok, ok-injective, fail_if, present,
}
use tapioca_lending_engine.Base.Int.{ℤ, pos}
use tapioca_lending_engine.Sdk.{Hre, CallValue, addr, num, struct, nil, field, end, ◌⸴◌}
use tapioca_lending_engine.Deploy.Config.{usdo_uniswap_pool, UsdoUniswapPool}
use tapioca_lending_engine.Deploy.Task2.{
  Contracts2, Reads, mint_calls, mint_origin_usdo, encode_uint256, load_contracts_2, role_calls,
  post_deploy_task_2, pool_borrow_amount, send_call, send_data, target_chain, call_value,
  with_transfer,
}
use tapioca_lending_engine.Deploy.Task2.Flows.{
  parties, parties_for, destination, found_or_zero, follow, nothing_held, IsClosed,
}
use tapioca_lending_engine.Deploy.Task2.Flows.Steps.{
  after_loan, role_calls-follow, mint_calls-follow, send-follow,
}

encode_uint256-pos : (n : ℕ) {m : ℕ} → encode_uint256 (pos n) ≡ ok m → m ≡ n
encode_uint256-pos n h = ground arith

-- What a mint returns, with what it encoded
mint_origin_usdo_ok :
    (hre : Hre) (r : Reads) (amount : ℕ) (borrow_amount : ℤ) {calls : List CallValue}
    → mint_origin_usdo hre r amount borrow_amount ≡ ok calls
    → (c : Contracts2) × (load_contracts_2 hre ≡ ok c)
      × (n : ℕ) × (encode_uint256 borrow_amount ≡ ok n)
      × (calls ≡ mint_calls c r hre.multicall_addr amount n)
unfolding mint_origin_usdo
mint_origin_usdo_ok hre r amount borrow_amount h =
    let (c, hc, h1) = >>=-eq-ok (load_contracts_2 hre) _ h in
    let (x, hx, h2) = >>=-eq-ok (encode_uint256 (pos amount)) _ h1 in
    let (n, hn, h3) = >>=-eq-ok (encode_uint256 borrow_amount) _ h2 in
    let ex = encode_uint256-pos amount hx in
    (c, hc, n, hn, sym (ok-injective h3) ∙ ap (λ y. mint_calls c r hre.multicall_addr y n) ex)

-- What the transfer is, with what it encoded
send_call_ok :
    (hre : Hre) (r : Reads) (c : Contracts2) (borrow_amount : ℤ) {out : CallValue × ℕ}
    → send_call hre r c borrow_amount ≡ ok out
    → (chain : String) × (to : ℕ) × (n : ℕ) × (destination hre r ≡ (to, r.lz_chain_id chain))
      × (encode_uint256 borrow_amount ≡ ok n)
      × (out.0
          ≡ call_value c.usdo "send"
              (send_data r chain to n
                ⸴ struct (field "lzTokenFee" (num 0) (field "nativeFee" (num out.1) end))
                ⸴ addr hre.multicall_addr
                ⸴ nil)
              out.1)
unfolding send_call
send_call_ok hre r c borrow_amount {out} h =
    let (chain, hc, h1) = >>=-eq-ok (target_chain hre) _ h in
    let (to, ht, h2) = >>=-eq-ok (r.find_multicall chain) _ h1 in
    let (n, hn, h3) = >>=-eq-ok (encode_uint256 borrow_amount) _ h2 in
    let (fee, _, h4) = >>=-eq-ok (r.quote_send (send_data r chain to n)) _ h3 in
    (
      chain,
      to,
      n,
      ap found_or_zero (>>=-ok (target_chain hre) _ hc (>>=-ok (r.find_multicall chain) _ ht refl)),
      hn,
      cc,
    )

abbrev pool_calls : Contracts2 → Reads → ℕ → ℕ → ℕ → ℕ → ℕ → List CallValue
pool_calls c r m a b a' b' = role_calls c ++ (mint_calls c r m a b ++ mint_calls c r m a' b')

pool_calls-follow :
    (hre : Hre) (r : Reads) (c : Contracts2) (d : ℕ × ℕ) (a b a' b' : ℕ) (calls : List CallValue)
    → follow
        (parties_for hre r c d)
        nothing_held
        (pool_calls c r hre.multicall_addr a b a' b' ++ calls)
      ≡ follow (parties_for hre r c d) (after_loan (0 + a + a') (0 + b + b')) calls
pool_calls-follow hre r c d a b a' b' calls =
    let m = hre.multicall_addr in
    role_calls-follow hre r c d (mint_calls c r m a b ++ (mint_calls c r m a' b' ++ calls))
    ∙ mint_calls-follow hre r c d 0 0 a b (mint_calls c r m a' b' ++ calls)
    ∙ mint_calls-follow hre r c d (0 + a) (0 + b) a' b' calls

with_transfer-IsClosed :
    (hre : Hre) (r : Reads) (c : Contracts2) (no_transfer : Bool) (y : ℤ) (a b a' b' : ℕ)
    {out : List CallValue × ℕ}
    → encode_uint256 y ≡ ok b'
    → with_transfer hre r c no_transfer y (pool_calls c r hre.multicall_addr a b a' b') ≡ ok out
    → IsClosed (parties hre r c) out.0 (a + a') out.1
unfolding with_transfer
with_transfer-IsClosed hre r c true y a b a' b' e h =
    let closed : IsClosed (parties hre r c) (pool_calls c r hre.multicall_addr a b a' b') (a + a')
        0 =
      record {
        held = after_loan (0 + a + a') (0 + b + b');
        followed = pool_calls-follow hre r c (destination hre r) a b a' b' [];
        roles = (refl, refl);
        on_the_way = (refl, refl, refl);
        revoked = refl;
        collateral_lem = omega arith;
        borrowed = omega arith;
        paid = refl;
      } in
    subst (λ o. IsClosed (parties hre r c) o.0 (a + a') o.1) (ok-injective h) closed
with_transfer-IsClosed hre r c false y a b a' b' e h =
    let (s, hs, h1) = >>=-eq-ok (send_call hre r c y) _ h in
    let (chain, to, n, found, hn, es) = send_call_ok hre r c y hs in
    let same : n ≡ b' = ok-injective (sym hn ∙ e) in
    let d : ℕ × ℕ = (to, r.lz_chain_id chain) in
    let m = hre.multicall_addr in
    let sent =
      call_value c.usdo "send"
        (send_data r chain to n
          ⸴ struct (field "lzTokenFee" (num 0) (field "nativeFee" (num s.1) end))
          ⸴ addr m
          ⸴ nil)
        s.1 in
    let closed : IsClosed (parties_for hre r c d) (pool_calls c r m a b a' b' ++ sent ∷ []) (a + a')
        s.1 =
      record {
        held = record (after_loan (0 + a + a') (0 + b + b')) { in_hand = 0 + b + b' - n; sent = n };
        followed =
            pool_calls-follow hre r c d a b a' b' (sent ∷ [])
            ∙ send-follow hre r c d (0 + a + a') (0 + b + b') n s.1 (r.remove_dust n)
                (r.lz_receive_option 200_000) (omega (arith, same));
        roles = (refl, refl);
        on_the_way = (refl, refl, refl);
        revoked = refl;
        collateral_lem = omega arith;
        borrowed = omega (arith, same);
        paid = omega arith;
      } in
    subst (λ o. IsClosed (parties hre r c) o.0 (a + a') o.1) (ok-injective h1)
      (subst (λ x. IsClosed (parties hre r c) (pool_calls c r m a b a' b' ++ x ∷ []) (a + a') s.1)
        (sym es)
        (subst
          (λ x.
            IsClosed (parties_for hre r c x) (pool_calls c r m a b a' b' ++ sent ∷ []) (a + a') s.1)
          (sym found) closed))

present-some : {A : Type 0} (o : Option A) {a : A} → present o ≡ ok a → o ≡ some a
present-some none h = cc
present-some (some a) h = cc

-- Where the task returns its calls, the contracts are loaded and the chain has two amounts of ETH, and
-- the calls, each read with its target, asset, spender and recipients, do this in order, using nothing
-- that is not there: the Origins market gets both roles; the ETH that YieldBox is approved for is all
-- deposited, and the market takes all of it as collateral, which is the two amounts; the USDO that is
-- borrowed is all withdrawn, and it is in hand at the end or sent to the multicall of the other chain; the
-- market keeps no permission, no call may fail, and the value that the calls take is the value sent.
pub post_deploy_task_2-IsClosed :
    (hre : Hre) (r : Reads) (delta : ℤ) (no_transfer : Bool) {out : List CallValue × ℕ}
    → post_deploy_task_2 hre r delta no_transfer ≡ ok out
    → (c : Contracts2) × (load_contracts_2 hre ≡ ok c)
      × (p : UsdoUniswapPool) × (usdo_uniswap_pool hre.e_chain_id ≡ some p)
      × IsClosed
          (parties hre r c)
          out.0
          (p.eth_amount_to_mint_for_usdc_pool + p.eth_amount_to_mint_for_dai_pool)
          out.1
unfolding post_deploy_task_2
post_deploy_task_2-IsClosed hre r delta no_transfer {out} h =
    let (c, hc, h1) = >>=-eq-ok (load_contracts_2 hre) _ h in
    let (p, hp, h2) = >>=-eq-ok (present (usdo_uniswap_pool hre.e_chain_id)) _ h1 in
    let eu = p.eth_amount_to_mint_for_usdc_pool in
    let ed = p.eth_amount_to_mint_for_dai_pool in
    let (_, _, h3) = >>=-eq-ok (fail_if (eu == 0 || ed == 0) "Skipping USDO minting") _ h2 in
    let (x, _, h4) = >>=-eq-ok (pool_borrow_amount r.exchange_rate eu delta) _ h3 in
    let (y, _, h5) = >>=-eq-ok (pool_borrow_amount r.exchange_rate ed delta) _ h4 in
    let (us, hus, h6) = >>=-eq-ok (mint_origin_usdo hre r eu x) _ h5 in
    let (ds, hds, h7) = >>=-eq-ok (mint_origin_usdo hre r ed y) _ h6 in
    let (c1, hc1, b, _, eus) = mint_origin_usdo_ok hre r eu x hus in
    let (c2, hc2, b', hb', eds) = mint_origin_usdo_ok hre r ed y hds in
    let m = hre.multicall_addr in
    let us_calls : us ≡ mint_calls c r m eu b =
      eus ∙ ap (λ z. mint_calls z r m eu b) (ok-injective (sym hc1 ∙ hc)) in
    let ds_calls : ds ≡ mint_calls c r m ed b' =
      eds ∙ ap (λ z. mint_calls z r m ed b') (ok-injective (sym hc2 ∙ hc)) in
    let run : List CallValue → List CallValue → Outcome (List CallValue × ℕ) =
      λ l k. with_transfer hre r c no_transfer y (role_calls c ++ (l ++ k)) in
    (
      c,
      hc,
      p,
      present-some (usdo_uniswap_pool hre.e_chain_id) hp,
      with_transfer-IsClosed hre r c no_transfer y eu b ed b' hb' (
          subst (λ l. run l (mint_calls c r m ed b') ≡ ok out) us_calls
            (subst (λ k. run us k ≡ ok out) ds_calls h7)),
    )
