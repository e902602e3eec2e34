-- ===== src/Contracts/Penrose/Clones.antt =====
-- `getAllMasterContractClones` of contracts/Penrose.sol: it counts the clones of the master
-- contracts, allocates an array of that length, and fills it by index.
use tapioca_lending_engine.Base.{
  ℕ, zero, suc, ◌+◌, ◌≡◌, refl, List, [], ◌∷◌, ◌++◌, Outcome, ok, fail, ◌>>=◌, arith, length,
  length-append, replicate, Mapping, sym, ap, ◌∙◌,
}
use mathlib.Core.Path.{ap₂}
use mathlib.Core.List.{append_assoc}
use native.Mathlib.Nat.{add-zero, zero-add, suc-add}
use tapioca_lending_engine.Contracts.Penrose.{Penrose, MasterContract}

-- `arr[i] = v`, which reverts past the end
abbrev pub store : List ℕ → ℕ → ℕ → Outcome (List ℕ)
store [] i v = fail "Panic(0x32)"
store (x ∷ xs) zero v = ok (v ∷ xs)
store (x ∷ xs) (suc i) v = store xs i v >>= λ l. ok (x ∷ l)

-- The first loop
abbrev pub markets_length : Mapping (List ℕ) → List MasterContract → ℕ
markets_length clones [] = 0
markets_length clones (mc ∷ mcs) = length (clones mc.location) + markets_length clones mcs

-- The inner loop: the array and `marketIndex`
abbrev pub fill : List ℕ → ℕ → List ℕ → Outcome (List ℕ × ℕ)
fill [] i arr = ok (arr, i)
fill (c ∷ cs) i arr = store arr i c >>= λ arr'. fill cs (suc i) arr'

-- The outer loop
abbrev pub fill_all : Mapping (List ℕ) → List MasterContract → ℕ → List ℕ → Outcome (List ℕ)
fill_all clones [] i arr = ok arr
fill_all clones (mc ∷ mcs) i arr =
    fill (clones mc.location) i arr >>= λ r. fill_all clones mcs r.1 r.0

unfoldable pub get_all_master_contract_clones : Penrose → List MasterContract → Outcome (List ℕ)
get_all_master_contract_clones p mcs =
    fill_all p.clones_of mcs 0 (replicate (markets_length p.clones_of mcs) 0)

unfoldable pub singularity_markets : Penrose → Outcome (List ℕ)
unfolding get_all_master_contract_clones
singularity_markets p = get_all_master_contract_clones p p.singularity_master_contracts

unfoldable pub big_bang_markets : Penrose → Outcome (List ℕ)
unfolding get_all_master_contract_clones
big_bang_markets p = get_all_master_contract_clones p p.bigbang_master_contracts

-- The clones of the master contracts, one list after the other.
abbrev pub all_clones : Mapping (List ℕ) → List MasterContract → List ℕ
all_clones clones [] = []
all_clones clones (mc ∷ mcs) = clones mc.location ++ all_clones clones mcs

store-append :
    (pre post : List ℕ) (x v : ℕ) → store (pre ++ x ∷ post) (length pre) v ≡ ok (pre ++ v ∷ post)
store-append [] post x v = refl
store-append (y ∷ pre) post x v = rw (store-append pre post x v)

-- Filling the array behind what it holds already
fill-append :
    (cs pre post : List ℕ) (i : ℕ) (arr : List ℕ)
    → i ≡ length pre
    → arr ≡ pre ++ (replicate (length cs) 0 ++ post)
    → fill cs i arr ≡ ok (pre ++ (cs ++ post), i + length cs)
fill-append [] pre post i arr hi ha = rw (ha, add-zero)
fill-append (c ∷ cs) pre post i arr hi ha =
    rw (ha, hi, store-append pre (replicate (length cs) 0 ++ post) 0 c)
      (fill-append cs (pre ++ c ∷ []) post (suc (length pre))
          (pre ++ c ∷ (replicate (length cs) 0 ++ post)) (omega (arith, length-append pre (c ∷ [])))
          (sym (append_assoc pre (c ∷ []) (replicate (length cs) 0 ++ post)))
        ∙ ap₂ (λ (l : List ℕ) (n : ℕ). ok (l, n)) (append_assoc pre (c ∷ []) (cs ++ post))
            (omega arith))

replicate-add : (m n : ℕ) → replicate {A = ℕ} (m + n) 0 ≡ replicate m 0 ++ replicate n 0
replicate-add zero n = rw zero-add
replicate-add (suc m) n = rw suc-add (ap (λ (l : List ℕ). 0 ∷ l) (replicate-add m n))

fill_all-append :
    (clones : Mapping (List ℕ)) (mcs : List MasterContract) (pre : List ℕ)
    → fill_all clones mcs (length pre) (pre ++ replicate (markets_length clones mcs) 0)
      ≡ ok (pre ++ all_clones clones mcs)
fill_all-append clones [] pre = refl
fill_all-append clones (mc ∷ mcs) pre =
    let cs = clones mc.location in
    let post = replicate {A = ℕ} (markets_length clones mcs) 0 in
    rw
      (
        fill-append cs pre post (length pre)
            (pre ++ replicate (length cs + markets_length clones mcs) 0) refl
            (ap (λ (l : List ℕ). pre ++ l) (replicate-add (length cs) (markets_length clones mcs))),
        ← append_assoc pre cs post,
        ← length-append pre cs,
      )
      (fill_all-append clones mcs (pre ++ cs)
        ∙ ap (λ (l : List ℕ). ok l) (append_assoc pre cs (all_clones clones mcs)))

-- The loops by index never write out of bounds, and the array that they fill holds the clones of the
-- master contracts, one list after the other.
pub get_all_master_contract_clones-all_clones :
    (p : Penrose) (mcs : List MasterContract)
    → get_all_master_contract_clones p mcs ≡ ok (all_clones p.clones_of mcs)
unfolding get_all_master_contract_clones
get_all_master_contract_clones-all_clones p mcs = fill_all-append p.clones_of mcs []
