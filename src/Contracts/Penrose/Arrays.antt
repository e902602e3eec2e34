-- ===== src/Contracts/Penrose/Arrays.antt =====
-- Arrays of addresses: `_findBigBangIndex` of contracts/Penrose.sol, and the removal that
-- `unregisterContract` makes with it three times.
use tapioca_lending_engine.Base.{
  ℕ, zero, suc, ◌==◌, List, [], ◌∷◌, Outcome, ok, fail, ◌>>=◌, if◌then◌else◌,
}

unfoldable pub find_big_bang_index : List ℕ → ℕ → Outcome ℕ
find_big_bang_index [] a = fail "AddressNotValid"
find_big_bang_index (x ∷ xs) a =
    let rest = find_big_bang_index xs a >>= λ i. ok (suc i) in if x == a then ok 0 else rest

-- `arr[index] = v`
abbrev pub set : List ℕ → ℕ → ℕ → List ℕ
set [] i v = []
set (x ∷ xs) zero v = v ∷ xs
set (x ∷ xs) (suc i) v = x ∷ set xs i v

-- `arr[arr.length - 1]`
abbrev pub last : List ℕ → ℕ
last [] = 0
last (x ∷ []) = x
last (x ∷ y ∷ xs) = last (y ∷ xs)

-- `arr.pop()`
abbrev pub pop : List ℕ → List ℕ
pop [] = []
pop (x ∷ []) = []
pop (x ∷ y ∷ xs) = x ∷ pop (y ∷ xs)

-- `index = _findBigBangIndex(arr, a); arr[index] = arr[arr.length - 1]; arr.pop();`
unfoldable pub swap_remove : List ℕ → ℕ → Outcome (List ℕ)
unfolding find_big_bang_index
swap_remove arr a = do i ← find_big_bang_index arr a; ok (pop (set arr i (last arr)))
