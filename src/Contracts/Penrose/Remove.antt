-- ===== src/Contracts/Penrose/Remove.antt =====
-- The removal from an array that `unregisterContract` of contracts/Penrose.sol makes, as a multiset.
use tapioca_lending_engine.Base.{
  ℕ, zero, suc, ◌+◌, ◌<◌, ◌==◌, ◌≡◌, refl, ◌≢◌, true, List, [], ◌∷◌, ok, ◌>>=◌, arith, elem,
  if◌then◌else◌, >>=-eq-ok, ok-injective, ap, Bool-cases, inl, inr, ==_iff, subst,
}
use tapioca_lending_engine.Contracts.Penrose.Arrays.{
  find_big_bang_index, set, last, pop, swap_remove,
}

-- How often an address stands in an array.
abbrev pub hit : ℕ → ℕ → ℕ
hit a b = if a == b then 1 else 0

abbrev pub count : ℕ → List ℕ → ℕ
count b [] = 0
count b (x ∷ xs) = hit x b + count b xs

count-pop :
    (b x : ℕ) (xs : List ℕ) → count b (pop (x ∷ xs)) + hit (last (x ∷ xs)) b ≡ count b (x ∷ xs)
count-pop b x [] = omega arith
count-pop b x (y ∷ xs) = omega (arith, count-pop b y xs)

-- The index found is that of the address.
abbrev IsAt : ℕ → ℕ → List ℕ → Type 0
IsAt a i [] = ⊥
IsAt a zero (x ∷ xs) = x ≡ a
IsAt a (suc i) (x ∷ xs) = IsAt a i xs

find_big_bang_index-IsAt : (xs : List ℕ) (a i : ℕ) → find_big_bang_index xs a ≡ ok i → IsAt a i xs
unfolding find_big_bang_index
find_big_bang_index-IsAt [] a i h = cc
find_big_bang_index-IsAt (x ∷ xs) a i h = elim (Bool-cases (x == a)) [
  | inl here ↦
      let e : ok 0 ≡ ok i = rw here at h in
      subst (λ k. IsAt a k (x ∷ xs)) (ok-injective e) ((==_iff x a).0 here)
  | inr there ↦
      let e : (find_big_bang_index xs a >>= λ j. ok (suc j)) ≡ ok i = rw there at h in
      let (j, found, q) = >>=-eq-ok (find_big_bang_index xs a) (λ j. ok (suc j)) e in
      subst (λ k. IsAt a k (x ∷ xs)) (ok-injective q) (find_big_bang_index-IsAt xs a j found)
]

count-set :
    (xs : List ℕ) (a b i v : ℕ)
    → IsAt a i xs
    → count b (set xs i v) + hit a b ≡ count b xs + hit v b
count-set [] a b i v h = absurd h
count-set (x ∷ xs) a b zero v h = rw h (omega arith)
count-set (x ∷ xs) a b (suc i) v h = omega (arith, count-set xs a b i v h)

last-set : (x : ℕ) (xs : List ℕ) (i : ℕ) → last (set (x ∷ xs) i (last (x ∷ xs))) ≡ last (x ∷ xs)
last-set x [] zero = refl
last-set x [] (suc i) = refl
last-set x (y ∷ xs) zero = refl
last-set x (y ∷ xs) (suc zero) = last-set y xs zero
last-set x (y ∷ xs) (suc (suc i)) = last-set y xs (suc i)

-- A removal at an index takes the address out once, whatever it does to the order.
remove_at-count :
    (x : ℕ) (xs : List ℕ) (a i b : ℕ)
    → IsAt a i (x ∷ xs)
    → count b (pop (set (x ∷ xs) i (last (x ∷ xs)))) + hit a b ≡ count b (x ∷ xs)
remove_at-count x xs a zero b h = omega (
  arith,
  count-pop b (last (x ∷ xs)) xs,
  count-set (x ∷ xs) a b zero (last (x ∷ xs)) h,
  ap (λ v. hit v b) (last-set x xs zero),
)
remove_at-count x xs a (suc i) b h = omega (
  arith,
  count-pop b x (set xs i (last (x ∷ xs))),
  count-set (x ∷ xs) a b (suc i) (last (x ∷ xs)) h,
  ap (λ v. hit v b) (last-set x xs (suc i)),
)

-- After a removal that does not revert, each address stands in the array as often as before, but the
-- one that was removed stands there once less.
pub swap_remove-count :
    (xs : List ℕ) (a : ℕ) {ys : List ℕ} (b : ℕ)
    → swap_remove xs a ≡ ok ys
    → count b ys + hit a b ≡ count b xs
unfolding swap_remove
swap_remove-count [] a b h = cc
swap_remove-count (x ∷ xs) a b h =
    let (i, found, q) =
      >>=-eq-ok (find_big_bang_index (x ∷ xs) a) (λ i. ok (pop (set (x ∷ xs) i (last (x ∷ xs)))))
        h in
    subst (λ l. count b l + hit a b ≡ count b (x ∷ xs)) (ok-injective q)
      (remove_at-count x xs a i b (find_big_bang_index-IsAt (x ∷ xs) a i found))

find_big_bang_index-elem :
    (xs : List ℕ) (a : ℕ) → elem a xs ≡ true → (i : ℕ) × (find_big_bang_index xs a ≡ ok i)
unfolding find_big_bang_index
find_big_bang_index-elem [] a h = cc
find_big_bang_index-elem (x ∷ xs) a h = elim (Bool-cases (x == a)) [
  | inl here ↦ (0, rw here)
  | inr there ↦ let (i, e) = find_big_bang_index-elem xs a (rw there at h) in (suc i, rw (there, e))
]

-- An address that stands in the array is removed with no revert.
pub swap_remove-elem :
    (xs : List ℕ) (a : ℕ) → elem a xs ≡ true → (ys : List ℕ) × (swap_remove xs a ≡ ok ys)
unfolding swap_remove
swap_remove-elem xs a h =
    let (i, e) = find_big_bang_index-elem xs a h in (pop (set xs i (last xs)), rw e)

pub elem-count : (b : ℕ) (xs : List ℕ) → elem b xs ≡ true → 0 < count b xs
elem-count b [] h = cc
elem-count b (x ∷ xs) h = ground (arith, elem-count b xs)

pub count-elem : (b : ℕ) (xs : List ℕ) → 0 < count b xs → elem b xs ≡ true
count-elem b [] h = absurd (omega arith)
count-elem b (x ∷ xs) h = ground (arith, count-elem b xs)

-- Another address stays in the array.
pub swap_remove-elem_ne :
    (xs : List ℕ) (a : ℕ) {ys : List ℕ} (b : ℕ)
    → swap_remove xs a ≡ ok ys
    → a ≢ b
    → elem b xs ≡ true
    → elem b ys ≡ true
swap_remove-elem_ne xs a {ys} b h ne e =
    count-elem b ys (ground (arith, swap_remove-count xs a b h, elem-count b xs e))

pub swap_remove-only_elem :
    (xs : List ℕ) (a : ℕ) {ys : List ℕ} → swap_remove xs a ≡ ok ys → elem a xs ≡ true
swap_remove-only_elem xs a h = count-elem a xs (ground (arith, swap_remove-count xs a a h))
