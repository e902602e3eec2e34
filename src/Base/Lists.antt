-- ===== src/Base/Lists.antt =====
-- Lists over the native numbers, under the library's names, and lists of texts.
use Prim.Native.Nat.{ℕ, zero, suc, ◌+◌}
use Prim.Native.String.{String}
use mathlib.Core.Path.{◌≡◌}
use mathlib.Core.Bool.{Bool, true, false, not, ◌&&◌}
use mathlib.Core.List.{List, [], ◌∷◌, ◌++◌}
use native.Mathlib.Omega.{arith}
use text.Mathlib.Text.{◌==◌ as str_eq}
use tapioca_lending_engine.Base.Tests.{if◌then◌else◌, ◌==◌}

module _ {ℓ} {A : Type ℓ} where
  abbrev pub length : List A → ℕ
  length [] = 0
  length (x ∷ xs) = suc (length xs)

  pub length-append : (xs ys : List A) → length (xs ++ ys) ≡ length xs + length ys
  length-append [] ys = omega arith
  length-append (x ∷ xs) ys = omega (arith, length-append xs ys)

-- Whether a text stands in a list of texts.
abbrev pub contains : String → List String → Bool
contains s [] = false
contains s (t ∷ ts) = if str_eq t s then true else contains s ts

-- Whether each text of the first list stands in the second.
abbrev pub subset : List String → List String → Bool
subset [] ts = true
subset (s ∷ ss) ts = contains s ts && subset ss ts

-- Whether no text stands twice.
abbrev pub distinct : List String → Bool
distinct [] = true
distinct (s ∷ ss) = not (contains s ss) && distinct ss

module _ {ℓ} {A : Type ℓ} where
  abbrev pub replicate : ℕ → A → List A
  replicate zero a = []
  replicate (suc n) a = a ∷ replicate n a

-- Whether an address stands in a list of addresses.
abbrev pub elem : ℕ → List ℕ → Bool
elem a [] = false
elem a (x ∷ xs) = if x == a then true else elem a xs

pub elem-append_left : (a : ℕ) (xs ys : List ℕ) → elem a xs ≡ true → elem a (xs ++ ys) ≡ true
elem-append_left a [] ys h = cc
elem-append_left a (x ∷ xs) ys h = ground (arith, elem-append_left a xs ys)

pub elem-append_last : (a : ℕ) (xs : List ℕ) → elem a (xs ++ a ∷ []) ≡ true
elem-append_last a [] = ground arith
elem-append_last a (x ∷ xs) = ground (arith, elem-append_last a xs)
