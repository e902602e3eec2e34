-- ===== src/Contracts/Usdo/Codec/Bytes.antt =====
-- Bytes of a number, the most significant first, as `abi.encodePacked` of contracts/usdo/libraries/UsdoMsgCodec.sol
-- writes them.
use tapioca_lending_engine.Base.{
  ℕ, zero, suc, ◌+◌, ◌*◌, ◌/◌, ◌%◌, ◌^◌, ◌<◌, ◌≡◌, refl, ◌∙◌, List, [], ◌∷◌, ◌++◌, Outcome, ok,
  fail, length, length-append, arith, subst,
}
use native.Mathlib.Nat.{div-lt_iff_lt-mul, pow-suc}

abbrev pub Msg : Type 0
Msg = List ℕ

unfoldable pub be_bytes : ℕ → ℕ → Msg
be_bytes zero n = []
be_bytes (suc w) n = be_bytes w (n / 256) ++ (n % 256) ∷ []

-- `_msg[i]`
abbrev pub byte_at : Msg → ℕ → Outcome ℕ
byte_at [] i = fail "Panic(0x32)"
byte_at (b ∷ bs) zero = ok b
byte_at (b ∷ bs) (suc i) = byte_at bs i

pub length-be_bytes : (w n : ℕ) → length (be_bytes w n) ≡ w
unfolding be_bytes
length-be_bytes zero n = refl
length-be_bytes (suc w) n =
    omega
      (arith, length-append (be_bytes w (n / 256)) ((n % 256) ∷ []), length-be_bytes w (n / 256))

pub byte_at-append :
    (pre : Msg) (b : ℕ) (rest : Msg) → byte_at (pre ++ b ∷ rest) (length pre) ≡ ok b
byte_at-append [] b rest = refl
byte_at-append (x ∷ xs) b rest = byte_at-append xs b rest

-- The number that bytes stand for
abbrev pub from_be : ℕ → Msg → ℕ
from_be acc [] = acc
from_be acc (b ∷ bs) = from_be (acc * 256 + b) bs

from_be-append :
    (acc : ℕ) (xs : Msg) (b : ℕ) → from_be acc (xs ++ b ∷ []) ≡ from_be acc xs * 256 + b
from_be-append acc [] b = refl
from_be-append acc (x ∷ xs) b = from_be-append (acc * 256 + x) xs b

small_div : (w n : ℕ) → n < 256 ^ suc w → n / 256 < 256 ^ w
small_div w n h = (div-lt_iff_lt-mul (omega arith)).1 (subst (λ x. n < x) (pow-suc 256 w) h)

pub from_be-be_bytes : (w n : ℕ) → n < 256 ^ w → from_be 0 (be_bytes w n) ≡ n
unfolding be_bytes
from_be-be_bytes zero n h = omega arith
from_be-be_bytes (suc w) n h =
    from_be-append 0 (be_bytes w (n / 256)) (n % 256)
    ∙ omega (arith, from_be-be_bytes w (n / 256) (small_div w n h))
