-- ===== src/Tests/Codec.antt =====
-- Two permits, packed and read back with a library that is written out here.
use tapioca_lending_engine.Base.{
  ℕ, zero, suc, ◌≡◌, refl, ap, true, false, ◌++◌, List, [], ◌∷◌, Outcome, ok, fail, arith, length,
}
use tapioca_lending_engine.Contracts.Usdo.Codec.Bytes.{Msg, from_be, from_be-be_bytes}
use tapioca_lending_engine.Contracts.Usdo.Codec.{
  BytesLib, ApproveAssetMsg, decode_array_of_yield_box_permit_asset_msg,
}
use tapioca_lending_engine.Contracts.Usdo.Codec.Fields.{IsBytesLib}
use tapioca_lending_engine.Contracts.Usdo.Codec.Array.{build_all, decode_array-build_all}

abbrev prepend : ℕ → Outcome Msg → Outcome Msg
prepend b (fail e) = fail e
prepend b (ok bs) = ok (b ∷ bs)

abbrev cut : Msg → ℕ → ℕ → Outcome Msg
cut bs zero zero = ok []
cut [] zero (suc n) = fail "slice_outOfBounds"
cut [] (suc k) n = fail "slice_outOfBounds"
cut (b ∷ bs) zero (suc n) = prepend b (cut bs zero n)
cut (b ∷ bs) (suc k) n = cut bs k n

-- The one place that is read is the start.
abbrev library : BytesLib
library = record {
  slice = cut;
  to_address = λ bs start. ok (from_be 0 bs);
  to_uint256 = λ bs start. ok (from_be 0 bs);
  to_uint8 = λ bs start. ok (from_be 0 bs);
  to_bytes32 = λ bs start. ok (from_be 0 bs);
}

cut_start : (mid post : Msg) → cut (mid ++ post) 0 (length mid) ≡ ok mid
cut_start [] [] = refl
cut_start [] (x ∷ xs) = refl
cut_start (b ∷ bs) post = ap (prepend b) (cut_start bs post)

cut_lem : (pre mid post : Msg) → cut (pre ++ (mid ++ post)) (length pre) (length mid) ≡ ok mid
cut_lem [] mid post = cut_start mid post
cut_lem (b ∷ bs) mid post = cut_lem bs mid post

library-IsBytesLib : IsBytesLib library
library-IsBytesLib = record {
  cuts = cut_lem;
  address = λ n h. ap ok (from_be-be_bytes 20 n h);
  uint256 = λ n h. ap ok (from_be-be_bytes 32 n h);
  uint8 = λ n h. ap ok (from_be-be_bytes 1 n h);
  bytes32 = λ n h. ap ok (from_be-be_bytes 32 n h);
}

abbrev first : ApproveAssetMsg
first = record {
  target = 0x1111;
  owner = 0x2222;
  spender = 0x3333;
  asset_id = 7;
  deadline = 1_700_000_000;
  v = 27;
  r = 12;
  s = 13;
  permit = true;
}

abbrev permits : List ApproveAssetMsg
permits = first ∷ record first { asset_id = 8; permit = false } ∷ []

decode_array-build_all_example :
    decode_array_of_yield_box_permit_asset_msg library (build_all permits) ≡ ok permits
decode_array-build_all_example = decode_array-build_all library library-IsBytesLib permits (
  record {
    target = omega arith;
    owner = omega arith;
    spender = omega arith;
    asset_id = omega arith;
    deadline = omega arith;
    v = omega arith;
    r = omega arith;
    s = omega arith;
  },
  (
    record {
      target = omega arith;
      owner = omega arith;
      spender = omega arith;
      asset_id = omega arith;
      deadline = omega arith;
      v = omega arith;
      r = omega arith;
      s = omega arith;
    },
    tt,
  ),
)
