-- ===== src/Contracts/Usdo/Codec/Array.antt =====
-- The messages of several permits, one after the other, as contracts/usdo/libraries/UsdoMsgCodec.sol reads them.
use tapioca_lending_engine.Base.{
  ℕ, ◌+◌, ◌*◌, ◌/◌, ◌≡◌, refl, sym, ap, ◌∙◌, ◌++◌, List, [], ◌∷◌, ok, >>=-ok, length, length-append,
  arith,
}
use mathlib.Core.List.{append_assoc}
use tapioca_lending_engine.Contracts.Usdo.Codec.Bytes.{Msg, length-be_bytes}
use tapioca_lending_engine.Contracts.Usdo.Codec.{
  BytesLib, ApproveAssetMsg, build_yield_box_permit_asset_msg, decode_from,
  decode_array_of_yield_box_permit_asset_msg,
}
use tapioca_lending_engine.Contracts.Usdo.Codec.Fields.{IsBytesLib, slice_at}
use tapioca_lending_engine.Contracts.Usdo.Codec.Roundtrip.{AssetFits, decode-build_asset}

-- The messages, packed one after the other
abbrev pub build_all : List ApproveAssetMsg → Msg
build_all [] = []
build_all (m ∷ ms) = build_yield_box_permit_asset_msg m ++ build_all ms

abbrev pub AllAssetsFit : List ApproveAssetMsg → Type 0
AllAssetsFit [] = Unit
AllAssetsFit (m ∷ ms) = AssetFits m × AllAssetsFit ms

length-build_asset : (m : ApproveAssetMsg) → length (build_yield_box_permit_asset_msg m) ≡ 190
unfolding build_yield_box_permit_asset_msg
length-build_asset m = omega (arith, length-append {0}, length-be_bytes)

length-build_all : (ms : List ApproveAssetMsg) → length (build_all ms) ≡ 190 * length ms
length-build_all [] = refl
length-build_all (m ∷ ms) = omega (
  arith,
  length-append (build_yield_box_permit_asset_msg m) (build_all ms),
  length-build_asset m,
  length-build_all ms,
)

module _ (l : BytesLib) (laws : IsBytesLib l) where
  decode_from-build_all :
      (ms : List ApproveAssetMsg) (pre msg : Msg) (index : ℕ)
      → AllAssetsFit ms
      → msg ≡ pre ++ build_all ms
      → length pre ≡ index
      → decode_from l (length ms) index msg ≡ ok ms
  unfolding decode_from
  decode_from-build_all [] pre msg index fits e ei = refl
  decode_from-build_all (m ∷ ms) pre msg index fits e ei =
      let part = build_yield_box_permit_asset_msg m in
      let after : length (pre ++ part) ≡ index + 190 =
        omega (arith, length-append pre part, length-build_asset m, ei) in
      >>=-ok _ _ (slice_at l laws pre part (build_all ms) msg index 190 e ei (length-build_asset m))
        (>>=-ok _ _ (decode-build_asset l laws m fits.0) (
          >>=-ok _ _
            (decode_from-build_all ms (pre ++ part) msg (index + 190) fits.1
              (e ∙ sym (append_assoc pre part (build_all ms))) after)
            refl))

  -- With a `BytesLib` that cuts out what stands at a place and reads back a number that was packed, the
  -- messages of permits whose fields fit their types, packed one after the other, are read back
  -- as they were, in their order and all of them.
  pub decode_array-build_all :
      (ms : List ApproveAssetMsg)
      → AllAssetsFit ms
      → decode_array_of_yield_box_permit_asset_msg l (build_all ms) ≡ ok ms
  unfolding decode_array_of_yield_box_permit_asset_msg
  decode_array-build_all ms fits =
      let count : length (build_all ms) / 190 ≡ length ms = omega (arith, length-build_all ms) in
      ap (λ n. decode_from l n 0 (build_all ms)) count
      ∙ decode_from-build_all ms [] (build_all ms) 0 fits refl refl
