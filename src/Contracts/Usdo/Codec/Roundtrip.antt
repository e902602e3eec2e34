-- ===== src/Contracts/Usdo/Codec/Roundtrip.antt =====
-- What contracts/usdo/libraries/UsdoMsgCodec.sol packs is what it reads back.
use tapioca_lending_engine.Base.{
  ◌^◌, ◌<◌, ◌==◌, ◌≡◌, refl, ap, Bool, true, false, not, ◌++◌, [], ◌∷◌, ok, >>=-ok, length-append,
  arith,
}
use mathlib.Core.List.{append_assoc}
use tapioca_lending_engine.Contracts.Usdo.Codec.Bytes.{Msg, be_bytes, length-be_bytes}
use tapioca_lending_engine.Contracts.Usdo.Codec.{
  BytesLib, ApproveAssetMsg, ApproveAllMsg, bool_byte, build_yield_box_permit_asset_msg,
  build_yield_box_approve_all_msg, decode_yield_box_approval_asset_msg,
  decode_yield_box_approve_all_msg,
}
use tapioca_lending_engine.Contracts.Usdo.Codec.Fields.{IsBytesLib, read_field, flag_at}

-- The fields fit their types.
pub record AssetFits (m : ApproveAssetMsg) : Type 0 where
  pub target : m.target < 2 ^ 160
  pub owner : m.owner < 2 ^ 160
  pub spender : m.spender < 2 ^ 160
  pub asset_id : m.asset_id < 2 ^ 256
  pub deadline : m.deadline < 2 ^ 256
  pub v : m.v < 2 ^ 8
  pub r : m.r < 2 ^ 256
  pub s : m.s < 2 ^ 256

flag_back : (b : Bool) → not (bool_byte b == 0) ≡ b
flag_back true = refl
flag_back false = refl

-- and those of the message without an asset
pub record AllFits (m : ApproveAllMsg) : Type 0 where
  pub target : m.target < 2 ^ 160
  pub owner : m.owner < 2 ^ 160
  pub spender : m.spender < 2 ^ 160
  pub deadline : m.deadline < 2 ^ 256
  pub v : m.v < 2 ^ 8
  pub r : m.r < 2 ^ 256
  pub s : m.s < 2 ^ 256

module _ (l : BytesLib) (laws : IsBytesLib l) where
  pub decode-build_asset :
      (m : ApproveAssetMsg)
      → AssetFits m
      → decode_yield_box_approval_asset_msg l (build_yield_box_permit_asset_msg m) ≡ ok m
  unfolding decode_yield_box_approval_asset_msg build_yield_box_permit_asset_msg
  decode-build_asset m fits =
      let t = be_bytes 20 m.target in
      let o = be_bytes 20 m.owner in
      let p = be_bytes 20 m.spender in
      let a = be_bytes 32 m.asset_id in
      let d = be_bytes 32 m.deadline in
      let v = be_bytes 1 m.v in
      let r = be_bytes 32 m.r in
      let s = be_bytes 32 m.s in
      let f : Msg = bool_byte m.permit ∷ [] in
      let msg = t ++ (o ++ (p ++ (a ++ (d ++ (v ++ (r ++ (s ++ f))))))) in
      >>=-ok _ _
        (read_field l laws l.to_address [] 20 m.target
          (o ++ (p ++ (a ++ (d ++ (v ++ (r ++ (s ++ f))))))) msg 0
          (laws.address m.target fits.target) refl refl)
        (>>=-ok _ _
          (read_field l laws l.to_address t 20 m.owner (p ++ (a ++ (d ++ (v ++ (r ++ (s ++ f))))))
            msg 20 (laws.address m.owner fits.owner) refl (length-be_bytes 20 m.target))
          (>>=-ok _ _
            (read_field l laws l.to_address (t ++ o) 20 m.spender
              (a ++ (d ++ (v ++ (r ++ (s ++ f))))) msg 40 (laws.address m.spender fits.spender)
              (simp append_assoc) (omega (arith, length-append {0}, length-be_bytes)))
            (>>=-ok _ _
              (read_field l laws l.to_uint256 (t ++ (o ++ p)) 32 m.asset_id
                (d ++ (v ++ (r ++ (s ++ f)))) msg 60 (laws.uint256 m.asset_id fits.asset_id)
                (simp append_assoc) (omega (arith, length-append {0}, length-be_bytes)))
              (>>=-ok _ _
                (read_field l laws l.to_uint256 (t ++ (o ++ (p ++ a))) 32 m.deadline
                  (v ++ (r ++ (s ++ f))) msg 92 (laws.uint256 m.deadline fits.deadline)
                  (simp append_assoc) (omega (arith, length-append {0}, length-be_bytes)))
                (>>=-ok _ _
                  (read_field l laws l.to_uint8 (t ++ (o ++ (p ++ (a ++ d)))) 1 m.v (r ++ (s ++ f))
                    msg 124 (laws.uint8 m.v fits.v) (simp append_assoc)
                    (omega (arith, length-append {0}, length-be_bytes)))
                  (>>=-ok _ _
                    (read_field l laws l.to_bytes32 (t ++ (o ++ (p ++ (a ++ (d ++ v))))) 32 m.r
                      (s ++ f) msg 125 (laws.bytes32 m.r fits.r) (simp append_assoc)
                      (omega (arith, length-append {0}, length-be_bytes)))
                    (>>=-ok _ _
                      (read_field l laws l.to_bytes32 (t ++ (o ++ (p ++ (a ++ (d ++ (v ++ r)))))) 32
                        m.s f msg 157 (laws.bytes32 m.s fits.s) (simp append_assoc)
                        (omega (arith, length-append {0}, length-be_bytes)))
                      (>>=-ok _ _
                        (flag_at (t ++ (o ++ (p ++ (a ++ (d ++ (v ++ (r ++ s)))))))
                          (bool_byte m.permit) [] msg 189 (simp append_assoc)
                          (omega (arith, length-append {0}, length-be_bytes)))
                        (ap (λ b. ok (record m { permit = b })) (flag_back m.permit))))))))))

  pub decode-build_all :
      (m : ApproveAllMsg)
      → AllFits m
      → decode_yield_box_approve_all_msg l (build_yield_box_approve_all_msg m) ≡ ok m
  unfolding decode_yield_box_approve_all_msg build_yield_box_approve_all_msg
  decode-build_all m fits =
      let t = be_bytes 20 m.target in
      let o = be_bytes 20 m.owner in
      let p = be_bytes 20 m.spender in
      let d = be_bytes 32 m.deadline in
      let v = be_bytes 1 m.v in
      let r = be_bytes 32 m.r in
      let s = be_bytes 32 m.s in
      let f : Msg = bool_byte m.permit ∷ [] in
      let msg = t ++ (o ++ (p ++ (d ++ (v ++ (r ++ (s ++ f)))))) in
      >>=-ok _ _
        (read_field l laws l.to_address [] 20 m.target (o ++ (p ++ (d ++ (v ++ (r ++ (s ++ f))))))
          msg 0 (laws.address m.target fits.target) refl refl)
        (>>=-ok _ _
          (read_field l laws l.to_address t 20 m.owner (p ++ (d ++ (v ++ (r ++ (s ++ f))))) msg 20
            (laws.address m.owner fits.owner) refl (length-be_bytes 20 m.target))
          (>>=-ok _ _
            (read_field l laws l.to_address (t ++ o) 20 m.spender (d ++ (v ++ (r ++ (s ++ f)))) msg
              40 (laws.address m.spender fits.spender) (simp append_assoc)
              (omega (arith, length-append {0}, length-be_bytes)))
            (>>=-ok _ _
              (read_field l laws l.to_uint256 (t ++ (o ++ p)) 32 m.deadline (v ++ (r ++ (s ++ f)))
                msg 60 (laws.uint256 m.deadline fits.deadline) (simp append_assoc)
                (omega (arith, length-append {0}, length-be_bytes)))
              (>>=-ok _ _
                (read_field l laws l.to_uint8 (t ++ (o ++ (p ++ d))) 1 m.v (r ++ (s ++ f)) msg 92
                  (laws.uint8 m.v fits.v) (simp append_assoc)
                  (omega (arith, length-append {0}, length-be_bytes)))
                (>>=-ok _ _
                  (read_field l laws l.to_bytes32 (t ++ (o ++ (p ++ (d ++ v)))) 32 m.r (s ++ f) msg
                    93 (laws.bytes32 m.r fits.r) (simp append_assoc)
                    (omega (arith, length-append {0}, length-be_bytes)))
                  (>>=-ok _ _
                    (read_field l laws l.to_bytes32 (t ++ (o ++ (p ++ (d ++ (v ++ r))))) 32 m.s f
                      msg 125 (laws.bytes32 m.s fits.s) (simp append_assoc)
                      (omega (arith, length-append {0}, length-be_bytes)))
                    (>>=-ok _ _
                      (flag_at (t ++ (o ++ (p ++ (d ++ (v ++ (r ++ s)))))) (bool_byte m.permit) []
                        msg 157 (simp append_assoc)
                        (omega (arith, length-append {0}, length-be_bytes)))
                      (ap (λ b. ok (record m { permit = b })) (flag_back m.permit)))))))))
