-- ===== src/Contracts/Usdo/Codec.antt =====
-- contracts/usdo/libraries/UsdoMsgCodec.sol: the messages of a permit, packed into bytes and read back. A
-- message has 190 bytes, as the code has it; comments of the source count 189, without the last one.
-- A message is a list of bytes. `BytesLib` of solidity-bytes-utils is a parameter.
pub mod Bytes
pub mod Fields
pub mod Roundtrip
pub mod Array
use tapioca_lending_engine.Base.{
  ℕ, ◌+◌, ◌*◌, ◌/◌, ◌==◌, Bool, true, false, not, ◌++◌, List, [], ◌∷◌, Outcome, ok, fail, ◌>>=◌,
  length, suc, zero, if◌then◌else◌,
}
use tapioca_lending_engine.Contracts.Usdo.Codec.Bytes.{Msg, be_bytes, byte_at}

-- What the codec calls of the library
pub record BytesLib : Type 0 where
  pub slice : Msg → ℕ → ℕ → Outcome Msg
  pub to_address : Msg → ℕ → Outcome ℕ
  pub to_uint256 : Msg → ℕ → Outcome ℕ
  pub to_uint8 : Msg → ℕ → Outcome ℕ
  pub to_bytes32 : Msg → ℕ → Outcome ℕ

-- `YieldBoxApproveAssetMsg`
pub record ApproveAssetMsg : Type 0 where
  pub target : ℕ
  pub owner : ℕ
  pub spender : ℕ
  pub asset_id : ℕ
  pub deadline : ℕ
  pub v : ℕ
  pub r : ℕ
  pub s : ℕ
  pub permit : Bool

-- `YieldBoxApproveAllMsg`
pub record ApproveAllMsg : Type 0 where
  pub target : ℕ
  pub owner : ℕ
  pub spender : ℕ
  pub deadline : ℕ
  pub v : ℕ
  pub r : ℕ
  pub s : ℕ
  pub permit : Bool

-- A `bool` in one byte
abbrev pub bool_byte : Bool → ℕ
bool_byte true = 1
bool_byte false = 0

-- `abi.encodePacked` of the fields
unfoldable pub build_yield_box_permit_asset_msg : ApproveAssetMsg → Msg
build_yield_box_permit_asset_msg m =
    be_bytes 20 m.target
    ++ (be_bytes 20 m.owner
        ++ (be_bytes 20 m.spender
            ++ (be_bytes 32 m.asset_id
                ++ (be_bytes 32 m.deadline
                    ++ (be_bytes 1 m.v
                        ++ (be_bytes 32 m.r ++ (be_bytes 32 m.s ++ (bool_byte m.permit ∷ []))))))))

unfoldable pub build_yield_box_approve_all_msg : ApproveAllMsg → Msg
build_yield_box_approve_all_msg m =
    be_bytes 20 m.target
    ++ (be_bytes 20 m.owner
        ++ (be_bytes 20 m.spender
            ++ (be_bytes 32 m.deadline
                ++ (be_bytes 1 m.v
                    ++ (be_bytes 32 m.r ++ (be_bytes 32 m.s ++ (bool_byte m.permit ∷ [])))))))

module _ (l : BytesLib) where
  unfoldable pub decode_yield_box_approval_asset_msg : Msg → Outcome ApproveAssetMsg
  decode_yield_box_approval_asset_msg msg = do
    target ← l.slice msg 0 20 >>= λ x. l.to_address x 0
    owner ← l.slice msg 20 20 >>= λ x. l.to_address x 0
    spender ← l.slice msg 40 20 >>= λ x. l.to_address x 0
    value ← l.slice msg 60 32 >>= λ x. l.to_uint256 x 0
    deadline ← l.slice msg 92 32 >>= λ x. l.to_uint256 x 0
    v ← l.slice msg 124 1 >>= λ x. l.to_uint8 x 0
    r ← l.slice msg 125 32 >>= λ x. l.to_bytes32 x 0
    s ← l.slice msg 157 32 >>= λ x. l.to_bytes32 x 0
    flag ← byte_at msg 189
    ok (record {
      target = target;
      owner = owner;
      spender = spender;
      asset_id = value;
      deadline = deadline;
      v = v;
      r = r;
      s = s;
      permit = not (flag == 0);
    })

  unfoldable pub decode_yield_box_approve_all_msg : Msg → Outcome ApproveAllMsg
  decode_yield_box_approve_all_msg msg = do
    target ← l.slice msg 0 20 >>= λ x. l.to_address x 0
    owner ← l.slice msg 20 20 >>= λ x. l.to_address x 0
    spender ← l.slice msg 40 20 >>= λ x. l.to_address x 0
    deadline ← l.slice msg 60 32 >>= λ x. l.to_uint256 x 0
    v ← l.slice msg 92 1 >>= λ x. l.to_uint8 x 0
    r ← l.slice msg 93 32 >>= λ x. l.to_bytes32 x 0
    s ← l.slice msg 125 32 >>= λ x. l.to_bytes32 x 0
    flag ← byte_at msg 157
    ok (record {
      target = target;
      owner = owner;
      spender = spender;
      deadline = deadline;
      v = v;
      r = r;
      s = s;
      permit = not (flag == 0);
    })

  -- The loop of `decodeArrayOfYieldBoxPermitAssetMsg`: the messages that are left, and the index
  unfoldable pub decode_from : ℕ → ℕ → Msg → Outcome (List ApproveAssetMsg)
  decode_from zero index msg = ok []
  decode_from (suc left) index msg = do
    part ← l.slice msg index 190
    m ← decode_yield_box_approval_asset_msg part
    ms ← decode_from left (index + 190) msg
    ok (m ∷ ms)

  unfoldable pub decode_array_of_yield_box_permit_asset_msg : Msg → Outcome (List ApproveAssetMsg)
  unfolding decode_from
  decode_array_of_yield_box_permit_asset_msg msg = decode_from (length msg / 190) 0 msg
