-- ===== src/Contracts/Usdo/Codec/Fields.antt =====
-- One field of a message of contracts/usdo/libraries/UsdoMsgCodec.sol, read where it was written.
use tapioca_lending_engine.Base.{
  ℕ, ◌^◌, ◌<◌, ◌≡◌, sym, ap, ◌∙◌, ◌++◌, ◌∷◌, Outcome, ok, ◌>>=◌, >>=-ok, length,
}
use tapioca_lending_engine.Contracts.Usdo.Codec.Bytes.{
  Msg, be_bytes, length-be_bytes, byte_at, byte_at-append,
}
use tapioca_lending_engine.Contracts.Usdo.Codec.{BytesLib}

-- What is assumed of `BytesLib`: a slice is what stands at the place, and a number that was packed is
-- read back.
pub record IsBytesLib (l : BytesLib) : Type 0 where
  pub cuts :
      (pre mid post : Msg) → l.slice (pre ++ (mid ++ post)) (length pre) (length mid) ≡ ok mid
  pub address : (n : ℕ) → n < 2 ^ 160 → l.to_address (be_bytes 20 n) 0 ≡ ok n
  pub uint256 : (n : ℕ) → n < 2 ^ 256 → l.to_uint256 (be_bytes 32 n) 0 ≡ ok n
  pub uint8 : (n : ℕ) → n < 2 ^ 8 → l.to_uint8 (be_bytes 1 n) 0 ≡ ok n
  pub bytes32 : (n : ℕ) → n < 2 ^ 256 → l.to_bytes32 (be_bytes 32 n) 0 ≡ ok n

pub slice_at :
    (l : BytesLib) (laws : IsBytesLib l) (pre mid post msg : Msg) (k n : ℕ)
    → msg ≡ pre ++ (mid ++ post)
    → length pre ≡ k
    → length mid ≡ n
    → l.slice msg k n ≡ ok mid
slice_at l laws pre mid post msg k n e ek en =
    ap (λ x. l.slice x k n) e
    ∙ ap (λ x. l.slice (pre ++ (mid ++ post)) x n) (sym ek)
    ∙ ap (λ x. l.slice (pre ++ (mid ++ post)) (length pre) x) (sym en)
    ∙ laws.cuts pre mid post

pub read_field :
    (l : BytesLib) (laws : IsBytesLib l) (read : Msg → ℕ → Outcome ℕ) (pre : Msg) (w n : ℕ)
    (post msg : Msg) (k : ℕ)
    → read (be_bytes w n) 0 ≡ ok n
    → msg ≡ pre ++ (be_bytes w n ++ post)
    → length pre ≡ k
    → (l.slice msg k w >>= λ x. read x 0) ≡ ok n
read_field l laws read pre w n post msg k e em ek =
    >>=-ok (l.slice msg k w) _
      (slice_at l laws pre (be_bytes w n) post msg k w em ek (length-be_bytes w n)) e

pub flag_at :
    (pre : Msg) (b : ℕ) (rest msg : Msg) (k : ℕ)
    → msg ≡ pre ++ b ∷ rest
    → length pre ≡ k
    → byte_at msg k ≡ ok b
flag_at pre b rest msg k e ek =
    ap (λ x. byte_at x k) e
    ∙ ap (λ x. byte_at (pre ++ b ∷ rest) x) (sym ek)
    ∙ byte_at-append pre b rest
