-- ===== src/Signature.antt =====
-- x/nvx/keeper/signature.go: what a transaction's signature is checked against.
use Prim.Native.String.{◌++◌}
use nuvex.Base.{
  ℕ, ◌+◌, ◌*◌, none, some, List, [], ◌∷◌, String, nat_eq, not, if◌then◌else◌, length, take, drop,
  Outcome, ok, err,
}
use nuvex.Base.Word.{Int64, Uint64}
use nuvex.Host.{Host}

pub record TxPayload : Type 0 where
  pub from : String
  pub to : String
  pub amount : Int64
  pub fee : Int64
  pub nonce : Uint64

pub data SignatureError : Type 0 where
  bad_public_key public_key_length bad_signature signature_length rejected : SignatureError

-- `new(big.Int).SetBytes`: big-endian
unfoldable pub big_endian_from : ℕ → List ℕ → ℕ
big_endian_from acc [] = acc
big_endian_from acc (b ∷ bs) = big_endian_from (acc * 256 + b) bs

unfoldable pub big_endian : List ℕ → ℕ
unfolding big_endian_from
big_endian bs = big_endian_from 0 bs

module _ (host : Host) where
  -- The text of `HashPayload`, its fields between colons.
  unfoldable pub payload_text : TxPayload → String
  payload_text p =
      p.from
      ++ ":"
      ++ p.to
      ++ ":"
      ++ host.fmt_int p.amount
      ++ ":"
      ++ host.fmt_int p.fee
      ++ ":"
      ++ host.fmt_uint p.nonce
      ++ ":nuvex-1"

  unfoldable pub hash_payload : TxPayload → List ℕ
  unfolding payload_text
  hash_payload p = host.sha256 (host.to_bytes (payload_text p))

  -- The two halves of a 64-byte key and of a 64-byte signature go to the curve's check.
  unfoldable pub verify_signature : String → TxPayload → String → Outcome SignatureError (Unit {0})
  unfolding hash_payload big_endian
  verify_signature public_key payload signature = elim (host.hex_decode public_key) [
    | none ↦ err bad_public_key
    | some key ↦
        if not (nat_eq (length key) 64)
        then err public_key_length
        else elim (host.hex_decode signature) [
          | none ↦ err bad_signature
          | some sig ↦
              if not (nat_eq (length sig) 64)
              then err signature_length
              else if host.ecdsa_verify (big_endian (take 32 key)) (big_endian (drop 32 key))
                  (hash_payload payload) (big_endian (take 32 sig)) (big_endian (drop 32 sig))
              then ok tt
              else err rejected
        ]
  ]

  unfoldable pub address_from_public_key : String → Outcome SignatureError String
  address_from_public_key public_key = elim (host.hex_decode public_key) [
    | none ↦ err bad_public_key
    | some key ↦ ok ("nuvex1" ++ host.hex_encode (take 19 (host.sha256 (host.sha256 key))))
  ]
