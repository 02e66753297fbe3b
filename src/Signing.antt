-- ===== src/Signing.antt =====
-- core/types/transaction_signing.go and `WithSignature` of core/types/transaction.go: the EIP155
-- signer. The curve's checks and recovery are those of Types/External; `Signer` adds the encoding
-- that is hashed for a signature, and `crypto.Sign` with its keys `K`. A chain identifier is not
-- negative. `int64` and `byte` sums keep their wrap-around.
pub mod RoundTrip
pub mod ChainZero
use plasma.Bytes.{big_bytes, set_bytes, put_uint, Address, Hash, Bytes}
use plasma.Prelude.{
  ℕ, ◌+◌, ◌-◌, ◌*◌, ◌/◌, ◌%◌, ◌^◌, ◌&&◌, ◌||◌, not, Option, none, some, [], ◌∷◌, ◌++◌, ltb, ◌==◌,
  if◌then◌else◌, length, take, drop,
}
use plasma.Prelude.Int.{◌-ℤ◌, pos, abs, ℤ}
use plasma.Prelude.Outcome.{
  invalid_chain_id, invalid_sig, invalid_public_key, Outcome, ok, err, panic, ◌>>=◌,
}
use plasma.Types.External.{External}
use plasma.Types.Transaction.{Sig, Transaction}
use plasma.Types.Utxo.{TxOut, Utxo}

pub record Signer (K : Type 0) : Type 0 where
  pub libraries : External
  -- rlp.Encode of the inputs, the outputs, the fee, the chain identifier and two zeros
  pub rlp_unsigned : Utxo × Utxo → TxOut × TxOut → ℤ → ℕ → Bytes
  pub crypto_sign : Hash → K → Outcome Bytes

-- `emptySignature`
unfoldable pub empty_signature : Bytes
empty_signature = put_uint 65 0

-- `deriveChainId` of a value that is not negative
unfoldable pub derive_chain_id : ℕ → ℕ
derive_chain_id v =
    if ltb v (2 ^ 64)
    then (if v == 27 || v == 28 then 0 else (v + (2 ^ 64 - 35)) % 2 ^ 64 / 2)
    else (v - 35) / 2

-- the low byte of `Vb.Uint64() - 27`; `Uint64` is of the magnitude
abbrev pub recovery_byte : ℤ → ℕ
recovery_byte v = (abs v + 229) % 256

-- the last byte of a signature
abbrev last_byte : Bytes → ℕ
last_byte sig = set_bytes (drop 64 sig)

-- `SignatureValues`: 32 bytes, 32 bytes and a byte to which 27 is added
unfoldable pub signature_values : Bytes → Outcome Sig
signature_values sig =
    if length sig == 65
    then ok (record {
      v = (last_byte sig + 27) % 256;
      r = set_bytes (take 32 sig);
      s = set_bytes (take 32 (drop 32 sig));
    })
    else panic

-- `EIP155Signer.SignatureValues`; the sum of bytes is one of `byte`s
unfoldable pub eip155_values : ℕ → Bytes → Outcome Sig
unfolding signature_values
eip155_values chain_id sig = do
  plain ← signature_values sig
  ok (
      if chain_id == 0
      then plain
      else record plain { v = (last_byte sig + 35) % 256 + chain_id * 2 })

-- `WithSignature` does not change the transaction that it is called on
unfoldable pub with_signature : ℕ → Bytes → Bytes → Transaction → Outcome Transaction
unfolding eip155_values
with_signature chain_id sig1 sig2 tx = do
  first ← eip155_values chain_id sig1
  second ← eip155_values chain_id sig2
  ok (record tx { sigs = (some first, some second) })

module _ {K : Type 0} (c : Signer K) where
  -- `EIP155Signer.Hash`
  unfoldable pub signed_hash : ℕ → Transaction → Hash
  signed_hash chain_id tx = c.libraries.keccak (c.rlp_unsigned tx.ins tx.outs tx.fee chain_id)

  -- `pub[0] != 4` of a key that may be empty, then the last 20 bytes of a hash
  address_of_key : Bytes → Outcome Address
  address_of_key [] = err invalid_public_key
  address_of_key (b ∷ key) =
      if b == 4 then ok (c.libraries.keccak key % 2 ^ 160) else err invalid_public_key

  -- the 64 bytes of two values, each copied so as to end its half; the second one may reach over
  -- the first
  copied : ℕ → ℕ → Bytes
  copied r s =
      if ltb s (2 ^ 256)
      then put_uint 32 r ++ put_uint 32 s
      else take (64 - length (big_bytes s)) (put_uint 32 r) ++ big_bytes s

  -- `recoverPlain`; the slice for `copy` panics where `r` has more than 32 bytes, or `s` more than 64
  unfoldable pub recover_plain : Hash → ℕ → ℕ → ℤ → Outcome Address
  unfolding address_of_key copied
  recover_plain hash r s vb =
      if ltb 255 (abs vb)
      then err invalid_sig
      else if not (c.libraries.valid_signature (recovery_byte vb) r s)
      then err invalid_sig
      else if ltb r (2 ^ 256) && ltb s (2 ^ 512)
      then c.libraries.ecrecover hash (copied r s ++ recovery_byte vb ∷ []) >>= address_of_key
      else panic

  -- one round of the loop of `Sender`; nil values panic
  unfoldable pub recover_one : ℕ → Hash → Option Sig → Outcome Address
  unfolding derive_chain_id recover_plain
  recover_one chain_id hash none = panic
  recover_one chain_id hash (some sig) =
      if derive_chain_id sig.v == chain_id
      then recover_plain hash sig.r sig.s (pos sig.v -ℤ pos (chain_id * 2) -ℤ pos 8)
      else err invalid_chain_id

  -- `EIP155Signer.Sender`
  unfoldable pub sender : ℕ → Transaction → Outcome (Address × Address)
  unfolding recover_one signed_hash
  sender chain_id tx = do
    first ← recover_one chain_id (signed_hash chain_id tx) tx.sigs.0
    second ← recover_one chain_id (signed_hash chain_id tx) tx.sigs.1
    ok (first, second)

  -- the second key may be nil
  unfoldable pub sign_second : Hash → Option K → Outcome Bytes
  unfolding empty_signature
  sign_second hash none = ok empty_signature
  sign_second hash (some key) = c.crypto_sign hash key

  -- `SignTx`
  unfoldable pub sign_tx : ℕ → Transaction → K → Option K → Outcome Transaction
  unfolding sign_second with_signature signed_hash
  sign_tx chain_id tx key1 key2 = do
    sig1 ← c.crypto_sign (signed_hash chain_id tx) key1
    sig2 ← sign_second (signed_hash chain_id tx) key2
    with_signature chain_id sig1 sig2 tx
