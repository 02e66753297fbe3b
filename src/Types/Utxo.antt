-- ===== src/Types/Utxo.antt =====
-- core/types/utxo.go, and `TxOut` of core/types/transaction.go.
use plasma.Bytes.{Address}
use plasma.Prelude.{ℕ, ◌≡◌, Bool, true, ◌&&◌, Option, some, arith, ◌==◌, ◌^◌, ◌<◌}
use plasma.Prelude.Int.{ℤ, pos}

-- the identity of an unspent output: a `uint64`, a `uint32` and a `byte`
pub record UtxoId : Type 0 where
  pub block_num : ℕ
  pub tx_index : ℕ
  pub out_index : ℕ

-- `amount` is a `*big.Int`, and `none` is the nil pointer
pub record TxOut : Type 0 where
  pub owner : Address
  pub amount : Option ℤ

pub record Utxo : Type 0 where
  pub id : UtxoId
  pub out : TxOut

unfoldable pub id_equals : UtxoId → UtxoId → Bool
id_equals a b =
    (a.block_num == b.block_num) && (a.tx_index == b.tx_index) && (a.out_index == b.out_index)

-- two UTXO objects are compared by their identities only
unfoldable pub utxo_equals : Utxo → Utxo → Bool
unfolding id_equals
utxo_equals u w = id_equals u.id w.id

unfoldable pub new_null_utxo : Utxo
new_null_utxo = record {
  id = record { block_num = 0; tx_index = 0; out_index = 0 };
  out = record { owner = 0; amount = some (pos 0) };
}

unfoldable pub is_null_utxo : Utxo → Bool
is_null_utxo u = u.id.block_num == 0

-- the three numbers fit in their machine words
abbrev pub InRange : UtxoId → Type 0
InRange i = (i.block_num < 256 ^ 8) × (i.tx_index < 256 ^ 4) × (i.out_index < 256 ^ 1)

pub id_equals→eq : (a b : UtxoId) → id_equals a b ≡ true → a ≡ b
unfolding id_equals
id_equals→eq a b h = ground arith

pub id_equals_refl : (a : UtxoId) → id_equals a a ≡ true
unfolding id_equals
id_equals_refl a = ground arith
