-- ===== src/Types/Block.antt =====
-- core/types/block.go: headers and blocks. A block number is a `*big.Int`; the code reads it
-- through `Uint64`, its low 64 bits, or `Int64`. A block's own hash and size caches hold what the
-- methods would compute again, and are left out.
use plasma.Bytes.{Bytes, Hash, Address}
use plasma.Prelude.{
  ℕ, ◌%◌, ◌^◌, ◌-◌, List, [], ◌∷◌, Option, none, some, ◌==◌, ltb, Bool, if◌then◌else◌,
}
use plasma.Types.Transaction.{Transaction}

pub record Header : Type 0 where
  pub parent_hash : Hash
  pub coinbase : Address
  pub tx_hash : Hash
  pub number : ℕ
  pub time : ℕ
  pub extra : Bytes

pub record Block : Type 0 where
  pub header : Header
  pub transactions : List Transaction

-- the copy has the same values, so later writes to the original do not reach it
unfoldable pub copy_header : Header → Header
copy_header h = record {
  parent_hash = h.parent_hash;
  coinbase = h.coinbase;
  tx_hash = h.tx_hash;
  number = h.number;
  time = h.time;
  extra = h.extra;
}

unfoldable pub new_block_with_header : Header → Block
unfolding copy_header
new_block_with_header h = record { header = copy_header h; transactions = [] }

unfoldable pub with_body : Block → List Transaction → Block
unfolding copy_header
with_body b txs = record { header = copy_header b.header; transactions = txs }

-- `b.header.Number.Uint64()`
unfoldable pub header_number : Header → ℕ
header_number h = h.number % 2 ^ 64

unfoldable pub number_u64 : Block → ℕ
unfolding header_number
number_u64 b = header_number b.header

-- the absolute value of `Number.Int64()`, the low 64 bits read as a signed number
unfoldable pub number_int64_abs : Block → ℕ
unfolding number_u64 header_number
number_int64_abs b = if ltb (number_u64 b) (2 ^ 63) then number_u64 b else 2 ^ 64 - number_u64 b

-- `Number(b1, b2)`, the order by which blocks are sorted
unfoldable pub number_less : Block → Block → Bool
number_less b c = ltb b.header.number c.header.number

module _ (hash_of : Transaction → Hash) where
  find_transaction : Hash → List Transaction → Option Transaction
  find_transaction h [] = none
  find_transaction h (tx ∷ txs) = if hash_of tx == h then some tx else find_transaction h txs

  -- `Block.Transaction`
  unfoldable pub transaction : Block → Hash → Option Transaction
  unfolding find_transaction
  transaction b h = find_transaction h b.transactions
