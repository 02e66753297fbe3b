-- ===== src/RawDb/Accessors.antt =====
-- core/rawdb/accessors_chain.go. A `get` drops the error, so a failed read gives no bytes; a failed
-- `Put` or `Delete` is only logged.
pub mod ReadBack
use plasma.Bytes.{
  Address, Bytes, Hash, zero_hash, put_uint, set_bytes, bytes_to_hash, bytes_to_address, big_bytes,
}
use plasma.Prelude.{
  ℕ, ◌%◌, ◌^◌, Bool, false, Option, none, some, List, [], ◌++◌, ◌==◌, ltb, length, take, drop,
  if◌then◌else◌,
}
use plasma.Prelude.Int.{pos, abs}
use plasma.Prelude.Outcome.{Outcome, ok, panic, Error}
use plasma.RawDb.Schema.{
  head_header_key, head_block_key, head_fast_block_key, fast_trie_progress_key, encode_block_number,
  header_key, header_td_key, header_hash_key, header_number_key, block_body_key, block_receipts_key,
  utxo_key,
}
use plasma.Store.{Database}
use plasma.Types.Block.{Header, Block, header_number, number_u64, new_block_with_header, with_body}
use plasma.Types.External.{External, header_hash, block_hash}
use plasma.Types.Transaction.{Transaction}
use plasma.Types.Utxo.{UtxoId, Utxo}

-- `data, _ := db.Get(key)`: nil on an error
abbrev pub bytes_or_nil : Option Bytes → Bytes
bytes_or_nil none = []
bytes_or_nil (some v) = v

abbrev hash_or_zero : Bytes → Hash
hash_or_zero data_ = if length data_ == 0 then zero_hash else bytes_to_hash data_

-- the record that `ReadUTXO` makes of the bytes; `data[:20]` of a shorter slice panics
unfoldable pub decode_utxo : UtxoId → Bytes → Outcome (Option Utxo)
decode_utxo id data_ =
    if length data_ == 0
    then ok none
    else if ltb (length data_) 20
    then panic
    else ok (
        some (record {
          id = id;
          out = record {
            owner = bytes_to_address (take 20 data_);
            amount = some (pos (set_bytes (drop 20 data_)));
          };
        }))

-- the bytes that `WriteUTXO` stores: the owner, then the magnitude of the amount
unfoldable pub encode_utxo : Address → ℕ → Bytes
encode_utxo owner magnitude = put_uint 20 owner ++ big_bytes magnitude

module _ {S : Type 0} (d : Database S) where
  unfoldable pub read_bytes : Bytes → S → Bytes
  read_bytes key s = bytes_or_nil (d.get key s)

  unfoldable pub read_canonical_hash : ℕ → S → Hash
  unfolding read_bytes
  read_canonical_hash number s = hash_or_zero (read_bytes (header_hash_key number) s)

  unfoldable pub write_canonical_hash : Hash → ℕ → S → S
  write_canonical_hash hash number s = (d.put (header_hash_key number) (put_uint 32 hash) s).1

  unfoldable pub delete_canonical_hash : ℕ → S → S
  delete_canonical_hash number s = (d.delete (header_hash_key number) s).1

  unfoldable pub read_header_number : Hash → S → Option ℕ
  unfolding read_bytes
  read_header_number hash s =
      let data_ = read_bytes (header_number_key hash) s in
      if length data_ == 8 then some (set_bytes data_) else none

  unfoldable pub read_head_header_hash : S → Hash
  unfolding read_bytes
  read_head_header_hash s = hash_or_zero (read_bytes head_header_key s)

  unfoldable pub write_head_header_hash : Hash → S → S
  write_head_header_hash hash s = (d.put head_header_key (put_uint 32 hash) s).1

  unfoldable pub read_head_block_hash : S → Hash
  unfolding read_bytes
  read_head_block_hash s = hash_or_zero (read_bytes head_block_key s)

  unfoldable pub write_head_block_hash : Hash → S → S
  write_head_block_hash hash s = (d.put head_block_key (put_uint 32 hash) s).1

  unfoldable pub read_head_fast_block_hash : S → Hash
  unfolding read_bytes
  read_head_fast_block_hash s = hash_or_zero (read_bytes head_fast_block_key s)

  unfoldable pub write_head_fast_block_hash : Hash → S → S
  write_head_fast_block_hash hash s = (d.put head_fast_block_key (put_uint 32 hash) s).1

  unfoldable pub read_fast_trie_progress : S → ℕ
  unfolding read_bytes
  read_fast_trie_progress s =
      let data_ = read_bytes fast_trie_progress_key s in
      if length data_ == 0 then 0 else set_bytes data_ % 2 ^ 64

  unfoldable pub write_fast_trie_progress : ℕ → S → S
  write_fast_trie_progress count s = (d.put fast_trie_progress_key (big_bytes count) s).1

  has_key : Bytes → S → Bool
  has_key key s = elim (d.has key s) [ none ↦ false | some b ↦ b ]

  unfoldable pub has_header : Hash → ℕ → S → Bool
  unfolding has_key
  has_header hash number s = has_key (header_key number hash) s

  unfoldable pub has_body : Hash → ℕ → S → Bool
  unfolding has_key
  has_body hash number s = has_key (block_body_key number hash) s

  unfoldable pub delete_header : Hash → ℕ → S → S
  delete_header hash number s =
      (d.delete (header_number_key hash) (d.delete (header_key number hash) s).1).1

  unfoldable pub delete_body : Hash → ℕ → S → S
  delete_body hash number s = (d.delete (block_body_key number hash) s).1

  unfoldable pub delete_td : Hash → ℕ → S → S
  delete_td hash number s = (d.delete (header_td_key number hash) s).1

  unfoldable pub delete_receipts : Hash → ℕ → S → S
  delete_receipts hash number s = (d.delete (block_receipts_key number hash) s).1

  unfoldable pub delete_block : Hash → ℕ → S → S
  unfolding delete_header delete_body delete_td delete_receipts
  delete_block hash number s =
      delete_td hash number
        (delete_body hash number (delete_header hash number (delete_receipts hash number s)))

  unfoldable pub read_utxo : UtxoId → S → Outcome (Option Utxo)
  unfolding read_bytes decode_utxo
  read_utxo id s = decode_utxo id (read_bytes (utxo_key id.block_num id.tx_index id.out_index) s)

  unfoldable pub delete_utxo : UtxoId → S → Option Error × S
  delete_utxo id s = d.delete (utxo_key id.block_num id.tx_index id.out_index) s

  -- a nil amount panics; `Bytes` drops the sign
  unfoldable pub write_utxo : Utxo → S → Outcome (Option Error × S)
  unfolding encode_utxo
  write_utxo v s = elim v.out.amount [
    | none ↦ panic
    | some a ↦ ok (
        d.put (utxo_key v.id.block_num v.id.tx_index v.id.out_index)
          (encode_utxo v.out.owner (abs a)) s)
  ]

  module _ (x : External) where
    -- `ReadHeaderRLP` and the decoding of what it found
    unfoldable pub read_header : Hash → ℕ → S → Option Header
    unfolding read_bytes
    read_header hash number s =
        let data_ = read_bytes (header_key number hash) s in
        if length data_ == 0 then none else x.decode_header data_

    -- the number by hash first, then the header by both
    unfoldable pub write_header : Header → S → S
    write_header h s =
        let hash = header_hash x h in
        let s1 = (d.put (header_number_key hash) (encode_block_number (header_number h)) s).1 in
        (d.put (header_key (header_number h) hash) (x.rlp_header h) s1).1

    unfoldable pub read_body : Hash → ℕ → S → Option (List Transaction)
    unfolding read_bytes
    read_body hash number s =
        let data_ = read_bytes (block_body_key number hash) s in
        if length data_ == 0 then none else x.decode_body data_

    unfoldable pub write_body : Hash → ℕ → List Transaction → S → S
    write_body hash number txs s = (d.put (block_body_key number hash) (x.rlp_body txs) s).1

    assemble : Option Header → Option (List Transaction) → Option Block
    unfolding new_block_with_header with_body
    assemble none b = none
    assemble (some h) none = none
    assemble (some h) (some txs) = some (with_body (new_block_with_header h) txs)

    unfoldable pub read_block : Hash → ℕ → S → Option Block
    unfolding read_header read_body assemble
    read_block hash number s = assemble (read_header hash number s) (read_body hash number s)

    unfoldable pub write_block : Block → S → S
    unfolding write_body write_header
    write_block b s =
        write_header b.header (write_body (block_hash x b) (number_u64 b) b.transactions s)
