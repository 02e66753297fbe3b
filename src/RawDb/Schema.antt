-- ===== src/RawDb/Schema.antt =====
-- core/rawdb/schema.go: the database keys. A number is written big-endian in 8 bytes, a hash in 32.
pub mod Injective
use plasma.Bytes.{Bytes, Hash, put_uint}
use plasma.Prelude.{ℕ, List, [], ◌∷◌, ◌++◌}

-- "LastHeader", "LastBlock", "LastFast" and "TrieSync"
abbrev pub head_header_key : Bytes
head_header_key = b'L' ∷ b'a' ∷ b's' ∷ b't' ∷ b'H' ∷ b'e' ∷ b'a' ∷ b'd' ∷ b'e' ∷ b'r' ∷ []

abbrev pub head_block_key : Bytes
head_block_key = b'L' ∷ b'a' ∷ b's' ∷ b't' ∷ b'B' ∷ b'l' ∷ b'o' ∷ b'c' ∷ b'k' ∷ []

abbrev pub head_fast_block_key : Bytes
head_fast_block_key = b'L' ∷ b'a' ∷ b's' ∷ b't' ∷ b'F' ∷ b'a' ∷ b's' ∷ b't' ∷ []

abbrev pub fast_trie_progress_key : Bytes
fast_trie_progress_key = b'T' ∷ b'r' ∷ b'i' ∷ b'e' ∷ b'S' ∷ b'y' ∷ b'n' ∷ b'c' ∷ []

unfoldable pub encode_block_number : ℕ → Bytes
encode_block_number number = put_uint 8 number

unfoldable pub header_key : ℕ → Hash → Bytes
unfolding encode_block_number
header_key number hash = b'h' ∷ encode_block_number number ++ put_uint 32 hash

unfoldable pub header_td_key : ℕ → Hash → Bytes
unfolding header_key
header_td_key number hash = header_key number hash ++ b't' ∷ []

unfoldable pub header_hash_key : ℕ → Bytes
unfolding encode_block_number
header_hash_key number = b'h' ∷ encode_block_number number ++ b'n' ∷ []

unfoldable pub header_number_key : Hash → Bytes
header_number_key hash = b'H' ∷ put_uint 32 hash

unfoldable pub block_body_key : ℕ → Hash → Bytes
unfolding encode_block_number
block_body_key number hash = b'b' ∷ encode_block_number number ++ put_uint 32 hash

unfoldable pub block_receipts_key : ℕ → Hash → Bytes
unfolding encode_block_number
block_receipts_key number hash = b'r' ∷ encode_block_number number ++ put_uint 32 hash

unfoldable pub tx_lookup_key : Hash → Bytes
tx_lookup_key hash = b'l' ∷ put_uint 32 hash

-- `block_num` in bytes 1 to 8, `tx_idx` in bytes 9 to 12 and `out_idx` in byte 13
unfoldable pub utxo_key : ℕ → ℕ → ℕ → Bytes
utxo_key block_num tx_idx out_idx =
    b'c' ∷ put_uint 8 block_num ++ (put_uint 4 tx_idx ++ put_uint 1 out_idx)
