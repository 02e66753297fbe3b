-- ===== src/RawDb/Accessors/ReadBack.antt =====
-- core/rawdb/accessors_chain.go: a block that was written is read back.
use plasma.Bytes.{set_bytes, Hash, Bytes}
use plasma.Bytes.RoundTrip.{set_bytes-put_uint, length-put_uint}
use plasma.Prelude.{
  ℕ, ◌^◌, ◌<◌, ◌≡◌, refl, ◌∙◌, ◌≢◌, false, Option, none, some, List, [], ◌∷◌, arith, ◌==◌,
  if◌then◌else◌, bytes_equal, bytes_equal_refl, length,
}
use plasma.RawDb.Accessors.{
  assemble, read_bytes, read_header, read_body, read_block, read_header_number, write_header,
  write_body, write_block,
}
use plasma.RawDb.Schema.{encode_block_number, block_body_key, header_number_key, header_key}
use plasma.Store.{Write, Database}
use plasma.Store.Laws.{IsStore, View}
use plasma.Types.Block.{
  header_number, copy_header, with_body, number_u64, new_block_with_header, Block,
}
use plasma.Types.External.{header_hash, block_hash, External}

pub length-ne : (bs : Bytes) → (bs ≡ [] → ⊥) → (length bs == 0) ≡ false
length-ne [] ne = absurd (ne refl)
length-ne (b ∷ bs) ne = ground arith

number_back :
    (n : ℕ)
    → n < 2 ^ 64
    → (if length (encode_block_number n) == 8
        then some (set_bytes (encode_block_number n))
        else none)
      ≡ some n
unfolding encode_block_number
number_back n small =
    let fits : n < 256 ^ 8 = omega (arith, small) in
    rw (length-put_uint 8 n, set_bytes-put_uint 8 n fits) refl

-- the keys of a block's three records are different
body_number_apart :
    (n : ℕ) (h k : Hash) → bytes_equal (header_number_key h) (block_body_key n k) ≡ false
unfolding bytes_equal header_number_key block_body_key
body_number_apart n h k = refl

body_header_apart :
    (m n : ℕ) (h k : Hash) → bytes_equal (header_key m h) (block_body_key n k) ≡ false
unfolding bytes_equal header_key block_body_key
body_header_apart m n h k = refl

number_header_apart :
    (m : ℕ) (h k : Hash) → bytes_equal (header_key m h) (header_number_key k) ≡ false
unfolding bytes_equal header_key header_number_key
number_header_apart m h k = refl

module _ {S : Type 0} (d : Database S) {Models : S → View → Option (List Write) → Type 0}
    (store : IsStore d Models) (x : External) where
  -- what the reads are after the three writes
  abbrev Written : Block → S → Type 0
  Written b s =
      (view : View) × Models s view none
      × (view (header_key (number_u64 b) (block_hash x b)) ≡ some (x.rlp_header b.header))
      × (view (block_body_key (number_u64 b) (block_hash x b)) ≡ some (x.rlp_body b.transactions))
      × (view (header_number_key (block_hash x b)) ≡ some (encode_block_number (number_u64 b)))

  write_block-Written :
      (b : Block) (s : S) (view : View)
      → ((k v : Bytes) (s : S) → (d.put k v s).0 ≡ none)
      → Models s view none
      → Written b (write_block d x b s)
  unfolding write_block write_body write_header block_hash number_u64
  write_block-Written b s view puts m =
      let hash = header_hash x b.header in
      let n = header_number b.header in
      let m1 =
        store.put_closed (block_body_key n hash) (x.rlp_body b.transactions) m (puts _ _ _) in
      let m2 = store.put_closed (header_number_key hash) (encode_block_number n) m1 (puts _ _ _) in
      let m3 = store.put_closed (header_key n hash) (x.rlp_header b.header) m2 (puts _ _ _) in
      (
        _,
        m3,
        rw (bytes_equal_refl (header_key n hash)) refl,
        rw
            (
              body_header_apart n n hash hash,
              body_number_apart n hash hash,
              bytes_equal_refl (block_body_key n hash),
            )
            refl,
        rw (number_header_apart n hash hash, bytes_equal_refl (header_number_key hash)) refl,
      )

  -- After `WriteBlock` outside a transaction, in which no write fails, of a block whose header and
  -- body are decoded again from encodings that are not empty, `ReadBlock` at the block's hash and
  -- number gives the block, and `ReadHeaderNumber` its number.
  pub read_block-write_block :
      (b : Block) (s : S) (view : View)
      → ((k v : Bytes) (s : S) → (d.put k v s).0 ≡ none)
      → x.decode_header (x.rlp_header b.header) ≡ some b.header
      → x.rlp_header b.header ≢ []
      → x.decode_body (x.rlp_body b.transactions) ≡ some b.transactions
      → x.rlp_body b.transactions ≢ []
      → Models s view none
      → (read_block d x (block_hash x b) (number_u64 b) (write_block d x b s) ≡ some b)
        × (read_header_number d (block_hash x b) (write_block d x b s) ≡ some (number_u64 b))
  unfolding read_block read_header read_body read_header_number read_bytes assemble
      new_block_with_header with_body copy_header
  read_block-write_block b s view puts header_back header_ne body_back body_ne m =
      let done = write_block-Written b s view puts m in
      let header = store.reads done.1 (header_key (number_u64 b) (block_hash x b)) ∙ done.2 in
      let body = store.reads done.1 (block_body_key (number_u64 b) (block_hash x b)) ∙ done.3 in
      let number = store.reads done.1 (header_number_key (block_hash x b)) ∙ done.4 in
      let some_header = length-ne (x.rlp_header b.header) header_ne in
      let some_body = length-ne (x.rlp_body b.transactions) body_ne in
      (
        rw (header, body, some_header, some_body, header_back, body_back) refl,
        rw number
            (number_back (number_u64 b) (unfold number_u64 in unfold header_number in omega arith)),
      )
