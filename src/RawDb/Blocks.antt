-- ===== src/RawDb/Blocks.antt =====
-- Blocks in the database: what `WriteBlock` writes, and that `ReadBlock` reads it back.
use plasma.Bytes.{Bytes}
use plasma.Bytes.RoundTrip.{set_bytes-put_uint, length-put_uint}
use plasma.Prelude.{
  ap, ◌^◌, ◌%◌, arith, ◌==◌, false, length, bytes_equal_refl, bytes_equal, refl, ◌∙◌, append_assoc,
  [], ◌≡◌, ◌∷◌, subst, ◌++◌, some, Option, List,
}
use plasma.RawDb.Accessors.{read_header_number, read_block, write_block}
use plasma.RawDb.Schema.{header_key, header_number_key, block_body_key, encode_block_number}
use plasma.Store.{after_write, put, after_writes, Database, Write}
use plasma.Store.Laws.{IsStore, View}
use plasma.Types.Block.{
  header_number, copy_header, with_body, new_block_with_header, number_u64, Block,
}
use plasma.Types.External.{Codec, block_hash, External}

-- the writes of `WriteBlock`, in order
abbrev pub block_writes : External → Block → List Write
block_writes x b =
    let hash = block_hash x b in
    put (block_body_key (number_u64 b) hash) (x.rlp_body b.transactions)
    ∷ put (header_number_key hash) (encode_block_number (number_u64 b))
    ∷ put (header_key (number_u64 b) hash) (x.rlp_header b.header)
    ∷ []

pub after_writes-append :
    (ws us : List Write) (j : Bytes) (before : Option Bytes)
    → after_writes (ws ++ us) j before ≡ after_writes us j (after_writes ws j before)
after_writes-append [] us j before = refl
after_writes-append (w ∷ ws) us j before = after_writes-append ws us j (after_write w j before)

module _ {S : Type 0} {Models : S → View → Option (List Write) → Type 0} (d : Database S)
    (store : IsStore d Models) (x : External) where
  pub put_pending :
      {s : S} {view : View} {ws : List Write} (k v : Bytes)
      → Models s view (some ws)
      → Models (d.put k v s).1 view (some (ws ++ put k v ∷ []))
  put_pending k v m = (store.put_open k v m).1

  -- In a transaction `WriteBlock` adds exactly its three writes.
  pub write_block-pending :
      {s : S} {view : View} {ws : List Write} (b : Block)
      → Models s view (some ws)
      → Models (write_block d x b s) view (some (ws ++ block_writes x b))
  unfolding write_block block_hash number_u64
  write_block-pending {s} {view} {ws} b m =
      subst (λ l. Models (write_block d x b s) view (some l))
        (append_assoc (ws ++ _ ∷ []) (_ ∷ []) (_ ∷ []) ∙ append_assoc ws (_ ∷ []) (_ ∷ _ ∷ []))
        (put_pending _ _ (put_pending _ _ (put_pending _ _ m)))

-- the reads that a committed block answers
module _ (x : External) (codec : Codec x) (b : Block) (before : View) where
  abbrev committed : View
  committed j = after_writes (block_writes x b) j (before j)

  header_bytes :
      committed (header_key (number_u64 b) (block_hash x b)) ≡ some (x.rlp_header b.header)
  header_bytes = rw (bytes_equal_refl (header_key (number_u64 b) (block_hash x b)))

  body_bytes :
      committed (block_body_key (number_u64 b) (block_hash x b)) ≡ some (x.rlp_body b.transactions)
  body_bytes =
      let k = block_body_key (number_u64 b) (block_hash x b) in
      let h : bytes_equal (header_key (number_u64 b) (block_hash x b)) k ≡ false =
        unfold bytes_equal header_key block_body_key in refl in
      let n : bytes_equal (header_number_key (block_hash x b)) k ≡ false =
        unfold bytes_equal header_number_key block_body_key in refl in
      rw (h, n, bytes_equal_refl k)

  number_bytes :
      committed (header_number_key (block_hash x b)) ≡ some (encode_block_number (number_u64 b))
  number_bytes =
      let k = header_number_key (block_hash x b) in
      let h : bytes_equal (header_key (number_u64 b) (block_hash x b)) k ≡ false =
        unfold bytes_equal header_key header_number_key in refl in
      rw (h, bytes_equal_refl k)

  -- an encoding is not empty, so the length test lets it through
  not_empty : (bs : Bytes) → (bs ≡ [] → ⊥) → (length bs == 0) ≡ false
  not_empty [] h = absurd (h refl)
  not_empty (c ∷ bs) h = ground arith

module _ {S : Type 0} {Models : S → View → Option (List Write) → Type 0} (d : Database S)
    (store : IsStore d Models) (x : External) (codec : Codec x) where
  -- In a state whose reads are those after `WriteBlock` of `b`, `ReadBlock` at the hash and number
  -- of `b` gives `b`, and `ReadHeaderNumber` at its hash gives its number.
  pub read_block-writes :
      {s : S} {view : View} {p : Option (List Write)} (b : Block) (before : View)
      → Models s view p
      → ((j : Bytes) → view j ≡ after_writes (block_writes x b) j (before j))
      → (read_block d x (block_hash x b) (number_u64 b) s ≡ some b)
        × (read_header_number d (block_hash x b) s ≡ some (number_u64 b))
  unfolding read_block read_header_number
  read_block-writes {s} b before m e =
      let hash = block_hash x b in
      let k = header_key (number_u64 b) hash in
      let h : d.get k s ≡ some (x.rlp_header b.header) =
        store.reads m k ∙ e k ∙ header_bytes x codec b before in
      let i = block_body_key (number_u64 b) hash in
      let c : d.get i s ≡ some (x.rlp_body b.transactions) =
        store.reads m i ∙ e i ∙ body_bytes x codec b before in
      let j = header_number_key hash in
      let n : d.get j s ≡ some (encode_block_number (number_u64 b)) =
        store.reads m j ∙ e j ∙ number_bytes x codec b before in
      (
        rw
            (
              h,
              c,
              not_empty x codec b before (x.rlp_header b.header) (codec.header_some b.header),
              not_empty x codec b before (x.rlp_body b.transactions)
                  (codec.body_some b.transactions),
              codec.header_back b.header,
              codec.body_back b.transactions,
            )
            (unfold new_block_with_header with_body copy_header in refl),
        rw n (
            unfold encode_block_number number_u64 header_number in
            rw (length-put_uint 8 (b.header.number % 2 ^ 64))
              (ap some (set_bytes-put_uint 8 (b.header.number % 2 ^ 64) (omega arith)))),
      )
