-- ===== src/HeaderChain/Write/Stores.antt =====
-- core/headerchain.go: what the database gives after the writes of `WriteHeader`, outside a
-- transaction in which no write fails.
use plasma.Bytes.{bytes_to_hash, zero_hash, put_uint, Hash, Bytes}
use plasma.Bytes.RoundTrip.{set_bytes-put_uint, length-put_uint}
use plasma.Prelude.{
  ℕ, ◌%◌, ◌^◌, ◌<◌, ◌≡◌, refl, sym, ap, ◌∙◌, ◌≢◌, false, Option, none, some, List, [], arith, ◌==◌,
  if◌then◌else◌, bytes_equal, bytes_equal_refl, length,
}
use plasma.RawDb.Accessors.{
  read_canonical_hash, write_canonical_hash, write_head_header_hash, read_head_header_hash,
  write_header, read_header, read_bytes, bytes_or_nil,
}
use plasma.RawDb.Accessors.ReadBack.{length-ne}
use plasma.RawDb.Schema.{
  header_key, header_hash_key, header_number_key, head_header_key, encode_block_number,
}
use plasma.RawDb.Schema.Injective.{length_apart, header_keys_apart, hash_keys_apart, Key}
use plasma.Store.{Write, Database}
use plasma.Store.Laws.{IsStore, View}
use plasma.Types.Block.{Header, header_number}
use plasma.Types.External.{header_hash, External}

hash_after_header : (n m : ℕ) (h : Hash) → bytes_equal (header_key n h) (header_hash_key m) ≡ false
hash_after_header n m h = length_apart (Key.header n h) (Key.header_hash m) (λ e. omega (arith, e))

header_after_hash : (n m : ℕ) (h : Hash) → bytes_equal (header_hash_key m) (header_key n h) ≡ false
header_after_hash n m h = length_apart (Key.header_hash m) (Key.header n h) (λ e. omega (arith, e))

hash_after_number :
    (m : ℕ) (h : Hash) → bytes_equal (header_number_key h) (header_hash_key m) ≡ false
hash_after_number m h =
    length_apart (Key.header_number h) (Key.header_hash m) (λ e. omega (arith, e))

header_after_number :
    (m : ℕ) (h g : Hash) → bytes_equal (header_number_key h) (header_key m g) ≡ false
header_after_number m h g =
    length_apart (Key.header_number h) (Key.header m g) (λ e. omega (arith, e))

header_after_head : (m : ℕ) (g : Hash) → bytes_equal head_header_key (header_key m g) ≡ false
header_after_head m g = length_apart Key.head_header (Key.header m g) (λ e. omega (arith, e))

hash_after_head : (m : ℕ) → bytes_equal head_header_key (header_hash_key m) ≡ false
unfolding header_hash_key bytes_equal
hash_after_head m = refl

module _ {S : Type 0} (d : Database S) {Models : S → View → Option (List Write) → Type 0}
    (store : IsStore d Models) (puts : (k v : Bytes) (s : S) → (d.put k v s).0 ≡ none)
    (x : External) where
  -- no transaction is open
  abbrev pub IsClosed : S → Type 0
  IsClosed s = (view : View) × Models s view none

  pub put-IsClosed : (k v : Bytes) (s : S) → IsClosed s → IsClosed (d.put k v s).1
  put-IsClosed k v s m = (_, store.put_closed k v m.1 (puts k v s))

  get-put :
      (k v j : Bytes) (s : S)
      → IsClosed s
      → d.get j (d.put k v s).1 ≡ (if bytes_equal k j then some v else d.get j s)
  get-put k v j s m =
      store.reads (store.put_closed k v m.1 (puts k v s)) j
      ∙ ap (λ before. if bytes_equal k j then some v else before) (sym (store.reads m.1 j))

  get-put_self : (k v : Bytes) (s : S) → IsClosed s → d.get k (d.put k v s).1 ≡ some v
  get-put_self k v s m = get-put k v k s m ∙ rw (bytes_equal_refl k) refl

  -- a write at another key
  get-put_apart :
      (k v j : Bytes) (s : S)
      → IsClosed s
      → bytes_equal k j ≡ false
      → d.get j (d.put k v s).1 ≡ d.get j s
  get-put_apart k v j s m apart = get-put k v j s m ∙ rw apart refl

  abbrev read_hash_of : Option Bytes → Hash
  read_hash_of found =
      if length (bytes_or_nil found) == 0 then zero_hash else bytes_to_hash (bytes_or_nil found)

  read_hash_back : (hash : Hash) → hash < 256 ^ 32 → read_hash_of (some (put_uint 32 hash)) ≡ hash
  unfolding bytes_to_hash
  read_hash_back hash small =
      let whole : hash % 256 ^ 32 ≡ hash = omega (arith, small) in
      rw (length-put_uint 32 hash, set_bytes-put_uint 32 hash small) whole

  abbrev read_header_of : Option Bytes → Option Header
  read_header_of found =
      if length (bytes_or_nil found) == 0 then none else x.decode_header (bytes_or_nil found)

  -- a write at a key that is no canonical number's
  canonical-put_apart :
      (k v : Bytes) (m : ℕ) (s : S)
      → IsClosed s
      → bytes_equal k (header_hash_key m) ≡ false
      → read_canonical_hash d m (d.put k v s).1 ≡ read_canonical_hash d m s
  unfolding read_canonical_hash read_bytes
  canonical-put_apart k v m s closed apart =
      ap read_hash_of (get-put_apart k v (header_hash_key m) s closed apart)

  header-put_apart :
      (k v : Bytes) (h : Hash) (m : ℕ) (s : S)
      → IsClosed s
      → bytes_equal k (header_key m h) ≡ false
      → read_header d x h m (d.put k v s).1 ≡ read_header d x h m s
  unfolding read_header read_bytes
  header-put_apart k v h m s closed apart =
      ap read_header_of (get-put_apart k v (header_key m h) s closed apart)

  pub canonical-write_canonical :
      (hash : Hash) (n : ℕ) (s : S)
      → IsClosed s
      → hash < 256 ^ 32
      → read_canonical_hash d n (write_canonical_hash d hash n s) ≡ hash
  unfolding read_canonical_hash write_canonical_hash read_bytes
  canonical-write_canonical hash n s closed small =
      ap read_hash_of (get-put_self (header_hash_key n) (put_uint 32 hash) s closed)
      ∙ read_hash_back hash small

  pub canonical-write_canonical_ne :
      (hash : Hash) (n m : ℕ) (s : S)
      → IsClosed s
      → n < 256 ^ 8
      → m < 256 ^ 8
      → n ≢ m
      → read_canonical_hash d m (write_canonical_hash d hash n s) ≡ read_canonical_hash d m s
  unfolding write_canonical_hash
  canonical-write_canonical_ne hash n m s closed hn hm ne =
      canonical-put_apart (header_hash_key n) (put_uint 32 hash) m s closed
        (hash_keys_apart n m hn hm ne)

  pub header-write_canonical :
      (hash : Hash) (n : ℕ) (h : Hash) (m : ℕ) (s : S)
      → IsClosed s
      → read_header d x h m (write_canonical_hash d hash n s) ≡ read_header d x h m s
  unfolding write_canonical_hash
  header-write_canonical hash n h m s closed =
      header-put_apart (header_hash_key n) (put_uint 32 hash) h m s closed (header_after_hash m n h)

  pub canonical-write_head :
      (hash : Hash) (m : ℕ) (s : S)
      → IsClosed s
      → read_canonical_hash d m (write_head_header_hash d hash s) ≡ read_canonical_hash d m s
  unfolding write_head_header_hash
  canonical-write_head hash m s closed =
      canonical-put_apart head_header_key (put_uint 32 hash) m s closed (hash_after_head m)

  pub header-write_head :
      (hash : Hash) (h : Hash) (m : ℕ) (s : S)
      → IsClosed s
      → read_header d x h m (write_head_header_hash d hash s) ≡ read_header d x h m s
  unfolding write_head_header_hash
  header-write_head hash h m s closed =
      header-put_apart head_header_key (put_uint 32 hash) h m s closed (header_after_head m h)

  pub write_header-IsClosed : (hd : Header) (s : S) → IsClosed s → IsClosed (write_header d x hd s)
  unfolding write_header
  write_header-IsClosed hd s closed = put-IsClosed _ _ _ (put-IsClosed _ _ s closed)

  pub canonical-write_header :
      (hd : Header) (m : ℕ) (s : S)
      → IsClosed s
      → read_canonical_hash d m (write_header d x hd s) ≡ read_canonical_hash d m s
  unfolding write_header
  canonical-write_header hd m s closed =
      let hash = header_hash x hd in
      let n = header_number hd in
      let number = encode_block_number n in
      let s1 = (d.put (header_number_key hash) number s).1 in
      canonical-put_apart (header_key n hash) (x.rlp_header hd) m s1
        (put-IsClosed (header_number_key hash) number s closed) (hash_after_header n m hash)
      ∙ canonical-put_apart (header_number_key hash) number m s closed (hash_after_number m hash)

  pub header-write_header_ne :
      (hd : Header) (h : Hash) (m : ℕ) (s : S)
      → IsClosed s
      → header_number hd ≢ m
      → m < 256 ^ 8
      → read_header d x h m (write_header d x hd s) ≡ read_header d x h m s
  unfolding write_header
  header-write_header_ne hd h m s closed ne small =
      let hash = header_hash x hd in
      let n = header_number hd in
      let number = encode_block_number n in
      let s1 = (d.put (header_number_key hash) number s).1 in
      header-put_apart (header_key n hash) (x.rlp_header hd) h m s1
        (put-IsClosed (header_number_key hash) number s closed)
        (header_keys_apart n m hash h (unfold header_number in omega arith) small ne)
      ∙ header-put_apart (header_number_key hash) number h m s closed (header_after_number m hash h)

  pub header-write_header :
      (hd : Header) (s : S)
      → IsClosed s
      → x.decode_header (x.rlp_header hd) ≡ some hd
      → x.rlp_header hd ≢ []
      → read_header d x (header_hash x hd) (header_number hd) (write_header d x hd s) ≡ some hd
  unfolding write_header read_header read_bytes
  header-write_header hd s closed back ne =
      let hash = header_hash x hd in
      let n = header_number hd in
      let number = encode_block_number n in
      ap read_header_of (
        get-put_self (header_key n hash) (x.rlp_header hd)
          (d.put (header_number_key hash) number s).1
          (put-IsClosed (header_number_key hash) number s closed))
      ∙ rw (length-ne (x.rlp_header hd) ne) back

  pub read_head-write_head :
      (hash : Hash) (s : S)
      → IsClosed s
      → hash < 256 ^ 32
      → read_head_header_hash d (write_head_header_hash d hash s) ≡ hash
  unfolding read_head_header_hash write_head_header_hash read_bytes
  read_head-write_head hash s closed small =
      ap read_hash_of (get-put_self head_header_key (put_uint 32 hash) s closed)
      ∙ read_hash_back hash small
