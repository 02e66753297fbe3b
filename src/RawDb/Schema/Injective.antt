-- ===== src/RawDb/Schema/Injective.antt =====
-- No two records share a database key.
use mathlib.Core.List.{tail}
use plasma.Bytes.{Bytes, Hash, put_uint}
use plasma.Bytes.RoundTrip.{length-put_uint, put_uint-injective}
use plasma.Prelude.{
  bytes_equal_ne, false, bytes_equal, ◌≢◌, ◌∙◌, sym, ℕ, ◌<◌, ◌^◌, ◌≡◌, refl, ap, List, [], ◌∷◌,
  ◌++◌, arith, length, length-append,
}
use plasma.RawDb.Schema.{
  head_header_key, head_block_key, head_fast_block_key, fast_trie_progress_key, header_key,
  header_td_key, header_hash_key, header_number_key, block_body_key, block_receipts_key,
  tx_lookup_key, utxo_key,
}

-- the records that core/rawdb writes, by what their keys are made of
pub data Key : Type 0 where
  head_header head_block head_fast_block fast_trie_progress : Key
  header header_td body receipts : ℕ → Hash → Key
  header_hash : ℕ → Key
  header_number tx_lookup : Hash → Key
  utxo : ℕ → ℕ → ℕ → Key

abbrev pub encode : Key → Bytes
encode head_header = head_header_key
encode head_block = head_block_key
encode head_fast_block = head_fast_block_key
encode fast_trie_progress = fast_trie_progress_key
encode (header n h) = header_key n h
encode (header_td n h) = header_td_key n h
encode (body n h) = block_body_key n h
encode (receipts n h) = block_receipts_key n h
encode (header_hash n) = header_hash_key n
encode (header_number h) = header_number_key h
encode (tx_lookup h) = tx_lookup_key h
encode (utxo b t o) = utxo_key b t o

-- the parts fit in their machine words
abbrev pub KeyInRange : Key → Type 0
KeyInRange (header n h) = (n < 256 ^ 8) × (h < 256 ^ 32)
KeyInRange (header_td n h) = (n < 256 ^ 8) × (h < 256 ^ 32)
KeyInRange (body n h) = (n < 256 ^ 8) × (h < 256 ^ 32)
KeyInRange (receipts n h) = (n < 256 ^ 8) × (h < 256 ^ 32)
KeyInRange (header_hash n) = n < 256 ^ 8
KeyInRange (header_number h) = h < 256 ^ 32
KeyInRange (tx_lookup h) = h < 256 ^ 32
KeyInRange (utxo b t o) = (b < 256 ^ 8) × (t < 256 ^ 4) × (o < 256 ^ 1)
KeyInRange _ = Unit

-- The first byte and the length tell the families apart.
abbrev pub family : Key → ℕ × ℕ
family head_header = (b'L', 10)
family head_block = (b'L', 9)
family head_fast_block = (b'L', 8)
family fast_trie_progress = (b'T', 8)
family (header n h) = (b'h', 41)
family (header_td n h) = (b'h', 42)
family (body n h) = (b'b', 41)
family (receipts n h) = (b'r', 41)
family (header_hash n) = (b'h', 10)
family (header_number h) = (b'H', 33)
family (tx_lookup h) = (b'l', 33)
family (utxo b t o) = (b'c', 14)

abbrev first : Bytes → ℕ
first [] = 0
first (b ∷ bs) = b

append-injective {ℓ} :
    {A : Type ℓ} (xs ys : List A) {us vs : List A}
    → length xs ≡ length ys
    → xs ++ us ≡ ys ++ vs
    → (xs ≡ ys) × (us ≡ vs)
append-injective [] [] n e = (refl, e)
append-injective [] (y ∷ ys) n e = absurd (omega arith)
append-injective (x ∷ xs) [] n e = absurd (omega arith)
append-injective (x ∷ xs) (y ∷ ys) n e =
    let (p, q) = append-injective xs ys (omega arith) (ap tail e) in (cc p, q)

number_length : (n h : ℕ) → length (put_uint 8 n ++ put_uint 32 h) ≡ 40
number_length n h =
    omega (
      arith,
      length-append (put_uint 8 n) (put_uint 32 h),
      length-put_uint 8 n,
      length-put_uint 32 h,
    )

td_length : (n h : ℕ) → length (put_uint 8 n ++ put_uint 32 h ++ b't' ∷ []) ≡ 41
td_length n h =
    omega (arith, length-append (put_uint 8 n ++ put_uint 32 h) (b't' ∷ []), number_length n h)

hash_key_length : (n : ℕ) → length (put_uint 8 n ++ b'n' ∷ []) ≡ 9
hash_key_length n = omega (arith, length-append (put_uint 8 n) (b'n' ∷ []), length-put_uint 8 n)

utxo_length : (b t o : ℕ) → length (put_uint 8 b ++ (put_uint 4 t ++ put_uint 1 o)) ≡ 13
utxo_length b t o = omega (
  arith,
  length-append (put_uint 8 b) (put_uint 4 t ++ put_uint 1 o),
  length-append (put_uint 4 t) (put_uint 1 o),
  length-put_uint 8 b,
  length-put_uint 4 t,
  length-put_uint 1 o,
)

family-encode : (k : Key) → (first (encode k) ≡ (family k).0) × (length (encode k) ≡ (family k).1)
unfolding header_key header_td_key header_hash_key header_number_key block_body_key
    block_receipts_key tx_lookup_key utxo_key
family-encode head_header = (refl, refl)
family-encode head_block = (refl, refl)
family-encode head_fast_block = (refl, refl)
family-encode fast_trie_progress = (refl, refl)
family-encode (header n h) = (refl, omega (arith, number_length n h))
family-encode (header_td n h) = (refl, omega (arith, td_length n h))
family-encode (body n h) = (refl, omega (arith, number_length n h))
family-encode (receipts n h) = (refl, omega (arith, number_length n h))
family-encode (header_hash n) = (refl, omega (arith, hash_key_length n))
family-encode (header_number h) = (refl, omega (arith, length-put_uint 32 h))
family-encode (tx_lookup h) = (refl, omega (arith, length-put_uint 32 h))
family-encode (utxo b t o) = (refl, omega (arith, utxo_length b t o))

pub length-encode : (k : Key) → length (encode k) ≡ (family k).1
length-encode k = (family-encode k).1

same_family :
    (a b : Key)
    → encode a ≡ encode b
    → ((family a).0 ≡ (family b).0) × ((family a).1 ≡ (family b).1)
same_family a b e = (
  sym (family-encode a).0 ∙ ap first e ∙ (family-encode b).0,
  sym (family-encode a).1 ∙ ap length e ∙ (family-encode b).1,
)

numbers_injective :
    (n h m g : ℕ) (tl : Bytes)
    → (n < 256 ^ 8) × (h < 256 ^ 32)
    → (m < 256 ^ 8) × (g < 256 ^ 32)
    → put_uint 8 n ++ put_uint 32 h ++ tl ≡ put_uint 8 m ++ put_uint 32 g ++ tl
    → (n ≡ m) × (h ≡ g)
numbers_injective n h m g tl (hn, hh) (hm, hg) e =
    let (p, _) =
      append-injective (put_uint 8 n ++ put_uint 32 h) (put_uint 8 m ++ put_uint 32 g)
        (number_length n h ∙ sym (number_length m g)) e in
    let (q, r) =
      append-injective (put_uint 8 n) (put_uint 8 m)
        (length-put_uint 8 n ∙ sym (length-put_uint 8 m)) p in
    (put_uint-injective 8 n m hn hm q, put_uint-injective 32 h g hh hg r)

pair_injective :
    (n h m g : ℕ)
    → (n < 256 ^ 8) × (h < 256 ^ 32)
    → (m < 256 ^ 8) × (g < 256 ^ 32)
    → put_uint 8 n ++ put_uint 32 h ≡ put_uint 8 m ++ put_uint 32 g
    → (n ≡ m) × (h ≡ g)
pair_injective n h m g a b e = numbers_injective n h m g [] a b (ap (λ l. l ++ []) e)

utxo_injective :
    (b t o c u p : ℕ)
    → (b < 256 ^ 8) × (t < 256 ^ 4) × (o < 256 ^ 1)
    → (c < 256 ^ 8) × (u < 256 ^ 4) × (p < 256 ^ 1)
    → put_uint 8 b ++ (put_uint 4 t ++ put_uint 1 o)
      ≡ put_uint 8 c ++ (put_uint 4 u ++ put_uint 1 p)
    → (b ≡ c) × (t ≡ u) × (o ≡ p)
utxo_injective b t o c u p (hb, ht, ho) (hc, hu, hp) e =
    let (x, r) =
      append-injective (put_uint 8 b) (put_uint 8 c)
        (length-put_uint 8 b ∙ sym (length-put_uint 8 c)) e in
    let (y, z) =
      append-injective (put_uint 4 t) (put_uint 4 u)
        (length-put_uint 4 t ∙ sym (length-put_uint 4 u)) r in
    (
      put_uint-injective 8 b c hb hc x,
      put_uint-injective 4 t u ht hu y,
      put_uint-injective 1 o p ho hp z,
    )

-- Two records of core/rawdb, their numbers within their machine words, have one database key only
-- if they are the same record: neither two families nor two records of a family overlap.
pub encode-injective : (a b : Key) → KeyInRange a → KeyInRange b → encode a ≡ encode b → a ≡ b
unfolding header_key header_td_key header_hash_key header_number_key block_body_key
    block_receipts_key tx_lookup_key utxo_key
encode-injective head_header head_header ha hb e = refl
encode-injective head_block head_block ha hb e = refl
encode-injective head_fast_block head_fast_block ha hb e = refl
encode-injective fast_trie_progress fast_trie_progress ha hb e = refl
encode-injective (header n h) (header m g) ha hb e =
    let (p, q) = pair_injective n h m g ha hb (ap tail e) in cc
encode-injective (header_td n h) (header_td m g) ha hb e =
    let (p, q) = numbers_injective n h m g (b't' ∷ []) ha hb (ap tail e) in cc
encode-injective (body n h) (body m g) ha hb e =
    let (p, q) = pair_injective n h m g ha hb (ap tail e) in cc
encode-injective (receipts n h) (receipts m g) ha hb e =
    let (p, q) = pair_injective n h m g ha hb (ap tail e) in cc
encode-injective (header_hash n) (header_hash m) ha hb e = ap header_hash (
    put_uint-injective 8 n m ha hb
      (append-injective (put_uint 8 n) (put_uint 8 m)
        (length-put_uint 8 n ∙ sym (length-put_uint 8 m)) (ap tail e)).0)
encode-injective (header_number h) (header_number g) ha hb e =
    ap header_number (put_uint-injective 32 h g ha hb (ap tail e))
encode-injective (tx_lookup h) (tx_lookup g) ha hb e =
    ap tx_lookup (put_uint-injective 32 h g ha hb (ap tail e))
encode-injective (utxo b t o) (utxo c u p) ha hb e =
    let (x, y, z) = utxo_injective b t o c u p ha hb (ap tail e) in cc
encode-injective a b ha hb e = absurd (omega (arith, (same_family a b e).0, (same_family a b e).1))

-- Keys of different lengths are different,
pub length_apart :
    (a b : Key) → (family a).1 ≢ (family b).1 → bytes_equal (encode a) (encode b) ≡ false
length_apart a b ne = bytes_equal_ne (encode a) (encode b) (λ e. ne (same_family a b e).1)

-- and so are the keys of headers, and of hashes, at different numbers.
pub header_keys_apart :
    (n m : ℕ) (h g : Hash)
    → n < 256 ^ 8
    → m < 256 ^ 8
    → n ≢ m
    → bytes_equal (header_key n h) (header_key m g) ≡ false
unfolding header_key
header_keys_apart n m h g hn hm ne = bytes_equal_ne _ _ (λ e. ne (
    put_uint-injective 8 n m hn hm
      (append-injective (put_uint 8 n) (put_uint 8 m)
        (length-put_uint 8 n ∙ sym (length-put_uint 8 m)) (ap tail e)).0))

pub hash_keys_apart :
    (n m : ℕ)
    → n < 256 ^ 8
    → m < 256 ^ 8
    → n ≢ m
    → bytes_equal (header_hash_key n) (header_hash_key m) ≡ false
unfolding header_hash_key
hash_keys_apart n m hn hm ne = bytes_equal_ne _ _ (λ e. ne (
    put_uint-injective 8 n m hn hm
      (append-injective (put_uint 8 n) (put_uint 8 m)
        (length-put_uint 8 n ∙ sym (length-put_uint 8 m)) (ap tail e)).0))
