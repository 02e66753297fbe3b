-- ===== src/Tests/Headers.antt =====
-- The theorems on header writes, bloom filters and the recovery of senders at concrete inputs: a
-- database that holds the header of number 1, a filter of no values, and five transactions.
use Prim.Native.Nat.{bit_or}
use mathlib.Core.List.{Perm}
use plasma.Bytes.{big_bytes, Bytes, Hash}
use plasma.HeaderChain.{HeaderChain}
use plasma.HeaderChain.Write.{write_chain_header}
use plasma.HeaderChain.Write.Extends.{Extended, write_chain_header-Extended}
use plasma.HeaderChain.Write.Lookups.{IsLru, Coherent}
use plasma.Prelude.{
  ℕ, ◌%◌, ◌≡◌, ◌≢◌, refl, sym, ap, ◌∙◌, inl, inr, true, false, Option, none, some, List, [], ◌∷◌,
  arith, if◌then◌else◌, bytes_equal, bytes_equal_refl, Bool-cases, All,
}
use plasma.Prelude.Int.{◌-ℤ◌}
use plasma.Prelude.Outcome.{ok, panic}
use plasma.RawDb.Accessors.{read_header, read_bytes, read_canonical_hash}
use plasma.RawDb.Schema.{header_hash_key, header_key}
use plasma.RawDb.Schema.Injective.{length_apart, Key}
use plasma.SenderCacher.{recover, cache}
use plasma.SenderCacher.Shares.{recover-serves_each, NoPanic}
use plasma.Signing.{sender, recover_one, recover_plain, derive_chain_id}
use plasma.Store.Laws.{View}
use plasma.Store.LevelDb.{ldb_get, ldb_database}
use plasma.Tests.{libraries, header_at, file_db, FileState, no_header_cache, payment, sum}
use plasma.Tests.Files.{file_store, file_puts}
use plasma.Tests.Network.{small_signer}
use plasma.Types.Block.{Header, header_number}
use plasma.Types.Bloom.{Bloom, zero_bloom, bloom_add, bloom_big, bloom_test, bloom9}
use plasma.Types.Bloom.NoMisses.{
  IsBloom, zero_bloom-IsBloom, bloom_add-Adds, bloom_test-add_each, add_each,
}
use plasma.Types.External.{External, header_hash}
use plasma.Types.Transaction.{Transaction}
use mathlib.Core.List.Perm

abbrev small_hash : Bytes → Hash
small_hash b = sum b % 256

bloom_add-Adds_example :
    (after : Bloom) × (bloom_add small_hash 700 zero_bloom ≡ ok after)
    × IsBloom after
    × (bloom_big after ≡ bit_or (bloom_big zero_bloom) (bloom9 small_hash (big_bytes 700)))
bloom_add-Adds_example = bloom_add-Adds small_hash 700 zero_bloom zero_bloom-IsBloom

bloom_test-add_each_example :
    (after : Bloom) × (add_each small_hash (700 ∷ 3 ∷ []) zero_bloom ≡ ok after)
    × IsBloom after
    × All (λ d. bloom_test small_hash after d ≡ true) (700 ∷ 3 ∷ [])
    × ((value : ℕ)
        → bloom_test small_hash zero_bloom value ≡ true
        → bloom_test small_hash after value ≡ true)
bloom_test-add_each_example =
    bloom_test-add_each small_hash (700 ∷ 3 ∷ []) zero_bloom zero_bloom-IsBloom

-- signed twice, on chain 1
abbrev signed_payment : Transaction
signed_payment = record payment {
  sigs = (some (record { v = 37; r = 1; s = 1 }), some (record { v = 37; r = 1; s = 1 }));
}

abbrev five_payments : List Transaction
five_payments =
    signed_payment ∷ signed_payment ∷ signed_payment ∷ signed_payment ∷ signed_payment ∷ []

signed_payment-sender : sender small_signer 1 signed_payment ≡ ok (9, 9)
unfolding sender recover_one recover_plain derive_chain_id ◌-ℤ◌
signed_payment-sender = refl

ok-ne-panic : {A : Type 0} (a : A) → ok a ≢ panic
ok-ne-panic a e = absurd (cc e)

signed_payment-NoPanic : NoPanic (sender small_signer 1) signed_payment
signed_payment-NoPanic e = ok-ne-panic (9, 9) (sym signed_payment-sender ∙ e)

recover-serves_each_example :
    (called : List Transaction) × (cache (sender small_signer 1) (recover 2 five_payments)
      ≡ ok called)
    × Perm called five_payments
recover-serves_each_example =
    let once = signed_payment-NoPanic in
    recover-serves_each (sender small_signer 1) 2 five_payments (recover 2 five_payments)
      (omega arith) (once, (once, (once, (once, (once, tt))))) (Perm.refl (recover 2 five_payments))

-- the encoding of the tests, read back
abbrev decode_linked : Bytes → Option Header
decode_linked (n ∷ t ∷ p ∷ r ∷ []) =
    some (record { parent_hash = p; coinbase = 0; tx_hash = r; number = n; time = t; extra = [] })
decode_linked other = none

abbrev linked_codec : External
linked_codec = record libraries { decode_header = decode_linked }

-- the header of number 1 has the hash 2, and is not canonical
abbrev one_header : View
one_header j = if bytes_equal (header_key 1 2) j then some (1 ∷ 0 ∷ 0 ∷ 1 ∷ []) else none

abbrev one_header_state : FileState
one_header_state = record { db = one_header; default_batch = []; in_tx = false }

abbrev one_header_chain : HeaderChain FileState (Unit {0})
one_header_chain = record {
  chain_db = one_header_state;
  caches = tt;
  current_header = header_at 0;
  current_header_hash = 0;
}

abbrev second_header : Header
second_header = record (header_at 2) { parent_hash = 2 }

abbrev IsNever : Unit {0} → Hash → Header → Type 0
IsNever c h v = ⊥

no_header_cache-IsLru : IsLru no_header_cache IsNever
no_header_cache-IsLru = record {
  hit = λ h c v e. cc;
  kept = λ h k c v has. has;
  added = λ h k w v c has. inr has;
}

read_one :
    (k : Hash) (m : ℕ)
    → read_header (ldb_database file_db) linked_codec k m one_header_state
      ≡ (if bytes_equal (header_key 1 2) (header_key m k) then some (header_at 1) else none)
unfolding read_header read_bytes ldb_database ldb_get
read_one k m = elim (Bool-cases (bytes_equal (header_key 1 2) (header_key m k))) [
  | inl same ↦ rw same refl
  | inr other ↦ rw other refl
]

only_one :
    (k : Hash) (m : ℕ) (h : Header)
    → read_header (ldb_database file_db) linked_codec k m one_header_state ≡ some h
    → h ≡ header_at 1
only_one k m h e = elim (Bool-cases (bytes_equal (header_key 1 2) (header_key m k))) [
  | inl same ↦ cc (read_one k m, ap (λ b. if b then some (header_at 1) else none) same)
  | inr other ↦ cc (
    read_one k m,
    ap (λ b. let r : Option Header = if b then some (header_at 1) else none in r) other,
  )
]

one_header-Coherent :
    Coherent
      (ldb_database file_db)
      linked_codec
      no_header_cache
      no_header_cache-IsLru
      1
      one_header_state
      tt
one_header-Coherent = record {
  cached = λ k v h m has le e. absurd has;
  unique = λ k h g m j le le' e e'. only_one k m h e ∙ sym (only_one k j g e');
}

-- no number is canonical
no_canonical : (n : ℕ) → read_canonical_hash (ldb_database file_db) n one_header_state ≡ 0
unfolding read_canonical_hash read_bytes ldb_database ldb_get
no_canonical n =
    let apart : bytes_equal (header_key 1 2) (header_hash_key n) ≡ false =
      length_apart (Key.header 1 2) (Key.header_hash n) (λ e. omega (arith, e)) in
    rw apart refl

write_chain_header-Extended_example :
    (hc' : HeaderChain FileState (Unit {0})) × (write_chain_header
        (ldb_database file_db)
        no_header_cache
        linked_codec
        2
        second_header
        one_header_chain
      ≡ some (ok hc'))
    × Extended (ldb_database file_db) linked_codec 1 second_header one_header_chain hc'
write_chain_header-Extended_example =
    write_chain_header-Extended (ldb_database file_db) file_store file_puts linked_codec
      no_header_cache no_header_cache-IsLru 1 second_header (unfold header_number in refl)
      (omega arith) 2 one_header_chain (omega arith) (unfold header_hash in omega arith)
      (one_header, record { shown = λ j. refl; waiting = (refl, refl) }) one_header-Coherent refl
      (λ e. cc)
      (inr (
        header_at 1,
        λ e. omega (arith, e, no_canonical 1),
        omega arith,
        read_one 2 1 ∙ rw (bytes_equal_refl (header_key 1 2)) refl,
        unfold header_number in refl,
        no_canonical 0,
      ))
