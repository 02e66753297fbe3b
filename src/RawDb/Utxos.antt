-- ===== src/RawDb/Utxos.antt =====
-- The unspent outputs in the database are a finite map.
use mathlib.Core.Bool.{false≢true}
use native.Mathlib.Nat.{mod-eq_of_lt}
use plasma.Bytes.{set_bytes, Bytes, big_bytes, put_uint, Address, bytes_to_address}
use plasma.Bytes.RoundTrip.{set_bytes-big_bytes, set_bytes-put_uint, length-put_uint}
use plasma.Prelude.{
  ◌∙◌, sym, bytes_equal_ne, bytes_equal, inr, bytes_equal_refl, inl, Bool-cases, ◌%◌, ap,
  if◌then◌else◌, none, ltb, arith, false, ◌==◌, length, List, drop-append, drop, take-append, subst,
  ◌++◌, take, length-append, some, ◌^◌, ◌<◌, ℕ, ◌≡◌, Option, refl,
}
use plasma.Prelude.Int.{pos}
use plasma.Prelude.Outcome.{ok, Outcome}
use plasma.RawDb.Accessors.{
  write_utxo, read_bytes, delete_utxo, read_utxo, bytes_or_nil, encode_utxo, decode_utxo,
}
use plasma.RawDb.Schema.{utxo_key}
use plasma.RawDb.Schema.Injective.{encode-injective, Key}
use plasma.Store.{put, delete, after_write, Database, Write}
use plasma.Store.Laws.{IsStore, View}
use plasma.Types.Utxo.{id_equals_refl, id_equals→eq, id_equals, Utxo, InRange, UtxoId}

-- What `WriteUTXO` stores of an owner and an amount, `ReadUTXO` reads back.
pub decode_utxo-encode_utxo :
    (id : UtxoId) (owner : Address) (n : ℕ)
    → owner < 256 ^ 20
    → decode_utxo id (encode_utxo owner n)
      ≡ ok (some (record { id = id; out = record { owner = owner; amount = some (pos n) } }))
unfolding decode_utxo encode_utxo bytes_to_address
decode_utxo-encode_utxo id owner n h =
    let len = length-append (put_uint 20 owner) (big_bytes n) in
    let t : take 20 (put_uint 20 owner ++ big_bytes n) ≡ put_uint 20 owner =
      subst (λ k. take k (put_uint 20 owner ++ big_bytes n) ≡ put_uint 20 owner)
        (length-put_uint 20 owner) (take-append (put_uint 20 owner) (big_bytes n)) in
    let r : drop 20 (put_uint 20 owner ++ big_bytes n) ≡ big_bytes n =
      subst (λ k. drop k (put_uint 20 owner ++ big_bytes n) ≡ big_bytes n)
        (length-put_uint 20 owner) (drop-append (put_uint 20 owner) (big_bytes n)) in
    let b : set_bytes (put_uint 20 owner) % 256 ^ 20 ≡ owner =
      rw (set_bytes-put_uint 20 owner h) (mod-eq_of_lt h) in
    let l20 = length-put_uint 20 owner in
    let z : (length (put_uint 20 owner ++ big_bytes n) == 0) ≡ false = ground (arith, len, l20) in
    let y : ltb (length (put_uint 20 owner ++ big_bytes n)) 20 ≡ false = ground (arith, len, l20) in
    rw (z, y, t, r, b, set_bytes-big_bytes n)

-- the reads of a view
abbrev pub utxo_at : View → UtxoId → Outcome (Option Utxo)
utxo_at view id =
    decode_utxo id (bytes_or_nil (view (utxo_key id.block_num id.tx_index id.out_index)))

utxo_key-injective :
    (a b : UtxoId)
    → InRange a
    → InRange b
    → utxo_key a.block_num a.tx_index a.out_index ≡ utxo_key b.block_num b.tx_index b.out_index
    → a ≡ b
utxo_key-injective a b ha hb e = cc (
    encode-injective (Key.utxo a.block_num a.tx_index a.out_index)
      (Key.utxo b.block_num b.tx_index b.out_index) ha hb e)

abbrev key_of : UtxoId → Bytes
key_of id = utxo_key id.block_num id.tx_index id.out_index

-- a write at one identity seen from another
utxo_at-put :
    (view : View) (u : Utxo) (n : ℕ) (j : UtxoId)
    → InRange u.id
    → InRange j
    → u.out.owner < 256 ^ 20
    → u.out.amount ≡ some (pos n)
    → utxo_at (λ i. after_write (put (key_of u.id) (encode_utxo u.out.owner n)) i (view i)) j
      ≡ (if id_equals u.id j then ok (some u) else utxo_at view j)
utxo_at-put view u n j hu hj ho ha = elim (Bool-cases (id_equals u.id j)) [
  | inl e ↦
      let i = id_equals→eq u.id j e in
      rw (e, ← i, bytes_equal_refl (key_of u.id), decode_utxo-encode_utxo u.id u.out.owner n ho) cc
  | inr e ↦
      let ne : bytes_equal (key_of u.id) (key_of j) ≡ false =
        bytes_equal_ne (key_of u.id) (key_of j) (λ k.
          let i = utxo_key-injective u.id j hu hj k in
          false≢true (sym e ∙ rw i (id_equals_refl j))) in
      rw (e, ne)
]

utxo_at-delete :
    (view : View) (id j : UtxoId)
    → InRange id
    → InRange j
    → utxo_at (λ i. after_write (delete (key_of id)) i (view i)) j
      ≡ (if id_equals id j then ok none else utxo_at view j)
utxo_at-delete view id j hi hj = elim (Bool-cases (id_equals id j)) [
  | inl e ↦
      let i = id_equals→eq id j e in
      rw (e, ← i, bytes_equal_refl (key_of id)) (unfold decode_utxo in refl)
  | inr e ↦
      let ne : bytes_equal (key_of id) (key_of j) ≡ false =
        bytes_equal_ne (key_of id) (key_of j) (λ k.
          let i = utxo_key-injective id j hi hj k in
          false≢true (sym e ∙ rw i (id_equals_refl j))) in
      rw (e, ne)
]

module _ {S : Type 0} {Models : S → View → Option (List Write) → Type 0} (d : Database S)
    (store : IsStore d Models) where
  pub read_utxo-view :
      {s : S} {view : View} {p : Option (List Write)} (id : UtxoId)
      → Models s view p
      → read_utxo d id s ≡ utxo_at view id
  unfolding read_utxo read_bytes
  read_utxo-view id m = rw (store.reads m)

  -- Outside a transaction, after `WriteUTXO` of an output with an amount of zero or more, its
  -- identity reads back that output and every other identity what it read before, if the owner and
  -- the identities fit in their machine words and the write returned no error.
  pub read_utxo-write_utxo :
      {s : S} {view : View} (u : Utxo) (n : ℕ) (j : UtxoId) (s' : S)
      → Models s view none
      → InRange u.id
      → InRange j
      → u.out.owner < 256 ^ 20
      → u.out.amount ≡ some (pos n)
      → write_utxo d u s ≡ ok (none, s')
      → read_utxo d j s' ≡ (if id_equals u.id j then ok (some u) else read_utxo d j s)
  read_utxo-write_utxo {s} {view} u n j s' m hu hj ho ha w =
      let e : write_utxo d u s ≡ ok (d.put (key_of u.id) (encode_utxo u.out.owner n) s) =
        unfold write_utxo in rw ha in
      let p : d.put (key_of u.id) (encode_utxo u.out.owner n) s ≡ (none, s') = cc in
      let after = store.put_closed (key_of u.id) (encode_utxo u.out.owner n) m (ap (λ r. r.0) p) in
      rw (read_utxo-view j m, read_utxo-view j (rw p at after)) (utxo_at-put view u n j hu hj ho ha)

  -- After `DeleteUTXO` that identity is not found, and every other reads as before.
  pub read_utxo-delete_utxo :
      {s : S} {view : View} (id j : UtxoId)
      → Models s view none
      → InRange id
      → InRange j
      → (delete_utxo d id s).0 ≡ none
      → read_utxo d j (delete_utxo d id s).1 ≡ (if id_equals id j then ok none else read_utxo d j s)
  read_utxo-delete_utxo {s} {view} id j m hi hj w =
      let after : Models (delete_utxo d id s).1 (λ i. after_write (delete (key_of id)) i (view i))
          none =
        unfold delete_utxo in store.delete_closed (key_of id) m w in
      rw (read_utxo-view j m, read_utxo-view j after) (utxo_at-delete view id j hi hj)
