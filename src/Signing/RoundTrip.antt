-- ===== src/Signing/RoundTrip.antt =====
-- `Sender` gives back the addresses of the keys that `SignTx` signed with, on the same chain only.
use plasma.Bytes.{set_bytes_from, set_bytes, Address, put_uint, Hash, Bytes}
use plasma.Bytes.RoundTrip.{set_bytes-put_uint, length-put_uint}
use plasma.Prelude.{
  append_assoc, ==_ne, take-append, drop-append, ℕ, zero, suc, ◌+◌, ◌*◌, ◌%◌, ◌^◌, ◌≤◌, ◌<◌, ◌≡◌,
  refl, sym, ap, ◌∙◌, subst, ◌≢◌, true, false, ◌&&◌, some, [], ◌∷◌, ◌++◌, arith, ltb, ◌==◌, ==_iff,
  length, take, drop, length-append,
}
use plasma.Prelude.Int.{int_laws, ◌-ℤ◌, pos}
use plasma.Prelude.Outcome.{ok-injective, invalid_chain_id, ok, err}
use plasma.Signing.{
  copied, with_signature, signed_hash, recovery_byte, sign_tx, sender, recover_plain, recover_one,
  eip155_values, derive_chain_id, signature_values, Signer, last_byte, address_of_key, sign_second,
}
use plasma.Types.Transaction.{Transaction, Sig}

-- `put_uint 32 r`, `put_uint 32 s` and a last byte
abbrev pub layout : ℕ → ℕ → ℕ → Bytes
layout r s v = put_uint 32 r ++ (put_uint 32 s ++ v ∷ [])

module _ {K : Type 0} (c : Signer K) where
  -- What the curve library documents of a key whose address is `address`: `Sign` gives R, S and
  -- a recovery bit in 65 bytes, the values are valid, and `Ecrecover` of them gives the
  -- uncompressed public key.
  pub record Signs (hash : Hash) (key : K) (address : Address) : Type 0 where
    pub r : ℕ
    pub s : ℕ
    pub v : ℕ
    pub r_fits : r < 256 ^ 32
    pub s_fits : s < 256 ^ 32
    pub bit : v ≤ 1
    pub signed : c.crypto_sign hash key ≡ ok (layout r s v)
    pub valid : c.libraries.valid_signature v r s ≡ true
    pub public_key : Bytes
    pub recovered : c.libraries.ecrecover hash (layout r s v) ≡ ok (4 ∷ public_key)
    pub addressed : c.libraries.keccak public_key % 2 ^ 160 ≡ address

take-put_uint : (w n : ℕ) (ys : Bytes) → take w (put_uint w n ++ ys) ≡ put_uint w n
take-put_uint w n ys =
    subst (λ k. take k (put_uint w n ++ ys) ≡ put_uint w n) (length-put_uint w n)
      (take-append (put_uint w n) ys)

drop-put_uint : (w n : ℕ) (ys : Bytes) → drop w (put_uint w n ++ ys) ≡ ys
drop-put_uint w n ys =
    subst (λ k. drop k (put_uint w n ++ ys) ≡ ys) (length-put_uint w n)
      (drop-append (put_uint w n) ys)

drop-nil : (n : ℕ) → drop n [] ≡ (let none_left : Bytes = [] in none_left)
drop-nil zero = refl
drop-nil (suc n) = refl

drop-drop : (m n : ℕ) (xs : Bytes) → drop m (drop n xs) ≡ drop (n + m) xs
drop-drop m zero xs = let e : m ≡ 0 + m = omega arith in ap (λ k. drop k xs) e
drop-drop m (suc n) [] = drop-nil m ∙ sym (drop-nil (suc n + m))
drop-drop m (suc n) (x ∷ xs) =
    let e : suc (n + m) ≡ suc n + m = omega arith in drop-drop m n xs ∙ ap (λ k. drop k (x ∷ xs)) e

-- `SignatureValues` reads the three numbers back.
pub signature_values-layout :
    (r s v : ℕ)
    → r < 256 ^ 32
    → s < 256 ^ 32
    → v ≤ 1
    → (signature_values (layout r s v) ≡ ok (record { v = v + 27; r = r; s = s }))
      × (last_byte (layout r s v) ≡ v)
unfolding signature_values
signature_values-layout r s v hr hs hv =
    let n : length (layout r s v) ≡ 65 =
      length-append (put_uint 32 r) (put_uint 32 s ++ v ∷ [])
      ∙ ap (λ k. k + length (put_uint 32 s ++ v ∷ [])) (length-put_uint 32 r)
      ∙ ap (λ k. 32 + k)
          (length-append (put_uint 32 s) (v ∷ []) ∙ ap (λ k. k + 1) (length-put_uint 32 s)) in
    let a : take 32 (layout r s v) ≡ put_uint 32 r = take-put_uint 32 r _ in
    let d : drop 32 (layout r s v) ≡ put_uint 32 s ++ v ∷ [] = drop-put_uint 32 r _ in
    let b : take 32 (drop 32 (layout r s v)) ≡ put_uint 32 s =
      ap (take 32) d ∙ take-put_uint 32 s _ in
    let z : drop 64 (layout r s v) ≡ v ∷ [] =
      sym (drop-drop 32 32 (layout r s v)) ∙ ap (drop 32) d ∙ drop-put_uint 32 s _ in
    let last : last_byte (layout r s v) ≡ v =
      ap set_bytes z ∙ (unfold set_bytes set_bytes_from in omega arith) in
    let e : (last_byte (layout r s v) + 27) % 256 ≡ v + 27 = omega (arith, last, hv) in
    (rw (n, a, b, e, set_bytes-put_uint 32 r hr, set_bytes-put_uint 32 s hs), last)

-- the two ways to read a chain identifier agree with how it was written
derive_chain_id-of :
    (chain v : ℕ) → 1 ≤ chain → v ≤ 1 → derive_chain_id (v + 35 + chain * 2) ≡ chain
unfolding derive_chain_id
derive_chain_id-of chain v h b = ground (arith, h, b)

module _ {K : Type 0} (c : Signer K) where
  -- `Sign`, then the values that the signer of a chain makes of it
  signed_values : ℕ → {hash : Hash} {key : K} {a : Address} → Signs c hash key a → Sig
  signed_values chain k = record { v = k.v + 35 + chain * 2; r = k.r; s = k.s }

  eip155_values-Signs :
      (chain : ℕ) {hash : Hash} {key : K} {a : Address} (k : Signs c hash key a)
      → 1 ≤ chain
      → eip155_values chain (layout k.r k.s k.v) ≡ ok (signed_values chain k)
  unfolding eip155_values signed_values
  eip155_values-Signs chain k h =
      let (p, last) = signature_values-layout k.r k.s k.v k.r_fits k.s_fits k.bit in
      let z : (chain == 0) ≡ false = ground arith in
      let e : (last_byte (layout k.r k.s k.v) + 35) % 256 ≡ k.v + 35 = omega (arith, last, k.bit) in
      rw (p, z, e)

  recover_plain-Signs :
      {hash : Hash} {key : K} {a : Address} (k : Signs c hash key a)
      → recover_plain c hash k.r k.s (pos (k.v + 27)) ≡ ok a
  unfolding recover_plain address_of_key copied
  recover_plain-Signs {hash} {key} {a} k =
      let b : recovery_byte (pos (k.v + 27)) ≡ k.v = omega (arith, k.bit) in
      let small : ltb 255 (k.v + 27) ≡ false = ground (arith, k.bit) in
      let fits : (ltb k.r (2 ^ 256) && ltb k.s (2 ^ 512)) ≡ true =
        ground (arith, k.r_fits, k.s_fits) in
      let half : ltb k.s (2 ^ 256) ≡ true = ground (arith, k.s_fits) in
      let joined = append_assoc (put_uint 32 k.r) (put_uint 32 k.s) (k.v ∷ []) in
      rw (small, b, k.valid, fits, half, joined, k.recovered) (ap ok k.addressed)

  recover_one-Signs :
      (chain : ℕ) {hash : Hash} {key : K} {a : Address} (k : Signs c hash key a)
      → 1 ≤ chain
      → recover_one c chain hash (some (signed_values chain k)) ≡ ok a
  unfolding recover_one signed_values
  recover_one-Signs chain k h =
      let e : (derive_chain_id (k.v + 35 + chain * 2) == chain) ≡ true =
        (==_iff _ _).1 (derive_chain_id-of chain k.v h k.bit) in
      let n : pos (k.v + 35 + chain * 2) -ℤ pos (chain * 2) -ℤ pos 8 ≡ pos (k.v + 27) =
        omega int_laws in
      rw (e, n) (recover_plain-Signs k)

  recover_one-other_chain :
      (chain other : ℕ) (h' : Hash) {hash : Hash} {key : K} {a : Address} (k : Signs c hash key a)
      → 1 ≤ chain
      → chain ≢ other
      → recover_one c other h' (some (signed_values chain k)) ≡ err invalid_chain_id
  unfolding recover_one signed_values
  recover_one-other_chain chain other h' k h ne =
      rw (derive_chain_id-of chain k.v h k.bit, ==_ne chain other ne)

  -- the transaction that `SignTx` returns
  signed_tx :
      (chain : ℕ) (tx : Transaction) {hash : Hash} {key1 key2 : K} {a1 a2 : Address}
      → Signs c hash key1 a1
      → Signs c hash key2 a2
      → Transaction
  signed_tx chain tx s1 s2 = record tx {
    sigs = (some (signed_values chain s1), some (signed_values chain s2));
  }

  sign_tx-eq-signed_tx :
      (chain : ℕ) (tx : Transaction) (key1 key2 : K) {a1 a2 : Address}
      (s1 : Signs c (signed_hash c chain tx) key1 a1)
      (s2 : Signs c (signed_hash c chain tx) key2 a2)
      → 1 ≤ chain
      → sign_tx c chain tx key1 (some key2) ≡ ok (signed_tx chain tx s1 s2)
  unfolding sign_tx sign_second with_signature signed_tx
  sign_tx-eq-signed_tx chain tx key1 key2 s1 s2 h =
      rw (s1.signed, s2.signed, eip155_values-Signs chain s1 h, eip155_values-Signs chain s2 h)

  -- On a chain whose identifier is not zero, `SignTx` with two keys that sign gives a transaction,
  -- with the same inputs, outputs and fee, from which `Sender` gives the addresses of the two keys.
  pub sender-sign_tx :
      (chain : ℕ) (tx : Transaction) (key1 key2 : K) {a1 a2 : Address}
      → Signs c (signed_hash c chain tx) key1 a1
      → Signs c (signed_hash c chain tx) key2 a2
      → 1 ≤ chain
      → (t : Transaction) × (sign_tx c chain tx key1 (some key2) ≡ ok t)
        × (sender c chain t ≡ ok (a1, a2))
        × ((t.ins ≡ tx.ins) × (t.outs ≡ tx.outs) × (t.fee ≡ tx.fee))
  unfolding sender signed_hash signed_tx
  sender-sign_tx chain tx key1 key2 {a1} {a2} s1 s2 h = (
    signed_tx chain tx s1 s2,
    sign_tx-eq-signed_tx chain tx key1 key2 s1 s2 h,
    rw (recover_one-Signs chain s1 h, recover_one-Signs chain s2 h),
    (refl, refl, refl),
  )

  -- A transaction that was signed for a chain, its identifier not zero, is refused by the signer of
  -- every other chain.
  pub sender-other_chain :
      (chain other : ℕ) (tx t : Transaction) (key1 key2 : K) {a1 a2 : Address}
      → Signs c (signed_hash c chain tx) key1 a1
      → Signs c (signed_hash c chain tx) key2 a2
      → 1 ≤ chain
      → chain ≢ other
      → sign_tx c chain tx key1 (some key2) ≡ ok t
      → sender c other t ≡ err invalid_chain_id
  unfolding sender signed_tx
  sender-other_chain chain other tx t key1 key2 s1 s2 h ne e =
      let same : signed_tx chain tx s1 s2 ≡ t =
        ok-injective (sym (sign_tx-eq-signed_tx chain tx key1 key2 s1 s2 h) ∙ e) in
      subst (λ u. sender c other u ≡ err invalid_chain_id) same
        (rw (recover_one-other_chain chain other _ s1 h ne))
