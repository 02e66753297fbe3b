-- ===== src/Types/Bloom/NoMisses.antt =====
-- core/types/bloom9.go: `Add` never panics and keeps the filter's size, and a value that was added
-- is never missed afterwards.
use Prim.Native.Nat.{bit_or}
use native.Mathlib.Nat.{pow-le-pow_right, pow-suc, one-le-pow}
use plasma.Bytes.{big_bytes, set_bytes, Bytes, Hash, put_uint}
use plasma.Bytes.RoundTrip.{length-put_uint}
use plasma.Prelude.{
  inl, inr, All-append, ==_iff, ◌++◌, true, length-take, ◌-◌, false, All, take, ltb, length-append,
  List, ◌∙◌, ap, sym, subst, refl, ℕ, zero, suc, ◌^◌, ◌≤◌, ◌<◌, ◌≡◌, [], ◌∷◌, arith, length,
}
use plasma.Prelude.Outcome.{◌>>=◌, Outcome, ok}
use plasma.Types.Bloom.{
  bloom_lookup, zero_bloom, bloom_test, bloom_set_bytes, bloom_big, bloom_add, Bloom, bloom9,
  bloom_bits, bloom_bit,
}
use plasma.Types.Bloom.Bits.{Covers-refl, Covers-bit_or, le-bit_or, bit_or-lt}
use plasma.Types.Bloom.Words.{
  big_bytes-AreBytes, put_uint-AreBytes, take-AreBytes, set_bytes-overwrite, length-big_bytes,
  set_bytes-lt, AreBytes,
}

-- 256 bytes
abbrev pub IsBloom : Bloom → Type 0
IsBloom b = (length b ≡ 256) × AreBytes b

pow-lt : (i k : ℕ) → i < k → 2 ^ i < 2 ^ k
pow-lt i k h =
    omega
      (arith, pow-le-pow_right {n = 2} (omega arith) h, pow-suc 2 i, one-le-pow i 2 (omega arith))

bloom_bits-lt :
    (k rounds : ℕ) (bytes : Bytes) (r : ℕ)
    → 2048 ≤ k
    → r < 2 ^ k
    → bloom_bits rounds bytes r < 2 ^ k
unfolding bloom_bits bloom_bit
bloom_bits-lt k zero bytes r h p = p
bloom_bits-lt k (suc rounds) [] r h p = p
bloom_bits-lt k (suc rounds) (b0 ∷ []) r h p = p
bloom_bits-lt k (suc rounds) (b0 ∷ b1 ∷ bytes) r h p =
    bloom_bits-lt k rounds bytes (bit_or r (2 ^ bloom_bit b0 b1)) h
      (bit_or-lt k r (2 ^ bloom_bit b0 b1) p (pow-lt (bloom_bit b0 b1) k (omega arith)))

leb→not_ltb : (a b : ℕ) → b ≤ a → ltb a b ≡ false
leb→not_ltb a b h = ground arith

module _ (keccak : Bytes → Hash) where
  bloom9-lt : (b : Bytes) (k : ℕ) → 2048 ≤ k → bloom9 keccak b < 2 ^ k
  unfolding bloom9
  bloom9-lt b k h = bloom_bits-lt k 3 (put_uint 32 (keccak b)) 0 h (one-le-pow k 2 (omega arith))

  module _ (d : ℕ) (b : Bloom) (size : IsBloom b) where
    added : ℕ
    added = bit_or (set_bytes b) (bloom9 keccak (big_bytes d))

    byte_powers : 256 ^ 256 ≡ 2 ^ 2048
    byte_powers = refl

    -- The old bits and the new ones fit in the bytes that there are.
    added-lt : added < 256 ^ 256
    unfolding added
    added-lt =
        subst (λ limit. added < limit) (sym byte_powers)
          (bit_or-lt 2048 (set_bytes b) (bloom9 keccak (big_bytes d))
            (subst (λ limit. set_bytes b < limit) (ap (λ l. 256 ^ l) size.0 ∙ byte_powers)
              (set_bytes-lt b size.1))
            (bloom9-lt (big_bytes d) 2048 (omega arith)))

    fits : length (big_bytes added) ≤ 256
    fits = length-big_bytes 256 added added-lt

    result : Bloom
    result = take (256 - length (big_bytes added)) b ++ big_bytes added

    result-IsBloom : IsBloom result
    unfolding result
    result-IsBloom = (
      omega (
        arith,
        length-append (take (256 - length (big_bytes added)) b) (big_bytes added),
        length-take (256 - length (big_bytes added)) b,
        fits,
        size.0,
      ),
      All-append (λ byte. byte < 256) (take (256 - length (big_bytes added)) b) (big_bytes added)
          (take-AreBytes (256 - length (big_bytes added)) b size.1) (big_bytes-AreBytes added),
    )

    bloom_add-eq : bloom_add keccak d b ≡ ok result
    unfolding bloom_add bloom_set_bytes result added
    bloom_add-eq = rw (leb→not_ltb 256 (length (big_bytes added)) fits) refl

    -- Add, on a filter of 256 bytes, does not panic and gives a filter of 256 bytes, whose bits are
    -- those of the old one and those of the value.
    pub bloom_add-Adds :
        (after : Bloom) × (bloom_add keccak d b ≡ ok after)
        × IsBloom after
        × (bloom_big after ≡ bit_or (bloom_big b) (bloom9 keccak (big_bytes d)))
    unfolding bloom_big
    bloom_add-Adds = (
      result,
      bloom_add-eq,
      result-IsBloom,
      unfold result added in
          set_bytes-overwrite 256 added b size.0 added-lt
            (le-bit_or (set_bytes b) (bloom9 keccak (big_bytes d))),
    )

  -- Test after Add: the value itself, and whatever was found before
  bloom_test-bloom_add :
      (d : ℕ) (b : Bloom)
      → IsBloom b
      → (after : Bloom) × (bloom_add keccak d b ≡ ok after)
        × IsBloom after
        × (bloom_test keccak after d ≡ true)
        × ((value : ℕ) → bloom_test keccak b value ≡ true → bloom_test keccak after value ≡ true)
  unfolding bloom_test bloom_lookup
  bloom_test-bloom_add d b size =
      let adds = bloom_add-Adds d b size in
      let own = bloom9 keccak (big_bytes d) in
      (
        adds.0,
        adds.1,
        adds.2,
        rw adds.3 ((==_iff _ _).1 (Covers-bit_or (bloom_big b) own own (inr (Covers-refl own)))),
        λ value found. rw adds.3 (
            (==_iff _ _).1 (
              Covers-bit_or (bloom_big b) own (bloom9 keccak (big_bytes value))
                (inl ((==_iff _ _).0 found)))),
      )

  -- `Add` of each value, in order
  abbrev pub add_each : List ℕ → Bloom → Outcome Bloom
  add_each [] b = ok b
  add_each (d ∷ ds) b = bloom_add keccak d b >>= add_each ds

  -- After Add of any values, one after the other, on a filter of 256 bytes, which never panics, the
  -- filter has 256 bytes and Test finds each of these values and whatever it found before.
  pub bloom_test-add_each :
      (ds : List ℕ) (b : Bloom)
      → IsBloom b
      → (after : Bloom) × (add_each ds b ≡ ok after)
        × IsBloom after
        × All (λ d. bloom_test keccak after d ≡ true) ds
        × ((value : ℕ) → bloom_test keccak b value ≡ true → bloom_test keccak after value ≡ true)
  bloom_test-add_each [] b size = (b, refl, size, tt, λ value found. found)
  bloom_test-add_each (d ∷ ds) b size =
      let first = bloom_test-bloom_add d b size in
      let rest = bloom_test-add_each ds first.0 first.2 in
      (
        rest.0,
        rw first.1 rest.1,
        rest.2,
        (rest.4 d first.3, rest.3),
        λ value found. rest.4 value (first.4 value found),
      )

pub zero_bloom-IsBloom : IsBloom zero_bloom
unfolding zero_bloom
zero_bloom-IsBloom = (length-put_uint 256 0, put_uint-AreBytes 256 0)
