-- ===== src/Types/Bloom.antt =====
-- core/types/bloom9.go: a set of values as 2048 bits, three of which stand for each value. A
-- `Bloom` is its 256 bytes, the highest first; a `*big.Int` is its absolute value, as `Bytes`
-- writes it. Keccak-256 is a parameter.
pub mod Bits
pub mod Words
pub mod NoMisses
use Prim.Native.Nat.{bit_and, bit_or}
use mathlib.Core.Bool.{false≢true}
use plasma.Bytes.{Bytes, Hash, put_uint, set_bytes, big_bytes}
use plasma.Prelude.{
  ℕ, zero, suc, ◌+◌, ◌-◌, ◌*◌, ◌/◌, ◌%◌, ◌^◌, ◌≤◌, ◌<◌, ◌≡◌, refl, sym, ap, ◌∙◌, subst, fun_ext,
  ◌≢◌, ◌↔◌, ◌⊎◌, inl, inr, Bool, true, false, ◌&&◌, ◌||◌, not, Option, none, some, List, [], ◌∷◌,
  ◌++◌, map, append_assoc, append-nil, arith, ltb, leb, ◌==◌, if◌then◌else◌, ==_iff, ==-refl,
  bytes_equal, bytes_equal_refl, bytes_equal→eq, bytes_equal_ne, Bool-cases, Option-cases, length,
  get_elem?, take, drop, All, length-append, All-append,
}
use plasma.Prelude.Outcome.{Outcome, ok, err, panic, ◌>>=◌, ◌>>◌, return_if, Error}

abbrev pub bloom_byte_length : ℕ
bloom_byte_length = 256

abbrev pub Bloom : Type 0
Bloom = Bytes

-- the bits that `(b1 + b0 << 8) & 2047` names: the eleven low ones of a sum that fits in a `uint`
unfoldable pub bloom_bit : ℕ → ℕ → ℕ
bloom_bit b0 b1 = (b1 + b0 * 2 ^ 8) % 2 ^ 11

-- the rounds of the loop of `bloom9` over the first bytes of the hash, two at a time
unfoldable pub bloom_bits : ℕ → Bytes → ℕ → ℕ
unfolding bloom_bit
bloom_bits zero bytes r = r
bloom_bits (suc rounds) [] r = r
bloom_bits (suc rounds) (b0 ∷ []) r = r
bloom_bits (suc rounds) (b0 ∷ b1 ∷ bytes) r =
    bloom_bits rounds bytes (bit_or r (2 ^ bloom_bit b0 b1))

-- `Bloom.Big`
unfoldable pub bloom_big : Bloom → ℕ
bloom_big b = set_bytes b

-- `Bloom.SetBytes`: the bytes go to the end, and those before them stay
unfoldable pub bloom_set_bytes : Bytes → Bloom → Outcome Bloom
bloom_set_bytes d b =
    if ltb bloom_byte_length (length d)
    then panic
    else ok (take (bloom_byte_length - length d) b ++ d)

unfoldable pub zero_bloom : Bloom
zero_bloom = put_uint bloom_byte_length 0

-- `BytesToBloom`
unfoldable pub bytes_to_bloom : Bytes → Outcome Bloom
unfolding bloom_set_bytes zero_bloom
bytes_to_bloom d = bloom_set_bytes d zero_bloom

module _ (keccak : Bytes → Hash) where
  unfoldable pub bloom9 : Bytes → ℕ
  unfolding bloom_bits
  bloom9 b = bloom_bits 3 (put_uint 32 (keccak b)) 0

  -- `Bloom.Add`
  unfoldable pub bloom_add : ℕ → Bloom → Outcome Bloom
  unfolding bloom_set_bytes bloom9
  bloom_add d b = bloom_set_bytes (big_bytes (bit_or (set_bytes b) (bloom9 (big_bytes d)))) b

  unfoldable pub bloom_lookup : Bloom → Bytes → Bool
  unfolding bloom_big bloom9
  bloom_lookup bin topic = let cmp = bloom9 topic in bit_and (bloom_big bin) cmp == cmp

  -- `Bloom.Test`
  unfoldable pub bloom_test : Bloom → ℕ → Bool
  unfolding bloom_lookup
  bloom_test b value = bloom_lookup b (big_bytes value)

  -- `Bloom.TestBytes`
  unfoldable pub bloom_test_bytes : Bloom → Bytes → Bool
  unfolding bloom_test
  bloom_test_bytes b value = bloom_test b (set_bytes value)
