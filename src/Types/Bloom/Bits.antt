-- ===== src/Types/Bloom/Bits.antt =====
-- The laws of the bitwise operations of `*big.Int` that core/types/bloom9.go needs.
use Prim.Native.Nat.{min, max, bit_and, bit_or, digits, bit_and-bitwise, bit_or-bitwise}
use native.Mathlib.Nat.{pow-suc}
use plasma.Prelude.{
  ℕ, zero, suc, ◌+◌, ◌*◌, ◌/◌, ◌%◌, ◌^◌, ◌≤◌, ◌<◌, ◌≡◌, refl, ◌⊎◌, inl, inr, arith,
}

-- an operation that takes two digits to one by `pick`, and gives `rest b` when its first number ends
module _ (rest : ℕ → ℕ) (pick : ℕ → ℕ → ℕ) where
  -- fuel that bounds the first number is enough
  digits-enough : (m a b n : ℕ) → a ≤ m → a ≤ n → digits rest pick m a b ≡ digits rest pick n a b
  digits-enough (suc m) (suc a) b (suc n) h k =
      omega (arith, digits-enough m (suc a / 2) (b / 2) n (omega arith) (omega arith))
  digits-enough (suc m) (suc a) b zero h k = absurd (omega arith)
  digits-enough zero (suc a) b n h k = absurd (omega arith)
  digits-enough (suc m) zero b (suc n) h k = refl
  digits-enough (suc m) zero b zero h k = refl
  digits-enough zero zero b (suc n) h k = refl
  digits-enough zero zero b zero h k = refl

  digits-half :
      (a b : ℕ)
      → digits rest pick (suc a) (suc a) b
        ≡ digits rest pick (suc a / 2) (suc a / 2) (b / 2) * 2 + pick (suc a % 2) (b % 2)
  digits-half a b =
      omega (arith, digits-enough a (suc a / 2) (b / 2) (suc a / 2) (omega arith) (omega arith))

-- the lowest bit of `&`
bit_and-half : (a b : ℕ) → bit_and a b ≡ bit_and (a / 2) (b / 2) * 2 + min (a % 2) (b % 2)
bit_and-half zero b = omega (arith, bit_and-bitwise 0 b, bit_and-bitwise 0 (b / 2))
bit_and-half (suc n) b =
    let halves = bit_and-bitwise (suc n / 2) (b / 2) in
    omega (arith, bit_and-bitwise (suc n) b, digits-half (λ c. zero) min n b, halves)

-- the lowest bit of `|`
bit_or_step : (a b : ℕ) → bit_or a b ≡ bit_or (a / 2) (b / 2) * 2 + max (a % 2) (b % 2)
bit_or_step zero b = omega (arith, bit_or-bitwise 0 b, bit_or-bitwise 0 (b / 2))
bit_or_step (suc n) b =
    let halves = bit_or-bitwise (suc n / 2) (b / 2) in
    omega (arith, bit_or-bitwise (suc n) b, digits-half (λ c. c) max n b, halves)

-- What fits in `n` bits still does after `|`.
pub bit_or-lt : (n a b : ℕ) → a < 2 ^ n → b < 2 ^ n → bit_or a b < 2 ^ n
bit_or-lt zero zero b p q = omega (arith, bit_or-bitwise 0 b)
bit_or-lt zero (suc a) b p q = absurd (omega arith)
bit_or-lt (suc n) a b p q = omega (arith, bit_or_step a b, bit_or-lt n (a / 2) (b / 2), pow-suc 2 n)

le-bit_or_fuel : (n a b : ℕ) → a ≤ n → a ≤ bit_or a b
le-bit_or_fuel n zero b h = omega arith
le-bit_or_fuel zero (suc a) b h = absurd (omega arith)
le-bit_or_fuel (suc n) (suc a) b h =
    omega (arith, bit_or_step (suc a) b, le-bit_or_fuel n (suc a / 2) (b / 2) (omega arith))

-- `|` clears no bit.
pub le-bit_or : (a b : ℕ) → a ≤ bit_or a b
le-bit_or a b = le-bit_or_fuel a a b (omega arith)

-- every bit of `b` is one of `a`
abbrev pub Covers : ℕ → ℕ → Type 0
Covers a b = bit_and a b ≡ b

Covers-half : (a b : ℕ) → Covers a b → Covers (a / 2) (b / 2) × (min (a % 2) (b % 2) ≡ b % 2)
Covers-half a b h = omega (arith, bit_and-half a b)

half-Covers : (a b : ℕ) → Covers (a / 2) (b / 2) → min (a % 2) (b % 2) ≡ b % 2 → Covers a b
half-Covers a b h k = omega (arith, bit_and-half a b)

Covers-zero_fuel : (n a : ℕ) → a ≤ n → Covers a 0
Covers-zero_fuel n zero h = bit_and-bitwise 0 0
Covers-zero_fuel zero (suc a) h = absurd (omega arith)
Covers-zero_fuel (suc n) (suc a) h =
    half-Covers (suc a) 0 (Covers-zero_fuel n (suc a / 2) (omega arith)) (omega arith)

bit_or-half :
    (a b : ℕ) → (bit_or a b / 2 ≡ bit_or (a / 2) (b / 2)) × (bit_or a b % 2 ≡ max (a % 2) (b % 2))
bit_or-half a b = omega (arith, bit_or_step a b)

Covers-bit_or_step :
    (a b c : ℕ)
    → Covers (bit_or (a / 2) (b / 2)) (c / 2)
    → min (max (a % 2) (b % 2)) (c % 2) ≡ c % 2
    → Covers (bit_or a b) c
Covers-bit_or_step a b c halves bit =
    half-Covers (bit_or a b) c (rw ((bit_or-half a b).0) halves) (rw ((bit_or-half a b).1) bit)

Covers-bit_or_fuel : (n a b c : ℕ) → c ≤ n → Covers a c ⊎ Covers b c → Covers (bit_or a b) c
Covers-bit_or_fuel n a b zero h k = Covers-zero_fuel (bit_or a b) (bit_or a b) (omega arith)
Covers-bit_or_fuel zero a b (suc c) h k = absurd (omega arith)
Covers-bit_or_fuel (suc n) a b (suc c) h (inl k) =
    let halves = Covers-half a (suc c) k in
    Covers-bit_or_step a b (suc c)
      (Covers-bit_or_fuel n (a / 2) (b / 2) (suc c / 2) (omega arith) (inl halves.0)) (omega arith)
Covers-bit_or_fuel (suc n) a b (suc c) h (inr k) =
    let halves = Covers-half b (suc c) k in
    Covers-bit_or_step a b (suc c)
      (Covers-bit_or_fuel n (a / 2) (b / 2) (suc c / 2) (omega arith) (inr halves.0)) (omega arith)

-- The bits of both operands are bits of `|`.
pub Covers-bit_or : (a b c : ℕ) → Covers a c ⊎ Covers b c → Covers (bit_or a b) c
Covers-bit_or a b c k = Covers-bit_or_fuel c a b c (omega arith) k

Covers-refl_fuel : (n a : ℕ) → a ≤ n → Covers a a
Covers-refl_fuel n zero h = bit_and-bitwise 0 0
Covers-refl_fuel zero (suc a) h = absurd (omega arith)
Covers-refl_fuel (suc n) (suc a) h =
    half-Covers (suc a) (suc a) (Covers-refl_fuel n (suc a / 2) (omega arith)) (omega arith)

pub Covers-refl : (a : ℕ) → Covers a a
Covers-refl a = Covers-refl_fuel a a (omega arith)
