-- ===== src/Bytes/RoundTrip.antt =====
-- Reading back what was written in base 256.
use native.Mathlib.Nat.{pow-suc}
use plasma.Bytes.{Bytes, put_uint, set_bytes_from, set_bytes, minimal_bytes, big_bytes}
use plasma.Prelude.{
  ℕ, zero, suc, ◌+◌, ◌*◌, ◌/◌, ◌%◌, ◌^◌, ◌≤◌, ◌<◌, ◌≡◌, refl, ap, sym, ◌∙◌, [], ◌∷◌, ◌++◌, arith,
  length, length-append, inl, inr, Bool-cases, ◌==◌,
}

pub length-put_uint : (w n : ℕ) → length (put_uint w n) ≡ w
unfolding put_uint
length-put_uint zero n = refl
length-put_uint (suc w) n =
    omega (arith, length-append (put_uint w (n / 256)) (n % 256 ∷ []), length-put_uint w (n / 256))

set_bytes_from-append :
    (acc : ℕ) (xs : Bytes) (b : ℕ)
    → set_bytes_from acc (xs ++ b ∷ []) ≡ set_bytes_from acc xs * 256 + b
unfolding set_bytes_from
set_bytes_from-append acc [] b = refl
set_bytes_from-append acc (x ∷ xs) b = set_bytes_from-append (acc * 256 + x) xs b

below_next : (w n : ℕ) → n < 256 ^ suc w → n / 256 < 256 ^ w
below_next w n h = omega (arith, pow-suc 256 w)

-- A number that fits in `w` bytes is read back from them.
pub set_bytes-put_uint : (w n : ℕ) → n < 256 ^ w → set_bytes (put_uint w n) ≡ n
unfolding set_bytes put_uint
set_bytes-put_uint zero n h = unfold set_bytes_from in omega arith
set_bytes-put_uint (suc w) n h =
    rw (set_bytes_from-append 0 (put_uint w (n / 256)) (n % 256))
      (omega (arith, set_bytes-put_uint w (n / 256) (below_next w n h)))

set_bytes-minimal_bytes : (fuel n : ℕ) → n ≤ fuel → set_bytes (minimal_bytes fuel n) ≡ n
unfolding set_bytes minimal_bytes
set_bytes-minimal_bytes zero n h = unfold set_bytes_from in omega arith
set_bytes-minimal_bytes (suc fuel) n h = elim (Bool-cases (n == 0)) [
  | inl z ↦ rw z (unfold set_bytes_from in ground arith)
  | inr p ↦ rw p (
      rw (set_bytes_from-append 0 (minimal_bytes fuel (n / 256)) (n % 256))
        (ground (arith, set_bytes-minimal_bytes fuel (n / 256) (ground arith))))
]

-- `SetBytes` reads back what `Bytes` wrote.
pub set_bytes-big_bytes : (n : ℕ) → set_bytes (big_bytes n) ≡ n
unfolding big_bytes
set_bytes-big_bytes n = set_bytes-minimal_bytes n n (omega arith)

pub put_uint-injective :
    (w a b : ℕ) → a < 256 ^ w → b < 256 ^ w → put_uint w a ≡ put_uint w b → a ≡ b
put_uint-injective w a b ha hb e =
    sym (set_bytes-put_uint w a ha) ∙ ap set_bytes e ∙ set_bytes-put_uint w b hb
