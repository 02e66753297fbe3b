-- ===== src/Types/Bloom/Words.antt =====
-- Lengths and values of the byte strings that `SetBytes` of core/types/bloom9.go copies.
use native.Mathlib.Nat.{pow-suc}
use plasma.Bytes.{put_uint, Bytes, set_bytes_from, set_bytes, minimal_bytes, big_bytes}
use plasma.Bytes.RoundTrip.{set_bytes-big_bytes}
use plasma.Prelude.{
  take-append-drop, length-drop, ℕ, zero, suc, ◌+◌, ◌-◌, ◌*◌, ◌/◌, ◌%◌, ◌^◌, ◌≤◌, ◌<◌, ◌≡◌, refl,
  sym, ap, ◌∙◌, inl, inr, [], ◌∷◌, ◌++◌, arith, ◌==◌, Bool-cases, length, take, drop, All,
  length-append, All-append,
}

-- A number that fits in `k` bytes has at most `k` of them,
length-minimal_bytes : (k fuel n : ℕ) → n < 256 ^ k → length (minimal_bytes fuel n) ≤ k
unfolding minimal_bytes
length-minimal_bytes k zero n h = omega arith
length-minimal_bytes zero (suc fuel) n h = elim (Bool-cases (n == 0)) [
  | inl z ↦ rw z (omega arith)
  | inr p ↦ absurd (ground arith)
]
length-minimal_bytes (suc k) (suc fuel) n h = elim (Bool-cases (n == 0)) [
  | inl z ↦ rw z (omega arith)
  | inr p ↦ rw p (
      omega (
        arith,
        length-append (minimal_bytes fuel (n / 256)) (n % 256 ∷ []),
        length-minimal_bytes k fuel (n / 256),
        pow-suc 256 k,
      ))
]

pub length-big_bytes : (k n : ℕ) → n < 256 ^ k → length (big_bytes n) ≤ k
unfolding big_bytes
length-big_bytes k n h = length-minimal_bytes k n n h

-- and as many as it needs.
minimal_bytes_bound : (fuel n : ℕ) → n ≤ fuel → n < 256 ^ length (minimal_bytes fuel n)
unfolding minimal_bytes
minimal_bytes_bound zero n h = omega arith
minimal_bytes_bound (suc fuel) n h = elim (Bool-cases (n == 0)) [
  | inl z ↦ rw z (ground arith)
  | inr p ↦ rw p (
      rw (length-snoc (minimal_bytes fuel (n / 256)) (n % 256)) (
        omega (
          arith,
          minimal_bytes_bound fuel (n / 256) (ground arith),
          pow-suc 256 (length (minimal_bytes fuel (n / 256))),
        )))
]
  where
    length-snoc : (xs : Bytes) (b : ℕ) → length (xs ++ b ∷ []) ≡ suc (length xs)
    length-snoc xs b = omega (arith, length-append xs (b ∷ []))

pub big_bytes_bound : (n : ℕ) → n < 256 ^ length (big_bytes n)
unfolding big_bytes
big_bytes_bound n = minimal_bytes_bound n n (omega arith)

set_bytes_from-cons :
    (acc b : ℕ) (bs : Bytes) → set_bytes_from acc (b ∷ bs) ≡ set_bytes_from (acc * 256 + b) bs
unfolding set_bytes_from
set_bytes_from-cons acc b bs = refl

zero_from-cons : (b : ℕ) (bs : Bytes) → set_bytes_from 0 (b ∷ bs) ≡ set_bytes_from b bs
zero_from-cons b bs = set_bytes_from-cons 0 b bs ∙ ap (λ acc. set_bytes_from acc bs) (omega arith)

set_bytes_from-shift :
    (acc : ℕ) (bs : Bytes) → set_bytes_from acc bs ≡ acc * 256 ^ length bs + set_bytes_from 0 bs
set_bytes_from-shift acc [] = unfold set_bytes_from in omega arith
set_bytes_from-shift acc (b ∷ bs) = rw (pow-suc 256 (length bs)) (
    omega (
      arith,
      set_bytes_from-cons acc b bs,
      zero_from-cons b bs,
      set_bytes_from-shift (acc * 256 + b) bs,
      set_bytes_from-shift b bs,
    ))

set_bytes_from-append :
    (acc : ℕ) (xs ys : Bytes)
    → set_bytes_from acc (xs ++ ys) ≡ set_bytes_from (set_bytes_from acc xs) ys
unfolding set_bytes_from
set_bytes_from-append acc [] ys = refl
set_bytes_from-append acc (x ∷ xs) ys = set_bytes_from-append (acc * 256 + x) xs ys

pub set_bytes-append :
    (xs ys : Bytes) → set_bytes (xs ++ ys) ≡ set_bytes xs * 256 ^ length ys + set_bytes ys
unfolding set_bytes
set_bytes-append xs ys =
    set_bytes_from-append 0 xs ys ∙ set_bytes_from-shift (set_bytes_from 0 xs) ys

-- every element is a byte
abbrev pub AreBytes : Bytes → Type 0
AreBytes bs = All (λ b. b < 256) bs

mul-lt : (y b : ℕ) → b < 256 → b * y + y ≤ 256 * y
mul-lt y b h = grind arith

pub set_bytes-lt : (bs : Bytes) → AreBytes bs → set_bytes bs < 256 ^ length bs
unfolding set_bytes
set_bytes-lt [] h = unfold set_bytes_from in omega arith
set_bytes-lt (b ∷ bs) h = omega (
  arith,
  set_bytes-lt bs h.1,
  zero_from-cons b bs,
  set_bytes_from-shift b bs,
  pow-suc 256 (length bs),
  mul-lt (256 ^ length bs) b h.0,
)

minimal_bytes-AreBytes : (fuel n : ℕ) → AreBytes (minimal_bytes fuel n)
unfolding minimal_bytes
minimal_bytes-AreBytes zero n = tt
minimal_bytes-AreBytes (suc fuel) n = elim (Bool-cases (n == 0)) [
  | inl z ↦ rw z tt
  | inr p ↦ rw p (
      All-append (λ b. b < 256) (minimal_bytes fuel (n / 256)) (n % 256 ∷ [])
        (minimal_bytes-AreBytes fuel (n / 256)) (omega arith, tt))
]

pub big_bytes-AreBytes : (n : ℕ) → AreBytes (big_bytes n)
unfolding big_bytes
big_bytes-AreBytes n = minimal_bytes-AreBytes n n

pub put_uint-AreBytes : (w n : ℕ) → AreBytes (put_uint w n)
unfolding put_uint
put_uint-AreBytes zero n = tt
put_uint-AreBytes (suc w) n =
    All-append (λ b. b < 256) (put_uint w (n / 256)) (n % 256 ∷ []) (put_uint-AreBytes w (n / 256))
      (omega arith, tt)

pub take-AreBytes : (n : ℕ) (bs : Bytes) → AreBytes bs → AreBytes (take n bs)
take-AreBytes zero bs h = tt
take-AreBytes (suc n) [] h = tt
take-AreBytes (suc n) (b ∷ bs) h = (h.0, take-AreBytes n bs h.1)

prefix_zero : (p y low n : ℕ) → p * y + low ≤ n → n < y → p ≡ 0
prefix_zero zero y low n h k = refl
prefix_zero (suc p) y low n h k = absurd (grind arith)

-- `SetBytes` of a number that is no smaller than the old one leaves no old byte that counts.
pub set_bytes-overwrite :
    (k n : ℕ) (b : Bytes)
    → length b ≡ k
    → n < 256 ^ k
    → set_bytes b ≤ n
    → set_bytes (take (k - length (big_bytes n)) b ++ big_bytes n) ≡ n
set_bytes-overwrite k n b size fits larger =
    let word = big_bytes n in
    let kept = take (k - length word) b in
    let over = drop (k - length word) b in
    let cut : length over ≡ length word =
      omega (arith, length-drop (k - length word) b, length-big_bytes k n fits) in
    let old : set_bytes b ≡ set_bytes kept * 256 ^ length word + set_bytes over =
      ap set_bytes (sym (take-append-drop (k - length word) b))
      ∙ set_bytes-append kept over
      ∙ ap (λ l. set_bytes kept * 256 ^ l + set_bytes over) cut in
    let nothing : set_bytes kept ≡ 0 =
      prefix_zero (set_bytes kept) (256 ^ length word) (set_bytes over) n (omega arith)
        (big_bytes_bound n) in
    set_bytes-append kept word
    ∙ omega (arith, ap (λ p. p * 256 ^ length word) nothing, set_bytes-big_bytes n)
