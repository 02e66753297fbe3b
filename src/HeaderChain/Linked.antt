-- ===== src/HeaderChain/Linked.antt =====
-- What `ValidateHeaderChain` lets through is a chain.
use plasma.HeaderChain.Import.{validate_header_chain, is_contiguous, check_results}
use plasma.Prelude.{
  ℕ, zero, suc, ◌+◌, ◌%◌, ◌^◌, ◌≡◌, refl, subst, inl, inr, Bool, true, ◌||◌, Option, none, some,
  List, [], ◌∷◌, map, arith, ◌==◌, Bool-cases, length, get_elem?, All,
}
use plasma.Prelude.Outcome.{ok-injective, ok, Error}
use plasma.Types.Block.{header_number, Header}
use plasma.Types.External.{header_hash, External}

-- each header but the first names the one before it as its parent
abbrev pub IsLinked : External → List Header → Type 0
IsLinked x [] = Unit
IsLinked x (h ∷ []) = Unit
IsLinked x (h ∷ next ∷ chain) = (next.parent_hash ≡ header_hash x h) × IsLinked x (next ∷ chain)

head_number : (h : Header) → header_number h ≡ (header_number h + 0) % 2 ^ 64
unfolding header_number
head_number h = omega arith

module _ (x : External) where
  contiguous-IsLinked : (chain : List Header) → is_contiguous x chain ≡ true → IsLinked x chain
  unfolding is_contiguous
  contiguous-IsLinked [] e = tt
  contiguous-IsLinked (h ∷ []) e = tt
  contiguous-IsLinked (h ∷ next ∷ chain) e =
      (ground (arith, e), contiguous-IsLinked (next ∷ chain) (ground (arith, e)))

  number_at :
      (h : Header) (chain : List Header) (i : ℕ) (k : Header)
      → is_contiguous x (h ∷ chain) ≡ true
      → get_elem? (h ∷ chain) i ≡ some k
      → header_number k ≡ (header_number h + i) % 2 ^ 64
  unfolding is_contiguous
  number_at h chain zero k c e =
      let s : h ≡ k = cc in
      subst (λ j. header_number j ≡ (header_number h + 0) % 2 ^ 64) s (head_number h)
  number_at h [] (suc i) k c e = absurd (cc e)
  number_at h (next ∷ chain) (suc i) k c e =
      let r = number_at next chain i k (ground (arith, c)) e in
      let s : header_number next ≡ (header_number h + 1) % 2 ^ 64 = ground (arith, c) in
      omega (arith, r, s)

nth_number :
    (x : External) (hs : List Header) (i : ℕ) (first k : Header)
    → is_contiguous x hs ≡ true
    → get_elem? hs 0 ≡ some first
    → get_elem? hs i ≡ some k
    → header_number k ≡ (header_number first + i) % 2 ^ 64
nth_number x [] i first k c f g = absurd (cc f)
nth_number x (h ∷ hs) i first k c f g =
    let same : h ≡ first = cc in
    subst (λ j. header_number k ≡ (header_number j + i) % 2 ^ 64) same (number_at x h hs i k c g)

check_results-ok :
    (interrupted : ℕ → Bool) (i : ℕ) (results : List (Option Error))
    → check_results interrupted i results ≡ (0, none)
    → All (λ r. r ≡ none) results
unfolding check_results
check_results-ok interrupted i [] e = tt
check_results-ok interrupted i (none ∷ results) e = elim (Bool-cases (interrupted i)) [
  | inl b ↦ absurd (cc (rw b at e))
  | inr b ↦ (refl, check_results-ok interrupted (suc i) results (rw b at e))
]
check_results-ok interrupted i (some r ∷ results) e = elim (Bool-cases (interrupted i)) [
  | inl b ↦ absurd (cc (rw b at e))
  | inr b ↦ absurd (cc (rw b at e))
]

module _ (x : External) where
  -- If `ValidateHeaderChain` returns nil, every result of the verifier is nil, each header names the
  -- one before it as its parent, and the `uint64` numbers count up by one from the first.
  pub validate_header_chain-IsLinked :
      (check_freq : ℕ) (interrupted : ℕ → Bool) (chain : List (Header × Option Error)) (i : ℕ)
      (first k : Header)
      → validate_header_chain x check_freq interrupted chain ≡ ok (0, none)
      → get_elem? (map (λ c. c.0) chain) 0 ≡ some first
      → get_elem? (map (λ c. c.0) chain) i ≡ some k
      → IsLinked x (map (λ c. c.0) chain)
        × All (λ r. r ≡ none) (map (λ c. c.1) chain)
        × (header_number k ≡ (header_number first + i) % 2 ^ 64)
  unfolding validate_header_chain
  validate_header_chain-IsLinked check_freq interrupted chain i first k e f g =
      elim (Bool-cases (is_contiguous x (map (λ c. c.0) chain))) [
        | inr b ↦ absurd (cc (rw b at e))
        | inl b ↦ elim (Bool-cases (check_freq == 0 || length chain == 0)) [
          | inl z ↦ absurd (cc (rw z at (rw b at e)))
          | inr z ↦
              let r = ok-injective (rw z at (rw b at e)) in
              (
                contiguous-IsLinked x (map (λ c. c.0) chain) b,
                check_results-ok interrupted 0 (map (λ c. c.1) chain) r,
                nth_number x (map (λ c. c.0) chain) i first k b f g,
              )
        ]
      ]
