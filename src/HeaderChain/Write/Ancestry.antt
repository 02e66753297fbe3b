-- ===== src/HeaderChain/Write/Ancestry.antt =====
-- core/headerchain.go: the canonical chain against the parents of the stored headers.
use plasma.Bytes.{Hash}
use plasma.Prelude.{ℕ, zero, suc, ◌^◌, ◌≤◌, ◌<◌, ◌≡◌, sym, ◌∙◌, ◌≢◌, ◌⊎◌, inl, inr, some, arith}
use plasma.RawDb.Accessors.{read_canonical_hash, read_header}
use plasma.Store.{Database}
use plasma.Types.Block.{Header, header_number}
use plasma.Types.External.{External}

module _ {S : Type 0} (d : Database S) (x : External) where
  -- Up to `n` the canonical numbers are those of `hash`, its parent, and so on down to 0.
  abbrev pub CanonTo : S → ℕ → Hash → Type 0
  CanonTo s zero hash = read_canonical_hash d 0 s ≡ hash
  CanonTo s (suc n) hash =
      (read_canonical_hash d (suc n) s ≡ hash)
      × (h : Header) × (read_header d x hash (suc n) s ≡ some h)
      × CanonTo s n h.parent_hash

  -- `hash` at `n` has stored ancestors that are not canonical, down to one that is.
  abbrev pub Rooted : S → ℕ → Hash → Type 0
  Rooted s zero hash = CanonTo s 0 hash
  Rooted s (suc n) hash =
      CanonTo s (suc n) hash
      ⊎ ((h : Header) × (read_canonical_hash d (suc n) s ≢ hash)
          × (hash < 256 ^ 32)
          × (read_header d x hash (suc n) s ≡ some h)
          × (header_number h ≡ suc n)
          × Rooted s n h.parent_hash)

  -- two states that give the same canonical hashes and headers up to `n`
  pub record SameTo (n : ℕ) (s t : S) : Type 0 where
    pub canonical : (m : ℕ) → m ≤ n → read_canonical_hash d m t ≡ read_canonical_hash d m s
    pub headers : (k : Hash) (m : ℕ) → m ≤ n → read_header d x k m t ≡ read_header d x k m s

  pub SameTo-le : (n m : ℕ) {s t : S} → m ≤ n → SameTo n s t → SameTo m s t
  SameTo-le n m h same = record {
    canonical = λ k small. same.canonical k (omega (arith, small));
    headers = λ k j small. same.headers k j (omega (arith, small));
  }

  pub CanonTo-SameTo :
      (n : ℕ) (hash : Hash) {s t : S} → SameTo n s t → CanonTo s n hash → CanonTo t n hash
  CanonTo-SameTo zero hash same c = same.canonical 0 (omega arith) ∙ c
  CanonTo-SameTo (suc n) hash same c = (
    same.canonical (suc n) (omega arith) ∙ c.0,
    c.1,
    same.headers hash (suc n) (omega arith) ∙ c.2,
    CanonTo-SameTo n c.1.parent_hash (SameTo-le (suc n) n (omega arith) same) c.3,
  )

  pub Rooted-SameTo :
      (n : ℕ) (hash : Hash) {s t : S} → SameTo n s t → Rooted s n hash → Rooted t n hash
  Rooted-SameTo zero hash same c = CanonTo-SameTo zero hash same c
  Rooted-SameTo (suc n) hash same (inl c) = inl (CanonTo-SameTo (suc n) hash same c)
  Rooted-SameTo (suc n) hash same (inr (h, other, small, found, numbered, rest)) = inr (
    h,
    λ e. other (sym (same.canonical (suc n) (omega arith)) ∙ e),
    small,
    same.headers hash (suc n) (omega arith) ∙ found,
    numbered,
    Rooted-SameTo n h.parent_hash (SameTo-le (suc n) n (omega arith) same) rest,
  )
