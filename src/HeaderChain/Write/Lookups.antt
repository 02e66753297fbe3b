-- ===== src/HeaderChain/Write/Lookups.antt =====
-- core/headerchain.go: `GetHeader` through a cache that holds what is stored.
use plasma.Bytes.{Hash}
use plasma.HeaderChain.{pred_u64, cache_header, with_caches, get_header, HeaderChain, HeaderCaches}
use plasma.HeaderChain.Write.Ancestry.{SameTo}
use plasma.Prelude.{
  ℕ, suc, ◌^◌, ◌≤◌, ◌<◌, ◌≡◌, refl, sym, ap, ◌∙◌, subst, ◌⊎◌, inl, inr, Option, none, some, arith,
  Option-cases,
}
use plasma.RawDb.Accessors.{read_header}
use plasma.Store.{Database}
use plasma.Types.Block.{Header}
use plasma.Types.External.{External}

-- A documented LRU cache: an entry that is found was added. `Has c h v` is that `v` may be found
-- under `h`.
pub record IsLru {C : Type 0} (lru : HeaderCaches C) (Has : C → Hash → Header → Type 0)
    : Type 0 where
  pub hit : (h : Hash) (c : C) (v : Header) → (lru.get_header h c).0 ≡ some v → Has c h v
  pub kept : (h k : Hash) (c : C) (v : Header) → Has (lru.get_header h c).1 k v → Has c k v
  pub added :
      (h k : Hash) (w v : Header) (c : C)
      → Has (lru.add_header h w c) k v
      → ((k ≡ h) × (v ≡ w)) ⊎ Has c k v

none-ne-some : {h : Header} → none ≡ some h → ⊥
none-ne-some e = cc

pub pred_u64-suc : (n : ℕ) → suc n < 2 ^ 64 → pred_u64 (suc n) ≡ n
pred_u64-suc n h = omega (arith, h)

module _ {S C : Type 0} (d : Database S) (x : External) (lru : HeaderCaches C)
    {Has : C → Hash → Header → Type 0} (cache : IsLru lru Has) where
  -- Up to `n` the cache holds what is stored, and a hash has one header.
  pub record Coherent (n : ℕ) (s : S) (c : C) : Type 0 where
    pub cached :
        (k : Hash) (v h : Header) (m : ℕ)
        → Has c k v
        → m ≤ n
        → read_header d x k m s ≡ some h
        → h ≡ v
    pub unique :
        (k : Hash) (h g : Header) (m j : ℕ)
        → m ≤ n
        → j ≤ n
        → read_header d x k m s ≡ some h
        → read_header d x k j s ≡ some g
        → h ≡ g

  pub Coherent-SameTo :
      (n : ℕ) (s t : S) (c : C) → SameTo d x n s t → Coherent n s c → Coherent n t c
  Coherent-SameTo n s t c same good = record {
    cached = λ k v h m has small found.
        good.cached k v h m has small (sym (same.headers k m small) ∙ found);
    unique = λ k h g m j small small' found found'.
        good.unique k h g m j small small' (sym (same.headers k m small) ∙ found)
          (sym (same.headers k j small') ∙ found');
  }

  Coherent-get :
      (n : ℕ) (s : S) (c : C) (hash : Hash)
      → Coherent n s c
      → Coherent n s (lru.get_header hash c).1
  Coherent-get n s c hash good = record {
    cached = λ k v h m has small found. good.cached k v h m (cache.kept hash k c v has) small found;
    unique = good.unique;
  }

  Coherent-add :
      (n : ℕ) (s : S) (c : C) (hash : Hash) (h : Header) (m : ℕ)
      → m ≤ n
      → read_header d x hash m s ≡ some h
      → Coherent n s c
      → Coherent n s (lru.add_header hash h c)
  Coherent-add n s c hash h m small found good = record {
    cached = λ k v g j has small' found'. elim (cache.added hash k h v c has) [
      | inl same ↦
          good.unique hash g h j m small' small
            (subst (λ key. read_header d x key j s ≡ some g) same.0 found') found
          ∙ sym same.1
      | inr old ↦ good.cached k v g j old small' found'
    ];
    unique = good.unique;
  }

  -- A stored header is found, and only the cache changes.
  abbrev pub Finds : ℕ → Hash → ℕ → HeaderChain S C → Option Header × HeaderChain S C → Type 0
  Finds n hash m hc found =
      ((h : Header) → read_header d x hash m hc.chain_db ≡ some h → found.0 ≡ some h)
      × (found.1.chain_db ≡ hc.chain_db)
      × Coherent n found.1.chain_db found.1.caches

  get_header-hit :
      (hc : HeaderChain S C) (hash : Hash) (m : ℕ) (v : Header)
      → (lru.get_header hash hc.caches).0 ≡ some v
      → get_header d lru x hash m hc
        ≡ (some v, record hc { caches = (lru.get_header hash hc.caches).1 })
  unfolding get_header with_caches
  get_header-hit hc hash m v e = rw (get_header, e) refl

  get_header-miss :
      (hc : HeaderChain S C) (hash : Hash) (m : ℕ)
      → (lru.get_header hash hc.caches).0 ≡ none
      → get_header d lru x hash m hc
        ≡ cache_header d lru x hash
            (read_header d x hash m hc.chain_db)
            (record hc { caches = (lru.get_header hash hc.caches).1 })
  unfolding get_header with_caches
  get_header-miss hc hash m e = rw (get_header, e) refl

  cache_header-Finds :
      (n : ℕ) (hc hc' : HeaderChain S C) (hash : Hash) (m : ℕ) (stored : Option Header)
      → hc'.chain_db ≡ hc.chain_db
      → Coherent n hc'.chain_db hc'.caches
      → m ≤ n
      → read_header d x hash m hc.chain_db ≡ stored
      → Finds n hash m hc (cache_header d lru x hash stored hc')
  unfolding cache_header with_caches
  cache_header-Finds n hc hc' hash m none same good small found =
      (λ h e. absurd (none-ne-some (sym found ∙ e)), same, good)
  cache_header-Finds n hc hc' hash m (some h) same good small found = (
    λ g e. sym found ∙ e,
    same,
    Coherent-add n hc'.chain_db hc'.caches hash h m small (ap (read_header d x hash m) same ∙ found)
        good,
  )

  pub get_header-Finds :
      (n : ℕ) (hc : HeaderChain S C) (hash : Hash) (m : ℕ)
      → Coherent n hc.chain_db hc.caches
      → m ≤ n
      → Finds n hash m hc (get_header d lru x hash m hc)
  get_header-Finds n hc hash m good small =
      let touched = Coherent-get n hc.chain_db hc.caches hash good in
      elim (Option-cases (lru.get_header hash hc.caches).0) [
        | inl e ↦ subst (Finds n hash m hc) (sym (get_header-miss hc hash m e)) (
            cache_header-Finds n hc (record hc { caches = (lru.get_header hash hc.caches).1 }) hash
              m (read_header d x hash m hc.chain_db) refl touched small refl)
        | inr (v, e) ↦ subst (Finds n hash m hc) (sym (get_header-hit hc hash m v e)) (
          λ h found.
              ap some (sym (good.cached hash v h m (cache.hit hash hc.caches v e) small found)),
          refl,
          touched,
        )
      ]

  pub Coherent-suc : (n : ℕ) (s : S) (c : C) → Coherent (suc n) s c → Coherent n s c
  Coherent-suc n s c good = record {
    cached = λ k v h m has le found. good.cached k v h m has (omega (arith, le)) found;
    unique = λ k h g m j le le' found found'.
        good.unique k h g m j (omega (arith, le)) (omega (arith, le')) found found';
  }
