-- ===== src/HeaderChain.antt =====
-- core/headerchain.go: the headers of the chain, cached in front of the database. The LRU caches
-- are a parameter: a lookup may change how recent an entry is, and any entry may be evicted. A nil
-- header is `none`.
pub mod Start
pub mod Import
pub mod Linked
pub mod Write
use plasma.Bytes.{zero_hash, Hash}
use plasma.Prelude.{
  ℕ, zero, suc, ◌+◌, ◌-◌, ◌%◌, ◌^◌, Bool, true, ◌||◌, Option, none, some, List, [], ◌∷◌, ltb, ◌==◌,
  if◌then◌else◌,
}
use plasma.RawDb.Accessors.{
  write_head_header_hash, read_header_number, read_header, read_canonical_hash,
  has_header as stored_header,
}
use plasma.Store.{Database}
use plasma.Types.Block.{Header, header_number}
use plasma.Types.External.{header_hash, External}

pub record HeaderCaches (C : Type 0) : Type 0 where
  pub get_number : Hash → C → Option ℕ × C
  pub add_number : Hash → ℕ → C → C
  pub contains_number : Hash → C → Bool
  pub get_header : Hash → C → Option Header × C
  pub add_header : Hash → Header → C → C
  pub contains_header : Hash → C → Bool

pub record HeaderChain (S C : Type 0) : Type 0 where
  pub chain_db : S
  pub caches : C
  pub current_header : Header
  pub current_header_hash : Hash

-- `number - 1` on a `uint64`
abbrev pub pred_u64 : ℕ → ℕ
pred_u64 n = (n + (2 ^ 64 - 1)) % 2 ^ 64

module _ {S C : Type 0} (d : Database S) (lru : HeaderCaches C) (x : External) where
  with_caches : C → HeaderChain S C → HeaderChain S C
  with_caches c hc = record hc { caches = c }

  cache_number : Hash → Option ℕ → HeaderChain S C → Option ℕ × HeaderChain S C
  unfolding with_caches
  cache_number hash none hc = (none, hc)
  cache_number hash (some n) hc = (some n, with_caches (lru.add_number hash n hc.caches) hc)

  unfoldable pub get_block_number : Hash → HeaderChain S C → Option ℕ × HeaderChain S C
  unfolding with_caches cache_number
  get_block_number hash hc =
      let found = lru.get_number hash hc.caches in
      let hc' = with_caches found.1 hc in
      elim found.0 [
        | none ↦ cache_number hash (read_header_number d hash hc'.chain_db) hc'
        | some n ↦ (some n, hc')
      ]

  cache_header : Hash → Option Header → HeaderChain S C → Option Header × HeaderChain S C
  unfolding with_caches
  cache_header hash none hc = (none, hc)
  cache_header hash (some h) hc = (some h, with_caches (lru.add_header hash h hc.caches) hc)

  unfoldable pub get_header : Hash → ℕ → HeaderChain S C → Option Header × HeaderChain S C
  unfolding with_caches cache_header
  get_header hash number hc =
      let found = lru.get_header hash hc.caches in
      let hc' = with_caches found.1 hc in
      elim found.0 [
        | none ↦ cache_header hash (read_header d x hash number hc'.chain_db) hc'
        | some h ↦ (some h, hc')
      ]

  get_header_at : Hash → Option ℕ → HeaderChain S C → Option Header × HeaderChain S C
  unfolding get_header
  get_header_at hash none hc = (none, hc)
  get_header_at hash (some n) hc = get_header hash n hc

  unfoldable pub get_header_by_hash : Hash → HeaderChain S C → Option Header × HeaderChain S C
  unfolding get_header_at get_block_number
  get_header_by_hash hash hc =
      let found = get_block_number hash hc in get_header_at hash found.0 found.1

  unfoldable pub has_header : Hash → ℕ → HeaderChain S C → Bool
  has_header hash number hc =
      if lru.contains_number hash hc.caches || lru.contains_header hash hc.caches
      then true
      else stored_header d hash number hc.chain_db

  unfoldable pub get_header_by_number : ℕ → HeaderChain S C → Option Header × HeaderChain S C
  unfolding get_header
  get_header_by_number number hc =
      let hash = read_canonical_hash d number hc.chain_db in
      if hash == zero_hash then (none, hc) else get_header hash number hc

  unfoldable pub set_current_header : Header → HeaderChain S C → HeaderChain S C
  unfolding write_head_header_hash
  set_current_header head hc = record {
    chain_db = write_head_header_hash d (header_hash x head) hc.chain_db;
    caches = hc.caches;
    current_header = head;
    current_header_hash = header_hash x head;
  }

  -- the rounds of the loop of `GetBlockHashesFromHash`, at most `max` of them
  collect_hashes : ℕ → Header → HeaderChain S C → List Hash × HeaderChain S C
  unfolding get_header
  collect_hashes zero h hc = ([], hc)
  collect_hashes (suc max) h hc =
      let found = get_header h.parent_hash (pred_u64 (header_number h)) hc in
      elim found.0 [
        | none ↦ ([], found.1)
        | some parent ↦
            let rest = collect_hashes max parent found.1 in
            if parent.number == 0
            then (h.parent_hash ∷ [], found.1)
            else (h.parent_hash ∷ rest.0, rest.1)
      ]

  unfoldable pub get_block_hashes_from_hash :
      Hash → ℕ → HeaderChain S C → List Hash × HeaderChain S C
  unfolding get_header_by_hash collect_hashes
  get_block_hashes_from_hash hash max hc =
      let found = get_header_by_hash hash hc in
      elim found.0 [ none ↦ ([], found.1) | some h ↦ collect_hashes max h found.1 ]

  -- the loop of `GetAncestor` with the hash, the number and `*maxNonCanonical`
  ancestor_loop : ℕ → Hash → ℕ → ℕ → HeaderChain S C → (Hash × ℕ) × (ℕ × HeaderChain S C)
  unfolding get_header
  ancestor_loop zero hash number max hc = ((hash, number), (max, hc))
  ancestor_loop (suc ancestor) hash number max hc =
      if read_canonical_hash d number hc.chain_db == hash
      then (
        (read_canonical_hash d (number - suc ancestor) hc.chain_db, number - suc ancestor),
        (max, hc),
      )
      else elim max [
        | zero ↦ ((zero_hash, 0), (zero, hc))
        | suc max' ↦
            let found = get_header hash number hc in
            elim found.0 [
              | none ↦ ((zero_hash, 0), (max', found.1))
              | some h ↦ ancestor_loop ancestor h.parent_hash (number - 1) max' found.1
            ]
      ]

  -- the answer, the new `*maxNonCanonical` and the new state
  unfoldable pub get_ancestor :
      Hash → ℕ → ℕ → ℕ → HeaderChain S C → (Hash × ℕ) × (ℕ × HeaderChain S C)
  unfolding ancestor_loop
  get_ancestor hash number ancestor max hc =
      if ltb number ancestor
      then ((zero_hash, 0), (max, hc))
      else if ancestor == 1
      then (let found = get_header hash number hc in
          elim found.0 [
            | none ↦ ((zero_hash, 0), (max, found.1))
            | some h ↦ ((h.parent_hash, number - 1), (max, found.1))
          ])
      else ancestor_loop ancestor hash number max hc
