-- ===== src/Chain/Lookup.antt =====
-- core/blockchain.go: bodies, the export of blocks, and the start of the chain. The LRU caches of the
-- bodies and the writer of an export are parameters.
use plasma.Bytes.{Bytes, Hash}
use plasma.Chain.{Chain, BlockCache, get_block_by_number, load_last_state}
use plasma.HeaderChain.{HeaderCaches, get_block_number}
use plasma.Prelude.{
  ℕ, zero, suc, ◌+◌, ◌-◌, Option, none, some, List, ltb, ◌==◌, if◌then◌else◌, length,
}
use plasma.Prelude.Outcome.{external, no_genesis, Error}
use plasma.RawDb.Accessors.{read_bytes, read_body}
use plasma.RawDb.Schema.{block_body_key}
use plasma.Store.{Database}
use plasma.Types.Block.{number_u64, Block}
use plasma.Types.External.{External}
use plasma.Types.Transaction.{Transaction}

-- an LRU cache from hashes to `A`
pub record HashCache (A L : Type 0) : Type 0 where
  pub get : Hash → L → Option A × L
  pub add : Hash → A → L → L

module _ {S C B : Type 0} (d : Database S) (lru : HeaderCaches C) (lrb : BlockCache B)
    (x : External) where
  module _ {A L : Type 0} (cache : HashCache A L) (read : Hash → ℕ → S → Option A) where
    -- what was read is cached
    keep_body : Hash → Option A → L → Option A × L
    keep_body hash none l = (none, l)
    keep_body hash (some body) l = (some body, cache.add hash body l)

    -- the cached body, or the one of the database at the number of the hash
    unfoldable pub get_cached : Hash → Chain S C B × L → Option A × (Chain S C B × L)
    unfolding keep_body
    get_cached hash (c, l) =
        let cached = cache.get hash l in
        let number = get_block_number d lru x hash c.hc in
        let c' : Chain S C B = record c { hc = number.1 } in
        elim cached.0 [
          | some body ↦ (some body, (c, cached.1))
          | none ↦ elim number.0 [
            | none ↦ (none, (c', cached.1))
            | some n ↦
                let kept = keep_body hash (read hash n c'.hc.chain_db) cached.1 in
                (kept.0, (c', kept.1))
          ]
        ]

  -- `GetBody`
  unfoldable pub get_body :
      {L : Type 0}
      → HashCache (List Transaction) L
      → Hash
      → Chain S C B × L
      → Option (List Transaction) × (Chain S C B × L)
  unfolding get_cached
  get_body cache hash c = get_cached cache (read_body d x) hash c

  -- `ReadBodyRLP`, whose bytes are nil where there are none
  body_bytes : Hash → ℕ → S → Option Bytes
  body_bytes hash n s =
      let bytes = read_bytes d (block_body_key n hash) s in
      if length bytes == 0 then none else some bytes

  -- `GetBodyRLP`
  unfoldable pub get_body_rlp :
      {L : Type 0} → HashCache Bytes L → Hash → Chain S C B × L → Option Bytes × (Chain S C B × L)
  unfolding get_cached body_bytes
  get_body_rlp cache hash c = get_cached cache body_bytes hash c

  module _ {W : Type 0} (encode : Block → W → Option Error × W) where
    -- the loop of `ExportN` over the numbers from `first` on, below 2 ^ 64 - 1
    export_loop : ℕ → ℕ → Chain S C B × W → Option Error × (Chain S C B × W)
    export_loop zero number (c, w) = (none, (c, w))
    export_loop (suc n) number (c, w) =
        let found = get_block_by_number d lru lrb x number c in
        elim found.0 [
          | none ↦ (some external, (found.1, w))
          | some b ↦
              let encoded = encode b w in
              let rest = export_loop n (number + 1) (found.1, encoded.1) in
              elim encoded.0 [ some e ↦ (some e, (found.1, encoded.1)) | none ↦ rest ]
        ]

    -- `ExportN`
    unfoldable pub export_n : ℕ → ℕ → Chain S C B × W → Option Error × (Chain S C B × W)
    unfolding export_loop
    export_n first last c =
        if ltb last first then (some external, c) else export_loop (last - first + 1) first c

    -- `Export`
    unfoldable pub export : Chain S C B × W → Option Error × (Chain S C B × W)
    unfolding export_n
    export (c, w) = export_n 0 (number_u64 c.current_block) (c, w)

  -- `NewBlockChain`, once its header chain is there
  unfoldable pub new_block_chain : Chain S C B → Option Error × Chain S C B
  new_block_chain c =
      let genesis = get_block_by_number d lru lrb x 0 c in
      elim genesis.0 [
        | none ↦ (some no_genesis, genesis.1)
        | some b ↦ load_last_state d lru lrb x genesis.1
      ]
