-- ===== src/Chain.antt =====
-- core/blockchain.go: `BlockChain`, the blocks of the chain and its head. It and its header chain
-- hold the same database, which stands here in the header chain. The block cache and the validator
-- set by `SetValidator` are parameters; a mutex makes an operation one step.
pub mod Import
pub mod Lookup
use plasma.Bytes.{zero_hash, Hash}
use plasma.HeaderChain.{
  set_current_header, get_header_by_hash, pred_u64, get_block_number, HeaderChain, HeaderCaches,
}
use plasma.Prelude.{
  ℕ, zero, suc, ◌+◌, Bool, true, false, not, Option, none, some, List, [], ◌∷◌, ◌==◌, if◌then◌else◌,
  length,
}
use plasma.Prelude.Outcome.{head_not_found, external, Outcome, ok, ◌>>=◌, Error}
use plasma.RawDb.Accessors.{
  write_head_fast_block_hash, write_canonical_hash, write_head_block_hash,
  read_head_fast_block_hash, write_block, read_head_header_hash, read_head_block_hash,
  read_canonical_hash, read_block,
}
use plasma.Store.{Database}
use plasma.Types.Block.{number_u64, Header, Block}
use plasma.Types.External.{block_hash, External}

pub record BlockCache (B : Type 0) : Type 0 where
  pub get : Hash → B → Option Block × B
  pub add : Hash → Block → B → B

pub record Chain (S C B : Type 0) : Type 0 where
  pub hc : HeaderChain S C
  pub block_cache : B
  pub current_block : Block
  pub current_fast_block : Block

-- `ValidateBody`: a nil error or an error, and the state that its reads of the chain leave
abbrev pub BodyValidator : Type 0 → Type 0 → Type 0 → Type 0
BodyValidator S C B = Block → Chain S C B → Outcome (Option Error × Chain S C B)

-- the same chain on another state of the database
module _ {S C B : Type 0} where
  unfoldable pub with_db : S → Chain S C B → Chain S C B
  with_db s c = record c { hc = record (c.hc) { chain_db = s } }

unfoldable pub count_transactions : List Block → ℕ
count_transactions [] = 0
count_transactions (b ∷ bs) = length b.transactions + count_transactions bs

module _ {S C B : Type 0} (d : Database S) (lru : HeaderCaches C) (lrb : BlockCache B)
    (x : External) where
  -- `insert`
  unfoldable pub insert : Block → Chain S C B → Chain S C B
  unfolding with_db
  insert b c =
      let hash = block_hash x b in
      let update_heads = not (read_canonical_hash d (number_u64 b) c.hc.chain_db == hash) in
      let c1 =
        with_db
          (write_head_block_hash d hash (write_canonical_hash d hash (number_u64 b) c.hc.chain_db))
          c in
      let c2 = record c1 { current_block = b } in
      if update_heads
      then (let c3 = record c2 { hc = set_current_header d lru x b.header c2.hc } in
          record (with_db (write_head_fast_block_hash d hash c3.hc.chain_db) c3) {
            current_fast_block = b;
          })
      else c2

  cache_block : Option Block → Chain S C B → Option Block × Chain S C B
  cache_block none c = (none, c)
  cache_block (some b) c =
      (some b, record c { block_cache = lrb.add (block_hash x b) b c.block_cache })

  unfoldable pub get_block : Hash → ℕ → Chain S C B → Option Block × Chain S C B
  unfolding cache_block
  get_block hash number c =
      let found = lrb.get hash c.block_cache in
      let c' : Chain S C B = record c { block_cache = found.1 } in
      elim found.0 [
        | none ↦ cache_block (read_block d x hash number c'.hc.chain_db) c'
        | some b ↦ (some b, c')
      ]

  unfoldable pub has_block : Hash → ℕ → Chain S C B → Bool × Chain S C B
  unfolding get_block
  has_block hash number c =
      let found = get_block hash number c in
      elim found.0 [ none ↦ (false, found.1) | some b ↦ (true, found.1) ]

  get_block_at : Hash → Option ℕ → Chain S C B → Option Block × Chain S C B
  unfolding get_block
  get_block_at hash none c = (none, c)
  get_block_at hash (some n) c = get_block hash n c

  unfoldable pub get_block_by_hash : Hash → Chain S C B → Option Block × Chain S C B
  unfolding get_block_at
  get_block_by_hash hash c =
      let found = get_block_number d lru x hash c.hc in
      get_block_at hash found.0 (record c { hc = found.1 })

  unfoldable pub get_block_by_number : ℕ → Chain S C B → Option Block × Chain S C B
  unfolding get_block
  get_block_by_number number c =
      let hash = read_canonical_hash d number c.hc.chain_db in
      if hash == zero_hash then (none, c) else get_block hash number c

  blocks_loop : ℕ → Hash → ℕ → Chain S C B → List Block × Chain S C B
  unfolding get_block
  blocks_loop zero hash number c = ([], c)
  blocks_loop (suc n) hash number c =
      let found = get_block hash number c in
      elim found.0 [
        | none ↦ ([], found.1)
        | some b ↦
            let rest = blocks_loop n b.header.parent_hash (pred_u64 number) found.1 in
            (b ∷ rest.0, rest.1)
      ]

  unfoldable pub get_blocks_from_hash : Hash → ℕ → Chain S C B → List Block × Chain S C B
  unfolding blocks_loop
  get_blocks_from_hash hash n c =
      let found = get_block_number d lru x hash c.hc in
      let c' : Chain S C B = record c { hc = found.1 } in
      elim found.0 [ none ↦ ([], c') | some number ↦ blocks_loop n hash number c' ]

  unfoldable pub write_valid : Block → Option Error × Chain S C B → Option Error × Chain S C B
  unfolding with_db
  write_valid b (some e, c) = (some e, c)
  write_valid b (none, c) = (none, with_db (write_block d x b c.hc.chain_db) c)

  module _ (validate_body : BodyValidator S C B) where
    -- `WriteBlock`
    unfoldable pub write_chain_block : Block → Chain S C B → Outcome (Option Error × Chain S C B)
    unfolding write_valid with_db
    write_chain_block b c = do checked ← validate_body b c; ok (write_valid b checked)

  -- `WriteDepositBlock`
  unfoldable pub write_deposit_block : Block → Chain S C B → Outcome (Option Error × Chain S C B)
  unfolding with_db
  write_deposit_block b c = ok (none, with_db (write_block d x b c.hc.chain_db) c)

  unfoldable pub replace_head : Block → Chain S C B → Chain S C B
  unfolding insert
  replace_head b c = insert b c

  -- `FastSyncCommitHead`; the error is a text of its own
  unfoldable pub fast_sync_commit_head : Hash → Chain S C B → Option Error × Chain S C B
  unfolding get_block_by_hash
  fast_sync_commit_head hash c =
      let found = get_block_by_hash hash c in
      elim found.0 [
        | none ↦ (some external, found.1)
        | some b ↦ (none, record (found.1) { current_block = b })
      ]

  -- the header of `hash` where it is named and found, else the one of the head block
  head_header : Hash → Header → Chain S C B → Header × HeaderChain S C
  head_header hash h c =
      if hash == zero_hash
      then (h, c.hc)
      else (let found = get_header_by_hash d lru x hash c.hc in
          elim found.0 [ none ↦ (h, found.1) | some h' ↦ (h', found.1) ])

  fast_block : Hash → Chain S C B → Chain S C B
  unfolding get_block_by_hash
  fast_block hash c =
      if hash == zero_hash
      then c
      else (let found = get_block_by_hash hash c in
          elim found.0 [ none ↦ found.1 | some b ↦ record (found.1) { current_fast_block = b } ])

  restore : Block → Chain S C B → Chain S C B
  unfolding head_header fast_block
  restore b c0 =
      let c : Chain S C B = record c0 { current_block = b } in
      let h = head_header (read_head_header_hash d c.hc.chain_db) b.header c in
      let c1 : Chain S C B = record c {
        hc = set_current_header d lru x h.0 h.1;
        current_fast_block = b;
      } in
      fast_block (read_head_fast_block_hash d c1.hc.chain_db) c1

  -- `loadLastState`
  unfoldable pub load_last_state : Chain S C B → Option Error × Chain S C B
  unfolding get_block_by_hash restore
  load_last_state c =
      let head = read_head_block_hash d c.hc.chain_db in
      if head == zero_hash
      then (some head_not_found, c)
      else (let found = get_block_by_hash head c in
          elim found.0 [
            | none ↦ (some head_not_found, found.1)
            | some b ↦ (none, restore b found.1)
          ])
