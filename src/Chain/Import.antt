-- ===== src/Chain/Import.antt =====
-- core/blockchain.go: batches of blocks. The verifier's answers, `procInterrupt` and
-- the clock are parameters, as are the LRU caches of future and bad blocks and `WriteBlock`.
pub mod Posts
use plasma.Bytes.{Hash}
use plasma.Chain.{Chain}
use plasma.HeaderChain.Import.{is_contiguous}
use plasma.Prelude.{
  ℕ, ◌+◌, Bool, not, Option, none, some, List, [], ◌∷◌, ◌++◌, map, ltb, leb, ◌==◌, if◌then◌else◌,
  length,
}
use plasma.Prelude.Outcome.{
  ◌>>=◌, known_block, future_block, unknown_ancestor, external, non_contiguous_insert, Outcome, ok,
  Error,
}
use plasma.Types.Block.{number_u64, Block}
use plasma.Types.External.{block_hash, External}

-- the caches of future and bad blocks
pub record BlockSets (F : Type 0) : Type 0 where
  pub add_future : Block → F → F
  pub has_future : Hash → F → Bool
  pub future_blocks : F → List Block
  pub add_bad : Block → F → F

-- what `InsertChain` posts
pub data ChainEvent : Type 0 where
  chain_event chain_head_event : Block → ChainEvent

abbrev pub max_time_future_blocks : ℕ
max_time_future_blocks = 30

-- what the body of the loop of `insertChain` decides
pub data Inserted (St : Type 0) : Type 0 where
  skipped : St → Inserted St
  written : St → Inserted St
  failed : Error → St → Inserted St

module _ {S C B F : Type 0} (sets : BlockSets F) (x : External)
    (write_block : Block → Chain S C B → Outcome (Option Error × Chain S C B)) where
  -- the chain, and the caches of blocks
  abbrev pub Importer : Type 0
  Importer = Chain S C B × F

  write_one : Block → Importer → Outcome (Inserted Importer)
  write_one b i = do
    done ← write_block b i.0
    ok (elim done.0 [ some e ↦ failed e (done.1, i.1) | none ↦ written (done.1, i.1) ])

  queue : Block → Importer → Inserted Importer
  queue b i = skipped (i.0, sets.add_future b i.1)

  -- the verifier's answer for one block; `now` is in seconds
  unfoldable pub insert_one : ℕ → Block → Option Error → Importer → Outcome (Inserted Importer)
  unfolding write_one queue
  insert_one now b none i = write_one b i
  insert_one now b (some known_block) i =
      if leb (number_u64 b) (number_u64 i.0.current_block) then ok (skipped i) else write_one b i
  insert_one now b (some future_block) i =
      if ltb (now + max_time_future_blocks) b.header.time
      then ok (failed external i)
      else ok (queue b i)
  insert_one now b (some unknown_ancestor) i =
      if sets.has_future b.header.parent_hash i.1
      then ok (queue b i)
      else ok (failed unknown_ancestor (i.0, sets.add_bad b i.1))
  insert_one now b (some e) i = ok (failed e (i.0, sets.add_bad b i.1))

  -- the index, the events and the error, and the state
  abbrev pub Import : Type 0
  Import = (ℕ × List ChainEvent × Option Error) × Importer

  -- the event of a new head, where the last written block is the current one
  unfoldable pub head_event : Option Block → Importer → List ChainEvent
  head_event none i = []
  head_event (some b) i =
      if block_hash x i.0.current_block == block_hash x b then chain_head_event b ∷ [] else []

  module _ (now : ℕ) (interrupted : ℕ → Bool) where
    insert_loop :
        ℕ → List (Block × Option Error) → List ChainEvent → Option Block → Importer → Outcome Import
    unfolding head_event insert_one
    insert_loop n [] events last i = ok ((0, events ++ head_event last i, none), i)
    insert_loop n ((b, verified) ∷ blocks) events last i =
        let skip = insert_loop (n + 1) blocks events last in
        let go_on = insert_loop (n + 1) blocks (events ++ chain_event b ∷ []) (some b) in
        if interrupted n then ok ((0, events ++ head_event last i, none), i) else (do
          done ← insert_one now b verified i
          elim done [
            | skipped i' ↦ skip i'
            | written i' ↦ go_on i'
            | failed e i' ↦ ok ((n, events, some e), i')
          ])

    -- `insertChain`, with one answer of the verifier for each block
    unfoldable pub insert_chain : List (Block × Option Error) → Importer → Outcome Import
    unfolding insert_loop
    insert_chain blocks i =
        if length blocks == 0
        then ok ((0, [], none), i)
        else if not (is_contiguous x (map (λ b. b.0.header) blocks))
        then ok ((0, [], some non_contiguous_insert), i)
        else insert_loop 0 blocks [] none i

  -- `procFutureBlocks`: every block of the cache, by number, on its own; results are dropped
  proc_each : ℕ → (ℕ → Bool) → (Block → Option Error) → List Block → Importer → Outcome Importer
  proc_each now interrupted verify [] i = ok i
  proc_each now interrupted verify (b ∷ blocks) i = do
    done ← insert_chain now interrupted ((b, verify b) ∷ []) i
    proc_each now interrupted verify blocks done.1

  unfoldable pub proc_future_blocks :
      ℕ
      → (ℕ → Bool)
      → (Block → Option Error)
      → (List Block → List Block)
      → Importer
      → Outcome Importer
  unfolding proc_each
  proc_future_blocks now interrupted verify sort i =
      proc_each now interrupted verify (sort (sets.future_blocks i.1)) i
