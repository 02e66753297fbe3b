-- ===== src/Tests/Imports.antt =====
-- The theorems on the journal, the start of the pool and the import of blocks at concrete inputs: a
-- journal of payments, and two blocks of which one is of the future.
use plasma.Chain.{Chain}
use plasma.Chain.Import.{insert_one, BlockSets, insert_chain, chain_event}
use plasma.Chain.Import.Posts.{Posted, insert_chain-Posted}
use plasma.HeaderChain.Import.{is_contiguous}
use plasma.Prelude.{
  true, ◌≤◌, ◌≡◌, refl, false, Option, none, some, List, [], ◌∷◌, ◌++◌, map, length, All,
}
use plasma.Prelude.Outcome.{future_block, Outcome, ok, ◌>>=◌, Error}
use plasma.Tests.{
  validate_nothing, hash_tx, sender_three, block_at, small_chain, header_at, payment, libraries,
  FileState,
}
use plasma.TxJournal.{load_loop, insert, TxJournal, Os, Adds, Writer, rotate, load}
use plasma.TxJournal.Restores.{load-restores, add_each, insert_each, concat}
use plasma.TxPool.{add, TxPool, TxPoolConfig, add_locals, add_txs_locked, lookup_get}
use plasma.TxPool.Start.{new_tx_pool, new_tx_pool-empties_journal}
use plasma.Types.Block.{header_number, Block}
use plasma.Types.External.{header_hash, block_hash}
use plasma.Types.Transaction.{decoded, Transaction}

abbrev calm_os : Os
calm_os = record {
  open_file = none;
  create_file = none;
  append_file = none;
  rename_file = none;
  close_file = none;
  encode = λ tx. none;
  write = λ tx. none;
  torn = λ f. f;
}

abbrev empty_journal : TxJournal
empty_journal = record { writer = Writer.closed; file = none }

abbrev full_journal : TxJournal
full_journal = record {
  writer = Writer.sink;
  file = some (record { txs = decoded payment ∷ decoded payment ∷ []; broken = false });
}

abbrev collect : Adds (List Transaction)
collect txs kept = ok (map (λ tx. none) txs, kept ++ txs)

journal_run :
    insert_each calm_os (payment ∷ []) (rotate calm_os ((3, payment ∷ []) ∷ []) empty_journal)
    ≡ (none, full_journal)
unfolding rotate insert
journal_run = refl

load-restores_example :
    (batches : List (List Transaction)) × ((p : List Transaction)
      → load collect calm_os full_journal p ≡ (
          add_each collect batches p >>= λ p'.
          ok (none, (record full_journal { writer = Writer.closed }, p'))))
    × (concat batches ≡ decoded payment ∷ decoded payment ∷ [])
    × All (λ batch. (1 ≤ length batch) × (length batch ≤ 1025)) batches
load-restores_example =
    load-restores collect calm_os ((3, payment ∷ []) ∷ []) (payment ∷ []) empty_journal full_journal
      journal_run refl

abbrev list_sets : BlockSets (List Block)
list_sets = record {
  add_future = λ b bs. b ∷ bs;
  has_future = λ h bs. false;
  future_blocks = λ bs. bs;
  add_bad = λ b bs. bs;
}

abbrev write_always :
    Block
    → Chain FileState (Unit {0}) (Unit {0})
    → Outcome (Option Error × Chain FileState (Unit {0}) (Unit {0}))
write_always b c = ok (none, c)

-- the block after `block_at 1000`
abbrev next_block : Block
next_block = record { header = record (header_at 1001) { parent_hash = 1001 }; transactions = [] }

import_run :
    insert_chain list_sets libraries write_always 9
      (λ n. false)
      ((block_at 1000, none) ∷ (next_block, some future_block) ∷ [])
      (small_chain, [])
    ≡ ok ((0, chain_event (block_at 1000) ∷ [], none), (small_chain, next_block ∷ []))
unfolding insert_chain insert_one block_hash header_hash header_number is_contiguous
import_run = refl

insert_chain-Posted_example :
    Posted list_sets libraries write_always 9
      (λ n. false)
      []
      none
      (small_chain, [])
      (chain_event (block_at 1000) ∷ [])
      (small_chain, next_block ∷ [])
insert_chain-Posted_example =
    insert_chain-Posted list_sets libraries write_always 9 (λ n. false)
      ((block_at 1000, none) ∷ (next_block, some future_block) ∷ []) (small_chain, []) 0
      (chain_event (block_at 1000) ∷ []) (small_chain, next_block ∷ []) import_run

abbrev local_config : TxPoolConfig
local_config = record { no_locals = false; rejournal = 1; price_limit = 1; price_bump = 10 }

-- a journal of one payment, which the pool takes over
start_run :
    (p : TxPool TxJournal) × (new_tx_pool sender_three hash_tx validate_nothing calm_os local_config
        true
        (some (record { txs = payment ∷ []; broken = false }))
      ≡ ok p)
unfolding new_tx_pool load load_loop add_locals add_txs_locked add lookup_get
start_run = (_, refl)

new_tx_pool-empties_journal_example :
    start_run.0.journal
    ≡ some (record { writer = Writer.sink; file = some (record { txs = []; broken = false }) })
new_tx_pool-empties_journal_example =
    new_tx_pool-empties_journal sender_three hash_tx validate_nothing calm_os local_config
      (some (record { txs = payment ∷ []; broken = false })) start_run.0 refl refl refl refl refl
      (λ tx e. cc) start_run.1
