-- ===== src/Tests/Reorgs.antt =====
-- The pool's `reset` at a concrete input: two blocks on top of one, of which the other is the new
-- head.
use plasma.Bytes.{Hash}
use plasma.HeaderChain.{pred_u64}
use plasma.Prelude.{
  ℕ, ◌+◌, ◌*◌, ◌%◌, ◌^◌, ◌-◌, ◌≤◌, ◌≡◌, refl, ap, ◌⊎◌, false, ◌&&◌, Option, none, some, List, [],
  ◌∷◌, arith, ◌==◌, if◌then◌else◌,
}
use plasma.Prelude.Outcome.{ok, ◌>>=◌}
use plasma.SenderCacher.{block_txs}
use plasma.Tests.{
  libraries, header_at, block_at, payment, empty_pool, hash_tx, validate_nothing, keep_journal,
}
use plasma.TxPool.{add_txs_locked}
use plasma.TxPool.Reset.{parent_block, reset}
use plasma.TxPool.Reset.Reinjects.{
  BlockFork, NoBlockFork, NearestFork, BlocksNumbered, reset-Reinjects,
}
use plasma.Types.Block.{Block, number_u64, header_number}
use plasma.Types.External.{External, header_hash, block_hash}
use plasma.Types.Transaction.{tx_difference}

-- a codec whose hashes are the number, times 16, and the time
abbrev number_codec : External
number_codec = record libraries { rlp_header = λ h. (h.number % 2 ^ 64 * 16 + h.time % 16) ∷ [] }

-- the hash of the genesis block is 0, those of the two blocks on top are 16 and 21
abbrev old_block : Block
old_block = record { header = header_at 1; transactions = payment ∷ [] }

abbrev new_block_one : Block
new_block_one = record { header = record (header_at 1) { time = 5 }; transactions = [] }

abbrev small_blocks : Hash → ℕ → Option Block
small_blocks h n =
    if h == 0 && n == 0
    then some (block_at 0)
    else if h == 16 && n == 1
    then some old_block
    else if h == 21 && n == 1
    then some new_block_one
    else none

abbrev distance : ℕ → ℕ → ℕ
distance a b = (a - b) + (b - a)

blocks_number : (h n : ℕ) (p : Block) → small_blocks h n ≡ some p → (number_u64 p ≡ n) × (n ≤ 1)
unfolding number_u64 header_number
blocks_number h n p e = ground (arith, ap number_u64)

blocks-IsNumbered : BlocksNumbered number_codec small_blocks
unfolding parent_block number_u64 header_number
blocks-IsNumbered b p e =
    let at = blocks_number b.header.parent_hash (pred_u64 (number_u64 b)) p e in
    omega (arith, at.0, at.1)

blocks-apart :
    (b c : Block)
    → block_hash number_codec b ≡ block_hash number_codec c
    → number_u64 b ≡ number_u64 c
unfolding block_hash number_u64 header_number
blocks-apart b c e = omega (arith, e)

reset-Reinjects_example :
    ((reset number_codec small_blocks distance hash_tx validate_nothing keep_journal 2
          (some old_block.header)
          (some new_block_one.header)
          empty_pool
        ≡ some (ok empty_pool))
      × NoBlockFork number_codec small_blocks old_block new_block_one)
    ⊎ ((os : List Block) × (ns : List Block) × (c : Block) × (e : Block) × (reset number_codec
            small_blocks distance hash_tx validate_nothing keep_journal 2
            (some old_block.header)
            (some new_block_one.header)
            empty_pool
          ≡ some (
              add_txs_locked hash_tx validate_nothing keep_journal
                (tx_difference hash_tx (block_txs os) (block_txs ns))
                false
                empty_pool
              >>= λ added. ok added.1))
        × BlockFork number_codec small_blocks old_block new_block_one os ns c e
        × NearestFork number_codec small_blocks old_block new_block_one os ns)
unfolding header_hash header_number number_u64
reset-Reinjects_example =
    reset-Reinjects number_codec small_blocks distance hash_tx validate_nothing keep_journal 2
      old_block.header new_block_one.header old_block new_block_one empty_pool blocks-IsNumbered
      (λ os ns c e line line' same. blocks-apart c e same) (λ e. omega (arith, e)) (omega arith)
      refl refl (omega arith) (omega arith)
