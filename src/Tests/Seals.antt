-- ===== src/Tests/Seals.antt =====
-- What the operator does with transactions at concrete inputs: `Seal` over a pool of the payment
-- that is sealed, and a proof in a block of two payments.
use plasma.Bytes.{Bytes, put_uint, Hash}
use plasma.Merkle.{MerkleTree, new_merkle_tree, verify}
use plasma.Operator.{seal}
use plasma.Operator.Drains.{seal-Drains, first_error, is_sealed}
use plasma.Operator.Loop.{tx_hashes, merkle_proof_of_tx, merkle_proof_of_tx-Verifies}
use plasma.Prelude.{false, if◌then◌else◌, ◌≡◌, refl, none, [], ◌∷◌, take, arith, true, some, List}
use plasma.Prelude.Outcome.{ok}
use plasma.Store.LevelDb.{ldb_database}
use plasma.Tests.{
  header_at, one_pooled, small_operator, accept_body, payment, no_block_cache, no_header_cache,
  libraries, file_db, empty_pool, validate_nothing, keep_journal,
}
use plasma.Tests.Nodes.{made_block, seal_write, submit_always}
use plasma.TxPool.{TxPool, remove_tx, get_pooled, add, lookup_add}
use plasma.TxPool.Reachable.{PoolReach, PoolStep, PoolReach-Agrees}
use plasma.TxPool.Removal.{Agrees}
use plasma.Types.Block.{Block}
use plasma.Types.External.{tx_hash}

-- the pool of the payment, under its hash
abbrev sealed_pool : TxPool (Unit {0})
sealed_pool = record one_pooled { all = (1001, payment) ∷ [] }

sealed_run :
    add (tx_hash libraries) validate_nothing keep_journal payment false empty_pool
    ≡ ok (none, sealed_pool)
unfolding add lookup_add tx_hash
sealed_run = refl

sealed_pool-Agrees : Agrees (tx_hash libraries) sealed_pool
sealed_pool-Agrees =
    PoolReach-Agrees (tx_hash libraries) validate_nothing keep_journal refl refl
      (PoolReach.next PoolReach.here (PoolStep.added payment false none sealed_run))

seal-Drains_example :
    (p' : TxPool (Unit {0})) × (seal
        (ldb_database file_db)
        no_header_cache
        no_block_cache
        libraries
        accept_body
        (remove_tx (tx_hash libraries))
        submit_always
        5
        (payment ∷ [])
        sealed_pool
        small_operator
      ≡ ok (first_error seal_write.0.0 none, (p', seal_write.0.1)))
    × Agrees (tx_hash libraries) p'
    × ((k : Hash)
        → get_pooled k p' ≡ (
            if is_sealed libraries seal_write.0.0 made_block.0.transactions k
            then none
            else get_pooled k sealed_pool))
seal-Drains_example =
    seal-Drains (ldb_database file_db) no_header_cache no_block_cache libraries accept_body
      submit_always 5 (payment ∷ []) sealed_pool small_operator seal_write.0.1 seal_write.0.0
      sealed_pool-Agrees seal_write.1

abbrev two_payments : Block
two_payments = record { header = header_at 1000; transactions = payment ∷ payment ∷ [] }

merkle_proof_of_tx-Verifies_example :
    (t : MerkleTree) × (new_merkle_tree (take 2) (tx_hashes libraries (payment ∷ payment ∷ []))
      ≡ some t)
    × (proof : List Bytes) × (merkle_proof_of_tx libraries (take 2) two_payments 1 ≡ ok proof)
    × (verify (take 2) (put_uint 32 (tx_hash libraries payment)) t.root 1 proof ≡ true)
merkle_proof_of_tx-Verifies_example =
    merkle_proof_of_tx-Verifies libraries (take 2) 0 two_payments 1 payment refl (omega arith) refl
