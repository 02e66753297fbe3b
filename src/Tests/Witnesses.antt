-- ===== src/Tests/Witnesses.antt =====
-- The theorems at concrete inputs of the code: the payment of block 1000, its block, and the
-- database over a file.
use plasma.BlockValidator.{is_spent, mark_input, mark_inputs, validate_txs}
use plasma.BlockValidator.Conserves.{
  validate_txs_conserves, total_fee, validate_txs_iff, total_out, total_at,
}
use plasma.BlockValidator.Distinct.{Distinct}
use plasma.BlockValidator.Spent.{Exists, spent_ids}
use plasma.Operator.{operator_write_block, Operator}
use plasma.Operator.Atomic.{operator_write_block-Atomic, writes_of, view_after}
use plasma.Prelude.{List, ◌≡◌, refl, ◌↔◌, false, Option, none, some, [], ◌∷◌, arith, All}
use plasma.Prelude.Int.{pos, ◌+ℤ◌}
use plasma.Prelude.Outcome.{ok, Error}
use plasma.RawDb.Accessors.{encode_utxo, write_utxo, delete_utxo, read_utxo}
use plasma.RawDb.Schema.{utxo_key}
use plasma.RawDb.Schema.Injective.{Key, encode-injective}
use plasma.RawDb.Utxos.{read_utxo-write_utxo, read_utxo-delete_utxo}
use plasma.Store.{after_writes, Write}
use plasma.Store.Laws.{is_some, IsStore}
use plasma.Store.LevelDb.{ldb_put, ldb_delete, ldb_database}
use plasma.Store.LevelDb.Refines.{ldb_database-IsStore, LdbModels}
use plasma.Store.Memory.{new_mem_database}
use plasma.Tests.{
  paid_output, keep_journal, validate_nothing, one_pooled, small_chain, small_operator, block_at,
  accept_body, libraries, no_block_cache, no_header_cache, get_output, file_db-Laws, empty_view,
  sender_three, open_state, empty_pool, closed_state, size_zero, payment, hash_tx, file_db,
  FileState,
}
use plasma.Tests.Files.{file_store, closed_models}
use plasma.TxPool.{lookup_add, add, lookup_get}
use plasma.TxPool.InSync.{add-Added, InSync, Added}
use plasma.TxValidator.{check_output, check_input, validate}
use plasma.TxValidator.Accepts.{validate-iff-Accepts, Accepts}
use plasma.TxValidator.Total.{validate_rejects_deposit}
use plasma.Types.Transaction.{get_ins_copy, is_deposit_tx}
use plasma.Types.Utxo.{Utxo, is_null_utxo, id_equals, utxo_equals}
use plasma.Store.Memory

open_models : LdbModels file_db (λ b. b) open_state empty_view (some [])
open_models = record { shown = λ j. refl; waiting = (refl, refl) }

payment-valid : validate size_zero sender_three get_output payment ≡ ok tt
unfolding validate check_input check_output utxo_equals id_equals ◌+ℤ◌
payment-valid = refl

payments-valid :
    validate_txs (validate size_zero sender_three get_output) get_output [] (payment ∷ []) ≡ ok tt
unfolding validate_txs validate check_input check_output utxo_equals id_equals mark_inputs
    mark_input is_spent is_null_utxo get_ins_copy ◌+ℤ◌
payments-valid = refl

payment-is_local : InSync hash_tx empty_pool
unfolding lookup_get
payment-is_local h = refl

operator_write_block_example :
    (q : Option Error × Operator FileState (Unit {0}) (Unit {0})) × (operator_write_block
        (ldb_database file_db)
        no_header_cache
        no_block_cache
        libraries
        accept_body
        (block_at 1000)
        small_operator
      ≡ ok q)
    × LdbModels file_db
        (λ b. b)
        q.1.chain.hc.chain_db
        (view_after q.0
          (writes_of
            (ldb_database file_db)
            file_store
            no_header_cache
            no_block_cache
            libraries
            accept_body
            (block_at 1000)
            small_chain)
          empty_view)
        none
operator_write_block_example =
    operator_write_block-Atomic (ldb_database file_db) file_store no_header_cache no_block_cache
      libraries accept_body (block_at 1000) small_operator (((pos 11, refl), (pos 0, refl)), tt)
      (λ c. ((none, c), refl, refl, refl)) closed_models

validate_txs_conserves_example :
    All (Exists get_output) (spent_ids (payment ∷ []))
    × Distinct (spent_ids (payment ∷ []))
    × (total_at get_output (spent_ids (payment ∷ []))
        ≡ total_out (payment ∷ []) +ℤ total_fee (payment ∷ []))
validate_txs_conserves_example =
    validate_txs_conserves size_zero sender_three get_output (payment ∷ []) payments-valid

validate_txs_iff_example :
    (validate_txs (validate size_zero sender_three get_output) get_output [] (payment ∷ []) ≡ ok tt)
    ↔ (All (λ tx. validate size_zero sender_three get_output tx ≡ ok tt) (payment ∷ [])
        × Distinct (spent_ids (payment ∷ [])))
validate_txs_iff_example = validate_txs_iff size_zero sender_three get_output (payment ∷ [])

validate-iff-Accepts_example :
    (validate size_zero sender_three get_output payment ≡ ok tt)
    ↔ Accepts size_zero sender_three get_output payment
validate-iff-Accepts_example = validate-iff-Accepts size_zero sender_three get_output payment

validate_rejects_deposit_example : is_deposit_tx payment ≡ false
validate_rejects_deposit_example =
    validate_rejects_deposit size_zero sender_three get_output payment payment-valid

add_run : add hash_tx validate_nothing keep_journal payment false empty_pool ≡ ok (none, one_pooled)
unfolding add lookup_add
add_run = refl

add_example : Added hash_tx validate_nothing keep_journal payment empty_pool (none, one_pooled)
add_example =
    add-Added hash_tx validate_nothing keep_journal payment false empty_pool (none, one_pooled)
      payment-is_local add_run

ldb_database-IsStore_example : IsStore (ldb_database file_db) (LdbModels file_db (λ b. b))
ldb_database-IsStore_example = ldb_database-IsStore file_db (λ b. b) file_db-Laws

written_run :
    write_utxo (ldb_database file_db) paid_output closed_state
    ≡ ok (ldb_put file_db (utxo_key 1000 0 0) (encode_utxo 4 11) closed_state)
unfolding write_utxo ldb_database
written_run = refl

read_utxo-write_utxo_example :
    read_utxo
      (ldb_database file_db)
      paid_output.id
      (ldb_put file_db (utxo_key 1000 0 0) (encode_utxo 4 11) closed_state).1
    ≡ ok (some paid_output)
unfolding id_equals ldb_put
read_utxo-write_utxo_example =
    read_utxo-write_utxo (ldb_database file_db) file_store paid_output 11 paid_output.id
      (ldb_put file_db (utxo_key 1000 0 0) (encode_utxo 4 11) closed_state).1 closed_models
      (omega arith, omega arith, omega arith) (omega arith, omega arith, omega arith) (omega arith)
      refl written_run

read_utxo-delete_utxo_example :
    read_utxo
      (ldb_database file_db)
      paid_output.id
      (delete_utxo (ldb_database file_db) paid_output.id closed_state).1
    ≡ ok none
unfolding id_equals
read_utxo-delete_utxo_example =
    read_utxo-delete_utxo (ldb_database file_db) file_store paid_output.id paid_output.id
      closed_models (omega arith, omega arith, omega arith) (omega arith, omega arith, omega arith)
      (unfold delete_utxo ldb_database ldb_delete in refl)

encode-injective_example : Key.utxo 1000 0 1 ≡ Key.utxo 1000 0 1
encode-injective_example =
    encode-injective (Key.utxo 1000 0 1) (Key.utxo 1000 0 1) (omega arith, omega arith, omega arith)
      (omega arith, omega arith, omega arith) refl

run-after_writes_example :
    let writes : List Write = Write.put (7 ∷ []) (8 ∷ []) ∷ Write.delete (6 ∷ []) ∷ [] in
    ((Memory.run writes new_mem_database).0 ≡ none)
    × (Memory.get (7 ∷ []) (Memory.run writes new_mem_database).1
        ≡ after_writes writes (7 ∷ []) (Memory.get (7 ∷ []) new_mem_database))
    × (Memory.has (7 ∷ []) (Memory.run writes new_mem_database).1
        ≡ some (is_some (after_writes writes (7 ∷ []) (Memory.get (7 ∷ []) new_mem_database))))
run-after_writes_example =
    Memory.run-after_writes (Write.put (7 ∷ []) (8 ∷ []) ∷ Write.delete (6 ∷ []) ∷ []) (7 ∷ [])
      new_mem_database
