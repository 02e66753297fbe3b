-- ===== src/BlockValidator.antt =====
-- core/block_validator.go: `UtxoBlockValidator`. The block reader's `HasBlock`, the transaction
-- validator and the reader of the unspent outputs are parameters.
pub mod Distinct
pub mod Spent
pub mod Conserves
use plasma.Bytes.{Hash}
use plasma.Prelude.{
  ℕ, Bool, true, false, not, Option, none, some, List, [], ◌∷◌, ◌==◌, if◌then◌else◌,
}
use plasma.Prelude.Outcome.{
  tx_root_mismatch, known_block, duplicate_spent, Outcome, ok, err, panic, ◌>>=◌, ◌>>◌, return_if,
}
use plasma.Types.Block.{number_u64, Block}
use plasma.Types.External.{derive_sha, block_hash, External}
use plasma.Types.Transaction.{get_ins_copy, Transaction}
use plasma.Types.Utxo.{id_equals, is_null_utxo, Utxo, UtxoId}

-- `_, exist := spent[in.ID()]`
unfoldable pub is_spent : UtxoId → List UtxoId → Bool
is_spent id [] = false
is_spent id (s ∷ spent) = if id_equals s id then true else is_spent id spent

-- a missing output here ends the process, by `log.Fatal`
abbrev mark_found : UtxoId → List UtxoId → Option Utxo → Outcome (List UtxoId)
mark_found id spent none = panic
mark_found id spent (some u) = ok (id ∷ spent)

module _ (get : UtxoId → Outcome (Option Utxo)) where
  -- one round of the inner loop; `spent` holds the keys of the map
  unfoldable pub mark_input : List UtxoId → Utxo → Outcome (List UtxoId)
  unfolding is_spent
  mark_input spent i =
      if is_null_utxo i
      then ok spent
      else if is_spent i.id spent
      then err duplicate_spent
      else do found ← get i.id; mark_found i.id spent found

  unfoldable pub mark_inputs : List UtxoId → List Utxo → Outcome (List UtxoId)
  unfolding mark_input
  mark_inputs spent [] = ok spent
  mark_inputs spent (i ∷ ins) = do spent' ← mark_input spent i; mark_inputs spent' ins

module _ (validate_one : Transaction → Outcome (Unit {0}))
    (get : UtxoId → Outcome (Option Utxo)) where
  -- `validateTx`
  unfoldable pub validate_txs : List UtxoId → List Transaction → Outcome (Unit {0})
  unfolding mark_inputs
  validate_txs spent [] = ok tt
  validate_txs spent (tx ∷ txs) = do
    validate_one tx
    spent' ← mark_inputs get spent (get_ins_copy tx)
    validate_txs spent' txs

  unfoldable pub validate_body : (Hash → ℕ → Bool) → External → Block → Outcome (Unit {0})
  unfolding validate_txs
  validate_body has_block x b = do
    return_if (has_block (block_hash x b) (number_u64 b)) known_block
    return_if (not (derive_sha x b.transactions == b.header.tx_hash)) tx_root_mismatch
    validate_txs [] b.transactions
