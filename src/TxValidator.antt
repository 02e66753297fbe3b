-- ===== src/TxValidator.antt =====
-- core/tx_validator.go: when a transaction may be spent. The signer, the size of the encoding and
-- the reader of the unspent outputs (`UtxoReader` of core/interfaces.go) are parameters.
pub mod Accepts
pub mod Total
use plasma.Bytes.{Address}
use plasma.Prelude.{ℕ, ◌*◌, Bool, Option, none, some, List, [], ◌∷◌, ltb, ◌==◌, if◌then◌else◌}
use plasma.Prelude.Int.{ℤ, pos, ◌+ℤ◌, leb_ℤ, eqb_ℤ}
use plasma.Prelude.Outcome.{
  Outcome, ok, err, panic, ◌>>=◌, ◌>>◌, return_if, oversized_data, not_enough_tx_fee,
  invalid_sender, duplicate_spent, already_spent, tx_out_not_owned, invalid_output_amount,
  tx_total_amount_not_equal,
}
use plasma.Types.Transaction.{Transaction, get_outs_copy}
use plasma.Types.Utxo.{UtxoId, TxOut, Utxo, utxo_equals}

-- every error of `types.Sender` is reported as this one
abbrev or_invalid_sender : Outcome (Address × Address) → Outcome (Address × Address)
or_invalid_sender (ok a) = ok a
or_invalid_sender (err e) = err invalid_sender
or_invalid_sender panic = panic

-- `totalInAmount.Add(totalInAmount, utxo.Amount)`; a nil amount panics
abbrev add_amount : ℤ → Option ℤ → Outcome ℤ
add_amount total none = panic
add_amount total (some a) = ok (total +ℤ a)

abbrev spend_found : Address → ℤ → Option Utxo → Outcome ℤ
spend_found sender total none = err already_spent
spend_found sender total (some u) =
    if u.out.owner == sender then add_amount total u.out.amount else err tx_out_not_owned

-- one round of the loop over the outputs; no amount, or zero, is passed over
unfoldable pub check_output : Option ℤ → ℤ → Outcome ℤ
check_output none total = ok total
check_output (some a) total =
    if eqb_ℤ a (pos 0)
    then ok total
    else if leb_ℤ a (pos 0)
    then err invalid_output_amount
    else ok (total +ℤ a)

module _ (get : UtxoId → Outcome (Option Utxo)) where
  -- one round of the loop over the inputs; an input of block 0 is passed over
  unfoldable pub check_input : Utxo → Address → ℤ → Outcome ℤ
  check_input i sender total =
      if i.id.block_num == 0 then ok total else do found ← get i.id; spend_found sender total found

module _ (size_of : Transaction → ℕ) (sender_of : Transaction → Outcome (Address × Address))
    (get : UtxoId → Outcome (Option Utxo)) where
  -- `Validate`
  unfoldable pub validate : Transaction → Outcome (Unit {0})
  validate tx = do
    return_if (ltb (32 * 1024) (size_of tx)) oversized_data
    return_if (leb_ℤ tx.fee (pos 0)) not_enough_tx_fee
    senders ← or_invalid_sender (sender_of tx)
    return_if (utxo_equals tx.ins.0 tx.ins.1) duplicate_spent
    first_in ← check_input get tx.ins.0 senders.0 (pos 0)
    total_in ← check_input get tx.ins.1 senders.1 first_in
    first_out ← check_output tx.outs.0.amount (pos 0)
    total_out ← check_output tx.outs.1.amount first_out
    if eqb_ℤ total_in (total_out +ℤ tx.fee) then ok tt else err tx_total_amount_not_equal
