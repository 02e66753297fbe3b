-- ===== src/UtxoSet.antt =====
-- core/utxo_set.go: `UTXOSet`, the unspent outputs in the database, by which the operator and the
-- validators read and change them (`UtxoReaderWriter` of core/interfaces.go).
use plasma.Prelude.{Option}
use plasma.Prelude.Outcome.{Outcome, Error}
use plasma.RawDb.Accessors.{write_utxo, read_utxo, delete_utxo}
use plasma.Store.{Database}
use plasma.Types.Utxo.{UtxoId, Utxo}

module _ {S : Type 0} (d : Database S) where
  unfoldable pub get_utxo : UtxoId → S → Outcome (Option Utxo)
  get_utxo id s = read_utxo d id s

  unfoldable pub del_utxo : UtxoId → S → Option Error × S
  del_utxo id s = delete_utxo d id s

  unfoldable pub put_utxo : Utxo → S → Outcome (Option Error × S)
  put_utxo v s = write_utxo d v s
