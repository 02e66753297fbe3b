-- ===== src/Types/Transaction.antt =====
-- core/types/transaction.go: a transaction spends two outputs and makes two. A `[2]` array is a
-- pair. A `Sig` holds the values of a signature; no signature at all is `none`.
pub mod Remove
use plasma.Bytes.{Hash}
use plasma.Prelude.{
  ℕ, zero, suc, ◌-◌, Bool, true, false, ◌&&◌, Option, none, some, List, [], ◌∷◌, ◌++◌, ◌==◌, length,
  get_elem?, take, if◌then◌else◌,
}
use plasma.Prelude.Int.{ℤ, pos}
use plasma.Types.Utxo.{Utxo, TxOut}

pub record Sig : Type 0 where
  pub v : ℕ
  pub r : ℕ
  pub s : ℕ

-- the fields of `txdata`
pub record Transaction : Type 0 where
  pub ins : Utxo × Utxo
  pub outs : TxOut × TxOut
  pub fee : ℤ
  pub sigs : Option Sig × Option Sig

unfoldable pub new_transaction : Utxo → Utxo → TxOut → TxOut → ℤ → Transaction
new_transaction in1 in2 out1 out2 fee = record {
  ins = (in1, in2);
  outs = (out1, out2);
  fee = fee;
  sigs = (none, none);
}

unfoldable pub is_deposit_tx : Transaction → Bool
is_deposit_tx tx = (tx.ins.0.id.block_num == 0) && (tx.ins.1.id.block_num == 0)

-- `DecodeRLP` of what `EncodeRLP` writes: the codec takes a nil number for zero
amount_decoded : Option ℤ → Option ℤ
amount_decoded none = some (pos 0)
amount_decoded (some a) = some a

out_decoded : TxOut → TxOut
unfolding amount_decoded
out_decoded o = record o { amount = amount_decoded o.amount }

sig_decoded : Option Sig → Option Sig
sig_decoded none = some (record { v = 0; r = 0; s = 0 })
sig_decoded (some sig) = some sig

unfoldable pub decoded : Transaction → Transaction
unfolding out_decoded sig_decoded
decoded tx = record {
  ins = (
    record tx.ins.0 { out = out_decoded tx.ins.0.out },
    record tx.ins.1 { out = out_decoded tx.ins.1.out },
  );
  outs = (out_decoded tx.outs.0, out_decoded tx.outs.1);
  fee = tx.fee;
  sigs = (sig_decoded tx.sigs.0, sig_decoded tx.sigs.1);
}

-- the copy that a caller gets has the same values
unfoldable pub get_ins_copy : Transaction → List Utxo
get_ins_copy tx = tx.ins.0 ∷ tx.ins.1 ∷ []

unfoldable pub get_outs_copy : Transaction → List TxOut
get_outs_copy tx = tx.outs.0 ∷ tx.outs.1 ∷ []

module _ {ℓ} {A : Type ℓ} where
  -- `s[i] = v`; every call of the code is within the slice
  unfoldable pub set : List A → ℕ → A → List A
  set [] i v = []
  set (x ∷ xs) zero v = v ∷ xs
  set (x ∷ xs) (suc i) v = x ∷ set xs i v

  set_option : List A → ℕ → Option A → List A
  unfolding set
  set_option xs i none = xs
  set_option xs i (some v) = set xs i v

  -- `Transactions.Swap`
  unfoldable pub swap : List A → ℕ → ℕ → List A
  unfolding set_option
  swap xs i j = set_option (set_option xs i (get_elem? xs j)) j (get_elem? xs i)

  -- `Transactions.Remove`: swap with the last element, then cut the slice
  unfoldable pub remove : List A → ℕ → List A
  unfolding swap
  remove xs i = take (length xs - 1) (swap xs i (length xs - 1))

module _ (hash_of : Transaction → Hash) where
  -- `_, ok := remove[hash]` of the set that `TxDifference` builds
  unfoldable pub has_hash : Hash → List Transaction → Bool
  has_hash h [] = false
  has_hash h (tx ∷ txs) = if hash_of tx == h then true else has_hash h txs

  unfoldable pub tx_difference : List Transaction → List Transaction → List Transaction
  unfolding has_hash
  tx_difference [] b = []
  tx_difference (tx ∷ a) b =
      let keep = tx_difference a b in if has_hash (hash_of tx) b then keep else tx ∷ keep
