-- ===== src/BlockValidator/Conserves.antt =====
-- What `validateTx` lets through, with the validator of core/tx_validator.go in its place.
use plasma.BlockValidator.{validate_txs}
use plasma.BlockValidator.Distinct.{Apart-nil, Distinct}
use plasma.BlockValidator.Spent.{
  spent_by, spent_ids, Exists, validate_txs-Checked, Checked-validate_txs,
}
use plasma.Bytes.{Address}
use plasma.Prelude.{
  ℕ, ◌≡◌, sym, ap, ◌∙◌, ◌↔◌, false, Option, none, some, List, [], ◌∷◌, ◌++◌, arith, ◌==◌, All,
  All-append,
}
use plasma.Prelude.Int.{zero-+ℤ, +ℤ_zero, ℤ, pos, ◌+ℤ◌, int_laws}
use plasma.Prelude.Outcome.{Outcome, ok}
use plasma.TxValidator.{validate}
use plasma.TxValidator.Accepts.{Accepts, Spends, Pays, validate-Accepts}
use plasma.Types.Transaction.{get_ins_copy, Transaction}
use plasma.Types.Utxo.{is_null_utxo, UtxoId, Utxo}

abbrev amount_or_zero : Option ℤ → ℤ
amount_or_zero none = pos 0
amount_or_zero (some a) = a

abbrev found_value : Outcome (Option Utxo) → ℤ
found_value (ok (some u)) = amount_or_zero u.out.amount
found_value _ = pos 0

-- the outputs made by the transactions
abbrev pub total_out : List Transaction → ℤ
total_out [] = pos 0
total_out (tx ∷ txs) =
    amount_or_zero tx.outs.0.amount +ℤ amount_or_zero tx.outs.1.amount +ℤ total_out txs

abbrev pub total_fee : List Transaction → ℤ
total_fee [] = pos 0
total_fee (tx ∷ txs) = tx.fee +ℤ total_fee txs

regroup : (a b f o p : ℤ) → a +ℤ b +ℤ f +ℤ (o +ℤ p) ≡ a +ℤ b +ℤ o +ℤ (f +ℤ p)
regroup a b f o p = omega int_laws

module _ (get : UtxoId → Outcome (Option Utxo)) where
  -- the amounts that the reader finds at the identities
  abbrev pub total_at : List UtxoId → ℤ
  total_at [] = pos 0
  total_at (i ∷ is) = found_value (get i) +ℤ total_at is

  total_at-append : (a b : List UtxoId) → total_at (a ++ b) ≡ total_at a +ℤ total_at b
  total_at-append [] b = omega int_laws
  total_at-append (i ∷ a) b = rw (total_at-append a b) (omega int_laws)

  -- an input's share of the total is what it brings
  spent_value :
      (i : Utxo) (rest : List Utxo) (a : Address) (v : ℤ)
      → Spends get i a v
      → total_at (spent_by (i ∷ rest)) ≡ v +ℤ total_at (spent_by rest)
  unfolding is_null_utxo
  spent_value i rest a v (Spends.null z e) = rw z (rw e (sym (zero-+ℤ (total_at (spent_by rest)))))
  spent_value i rest a v (Spends.owned u n g o m) =
      let f : (i.id.block_num == 0) ≡ false = ground arith in rw (f, g, m)

  paid_value : (o : Option ℤ) (v : ℤ) → Pays o v → amount_or_zero o ≡ v
  paid_value o v (Pays.absent z e) = rw z (sym e)
  paid_value o v (Pays.present z p) = rw z

  spent-Exists :
      (i : Utxo) (rest : List Utxo) (a : Address) (v : ℤ)
      → Spends get i a v
      → All (Exists get) (spent_by rest)
      → All (Exists get) (spent_by (i ∷ rest))
  unfolding is_null_utxo
  spent-Exists i rest a v (Spends.null z e) h = rw z h
  spent-Exists i rest a v (Spends.owned u n g o m) h =
      let f : (i.id.block_num == 0) ≡ false = ground arith in rw f ((u, g), h)

module _ (size_of : Transaction → ℕ) (sender_of : Transaction → Outcome (Address × Address))
    (get : UtxoId → Outcome (Option Utxo)) where
  abbrev validate_block : List Transaction → Outcome (Unit {0})
  validate_block txs = validate_txs (validate size_of sender_of get) get [] txs

  ids_found :
      (txs : List Transaction)
      → All (λ tx. validate size_of sender_of get tx ≡ ok tt) txs
      → All (Exists get) (spent_ids txs)
  ids_found [] h = tt
  ids_found (tx ∷ txs) h =
      let rest = ids_found txs h.1 in
      let c = validate-Accepts size_of sender_of get tx h.0 in
      All-append (Exists get) (spent_by (get_ins_copy tx)) (spent_ids txs)
        (unfold get_ins_copy in
          spent-Exists get tx.ins.0 (tx.ins.1 ∷ []) c.senders.0 c.in0 c.spends0
            (spent-Exists get tx.ins.1 [] c.senders.1 c.in1 c.spends1 tt))
        rest

  -- The transactions of a block pass exactly when each of them passes on its own and no output is
  -- named twice by the block's real inputs.
  pub validate_txs_iff :
      (txs : List Transaction)
      → (validate_txs (validate size_of sender_of get) get [] txs ≡ ok tt)
        ↔ (All (λ tx. validate size_of sender_of get tx ≡ ok tt) txs × Distinct (spent_ids txs))
  validate_txs_iff txs = (
    λ h. let c = validate_txs-Checked (validate size_of sender_of get) get [] txs h in (c.0, c.1),
    λ h.
        Checked-validate_txs (validate size_of sender_of get) get [] txs
          (h.0, h.1, Apart-nil (spent_ids txs), ids_found txs h.0),
  )

  -- one transaction's inputs
  spent_here :
      (tx : Transaction) (c : Accepts size_of sender_of get tx)
      → total_at get (spent_by (get_ins_copy tx)) ≡ c.in0 +ℤ c.in1
  unfolding get_ins_copy
  spent_here tx c =
      spent_value get tx.ins.0 (tx.ins.1 ∷ []) c.senders.0 c.in0 c.spends0
      ∙ ap (λ z. c.in0 +ℤ z)
          (spent_value get tx.ins.1 [] c.senders.1 c.in1 c.spends1 ∙ +ℤ_zero c.in1)

  conserves_lem :
      (txs : List Transaction)
      → All (λ tx. validate size_of sender_of get tx ≡ ok tt) txs
      → total_at get (spent_ids txs) ≡ total_out txs +ℤ total_fee txs
  conserves_lem [] h = sym (+ℤ_zero (pos 0))
  conserves_lem (tx ∷ txs) h =
      let rest = conserves_lem txs h.1 in
      let c = validate-Accepts size_of sender_of get tx h.0 in
      rw
        (
          total_at-append get (spent_by (get_ins_copy tx)) (spent_ids txs),
          spent_here tx c,
          rest,
          c.conserves,
          paid_value get tx.outs.0.amount c.out0 c.pays0,
          paid_value get tx.outs.1.amount c.out1 c.pays1,
        )
        (regroup c.out0 c.out1 tx.fee (total_out txs) (total_fee txs))

  -- Where the transactions of a block pass, the reader finds an unspent output at each identity
  -- that their real inputs name, no identity is named twice, and the amounts of these outputs add
  -- up to exactly what the block's outputs and fees take.
  pub validate_txs_conserves :
      (txs : List Transaction)
      → validate_txs (validate size_of sender_of get) get [] txs ≡ ok tt
      → All (Exists get) (spent_ids txs)
        × Distinct (spent_ids txs)
        × (total_at get (spent_ids txs) ≡ total_out txs +ℤ total_fee txs)
  validate_txs_conserves txs h =
      let c = (validate_txs_iff txs).0 h in (ids_found txs c.0, c.1, conserves_lem txs c.0)
