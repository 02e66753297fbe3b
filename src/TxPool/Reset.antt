-- ===== src/TxPool/Reset.antt =====
-- core/tx_pool.go: `reset`, which takes up again the transactions of the blocks that left the chain.
-- `get_block` is the chain's; `depth` is the distance of two numbers as `float64` computes it. The
-- three loops stand on fuel; `none` is that it ran out. Recovering the senders beforehand changes
-- nothing.

pub mod Reinjects
use plasma.Bytes.{Hash}
use plasma.HeaderChain.{pred_u64}
use plasma.Prelude.{
  ℕ, zero, suc, false, Option, none, some, List, [], ◌++◌, ltb, ◌==◌, if◌then◌else◌,
}
use plasma.Prelude.Outcome.{Outcome, ok, err, panic, ◌>>=◌}
use plasma.TxPool.{TxPool, add_txs_locked}
use plasma.Types.Block.{Header, Block, header_number, number_u64}
use plasma.Types.External.{External, header_hash, block_hash}
use plasma.Types.Transaction.{Transaction, tx_difference}
use mathlib.Core.Option

module _ (x : External) (get_block : Hash → ℕ → Option Block) where
  -- the block before, by its hash and number
  unfoldable pub parent_block : Block → Option Block
  parent_block b = get_block b.header.parent_hash (pred_u64 (number_u64 b))

  -- the first two loops: down to a number, with the transactions on the way; `some none` is the
  -- early return where a parent is missing
  unfoldable pub lower :
      ℕ → ℕ → Block → List Transaction → Option (Option (Block × List Transaction))
  unfolding parent_block
  lower zero number b txs = none
  lower (suc fuel) number b txs =
      let next = λ (p : Block). lower fuel number p (txs ++ b.transactions) in
      if ltb number (number_u64 b)
      then elim (parent_block b) [ none ↦ some none | some p ↦ next p ]
      else some (some (b, txs))

  -- the third loop: both down to blocks with one hash
  unfoldable pub lower_both :
      ℕ
      → Block × List Transaction
      → Block × List Transaction
      → Option (Option (List Transaction × List Transaction))
  unfolding parent_block
  lower_both zero rem add = none
  lower_both (suc fuel) (rem, discarded) (add, included) =
      let next = λ (r a : Block).
        lower_both fuel (r, discarded ++ rem.transactions) (a, included ++ add.transactions) in
      if block_hash x rem == block_hash x add
      then some (some (discarded, included))
      else elim (parent_block rem) [
        | none ↦ some none
        | some r ↦ elim (parent_block add) [ none ↦ some none | some a ↦ next r a ]
      ]

  lowered :
      ℕ
      → Block × List Transaction
      → Option (Option (Block × List Transaction))
      → Option (Option (List Transaction × List Transaction))
  unfolding lower_both
  lowered fuel rem none = none
  lowered fuel rem (some none) = some none
  lowered fuel rem (some (some add)) = lower_both fuel rem add

  lower_other :
      ℕ
      → Block
      → Option (Option (Block × List Transaction))
      → Option (Option (List Transaction × List Transaction))
  unfolding lowered lower
  lower_other fuel add none = none
  lower_other fuel add (some none) = some none
  lower_other fuel add (some (some rem)) = lowered fuel rem (lower fuel (number_u64 rem.0) add [])

  -- the blocks that left the chain, and those that came; a nil block panics
  unfoldable pub branches :
      ℕ
      → Option Block
      → Option Block
      → Option (Outcome (Option (List Transaction × List Transaction)))
  unfolding lower lower_other
  branches fuel none add = some panic
  branches fuel (some rem) none = some panic
  branches fuel (some rem) (some add) =
      Option.map ok (lower_other fuel add (lower fuel (number_u64 add) rem []))

  module _ (depth : ℕ → ℕ → ℕ) (hash_of : Transaction → Hash) where
    difference :
        Outcome (Option (List Transaction × List Transaction)) → Outcome (Option (List Transaction))
    difference panic = panic
    difference (err e) = err e
    difference (ok none) = ok none
    difference (ok (some (discarded, included))) =
        ok (some (tx_difference hash_of discarded included))

    -- the transactions to take up again, `ok none` for the early return; a nil new head panics where
    -- there is an old one
    unfoldable pub to_reinject :
        ℕ → Option Header → Option Header → Option (Outcome (Option (List Transaction)))
    unfolding branches difference
    to_reinject fuel none new_head = some (ok (some []))
    to_reinject fuel (some old) none = some panic
    to_reinject fuel (some old) (some new) =
        if header_hash x old == new.parent_hash
        then some (ok (some []))
        else if ltb 64 (depth (header_number old) (header_number new))
        then some (ok (some []))
        else Option.map difference (
            branches fuel (get_block (header_hash x old) (header_number old))
              (get_block (header_hash x new) (header_number new)))

    module _ {J : Type 0} (validate_tx : Transaction → Outcome (Unit {0}))
        (journal_insert : Transaction → J → J) where
      -- `addTxsLocked`, whose errors are dropped
      unfoldable pub reinject : TxPool J → Outcome (Option (List Transaction)) → Outcome (TxPool J)
      unfolding add_txs_locked
      reinject p panic = panic
      reinject p (err e) = err e
      reinject p (ok none) = ok p
      reinject p (ok (some txs)) = do
        added ← add_txs_locked hash_of validate_tx journal_insert txs false p
        ok added.1

      -- `reset`
      unfoldable pub reset :
          ℕ → Option Header → Option Header → TxPool J → Option (Outcome (TxPool J))
      unfolding to_reinject reinject
      reset fuel old_head new_head p = Option.map (reinject p) (to_reinject fuel old_head new_head)
