-- ===== src/Operator.antt =====
-- core/operator.go: the operator seals blocks. Its chain, and its set of unspent outputs, stand on
-- one database. `new_blocks` is what was sent to `newBlockCh`; the pool's `Content` and `removeTx`
-- are steps of the pool. `now` is the clock.
pub mod Writes
pub mod Numbers
pub mod Atomic
pub mod Drains
pub mod Deposits
pub mod Loop
use plasma.Bytes.{zero_hash, Hash, Address}
use plasma.Chain.{
  write_deposit_block, write_chain_block, replace_head, BodyValidator, with_db, BlockCache, Chain,
}
use plasma.HeaderChain.{HeaderCaches}
use plasma.Prelude.{
  ℕ, ◌+◌, ◌*◌, ◌/◌, ◌%◌, ◌^◌, Option, none, some, List, [], ◌∷◌, ◌++◌, ltb, ◌==◌, if◌then◌else◌,
}
use plasma.Prelude.Int.{pos, ℤ}
use plasma.Prelude.Outcome.{db_race, Outcome, ok, ◌>>=◌, Error}
use plasma.Store.{Database}
use plasma.Types.Block.{header_number, number_int64_abs, number_u64, Block}
use plasma.Types.External.{tx_hash, block_hash, new_block, External}
use plasma.Types.Transaction.{new_transaction, get_outs_copy, get_ins_copy, Transaction}
use plasma.Types.Utxo.{new_null_utxo, TxOut, Utxo}
use plasma.UtxoSet.{put_utxo, del_utxo}

abbrev pub child_block_interval : ℕ
child_block_interval = 1000

pub record Operator (S C B : Type 0) : Type 0 where
  pub addr : Address
  pub chain : Chain S C B
  pub current_child_block : ℕ
  pub new_blocks : List Block

-- `NewOperator`: sealing goes on after the last multiple of the interval up to the head
unfoldable pub new_operator : {S C B : Type 0} → Address → Chain S C B → Operator S C B
new_operator addr chain = record {
  addr = addr;
  chain = chain;
  current_child_block =
      (header_number chain.hc.current_header / child_block_interval * child_block_interval)
      % 2 ^ 64;
  new_blocks = [];
}

-- the outputs of a transaction as unspent outputs of a block
unfoldable pub new_utxo : Block → ℕ → ℕ → TxOut → Utxo
new_utxo b tx_idx out_idx out = record {
  id = record { block_num = number_u64 b; tx_index = tx_idx % 2 ^ 32; out_index = out_idx % 2 ^ 8 };
  out = record { owner = out.owner; amount = out.amount };
}

module _ {S : Type 0} (d : Database S) where
  if_nil : Option Error × S → (S → Option Error × S) → Option Error × S
  if_nil (some e, s) k = (some e, s)
  if_nil (none, s) k = k s

  del_inputs : List Utxo → S → Option Error × S
  unfolding if_nil
  del_inputs [] s = (none, s)
  del_inputs (i ∷ ins) s = if_nil (del_utxo d i.id s) (del_inputs ins)

  -- `k` goes on where there was no error
  unfoldable pub and_then :
      Option Error × S → (S → Outcome (Option Error × S)) → Outcome (Option Error × S)
  and_then (some e, s) k = ok (some e, s)
  and_then (none, s) k = k s

  unfoldable pub put_outputs : Block → ℕ → ℕ → List TxOut → S → Outcome (Option Error × S)
  unfolding and_then
  put_outputs b tx_idx out_idx [] s = ok (none, s)
  put_outputs b tx_idx out_idx (o ∷ outs) s = do
    r ← put_utxo d (new_utxo b tx_idx out_idx o) s
    and_then r (put_outputs b tx_idx (out_idx + 1) outs)

  -- the loop over the transactions, up to its first error
  unfoldable pub update_utxos : Block → ℕ → List Transaction → S → Outcome (Option Error × S)
  unfolding del_inputs and_then put_outputs
  update_utxos b tx_idx [] s = ok (none, s)
  update_utxos b tx_idx (tx ∷ txs) s = and_then (del_inputs (get_ins_copy tx) s) (λ s1. do
    r ← put_outputs b tx_idx 0 (get_outs_copy tx) s1
    and_then r (update_utxos b (tx_idx + 1) txs))

  -- the roll back after an error of `CommitTx`
  after_commit : Option Error × S → Option Error × S
  after_commit (none, s) = (none, s)
  after_commit (some e, s) = (some e, (d.rollback_tx s).1)

  -- roll back after an error, else commit
  unfoldable pub finish : Option Error × S → Option Error × S
  unfolding after_commit
  finish (some e, s) = (some e, (d.rollback_tx s).1)
  finish (none, s) = after_commit (d.commit_tx s)

module _ {S C B : Type 0} (d : Database S) where
  module _ (lru : HeaderCaches C) (lrb : BlockCache B) (x : External)
      (validate_body : BodyValidator S C B) where
    -- a number that is a multiple of 1000 is a block of the operator, any other a deposit's
    unfoldable pub write_block_fun : Block → Chain S C B → Outcome (Option Error × Chain S C B)
    write_block_fun b c =
        if number_int64_abs b % 1000 == 0
        then write_chain_block d lru lrb x validate_body b c
        else write_deposit_block d lru lrb x b c

    -- `ReplaceHead`, where the block is higher than the head
    unfoldable pub raise_head : Block → Chain S C B → Chain S C B
    raise_head b c =
        if ltb c.current_block.header.number b.header.number
        then replace_head d lru lrb x b c
        else c

    roll_chain : Chain S C B → Chain S C B
    roll_chain c = with_db (d.rollback_tx c.hc.chain_db).1 c

    -- what follows the write of the block: its error, or the head and the unspent outputs
    unfoldable pub after_write_block :
        Block
        → Operator S C B
        → Option Error × Chain S C B
        → Outcome (Option Error × Operator S C B)
    unfolding raise_head roll_chain finish update_utxos
    after_write_block b o (some e, c) = ok (some e, record o { chain = roll_chain c })
    after_write_block b o (none, c) =
        let c1 = raise_head b c in
        do
          r ← update_utxos d b 0 b.transactions c1.hc.chain_db
          let f = finish d r
          ok (f.0, record o { chain = with_db f.1 c1; new_blocks = o.new_blocks ++ b ∷ [] })

    -- `Operator.WriteBlock`
    unfoldable pub operator_write_block :
        Block → Operator S C B → Outcome (Option Error × Operator S C B)
    unfolding write_block_fun after_write_block
    operator_write_block b o =
        let began = d.begin_tx o.chain.hc.chain_db in
        let c = with_db began.1 o.chain in
        if began.0
        then write_block_fun b c >>= after_write_block b o
        else ok (some db_race, record o { chain = c })

    -- `constructBlock`: the number moves on before the block is written
    unfoldable pub construct_block : ℕ → List Transaction → Operator S C B → Block × Operator S C B
    construct_block now txs o =
        let next = (o.current_child_block + child_block_interval) % 2 ^ 64 in
        (
          new_block x
              (record {
                parent_hash = zero_hash;
                coinbase = o.addr;
                tx_hash = zero_hash;
                number = next;
                time = now;
                extra = [];
              })
              txs,
          record o { current_child_block = next },
        )

    unfoldable pub construct_deposit_block : ℕ → ℕ → Transaction → Operator S C B → Block
    construct_deposit_block now deposit_block_num tx o =
        new_block x
          (record {
            parent_hash = block_hash x o.chain.current_block;
            coinbase = o.addr;
            tx_hash = zero_hash;
            number = deposit_block_num;
            time = now;
            extra = [];
          })
          (tx ∷ [])

    -- `SealDeposit`
    unfoldable pub seal_deposit :
        ℕ → ℕ → Transaction → Operator S C B → Outcome (Option Error × Operator S C B)
    unfolding operator_write_block construct_deposit_block
    seal_deposit now deposit_block_num tx o =
        operator_write_block (construct_deposit_block now deposit_block_num tx o) o

    null_input : Utxo
    null_input = new_null_utxo

    -- `handleDepositEvent`
    unfoldable pub handle_deposit_event :
        ℕ → ℕ → Address → Option ℤ → Operator S C B → Outcome (Option Error × Operator S C B)
    unfolding seal_deposit null_input
    handle_deposit_event now deposit_block_num depositor amount o =
        seal_deposit now deposit_block_num
          (new_transaction null_input null_input (record { owner = depositor; amount = amount })
            (record { owner = 0; amount = some (pos 0) }) (pos 1))
          o

    module _ {P : Type 0} (remove_tx : Hash → P → P) (submit : Block → Option Error) where
      remove_all : List Transaction → P → P
      remove_all [] p = p
      remove_all (tx ∷ txs) p = remove_all txs (remove_tx (tx_hash x tx) p)

      pub submitted :
          Block → Option Error × Operator S C B → P → Option Error × (P × Operator S C B)
      unfolding remove_all
      submitted b (some e, o) p = (some e, (p, o))
      submitted b (none, o) p = (submit b, (remove_all b.transactions p, o))

      -- `Seal`, with the pool `p` and the call of the root chain `submit`
      unfoldable pub seal :
          ℕ → List Transaction → P → Operator S C B → Outcome (Option Error × (P × Operator S C B))
      unfolding construct_block operator_write_block submitted
      seal now txs p o =
          let made = construct_block now txs o in
          do written ← operator_write_block made.0 made.1; ok (submitted made.0 written p)
