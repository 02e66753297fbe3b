-- ===== src/Validator.antt =====
-- core/validator.go: a validator writes the blocks of the operator to its own chain. Its blocks'
-- numbers and outputs are made as the operator's are. `new_blocks` is what was sent to `newBlockCh`,
-- nil until it is subscribed to; a send on a nil channel never returns. `sent_txs` is what was sent to `NewTxsCh`.
pub mod Atomic
use plasma.Chain.{write_chain_block, with_db, BodyValidator, BlockCache, Chain}
use plasma.HeaderChain.{HeaderCaches}
use plasma.Operator.{
  write_block_fun, raise_head, finish, and_then, put_outputs, child_block_interval,
}
use plasma.Prelude.{
  ℕ, ◌+◌, ◌*◌, ◌/◌, ◌%◌, ◌^◌, Bool, false, Option, none, some, List, [], ◌∷◌, ◌++◌, ◌==◌,
  if◌then◌else◌,
}
use plasma.Prelude.Outcome.{db_race, Outcome, ok, panic, ◌>>=◌, Error}
use plasma.Store.{Database}
use plasma.Types.Block.{number_u64, Block, header_number}
use plasma.Types.External.{External}
use plasma.Types.Transaction.{get_ins_copy, get_outs_copy, Transaction}
use plasma.Types.Utxo.{Utxo}
use plasma.UtxoSet.{del_utxo}

pub record Validator (S C B : Type 0) : Type 0 where
  pub chain : Chain S C B
  pub current_child_block : ℕ
  pub subscribed : Bool
  pub new_blocks : List Block
  pub sent_txs : List (List Transaction)

-- the number of the head, or the next multiple of the interval where the head is a deposit block
unfoldable pub start_number : ℕ → ℕ
start_number n =
    if n % child_block_interval == 0
    then n
    else (n / child_block_interval + 1) * child_block_interval % 2 ^ 64

unfoldable pub new_validator : {S C B : Type 0} → Chain S C B → Validator S C B
unfolding start_number
new_validator chain = record {
  chain = chain;
  current_child_block = start_number (header_number chain.hc.current_header);
  subscribed = false;
  new_blocks = [];
  sent_txs = [];
}

unfoldable pub process_remote_txs :
    {S C B : Type 0} → List Transaction → Validator S C B → Validator S C B
process_remote_txs txs v = record v { sent_txs = v.sent_txs ++ txs ∷ [] }

-- a call that waits on a nil channel has no result, like one that panics
abbrev blocks_forever : {A : Type 0} → Outcome A
blocks_forever = panic

module _ {S : Type 0} (d : Database S) where
  -- an error of a `Del` is only logged
  del_logged : List Utxo → S → S
  del_logged [] s = s
  del_logged (i ∷ ins) s = del_logged ins (del_utxo d i.id s).1

  unfoldable pub update_logged : Block → ℕ → List Transaction → S → Outcome (Option Error × S)
  unfolding del_logged
  update_logged b tx_idx [] s = ok (none, s)
  update_logged b tx_idx (tx ∷ txs) s = do
    r ← put_outputs d b tx_idx 0 (get_outs_copy tx) (del_logged (get_ins_copy tx) s)
    and_then d r (update_logged b (tx_idx + 1) txs)

module _ {S C B : Type 0} (d : Database S) (lru : HeaderCaches C) (lrb : BlockCache B)
    (x : External) (validate_body : BodyValidator S C B) where
  roll_chain : Chain S C B → Chain S C B
  roll_chain c = with_db (d.rollback_tx c.hc.chain_db).1 c

  send : Block → Validator S C B → Validator S C B
  send b v = record v { new_blocks = v.new_blocks ++ b ∷ [] }

  after_validated : Block → Validator S C B → Option Error × Chain S C B → Validator S C B
  unfolding roll_chain send
  after_validated b v (some e, c) = record v { chain = roll_chain c }
  after_validated b v (none, c) =
      let v' : Validator S C B = record v { chain = c } in if v.subscribed then send b v' else v'

  -- `ProcessRemoteBlock`; nothing ends the transaction that it opened, unless the block is refused
  unfoldable pub process_remote_block : Block → Validator S C B → Outcome (Validator S C B)
  unfolding after_validated
  process_remote_block b v =
      let began = d.begin_tx v.chain.hc.chain_db in
      let c = with_db began.1 v.chain in
      if began.0
      then (write_chain_block d lru lrb x validate_body b c >>= λ r. ok (after_validated b v r))
      else ok (record v { chain = c })

  after_send : Block → Validator S C B → Chain S C B → Outcome (Option Error × Validator S C B)
  unfolding update_logged finish
  after_send b v c1 = do
    r ← update_logged d b 0 b.transactions c1.hc.chain_db
    let f = finish d r
    ok (
      f.0,
      record v {
        chain = with_db f.1 c1;
        current_child_block = number_u64 b;
        new_blocks = v.new_blocks ++ b ∷ [];
      },
    )

  unfoldable pub after_validator_write :
      Block
      → Validator S C B
      → Option Error × Chain S C B
      → Outcome (Option Error × Validator S C B)
  unfolding roll_chain update_logged finish after_send
  after_validator_write b v (some e, c) = ok (some e, record v { chain = roll_chain c })
  after_validator_write b v (none, c) =
      if v.subscribed
      then after_send b v (raise_head d lru lrb x validate_body b c)
      else blocks_forever

  -- `Validator.WriteBlock`
  unfoldable pub validator_write_block :
      Block → Validator S C B → Outcome (Option Error × Validator S C B)
  unfolding after_validator_write
  validator_write_block b v =
      let began = d.begin_tx v.chain.hc.chain_db in
      let c = with_db began.1 v.chain in
      if began.0
      then write_block_fun d lru lrb x validate_body b c >>= after_validator_write b v
      else ok (some db_race, record v { chain = c })
