-- ===== src/SenderCacher.antt =====
-- core/tx_cacher.go: recovering the senders of many transactions, shared out between tasks. A
-- request is what is sent to the workers' channel; a worker that takes it calls `types.Sender` on
-- the transactions that `served` lists, in this order. An error of `Sender` is dropped; its panic
-- ends the process, and so all workers.
pub mod Shares
use plasma.Prelude.{
  ℕ, zero, suc, ◌+◌, ◌*◌, ◌/◌, none, some, List, [], ◌∷◌, ◌++◌, ltb, ◌==◌, if◌then◌else◌, length,
  get_elem?, drop,
}
use plasma.Prelude.Outcome.{Outcome, ok, err, panic, ◌>>=◌}
use plasma.Bytes.{Address}
use plasma.Types.Block.{Block}
use plasma.Types.Transaction.{Transaction}

-- `txSenderCacherRequest`, without its signer
pub record Request : Type 0 where
  pub txs : List Transaction
  pub inc : ℕ

-- the loop of `cache` over one task, from an index on; fuel for each transaction is enough if the
-- index moves on
unfoldable pub cache_loop : ℕ → ℕ → ℕ → List Transaction → List Transaction
cache_loop zero inc i txs = []
cache_loop (suc fuel) inc i txs =
    let rest = cache_loop fuel inc (i + inc) txs in
    elim (get_elem? txs i) [ none ↦ [] | some tx ↦ tx ∷ rest ]

unfoldable pub served : Request → List Transaction
unfolding cache_loop
served task = cache_loop (length task.txs) task.inc 0 task.txs

module _ (sender_of : Transaction → Outcome (Address × Address)) where
  -- what is left of a call of `Sender`
  unfoldable pub call_sender :
      Transaction → Outcome (Address × Address) → Outcome (List Transaction)
  call_sender tx (ok senders) = ok (tx ∷ [])
  call_sender tx (err e) = ok (tx ∷ [])
  call_sender tx panic = panic

  -- the calls of `Sender` on the transactions of a task, with those that returned
  unfoldable pub call_each : List Transaction → Outcome (List Transaction)
  unfolding call_sender
  call_each [] = ok []
  call_each (tx ∷ txs) = do
    first ← call_sender tx (sender_of tx)
    rest ← call_each txs
    ok (first ++ rest)

  -- `cache`, of the tasks in the order in which they are taken
  unfoldable pub cache : List Request → Outcome (List Transaction)
  unfolding call_each served
  cache [] = ok []
  cache (task ∷ tasks) = do first ← call_each (served task); rest ← cache tasks; ok (first ++ rest)

-- the loop of `recover`, with the number of tasks left
unfoldable pub requests : ℕ → ℕ → ℕ → List Transaction → List Request
requests tasks i zero txs = []
requests tasks i (suc left) txs =
    record { txs = drop i txs; inc = tasks } ∷ requests tasks (suc i) left txs

unfoldable pub task_count : ℕ → List Transaction → ℕ
task_count threads txs = if ltb (length txs) (threads * 4) then (length txs + 3) / 4 else threads

-- `recover`
unfoldable pub recover : ℕ → List Transaction → List Request
unfolding requests task_count
recover threads txs =
    if length txs == 0 then [] else requests (task_count threads txs) 0 (task_count threads txs) txs

unfoldable pub block_txs : List Block → List Transaction
block_txs [] = []
block_txs (b ∷ blocks) = b.transactions ++ block_txs blocks

-- `recoverFromBlocks`; the first loop only counts for the slice's capacity
unfoldable pub recover_from_blocks : ℕ → List Block → List Request
unfolding recover block_txs
recover_from_blocks threads blocks = recover threads (block_txs blocks)
