-- ===== src/Operator/Loop.antt =====
-- core/operator.go: the operator's two loops, as steps on what waits in `TxsCh`, and the proof that
-- a transaction stands in a block. `now` is the clock at each step. The channel's capacity, at which
-- a sender waits, makes no difference to the order.
use plasma.Bytes.{Bytes, Hash, put_uint}
use plasma.Chain.{BodyValidator, BlockCache}
use plasma.HeaderChain.{HeaderCaches}
use plasma.Merkle.{verify, MerkleTree, new_merkle_tree, merkle_proof}
use plasma.Merkle.Proves.{verify-merkle_proof}
use plasma.Operator.{Operator, seal}
use plasma.Prelude.{
  ℕ, ◌%◌, ◌^◌, Option, none, some, List, [], length, get_elem?, zero, suc, refl, ap, ◌∙◌, arith,
  ◌<◌, ◌≡◌, true, ◌∷◌, ◌++◌,
}
use plasma.Prelude.Outcome.{Outcome, ok, panic, ◌>>=◌, Error}
use plasma.Store.{Database}
use plasma.TxPool.{TxPool, content}
use plasma.Types.Block.{Block}
use plasma.Types.External.{External, tx_hash}
use plasma.Types.Transaction.{Transaction}

-- `AddTxs`
unfoldable pub send_txs : List Transaction → List (List Transaction) → List (List Transaction)
send_txs [] waiting = waiting
send_txs (tx ∷ txs) waiting = waiting ++ (tx ∷ txs) ∷ []

-- a tick of `start`: the content of the pool is sent, unless it is empty
unfoldable pub tick : {J : Type 0} → TxPool J → List (List Transaction) → List (List Transaction)
unfolding content send_txs
tick p waiting = send_txs (content p) waiting

module _ {S C B P : Type 0} (d : Database S) (lru : HeaderCaches C) (lrb : BlockCache B)
    (x : External) (validate_body : BodyValidator S C B) (remove_tx : Hash → P → P)
    (submit : Block → Option Error) where
  -- `processTxs`, whose errors are logged
  unfoldable pub process_txs :
      List (ℕ × List Transaction) → P → Operator S C B → Outcome (P × Operator S C B)
  process_txs [] p o = ok (p, o)
  process_txs ((now, txs) ∷ waiting) p o = do
    sealed ← seal d lru lrb x validate_body remove_tx submit now txs p o
    process_txs waiting sealed.1.0 sealed.1.1

module _ (x : External) where
  unfoldable pub tx_hashes : List Transaction → List Bytes
  tx_hashes [] = []
  tx_hashes (tx ∷ txs) = put_uint 32 (tx_hash x tx) ∷ tx_hashes txs

  tx_hashes-length : (txs : List Transaction) → length (tx_hashes txs) ≡ length txs
  unfolding tx_hashes
  tx_hashes-length [] = refl
  tx_hashes-length (tx ∷ txs) = ap suc (tx_hashes-length txs)

  get-tx_hashes :
      (txs : List Transaction) (i : ℕ) (tx : Transaction)
      → get_elem? txs i ≡ some tx
      → get_elem? (tx_hashes txs) i ≡ some (put_uint 32 (tx_hash x tx))
  unfolding tx_hashes
  get-tx_hashes [] i tx e = absurd (cc e)
  get-tx_hashes (t ∷ txs) zero tx e = cc e
  get-tx_hashes (t ∷ txs) (suc i) tx e = get-tx_hashes txs i tx e

  module _ (keccak256 : Bytes → Bytes) where
    tree_proof : Option MerkleTree → ℕ → Outcome (List Bytes)
    tree_proof none tx_idx = panic
    tree_proof (some t) tx_idx = ok (merkle_proof keccak256 t tx_idx)

    -- `merkleProof`, which panics on a block without transactions
    unfoldable pub merkle_proof_of_tx : Block → ℕ → Outcome (List Bytes)
    unfolding tree_proof tx_hashes
    merkle_proof_of_tx b tx_idx =
        tree_proof (new_merkle_tree keccak256 (tx_hashes b.transactions)) (tx_idx % 2 ^ 32)

    -- In a block of as many transactions as a power of two from 2 on, for each transaction whose
    -- index is below 2 ^ 32, merkleProof does not panic and gives a proof that Verify accepts for the
    -- transaction's hash, at this index, against the root of the tree over the hashes of all.
    pub merkle_proof_of_tx-Verifies :
        (k : ℕ) (b : Block) (tx_idx : ℕ) (tx : Transaction)
        → length b.transactions ≡ 2 ^ suc k
        → tx_idx < 2 ^ 32
        → get_elem? b.transactions tx_idx ≡ some tx
        → (t : MerkleTree) × (new_merkle_tree keccak256 (tx_hashes b.transactions) ≡ some t)
          × (proof : List Bytes) × (merkle_proof_of_tx b tx_idx ≡ ok proof)
          × (verify keccak256 (put_uint 32 (tx_hash x tx)) t.root tx_idx proof ≡ true)
    unfolding merkle_proof_of_tx tree_proof
    merkle_proof_of_tx-Verifies k b tx_idx tx size fits found =
        let (t, made, accepted) =
          verify-merkle_proof keccak256 k (tx_hashes b.transactions) tx_idx
            (put_uint 32 (tx_hash x tx)) (tx_hashes-length b.transactions ∙ size)
            (get-tx_hashes b.transactions tx_idx tx found) in
        let same : tx_idx % 2 ^ 32 ≡ tx_idx = omega (arith, fits) in
        (t, made, merkle_proof keccak256 t tx_idx, rw (made, same) refl, accepted)
