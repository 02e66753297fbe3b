-- ===== src/Operator/Drains.antt =====
-- core/operator.go: `Seal` over the transaction pool.
use plasma.Bytes.{Hash}
use plasma.Chain.{BodyValidator, BlockCache}
use plasma.HeaderChain.{HeaderCaches}
use plasma.Operator.{Operator, operator_write_block, construct_block, remove_all, submitted, seal}
use plasma.Prelude.{
  ℕ, ◌≡◌, refl, ◌∙◌, Bool, true, false, ◌||◌, Option, none, some, List, [], ◌∷◌, ◌==◌,
  if◌then◌else◌,
}
use plasma.Prelude.Outcome.{ok, Error}
use plasma.Store.{Database}
use plasma.TxPool.{TxPool, get_pooled, remove_tx}
use plasma.TxPool.Removal.{Agrees, remove_tx-Agrees}
use plasma.Types.Block.{Block}
use plasma.Types.External.{External, tx_hash}
use plasma.Types.Transaction.{Transaction}

-- the error of the write, or else that of the submission
unfoldable pub first_error : Option Error → Option Error → Option Error
first_error none e = e
first_error (some e) f = some e

-- whether the block was written and has a transaction of this hash
unfoldable pub is_sealed : External → Option Error → List Transaction → Hash → Bool
is_sealed x (some e) txs k = false
is_sealed x none [] k = false
is_sealed x none (tx ∷ txs) k = (tx_hash x tx == k) || is_sealed x none txs k

either_none :
    (a b : Bool) (o : Option Transaction)
    → (if b then none else (if a then none else o)) ≡ (if a || b then none else o)
either_none true true o = refl
either_none true false o = refl
either_none false b o = refl

module _ {S C B J : Type 0} (d : Database S) (lru : HeaderCaches C) (lrb : BlockCache B)
    (x : External) (validate_body : BodyValidator S C B) (submit : Block → Option Error) where
  remove_all-Drains :
      (txs : List Transaction) (p : TxPool J)
      → Agrees (tx_hash x) p
      → Agrees
          (tx_hash x)
          (remove_all d lru lrb x validate_body (remove_tx (tx_hash x)) submit txs p)
        × ((k : Hash)
            → get_pooled k
                (remove_all d lru lrb x validate_body (remove_tx (tx_hash x)) submit txs p)
              ≡ (if is_sealed x none txs k then none else get_pooled k p))
  unfolding remove_all is_sealed
  remove_all-Drains [] p a = (a, λ k. refl)
  remove_all-Drains (tx ∷ txs) p a =
      let one = remove_tx-Agrees (tx_hash x) (tx_hash x tx) p a in
      let rest = remove_all-Drains txs (remove_tx (tx_hash x) (tx_hash x tx) p) one.0 in
      (
        rest.0,
        λ k.
            rest.1 k
            ∙ rw (one.1 k)
                (either_none (tx_hash x tx == k) (is_sealed x none txs k) (get_pooled k p)),
      )

  -- Where the two views of the pool agree and WriteBlock of the constructed block returns, Seal
  -- returns the error of WriteBlock, or else that of the submission to the root chain, and the
  -- operator that WriteBlock leaves. The views then agree again. After an error of WriteBlock the
  -- pool finds at every hash what it found before; without one it finds none of the block's
  -- transactions, and every other hash as before, whatever the submission returned.
  pub seal-Drains :
      (now : ℕ) (txs : List Transaction) (p : TxPool J) (o o' : Operator S C B)
      (written : Option Error)
      → Agrees (tx_hash x) p
      → operator_write_block d lru lrb x validate_body
          (construct_block d lru lrb x validate_body now txs o).0
          (construct_block d lru lrb x validate_body now txs o).1
        ≡ ok (written, o')
      → (p' : TxPool J) × (seal d lru lrb x validate_body (remove_tx (tx_hash x)) submit now txs p o
          ≡ ok (
            first_error written (submit (construct_block d lru lrb x validate_body now txs o).0),
            (p', o'),
          ))
        × Agrees (tx_hash x) p'
        × ((k : Hash)
            → get_pooled k p' ≡ (
                if is_sealed x written
                  (construct_block d lru lrb x validate_body now txs o).0.transactions
                  k
                then none
                else get_pooled k p))
  unfolding submitted first_error is_sealed seal construct_block
  seal-Drains now txs p o o' (some e) a wrote = (p, rw (seal, wrote) refl, a, λ k. refl)
  seal-Drains now txs p o o' none a wrote =
      let made = construct_block d lru lrb x validate_body now txs o in
      let drained = remove_all-Drains made.0.transactions p a in
      (
        remove_all d lru lrb x validate_body (remove_tx (tx_hash x)) submit made.0.transactions p,
        rw (seal, wrote) refl,
        drained.0,
        drained.1,
      )
