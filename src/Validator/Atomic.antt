-- ===== src/Validator/Atomic.antt =====
-- core/validator.go: `Validator.WriteBlock` is one transaction of the database.
use plasma.Chain.{Chain, with_db, BodyValidator, BlockCache}
use plasma.HeaderChain.{HeaderCaches}
use plasma.Operator.Atomic.{
  finish-Models, write_block_fun-Written, raised-Models, Written, writes_of, view_after, OnlyReads,
}
use plasma.Operator.Writes.{
  Adds, AllPaid, HasAmount, and_then-Adds, put_outputs-Adds, input_writes, output_writes, tx_writes,
  key_of,
}
use plasma.Prelude.{
  ℕ, ◌+◌, ◌≡◌, refl, sym, ◌∙◌, subst, true, Option, none, some, List, [], ◌∷◌, ◌++◌, append_assoc,
  append-nil, All,
}
use plasma.Prelude.Outcome.{ok, Error}
use plasma.RawDb.Accessors.{delete_utxo}
use plasma.Store.{delete, Database, Write}
use plasma.Store.Laws.{IsStore, View}
use plasma.Types.Block.{Block}
use plasma.Types.External.{External}
use plasma.Types.Transaction.{get_outs_copy, get_ins_copy, Transaction}
use plasma.Types.Utxo.{Utxo}
use plasma.UtxoSet.{del_utxo}
use plasma.Validator.{
  Validator, del_logged, update_logged, after_send, after_validator_write, validator_write_block,
}

module _ {S : Type 0} {Models : S → View → Option (List Write) → Type 0} (d : Database S)
    (store : IsStore d Models) where
  del_logged-Models :
      {view : View} (ws : List Write) (ins : List Utxo) (s : S)
      → Models s view (some ws)
      → Models (del_logged d ins s) view (some (ws ++ input_writes ins))
  unfolding del_logged del_utxo delete_utxo
  del_logged-Models {view} ws [] s m = subst (λ l. Models s view (some l)) (sym (append-nil ws)) m
  del_logged-Models {view} ws (i ∷ ins) s m =
      let k = key_of i.id in
      subst (λ l. Models (del_logged d ins (d.delete k s).1) view (some l))
        (append_assoc ws (delete k ∷ []) (input_writes ins))
        (del_logged-Models (ws ++ delete k ∷ []) ins (d.delete k s).1 (store.delete_open k m).1)

  -- the validator's loop adds the same writes as the operator's
  update_logged-Adds :
      {view : View} (ws : List Write) (b : Block) (t : ℕ) (txs : List Transaction) (s : S)
      → AllPaid txs
      → Models s view (some ws)
      → (r : Option Error × S) × (update_logged d b t txs s ≡ ok r)
        × Adds d store view (ws ++ tx_writes b t txs) r
  unfolding update_logged
  update_logged-Adds {view} ws b t [] s h m =
      ((none, s), refl, (refl, subst (λ l. Models s view (some l)) (sym (append-nil ws)) m))
  update_logged-Adds {view} ws b t (tx ∷ txs) s (paid, h) m =
      let ins = input_writes (get_ins_copy tx) in
      let outs = output_writes b t 0 (get_outs_copy tx) in
      let paid' : All HasAmount (get_outs_copy tx) =
        unfold get_outs_copy in (paid.0, (paid.1, tt)) in
      let us = ws ++ ins in
      let all = (us ++ outs) ++ tx_writes b (t + 1) txs in
      let m1 = del_logged-Models ws (get_ins_copy tx) s m in
      let p = put_outputs-Adds d store us b t 0 (get_outs_copy tx) paid' m1 in
      let q =
        and_then-Adds d store (us ++ outs) all p.0 (update_logged d b (t + 1) txs) p.2
          (λ s2 m2. update_logged-Adds (us ++ outs) b (t + 1) txs s2 h m2) in
      (
        q.0,
        rw p.1 q.1,
        subst (λ l. Adds d store view l q.0)
            (append_assoc us outs _ ∙ append_assoc ws ins (outs ++ tx_writes b (t + 1) txs)) q.2,
      )

module _ {S C B : Type 0} {Models : S → View → Option (List Write) → Type 0} (d : Database S)
    (store : IsStore d Models) (lru : HeaderCaches C) (lrb : BlockCache B) (x : External)
    (validate_body : BodyValidator S C B) where
  after_validator_write-Models :
      {view : View} (b : Block) (v : Validator S C B) (r : Option Error × Chain S C B)
      → v.subscribed ≡ true
      → AllPaid b.transactions
      → Models v.chain.hc.chain_db view none
      → r.1.current_block ≡ v.chain.current_block
      → Written d store lru lrb x validate_body view b r
      → (q : Option Error × Validator S C B) × (after_validator_write d lru lrb x validate_body b v
            r
          ≡ ok q)
        × Models q.1.chain.hc.chain_db
            (view_after q.0 (writes_of d store lru lrb x validate_body b v.chain) view)
            none
  unfolding after_validator_write after_send with_db
  after_validator_write-Models b v (some e, c) heard paid m h w =
      (_, refl, (store.rollback_open w).1)
  after_validator_write-Models b v (none, c) heard paid m h w =
      let m1 = raised-Models d store lru lrb x validate_body b v.chain c m h w in
      let u = update_logged-Adds d store _ b 0 b.transactions _ paid m1 in
      rw (heard, u.1) (_, refl, finish-Models d store _ u.0 u.2)

  -- From a database with no open transaction, the `WriteBlock` of a validator whose blocks are
  -- subscribed to, of a block whose outputs have amounts, on which the body validator returns and
  -- only reads, returns and leaves no open transaction. With no error the reads are those after all of its writes in order, the same as
  -- the operator's; with an error every read is as before.
  pub validator_write_block-Atomic :
      {view : View} (b : Block) (v : Validator S C B)
      → v.subscribed ≡ true
      → AllPaid b.transactions
      → OnlyReads validate_body b
      → Models v.chain.hc.chain_db view none
      → (q : Option Error × Validator S C B) × (validator_write_block d lru lrb x validate_body b v
          ≡ ok q)
        × Models q.1.chain.hc.chain_db
            (view_after q.0 (writes_of d store lru lrb x validate_body b v.chain) view)
            none
  unfolding validator_write_block with_db
  validator_write_block-Atomic b v heard paid reads m =
      let began = store.begin_closed m in
      let c = with_db (d.begin_tx v.chain.hc.chain_db).1 v.chain in
      let w = write_block_fun-Written d store lru lrb x validate_body b c reads began.1 in
      let q = after_validator_write-Models b v w.0 heard paid m w.2 w.3 in
      (q.0, rw (began.0, w.1) q.1, q.2)
