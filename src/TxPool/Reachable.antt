-- ===== src/TxPool/Reachable.antt =====
-- Every pool that additions and removals lead to keeps its two views in agreement.
use plasma.Bytes.{Hash}
use plasma.Prelude.{◌≤◌, ◌≡◌, refl, sym, ◌∙◌, subst, Bool, Option, none, some, [], arith}
use plasma.Prelude.Outcome.{Outcome, ok, Error}
use plasma.TxPool.{add, remove_tx, lookup_get, TxPool, add_found}
use plasma.TxPool.InSync.{add-Added, Added}
use plasma.TxPool.Removal.{count-snoc, remove_tx-Agrees, count_hash, Agrees}
use plasma.Types.Transaction.{Transaction}

module _ {J : Type 0} (hash_of : Transaction → Hash)
    (validate_tx : Transaction → Outcome (Unit {0})) (journal_insert : Transaction → J → J) where
  Added-Agrees :
      (tx : Transaction) (p : TxPool J) (r : Option Error × TxPool J)
      → (r.0 ≡ none → lookup_get (hash_of tx) p.all ≡ none)
      → Agrees hash_of p
      → Added hash_of validate_tx journal_insert tx p r
      → Agrees hash_of r.1
  Added-Agrees tx p (some e, p') new a h = subst (Agrees hash_of) (sym h) a
  Added-Agrees tx p (none, p') new a (sync, q) = record {
    in_sync = sync;
    once = λ h.
        subst (λ l. count_hash hash_of h l ≤ 1) (sym q)
          (count-snoc hash_of h tx p.queue (sym (a.in_sync (hash_of tx)) ∙ new refl) (a.once h));
  }

  add_found-new :
      (found : Option Transaction) (tx : Transaction) (is_local : Bool) (p : TxPool J)
      (r : Option Error × TxPool J)
      → add_found hash_of validate_tx journal_insert found tx is_local p ≡ ok r
      → r.0 ≡ none
      → found ≡ none
  unfolding add_found
  add_found-new none tx is_local p r e n = refl
  add_found-new (some k) tx is_local p r e n = cc

  pub add-Agrees :
      (tx : Transaction) (is_local : Bool) (p : TxPool J) (r : Option Error × TxPool J)
      → Agrees hash_of p
      → add hash_of validate_tx journal_insert tx is_local p ≡ ok r
      → Agrees hash_of r.1
  unfolding add
  add-Agrees tx is_local p r a e =
      Added-Agrees tx p r (add_found-new (lookup_get (hash_of tx) p.all) tx is_local p r e) a
        (add-Added hash_of validate_tx journal_insert tx is_local p r a.in_sync e)

  -- a call of `add` that returned, or a call of `removeTx`
  pub data PoolStep (p p' : TxPool J) : Type 0 where
    added :
        (tx : Transaction) (is_local : Bool) (e : Option Error)
        → add hash_of validate_tx journal_insert tx is_local p ≡ ok (e, p')
        → PoolStep p p'
    removed : (h : Hash) → p' ≡ remove_tx hash_of h p → PoolStep p p'

  pub data PoolReach (start : TxPool J) : TxPool J → Type 0 where
    here : PoolReach start start
    next : {p p' : TxPool J} → PoolReach start p → PoolStep p p' → PoolReach start p'

  PoolStep-Agrees : (p p' : TxPool J) → PoolStep p p' → Agrees hash_of p → Agrees hash_of p'
  PoolStep-Agrees p p' (added tx is_local e s) a = add-Agrees tx is_local p (e, p') a s
  PoolStep-Agrees p p' (removed h s) a =
      subst (Agrees hash_of) (sym s) (remove_tx-Agrees hash_of h p a).0

  -- From an empty pool, after any calls of `add` and `removeTx` in any order, the queue and the map
  -- by hash agree and no hash is in the queue twice.
  pub PoolReach-Agrees :
      {start p : TxPool J}
      → start.queue ≡ []
      → start.all ≡ []
      → PoolReach start p
      → Agrees hash_of p
  unfolding lookup_get count_hash
  PoolReach-Agrees {start} q m here = record {
    in_sync = λ h. rw (q, m);
    once = λ h. rw q (omega arith);
  }
  PoolReach-Agrees q m (next {p} {p'} r s) = PoolStep-Agrees p p' s (PoolReach-Agrees q m r)
