-- ===== src/TxPool.antt =====
-- core/tx_pool.go: the pool of transactions that wait for a block. A lock makes each method one
-- step. The transaction validator and the journal are parameters: `journal_insert` is the step of
-- the journal, where there is one. `feed` is what was sent to the feed and to `newTxs`.
pub mod InSync
pub mod Removal
pub mod Reachable
pub mod Start
pub mod Reset
use plasma.Bytes.{Hash}
use plasma.Prelude.{
  ℕ, suc, ◌+◌, Bool, false, not, Option, none, some, List, [], ◌∷◌, ◌++◌, ltb, ◌==◌, if◌then◌else◌,
  length,
}
use plasma.Prelude.Outcome.{known_transaction, Outcome, ok, err, panic, ◌>>=◌, ◌>>◌, Error}
use plasma.Types.Transaction.{Transaction, remove}

-- `all` of a `txLookup`, a map from hashes, as the list of its entries
abbrev pub Lookup : Type 0
Lookup = List (Hash × Transaction)

unfoldable pub lookup_get : Hash → Lookup → Option Transaction
lookup_get h [] = none
lookup_get h ((k, tx) ∷ es) = if k == h then some tx else lookup_get h es

unfoldable pub lookup_remove : Hash → Lookup → Lookup
lookup_remove h [] = []
lookup_remove h ((k, tx) ∷ es) =
    let rest = lookup_remove h es in if k == h then rest else (k, tx) ∷ rest

unfoldable pub lookup_count : Lookup → ℕ
lookup_count es = length es

module _ (hash_of : Transaction → Hash) where
  unfoldable pub lookup_add : Transaction → Lookup → Lookup
  unfolding lookup_remove
  lookup_add tx es = (hash_of tx, tx) ∷ lookup_remove (hash_of tx) es

  -- the first offset of the hash in the queue
  unfoldable pub offset_of : Hash → List Transaction → Option ℕ
  offset_of h [] = none
  offset_of h (tx ∷ txs) =
      let rest = offset_of h txs in
      if hash_of tx == h then some 0 else elim rest [ none ↦ none | some i ↦ some (suc i) ]

remove_at : Option ℕ → List Transaction → List Transaction
unfolding remove
remove_at none txs = txs
remove_at (some i) txs = remove txs i

-- the fields that `sanitize` reads and changes, times in nanoseconds
pub record TxPoolConfig : Type 0 where
  pub no_locals : Bool
  pub rejournal : ℕ
  pub price_limit : ℕ
  pub price_bump : ℕ

unfoldable pub sanitize : TxPoolConfig → TxPoolConfig
sanitize config = record {
  no_locals = config.no_locals;
  rejournal = if ltb config.rejournal 1000000000 then 1000000000 else config.rejournal;
  price_limit = if ltb config.price_limit 1 then 1 else config.price_limit;
  price_bump = if ltb config.price_bump 1 then 10 else config.price_bump;
}

pub record TxPool (J : Type 0) : Type 0 where
  pub config : TxPoolConfig
  pub journal : Option J
  pub queue : List Transaction
  pub all : Lookup
  pub feed : List Transaction

unfoldable pub stats : {J : Type 0} → TxPool J → ℕ
stats p = length p.queue

unfoldable pub content : {J : Type 0} → TxPool J → List Transaction
content p = p.queue

unfoldable pub get_pooled : {J : Type 0} → Hash → TxPool J → Option Transaction
unfolding lookup_get
get_pooled h p = lookup_get h p.all

module _ {J : Type 0} (hash_of : Transaction → Hash) where
  -- the map changes only where the hash is not in it
  enqueue_found : Option Transaction → Transaction → TxPool J → TxPool J
  unfolding lookup_add
  enqueue_found none tx p = record p {
    queue = p.queue ++ tx ∷ [];
    all = lookup_add hash_of tx p.all;
  }
  enqueue_found (some k) tx p = record p { queue = p.queue ++ tx ∷ [] }

  unfoldable pub enqueue_tx : Hash → Transaction → TxPool J → TxPool J
  unfolding lookup_get enqueue_found
  enqueue_tx h tx p = enqueue_found (lookup_get h p.all) tx p

  remove_found : Option Transaction → Hash → TxPool J → TxPool J
  unfolding lookup_remove offset_of remove_at
  remove_found none h p = p
  remove_found (some tx) h p = record p {
    queue = remove_at (offset_of hash_of h p.queue) p.queue;
    all = lookup_remove h p.all;
  }

  unfoldable pub remove_tx : Hash → TxPool J → TxPool J
  unfolding lookup_get remove_found
  remove_tx h p = remove_found (lookup_get h p.all) h p

  module _ (validate_tx : Transaction → Outcome (Unit {0}))
      (journal_insert : Transaction → J → J) where
    journal_found : Option J → Transaction → TxPool J → TxPool J
    journal_found none tx p = p
    journal_found (some j) tx p = record p { journal = some (journal_insert tx j) }

    journal_tx : Transaction → TxPool J → TxPool J
    unfolding journal_found
    journal_tx tx p = journal_found p.journal tx p

    -- the insertion, the event and the journal
    admit : Transaction → Bool → TxPool J → TxPool J
    unfolding enqueue_tx journal_tx
    admit tx is_local p =
        let p1 = enqueue_tx (hash_of tx) tx p in
        let p2 : TxPool J = record p1 { feed = p1.feed ++ tx ∷ [] } in
        if is_local then journal_tx tx p2 else p2

    validated :
        Outcome (Unit {0}) → Transaction → Bool → TxPool J → Outcome (Option Error × TxPool J)
    unfolding admit
    validated (ok u) tx is_local p = ok (none, admit tx is_local p)
    validated (err e) tx is_local p = ok (some e, p)
    validated panic tx is_local p = panic

    add_found :
        Option Transaction → Transaction → Bool → TxPool J → Outcome (Option Error × TxPool J)
    unfolding validated
    add_found none tx is_local p = validated (validate_tx tx) tx is_local p
    add_found (some k) tx is_local p = ok (some known_transaction, p)

    -- `add`; a full pool is not refused
    unfoldable pub add : Transaction → Bool → TxPool J → Outcome (Option Error × TxPool J)
    unfolding lookup_get add_found
    add tx is_local p = add_found (lookup_get (hash_of tx) p.all) tx is_local p

    -- `addTxsLocked`: an error for each transaction, in order
    unfoldable pub add_txs_locked :
        List Transaction → Bool → TxPool J → Outcome (List (Option Error) × TxPool J)
    unfolding add
    add_txs_locked [] is_local p = ok ([], p)
    add_txs_locked (tx ∷ txs) is_local p = do
      r ← add tx is_local p
      rest ← add_txs_locked txs is_local r.1
      ok (r.0 ∷ rest.0, rest.1)

    unfoldable pub add_local : Transaction → TxPool J → Outcome (Option Error × TxPool J)
    unfolding add
    add_local tx p = add tx (not p.config.no_locals) p

    unfoldable pub add_remote : Transaction → TxPool J → Outcome (Option Error × TxPool J)
    unfolding add
    add_remote tx p = add tx false p

    unfoldable pub add_locals :
        List Transaction → TxPool J → Outcome (List (Option Error) × TxPool J)
    unfolding add_txs_locked
    add_locals txs p = add_txs_locked txs (not p.config.no_locals) p

    unfoldable pub add_remotes :
        List Transaction → TxPool J → Outcome (List (Option Error) × TxPool J)
    unfolding add_txs_locked
    add_remotes txs p = add_txs_locked txs false p
