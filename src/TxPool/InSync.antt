-- ===== src/TxPool/InSync.antt =====
-- The two views that the pool keeps of its transactions, the queue and the map by hash, agree.
use plasma.Bytes.{Hash}
use plasma.Prelude.{
  suc, ◌≡◌, refl, sym, ap, ◌∙◌, subst, inl, inr, Bool, true, false, Option, none, some, List, [],
  ◌∷◌, ◌++◌, arith, ◌==◌, if◌then◌else◌, Bool-cases, length,
}
use plasma.Prelude.Outcome.{>>=-eq-ok, ok-injective, Outcome, ok, err, panic, Error}
use plasma.TxPool.{
  add, add_txs_locked, validated, admit, journal_tx, journal_found, enqueue_found, add_found,
  lookup_add, enqueue_tx, TxPool, Lookup, lookup_remove, lookup_get,
}
use plasma.Types.Transaction.{Transaction}

-- the first transaction of the queue with this hash
abbrev pub find_hash : (Transaction → Hash) → Hash → List Transaction → Option Transaction
find_hash hash_of h [] = none
find_hash hash_of h (tx ∷ txs) = if hash_of tx == h then some tx else find_hash hash_of h txs

some-ne-none : {k : Transaction} → some k ≡ none → ⊥
some-ne-none h = cc

-- at a new hash the old queue has nothing
merge :
    (tx : Transaction) (c : Bool) (o : Option Transaction)
    → (c ≡ true → o ≡ none)
    → (if c then some tx else o) ≡ elim o [ none ↦ if c then some tx else none | some k ↦ some k ]
merge tx true none h = refl
merge tx true (some k) h = absurd (some-ne-none (h refl))
merge tx false none h = refl
merge tx false (some k) h = refl

abbrev pub InSync : {J : Type 0} → (Transaction → Hash) → TxPool J → Type 0
InSync hash_of p = (h : Hash) → lookup_get h p.all ≡ find_hash hash_of h p.queue

pub get-remove :
    (k h : Hash) (es : Lookup)
    → lookup_get h (lookup_remove k es) ≡ (if k == h then none else lookup_get h es)
unfolding lookup_get lookup_remove
get-remove k h [] = ground arith
get-remove k h ((i, tx) ∷ es) = ground (arith, get-remove k h es)

module _ (hash_of : Transaction → Hash) where
  get-add :
      (tx : Transaction) (h : Hash) (es : Lookup)
      → lookup_get h (lookup_add hash_of tx es)
        ≡ (if hash_of tx == h then some tx else lookup_get h es)
  unfolding lookup_get lookup_add
  get-add tx h es = ground (arith, get-remove (hash_of tx) h es)

  find-snoc :
      (tx : Transaction) (h : Hash) (txs : List Transaction)
      → find_hash hash_of h (txs ++ tx ∷ []) ≡ elim (find_hash hash_of h txs) [
        | none ↦ if hash_of tx == h then some tx else none
        | some k ↦ some k
      ]
  find-snoc tx h [] = refl
  find-snoc tx h (k ∷ txs) = elim (Bool-cases (hash_of k == h)) [
    | inl e ↦ rw e refl
    | inr e ↦ rw e (find-snoc tx h txs)
  ]

module _ {J : Type 0} (hash_of : Transaction → Hash)
    (validate_tx : Transaction → Outcome (Unit {0})) (journal_insert : Transaction → J → J) where
  -- what `add` does to the queue and the map where it accepts
  enqueue-InSync :
      (found : Option Transaction) (tx : Transaction) (p : TxPool J)
      → found ≡ none
      → find_hash hash_of (hash_of tx) p.queue ≡ none
      → InSync hash_of p
      → InSync hash_of (enqueue_found hash_of found tx p)
        × ((enqueue_found hash_of found tx p).queue ≡ p.queue ++ tx ∷ [])
  unfolding enqueue_found
  enqueue-InSync (some k) tx p e new sync = cc
  enqueue-InSync none tx p e e_new sync =
      (λ h. get-add hash_of tx h p.all ∙ agree h ∙ sym (find-snoc hash_of tx h p.queue), refl)
    where
      agree :
          (h : Hash)
          → (if hash_of tx == h then some tx else lookup_get h p.all)
            ≡ elim (find_hash hash_of h p.queue) [
              | none ↦ if hash_of tx == h then some tx else none
              | some k ↦ some k
            ]
      agree h = rw (sync h) (
          merge tx (hash_of tx == h) (find_hash hash_of h p.queue) (λ e.
            let same : hash_of tx ≡ h = ground arith in
            subst (λ k. find_hash hash_of k p.queue ≡ none) same e_new))

  -- the journal keeps what is said of the queue and the map
  journal_found-Keeps :
      (o : Option J) (tx : Transaction) (p : TxPool J) (txs : List Transaction)
      → InSync hash_of p × (p.queue ≡ txs)
      → InSync hash_of (journal_found hash_of validate_tx journal_insert o tx p)
        × ((journal_found hash_of validate_tx journal_insert o tx p).queue ≡ txs)
  unfolding journal_found
  journal_found-Keeps none tx p txs h = h
  journal_found-Keeps (some j) tx p txs h = h

  admit-InSync :
      (tx : Transaction) (is_local : Bool) (p : TxPool J)
      → lookup_get (hash_of tx) p.all ≡ none
      → InSync hash_of p
      → InSync hash_of (admit hash_of validate_tx journal_insert tx is_local p)
        × ((admit hash_of validate_tx journal_insert tx is_local p).queue ≡ p.queue ++ tx ∷ [])
  unfolding admit enqueue_tx journal_tx
  admit-InSync tx false p new sync =
      enqueue-InSync (lookup_get (hash_of tx) p.all) tx p new (sym (sync (hash_of tx)) ∙ new) sync
  admit-InSync tx true p new sync =
      journal_found-Keeps _ tx _ (p.queue ++ tx ∷ []) (
        enqueue-InSync (lookup_get (hash_of tx) p.all) tx p new (sym (sync (hash_of tx)) ∙ new)
          sync)

  -- what a call of `add` did: it queued the transaction last, or it changed nothing
  abbrev pub Added : Transaction → TxPool J → Option Error × TxPool J → Type 0
  Added tx p (none, p') = InSync hash_of p' × (p'.queue ≡ p.queue ++ tx ∷ [])
  Added tx p (some e, p') = p' ≡ p

  validated-Added :
      (v : Outcome (Unit {0})) (tx : Transaction) (is_local : Bool) (p : TxPool J)
      (r : Option Error × TxPool J)
      → lookup_get (hash_of tx) p.all ≡ none
      → InSync hash_of p
      → validated hash_of validate_tx journal_insert v tx is_local p ≡ ok r
      → Added tx p r
  unfolding validated
  validated-Added (ok u) tx is_local p r new sync h =
      subst (Added tx p) (ok-injective h) (admit-InSync tx is_local p new sync)
  validated-Added (err e) tx is_local p r new sync h = subst (Added tx p) (ok-injective h) refl
  validated-Added panic tx is_local p r new sync h = cc

  add_found-Added :
      (found : Option Transaction) (tx : Transaction) (is_local : Bool) (p : TxPool J)
      (r : Option Error × TxPool J)
      → lookup_get (hash_of tx) p.all ≡ found
      → InSync hash_of p
      → add_found hash_of validate_tx journal_insert found tx is_local p ≡ ok r
      → Added tx p r
  unfolding add_found
  add_found-Added none tx is_local p r e sync h =
      validated-Added (validate_tx tx) tx is_local p r e sync h
  add_found-Added (some k) tx is_local p r e sync h = subst (Added tx p) (ok-injective h) refl

  -- Where the queue and the map by hash agree, `add` with no error puts the transaction last in
  -- the queue, and they agree again; with an error it changes nothing.
  pub add-Added :
      (tx : Transaction) (is_local : Bool) (p : TxPool J) (r : Option Error × TxPool J)
      → InSync hash_of p
      → add hash_of validate_tx journal_insert tx is_local p ≡ ok r
      → Added tx p r
  unfolding add
  add-Added tx is_local p r sync h =
      add_found-Added (lookup_get (hash_of tx) p.all) tx is_local p r refl sync h

  Added-InSync :
      (tx : Transaction) (p : TxPool J) (r : Option Error × TxPool J)
      → InSync hash_of p
      → Added tx p r
      → InSync hash_of r.1
  Added-InSync tx p (none, p') sync h = h.0
  Added-InSync tx p (some e, p') sync h = subst (InSync hash_of) (sym h) sync

  -- Where the queue and the map by hash agree, they agree after `addTxsLocked`, which gives one
  -- result for each transaction.
  pub add_txs_locked-InSync :
      (txs : List Transaction) (is_local : Bool) (p : TxPool J) (r : List (Option Error) × TxPool J)
      → InSync hash_of p
      → add_txs_locked hash_of validate_tx journal_insert txs is_local p ≡ ok r
      → InSync hash_of r.1 × (length r.0 ≡ length txs)
  unfolding add_txs_locked
  add_txs_locked-InSync [] is_local p r sync h =
      subst (λ q. InSync hash_of q.1 × (length q.0 ≡ 0)) (ok-injective h) (sync, refl)
  add_txs_locked-InSync (tx ∷ txs) is_local p r sync h =
      let s = >>=-eq-ok (add hash_of validate_tx journal_insert tx is_local p) _ h in
      let s' =
        >>=-eq-ok (add_txs_locked hash_of validate_tx journal_insert txs is_local s.0.1) _ s.2 in
      let sync' = Added-InSync tx p s.0 sync (add-Added tx is_local p s.0 sync s.1) in
      let rest = add_txs_locked-InSync txs is_local s.0.1 s'.0 sync' s'.1 in
      subst (λ q. InSync hash_of q.1 × (length q.0 ≡ suc (length txs))) (ok-injective s'.2)
        (rest.0, ap suc rest.1)
