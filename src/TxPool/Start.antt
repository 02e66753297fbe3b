-- ===== src/TxPool/Start.antt =====
-- core/tx_pool.go: `NewTxPool`, which loads the journal and writes it anew, and the local accounts.
-- The set of local accounts is the list of its members; no code adds one.
use plasma.Bytes.{Hash, Address}
use plasma.Prelude.{
  ◌≡◌, refl, sym, ap, ◌∙◌, ◌≢◌, ◌⊎◌, inl, inr, Bool, true, false, ◌&&◌, ◌||◌, not, Option, none,
  some, List, [], ◌∷◌, ◌++◌, ◌==◌, if◌then◌else◌,
}
use plasma.Prelude.Outcome.{ok-injective, >>=-eq-ok, Outcome, ok, err, panic, ◌>>=◌, Error}
use plasma.TxJournal.{TxJournal, File, Os, Writer, insert, rotate, load}
use plasma.TxJournal.Empties.{rotate-nil}
use plasma.TxPool.{TxPool, TxPoolConfig, sanitize, add_locals}
use plasma.Types.Transaction.{Transaction}

-- `accountSet.contains`
unfoldable pub is_member : Address → List Address → Bool
is_member a [] = false
is_member a (k ∷ ks) = k == a || is_member a ks

-- `txs[addr] = append(txs[addr], tx)`, for a local account
append_local :
    List Address
    → Address
    → Transaction
    → List (Address × List Transaction)
    → List (Address × List Transaction)
unfolding is_member
append_local locals a tx [] = if is_member a locals then (a, tx ∷ []) ∷ [] else []
append_local locals a tx ((k, txs) ∷ rest) =
    let appended = append_local locals a tx rest in
    if k == a && is_member a locals then (k, txs ++ tx ∷ []) ∷ rest else (k, txs) ∷ appended

Outcome-cases :
    {A : Type 0} (o : Outcome A)
    → ((a : A) × (o ≡ ok a)) ⊎ (((e : Error) × (o ≡ err e)) ⊎ (o ≡ panic))
Outcome-cases (ok a) = inl (a, refl)
Outcome-cases (err e) = inr (inl (e, refl))
Outcome-cases panic = inr (inr refl)

module _ (sender_of : Transaction → Outcome (Address × Address)) where
  local_loop :
      List Address
      → List Transaction
      → List (Address × List Transaction)
      → Outcome (List (Address × List Transaction))
  unfolding append_local
  local_loop locals [] m = ok m
  local_loop locals (tx ∷ txs) m =
      let next = local_loop locals txs in
      elim (sender_of tx) [
        | ok a ↦ next (append_local locals a.1 tx (append_local locals a.0 tx m))
        | err e ↦ next m
        | panic ↦ panic
      ]

  -- `local`, of the queue; a transaction without a sender is left out
  unfoldable pub local :
      List Address → List Transaction → Outcome (List (Address × List Transaction))
  unfolding local_loop
  local locals queue = local_loop locals queue []

  module _ (hash_of : Transaction → Hash) (validate_tx : Transaction → Outcome (Unit {0}))
      (os : Os) where
    -- `journal.insert`, whose error is only logged
    journal_insert : Transaction → TxJournal → TxJournal
    journal_insert tx j = (insert os tx j).1

    empty_pool : TxPoolConfig → Option TxJournal → TxPool TxJournal
    unfolding sanitize
    empty_pool config journal = record {
      config = sanitize config;
      journal = journal;
      queue = [];
      all = [];
      feed = [];
    }

    -- the journal of the pool, once it is loaded and written anew; errors are only logged
    start_journal : Option Error × (TxJournal × TxPool TxJournal) → Outcome (TxPool TxJournal)
    unfolding local
    start_journal loaded = do
      locals ← local [] loaded.1.1.queue
      ok (record (loaded.1.1) { journal = some (rotate os locals loaded.1.0).1 })

    -- `NewTxPool`; `has_path` is that the configuration names a journal, `file` what is there.
    -- While it is loaded, the journal writes to `dev_null`.
    unfoldable pub new_tx_pool : TxPoolConfig → Bool → Option File → Outcome (TxPool TxJournal)
    unfolding empty_pool start_journal journal_insert
    new_tx_pool config has_path file =
        if config.no_locals || not has_path
        then ok (empty_pool config none)
        else load (add_locals hash_of validate_tx journal_insert) os
            (record { writer = Writer.closed; file = file })
            (empty_pool config (some (record { writer = Writer.dev_null; file = file })))
          >>= start_journal

    local-no_accounts :
        (queue : List Transaction) (m : List (Address × List Transaction))
        → m ≡ []
        → ((tx : Transaction) → sender_of tx ≢ panic)
        → local_loop [] queue m ≡ ok []
    unfolding local_loop append_local is_member
    local-no_accounts [] m e safe = ap ok e
    local-no_accounts (tx ∷ txs) m e safe = elim (Outcome-cases (sender_of tx)) [
      | inl a ↦ rw (local_loop, a.1) (local-no_accounts txs _ (rw e refl) safe)
      | inr (inl r) ↦ rw (local_loop, r.1) (local-no_accounts txs m e safe)
      | inr (inr stuck) ↦ absurd (safe tx stuck)
    ]

    -- If the pool starts with a journal, and neither the signer panics nor the operating system
    -- gives an error, the journal's file is empty afterwards, whatever was in it.
    pub new_tx_pool-empties_journal :
        (config : TxPoolConfig) (file : Option File) (p : TxPool TxJournal)
        → config.no_locals ≡ false
        → os.close_file ≡ none
        → os.create_file ≡ none
        → os.rename_file ≡ none
        → os.append_file ≡ none
        → ((tx : Transaction) → sender_of tx ≢ panic)
        → new_tx_pool config true file ≡ ok p
        → p.journal
          ≡ some
              (record { writer = Writer.sink; file = some (record { txs = []; broken = false }) })
    unfolding new_tx_pool start_journal local
    new_tx_pool-empties_journal config file p enabled c r n a safe run =
        let done = >>=-eq-ok (load _ os _ _) start_journal (rw enabled at run) in
        let none_local = local-no_accounts done.0.1.1.queue [] refl safe in
        let started = rw (start_journal, local, none_local) at done.2 in
        ap (λ (q : TxPool TxJournal). q.journal) (sym (ok-injective started))
        ∙ rw (rotate-nil os done.0.1.0 c r n a) refl
