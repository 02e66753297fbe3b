-- ===== src/Store/LevelDb/Refines.antt =====
-- `LDBDatabase` behaves as a map with transactions.
use plasma.Bytes.{Bytes}
use plasma.Prelude.{
  inr, inl, ◌∷◌, ap, ◌∙◌, ◌++◌, Option-cases, true, false, Option, none, some, List, [], ◌≡◌, refl,
  ◌≢◌, arith,
}
use plasma.Store.{Write, put, delete, after_write, after_writes}
use plasma.Store.Laws.{IsStore, View, is_some}
use plasma.Store.LevelDb.{
  LevelDb, LevelDbLaws, LdbDatabase, ldb_put, ldb_delete, ldb_begin_tx, ldb_commit_tx,
  ldb_rollback_tx, ldb_reset_tx, ldb_database,
}

module _ {D B : Type 0} (l : LevelDb D B) (writes : B → List Write) where
  -- the batch is empty outside a transaction
  abbrev pub IsPending : LdbDatabase D B → Option (List Write) → Type 0
  IsPending s none = (s.in_tx ≡ false) × (writes s.default_batch ≡ [])
  IsPending s (some ws) = (s.in_tx ≡ true) × (writes s.default_batch ≡ ws)

  pub record LdbModels (s : LdbDatabase D B) (view : View) (p : Option (List Write)) : Type 0 where
    pub shown : (j : Bytes) → l.db_get j s.db ≡ view j
    pub waiting : IsPending s p

module _ {D B : Type 0} (l : LevelDb D B) (writes : B → List Write) (w : LevelDbLaws l writes) where
  abbrev Shows : LdbDatabase D B → View → Option (List Write) → Type 0
  Shows = LdbModels l writes

  put_closed_lem :
      {s : LdbDatabase D B} {view : View} (k v : Bytes)
      → Shows s view none
      → (ldb_put l k v s).0 ≡ none
      → Shows (ldb_put l k v s).1 (λ j. after_write (put k v) j (view j)) none
  put_closed_lem {s} k v m h =
      let e : ldb_put l k v s ≡ ((l.db_put k v s.db).0, record s { db = (l.db_put k v s.db).1 }) =
        unfold ldb_put in ground (arith, m.waiting.0) in
      rw e (record {
        shown = λ j. w.get-put s.db k v j (rw e at h) ∙ ap (after_write (put k v) j) (m.shown j);
        waiting = m.waiting;
      })

  delete_closed_lem :
      {s : LdbDatabase D B} {view : View} (k : Bytes)
      → Shows s view none
      → (ldb_delete l k s).0 ≡ none
      → Shows (ldb_delete l k s).1 (λ j. after_write (delete k) j (view j)) none
  delete_closed_lem {s} k m h =
      let e : ldb_delete l k s
          ≡ ((l.db_delete k s.db).0, record s { db = (l.db_delete k s.db).1 }) =
        unfold ldb_delete in ground (arith, m.waiting.0) in
      rw e (record {
        shown = λ j. w.get-delete s.db k j (rw e at h) ∙ ap (after_write (delete k) j) (m.shown j);
        waiting = m.waiting;
      })

  put_open_lem :
      {s : LdbDatabase D B} {view : View} {ws : List Write} (k v : Bytes)
      → Shows s view (some ws)
      → ((ldb_put l k v s).0 ≡ none) × Shows (ldb_put l k v s).1 view (some (ws ++ put k v ∷ []))
  put_open_lem {s} k v m =
      let e : ldb_put l k v s
          ≡ (none, record s { default_batch = l.batch_put k v s.default_batch }) =
        unfold ldb_put in ground (arith, m.waiting.0) in
      rw e (
        refl,
        record {
          shown = m.shown;
          waiting = (
            m.waiting.0,
            w.writes-put s.default_batch k v ∙ ap (λ b. b ++ put k v ∷ []) m.waiting.1,
          );
        },
      )

  delete_open_lem :
      {s : LdbDatabase D B} {view : View} {ws : List Write} (k : Bytes)
      → Shows s view (some ws)
      → ((ldb_delete l k s).0 ≡ none) × Shows (ldb_delete l k s).1 view (some (ws ++ delete k ∷ []))
  delete_open_lem {s} k m =
      let e : ldb_delete l k s
          ≡ (none, record s { default_batch = l.batch_delete k s.default_batch }) =
        unfold ldb_delete in ground (arith, m.waiting.0) in
      rw e (
        refl,
        record {
          shown = m.shown;
          waiting = (
            m.waiting.0,
            w.writes-delete s.default_batch k ∙ ap (λ b. b ++ delete k ∷ []) m.waiting.1,
          );
        },
      )

  begin_closed_lem :
      {s : LdbDatabase D B} {view : View}
      → Shows s view none
      → ((ldb_begin_tx l s).0 ≡ true) × Shows (ldb_begin_tx l s).1 view (some [])
  begin_closed_lem {s} m =
      let e : ldb_begin_tx l s ≡ (true, record s { in_tx = true }) =
        unfold ldb_begin_tx in ground (arith, m.waiting.0) in
      rw e (refl, record { shown = m.shown; waiting = (refl, m.waiting.1) })

  begin_open_lem :
      {s : LdbDatabase D B} {view : View} {ws : List Write}
      → Shows s view (some ws)
      → ldb_begin_tx l s ≡ (false, s)
  unfolding ldb_begin_tx
  begin_open_lem {s} m = ground (arith, m.waiting.0)

  commit_done_lem :
      {s : LdbDatabase D B} {view : View} {ws : List Write}
      → Shows s view (some ws)
      → (ldb_commit_tx l s).0 ≡ none
      → Shows (ldb_commit_tx l s).1 (λ j. after_writes ws j (view j)) none
  commit_done_lem {s} {view} {ws} m h = elim (Option-cases (l.db_write s.default_batch s.db).0) [
    | inr (x, f) ↦ absurd (unfold ldb_commit_tx in ground (arith, m.waiting.0))
    | inl f ↦
        let e : ldb_commit_tx l s
            ≡ (none, ldb_reset_tx l (record s { db = (l.db_write s.default_batch s.db).1 })) =
          unfold ldb_commit_tx in ground (arith, m.waiting.0) in
        rw e (
          unfold ldb_reset_tx in
          record {
            shown = λ j.
                w.get-write s.db s.default_batch j f
                ∙ ap (λ b. after_writes b j (l.db_get j s.db)) m.waiting.1
                ∙ ap (after_writes ws j) (m.shown j);
            waiting = (refl, w.writes-reset s.default_batch);
          })
  ]

  commit_failed_lem :
      {s : LdbDatabase D B} {view : View} {ws : List Write}
      → Shows s view (some ws)
      → (ldb_commit_tx l s).0 ≢ none
      → Shows (ldb_commit_tx l s).1 view (some ws)
  commit_failed_lem {s} m h = elim (Option-cases (l.db_write s.default_batch s.db).0) [
    | inl f ↦ absurd (h (unfold ldb_commit_tx in ground (arith, m.waiting.0)))
    | inr (x, f) ↦
        let e : ldb_commit_tx l s
            ≡ (some x, record s { db = (l.db_write s.default_batch s.db).1 }) =
          unfold ldb_commit_tx in ground (arith, m.waiting.0) in
        rw e (record {
          shown = λ j. w.get-write_failed s.db s.default_batch j (λ z. cc) ∙ m.shown j;
          waiting = m.waiting;
        })
  ]

  rollback_open_lem :
      {s : LdbDatabase D B} {view : View} {ws : List Write}
      → Shows s view (some ws)
      → ((ldb_rollback_tx l s).0 ≡ none) × Shows (ldb_rollback_tx l s).1 view none
  rollback_open_lem {s} m =
      let e : ldb_rollback_tx l s ≡ (none, ldb_reset_tx l s) =
        unfold ldb_rollback_tx in ground (arith, m.waiting.0) in
      rw e (
        unfold ldb_reset_tx in
        (refl, record { shown = m.shown; waiting = (refl, w.writes-reset s.default_batch) }))

  -- `LDBDatabase` over any LevelDB that keeps its documented behaviour is a store: a read gives the
  -- last committed write; inside a transaction writes are invisible and cannot fail; `BeginTx`
  -- refuses a second transaction; `CommitTx` applies the pending writes in order, or fails and
  -- keeps the transaction open; `RollbackTx` drops them.
  pub ldb_database-IsStore : IsStore (ldb_database l) (LdbModels l writes)
  unfolding ldb_database
  ldb_database-IsStore = record {
    reads = λ m j. m.shown j;
    tests = λ {s} m j. w.has-get s.db j ∙ ap (λ o. some (is_some o)) (m.shown j);
    put_closed = put_closed_lem;
    delete_closed = delete_closed_lem;
    put_open = put_open_lem;
    delete_open = delete_open_lem;
    begin_closed = begin_closed_lem;
    begin_open = begin_open_lem;
    commit_done = commit_done_lem;
    commit_failed = commit_failed_lem;
    rollback_open = rollback_open_lem;
  }
