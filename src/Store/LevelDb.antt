-- ===== src/Store/LevelDb.antt =====
-- store/database.go: `LDBDatabase`, a LevelDB file with at most one transaction, which a batch
-- simulates. LevelDB itself is the parameter `LevelDb`; `D` is the state of its file and `B` that of
-- a batch.
pub mod Refines
use plasma.Bytes.{Bytes}
use plasma.Prelude.{
  Bool, true, false, Option, none, some, List, [], ◌∷◌, ◌++◌, ◌≡◌, ◌≢◌, if◌then◌else◌,
}
use plasma.Prelude.Outcome.{Error, no_open_tx}
use plasma.Store.{Database, Write, put, delete, after_write, after_writes}
use plasma.Store.Laws.{is_some}

pub record LevelDb (D B : Type 0) : Type 0 where
  pub db_get : Bytes → D → Option Bytes
  pub db_has : Bytes → D → Option Bool
  pub db_put : Bytes → Bytes → D → Option Error × D
  pub db_delete : Bytes → D → Option Error × D
  pub db_write : B → D → Option Error × D
  pub batch_put : Bytes → Bytes → B → B
  pub batch_delete : Bytes → B → B
  pub batch_reset : B → B

-- LevelDB's documented behaviour. A batch holds its writes in order, and `Write` applies all of
-- them or, when it returns an error, none.
pub record LevelDbLaws {D B : Type 0} (l : LevelDb D B) (writes : B → List Write) : Type 0 where
  pub has-get : (d : D) (j : Bytes) → l.db_has j d ≡ some (is_some (l.db_get j d))
  pub get-put :
      (d : D) (k v j : Bytes)
      → (l.db_put k v d).0 ≡ none
      → l.db_get j (l.db_put k v d).1 ≡ after_write (put k v) j (l.db_get j d)
  pub get-delete :
      (d : D) (k j : Bytes)
      → (l.db_delete k d).0 ≡ none
      → l.db_get j (l.db_delete k d).1 ≡ after_write (delete k) j (l.db_get j d)
  pub get-write :
      (d : D) (b : B) (j : Bytes)
      → (l.db_write b d).0 ≡ none
      → l.db_get j (l.db_write b d).1 ≡ after_writes (writes b) j (l.db_get j d)
  pub get-write_failed :
      (d : D) (b : B) (j : Bytes)
      → (l.db_write b d).0 ≢ none
      → l.db_get j (l.db_write b d).1 ≡ l.db_get j d
  pub writes-put : (b : B) (k v : Bytes) → writes (l.batch_put k v b) ≡ writes b ++ put k v ∷ []
  pub writes-delete : (b : B) (k : Bytes) → writes (l.batch_delete k b) ≡ writes b ++ delete k ∷ []
  pub writes-reset : (b : B) → writes (l.batch_reset b) ≡ []

-- `batch` is nil or points to the package's one `defaultBatch`, so its contents stay in
-- `default_batch` and `in_tx` says whether the pointer is set.
pub record LdbDatabase (D B : Type 0) : Type 0 where
  pub db : D
  pub default_batch : B
  pub in_tx : Bool

module _ {D B : Type 0} (l : LevelDb D B) where
  unfoldable pub ldb_put : Bytes → Bytes → LdbDatabase D B → Option Error × LdbDatabase D B
  ldb_put k v s =
      if s.in_tx
      then (none, record s { default_batch = l.batch_put k v s.default_batch })
      else let (e, d) = l.db_put k v s.db in (e, record s { db = d })

  unfoldable pub ldb_has : Bytes → LdbDatabase D B → Option Bool
  ldb_has k s = l.db_has k s.db

  unfoldable pub ldb_get : Bytes → LdbDatabase D B → Option Bytes
  ldb_get k s = l.db_get k s.db

  unfoldable pub ldb_delete : Bytes → LdbDatabase D B → Option Error × LdbDatabase D B
  ldb_delete k s =
      if s.in_tx
      then (none, record s { default_batch = l.batch_delete k s.default_batch })
      else let (e, d) = l.db_delete k s.db in (e, record s { db = d })

  unfoldable pub ldb_begin_tx : LdbDatabase D B → Bool × LdbDatabase D B
  ldb_begin_tx s = if s.in_tx then (false, s) else (true, record s { in_tx = true })

  unfoldable pub ldb_reset_tx : LdbDatabase D B → LdbDatabase D B
  ldb_reset_tx s = record s { default_batch = l.batch_reset s.default_batch; in_tx = false }

  unfoldable pub ldb_commit_tx : LdbDatabase D B → Option Error × LdbDatabase D B
  unfolding ldb_reset_tx
  ldb_commit_tx s =
      if s.in_tx
      then (let (e, d) = l.db_write s.default_batch s.db in
          elim e [
            | none ↦ (none, ldb_reset_tx (record s { db = d }))
            | some x ↦ (some x, record s { db = d })
          ])
      else (some no_open_tx, s)

  unfoldable pub ldb_rollback_tx : LdbDatabase D B → Option Error × LdbDatabase D B
  unfolding ldb_reset_tx
  ldb_rollback_tx s = if s.in_tx then (none, ldb_reset_tx s) else (some no_open_tx, s)

  unfoldable pub ldb_database : Database (LdbDatabase D B)
  unfolding ldb_get ldb_has ldb_put ldb_delete ldb_begin_tx ldb_commit_tx ldb_rollback_tx
  ldb_database = record {
    get = ldb_get;
    has = ldb_has;
    put = ldb_put;
    delete = ldb_delete;
    begin_tx = ldb_begin_tx;
    commit_tx = ldb_commit_tx;
    rollback_tx = ldb_rollback_tx;
  }
