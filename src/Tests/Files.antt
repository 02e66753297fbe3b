-- ===== src/Tests/Files.antt =====
-- The database over a file, as the tests use it: it is a store, no write fails, and its closed state
-- is empty.
use plasma.Bytes.{Bytes}
use plasma.Prelude.{◌≡◌, refl, inl, inr, none, Bool-cases}
use plasma.Store.Laws.{IsStore}
use plasma.Store.LevelDb.{ldb_put, ldb_database}
use plasma.Store.LevelDb.Refines.{ldb_database-IsStore, LdbModels}
use plasma.Tests.{file_db-Laws, empty_view, file_db, closed_state, FileState}

pub file_store : IsStore (ldb_database file_db) (LdbModels file_db (λ b. b))
file_store = ldb_database-IsStore file_db (λ b. b) file_db-Laws

pub closed_models : LdbModels file_db (λ b. b) closed_state empty_view none
closed_models = record { shown = λ j. refl; waiting = (refl, refl) }

pub file_puts : (k v : Bytes) (s : FileState) → ((ldb_database file_db).put k v s).0 ≡ none
unfolding ldb_database ldb_put
file_puts k v s = elim (Bool-cases s.in_tx) [ inl e ↦ rw e refl | inr e ↦ rw e refl ]
