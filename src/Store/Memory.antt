-- ===== src/Store/Memory.antt =====
-- store/memory_database.go: a map from keys to values, as the list of its entries. The lock makes
-- each method one step.
use plasma.Bytes.{Bytes}
use plasma.Prelude.{
  inr, inl, ap, ◌∙◌, Option-cases, ◌≡◌, refl, Bool, true, false, Option, none, some, List, [], ◌∷◌,
  arith, if◌then◌else◌, bytes_equal, bytes_equal→eq, bytes_equal_refl, map,
}
use plasma.Prelude.Outcome.{Error}
use plasma.Store.{Write, after_write, after_writes}
use plasma.Store.Laws.{is_some}

pub record MemDatabase : Type 0 where
  pub entries : List (Bytes × Bytes)

unfoldable pub new_mem_database : MemDatabase
new_mem_database = record { entries = [] }

lookup : Bytes → List (Bytes × Bytes) → Option Bytes
lookup j [] = none
lookup j ((k, v) ∷ es) = if bytes_equal k j then some v else lookup j es

-- `delete(db.db, key)`
without : Bytes → List (Bytes × Bytes) → List (Bytes × Bytes)
without k [] = []
without k ((i, v) ∷ es) = let rest = without k es in if bytes_equal i k then rest else (i, v) ∷ rest

unfoldable pub put : Bytes → Bytes → MemDatabase → Option Error × MemDatabase
unfolding without
put k v db = (none, record { entries = (k, v) ∷ without k db.entries })

unfoldable pub has : Bytes → MemDatabase → Option Bool
unfolding lookup
has k db = elim (lookup k db.entries) [ none ↦ some false | some v ↦ some true ]

unfoldable pub get : Bytes → MemDatabase → Option Bytes
unfolding lookup
get k db = lookup k db.entries

unfoldable pub keys : MemDatabase → List Bytes
keys db = map (λ e. e.0) db.entries

unfoldable pub delete : Bytes → MemDatabase → Option Error × MemDatabase
unfolding without
delete k db = (none, record { entries = without k db.entries })

lookup-without :
    (k j : Bytes) (es : List (Bytes × Bytes))
    → lookup j (without k es) ≡ (if bytes_equal k j then none else lookup j es)
unfolding lookup without
lookup-without k j [] = ground arith
lookup-without k j ((i, v) ∷ es) = ground (
  arith,
  lookup-without k j es,
  bytes_equal→eq i k,
  bytes_equal→eq i j,
  bytes_equal→eq k j,
  bytes_equal_refl k,
)

-- A read after `Put` gives the value that was put at that key, and what it gave before at any
-- other key; `Put` returns no error.
pub get-put :
    (k v j : Bytes) (db : MemDatabase)
    → ((put k v db).0 ≡ none) × (get j (put k v db).1 ≡ after_write (Write.put k v) j (get j db))
unfolding get put lookup
get-put k v j db = (refl, ground (arith, lookup-without k j db.entries))

-- A read after `Delete` finds nothing at that key, and what it found before at any other key;
-- `Delete` returns no error.
pub get-delete :
    (k j : Bytes) (db : MemDatabase)
    → ((delete k db).0 ≡ none) × (get j (delete k db).1 ≡ after_write (Write.delete k) j (get j db))
unfolding get delete
get-delete k j db = (refl, lookup-without k j db.entries)

-- the writes of a list, in order, up to the first error
abbrev then_run :
    Option Error × MemDatabase
    → (MemDatabase → Option Error × MemDatabase)
    → Option Error × MemDatabase
then_run (some e, db) rest = (some e, db)
then_run (none, db) rest = rest db

abbrev pub run : List Write → MemDatabase → Option Error × MemDatabase
run [] db = (none, db)
run (Write.put k v ∷ ws) db = then_run (put k v db) (run ws)
run (Write.delete k ∷ ws) db = then_run (delete k db) (run ws)

has-get : (j : Bytes) (db : MemDatabase) → has j db ≡ some (is_some (get j db))
unfolding has get
has-get j db = elim (Option-cases (lookup j db.entries)) [
  | inl e ↦ rw (has, e) refl
  | inr (v, e) ↦ rw (has, e) refl
]

run-get :
    (ws : List Write) (j : Bytes) (db : MemDatabase)
    → ((run ws db).0 ≡ none) × (get j (run ws db).1 ≡ after_writes ws j (get j db))
unfolding put delete
run-get [] j db = (refl, refl)
run-get (Write.put k v ∷ ws) j db =
    let rest = run-get ws j (put k v db).1 in
    (rest.0, rest.1 ∙ ap (after_writes ws j) (get-put k v j db).1)
run-get (Write.delete k ∷ ws) j db =
    let rest = run-get ws j (delete k db).1 in
    (rest.0, rest.1 ∙ ap (after_writes ws j) (get-delete k j db).1)

-- After any calls of Put and Delete, none of which returns an error, Get gives at each key what the
-- last of these left there, or what it gave before, and Has tells whether that is a value.
pub run-after_writes :
    (ws : List Write) (j : Bytes) (db : MemDatabase)
    → ((run ws db).0 ≡ none)
      × (get j (run ws db).1 ≡ after_writes ws j (get j db))
      × (has j (run ws db).1 ≡ some (is_some (after_writes ws j (get j db))))
run-after_writes ws j db =
    let runs = run-get ws j db in
    (runs.0, runs.1, has-get j (run ws db).1 ∙ ap (λ found. some (is_some found)) runs.1)
