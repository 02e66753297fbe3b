-- ===== src/Store.antt =====
-- store/: the `Database` interface of store/interfaces.go, by which core/ reaches its storage, and
-- its implementations. `S` is the state of a database. An operation that returns an `error`
-- returns it beside the new state, `none` for nil.
pub mod Laws
pub mod Memory
pub mod LevelDb
use plasma.Bytes.{Bytes}
use plasma.Prelude.{Bool, Option, none, some, List, [], ◌∷◌, if◌then◌else◌, bytes_equal}
use plasma.Prelude.Outcome.{Error}

pub record Database (S : Type 0) : Type 0 where
  -- `none` is an error, not found or another
  pub get : Bytes → S → Option Bytes
  pub has : Bytes → S → Option Bool
  pub put : Bytes → Bytes → S → Option Error × S
  pub delete : Bytes → S → Option Error × S
  pub begin_tx : S → Bool × S
  pub commit_tx : S → Option Error × S
  pub rollback_tx : S → Option Error × S

-- a write that waits in an open transaction
pub data Write : Type 0 where
  put : Bytes → Bytes → Write
  delete : Bytes → Write

-- what a read of `j` gives after a write, from what it gave before
abbrev pub after_write : Write → Bytes → Option Bytes → Option Bytes
after_write (put k v) j before = if bytes_equal k j then some v else before
after_write (delete k) j before = if bytes_equal k j then none else before

-- likewise after a list of writes, the first one first
abbrev pub after_writes : List Write → Bytes → Option Bytes → Option Bytes
after_writes [] j before = before
after_writes (w ∷ ws) j before = after_writes ws j (after_write w j before)
