-- ===== src/Genesis/Setup.antt =====
-- core/genesis.go: what is set up is found again.
use plasma.Bytes.{put_uint, Hash, Bytes}
use plasma.Genesis.{Genesis}
use plasma.Prelude.{ℕ, ◌≡◌, Option, none, some, List}
use plasma.RawDb.Schema.{head_header_key, head_block_key, header_hash_key}
use plasma.Store.{put, Write, Database}
use plasma.Store.Laws.{IsStore, View}
use plasma.Types.Block.{Block}
use plasma.Types.External.{External}

module _ {S : Type 0} (d : Database S) {Models : S → View → Option (List Write) → Type 0}
    (store : IsStore d Models) (puts : (k v : Bytes) (s : S) → (d.put k v s).0 ≡ none)
    (x : External) where
  -- what the three records of the head read after `write_genesis`
  abbrev HeadIs : Hash → ℕ → S → Type 0
  HeadIs hash n s =
      (view : View) × Models s view none
      × (view (header_hash_key n) ≡ some (put_uint 32 hash))
      × (view head_block_key ≡ some (put_uint 32 hash))
      × (view head_header_key ≡ some (put_uint 32 hash))
