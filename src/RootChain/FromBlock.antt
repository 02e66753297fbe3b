-- ===== src/RootChain/FromBlock.antt =====
-- core/rootchain.go: `PutFromBlock` and `GetFromBlock`.
use plasma.Bytes.{big_bytes}
use plasma.Bytes.RoundTrip.{set_bytes-big_bytes}
use plasma.Prelude.{ℕ, ◌≡◌, refl, ◌∙◌, true, Option, none, some, List, bytes_equal_refl}
use plasma.Prelude.Int.{pos, ℤ}
use plasma.Prelude.Outcome.{ok}
use plasma.RootChain.{from_block_key, get_from_block, put_from_block}
use plasma.Store.{put, after_write, Write, Database}
use plasma.Store.Laws.{IsStore, View}

-- Outside a transaction, after `PutFromBlock` of a number that is not negative, with no error,
-- `GetFromBlock` gives that number, whatever is configured.
pub get_from_block-put_from_block :
    {S : Type 0} (d : Database S) {Models : S → View → Option (List Write) → Type 0}
    (store : IsStore d Models) (s : S) (view : View) (configured : ℤ) (n : ℕ)
    → Models s view none
    → (put_from_block d (pos n) s).0 ≡ none
    → get_from_block d configured (put_from_block d (pos n) s).1 ≡ ok (pos n)
unfolding get_from_block put_from_block
get_from_block-put_from_block d store s view configured n m e =
    let after = store.put_closed from_block_key (big_bytes n) m e in
    let found : after_write (put from_block_key (big_bytes n)) from_block_key (view from_block_key)
        ≡ some (big_bytes n) =
      rw (bytes_equal_refl from_block_key) refl in
    let present : d.has from_block_key (d.put from_block_key (big_bytes n) s).1 ≡ some true =
      store.tests after from_block_key ∙ rw found refl in
    let value = store.reads after from_block_key ∙ found in
    rw (put_from_block, get_from_block, present, value, set_bytes-big_bytes n) refl
