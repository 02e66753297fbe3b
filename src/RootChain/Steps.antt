-- ===== src/RootChain/Steps.antt =====
-- core/rootchain.go: what one event of `loopEvents` comes to, in surroundings that behave.
use plasma.Bytes.{big_bytes, Bytes}
use plasma.Prelude.{
  ℕ, ◌+◌, ◌%◌, ◌^◌, ◌<◌, ◌≡◌, refl, ◌∙◌, ◌≢◌, true, false, Option, none, some, List, [], ◌∷◌, ◌++◌,
  map, arith, ltb, if◌then◌else◌, bytes_equal, bytes_equal_refl, length, All,
}
use plasma.Prelude.Int.{pos}
use plasma.Prelude.Outcome.{ok, Error}
use plasma.RootChain.{
  ContractEvent, EventCodec, Handlers, EventValue, unregistered, from_block_key, hash_event,
  deal_with, to_int64, put_from_block, del_last_block_event_hash,
}
use plasma.RootChain.Deletes.{deleted-gone, deleted-other, del_last_block_event_hash-gone}
use plasma.RootChain.Events.{
  EventLoop, Turn, closes_block, close_saved, close_block, record_event, handle_event, event_step,
}
use plasma.Store.{put, delete, after_writes, after_write, Write, Database}
use plasma.Store.Laws.{IsStore, is_some, View}

abbrev pub IsRegistered : EventValue → Type 0
IsRegistered unregistered = ⊥
IsRegistered v = Unit

-- one event after the other, from one state of the handlers to another
abbrev pub HandledAll :
    {W : Type 0} → (ContractEvent → W → W → Type 0) → List ContractEvent → W → W → Type 0
HandledAll Does [] w w' = w ≡ w'
HandledAll Does (e ∷ events) w w' = (v : _) × Does e w v × HandledAll Does events v w'

module _ (c : EventCodec) where
  abbrev pub event_key : ContractEvent → Bytes
  event_key e = (hash_event c e).0

  -- each event is recorded, in what the database reads
  abbrev pub AllRecorded : View → List ContractEvent → Type 0
  AllRecorded view events = All (λ e. is_some (view (event_key e)) ≡ true) events

  -- no event is recorded, and no two have one key
  abbrev pub AllNew : View → List ContractEvent → Type 0
  AllNew view [] = Unit
  AllNew view (e ∷ events) =
      (view (event_key e) ≡ none)
      × All (λ later. bytes_equal (event_key e) (event_key later) ≡ false) events
      × AllNew view events

  abbrev pub OfBlock : (ContractEvent → Type 0) → ℕ → List ContractEvent → Type 0
  OfBlock Fit n events = All (λ e. (e.block_num ≡ n) × Fit e) events

-- What the loop needs of its surroundings: MD5 keys have 16 bytes, no write of its own fails, and on
-- an event that fits, a handler returns, with an error or without one, leaves no transaction open,
-- leaves the events' records alone, and does what `Does` says to what it holds beside the database.
pub record Surroundings {S W : Type 0} (d : Database S) (c : EventCodec) (handlers : Handlers S W)
    (Models : S → View → Option (List Write) → Type 0) (Fit : ContractEvent → Type 0)
    (Does : ContractEvent → W → W → Type 0) : Type 0 where
  pub key_length : (e : ContractEvent) → length (hash_event c e).0 ≡ 16
  pub puts : (k v : Bytes) (s : S) → (d.put k v s).0 ≡ none
  pub commits :
      (s : S) (view : View) (ws : List Write) → Models s view (some ws) → (d.commit_tx s).0 ≡ none
  pub handles :
      (s : S) (view : View) (e : ContractEvent) (w : W)
      → Models s view none
      → Fit e
      → (r : Option Error) × (s' : S) × (w' : W) × (view' : View) × (deal_with handlers e.v (s, w)
          ≡ ok (r, (s', w')))
        × Does e w w'
        × Models s' view' none
        × ((j : Bytes) → length j ≡ 16 → view' j ≡ view j)

length-from_block_key : length from_block_key ≢ 16
unfolding from_block_key
length-from_block_key e = cc

to_int64_small : (n : ℕ) → n + 1 < 2 ^ 63 → to_int64 ((n + 1) % 2 ^ 64) ≡ pos (n + 1)
unfolding to_int64
to_int64_small n small =
    let whole : (n + 1) % 2 ^ 64 ≡ n + 1 = omega (arith, small) in
    let below : ltb (n + 1) (2 ^ 63) ≡ true = ground (arith, small) in rw (whole, below) refl

module _ {S W : Type 0} (d : Database S) (c : EventCodec) (handlers : Handlers S W)
    (Models : S → View → Option (List Write) → Type 0) (Fit : ContractEvent → Type 0)
    (Does : ContractEvent → W → W → Type 0) where
  -- what the loop comes to once it has closed block `n`
  abbrev pub Finished : List Bytes → ℕ → (W → Type 0) → Turn S W → Type 0
  Finished keys n Ends out =
      (l : EventLoop S W) × (view : View) × (out ≡ ok (true, l))
      × Models l.store.0 view none
      × Ends l.store.1
      × (l.from_block ≡ pos (n + 1))
      × (l.hash_list ≡ [])
      × (view from_block_key ≡ some (big_bytes (n + 1)))
      × All (λ k. view k ≡ none) keys

  module _ (store : IsStore d Models) (around : Surroundings d c handlers Models Fit Does) where
    close_saved-Finished :
        (n : ℕ) (l : EventLoop S W) (saved : Option Error × S) (view : View) (Ends : W → Type 0)
        → Ends l.store.1
        → saved.0 ≡ none
        → Models saved.1 view none
        → view from_block_key ≡ some (big_bytes (n + 1))
        → All (λ k. length k ≡ 16) l.hash_list
        → Finished l.hash_list n Ends (close_saved d c handlers (pos (n + 1)) l saved)
    unfolding close_saved
    close_saved-Finished n l (some error, s) view Ends ends e m v lengths = absurd (cc e)
    close_saved-Finished n l (none, s) view Ends ends e m v lengths =
        let gone = del_last_block_event_hash-gone d store l.hash_list s view around.commits m in
        (
          record l {
            store = ((del_last_block_event_hash d l.hash_list s).1, l.store.1);
            from_block = pos (n + 1);
            hash_list = [];
          },
          (λ j. after_writes (map delete l.hash_list) j (view j)),
          rw (gone.0) refl,
          gone.1,
          ends,
          refl,
          refl,
          deleted-other l.hash_list from_block_key (view from_block_key) lengths
                length-from_block_key
              ∙ v,
          deleted-gone l.hash_list view,
        )

    pub close_block-Finished :
        (e : ContractEvent) (l : EventLoop S W) (view : View) (Ends : W → Type 0)
        → Ends l.store.1
        → Models l.store.0 view none
        → e.block_num + 1 < 2 ^ 63
        → All (λ k. length k ≡ 16) l.hash_list
        → Finished l.hash_list e.block_num Ends (close_block d c handlers e l)
    unfolding close_block put_from_block
    close_block-Finished e l view Ends ends m small lengths =
        let value = big_bytes (e.block_num + 1) in
        let put_value = around.puts from_block_key value l.store.0 in
        rw (close_block, to_int64_small e.block_num small)
          (close_saved-Finished e.block_num l (d.put from_block_key value l.store.0)
            (λ j. after_write (put from_block_key value) j (view j)) Ends ends put_value
            (store.put_closed from_block_key value m put_value)
            (rw (bytes_equal_refl from_block_key) refl) lengths)

    -- an event that fits and is not recorded yet is handled and recorded
    pub event_step-new :
        (e : ContractEvent) (events : List ContractEvent) (l : EventLoop S W) (view : View)
        → Models l.store.0 view none
        → Fit e
        → view (event_key c e) ≡ none
        → (s : S) × (view' : View) × (w : W) × (event_step d c handlers e events l ≡ (
            let l' : EventLoop S W = record l {
              store = (s, w);
              block_num = e.block_num;
              hash_list = l.hash_list ++ event_key c e ∷ [];
            } in
            if closes_block e.block_num events
            then close_block d c handlers e l'
            else ok (true, l')))
          × Models s view' none
          × Does e l.store.1 w
          × ((j : Bytes)
              → length j ≡ 16
              → view' j ≡ after_write (put (event_key c e) (hash_event c e).1) j (view j))
    unfolding event_step handle_event record_event
    event_step-new e events l view m fit new =
        let key = event_key c e in
        let handled = around.handles l.store.0 view e l.store.1 m fit in
        let unseen : d.has key l.store.0 ≡ some false = store.tests m key ∙ rw new refl in
        let written = around.puts key (hash_event c e).1 handled.1 in
        let unchanged = handled.7 in
        (
          (d.put key (hash_event c e).1 handled.1).1,
          (λ j. after_write (put key (hash_event c e).1) j (handled.3 j)),
          handled.2,
          rw (event_step, unseen, handle_event, handled.4, record_event, written) refl,
          store.put_closed key (hash_event c e).1 handled.6 written,
          handled.5,
          λ j sixteen. rw (unchanged j sixteen) refl,
        )

    -- a recorded event is not handled again
    pub event_step-recorded :
        (e : ContractEvent) (events : List ContractEvent) (l : EventLoop S W) (view : View)
        → Models l.store.0 view none
        → is_some (view (event_key c e)) ≡ true
        → event_step d c handlers e events l
          ≡ ok (
            true,
            record l { block_num = e.block_num; hash_list = l.hash_list ++ event_key c e ∷ [] },
          )
    unfolding event_step
    event_step-recorded e events l view m recorded =
        let seen : d.has (event_key c e) l.store.0 ≡ some true =
          store.tests m (event_key c e) ∙ rw recorded refl in
        rw (event_step, seen) refl

    pub AllNew-after :
        (k v : Bytes) (view view' : View) (events : List ContractEvent)
        → All (λ later. bytes_equal k (event_key c later) ≡ false) events
        → ((j : Bytes) → length j ≡ 16 → view' j ≡ after_write (put k v) j (view j))
        → AllNew c view events
        → AllNew c view' events
    AllNew-after k v view view' [] other same new = tt
    AllNew-after k v view view' (e ∷ events) other same new = (
      same (event_key c e) (around.key_length e) ∙ rw other.0 new.0,
      new.1,
      AllNew-after k v view view' events other.1 same new.2,
    )
