-- ===== src/RootChain/Events.antt =====
-- core/rootchain.go: `loopEvents`, one event, one batch and one turn at a time. The first `fromBlock`
-- is the constant of the source; the sleeps between the turns are left out.
use plasma.Bytes.{Bytes}
use plasma.Prelude.{
  ℕ, ◌+◌, ◌%◌, ◌^◌, Bool, true, false, not, Option, none, some, List, [], ◌∷◌, ◌++◌, ◌==◌,
  if◌then◌else◌,
}
use plasma.Prelude.Int.{ℤ, pos}
use plasma.Prelude.Outcome.{Error, Outcome, ok, ◌>>=◌}
use plasma.RootChain.{
  ContractEvent, EventCodec, Handlers, hash_event, deal_with, to_int64, put_from_block,
  del_last_block_event_hash,
}
use plasma.Store.{Database}

-- the variables of the loop: the database and the handlers' state, `fromBlock`, and the two fields
-- of `currentBlockEventData`
pub record EventLoop (S W : Type 0) : Type 0 where
  pub store : S × W
  pub from_block : ℤ
  pub block_num : ℕ
  pub hash_list : List Bytes

-- whether the loop goes on or returns, and its variables
abbrev pub Turn : Type 0 → Type 0 → Type 0
Turn S W = Outcome (Bool × EventLoop S W)

unfoldable pub start_loop : {S W : Type 0} → S × W → EventLoop S W
start_loop store = record { store = store; from_block = pos 100; block_num = 0; hash_list = [] }

-- the event is the last one of the batch, or the next one is of another block
unfoldable pub closes_block : ℕ → List ContractEvent → Bool
closes_block n [] = true
closes_block n (next ∷ events) = not (n == next.block_num)

module _ {S W : Type 0} (d : Database S) (c : EventCodec) (handlers : Handlers S W) where
  -- what follows on `PutFromBlock`
  unfoldable pub close_saved : ℤ → EventLoop S W → Option Error × S → Turn S W
  close_saved from_block l (some error, s) =
      ok (false, record l { store = (s, l.store.1); from_block = from_block })
  close_saved from_block l (none, s) =
      let deleted = del_last_block_event_hash d l.hash_list s in
      ok (
        true,
        record l { store = (deleted.1, l.store.1); from_block = from_block; hash_list = deleted.0 },
      )

  -- `fromBlock` moves past the block of the event
  unfoldable pub close_block : ContractEvent → EventLoop S W → Turn S W
  unfolding close_saved
  close_block e l =
      let from_block = to_int64 ((e.block_num + 1) % 2 ^ 64) in
      close_saved from_block l (put_from_block d from_block l.store.0)

  -- the event's record is put, and the block is closed with its last event
  unfoldable pub record_event : ContractEvent → List ContractEvent → EventLoop S W → Turn S W
  unfolding close_block closes_block
  record_event e events l =
      let written = d.put (hash_event c e).0 (hash_event c e).1 l.store.0 in
      let l' : EventLoop S W = record l { store = (written.1, l.store.1) } in
      elim written.0 [
        | some error ↦ ok (false, l')
        | none ↦ if closes_block l.block_num events then close_block e l' else ok (true, l')
      ]

  unfoldable pub handle_event : ContractEvent → List ContractEvent → EventLoop S W → Turn S W
  unfolding record_event
  handle_event e events l = do
    handled ← deal_with handlers e.v l.store
    record_event e events (record l { store = handled.1 })

  -- the body of the loop over `events`, for an event and those after it
  unfoldable pub event_step : ContractEvent → List ContractEvent → EventLoop S W → Turn S W
  unfolding handle_event
  event_step e events l0 =
      let key = (hash_event c e).0 in
      let l : EventLoop S W = record l0 {
        block_num = e.block_num;
        hash_list = l0.hash_list ++ key ∷ [];
      } in
      elim (d.has key l.store.0) [
        | none ↦ ok (false, l)
        | some found ↦ if found then ok (true, l) else handle_event e events l
      ]

  unfoldable pub go_on : (EventLoop S W → Turn S W) → Bool × EventLoop S W → Turn S W
  go_on rest (true, l) = rest l
  go_on rest (false, l) = ok (false, l)

  unfoldable pub event_loop : List ContractEvent → EventLoop S W → Turn S W
  unfolding event_step go_on
  event_loop [] l = ok (true, l)
  event_loop (e ∷ events) l = event_step e events l >>= go_on (event_loop events)

  -- one turn of the outer loop; `none` is an error of the client
  unfoldable pub poll : (ℤ → Option (List ContractEvent)) → EventLoop S W → Turn S W
  unfolding event_loop
  poll get_contract_events l = elim (get_contract_events l.from_block) [
    | none ↦ ok (false, l)
    | some events ↦ event_loop events l
  ]
