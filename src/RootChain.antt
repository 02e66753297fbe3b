-- ===== src/RootChain.antt =====
-- core/rootchain.go: the events of the root chain's contract, and where the reading of them stands.
-- The contract's client, `json.Marshal` and MD5 are parameters. The handlers that the operator
-- registers write to the database that this part uses too, so they are functions on both states,
-- `S` of the database and `W` of whatever else they hold. An event handler's error is dropped.
pub mod Events
pub mod FromBlock
pub mod Deletes
pub mod Steps
pub mod Resumes
pub mod Contract
use plasma.Bytes.{set_bytes, big_bytes, Bytes, Address}
use plasma.Prelude.{ℕ, ◌-◌, ◌^◌, Option, none, some, List, [], ◌∷◌, ltb, if◌then◌else◌}
use plasma.Prelude.Int.{negsuc, abs, pos, ℤ}
use plasma.Prelude.Outcome.{external, Outcome, ok, err, panic, ◌>>=◌, Error}
use plasma.Store.{Database}

-- the values that `ContractEvent.V` holds, by the event's name; a name that nothing is registered
-- for is `unregistered`
pub data EventValue : Type 0 where
  deposit : ℕ → Address → Address → Option ℤ → EventValue
  block_submitted : ℕ → ℕ → EventValue
  exit_started unregistered : EventValue

pub record ContractEvent : Type 0 where
  pub block_num : ℕ
  pub v : EventValue

-- `json.Marshal` and `md5.Sum`
pub record EventCodec : Type 0 where
  pub marshal : ContractEvent → Option Bytes
  pub md5 : Bytes → Bytes

-- what the operator registers; `none` for nil
pub record Handlers (S W : Type 0) : Type 0 where
  pub deposit_event_handler :
      Option (ℕ → Address → Address → Option ℤ → S × W → Outcome (Option Error × (S × W)))
  pub block_submitted_event_handler : Option (ℕ → ℕ → S × W → Outcome (Option Error × (S × W)))

-- "RootChain.FromBlock"
unfoldable pub from_block_key : Bytes
from_block_key =
    82 ∷ 111 ∷ 111 ∷ 116 ∷ 67 ∷ 104 ∷ 97 ∷ 105 ∷ 110 ∷ 46 ∷ 70 ∷ 114 ∷ 111 ∷ 109 ∷ 66 ∷ 108 ∷ 111
    ∷ 99 ∷ 107 ∷ []

-- `int64(n)` of a `uint64`
unfoldable pub to_int64 : ℕ → ℤ
to_int64 n = if ltb n (2 ^ 63) then pos n else negsuc (2 ^ 64 - 1 - n)

unfoldable pub hash_event : EventCodec → ContractEvent → Bytes × Bytes
hash_event c e = elim (c.marshal e) [ none ↦ ([], []) | some json ↦ (c.md5 json, json) ]

module _ {S W : Type 0} (handlers : Handlers S W) where
  deal_with_deposit_event :
      ℕ → Address → Address → Option ℤ → S × W → Outcome (Option Error × (S × W))
  deal_with_deposit_event block depositor token amount s = elim handlers.deposit_event_handler [
    | none ↦ ok (none, s)
    | some handler ↦ handler block depositor token amount s
  ]

  -- the handler's error is dropped here already
  deal_with_block_submitted_event : ℕ → ℕ → S × W → Outcome (Option Error × (S × W))
  deal_with_block_submitted_event last submitted s = elim handlers.block_submitted_event_handler [
    | none ↦ ok (none, s)
    | some handler ↦ do r ← handler last submitted s; ok (none, r.1)
  ]

  -- `rc.sub[event.Name](event)`: the call of a nil function panics
  unfoldable pub deal_with : EventValue → S × W → Outcome (Option Error × (S × W))
  unfolding deal_with_deposit_event deal_with_block_submitted_event
  deal_with (deposit block depositor token amount) s =
      deal_with_deposit_event block depositor token amount s
  deal_with (block_submitted last submitted) s = deal_with_block_submitted_event last submitted s
  deal_with exit_started s = ok (none, s)
  deal_with unregistered s = panic

module _ {S : Type 0} (d : Database S) where
  -- `GetFromBlock`; `configured` is the field `fromBlock`
  unfoldable pub get_from_block : ℤ → S → Outcome ℤ
  get_from_block configured s = elim (d.has from_block_key s) [
    | none ↦ err external
    | some found ↦
        if found
        then elim (d.get from_block_key s) [
          | none ↦ err external
          | some bytes ↦ ok (pos (set_bytes bytes))
        ]
        else ok configured
  ]

  unfoldable pub put_from_block : ℤ → S → Option Error × S
  put_from_block from_block s = d.put from_block_key (big_bytes (abs from_block)) s

  -- the loop over `hashList`, whose errors are only logged
  unfoldable pub delete_each : List Bytes → S → S
  delete_each [] s = s
  delete_each (k ∷ ks) s = delete_each ks (d.delete k s).1

  -- `DelLastBlockEventHash`: what is left of `hashList`, and the database
  unfoldable pub del_last_block_event_hash : List Bytes → S → List Bytes × S
  unfolding delete_each
  del_last_block_event_hash hash_list s =
      let begun = d.begin_tx s in
      let committed = d.commit_tx (delete_each hash_list begun.1) in
      if begun.0
      then elim committed.0 [
        | some e ↦ (hash_list, (d.rollback_tx committed.1).1)
        | none ↦ ([], committed.1)
      ]
      else (hash_list, begun.1)
