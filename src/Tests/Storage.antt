-- ===== src/Tests/Storage.antt =====
-- The theorems on the root chain's events and the genesis block at concrete inputs: the database over
-- a file, and three events of one block.
use plasma.Bytes.{big_bytes}
use plasma.Genesis.{Genesis}
use plasma.Operator.{Operator}
use plasma.Operator.Deposits.{operator_handlers, Fits, Handled}
use plasma.Prelude.{ℕ, ◌≡◌, none, some, [], ◌∷◌}
use plasma.Prelude.Int.{pos}
use plasma.Prelude.Outcome.{ok}
use plasma.RootChain.{
  from_block_key, ContractEvent, EventCodec, EventValue, Handlers, get_from_block, put_from_block,
}
use plasma.RootChain.FromBlock.{get_from_block-put_from_block}
use plasma.RootChain.Steps.{event_key}
use plasma.Store.{put, after_write, Database}
use plasma.Store.LevelDb.{ldb_database}
use plasma.Tests.{
  accept_body, no_header_cache, no_block_cache, libraries, empty_view, file_db, closed_state, sum,
  FileState,
}
use plasma.Tests.Files.{file_store, closed_models, file_puts}

abbrev file_database : Database FileState
file_database = ldb_database file_db

get_from_block-put_from_block_example :
    get_from_block file_database (pos 100) (put_from_block file_database (pos 7) closed_state).1
    ≡ ok (pos 7)
get_from_block-put_from_block_example =
    get_from_block-put_from_block file_database file_store closed_state empty_view (pos 100) 7
      closed_models (unfold put_from_block in file_puts from_block_key (big_bytes 7) closed_state)

-- an event of block 50, told apart by the number of its deposit
abbrev deposit_at : ℕ → ContractEvent
deposit_at n = record { block_num = 50; v = EventValue.deposit n 3 0 (some (pos 9)) }

abbrev submitted_event : ContractEvent
submitted_event = record { block_num = 50; v = EventValue.block_submitted 1 1000 }

abbrev event_number : EventValue → ℕ
event_number (EventValue.deposit n depositor token amount) = n
event_number (EventValue.block_submitted last submitted) = submitted
event_number v = 0

abbrev small_codec : EventCodec
small_codec = record {
  marshal = λ e. some (event_number e.v ∷ []);
  md5 = λ b. sum b ∷ 0 ∷ 0 ∷ 0 ∷ 0 ∷ 0 ∷ 0 ∷ 0 ∷ 0 ∷ 0 ∷ 0 ∷ 0 ∷ 0 ∷ 0 ∷ 0 ∷ 0 ∷ [];
}

-- the operator handles the events
abbrev file_handlers : Handlers FileState (Operator FileState (Unit {0}) (Unit {0}))
file_handlers =
    operator_handlers (ldb_database file_db) no_header_cache no_block_cache libraries accept_body 7

abbrev IsFit : ContractEvent → Type 0
IsFit e = Fits (ldb_database file_db) no_header_cache no_block_cache libraries accept_body 7 e.v

abbrev IsHandled :
    ContractEvent
    → Operator FileState (Unit {0}) (Unit {0})
    → Operator FileState (Unit {0}) (Unit {0})
    → Type 0
IsHandled e =
    Handled (ldb_database file_db) no_header_cache no_block_cache libraries accept_body 7 e.v

-- the first deposit is recorded
abbrev recorded_state : FileState
recorded_state = record closed_state {
  db = λ j. after_write (put (event_key small_codec (deposit_at 1)) (1 ∷ [])) j none;
}

abbrev genesis_at : ℕ → Genesis ℕ
genesis_at t = record {
  config = some 1;
  nonce = 66;
  timestamp = t;
  extra_data = [];
  coinbase = 0;
  number = 0;
  parent_hash = 0;
}
