-- ===== src/Tests.antt =====
-- Concrete data for the tests: a LevelDB whose file is a function from keys and whose batch is a
-- list of writes, an encoding and a hash that stand for the libraries' (sums of bytes), caches
-- that never hit, and a payment of two inputs of block 1000.
pub mod Witnesses
pub mod Network
pub mod Requests
pub mod Seals
pub mod Storage
pub mod Imports
pub mod Nodes
pub mod Files
pub mod Headers
pub mod Reorgs
use plasma.Bytes.{Address}
use plasma.Chain.{Chain, BodyValidator, BlockCache}
use plasma.HeaderChain.{HeaderCaches}
use plasma.Operator.{Operator}
use plasma.Prelude.{
  ℕ, ◌+◌, refl, true, false, Option, none, some, List, [], ◌∷◌, ◌++◌, ◌==◌, if◌then◌else◌, length,
}
use plasma.Prelude.Int.{pos}
use plasma.Prelude.Outcome.{Outcome, ok}
use plasma.Store.{after_writes, Write, put, delete, after_write}
use plasma.Store.Laws.{is_some, View}
use plasma.Store.LevelDb.{LevelDbLaws, LevelDb, LdbDatabase}
use plasma.TxPool.{TxPool}
use plasma.Types.Block.{Header, Block}
use plasma.Types.External.{External}
use plasma.Types.Transaction.{Transaction}
use plasma.Types.Utxo.{UtxoId, Utxo}

abbrev pub file_db : LevelDb View (List Write)
file_db = record {
  db_get = λ j f. f j;
  db_has = λ j f. some (is_some (f j));
  db_put = λ k v f. (none, λ j. after_write (put k v) j (f j));
  db_delete = λ k f. (none, λ j. after_write (delete k) j (f j));
  db_write = λ b f. (none, λ j. after_writes b j (f j));
  batch_put = λ k v b. b ++ put k v ∷ [];
  batch_delete = λ k b. b ++ delete k ∷ [];
  batch_reset = λ b. [];
}

pub file_db-Laws : LevelDbLaws file_db (λ b. b)
file_db-Laws = record {
  has-get = λ d j. refl;
  get-put = λ d k v j h. refl;
  get-delete = λ d k j h. refl;
  get-write = λ d b j h. refl;
  get-write_failed = λ d b j h. absurd (h refl);
  writes-put = λ b k v. refl;
  writes-delete = λ b k. refl;
  writes-reset = λ b. refl;
}

abbrev pub FileState : Type 0
FileState = LdbDatabase View (List Write)

abbrev pub empty_view : View
empty_view j = none

abbrev pub closed_state : FileState
closed_state = record { db = empty_view; default_batch = []; in_tx = false }

abbrev pub open_state : FileState
open_state = record { db = empty_view; default_batch = []; in_tx = true }

abbrev pub sum : List ℕ → ℕ
sum [] = 0
sum (n ∷ ns) = n + sum ns

abbrev pub encode_header : Header → List ℕ
encode_header h = h.number ∷ h.time ∷ h.parent_hash ∷ h.tx_hash ∷ []

abbrev pub libraries : External
libraries = record {
  keccak = sum;
  rlp_uint = λ n. n ∷ [];
  rlp_header = encode_header;
  decode_header = λ b. none;
  rlp_body = λ txs. length txs ∷ [];
  decode_body = λ b. none;
  rlp_tx = λ tx. tx.ins.0.id.block_num ∷ tx.ins.1.id.out_index ∷ [];
  trie_hash = length;
  valid_signature = λ v r s. true;
  ecrecover = λ h b. ok b;
}

abbrev pub no_header_cache : HeaderCaches (Unit {0})
no_header_cache = record {
  get_number = λ h c. (none, c);
  add_number = λ h n c. c;
  contains_number = λ h c. false;
  get_header = λ h c. (none, c);
  add_header = λ h k c. c;
  contains_header = λ h c. false;
}

abbrev pub no_block_cache : BlockCache (Unit {0})
no_block_cache = record { get = λ h c. (none, c); add = λ h b c. c }

-- the payment: 7 and 5 of owner 3 go to owner 4 as 11, for a fee of 1
abbrev pub input_at : ℕ → Utxo
input_at n = record {
  id = record { block_num = 1000; tx_index = 0; out_index = n };
  out = record { owner = 0; amount = none };
}

abbrev pub payment : Transaction
payment = record {
  ins = (input_at 0, input_at 1);
  outs =
      (record { owner = 4; amount = some (pos 11) }, record { owner = 0; amount = some (pos 0) });
  fee = pos 1;
  sigs = (none, none);
}

-- the outputs of block 1000
abbrev pub get_output : UtxoId → Outcome (Option Utxo)
get_output i =
    if i.block_num == 1000
    then ok (
        some (record {
          id = i;
          out = record { owner = 3; amount = some (if i.out_index == 0 then pos 7 else pos 5) };
        }))
    else ok none

abbrev pub size_zero : Transaction → ℕ
size_zero tx = 0

abbrev pub sender_three : Transaction → Outcome (Address × Address)
sender_three tx = ok (3, 3)

abbrev pub header_at : ℕ → Header
header_at n = record {
  parent_hash = 0;
  coinbase = 0;
  tx_hash = 1;
  number = n;
  time = 0;
  extra = [];
}

abbrev pub block_at : ℕ → Block
block_at n = record { header = header_at n; transactions = payment ∷ [] }

abbrev pub small_chain : Chain FileState (Unit {0}) (Unit {0})
small_chain = record {
  hc = record {
    chain_db = closed_state;
    caches = tt;
    current_header = header_at 0;
    current_header_hash = 0;
  };
  block_cache = tt;
  current_block = block_at 0;
  current_fast_block = block_at 0;
}

abbrev pub small_operator : Operator FileState (Unit {0}) (Unit {0})
small_operator = record { addr = 9; chain = small_chain; current_child_block = 0; new_blocks = [] }

abbrev pub accept_body : BodyValidator FileState (Unit {0}) (Unit {0})
accept_body b c = ok (none, c)

abbrev pub empty_pool : TxPool (Unit {0})
empty_pool = record {
  config = record { no_locals = false; rejournal = 1; price_limit = 1; price_bump = 10 };
  journal = none;
  queue = [];
  all = [];
  feed = [];
}

abbrev pub hash_tx : Transaction → ℕ
hash_tx tx = tx.ins.0.id.block_num

abbrev pub validate_nothing : Transaction → Outcome (Unit {0})
validate_nothing tx = ok tt

abbrev pub keep_journal : Transaction → Unit {0} → Unit {0}
keep_journal tx j = j

abbrev pub one_pooled : TxPool (Unit {0})
one_pooled = record {
  config = record { no_locals = false; rejournal = 1; price_limit = 1; price_bump = 10 };
  journal = none;
  queue = payment ∷ [];
  all = (1000, payment) ∷ [];
  feed = payment ∷ [];
}

abbrev pub paid_output : Utxo
paid_output = record {
  id = record { block_num = 1000; tx_index = 0; out_index = 0 };
  out = record { owner = 4; amount = some (pos 11) };
}

abbrev pub four_hashes : List (List ℕ)
four_hashes = (1 ∷ []) ∷ (2 ∷ []) ∷ (3 ∷ []) ∷ (4 ∷ []) ∷ []
