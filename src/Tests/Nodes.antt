-- ===== src/Tests/Nodes.antt =====
-- The theorems on the operator's numbers, the validator node and stored blocks at concrete inputs: the
-- payment of block 1000 on the database over a file.
use plasma.Bytes.{put_uint, set_bytes, Bytes, Hash}
use plasma.Bytes.RoundTrip.{set_bytes-put_uint, length-put_uint}
use plasma.Operator.{
  submitted, operator_write_block, Operator, construct_block, seal, child_block_interval,
}
use plasma.Operator.Atomic.{operator_write_block-Atomic, writes_of, view_after}
use plasma.Operator.Numbers.{OperatorStep, OperatorReach, OperatorReach-number}
use plasma.Prelude.{
  take-append, ◌++◌, subst, ◌≢◌, ◌∙◌, ◌<◌, false, sym, drop, ◌==◌, ◌-◌, take, if◌then◌else◌, ℕ, ◌+◌,
  ◌*◌, ◌%◌, ◌^◌, ◌≡◌, refl, ap, inl, inr, true, Option, none, some, List, [], ◌∷◌, arith,
  Bool-cases,
}
use plasma.Prelude.Int.{pos}
use plasma.Prelude.Outcome.{Outcome, ok, ◌>>=◌, Error}
use plasma.RawDb.Accessors.{read_bytes, read_header, read_block, read_header_number, write_block}
use plasma.RawDb.Accessors.ReadBack.{read_block-write_block}
use plasma.RawDb.Ancestor.{
  find_common_ancestor, parent_of, HeadersNumbered, IsLastCommon, find_common_ancestor-IsLastCommon,
}
use plasma.RawDb.Schema.{encode_block_number, header_key}
use plasma.Store.{Database}
use plasma.Store.LevelDb.{ldb_database}
use plasma.Store.LevelDb.Refines.{LdbModels}
use plasma.Tests.{
  small_operator, accept_body, payment, no_block_cache, empty_view, block_at, no_header_cache,
  header_at, closed_state, small_chain, libraries, file_db, FileState,
}
use plasma.Tests.Files.{file_store, closed_models, file_puts}
use plasma.Types.Block.{header_number, Header, number_u64, Block}
use plasma.Types.External.{header_hash, block_hash, new_block, External}
use plasma.Validator.{Validator, validator_write_block}
use plasma.Validator.Atomic.{validator_write_block-Atomic}

abbrev small_validator : Validator FileState (Unit {0}) (Unit {0})
small_validator = record {
  chain = small_chain;
  current_child_block = 0;
  subscribed = true;
  new_blocks = [];
  sent_txs = [];
}

validator_write_block_example :
    (q : Option Error × Validator FileState (Unit {0}) (Unit {0})) × (validator_write_block
        (ldb_database file_db)
        no_header_cache
        no_block_cache
        libraries
        accept_body
        (block_at 1000)
        small_validator
      ≡ ok q)
    × LdbModels file_db
        (λ b. b)
        q.1.chain.hc.chain_db
        (view_after q.0
          (writes_of
            (ldb_database file_db)
            file_store
            no_header_cache
            no_block_cache
            libraries
            accept_body
            (block_at 1000)
            small_chain)
          empty_view)
        none
validator_write_block_example =
    validator_write_block-Atomic (ldb_database file_db) file_store no_header_cache no_block_cache
      libraries accept_body (block_at 1000) small_validator refl
      (((pos 11, refl), (pos 0, refl)), tt) (λ c. ((none, c), refl, refl, refl)) closed_models

-- a pool is the hashes that were removed from it
abbrev drop_hash : Hash → List Hash → List Hash
drop_hash h hs = h ∷ hs

abbrev pub submit_always : Block → Option Error
submit_always b = none

-- a call that returns and then a result
bound :
    {A : Type 0} {B : Type 0} (m : Outcome A) (a : A)
    → m ≡ ok a
    → (k : A → B) → (r : B) × ((m >>= λ v. ok (k v)) ≡ ok r)
bound m a e k = (k a, ap (λ o. o >>= λ v. ok (k v)) e)

abbrev pub made_block : Block × Operator FileState (Unit {0}) (Unit {0})
made_block =
    construct_block (ldb_database file_db) no_header_cache no_block_cache libraries accept_body 5
      (payment ∷ []) small_operator

pub seal_write :
    (r : Option Error × Operator FileState (Unit {0}) (Unit {0})) × (operator_write_block
        (ldb_database file_db)
        no_header_cache
        no_block_cache
        libraries
        accept_body
        made_block.0
        made_block.1
      ≡ ok r)
unfolding construct_block new_block
seal_write =
    let written =
      operator_write_block-Atomic (ldb_database file_db) file_store no_header_cache no_block_cache
        libraries accept_body made_block.0 made_block.1 (((pos 11, refl), (pos 0, refl)), tt)
        (λ c. ((none, c), refl, refl, refl)) closed_models in
    (written.0, written.1)

seal_run :
    (r : Option Error × (List Hash × Operator FileState (Unit {0}) (Unit {0}))) × (seal
        (ldb_database file_db)
        no_header_cache
        no_block_cache
        libraries
        accept_body
        drop_hash
        submit_always
        5
        (payment ∷ [])
        []
        small_operator
      ≡ ok r)
unfolding seal
seal_run = bound _ seal_write.0 seal_write.1 _

-- after one call of `Seal`
OperatorReach-number_example :
    (b : Block) × (o1 : Operator FileState (Unit {0}) (Unit {0})) × (number_u64 b
      ≡ (0 + (1 + 1) * child_block_interval) % 2 ^ 64)
    × (b.transactions ≡ payment ∷ [])
    × (seal
          (ldb_database file_db)
          no_header_cache
          no_block_cache
          libraries
          accept_body
          drop_hash
          submit_always
          9
          (payment ∷ [])
          []
          seal_run.0.1.1
        ≡ (operator_write_block
              (ldb_database file_db)
              no_header_cache
              no_block_cache
              libraries
              accept_body
              b
              o1
            >>= λ written. ok (
                submitted
                  (ldb_database file_db)
                  no_header_cache
                  no_block_cache
                  libraries
                  accept_body
                  drop_hash
                  submit_always
                  b
                  written
                  [])))
OperatorReach-number_example =
    OperatorReach-number (ldb_database file_db) no_header_cache no_block_cache libraries accept_body
      drop_hash submit_always 9 (payment ∷ []) [] (omega arith)
      (OperatorReach.next_sealed OperatorReach.here
        (OperatorStep.sealed 5 (payment ∷ []) [] seal_run.0.1.0 seal_run.0.0 seal_run.1))

-- a codec that decodes the block of the test
abbrev block_codec : External
block_codec = record libraries {
  decode_header = λ b. some (header_at 1000);
  decode_body = λ b. some (payment ∷ []);
}

read_block-write_block_example :
    (read_block
        (ldb_database file_db)
        block_codec
        (block_hash block_codec (block_at 1000))
        (number_u64 (block_at 1000))
        (write_block (ldb_database file_db) block_codec (block_at 1000) closed_state)
      ≡ some (block_at 1000))
    × (read_header_number
          (ldb_database file_db)
          (block_hash block_codec (block_at 1000))
          (write_block (ldb_database file_db) block_codec (block_at 1000) closed_state)
        ≡ some (number_u64 (block_at 1000)))
read_block-write_block_example =
    read_block-write_block (ldb_database file_db) file_store block_codec (block_at 1000)
      closed_state empty_view file_puts refl (λ e. cc) refl (λ e. cc) closed_models

-- a database in which every number below the last `uint64` has a header, the one of that number
abbrev ladder : ℕ → Option Bytes
ladder n = if n == 2 ^ 64 - 1 then none else some (n ∷ [])

abbrev ladder_db : Database (Unit {0})
ladder_db = record {
  get = λ k s. ladder (set_bytes (take 8 (drop 1 k)));
  has = λ k s. some false;
  put = λ k v s. (none, s);
  delete = λ k s. (none, s);
  begin_tx = λ s. (true, s);
  commit_tx = λ s. (none, s);
  rollback_tx = λ s. (none, s);
}

abbrev decode_number : Bytes → Option Header
decode_number [] = none
decode_number (n ∷ bs) = some (header_at n)

abbrev ladder_codec : External
ladder_codec = record libraries {
  rlp_header = λ h. (h.number % 2 ^ 64) ∷ [];
  decode_header = decode_number;
}

read_ladder :
    (hash : Hash) (n : ℕ)
    → n < 2 ^ 64
    → read_header ladder_db ladder_codec hash n tt
      ≡ (if n == 2 ^ 64 - 1 then none else some (header_at n))
unfolding read_header read_bytes header_key encode_block_number
read_ladder hash n small =
    let head : take 8 (put_uint 8 n ++ put_uint 32 hash) ≡ put_uint 8 n =
      subst (λ w. take w (put_uint 8 n ++ put_uint 32 hash) ≡ put_uint 8 n) (length-put_uint 8 n)
        (take-append (put_uint 8 n) (put_uint 32 hash)) in
    let fits : n < 256 ^ 8 = omega (arith, small) in
    rw (head, set_bytes-put_uint 8 n fits)
      (elim (Bool-cases (n == 2 ^ 64 - 1)) [ inl b ↦ rw b refl | inr b ↦ rw b refl ])

ladder-IsNumbered : HeadersNumbered ladder_db ladder_codec tt
unfolding parent_of header_number
ladder-IsNumbered h k e =
    let n = (h.number % 2 ^ 64 + (2 ^ 64 - 1)) % 2 ^ 64 in
    let found = sym (read_ladder h.parent_hash n (omega arith)) ∙ e in
    elim (Bool-cases (n == 2 ^ 64 - 1)) [
      | inl b ↦ absurd (cc (rw b at found))
      | inr b ↦
          let same : header_at n ≡ k = cc (rw b at found) in
          let other : n ≢ 2 ^ 64 - 1 = ground (arith, b) in
          subst (λ (j : Header). j.number % 2 ^ 64 + 1 ≡ h.number % 2 ^ 64) same
            (omega (arith, other))
    ]

ladder-apart :
    (h k : Header)
    → header_hash ladder_codec h ≡ header_hash ladder_codec k
    → header_number h ≡ header_number k
unfolding header_hash header_number
ladder-apart h k e = omega (arith, e)

find_common_ancestor-IsLastCommon_example :
    (r : Option Header) × (find_common_ancestor ladder_db ladder_codec tt 9
        (header_at 8)
        (header_at 5)
      ≡ some r)
    × IsLastCommon ladder_db ladder_codec tt (header_at 8) (header_at 5) r
unfolding header_number
find_common_ancestor-IsLastCommon_example =
    find_common_ancestor-IsLastCommon ladder_db ladder_codec tt 9 (header_at 8) (header_at 5)
      ladder-IsNumbered (λ os ns c e line line' same. ladder-apart c e same) (omega arith)
      (omega arith)
