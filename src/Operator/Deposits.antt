-- ===== src/Operator/Deposits.antt =====
-- core/operator.go: the operator as the handler of the root chain's events. Its database is the one
-- that the event loop writes to.
use plasma.Bytes.{Bytes}
use plasma.Chain.{BodyValidator, BlockCache, with_db}
use plasma.HeaderChain.{HeaderCaches}
use plasma.Operator.{
  Operator, handle_deposit_event, seal_deposit, construct_deposit_block, null_input,
}
use plasma.Operator.Atomic.{
  committed_writes, OnlyReads, operator_write_block-Atomic, writes_of, view_after,
}
use plasma.Operator.Writes.{tx_writes, head_writes, input_writes, output_writes, AllPaid}
use plasma.Prelude.{
  some, none, ℕ, ◌+◌, ◌≡◌, refl, sym, ap, ◌∙◌, ◌≢◌, Bool, true, false, Option, List, [], ◌∷◌, ◌++◌,
  arith, if◌then◌else◌, bytes_equal_ne, length, All, All-append,
}
use plasma.Prelude.Int.{ℤ, pos}
use plasma.Prelude.Outcome.{Error, ok, ◌>>=◌}
use plasma.RawDb.Blocks.{block_writes}
use plasma.RawDb.Schema.Injective.{Key, length-encode, family, encode}
use plasma.RootChain.{
  EventValue, Handlers, deal_with, deposit, block_submitted, exit_started, unregistered,
}
use plasma.Store.{Database, Write, put, delete, after_writes}
use plasma.Store.Laws.{IsStore, View}
use plasma.Types.Block.{Block, number_u64}
use plasma.Types.External.{new_block, External, block_hash}
use plasma.Types.Transaction.{new_transaction, Transaction, get_ins_copy, get_outs_copy}
use plasma.Types.Utxo.{Utxo, TxOut}

-- a write that is not of an event's record
abbrev NotRecord : Write → Type 0
NotRecord (put k v) = length k ≢ 16
NotRecord (delete k) = length k ≢ 16

after_writes-skip :
    (ws : List Write) (j : Bytes) (before : Option Bytes)
    → length j ≡ 16
    → All NotRecord ws
    → after_writes ws j before ≡ before
after_writes-skip [] j before sixteen other = refl
after_writes-skip (put k v ∷ ws) j before sixteen other =
    let differ = bytes_equal_ne k j (λ e. other.0 (ap length e ∙ sixteen)) in
    rw differ (after_writes-skip ws j before sixteen other.1)
after_writes-skip (delete k ∷ ws) j before sixteen other =
    let differ = bytes_equal_ne k j (λ e. other.0 (ap length e ∙ sixteen)) in
    rw differ (after_writes-skip ws j before sixteen other.1)

no_record : (k : Key) → (family k).1 ≢ 16 → length (encode k) ≢ 16
no_record k other e = other (sym (length-encode k) ∙ e)

inputs-NotRecord : (ins : List Utxo) → All NotRecord (input_writes ins)
inputs-NotRecord [] = tt
inputs-NotRecord (i ∷ ins) = (
  no_record (Key.utxo i.id.block_num i.id.tx_index i.id.out_index) (λ e. omega (arith, e)),
  inputs-NotRecord ins,
)

outputs-NotRecord :
    (b : Block) (t n : ℕ) (outs : List TxOut) → All NotRecord (output_writes b t n outs)
outputs-NotRecord b t n [] = tt
outputs-NotRecord b t n (o ∷ outs) =
    (no_record (Key.utxo _ _ _) (λ e. omega (arith, e)), outputs-NotRecord b t (n + 1) outs)

txs-NotRecord : (b : Block) (t : ℕ) (txs : List Transaction) → All NotRecord (tx_writes b t txs)
txs-NotRecord b t [] = tt
txs-NotRecord b t (tx ∷ txs) =
    All-append NotRecord (input_writes (get_ins_copy tx)) _ (inputs-NotRecord (get_ins_copy tx)) (
      All-append NotRecord (output_writes b t 0 (get_outs_copy tx)) _
        (outputs-NotRecord b t 0 (get_outs_copy tx)) (txs-NotRecord b (t + 1) txs))

heads-NotRecord :
    (x : External) (b : Block) (update : Bool) → All NotRecord (head_writes x b update)
heads-NotRecord x b false = (
  no_record (Key.header_hash (number_u64 b)) (λ e. omega (arith, e)),
  (no_record Key.head_block (λ e. omega (arith, e)), tt),
)
heads-NotRecord x b true = (
  no_record (Key.header_hash (number_u64 b)) (λ e. omega (arith, e)),
  (
    no_record Key.head_block (λ e. omega (arith, e)),
    (
      no_record Key.head_header (λ e. omega (arith, e)),
      (no_record Key.head_fast_block (λ e. omega (arith, e)), tt),
    ),
  ),
)

raised-NotRecord :
    (x : External) (b : Block) (higher update : Bool)
    → All NotRecord (if higher then head_writes x b update else [])
raised-NotRecord x b true update = heads-NotRecord x b update
raised-NotRecord x b false update = tt

-- no write of a block touches the record of an event
committed-NotRecord :
    (x : External) (b : Block) (higher update : Bool)
    → All NotRecord (committed_writes x b higher update)
committed-NotRecord x b higher update =
    let n = number_u64 b in
    let h = block_hash x b in
    All-append NotRecord (block_writes x b ++ (if higher then head_writes x b update else [])) _
      (All-append NotRecord (block_writes x b) _
        (
          no_record (Key.body n h) (λ e. omega (arith, e)),
          (
            no_record (Key.header_number h) (λ e. omega (arith, e)),
            (no_record (Key.header n h) (λ e. omega (arith, e)), tt),
          ),
        )
        (raised-NotRecord x b higher update))
      (txs-NotRecord b 0 b.transactions)

module _ {S C B : Type 0} (d : Database S) (lru : HeaderCaches C) (lrb : BlockCache B)
    (x : External) (validate_body : BodyValidator S C B) (now : ℕ) where
  -- the operator, with the database as it is
  on_db : S → Operator S C B → Operator S C B
  on_db s o = record o { chain = with_db s o.chain }

  returned : Option Error × Operator S C B → Option Error × (S × Operator S C B)
  returned r = (r.0, (r.1.chain.hc.chain_db, r.1))

  -- what `NewOperator` registers: `handleDepositEvent`, and `completeBlockSubmit`, which only logs
  unfoldable pub operator_handlers : Handlers S (Operator S C B)
  unfolding on_db returned
  operator_handlers = record {
    deposit_event_handler = some (λ n depositor token amount s.
        handle_deposit_event d lru lrb x validate_body now n depositor amount (on_db s.0 s.1)
        >>= λ r. ok (returned r));
    block_submitted_event_handler = some (λ last submitted s. ok (none, s));
  }

  -- a deposit has an amount, and the event's name is registered
  abbrev pub Fits : EventValue → Type 0
  Fits (deposit n depositor token amount) = (a : ℤ) × (amount ≡ some a)
  Fits (block_submitted last submitted) = Unit
  Fits exit_started = Unit
  Fits unregistered = ⊥

  -- what an event does to the operator: a deposit is handled on some state of the database
  abbrev pub Handled : EventValue → Operator S C B → Operator S C B → Type 0
  Handled (deposit n depositor token amount) o o' =
      (s : S) × (r : Option Error) × (handle_deposit_event d lru lrb x validate_body now n depositor
          amount (record o { chain = with_db s o.chain })
        ≡ ok (r, o'))
  Handled v o o' = o ≡ o'

  module _ {Models : S → View → Option (List Write) → Type 0} (store : IsStore d Models)
      (reads : (b : Block) → OnlyReads validate_body b) where
    view_after-other :
        (e : Option Error) (x : External) (b : Block) (higher update : Bool) (view : View)
        (j : Bytes)
        → length j ≡ 16
        → view_after e (committed_writes x b higher update) view j ≡ view j
    view_after-other none x b higher update view j sixteen =
        after_writes-skip (committed_writes x b higher update) j (view j) sixteen
          (committed-NotRecord x b higher update)
    view_after-other (some e) x b higher update view j sixteen = refl

    -- on an event that fits, the operator's handler returns, leaves no transaction open, and leaves
    -- the records of the events alone
    pub operator_handlers-Handled :
        (s : S) (view : View) (v : EventValue) (o : Operator S C B)
        → Models s view none
        → Fits v
        → (r : Option Error) × (s' : S) × (o' : Operator S C B) × (view' : View) × (deal_with
              operator_handlers v
              (s, o)
            ≡ ok (r, (s', o')))
          × Handled v o o'
          × Models s' view' none
          × ((j : Bytes) → length j ≡ 16 → view' j ≡ view j)
    unfolding deal_with operator_handlers handle_deposit_event seal_deposit with_db
    operator_handlers-Handled s view (deposit n depositor token amount) o m (a, paid) =
        let o1 = on_db s o in
        let b =
          construct_deposit_block d lru lrb x validate_body now n
            (new_transaction (null_input d lru lrb x validate_body)
              (null_input d lru lrb x validate_body) (record { owner = depositor; amount = amount })
              (record { owner = 0; amount = some (pos 0) }) (pos 1))
            o1 in
        let both : AllPaid b.transactions =
          unfold construct_deposit_block new_block new_transaction in
          (((a, paid), (pos 0, refl)), tt) in
        let q = operator_write_block-Atomic d store lru lrb x validate_body b o1 both (reads b) m in
        (
          q.0.0,
          q.0.1.chain.hc.chain_db,
          q.0.1,
          view_after q.0.0 (writes_of d store lru lrb x validate_body b o1.chain) view,
          rw q.1 refl,
          (s, q.0.0, q.1),
          q.2,
          λ j sixteen. view_after-other q.0.0 x b _ _ view j sixteen,
        )
    operator_handlers-Handled s view (block_submitted last submitted) o m fits =
        (none, s, o, view, refl, refl, m, λ j sixteen. refl)
    operator_handlers-Handled s view exit_started o m fits =
        (none, s, o, view, refl, refl, m, λ j sixteen. refl)
    operator_handlers-Handled s view unregistered o m fits = absurd fits
