-- ===== src/Operator/Numbers.antt =====
-- core/operator.go: the numbers of the blocks that the operator seals.
use plasma.Bytes.{Hash}
use plasma.Chain.{with_db, Chain, BodyValidator, BlockCache}
use plasma.HeaderChain.{HeaderCaches}
use plasma.Operator.{
  Operator, child_block_interval, update_utxos, raise_head, write_block_fun, after_write_block,
  operator_write_block, construct_block, seal_deposit, submitted, seal,
}
use plasma.Prelude.{
  ℕ, ◌+◌, ◌*◌, ◌%◌, ◌^◌, ◌<◌, ◌≡◌, sym, ap, ◌∙◌, inl, inr, Bool, true, false, Option, none, some,
  refl, [], ◌∷◌, List, length, ◌==◌, arith, Bool-cases,
}
use plasma.Prelude.Outcome.{ok-injective, >>=-eq-ok, ok, Error, ◌>>=◌}
use plasma.Store.{Database}
use plasma.Types.Block.{Block, number_u64, header_number, copy_header}
use plasma.Types.External.{External, new_block}
use plasma.Types.Transaction.{Transaction}

module _ {S C B : Type 0} (d : Database S) (lru : HeaderCaches C) (lrb : BlockCache B)
    (x : External) (validate_body : BodyValidator S C B) where
  after_write_block-number :
      (b : Block) (o : Operator S C B) (r : Option Error × Chain S C B) (e : Option Error)
      (o' : Operator S C B)
      → after_write_block d lru lrb x validate_body b o r ≡ ok (e, o')
      → o'.current_child_block ≡ o.current_child_block
  unfolding after_write_block
  after_write_block-number b o (some error, c) e o' run =
      ap (λ q. q.1.current_child_block) (sym (ok-injective run))
  after_write_block-number b o (none, c) e o' run =
      let done =
        >>=-eq-ok
          (update_utxos d b 0 b.transactions (raise_head d lru lrb x validate_body b c).hc.chain_db)
          _ run in
      ap (λ q. q.1.current_child_block) (sym (ok-injective done.2))

  operator_write_block-number :
      (b : Block) (o : Operator S C B) (e : Option Error) (o' : Operator S C B)
      → operator_write_block d lru lrb x validate_body b o ≡ ok (e, o')
      → o'.current_child_block ≡ o.current_child_block
  unfolding operator_write_block
  operator_write_block-number b o e o' run =
      let began = d.begin_tx o.chain.hc.chain_db in
      elim (Bool-cases began.0) [
        | inl t ↦
            let done =
              >>=-eq-ok (write_block_fun d lru lrb x validate_body b (with_db began.1 o.chain)) _
                (rw t at run) in
            after_write_block-number b o done.0 e o' done.2
        | inr t ↦ ap (λ q. q.1.current_child_block) (sym (ok-injective (rw t at run)))
      ]

  module _ {P : Type 0} (remove_tx : Hash → P → P) (submit : Block → Option Error) where
    -- what the operator does: it seals transactions or a deposit, with an error or without one
    pub data OperatorStep (o o' : Operator S C B) : Bool → Type 0 where
      sealed :
          (now : ℕ) (txs : List Transaction) (p p' : P) (e : Option Error)
          → seal d lru lrb x validate_body remove_tx submit now txs p o ≡ ok (e, (p', o'))
          → OperatorStep o o' true
      deposited :
          (now number : ℕ) (tx : Transaction) (e : Option Error)
          → seal_deposit d lru lrb x validate_body now number tx o ≡ ok (e, o')
          → OperatorStep o o' false

    -- the states after some steps, and how many of them were calls of `Seal`
    pub data OperatorReach (start : Operator S C B) : ℕ → Operator S C B → Type 0 where
      here : OperatorReach start 0 start
      next_sealed :
          {seals : ℕ} {o o' : Operator S C B}
          → OperatorReach start seals o
          → OperatorStep o o' true
          → OperatorReach start (seals + 1) o'
      next_deposited :
          {seals : ℕ} {o o' : Operator S C B}
          → OperatorReach start seals o
          → OperatorStep o o' false
          → OperatorReach start seals o'

    submitted-number :
        (b : Block) (r : Option Error × Operator S C B) (p p' : P) (e : Option Error)
        (o' : Operator S C B)
        → submitted d lru lrb x validate_body remove_tx submit b r p ≡ (e, (p', o'))
        → r.1 ≡ o'
    unfolding submitted
    submitted-number b (some error, o) p p' e o' run = ap (λ q. q.1.1) run
    submitted-number b (none, o) p p' e o' run = ap (λ q. q.1.1) run

    sealed-number :
        (o o' : Operator S C B)
        → OperatorStep o o' true
        → o'.current_child_block ≡ (o.current_child_block + child_block_interval) % 2 ^ 64
    unfolding seal construct_block
    sealed-number o o' (sealed now txs p p' e run) =
        let made = construct_block d lru lrb x validate_body now txs o in
        let done = >>=-eq-ok (operator_write_block d lru lrb x validate_body made.0 made.1) _ run in
        let state : done.0.1 ≡ o' =
          submitted-number made.0 done.0 p p' e o' (ok-injective done.2) in
        let kept = operator_write_block-number made.0 made.1 done.0.0 done.0.1 done.1 in
        ap (λ q. q.current_child_block) (sym state) ∙ kept

    deposited-number :
        (o o' : Operator S C B)
        → OperatorStep o o' false
        → o'.current_child_block ≡ o.current_child_block
    unfolding seal_deposit
    deposited-number o o' (deposited now number tx e run) = operator_write_block-number _ o e o' run

    counter-reached :
        {start o : Operator S C B} {seals : ℕ}
        → start.current_child_block < 2 ^ 64
        → OperatorReach start seals o
        → o.current_child_block
          ≡ (start.current_child_block + seals * child_block_interval) % 2 ^ 64
    counter-reached small here = omega (arith, small)
    counter-reached small (next_sealed {seals} {o} {o'} reached step) =
        let before = counter-reached small reached in
        let after = sealed-number o o' step in omega (arith, before, after)
    counter-reached small (next_deposited {seals} {o} {o'} reached step) =
        deposited-number o o' step ∙ counter-reached small reached

    constructed-number :
        (now : ℕ) (txs : List Transaction) (o : Operator S C B)
        → number_u64 (construct_block d lru lrb x validate_body now txs o).0
          ≡ (o.current_child_block + child_block_interval) % 2 ^ 64
    unfolding construct_block new_block copy_header number_u64 header_number
    constructed-number now [] o = omega arith
    constructed-number now (tx ∷ txs) o =
        let full : (length (tx ∷ txs) == 0) ≡ false = ground arith in rw full (omega arith)

    constructed-txs :
        (now : ℕ) (txs : List Transaction) (o : Operator S C B)
        → (construct_block d lru lrb x validate_body now txs o).0.transactions ≡ txs
    unfolding construct_block new_block
    constructed-txs now [] o = refl
    constructed-txs now (tx ∷ txs) o =
        let full : (length (tx ∷ txs) == 0) ≡ false = ground arith in rw full refl

    -- After any calls of `Seal` and `SealDeposit`, with an error or without one, a further call of
    -- `Seal` hands WriteBlock a block of the given transactions, whose number is the counter at the
    -- start, moved on by 1000 for each call of `Seal` so far and once more, as a `uint64`. Seal
    -- then does what follows on this WriteBlock.
    pub OperatorReach-number :
        {start o : Operator S C B} {seals : ℕ} (now : ℕ) (txs : List Transaction) (p : P)
        → start.current_child_block < 2 ^ 64
        → OperatorReach start seals o
        → (b : Block) × (o1 : Operator S C B) × (number_u64 b
            ≡ (start.current_child_block + (seals + 1) * child_block_interval) % 2 ^ 64)
          × (b.transactions ≡ txs)
          × (seal d lru lrb x validate_body remove_tx submit now txs p o ≡ (
              operator_write_block d lru lrb x validate_body b o1 >>= λ written.
              ok (submitted d lru lrb x validate_body remove_tx submit b written p)))
    unfolding seal
    OperatorReach-number {start} {o} {seals} now txs p small reached =
        let made = construct_block d lru lrb x validate_body now txs o in
        let counter = counter-reached small reached in
        let moved = constructed-number now txs o in
        (made.0, made.1, omega (arith, moved, counter), constructed-txs now txs o, refl)
