-- ===== src/Operator/Atomic.antt =====
-- `Operator.WriteBlock` is one transaction of the database: all of its writes or none of them.
use plasma.Bytes.{put_uint}
use plasma.Chain.{
  write_deposit_block, write_chain_block, write_valid, with_db, insert, replace_head, Chain,
  BlockCache, BodyValidator,
}
use plasma.HeaderChain.{set_current_header, HeaderCaches}
use plasma.Operator.{
  Operator, operator_write_block, after_write_block, write_block_fun, after_commit, raise_head,
  finish,
}
use plasma.Operator.Writes.{update_utxos-Adds, AllPaid, tx_writes, head_writes, Adds}
use plasma.Prelude.{
  ap, ℕ, ◌%◌, ◌≡◌, refl, sym, ◌∙◌, subst, ◌≢◌, inl, inr, Bool, not, Option, none, some, List, [],
  ◌∷◌, ◌++◌, append_assoc, append-nil, ltb, ◌==◌, if◌then◌else◌, Bool-cases,
}
use plasma.Prelude.Outcome.{ok, Error}
use plasma.RawDb.Accessors.{
  write_head_fast_block_hash, write_head_header_hash, write_canonical_hash, write_head_block_hash,
  read_bytes, read_canonical_hash,
}
use plasma.RawDb.Blocks.{write_block-pending, put_pending, block_writes}
use plasma.RawDb.Schema.{head_fast_block_key, head_header_key, head_block_key, header_hash_key}
use plasma.Store.{put, after_writes, Database, Write}
use plasma.Store.Laws.{IsStore, View}
use plasma.Types.Block.{number_int64_abs, number_u64, Block}
use plasma.Types.External.{block_hash, External}

-- the writes of a block that is written: the block, the head where it rises, the unspent outputs
abbrev pub committed_writes : External → Block → Bool → Bool → List Write
committed_writes x b higher update =
    (block_writes x b ++ (if higher then head_writes x b update else []))
    ++ tx_writes b 0 b.transactions

-- the view after a call that returned this error, or none
abbrev pub view_after : Option Error → List Write → View → View
view_after none ws view j = after_writes ws j (view j)
view_after (some e) ws view j = view j

-- The validator of the chain returns on `b`, and leaves the database and the head as they are.
abbrev pub OnlyReads : {S C B : Type 0} → BodyValidator S C B → Block → Type 0
OnlyReads {S} {C} {B} validate_body b =
    (c : Chain S C B)
    → (r : Option Error × Chain S C B) × (validate_body b c ≡ ok r)
      × (r.1.hc.chain_db ≡ c.hc.chain_db)
      × (r.1.current_block ≡ c.current_block)

module _ {S : Type 0} {Models : S → View → Option (List Write) → Type 0} (d : Database S)
    (store : IsStore d Models) where
  same_canonical :
      {s s' : S} {view : View} {p p' : Option (List Write)} (n : ℕ)
      → Models s view p
      → Models s' view p'
      → read_canonical_hash d n s ≡ read_canonical_hash d n s'
  unfolding read_canonical_hash read_bytes
  same_canonical n m m' = rw (store.reads m (header_hash_key n), store.reads m' (header_hash_key n))

  after_commit-Models :
      {view : View} (ws : List Write) (q : Option Error × S)
      → (q.0 ≡ none → Models q.1 (view_after none ws view) none)
      → (q.0 ≢ none → Models q.1 view (some ws))
      → Models (after_commit d q).1 (view_after (after_commit d q).0 ws view) none
  unfolding after_commit
  after_commit-Models ws (none, s) done failed = done refl
  after_commit-Models ws (some e, s) done failed = (store.rollback_open (failed (λ h. cc))).1

  -- commit, or roll back on an error: a pending transaction ends as one step
  pub finish-Models :
      {view : View} (ws : List Write) (r : Option Error × S)
      → Adds d store view ws r
      → Models (finish d r).1 (view_after (finish d r).0 ws view) none
  unfolding finish
  finish-Models ws (some e, s) (h, m) = cc
  finish-Models ws (none, s) (h, m) =
      after_commit-Models ws (d.commit_tx s) (store.commit_done m) (store.commit_failed m)

module _ {S C B : Type 0} {Models : S → View → Option (List Write) → Type 0} (d : Database S)
    (store : IsStore d Models) (lru : HeaderCaches C) (lrb : BlockCache B) (x : External)
    (validate_body : BodyValidator S C B) where
  repend :
      {s : S} {view : View} {us ws : List Write}
      → us ≡ ws
      → Models s view (some us)
      → Models s view (some ws)
  repend {s} {view} e m = subst (λ l. Models s view (some l)) e m

  insert-Models :
      {view : View} (ws : List Write) (b : Block) (c : Chain S C B)
      → Models c.hc.chain_db view (some ws)
      → Models (insert d lru lrb x b c).hc.chain_db view (
          some (
            ws
            ++ head_writes x b
                (not (read_canonical_hash d (number_u64 b) c.hc.chain_db == block_hash x b))))
  unfolding insert with_db set_current_header write_head_block_hash write_canonical_hash
      write_head_header_hash write_head_fast_block_hash block_hash
  insert-Models {view} ws b c m =
      let hash = put_uint 32 (block_hash x b) in
      let us = ws ++ put (header_hash_key (number_u64 b)) hash ∷ [] in
      let m1 = put_pending d store x (header_hash_key (number_u64 b)) hash m in
      let m2 = put_pending d store x head_block_key hash m1 in
      elim (Bool-cases
        (not (read_canonical_hash d (number_u64 b) c.hc.chain_db == block_hash x b))) [
          | inr e ↦ rw e (repend (append_assoc ws _ _) m2)
          | inl e ↦
              let m3 = put_pending d store x head_header_key hash m2 in
              let m4 = put_pending d store x head_fast_block_key hash m3 in
              rw e (
                repend
                  (append_assoc (us ++ put head_block_key hash ∷ []) _ _
                    ∙ append_assoc us (put head_block_key hash ∷ []) _
                    ∙ append_assoc ws _ _)
                  m4)
        ]

  raise_head-Models :
      {view : View} (ws : List Write) (b : Block) (c : Chain S C B)
      → Models c.hc.chain_db view (some ws)
      → Models (raise_head d lru lrb x validate_body b c).hc.chain_db view (
          some (
            ws
            ++ (if ltb c.current_block.header.number b.header.number
                then head_writes x b
                    (not (read_canonical_hash d (number_u64 b) c.hc.chain_db == block_hash x b))
                else [])))
  unfolding raise_head replace_head
  raise_head-Models {view} ws b c m =
      elim (Bool-cases (ltb c.current_block.header.number b.header.number)) [
        | inl e ↦ rw e (insert-Models ws b c m)
        | inr e ↦ rw e (subst (λ l. Models c.hc.chain_db view (some l)) (sym (append-nil ws)) m)
      ]

  -- what the write of the block leaves pending
  abbrev pub Written : View → Block → Option Error × Chain S C B → Type 0
  Written view b (none, c) = Models c.hc.chain_db view (some (block_writes x b))
  Written view b (some e, c) = Models c.hc.chain_db view (some [])

  write_valid-Written :
      {view : View} (b : Block) (r : Option Error × Chain S C B)
      → Models r.1.hc.chain_db view (some [])
      → Written view b (write_valid d lru lrb x b r)
        × ((write_valid d lru lrb x b r).1.current_block ≡ r.1.current_block)
  unfolding write_valid with_db
  write_valid-Written b (none, c) m = (write_block-pending d store x b m, refl)
  write_valid-Written b (some e, c) m = (m, refl)

  pub write_block_fun-Written :
      {view : View} (b : Block) (c : Chain S C B)
      → OnlyReads validate_body b
      → Models c.hc.chain_db view (some [])
      → (r : Option Error × Chain S C B) × (write_block_fun d lru lrb x validate_body b c ≡ ok r)
        × (r.1.current_block ≡ c.current_block)
        × Written view b r
  unfolding write_block_fun write_chain_block write_deposit_block with_db
  write_block_fun-Written {view} b c reads m = elim (Bool-cases (number_int64_abs b % 1000 == 0)) [
    | inr e ↦ rw e (_, refl, refl, write_block-pending d store x b m)
    | inl e ↦
        let v = reads c in
        let w = write_valid-Written b v.0 (subst (λ s. Models s view (some [])) (sym v.2) m) in
        rw (e, v.1) (write_valid d lru lrb x b v.0, refl, w.1 ∙ v.3, w.0)
  ]

  -- whether the block rises above the head, and whether it was not canonical, before the call
  abbrev pub writes_of : Block → Chain S C B → List Write
  writes_of b c =
      committed_writes x b (ltb c.current_block.header.number b.header.number)
        (not (read_canonical_hash d (number_u64 b) c.hc.chain_db == block_hash x b))

  -- the write of the block and the raise of the head, by the head before both
  pub raised-Models :
      {view : View} (b : Block) (before c : Chain S C B)
      → Models before.hc.chain_db view none
      → c.current_block ≡ before.current_block
      → Written view b (none, c)
      → Models (raise_head d lru lrb x validate_body b c).hc.chain_db view (
          some (
            block_writes x b
            ++ (if ltb before.current_block.header.number b.header.number
                then head_writes x b (
                    not (read_canonical_hash d (number_u64 b) before.hc.chain_db == block_hash x b))
                else [])))
  raised-Models {view} b before c m h w =
      let canonical = λ (k : Chain S C B).
        not (read_canonical_hash d (number_u64 b) k.hc.chain_db == block_hash x b) in
      let rises = λ (k : Block) (u : Bool).
        block_writes x b
        ++ (if ltb k.header.number b.header.number then head_writes x b u else []) in
      let same : canonical c ≡ canonical before =
        ap (λ n. not (n == block_hash x b)) (same_canonical d store (number_u64 b) w m) in
      let e : rises c.current_block (canonical c) ≡ rises before.current_block (canonical before) =
        ap (λ k. rises k (canonical c)) h ∙ ap (rises before.current_block) same in
      repend e (raise_head-Models (block_writes x b) b c w)

  after_write_block-Models :
      {view : View} (b : Block) (o : Operator S C B) (r : Option Error × Chain S C B)
      → AllPaid b.transactions
      → Models o.chain.hc.chain_db view none
      → r.1.current_block ≡ o.chain.current_block
      → Written view b r
      → (q : Option Error × Operator S C B) × (after_write_block d lru lrb x validate_body b o r
          ≡ ok q)
        × Models q.1.chain.hc.chain_db (view_after q.0 (writes_of b o.chain) view) none
  unfolding after_write_block with_db
  after_write_block-Models b o (some e, c) paid m h w = (_, refl, (store.rollback_open w).1)
  after_write_block-Models {view} b o (none, c) paid m h w =
      let m1 = raised-Models b o.chain c m h w in
      let u = update_utxos-Adds d store _ b 0 b.transactions paid m1 in
      rw u.1 (_, refl, finish-Models d store _ u.0 u.2)

  -- From a database with no open transaction, `WriteBlock` of a block whose outputs have amounts,
  -- on which the validator returns, returns; and it leaves no open transaction. Where it returned
  -- no error, the reads are those after all of its writes, in order: the block, the head where the
  -- block is higher, then for each transaction the inputs deleted and the outputs put. Where it
  -- returned an error, every read is as before.
  pub operator_write_block-Atomic :
      {view : View} (b : Block) (o : Operator S C B)
      → AllPaid b.transactions
      → OnlyReads validate_body b
      → Models o.chain.hc.chain_db view none
      → (q : Option Error × Operator S C B) × (operator_write_block d lru lrb x validate_body b o
          ≡ ok q)
        × Models q.1.chain.hc.chain_db (view_after q.0 (writes_of b o.chain) view) none
  unfolding operator_write_block with_db
  operator_write_block-Atomic {view} b o paid reads m =
      let began = store.begin_closed m in
      let c = with_db (d.begin_tx o.chain.hc.chain_db).1 o.chain in
      let w = write_block_fun-Written b c reads began.1 in
      let q = after_write_block-Models b o w.0 paid m w.2 w.3 in (q.0, rw (began.0, w.1) q.1, q.2)
