-- ===== src/Chain/Import/Posts.antt =====
-- core/blockchain.go: the events of `insertChain` are the blocks that it wrote.
use plasma.Chain.{Chain}
use plasma.Chain.Import.{
  max_time_future_blocks, BlockSets, ChainEvent, chain_event, Inserted, skipped, written, failed,
  Importer, Import, write_one, queue, insert_one, head_event, insert_loop, insert_chain,
}
use plasma.HeaderChain.Import.{is_contiguous}
use plasma.Prelude.{
  ℕ, ◌+◌, ◌≡◌, refl, sym, ap, ◌∙◌, subst, inl, inr, Bool, Option, none, some, List, [], ◌∷◌, ◌++◌,
  map, append_assoc, append-nil, ltb, leb, ◌==◌, Bool-cases, Option-cases, length,
}
use plasma.Prelude.Outcome.{
  known_block, future_block, unknown_ancestor, ok-injective, >>=-eq-ok, Outcome, ok, Error,
}
use plasma.Types.Block.{number_u64, Block}
use plasma.Types.External.{External}

abbrev pub last_of : Option Block → List Block → Option Block
last_of last [] = last
last_of last (b ∷ blocks) = last_of (some b) blocks

module _ {S C B F : Type 0} (sets : BlockSets F) (x : External)
    (write_block : Block → Chain S C B → Outcome (Option Error × Chain S C B)) where
  -- `WriteBlock` of one block after the other, each with no error
  pub data Writes : List Block → Chain S C B → Chain S C B → Type 0 where
    none_written : (c : Chain S C B) → Writes [] c c
    one_written :
        {b : Block} {blocks : List Block} {c c1 c2 : Chain S C B}
        → write_block b c ≡ ok (none, c1)
        → Writes blocks c1 c2
        → Writes (b ∷ blocks) c c2

  -- what one block did to the chain
  Did : Block → Importer sets x write_block → Inserted (Importer sets x write_block) → Type 0
  Did b i (skipped i') = i'.0 ≡ i.0
  Did b i (written i') = write_block b i.0 ≡ ok (none, i'.0)
  Did b i (failed e i') = Unit

  write_one-Did :
      (b : Block) (i : Importer sets x write_block) (r : Inserted (Importer sets x write_block))
      → write_one sets x write_block b i ≡ ok r
      → Did b i r
  unfolding write_one Did
  write_one-Did b i r e =
      let done = >>=-eq-ok (write_block b i.0) _ e in
      elim (Option-cases done.0.0) [
        | inl w ↦
            subst (Did b i) (ok-injective (rw w at done.2)) (done.1 ∙ ap (λ o. ok (o, done.0.1)) w)
        | inr w ↦ subst (Did b i) (ok-injective (rw w.1 at done.2)) tt
      ]

  insert_one-Did :
      (now : ℕ) (b : Block) (verified : Option Error) (i : Importer sets x write_block)
      (r : Inserted (Importer sets x write_block))
      → insert_one sets x write_block now b verified i ≡ ok r
      → Did b i r
  unfolding insert_one Did queue
  insert_one-Did now b none i r e = write_one-Did b i r e
  insert_one-Did now b (some known_block) i r e =
      elim (Bool-cases (leb (number_u64 b) (number_u64 i.0.current_block))) [
        | inl k ↦ subst (Did b i) (ok-injective (rw k at e)) refl
        | inr k ↦ write_one-Did b i r (rw k at e)
      ]
  insert_one-Did now b (some future_block) i r e =
      elim (Bool-cases (ltb (now + max_time_future_blocks) b.header.time)) [
        | inl k ↦ subst (Did b i) (ok-injective (rw k at e)) tt
        | inr k ↦ subst (Did b i) (ok-injective (rw k at e)) refl
      ]
  insert_one-Did now b (some unknown_ancestor) i r e =
      elim (Bool-cases (sets.has_future b.header.parent_hash i.1)) [
        | inl k ↦ subst (Did b i) (ok-injective (rw k at e)) refl
        | inr k ↦ subst (Did b i) (ok-injective (rw k at e)) tt
      ]
  insert_one-Did now b (some error) i r e = subst (Did b i) (ok-injective e) tt

  module _ (now : ℕ) (interrupted : ℕ → Bool) where
    -- the blocks of `events`, then those that the loop wrote, and the head's event
    abbrev pub Posted :
        List ChainEvent
        → Option Block
        → Importer sets x write_block
        → List ChainEvent
        → Importer sets x write_block
        → Type 0
    Posted events last i out i' =
        (blocks : List Block) × Writes blocks i.0 i'.0
        × (out
            ≡ (events ++ map chain_event blocks)
              ++ head_event sets x write_block (last_of last blocks) i')

    stop-Posted :
        (events : List ChainEvent) (last : Option Block) (i : Importer sets x write_block) (n k : ℕ)
        (out : List ChainEvent) (i' : Importer sets x write_block)
        → ◌≡◌ {A = Outcome (Import sets x write_block)}
            (ok ((n, events ++ head_event sets x write_block last i, none), i))
            (ok ((k, out, none), i'))
        → Posted events last i out i'
    stop-Posted events last i n k out i' e =
        let same = ok-injective e in
        let state : i ≡ i' = ap (λ r. r.1) same in
        (
          [],
          subst (λ z. Writes [] i.0 z.0) state (none_written i.0),
          sym (ap (λ r. r.0.1) same)
              ∙ rw (append-nil events)
                  (ap (λ z. events ++ head_event sets x write_block last z) state),
        )

    -- what is posted after a block that was skipped or written
    skipped-Posted :
        (events : List ChainEvent) (last : Option Block) (i i1 : Importer sets x write_block)
        (out : List ChainEvent) (i' : Importer sets x write_block)
        → i1.0 ≡ i.0
        → Posted events last i1 out i'
        → Posted events last i out i'
    skipped-Posted events last i i1 out i' e posted =
        (posted.0, subst (λ c. Writes posted.0 c i'.0) e posted.1, posted.2)

    written-Posted :
        (b : Block) (events : List ChainEvent) (last : Option Block)
        (i i1 : Importer sets x write_block) (out : List ChainEvent)
        (i' : Importer sets x write_block)
        → write_block b i.0 ≡ ok (none, i1.0)
        → Posted (events ++ chain_event b ∷ []) (some b) i1 out i'
        → Posted events last i out i'
    written-Posted b events last i i1 out i' e posted = (
      b ∷ posted.0,
      one_written e posted.1,
      posted.2
          ∙ ap (λ posts. posts ++ head_event sets x write_block (last_of (some b) posted.0) i')
              (append_assoc events (chain_event b ∷ []) (map chain_event posted.0)),
    )

    after-Posted :
        (n : ℕ) (b : Block) (blocks : List (Block × Option Error)) (events : List ChainEvent)
        (last : Option Block) (i : Importer sets x write_block) (k : ℕ) (out : List ChainEvent)
        (i' : Importer sets x write_block)
        (rest : (events : List ChainEvent) (last : Option Block) (i1 : Importer sets x write_block)
          → insert_loop sets x write_block now interrupted (n + 1) blocks events last i1
            ≡ ok ((k, out, none), i')
          → Posted events last i1 out i')
        (r : Inserted (Importer sets x write_block))
        → Did b i r
        → (elim r [
          | skipped i1 ↦
              insert_loop sets x write_block now interrupted (n + 1) blocks events last i1
          | written i1 ↦
              insert_loop sets x write_block now interrupted
                (n + 1)
                blocks
                (events ++ chain_event b ∷ [])
                (some b)
                i1
          | failed e i1 ↦ ok ((n, events, some e), i1)
        ])
          ≡ ok ((k, out, none), i')
        → Posted events last i out i'
    unfolding Did
    after-Posted n b blocks events last i k out i' rest (skipped i1) did e =
        skipped-Posted events last i i1 out i' did (rest events last i1 e)
    after-Posted n b blocks events last i k out i' rest (written i1) did e =
        written-Posted b events last i i1 out i' did
          (rest (events ++ chain_event b ∷ []) (some b) i1 e)
    after-Posted n b blocks events last i k out i' rest (failed error i1) did e = absurd (cc e)

    insert_loop-Posted :
        (n : ℕ) (blocks : List (Block × Option Error)) (events : List ChainEvent)
        (last : Option Block) (i : Importer sets x write_block) (k : ℕ) (out : List ChainEvent)
        (i' : Importer sets x write_block)
        → insert_loop sets x write_block now interrupted n blocks events last i
          ≡ ok ((k, out, none), i')
        → Posted events last i out i'
    unfolding insert_loop
    insert_loop-Posted n [] events last i k out i' e = stop-Posted events last i 0 k out i' e
    insert_loop-Posted n ((b, verified) ∷ blocks) events last i k out i' e =
        elim (Bool-cases (interrupted n)) [
          | inl stop ↦ stop-Posted events last i 0 k out i' (rw stop at e)
          | inr go ↦
              let done =
                >>=-eq-ok (insert_one sets x write_block now b verified i) _ (rw go at e) in
              after-Posted n b blocks events last i k out i'
                (λ events' last' i1 h.
                  insert_loop-Posted (n + 1) blocks events' last' i1 k out i' h)
                done.0 (insert_one-Did now b verified i done.0 done.1) done.2
        ]

    -- If `insertChain` returns no error, the chain differs by nothing but `WriteBlock` of some
    -- blocks, each with no error; it posts one event for each of these, in order, and then the
    -- event of a new head, if the last one is the current block.
    pub insert_chain-Posted :
        (blocks : List (Block × Option Error)) (i : Importer sets x write_block) (k : ℕ)
        (out : List ChainEvent) (i' : Importer sets x write_block)
        → insert_chain sets x write_block now interrupted blocks i ≡ ok ((k, out, none), i')
        → Posted [] none i out i'
    unfolding insert_chain
    insert_chain-Posted blocks i k out i' e = elim (Bool-cases (length blocks == 0)) [
      | inl z ↦ stop-Posted [] none i 0 k out i' (rw z at e)
      | inr z ↦ elim (Bool-cases (is_contiguous x (map (λ b. b.0.header) blocks))) [
        | inl c ↦ insert_loop-Posted 0 blocks [] none i k out i' (rw c at (rw z at e))
        | inr c ↦ absurd (cc (rw c at (rw z at e)))
      ]
    ]
