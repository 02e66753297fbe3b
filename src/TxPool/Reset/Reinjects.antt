-- ===== src/TxPool/Reset/Reinjects.antt =====
-- core/tx_pool.go: what `reset` takes up again, by the two branches of the chain.
use mathlib.Core.Bool.{false≢true}
use mathlib.Core.Path.{ap₂}
use plasma.Ancestors.{
  Line, IsNumbered, HashesApart, ForkAt, NoFork, First, Walk, Walk-here, Walk-missing, Walk-parent,
  Meets, Meets-here, Meets-missing, Meets-parent, Meets-Lines, HashesApart-Line, NoFork-above,
  NoFork-below,
}
use plasma.Bytes.{Hash}
use plasma.Prelude.{
  ==-refl, ==_ne, false, ◌≢◌, ℕ, zero, suc, ◌≤◌, ◌<◌, ◌≡◌, refl, sym, ap, ◌∙◌, ◌⊎◌, inl, inr,
  Option, none, some, List, [], ◌∷◌, ◌++◌, append_assoc, append-nil, arith, ltb, ◌==◌, ==_iff,
  Bool-cases, Option-cases,
}
use plasma.Prelude.Outcome.{◌>>=◌, ok, Outcome}
use plasma.SenderCacher.{block_txs}
use plasma.TxPool.{TxPool, add_txs_locked}
use plasma.TxPool.Reset.{
  lowered, lower_other, difference, branches, to_reinject, reinject, reset, parent_block, lower,
  lower_both,
}
use plasma.Types.Block.{header_number, Header, Block, number_u64}
use plasma.Types.External.{header_hash, External, block_hash}
use plasma.Types.Transaction.{tx_difference, Transaction}

block_txs-append : (os ps : List Block) → block_txs (os ++ ps) ≡ block_txs os ++ block_txs ps
unfolding block_txs
block_txs-append [] ps = refl
block_txs-append (b ∷ os) ps =
    ap (◌++◌ b.transactions) (block_txs-append os ps)
    ∙ sym (append_assoc b.transactions (block_txs os) (block_txs ps))

collected :
    (txs : List Transaction) (b : Block) (os : List Block)
    → (txs ++ b.transactions) ++ block_txs os ≡ txs ++ block_txs (b ∷ os)
unfolding block_txs
collected txs b os = append_assoc txs b.transactions (block_txs os)

module _ (x : External) (get_block : Hash → ℕ → Option Block) where
  -- the ancestors of a block, by the chain's lookups
  abbrev pub BlocksNumbered : Type 0
  BlocksNumbered = IsNumbered (parent_block x get_block) number_u64 (block_hash x)

  abbrev pub BlocksApart : Block → Block → Type 0
  BlocksApart b a = HashesApart (parent_block x get_block) number_u64 (block_hash x) b a

  abbrev pub BlockFork : Block → Block → List Block → List Block → Block → Block → Type 0
  BlockFork b a os ns c e =
      ForkAt (parent_block x get_block) number_u64 (block_hash x) b a os ns c e

  abbrev pub NoBlockFork : Block → Block → Type 0
  NoBlockFork b a = NoFork (parent_block x get_block) number_u64 (block_hash x) b a

  abbrev pub NearestFork : Block → Block → List Block → List Block → Type 0
  NearestFork b a os ns = First (parent_block x get_block) number_u64 (block_hash x) b a os ns

  module _ (numbered : BlocksNumbered) where
    abbrev Lowered :
        Block → List Transaction → ℕ → Option (Option (Block × List Transaction)) → Type 0
    Lowered b txs n run =
        Walk (parent_block x get_block) number_u64 (block_hash x) numbered b n (run ≡ some none)
          (λ os c. run ≡ some (some (c, txs ++ block_txs os)))

    -- the first two loops
    lower-Lowered :
        (fuel n : ℕ) (b : Block) (txs : List Transaction)
        → number_u64 b < fuel
        → Lowered b txs n (lower x get_block fuel n b txs)
    unfolding lower
    lower-Lowered zero n b txs enough = absurd (omega (arith, enough))
    lower-Lowered (suc fuel) n b txs enough = elim (Bool-cases (ltb n (number_u64 b))) [
      | inr low ↦
          let end : number_u64 b ≤ n = ground (arith, low) in
          let same : lower x get_block (suc fuel) n b txs ≡ some (some (b, txs ++ block_txs [])) =
            rw (lower, low)
              (unfold block_txs in ap (λ l. some (some (b, l))) (sym (append-nil txs))) in
          Walk-here (parent_block x get_block) number_u64 (block_hash x) numbered b n end same
      | inl high ↦
          let above : n < number_u64 b = ground (arith, high) in
          elim (Option-cases (parent_block x get_block b)) [
            | inl missing ↦
                let ended : lower x get_block (suc fuel) n b txs ≡ some none =
                  rw (lower, high, missing) refl in
                Walk-missing (parent_block x get_block) number_u64 (block_hash x) numbered b n above
                  missing ended
            | inr up ↦
                let below = numbered b up.0 up.1 in
                let on : lower x get_block (suc fuel) n b txs
                    ≡ lower x get_block fuel n up.0 (txs ++ b.transactions) =
                  rw (lower, high, up.1) refl in
                Walk-parent (parent_block x get_block) number_u64 (block_hash x) numbered b up.0 n
                  above up.1 (λ r. on ∙ r)
                  (λ os c r. on ∙ r ∙ ap (λ l. some (some (c, l))) (collected txs b os))
                  (lower-Lowered fuel n up.0 (txs ++ b.transactions) (omega (arith, below, enough)))
          ]
    ]

    abbrev LoweredBoth :
        Block
        → List Transaction
        → Block
        → List Transaction
        → Option (Option (List Transaction × List Transaction))
        → Type 0
    LoweredBoth b txs a more run =
        Meets (parent_block x get_block) number_u64 (block_hash x) numbered b a (run ≡ some none)
          (λ os ns c e. run ≡ some (some (txs ++ block_txs os, more ++ block_txs ns)))

    -- the third loop
    lower_both-LoweredBoth :
        (fuel : ℕ) (b : Block) (txs : List Transaction) (a : Block) (more : List Transaction)
        → BlocksApart b a
        → number_u64 b ≡ number_u64 a
        → number_u64 b < fuel
        → LoweredBoth b txs a more (lower_both x get_block fuel (b, txs) (a, more))
    unfolding lower_both
    lower_both-LoweredBoth zero b txs a more apart level enough = absurd (omega (arith, enough))
    lower_both-LoweredBoth (suc fuel) b txs a more apart level enough =
        elim (Bool-cases (block_hash x b == block_hash x a)) [
          | inl one ↦
              let met : lower_both x get_block (suc fuel) (b, txs) (a, more)
                  ≡ some (some (txs ++ block_txs [], more ++ block_txs [])) =
                rw (lower_both, one)
                  (unfold block_txs in
                    ap₂ (λ l k. some (some (l, k))) (sym (append-nil txs))
                      (sym (append-nil more))) in
              Meets-here (parent_block x get_block) number_u64 (block_hash x) numbered b a
                ((==_iff _ _).0 one) met
          | inr two ↦
              let differ : block_hash x b ≢ block_hash x a =
                λ e. false≢true (sym two ∙ rw e (==-refl (block_hash x a))) in
              elim (Option-cases (parent_block x get_block b)) [
                | inl missing ↦
                    let ended : lower_both x get_block (suc fuel) (b, txs) (a, more) ≡ some none =
                      rw (lower_both, two, missing) refl in
                    Meets-missing (parent_block x get_block) number_u64 (block_hash x) numbered b a
                      apart level differ (inl missing) ended
                | inr up ↦ elim (Option-cases (parent_block x get_block a)) [
                  | inl missing ↦
                      let ended : lower_both x get_block (suc fuel) (b, txs) (a, more) ≡ some none =
                        rw (lower_both, two, up.1, missing) refl in
                      Meets-missing (parent_block x get_block) number_u64 (block_hash x) numbered b
                        a apart level differ (inr missing) ended
                  | inr over ↦
                      let below = numbered b up.0 up.1 in
                      let below' = numbered a over.0 over.1 in
                      let on : lower_both x get_block (suc fuel) (b, txs) (a, more)
                          ≡ lower_both x get_block fuel (up.0, txs ++ b.transactions)
                              (over.0, more ++ a.transactions) =
                        rw (lower_both, two, up.1, over.1) refl in
                      let closer =
                        HashesApart-Line (parent_block x get_block) number_u64 (block_hash x)
                          numbered b a up.0 over.0 (b ∷ []) (a ∷ []) (refl, up.0, up.1, refl)
                          (refl, over.0, over.1, refl) apart in
                      Meets-parent (parent_block x get_block) number_u64 (block_hash x) numbered b a
                        up.0 over.0 apart level differ up.1 over.1 (λ r. on ∙ r)
                        (λ os ns c e r.
                          on
                          ∙ r
                          ∙ ap₂ (λ l k. some (some (l, k))) (collected txs b os)
                              (collected more a ns))
                        (lower_both-LoweredBoth fuel up.0 (txs ++ b.transactions) over.0
                          (more ++ a.transactions) closer (omega (arith, below, below', level))
                          (omega (arith, below, enough)))
                ]
              ]
        ]

    -- from where the first loop came to
    lowered-LoweredBoth :
        (fuel : ℕ) (b a c : Block) (os : List Block)
        → BlocksApart b a
        → number_u64 c < fuel
        → number_u64 a < fuel
        → Line (parent_block x get_block) number_u64 (block_hash x) b os c
        → number_u64 c ≤ number_u64 a
        → (number_u64 c ≡ number_u64 b) ⊎ (number_u64 c ≡ number_u64 a)
        → LoweredBoth b [] a [] (
            lowered x get_block fuel (c, block_txs os) (lower x get_block fuel (number_u64 c) a []))
    unfolding lowered
    lowered-LoweredBoth fuel b a c os apart enough enough' line low end =
        elim (lower-Lowered fuel (number_u64 c) a [] enough') [
          | inl (ended, above) ↦ inl (
            rw ended refl,
            NoFork-below (parent_block x get_block) number_u64 (block_hash x) numbered b a
                (number_u64 c) apart end above,
          )
          | inr (ns, e, run, line', (low', stop)) ↦
              let level : number_u64 c ≡ number_u64 e = elim stop [
                | inl start ↦ omega (arith, start, low, low')
                | inr same ↦ omega (arith, same)
              ] in
              let either : (number_u64 c ≡ number_u64 b) ⊎ (number_u64 e ≡ number_u64 a) =
                elim end [ inl at ↦ inl at | inr at ↦ inr (omega (arith, at, level)) ] in
              let closer =
                HashesApart-Line (parent_block x get_block) number_u64 (block_hash x) numbered b a c
                  e os ns line line' apart in
              let on : lowered x get_block fuel (c, block_txs os)
                    (lower x get_block fuel (number_u64 c) a [])
                  ≡ lower_both x get_block fuel (c, block_txs os) (e, block_txs ns) =
                rw run refl in
              Meets-Lines (parent_block x get_block) number_u64 (block_hash x) numbered b a c e os
                ns apart line line' level either (λ r. on ∙ r)
                (λ ps qs top top' r.
                  on
                  ∙ r
                  ∙ ap₂ (λ l k. some (some (l, k))) (sym (block_txs-append os ps))
                      (sym (block_txs-append ns qs)))
                (lower_both-LoweredBoth fuel c (block_txs os) e (block_txs ns) closer level enough)
        ]

    -- all three loops
    lower_other-LoweredBoth :
        (fuel : ℕ) (b a : Block)
        → BlocksApart b a
        → number_u64 b < fuel
        → number_u64 a < fuel
        → LoweredBoth b [] a []
            (lower_other x get_block fuel a (lower x get_block fuel (number_u64 a) b []))
    unfolding lower_other
    lower_other-LoweredBoth fuel b a apart enough enough' =
        elim (lower-Lowered fuel (number_u64 a) b [] enough) [
          | inl (ended, above) ↦ inl (
            rw ended refl,
            NoFork-above (parent_block x get_block) number_u64 (block_hash x) numbered b a apart
                above,
          )
          | inr (os, c, run, line, (low, end)) ↦ rw run (
              lowered-LoweredBoth fuel b a c os apart (omega (arith, low, enough')) enough' line low
                end)
        ]

  module _ (depth : ℕ → ℕ → ℕ) (hash_of : Transaction → Hash) {J : Type 0}
      (validate_tx : Transaction → Outcome (Unit {0})) (journal_insert : Transaction → J → J) where
    -- reset between two heads whose blocks are found, the new one not on top of the old one and at
    -- most 64 apart, on more fuel than both numbers, where every parent that is found has the
    -- number before and no two blocks of the two branches with different numbers share a hash:
    -- either no block of one branch has the hash of one of the other, and the pool stays as it is;
    -- or the branches have such blocks, and of the nearest two, the transactions of the old branch
    -- before them that do not stand in the new one before them, in order, are added as
    -- addTxsLocked does.
    pub reset-Reinjects :
        (fuel : ℕ) (old new : Header) (b a : Block) (p : TxPool J)
        → BlocksNumbered
        → BlocksApart b a
        → header_hash x old ≢ new.parent_hash
        → depth (header_number old) (header_number new) ≤ 64
        → get_block (header_hash x old) (header_number old) ≡ some b
        → get_block (header_hash x new) (header_number new) ≡ some a
        → number_u64 b < fuel
        → number_u64 a < fuel
        → ((reset x get_block depth hash_of validate_tx journal_insert fuel (some old) (some new) p
              ≡ some (ok p))
            × NoBlockFork b a)
          ⊎ ((os : List Block) × (ns : List Block) × (c : Block) × (e : Block) × (reset x get_block
                  depth hash_of validate_tx journal_insert fuel
                  (some old)
                  (some new)
                  p
                ≡ some (
                    add_txs_locked hash_of validate_tx journal_insert
                      (tx_difference hash_of (block_txs os) (block_txs ns))
                      false
                      p
                    >>= λ added. ok added.1))
              × BlockFork b a os ns c e
              × NearestFork b a os ns)
    unfolding reset to_reinject reinject difference branches
    reset-Reinjects fuel old new b a p numbered apart off near found found' enough enough' =
        let off' = ==_ne (header_hash x old) new.parent_hash off in
        let shallow : ltb 64 (depth (header_number old) (header_number new)) ≡ false =
          ground (arith, near) in
        elim (lower_other-LoweredBoth numbered fuel b a apart enough enough') [
          | inl lost ↦ inl (rw (reset, off', shallow, found, found', lost.0) refl, lost.1)
          | inr (os, ns, c, e, run, fork, nearest) ↦
              inr (os, ns, c, e, rw (reset, off', shallow, found, found', run) refl, fork, nearest)
        ]
