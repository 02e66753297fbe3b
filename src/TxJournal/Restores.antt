-- ===== src/TxJournal/Restores.antt =====
-- core/tx_journal.go: what was journaled is loaded again.
use plasma.Bytes.{Address}
use plasma.Prelude.{
  ◌+◌, ◌≤◌, ◌≡◌, refl, sym, ap, ◌∙◌, subst, fun_ext, inl, inr, true, false, Option, none, some,
  List, [], ◌∷◌, ◌++◌, map, append_assoc, append-nil, arith, ltb, Bool-cases, Option-cases, length,
  All, length-append,
}
use plasma.Prelude.Outcome.{Outcome, ok, ◌>>=◌, Error}
use plasma.TxJournal.{
  closed, sink, TxJournal, Os, append_tx, change_file, insert, close_error, encode_each, replace,
  all_txs, write_replacement, rotate, Adds, load_loop, load,
}
use plasma.Types.Transaction.{Transaction, decoded}

abbrev pub concat : List (List Transaction) → List Transaction
concat [] = []
concat (batch ∷ batches) = batch ++ concat batches

module _ {P : Type 0} (add : Adds P) where
  -- the batches, one after the other
  abbrev pub add_each : List (List Transaction) → P → Outcome P
  add_each [] p = ok p
  add_each (batch ∷ batches) p = do added ← add batch p; add_each batches added.1

  -- the loop adds each transaction once, in order, in batches of 1 to 1025
  abbrev pub Batches : List Transaction → (P → Outcome P) → Type 0
  Batches txs loop =
      (batches : List (List Transaction)) × ((p : P) → loop p ≡ add_each batches p)
      × (concat batches ≡ txs)
      × All (λ batch. (1 ≤ length batch) × (length batch ≤ 1025)) batches

  load_loop-Batches :
      (txs batch : List Transaction)
      → length batch ≤ 1024
      → Batches (batch ++ txs) (load_loop add txs batch)
  unfolding load_loop
  load_loop-Batches [] [] small = ([], λ p. refl, refl, tt)
  load_loop-Batches [] (b ∷ batch) small =
      let some_txs : ltb 0 (length (b ∷ batch)) ≡ true = ground arith in
      ((b ∷ batch) ∷ [], λ p. rw some_txs refl, refl, ((omega arith, omega (arith, small)), tt))
  load_loop-Batches (tx ∷ txs) batch small =
      let longer : length (batch ++ tx ∷ []) ≡ length batch + 1 = length-append batch (tx ∷ []) in
      elim (Bool-cases (ltb 1024 (length (batch ++ tx ∷ [])))) [
        | inl b ↦
            let rest = load_loop-Batches txs [] (omega arith) in
            (
              (batch ++ tx ∷ []) ∷ rest.0,
              λ p. rw b (
                  ap (λ next. add (batch ++ tx ∷ []) p >>= next)
                    (fun_ext (λ added. rest.1 added.1))),
              rw rest.2 (append_assoc batch (tx ∷ []) txs),
              ((omega (arith, longer), omega (arith, longer, small)), rest.3),
            )
        | inr b ↦
            let rest = load_loop-Batches txs (batch ++ tx ∷ []) (ground (arith, b)) in
            (rest.0, λ p. rw b (rest.1 p), rest.2 ∙ append_assoc batch (tx ∷ []) txs, rest.3)
      ]

map-snoc :
    (txs : List Transaction) (tx : Transaction)
    → map decoded (txs ++ tx ∷ []) ≡ map decoded txs ++ decoded tx ∷ []
map-snoc [] tx = refl
map-snoc (t ∷ txs) tx = ap (◌∷◌ (decoded t)) (map-snoc txs tx)

module _ (os : Os) where
  -- a journal that is written to, with its records
  abbrev Holds : List Transaction → TxJournal → Type 0
  Holds txs j =
      (j.writer ≡ sink) × (j.file ≡ some (record { txs = map decoded txs; broken = false }))

  -- `insert` of one transaction after the other, up to the first error
  abbrev pub insert_each : List Transaction → Option Error × TxJournal → Option Error × TxJournal
  insert_each [] j = j
  insert_each (tx ∷ txs) (some e, j) = (some e, j)
  insert_each (tx ∷ txs) (none, j) = insert_each txs (insert os tx j)

  replace-Holds :
      (txs : List Transaction) (j : TxJournal)
      → (replace os txs j).0 ≡ none
      → Holds txs (replace os txs j).1
  unfolding replace
  replace-Holds txs j done = elim (Option-cases os.rename_file) [
    | inr c ↦ absurd (cc (rw (replace, c.1) at done))
    | inl c ↦ elim (Option-cases os.append_file) [
      | inr a ↦ absurd (cc (rw (replace, c, a.1) at done))
      | inl a ↦ rw (replace, c, a) (refl, refl)
    ]
  ]

  write_replacement-Holds :
      (all : List (Address × List Transaction)) (j : TxJournal)
      → (write_replacement os all j).0 ≡ none
      → Holds (all_txs all) (write_replacement os all j).1
  unfolding write_replacement
  write_replacement-Holds all j done = elim (Option-cases os.create_file) [
    | inr c ↦ absurd (cc (rw (write_replacement, c.1) at done))
    | inl c ↦ elim (Option-cases (encode_each os (all_txs all))) [
      | inr e ↦ absurd (cc (rw (write_replacement, c, e.1) at done))
      | inl e ↦
          rw (write_replacement, c, e)
            (replace-Holds (all_txs all) j (rw (write_replacement, c, e) at done))
    ]
  ]

  rotate-Holds :
      (all : List (Address × List Transaction)) (j : TxJournal)
      → (rotate os all j).0 ≡ none
      → Holds (all_txs all) (rotate os all j).1
  unfolding rotate
  rotate-Holds all j done = elim (Option-cases (close_error os j.writer)) [
    | inr c ↦ absurd (cc (rw (rotate, c.1) at done))
    | inl c ↦
        rw (rotate, c)
          (write_replacement-Holds all (record j { writer = closed }) (rw (rotate, c) at done))
  ]

  insert-Holds :
      (tx : Transaction) (txs : List Transaction) (j : TxJournal)
      → Holds txs j
      → (insert os tx j).0 ≡ none
      → Holds (txs ++ tx ∷ []) (insert os tx j).1
  unfolding insert change_file append_tx
  insert-Holds tx txs j holds done = elim (Option-cases (os.write tx)) [
    | inr c ↦ absurd (cc (rw (insert, holds.0, c.1) at done))
    | inl c ↦
        rw (insert, holds.0, c, change_file, holds.1)
          (holds.0, ap (λ l. some (record { txs = l; broken = false })) (sym (map-snoc txs tx)))
  ]

  insert_each-started :
      (new : List Transaction) (j : Option Error × TxJournal)
      → (insert_each new j).0 ≡ none
      → j.0 ≡ none
  insert_each-started [] j done = done
  insert_each-started (tx ∷ new) (some error, j) done = done
  insert_each-started (tx ∷ new) (none, j) done = refl

  insert_each-Holds :
      (new txs : List Transaction) (j : Option Error × TxJournal)
      → Holds txs j.1
      → j.0 ≡ none
      → (insert_each new j).0 ≡ none
      → Holds (txs ++ new) (insert_each new j).1
  insert_each-Holds [] txs j holds e done = rw (append-nil txs) holds
  insert_each-Holds (tx ∷ new) txs (some error, j) holds e done = absurd (cc e)
  insert_each-Holds (tx ∷ new) txs (none, j) holds e done =
      let first = insert_each-started new (insert os tx j) done in
      let rest =
        insert_each-Holds new (txs ++ tx ∷ []) (insert os tx j) (insert-Holds tx txs j holds first)
          first done in
      subst (λ all. Holds all (insert_each new (insert os tx j)).1) (append_assoc txs (tx ∷ []) new)
        rest

module _ {P : Type 0} (add : Adds P) (os : Os) where
  -- After a rotation of the journal and the insertion of further transactions, with no error, `load`
  -- returns no error if the file opens, adds exactly these transactions, with zeros for the numbers
  -- that are nil, each once and in order, in batches of 1 to 1025, and leaves no writer open.
  pub load-restores :
      (all : List (Address × List Transaction)) (new : List Transaction) (j j' : TxJournal)
      → insert_each os new (rotate os all j) ≡ (none, j')
      → os.open_file ≡ none
      → (batches : List (List Transaction)) × ((p : P)
          → load add os j' p
            ≡ (add_each add batches p >>= λ p'. ok (none, (record j' { writer = closed }, p'))))
        × (concat batches ≡ map decoded (all_txs all ++ new))
        × All (λ batch. (1 ≤ length batch) × (length batch ≤ 1025)) batches
  unfolding load
  load-restores all new j j' done opened =
      let no_error : (insert_each os new (rotate os all j)).0 ≡ none = ap (λ r. r.0) done in
      let first = insert_each-started os new (rotate os all j) no_error in
      let holds =
        insert_each-Holds os new (all_txs all) (rotate os all j) (rotate-Holds os all j first) first
          no_error in
      let file : j'.file
          ≡ some (record { txs = map decoded (all_txs all ++ new); broken = false }) =
        ap (λ r. r.1.file) (sym done) ∙ holds.1 in
      let loaded = load_loop-Batches add (map decoded (all_txs all ++ new)) [] (omega arith) in
      (loaded.0, λ p. rw (load, file, opened, loaded.1 p, file) refl, loaded.2, loaded.3)
