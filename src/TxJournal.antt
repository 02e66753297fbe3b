-- ===== src/TxJournal.antt =====
-- core/tx_journal.go: the file in which the pool keeps its local transactions. The file is what
-- decoding it gives; what the operating system and the codec answer is a parameter.
pub mod Restores
pub mod Empties
use plasma.Bytes.{Address}
use plasma.Prelude.{
  ◌+◌, Bool, false, Option, none, some, List, [], ◌∷◌, ◌++◌, map, ltb, if◌then◌else◌, length,
}
use plasma.Prelude.Outcome.{no_active_journal, external, Outcome, ok, ◌>>=◌, ◌>>◌, Error}
use plasma.Types.Transaction.{Transaction, decoded}

pub data Writer : Type 0 where
  closed dev_null sink : Writer

-- the transactions that a reader decodes, and whether an error follows them instead of the end
pub record File : Type 0 where
  pub txs : List Transaction
  pub broken : Bool

-- the struct, and the file at its path if there is one
pub record TxJournal : Type 0 where
  pub writer : Writer
  pub file : Option File

-- the errors of the calls, `none` for nil, and what a failed write leaves in the file
pub record Os : Type 0 where
  pub open_file : Option Error
  pub create_file : Option Error
  pub append_file : Option Error
  pub rename_file : Option Error
  pub close_file : Option Error
  pub encode : Transaction → Option Error
  pub write : Transaction → Option Error
  pub torn : File → File

-- nothing behind a broken record is decoded
append_tx : Transaction → File → File
append_tx tx f = if f.broken then f else record f { txs = f.txs ++ decoded tx ∷ [] }

change_file : (File → File) → TxJournal → TxJournal
change_file g j = elim j.file [ none ↦ j | some f ↦ record j { file = some (g f) } ]

-- the journaled transactions of all accounts, in the order of the map's range
abbrev pub all_txs : List (Address × List Transaction) → List Transaction
all_txs [] = []
all_txs ((addr, txs) ∷ rest) = txs ++ all_txs rest

module _ (os : Os) where
  unfoldable pub insert : Transaction → TxJournal → Option Error × TxJournal
  unfolding append_tx change_file
  insert tx j = elim j.writer [
    | closed ↦ (some no_active_journal, j)
    | dev_null ↦ (os.encode tx, j)
    | sink ↦ elim (os.write tx) [
      | none ↦ (none, change_file (append_tx tx) j)
      | some e ↦ (some e, change_file os.torn j)
    ]
  ]

  -- the error of `Close` where a writer is open
  close_error : Writer → Option Error
  close_error sink = os.close_file
  close_error dev_null = none
  close_error closed = none

  -- `close`
  unfoldable pub close_journal : TxJournal → Option Error × TxJournal
  unfolding close_error
  close_journal j = (close_error j.writer, record j { writer = closed })

  -- the first error of the encodings
  encode_each : List Transaction → Option Error
  encode_each [] = none
  encode_each (tx ∷ txs) =
      let rest = encode_each txs in elim (os.encode tx) [ some e ↦ some e | none ↦ rest ]

  -- once the replacement is written
  replace : List Transaction → TxJournal → Option Error × TxJournal
  replace txs j =
      let j' : TxJournal = record j {
        file = some (record { txs = map decoded txs; broken = false });
      } in
      elim os.rename_file [
        | some e ↦ (some e, j)
        | none ↦ elim os.append_file [
          | some e ↦ (some e, j')
          | none ↦ (none, record j' { writer = sink })
        ]
      ]

  write_replacement : List (Address × List Transaction) → TxJournal → Option Error × TxJournal
  unfolding encode_each replace
  write_replacement all j = elim os.create_file [
    | some e ↦ (some e, j)
    | none ↦ elim (encode_each (all_txs all)) [
      | some e ↦ (some e, j)
      | none ↦ replace (all_txs all) j
    ]
  ]

  unfoldable pub rotate : List (Address × List Transaction) → TxJournal → Option Error × TxJournal
  unfolding close_error write_replacement
  rotate all j = elim (close_error j.writer) [
    | some e ↦ (some e, j)
    | none ↦ write_replacement all (record j { writer = closed })
  ]

-- `add`, which gives one error or nil for each transaction
abbrev pub Adds : Type 0 → Type 0
Adds P = List Transaction → P → Outcome (List (Option Error) × P)

module _ {P : Type 0} (add : Adds P) where
  -- the loop over the decoded transactions, which adds them in batches
  unfoldable pub load_loop : List Transaction → List Transaction → P → Outcome P
  load_loop [] batch p = if ltb 0 (length batch) then (do added ← add batch p; ok added.1) else ok p
  load_loop (tx ∷ txs) batch p =
      let more = load_loop txs (batch ++ tx ∷ []) in
      let next = load_loop txs [] in
      if ltb 1024 (length (batch ++ tx ∷ []))
      then (do added ← add (batch ++ tx ∷ []) p; next added.1)
      else more p

  -- `load`; a missing file is no error. What `add` inserts meanwhile goes to `dev_null`, so the file
  -- does not change.
  unfoldable pub load : Os → TxJournal → P → Outcome (Option Error × (TxJournal × P))
  unfolding load_loop
  load os j p = elim j.file [
    | none ↦ ok (none, (j, p))
    | some f ↦ elim os.open_file [
      | some e ↦ ok (some e, (j, p))
      | none ↦ do
        added ← load_loop f.txs [] p
        ok (if f.broken then some external else none, (record j { writer = closed }, added))
    ]
  ]
