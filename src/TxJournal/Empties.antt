-- ===== src/TxJournal/Empties.antt =====
-- core/tx_journal.go: the rotation of no transactions.
use plasma.Prelude.{◌≡◌, refl, false, none, some, []}
use plasma.TxJournal.{
  Writer, closed, dev_null, sink, TxJournal, Os, close_error, encode_each, replace,
  write_replacement, rotate,
}

close_error-none : (os : Os) (w : Writer) → os.close_file ≡ none → close_error os w ≡ none
unfolding close_error
close_error-none os closed c = refl
close_error-none os dev_null c = refl
close_error-none os sink c = c

-- with no error of the operating system a rotation of nothing leaves an empty file
pub rotate-nil :
    (os : Os) (j : TxJournal)
    → os.close_file ≡ none
    → os.create_file ≡ none
    → os.rename_file ≡ none
    → os.append_file ≡ none
    → rotate os [] j
      ≡ (none, record { writer = sink; file = some (record { txs = []; broken = false }) })
unfolding rotate write_replacement encode_each replace
rotate-nil os j c r n a =
    let shut = close_error-none os j.writer c in
    rw (rotate, shut, write_replacement, r, replace, n, a) refl
