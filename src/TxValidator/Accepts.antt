-- ===== src/TxValidator/Accepts.antt =====
-- What an accepted transaction is, said without the order of the checks.
use mathlib.Core.Bool.{false≢true}
use plasma.Bytes.{Address}
use plasma.Prelude.{
  ap, ◌↔◌, ==-refl, ltb, if◌then◌else◌, refl, true, inr, ==_iff, false, arith, ◌∙◌, ◌==◌, inl, sym,
  Option-cases, Bool-cases, ◌*◌, some, ◌≤◌, ◌≢◌, none, ◌≡◌, ℕ, Option,
}
use plasma.Prelude.Int.{zero-+ℤ, leb_ℤ, int_laws, eqb_ℤ, ◌≤ℤ◌, +ℤ_zero, ◌+ℤ◌, pos, ℤ}
use plasma.Prelude.Outcome.{
  tx_total_amount_not_equal, return_if-eq-ok, >>=-eq-ok, err-ne-ok, err, ok-injective, ◌>>=◌, ok,
  Outcome,
}
use plasma.TxValidator.{or_invalid_sender, check_input, check_output, spend_found, validate}
use plasma.Types.Transaction.{Transaction}
use plasma.Types.Utxo.{id_equals→eq, id_equals, id_equals_refl, utxo_equals, Utxo, UtxoId}

-- `v` is what the output pays: nothing where it has no amount
pub data Pays (amount : Option ℤ) (v : ℤ) : Type 0 where
  absent : amount ≡ none → v ≡ pos 0 → Pays amount v
  present : amount ≡ some v → pos 0 ≤ℤ v → Pays amount v

check_output-Pays :
    (o : Option ℤ) (t r : ℤ) → check_output o t ≡ ok r → (v : ℤ) × Pays o v × (r ≡ t +ℤ v)
unfolding check_output
check_output-Pays none t r h = (pos 0, absent refl refl, sym (+ℤ_zero t ∙ (ok-injective h)))
check_output-Pays (some a) t r h = elim (Bool-cases (eqb_ℤ a (pos 0))) [
  | inl z ↦
      let e : r ≡ t = sym (ok-injective (rw z at h)) in
      (a, present refl (ground arith), rw e (omega (int_laws, (==_iff _ _).0 z)))
  | inr n ↦ elim (Bool-cases (leb_ℤ a (pos 0))) [
    | inl l ↦ absurd (err-ne-ok (rw (n, l) at h))
    | inr l ↦ (a, present refl (ground arith), sym (ok-injective (rw (n, l) at h)))
  ]
]

Pays-check_output : (o : Option ℤ) (t v : ℤ) → Pays o v → check_output o t ≡ ok (t +ℤ v)
unfolding check_output
Pays-check_output o t v (absent z e) = rw (z, e, +ℤ_zero t)
Pays-check_output o t v (present z p) = rw z (elim (Bool-cases (eqb_ℤ v (pos 0))) [
  | inl y ↦ let e : t +ℤ v ≡ t = omega (int_laws, (==_iff _ _).0 y) in rw (y, e)
  | inr n ↦ let l : leb_ℤ v (pos 0) ≡ false = ground arith in rw (n, l)
])

module _ (get : UtxoId → Outcome (Option Utxo)) where
  -- `v` is what the input brings: nothing where it names block 0, else the amount of an unspent
  -- output that the sender owns
  pub data Spends (i : Utxo) (sender : Address) (v : ℤ) : Type 0 where
    null : i.id.block_num ≡ 0 → v ≡ pos 0 → Spends i sender v
    owned :
        (u : Utxo)
        → i.id.block_num ≢ 0
        → get i.id ≡ ok (some u)
        → u.out.owner ≡ sender
        → u.out.amount ≡ some v
        → Spends i sender v

  found-Spends :
      (i : Utxo) (a : Address) (t r : ℤ) (f : Outcome (Option Utxo))
      → i.id.block_num ≢ 0
      → get i.id ≡ f
      → (f >>= spend_found a t) ≡ ok r
      → (v : ℤ) × Spends i a v × (r ≡ t +ℤ v)
  found-Spends i a t r (ok none) n g h = absurd (cc h)
  found-Spends i a t r (ok (some u)) n g h = elim (Option-cases u.out.amount) [
    | inl e ↦ absurd (ground arith)
    | inr (v, e) ↦ (v, owned u n g (ground arith) e, ground arith)
  ]
  found-Spends i a t r (err e) n g h = absurd (cc h)
  found-Spends i a t r Outcome.panic n g h = absurd (cc h)

  check_input-Spends :
      (i : Utxo) (a : Address) (t r : ℤ)
      → check_input get i a t ≡ ok r
      → (v : ℤ) × Spends i a v × (r ≡ t +ℤ v)
  unfolding check_input
  check_input-Spends i a t r h = elim (Bool-cases (i.id.block_num == 0)) [
    | inl z ↦ (pos 0, null (ground arith) refl, sym (+ℤ_zero t ∙ ok-injective (rw z at h)))
    | inr n ↦ found-Spends i a t r (get i.id) (ground arith) refl (rw n at h)
  ]

  Spends-check_input :
      (i : Utxo) (a : Address) (t v : ℤ) → Spends i a v → check_input get i a t ≡ ok (t +ℤ v)
  unfolding check_input
  Spends-check_input i a t v (null z e) = rw (z, e, +ℤ_zero t)
  Spends-check_input i a t v (owned u n g o m) =
      let p : (i.id.block_num == 0) ≡ false = ground arith in
      let q : (u.out.owner == a) ≡ true = ground arith in rw (p, g, q, m)

fee_lem : (tx : Transaction) → leb_ℤ tx.fee (pos 0) ≡ false → pos 1 ≤ℤ tx.fee
fee_lem tx h = ground arith

balance_lem :
    (v0 v1 w0 w1 fee : ℤ) {a b c e : ℤ}
    → a ≡ pos 0 +ℤ v0
    → b ≡ a +ℤ v1
    → c ≡ pos 0 +ℤ w0
    → e ≡ c +ℤ w1
    → (if eqb_ℤ b (e +ℤ fee) then ok tt else err tx_total_amount_not_equal) ≡ ok (tt {0})
    → v0 +ℤ v1 ≡ w0 +ℤ w1 +ℤ fee
balance_lem v0 v1 w0 w1 fee {a} {b} {c} {e} p q r s h = elim (Bool-cases (eqb_ℤ b (e +ℤ fee))) [
  | inl y ↦
      let sum : b ≡ e +ℤ fee = omega (int_laws, (==_iff _ _).0 y) in
      let ins : b ≡ v0 +ℤ v1 = rw (q, p, zero-+ℤ v0) in
      let outs : e ≡ w0 +ℤ w1 = rw (s, r, zero-+ℤ w0) in sym ins ∙ sum ∙ ap (λ z. z +ℤ fee) outs
  | inr n ↦ absurd (err-ne-ok (rw n at h))
]

or_invalid_sender-eq-ok :
    (o : Outcome (Address × Address)) (s : Address × Address)
    → or_invalid_sender o ≡ ok s
    → o ≡ ok s
or_invalid_sender-eq-ok (ok a) s h = h
or_invalid_sender-eq-ok (err e) s h = absurd (err-ne-ok h)
or_invalid_sender-eq-ok Outcome.panic s h = absurd (cc h)

utxo_equals-distinct : (u w : Utxo) → (utxo_equals u w ≡ false) ↔ (u.id ≢ w.id)
unfolding utxo_equals
utxo_equals-distinct u w = (
  λ h e. false≢true (sym h ∙ rw e (id_equals_refl w.id)),
  λ n. elim (Bool-cases (id_equals u.id w.id)) [
    | inl e ↦ absurd (n (id_equals→eq u.id w.id e))
    | inr e ↦ e
  ],
)

module _ (size_of : Transaction → ℕ) (sender_of : Transaction → Outcome (Address × Address))
    (get : UtxoId → Outcome (Option Utxo)) where
  pub record Accepts (tx : Transaction) : Type 0 where
    pub fits : size_of tx ≤ 32 * 1024
    pub fee_positive : pos 1 ≤ℤ tx.fee
    pub senders : Address × Address
    pub signed : sender_of tx ≡ ok senders
    pub distinct : tx.ins.0.id ≢ tx.ins.1.id
    pub in0 : ℤ
    pub in1 : ℤ
    pub out0 : ℤ
    pub out1 : ℤ
    pub spends0 : Spends get tx.ins.0 senders.0 in0
    pub spends1 : Spends get tx.ins.1 senders.1 in1
    pub pays0 : Pays tx.outs.0.amount out0
    pub pays1 : Pays tx.outs.1.amount out1
    pub conserves : in0 +ℤ in1 ≡ out0 +ℤ out1 +ℤ tx.fee

  fits_lem : (tx : Transaction) → ltb (32 * 1024) (size_of tx) ≡ false → size_of tx ≤ 32 * 1024
  fits_lem tx h = ground arith

  -- What `Validate` lets through is within the size limit, has a positive fee, is signed, has two
  -- different inputs that belong to the signers, and brings in exactly what its outputs and its fee
  -- take.
  pub validate-Accepts : (tx : Transaction) → validate size_of sender_of get tx ≡ ok tt → Accepts tx
  unfolding validate
  validate-Accepts tx h =
      let (_, size, h) = >>=-eq-ok _ _ h in
      let (_, fee, h) = >>=-eq-ok _ _ h in
      let (senders, signed, h) = >>=-eq-ok _ _ h in
      let (_, different, h) = >>=-eq-ok _ _ h in
      let (first_in, c0, h) = >>=-eq-ok _ _ h in
      let (total_in, c1, h) = >>=-eq-ok _ _ h in
      let (first_out, d0, h) = >>=-eq-ok _ _ h in
      let (total_out, d1, balanced) = >>=-eq-ok _ _ h in
      let (v0, s0, e0) = check_input-Spends get tx.ins.0 senders.0 (pos 0) first_in c0 in
      let (v1, s1, e1) = check_input-Spends get tx.ins.1 senders.1 first_in total_in c1 in
      let (w0, p0, f0) = check_output-Pays tx.outs.0.amount (pos 0) first_out d0 in
      let (w1, p1, f1) = check_output-Pays tx.outs.1.amount first_out total_out d1 in
      record {
        fits = fits_lem tx (return_if-eq-ok _ _ size);
        fee_positive = fee_lem tx (return_if-eq-ok _ _ fee);
        senders = senders;
        signed = or_invalid_sender-eq-ok _ _ signed;
        distinct = (utxo_equals-distinct tx.ins.0 tx.ins.1).0 (return_if-eq-ok _ _ different);
        in0 = v0;
        in1 = v1;
        out0 = w0;
        out1 = w1;
        spends0 = s0;
        spends1 = s1;
        pays0 = p0;
        pays1 = p1;
        conserves = balance_lem v0 v1 w0 w1 tx.fee e0 e1 f0 f1 balanced;
      }

  -- Whatever is such a transaction, `Validate` lets through.
  pub Accepts-validate : (tx : Transaction) → Accepts tx → validate size_of sender_of get tx ≡ ok tt
  unfolding validate
  Accepts-validate tx a =
      let size : ltb (32 * 1024) (size_of tx) ≡ false = ground (arith, a.fits) in
      let fee : leb_ℤ tx.fee (pos 0) ≡ false = ground (arith, a.fee_positive) in
      let different = (utxo_equals-distinct tx.ins.0 tx.ins.1).1 a.distinct in
      let balanced : eqb_ℤ (a.in0 +ℤ a.in1) (a.out0 +ℤ a.out1 +ℤ tx.fee) ≡ true =
        rw a.conserves (==-refl _) in
      rw (
        size,
        fee,
        a.signed,
        different,
        Spends-check_input get tx.ins.0 a.senders.0 (pos 0) a.in0 a.spends0,
        zero-+ℤ a.in0,
        Spends-check_input get tx.ins.1 a.senders.1 a.in0 a.in1 a.spends1,
        Pays-check_output tx.outs.0.amount (pos 0) a.out0 a.pays0,
        zero-+ℤ a.out0,
        Pays-check_output tx.outs.1.amount a.out0 a.out1 a.pays1,
        balanced,
      )

  -- Validate lets through exactly the transactions of at most 32768 bytes with a fee of 1 or more,
  -- two signers, and two inputs with different identities, each of which names block 0 and brings
  -- nothing, or an output that the reader finds, with an amount, owned by that input's signer; whose
  -- outputs each have no amount or one of zero or more; and whose inputs bring in exactly what the
  -- outputs and the fee take.
  pub validate-iff-Accepts :
      (tx : Transaction) → (validate size_of sender_of get tx ≡ ok tt) ↔ Accepts tx
  validate-iff-Accepts tx = (validate-Accepts tx, Accepts-validate tx)
