-- ===== src/TxValidator/Total.antt =====
-- `Validate` returns: it never ends the process, and never lets a deposit through.
use plasma.Bytes.{Address}
use plasma.Prelude.{
  sym, true, inr, inl, false, ap, ◌∙◌, if◌then◌else◌, arith, Bool-cases, ◌≡◌, some, ℕ, Option, Bool,
}
use plasma.Prelude.Int.{neg_part, pos_part, int_laws, +ℤ_zero, ◌+ℤ◌, ◌≤ℤ◌, pos, ℤ}
use plasma.Prelude.Outcome.{return_if, err, ◌>>=◌, ok, Error, Outcome}
use plasma.TxValidator.{validate}
use plasma.TxValidator.Accepts.{Spends, Pays, validate-Accepts}
use plasma.Types.Transaction.{is_deposit_tx, Transaction}
use plasma.Types.Utxo.{Utxo, UtxoId}

-- the call gives a value or an error
pub data Returns {ℓ} {A : Type ℓ} : Outcome A → Type ℓ where
  value : (a : A) → Returns (ok a)
  error : (e : Error) → Returns (err e)

pub Returns-bind {ℓ κ} :
    {A : Type ℓ} {B : Type κ} (m : Outcome A) (f : A → Outcome B)
    → Returns m
    → ((a : A) → Returns (f a))
    → Returns (m >>= f)
Returns-bind _ f (value a) hf = hf a
Returns-bind _ f (error e) hf = error e

pub Returns-return_if : (c : Bool) (e : Error) → Returns (return_if c e)
Returns-return_if true e = error e
Returns-return_if false e = value tt

pub Returns-if {ℓ} :
    {A : Type ℓ} (c : Bool) (m n : Outcome A) → Returns m → Returns n → Returns (if c then m else n)
Returns-if true m n hm hn = hm
Returns-if false m n hm hn = hn

-- a reader that does not panic, and whose records have amounts
pub record IsReader (get : UtxoId → Outcome (Option Utxo)) : Type 0 where
  pub returns : (i : UtxoId) → Returns (get i)
  pub amounts : (i : UtxoId) (u : Utxo) → get i ≡ ok (some u) → (a : ℤ) × (u.out.amount ≡ some a)

nothing_spent :
    (v0 v1 w0 w1 fee : ℤ)
    → v0 ≡ pos 0
    → v1 ≡ pos 0
    → pos 0 ≤ℤ w0
    → pos 0 ≤ℤ w1
    → pos 1 ≤ℤ fee
    → v0 +ℤ v1 ≡ w0 +ℤ w1 +ℤ fee
    → ⊥
nothing_spent v0 v1 w0 w1 fee p q a b c e =
    let zero_sum : w0 +ℤ w1 +ℤ fee ≡ pos 0 = sym e ∙ rw (p, q) (+ℤ_zero (pos 0)) in
    omega (int_laws, ap pos_part zero_sum, ap neg_part zero_sum)

module _ (size_of : Transaction → ℕ) (sender_of : Transaction → Outcome (Address × Address))
    (get : UtxoId → Outcome (Option Utxo)) where
  Pays-nonneg : (o : Option ℤ) (v : ℤ) → Pays o v → pos 0 ≤ℤ v
  Pays-nonneg o v (Pays.absent z e) = rw e (omega arith)
  Pays-nonneg o v (Pays.present z p) = p

  Spends-null : (i : Utxo) (a : Address) (v : ℤ) → Spends get i a v → i.id.block_num ≡ 0 → v ≡ pos 0
  Spends-null i a v (Spends.null z e) n = e
  Spends-null i a v (Spends.owned u m g o e) n = absurd (m n)

  -- A transaction whose two inputs both name block 0, as a deposit's do, is never let through.
  pub validate_rejects_deposit :
      (tx : Transaction) → validate size_of sender_of get tx ≡ ok tt → is_deposit_tx tx ≡ false
  validate_rejects_deposit tx h =
      let a = validate-Accepts size_of sender_of get tx h in
      elim (Bool-cases (is_deposit_tx tx)) [
        | inr n ↦ n
        | inl y ↦
            let z0 : a.in0 ≡ pos 0 =
              Spends-null tx.ins.0 a.senders.0 a.in0 a.spends0
                (unfold is_deposit_tx in ground arith) in
            let z1 : a.in1 ≡ pos 0 =
              Spends-null tx.ins.1 a.senders.1 a.in1 a.spends1
                (unfold is_deposit_tx in ground arith) in
            absurd (
              nothing_spent a.in0 a.in1 a.out0 a.out1 tx.fee z0 z1 (Pays-nonneg _ _ a.pays0)
                (Pays-nonneg _ _ a.pays1) a.fee_positive a.conserves)
      ]
