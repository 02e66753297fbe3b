-- ===== src/Prelude/Outcome.antt =====
-- What a Go call comes to: a value, a returned `error`, or the end of the process (a panic, or
-- `log.Fatal`).
use mathlib.Core.Bool.{Bool, true, false}
use mathlib.Core.Path.{◌≡◌, refl}

-- The errors of core/error.go, core/types and store that the modelled code returns.
pub data Error : Type 0 where
  known_block invalid_sender oversized_data tx_out_not_owned : Error
  tx_total_amount_not_equal already_spent not_enough_tx_fee : Error
  duplicate_spent invalid_output_amount tx_root_mismatch : Error
  invalid_sig invalid_chain_id invalid_public_key : Error
  known_transaction no_active_journal non_contiguous_insert : Error
  db_race no_open_tx head_not_found no_genesis genesis_mismatch : Error
  future_block unknown_ancestor aborted : Error
  -- an error of a library that the code only passes on
  external : Error

pub data Outcome {ℓ} (A : Type ℓ) : Type ℓ where
  ok : A → Outcome A
  err : Error → Outcome A
  panic : Outcome A

infixl 5 ◌>>=◌ ◌>>◌
abbrev pub ◌>>=◌ {ℓ κ} : {A : Type ℓ} {B : Type κ} → Outcome A → (A → Outcome B) → Outcome B
ok a >>= f = f a
err e >>= f = err e
panic >>= f = panic

abbrev pub ◌>>◌ {ℓ} : {B : Type ℓ} → Outcome (Unit {0}) → Outcome B → Outcome B
m >> k = m >>= λ _. k

-- `if c { return e }`
abbrev pub return_if : Bool → Error → Outcome (Unit {0})
return_if true e = err e
return_if false e = ok tt

-- what a chain that came to a value did first, and then
pub >>=-eq-ok {ℓ κ} :
    {First : Type ℓ} {Next : Type κ} (call : Outcome First) (then_call : First → Outcome Next)
    {result : Next}
    → (call >>= then_call) ≡ ok result
    → (v : First) × (call ≡ ok v) × (then_call v ≡ ok result)
>>=-eq-ok panic then_call run = cc
>>=-eq-ok (err reason) then_call run = cc
>>=-eq-ok (ok v) then_call run = (v, refl, run)

pub return_if-eq-ok : (c : Bool) (e : Error) {u : Unit {0}} → return_if c e ≡ ok u → c ≡ false
return_if-eq-ok true e h = cc
return_if-eq-ok false e h = refl

pub ok-injective {ℓ} : {A : Type ℓ} {a b : A} → ok a ≡ ok b → a ≡ b
ok-injective h = cc

pub err-ne-ok {ℓ} : {A : Type ℓ} {e : Error} {a : A} → err e ≡ ok a → ⊥
err-ne-ok h = cc
