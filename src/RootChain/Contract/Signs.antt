-- ===== src/RootChain/Contract/Signs.antt =====
-- network/httphandlers/action.go: what a successful answer to `AfterSign` stands for.
use plasma.Bytes.{Bytes}
use plasma.Prelude.{◌≡◌, refl, ap, inl, inr, true, Option, none, some, Option-cases}
use plasma.Prelude.Outcome.{Error}
use plasma.RootChain.Contract.{
  ContractClient, ActionRequest, deposit_response, after_sign_response, call_deposit,
  deposit_action, after_sign_action, deposit_call, prepared, confirmed, signed_call,
}

module _ {K X W : Type 0} (client : ContractClient K X W) where
  confirmed-none :
      (r : Option Error × W) (w' : W)
      → confirmed (some client) r ≡ (after_sign_response true, w')
      → r ≡ (none, w')
  unfolding confirmed
  confirmed-none (some x, w) w' e = absurd (cc e)
  confirmed-none (none, w) w' e = ap (λ p. (none, p.1)) e

  -- The answer of AfterSign to a request is true only if Deposit, on the same state and the same
  -- request, gave the hash of a transaction, and this transaction was confirmed without an error
  -- with the signature of the request.
  pub after_sign_action-Confirms :
      (req : ActionRequest) (w w' : W)
      → after_sign_action (some client) (some req) w ≡ (after_sign_response true, w')
      → (from : Bytes) × (tx : X) × (sig : Bytes) × (req.owner ≡ some from)
        × (req.sig ≡ some sig)
        × (client.call_with_abi from client.hex_address (call_deposit req.amount) w ≡ some tx)
        × (client.confirm_trans tx sig w ≡ (none, w'))
        × (deposit_action (some client) (some req) w
            ≡ deposit_response (client.transaction_hash tx))
  unfolding after_sign_action deposit_action signed_call deposit_call prepared
  after_sign_action-Confirms req w w' e = elim (Option-cases req.owner) [
    | inl no_owner ↦ absurd (cc (rw no_owner at e))
    | inr (from, owner) ↦
        let called = rw owner at e in
        elim (Option-cases
          (client.call_with_abi from client.hex_address (call_deposit req.amount) w)) [
            | inl no_tx ↦ absurd (cc (rw no_tx at called))
            | inr (tx, made) ↦
                let signing = rw made at called in
                elim (Option-cases req.sig) [
                  | inl no_sig ↦ absurd (cc (rw no_sig at signing))
                  | inr (sig, signed) ↦
                      let result = rw signed at signing in
                      (
                        from,
                        tx,
                        sig,
                        owner,
                        signed,
                        made,
                        confirmed-none (client.confirm_trans tx sig w) w' result,
                        rw owner (rw made refl),
                      )
                ]
          ]
  ]
