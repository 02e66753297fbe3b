-- ===== src/Signing/ChainZero.antt =====
-- With the chain identifier 0 `SignatureValues` keeps the form of 27 and 28, but `Sender` subtracts 8
-- from it all the same.
use plasma.Bytes.{Address, Hash}
use plasma.Prelude.{
  ℕ, ◌+◌, ◌*◌, ◌≤◌, ◌≡◌, subst, inl, inr, true, false, some, arith, ltb, ◌==◌, Bool-cases,
}
use plasma.Prelude.Int.{int_laws, ◌-ℤ◌, pos}
use plasma.Prelude.Outcome.{ok-injective, invalid_sig, ok, err}
use plasma.Signing.{
  recovery_byte, signed_hash, eip155_values, with_signature, derive_chain_id, sign_tx,
  recover_plain, sender, recover_one, Signer, sign_second,
}
use plasma.Signing.RoundTrip.{Signs, signature_values-layout}
use plasma.Types.Transaction.{Transaction}

module _ {K : Type 0} (c : Signer K) where
  recover_one-zero :
      (hash : Hash) (v r s : ℕ)
      → ((w r' s' : ℕ) → c.libraries.valid_signature w r' s' ≡ true → w ≤ 1)
      → v ≤ 1
      → recover_one c 0 hash (some (record { v = v + 27; r = r; s = s })) ≡ err invalid_sig
  unfolding recover_one recover_plain derive_chain_id
  recover_one-zero hash v r s bits h =
      let e : (derive_chain_id (v + 27) == 0) ≡ true = ground (arith, h) in
      let n : pos (v + 27) -ℤ pos (0 * 2) -ℤ pos 8 ≡ pos (v + 19) = omega int_laws in
      let small : ltb 255 (v + 19) ≡ false = ground (arith, h) in
      let refused : c.libraries.valid_signature (recovery_byte (pos (v + 19))) r s ≡ false =
        elim (Bool-cases (c.libraries.valid_signature (recovery_byte (pos (v + 19))) r s)) [
          | inl y ↦ absurd (omega (arith, bits _ r s y, h))
          | inr n ↦ n
        ] in
      rw (e, n, small, refused)

  -- If only the recovery bits 0 and 1 are valid, then on a chain with the identifier 0 every
  -- transaction that `SignTx` gives for two keys that sign is refused by `Sender`.
  pub sender-chain_zero :
      (tx t : Transaction) (key1 key2 : K) {a1 a2 : Address}
      → ((w r s : ℕ) → c.libraries.valid_signature w r s ≡ true → w ≤ 1)
      → Signs c (signed_hash c 0 tx) key1 a1
      → Signs c (signed_hash c 0 tx) key2 a2
      → sign_tx c 0 tx key1 (some key2) ≡ ok t
      → sender c 0 t ≡ err invalid_sig
  unfolding sender sign_tx sign_second with_signature eip155_values
  sender-chain_zero tx t key1 key2 bits s1 s2 e =
      let p = signature_values-layout s1.r s1.s s1.v s1.r_fits s1.s_fits s1.bit in
      let q = signature_values-layout s2.r s2.s s2.v s2.r_fits s2.s_fits s2.bit in
      let e' = rw (s1.signed, s2.signed, p.0, q.0) at e in
      subst (λ u. sender c 0 u ≡ err invalid_sig) (ok-injective e')
        (rw (recover_one-zero _ s1.v s1.r s1.s bits s1.bit))
