-- ===== src/Operator/Writes.antt =====
-- What `Operator.WriteBlock` writes, and that each of its parts, in a transaction, adds its share
-- to the pending writes and returns no error.
use plasma.Bytes.{put_uint, Bytes}
use plasma.Operator.{update_utxos, put_outputs, and_then, if_nil, del_inputs, new_utxo}
use plasma.Prelude.{
  ℕ, ◌+◌, ◌≡◌, refl, sym, ◌∙◌, subst, Bool, Option, none, some, List, [], ◌∷◌, ◌++◌, append_assoc,
  append-nil, if◌then◌else◌, All,
}
use plasma.Prelude.Int.{abs, ℤ}
use plasma.Prelude.Outcome.{Outcome, ok, Error}
use plasma.RawDb.Accessors.{write_utxo, delete_utxo, encode_utxo}
use plasma.RawDb.Schema.{
  head_fast_block_key, head_header_key, head_block_key, header_hash_key, utxo_key,
}
use plasma.Store.{Database, Write, put, delete}
use plasma.Store.Laws.{IsStore, View}
use plasma.Types.Block.{number_u64, Block}
use plasma.Types.External.{block_hash, External}
use plasma.Types.Transaction.{get_outs_copy, get_ins_copy, Transaction}
use plasma.Types.Utxo.{UtxoId, Utxo, TxOut}
use plasma.UtxoSet.{put_utxo, del_utxo}

abbrev pub key_of : UtxoId → Bytes
key_of id = utxo_key id.block_num id.tx_index id.out_index

abbrev magnitude : Option ℤ → ℕ
magnitude none = 0
magnitude (some a) = abs a

abbrev pub utxo_write : Utxo → Write
utxo_write u = put (key_of u.id) (encode_utxo u.out.owner (magnitude u.out.amount))

abbrev pub input_writes : List Utxo → List Write
input_writes [] = []
input_writes (i ∷ ins) = delete (key_of i.id) ∷ input_writes ins

abbrev pub output_writes : Block → ℕ → ℕ → List TxOut → List Write
output_writes b t n [] = []
output_writes b t n (o ∷ outs) = utxo_write (new_utxo b t n o) ∷ output_writes b t (n + 1) outs

-- per transaction: both inputs deleted, both outputs put
abbrev pub tx_writes : Block → ℕ → List Transaction → List Write
tx_writes b t [] = []
tx_writes b t (tx ∷ txs) =
    input_writes (get_ins_copy tx)
    ++ (output_writes b t 0 (get_outs_copy tx) ++ tx_writes b (t + 1) txs)

-- an amount that is not the nil pointer
abbrev pub HasAmount : TxOut → Type 0
HasAmount o = (a : ℤ) × (o.amount ≡ some a)

abbrev pub AllPaid : List Transaction → Type 0
AllPaid txs = All (λ tx. HasAmount tx.outs.0 × HasAmount tx.outs.1) txs

-- the new head, and where `b` was not canonical the head header and the fast head too
abbrev pub head_writes : External → Block → Bool → List Write
head_writes x b update =
    let hash = put_uint 32 (block_hash x b) in
    put (header_hash_key (number_u64 b)) hash
    ∷ put head_block_key hash
    ∷ (if update then put head_header_key hash ∷ put head_fast_block_key hash ∷ [] else [])

module _ {S : Type 0} {Models : S → View → Option (List Write) → Type 0} (d : Database S)
    (store : IsStore d Models) where
  -- `r` is no error, with `us` added to the pending writes
  abbrev pub Adds : View → List Write → Option Error × S → Type 0
  Adds view us r = (r.0 ≡ none) × Models r.1 view (some us)

  if_nil-Adds :
      {view : View} (us ws : List Write) (r : Option Error × S) (k : S → Option Error × S)
      → Adds view us r
      → ((s : S) → Models s view (some us) → Adds view ws (k s))
      → Adds view ws (if_nil d r k)
  unfolding if_nil
  if_nil-Adds us ws (none, s) k (e, m) h = h s m
  if_nil-Adds us ws (some z, s) k (e, m) h = cc

  del_inputs-Adds :
      {s : S} {view : View} (ws : List Write) (ins : List Utxo)
      → Models s view (some ws)
      → Adds view (ws ++ input_writes ins) (del_inputs d ins s)
  unfolding del_inputs del_utxo delete_utxo
  del_inputs-Adds {s} {view} ws [] m =
      (refl, subst (λ l. Models s view (some l)) (sym (append-nil ws)) m)
  del_inputs-Adds {s} {view} ws (i ∷ ins) m =
      let k = key_of i.id in
      subst (λ l. Adds view l (del_inputs d (i ∷ ins) s))
        (append_assoc ws (delete k ∷ []) (input_writes ins))
        (if_nil-Adds (ws ++ delete k ∷ []) _ _ (del_inputs d ins) (store.delete_open k m)
          (λ s' m'. del_inputs-Adds {s = s'} (ws ++ delete k ∷ []) ins m'))

  put_utxo-Adds :
      {s : S} {view : View} (ws : List Write) (u : Utxo)
      → HasAmount u.out
      → Models s view (some ws)
      → (r : Option Error × S) × (put_utxo d u s ≡ ok r) × Adds view (ws ++ utxo_write u ∷ []) r
  unfolding put_utxo write_utxo
  put_utxo-Adds {s} {view} ws u (a, e) m = rw e (_, refl, store.put_open _ _ m)

  -- the first part adds `us`, and after it the second adds `ws` in all
  pub and_then-Adds :
      {view : View} (us ws : List Write) (r : Option Error × S) (k : S → Outcome (Option Error × S))
      → Adds view us r
      → ((s : S) → Models s view (some us) → (q : Option Error × S) × (k s ≡ ok q) × Adds view ws q)
      → (q : Option Error × S) × (and_then d r k ≡ ok q) × Adds view ws q
  unfolding and_then
  and_then-Adds us ws (none, s) k (e, m) h = h s m
  and_then-Adds us ws (some z, s) k (e, m) h = cc

  pub put_outputs-Adds :
      {s : S} {view : View} (ws : List Write) (b : Block) (t n : ℕ) (outs : List TxOut)
      → All HasAmount outs
      → Models s view (some ws)
      → (r : Option Error × S) × (put_outputs d b t n outs s ≡ ok r)
        × Adds view (ws ++ output_writes b t n outs) r
  unfolding put_outputs
  put_outputs-Adds {s} {view} ws b t n [] h m =
      ((none, s), refl, (refl, subst (λ l. Models s view (some l)) (sym (append-nil ws)) m))
  put_outputs-Adds {s} {view} ws b t n (o ∷ outs) (ho, h) m =
      let u = new_utxo b t n o in
      let hu : HasAmount u.out = unfold new_utxo in ho in
      let p = put_utxo-Adds ws u hu m in
      let us = ws ++ utxo_write u ∷ [] in
      let q =
        and_then-Adds us (us ++ output_writes b t (n + 1) outs) p.0 (put_outputs d b t (n + 1) outs)
          p.2 (λ s' m'. put_outputs-Adds {s = s'} us b t (n + 1) outs h m') in
      (q.0, rw p.1 q.1, subst (λ l. Adds view l q.0) (append_assoc ws (utxo_write u ∷ []) _) q.2)

  -- The loop over the transactions adds the deletions of all inputs and the outputs, in order.
  pub update_utxos-Adds :
      {s : S} {view : View} (ws : List Write) (b : Block) (t : ℕ) (txs : List Transaction)
      → AllPaid txs
      → Models s view (some ws)
      → (r : Option Error × S) × (update_utxos d b t txs s ≡ ok r)
        × Adds view (ws ++ tx_writes b t txs) r
  unfolding update_utxos
  update_utxos-Adds {s} {view} ws b t [] h m =
      ((none, s), refl, (refl, subst (λ l. Models s view (some l)) (sym (append-nil ws)) m))
  update_utxos-Adds {s} {view} ws b t (tx ∷ txs) (paid, h) m =
      let ins = input_writes (get_ins_copy tx) in
      let outs = output_writes b t 0 (get_outs_copy tx) in
      let paid' : All HasAmount (get_outs_copy tx) =
        unfold get_outs_copy in (paid.0, (paid.1, tt)) in
      let us = ws ++ ins in
      let all = (us ++ outs) ++ tx_writes b (t + 1) txs in
      let q =
        and_then-Adds us all (del_inputs d (get_ins_copy tx) s) _
          (del_inputs-Adds ws (get_ins_copy tx) m)
          (λ s1 m1.
            let p = put_outputs-Adds {s = s1} us b t 0 (get_outs_copy tx) paid' m1 in
            let q =
              and_then-Adds (us ++ outs) all p.0 (update_utxos d b (t + 1) txs) p.2
                (λ s2 m2. update_utxos-Adds {s = s2} (us ++ outs) b (t + 1) txs h m2) in
            (q.0, rw p.1 q.1, q.2)) in
      (
        q.0,
        q.1,
        subst (λ l. Adds view l q.0)
            (append_assoc us outs _ ∙ append_assoc ws ins (outs ++ tx_writes b (t + 1) txs)) q.2,
      )
