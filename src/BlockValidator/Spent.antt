-- ===== src/BlockValidator/Spent.antt =====
-- A block that passes spends every output at most once.
use plasma.BlockValidator.{mark_found, validate_txs, mark_inputs, is_spent}
use plasma.BlockValidator.Distinct.{
  All-split, Distinct-append, All-rev_onto, spent_not, Apart-tails, not_spent, Apart-sym,
  Apart-heads, Apart, rev_onto, Distinct,
}
use plasma.Prelude.{
  ◌≡◌, refl, sym, ◌≢◌, inl, inr, Option, none, some, List, [], ◌∷◌, ◌++◌, if◌then◌else◌, Bool-cases,
  All, All-append,
}
use plasma.Prelude.Outcome.{Outcome, ok, err, ◌>>=◌, >>=-eq-ok, ok-injective, err-ne-ok}
use plasma.Types.Transaction.{get_ins_copy, Transaction}
use plasma.Types.Utxo.{is_null_utxo, Utxo, UtxoId}

-- the identities that the inputs really spend, those of block 0 left out
abbrev pub spent_by : List Utxo → List UtxoId
spent_by [] = []
spent_by (i ∷ ins) = if is_null_utxo i then spent_by ins else i.id ∷ spent_by ins

abbrev pub spent_ids : List Transaction → List UtxoId
spent_ids [] = []
spent_ids (tx ∷ txs) = spent_by (get_ins_copy tx) ++ spent_ids txs

module _ (get : UtxoId → Outcome (Option Utxo)) where
  -- the output is there to be spent
  abbrev pub Exists : UtxoId → Type 0
  Exists i = (u : Utxo) × (get i ≡ ok (some u))

module _ (get : UtxoId → Outcome (Option Utxo)) where
  mark_found-eq-ok :
      (i : UtxoId) (s r : List UtxoId) (f : Outcome (Option Utxo))
      → (f >>= mark_found i s) ≡ ok r
      → ((u : Utxo) × (f ≡ ok (some u))) × (r ≡ i ∷ s)
  mark_found-eq-ok i s r (ok none) h = absurd (cc h)
  mark_found-eq-ok i s r (ok (some u)) h = ((u, refl), sym (ok-injective h))
  mark_found-eq-ok i s r (err e) h = absurd (cc h)
  mark_found-eq-ok i s r Outcome.panic h = absurd (cc h)

  -- what a run over the inputs of one transaction has checked
  abbrev Marked : List UtxoId → List Utxo → List UtxoId → Type 0
  Marked s ins r =
      (r ≡ rev_onto (spent_by ins) s)
      × Distinct (spent_by ins)
      × Apart (spent_by ins) s
      × All (Exists get) (spent_by ins)

  mark_inputs-Marked :
      (s : List UtxoId) (ins : List Utxo) (r : List UtxoId)
      → mark_inputs get s ins ≡ ok r
      → Marked s ins r
  unfolding mark_inputs rev_onto
  mark_inputs-Marked s [] r h = (sym (ok-injective h), tt, tt, tt)
  mark_inputs-Marked s (i ∷ ins) r h = elim (Bool-cases (is_null_utxo i)) [
    | inl z ↦ rw z (mark_inputs-Marked s ins r (rw z at h))
    | inr n ↦ elim (Bool-cases (is_spent i.id s)) [
      | inl b ↦ absurd (err-ne-ok (rw (n, b) at h))
      | inr c ↦
          let (s', m, k) = >>=-eq-ok _ _ (rw (n, c) at h) in
          let (found, e) = mark_found-eq-ok i.id s s' (get i.id) m in
          let rest = mark_inputs-Marked (i.id ∷ s) ins r (rw e at k) in
          rw n (
            rest.0,
            (Apart-heads i.id (spent_by ins) s rest.2, rest.1),
            (not_spent i.id s c, Apart-tails i.id (spent_by ins) s rest.2),
            (found, rest.3),
          )
    ]
  ]

  Marked-mark_inputs :
      (s : List UtxoId) (ins : List Utxo)
      → Distinct (spent_by ins)
      → Apart (spent_by ins) s
      → All (Exists get) (spent_by ins)
      → mark_inputs get s ins ≡ ok (rev_onto (spent_by ins) s)
  unfolding mark_inputs rev_onto
  Marked-mark_inputs s [] d a x = refl
  Marked-mark_inputs s (i ∷ ins) d a x = elim (Bool-cases (is_null_utxo i)) [
    | inl z ↦ rw z (Marked-mark_inputs s ins (rw z at d) (rw z at a) (rw z at x))
    | inr n ↦
        let d' : Distinct (i.id ∷ spent_by ins) = rw n at d in
        let a' : Apart (i.id ∷ spent_by ins) s = rw n at a in
        let x' : All (Exists get) (i.id ∷ spent_by ins) = rw n at x in
        let next : Apart (spent_by ins) (i.id ∷ s) =
          Apart-sym (i.id ∷ s) (spent_by ins) (d'.0, Apart-sym (spent_by ins) s a'.1) in
        rw (n, spent_not i.id s a'.0, x'.0.1) (Marked-mark_inputs (i.id ∷ s) ins d'.1 next x'.1)
  ]

module _ (validate_one : Transaction → Outcome (Unit {0}))
    (get : UtxoId → Outcome (Option Utxo)) where
  -- what a run over transactions has checked, if `s` was spent before
  abbrev pub Checked : List UtxoId → List Transaction → Type 0
  Checked s txs =
      All (λ tx. validate_one tx ≡ ok tt) txs
      × Distinct (spent_ids txs)
      × Apart (spent_ids txs) s
      × All (Exists get) (spent_ids txs)

  pub validate_txs-Checked :
      (s : List UtxoId) (txs : List Transaction)
      → validate_txs validate_one get s txs ≡ ok tt
      → Checked s txs
  unfolding validate_txs
  validate_txs-Checked s [] h = (tt, tt, tt, tt)
  validate_txs-Checked s (tx ∷ txs) h =
      let (u, valid, h') = >>=-eq-ok _ _ h in
      let (s', m, k) = >>=-eq-ok _ _ h' in
      let (e, d, a, x) = mark_inputs-Marked get s (get_ins_copy tx) s' m in
      let (vs, ds, away, xs) = validate_txs-Checked s' txs k in
      let ins = spent_by (get_ins_copy tx) in
      let apart =
        (All-rev_onto (λ j. All (λ i. j ≢ i) (spent_ids txs)) ins s).0
          (rw e at (Apart-sym (spent_ids txs) s' away)) in
      (
        (valid, vs),
        (Distinct-append ins (spent_ids txs)).1 (d, ds, apart.0),
        All-append (λ i. All (λ j. i ≢ j) s) ins (spent_ids txs) a
            (Apart-sym s (spent_ids txs) apart.1),
        All-append (Exists get) ins (spent_ids txs) x xs,
      )

  pub Checked-validate_txs :
      (s : List UtxoId) (txs : List Transaction)
      → Checked s txs
      → validate_txs validate_one get s txs ≡ ok tt
  unfolding validate_txs
  Checked-validate_txs s [] h = refl
  Checked-validate_txs s (tx ∷ txs) ((valid, vs), d, a, x) =
      let ins = spent_by (get_ins_copy tx) in
      let ds = (Distinct-append ins (spent_ids txs)).0 d in
      let as' = All-split (λ i. All (λ j. i ≢ j) s) ins (spent_ids txs) a in
      let xs = All-split (Exists get) ins (spent_ids txs) x in
      let away =
        (All-rev_onto (λ j. All (λ i. j ≢ i) (spent_ids txs)) ins s).1
          (ds.2, Apart-sym (spent_ids txs) s as'.1) in
      rw (valid, Marked-mark_inputs get s (get_ins_copy tx) ds.0 as'.0 xs.0)
        (Checked-validate_txs (rev_onto ins s) txs
          (vs, ds.1, Apart-sym (rev_onto ins s) (spent_ids txs) away, xs.1))
