-- ===== src/TxPool/Removal.antt =====
-- `removeTx` takes one transaction out of both views of the pool.
use plasma.Bytes.{Hash}
use plasma.Prelude.{
  ℕ, suc, ◌+◌, ◌≤◌, ◌≡◌, refl, sym, ap, ◌∙◌, subst, inl, inr, false, Option, none, some, List, [],
  ◌∷◌, ◌++◌, append_assoc, append-nil, arith, ◌==◌, if◌then◌else◌, Bool-cases, length,
}
use plasma.TxPool.{get_pooled, remove_tx, lookup_get, offset_of, TxPool, remove_at, remove_found}
use plasma.TxPool.InSync.{InSync, find_hash, get-remove}
use plasma.Types.Transaction.{remove, Transaction}
use plasma.Types.Transaction.Remove.{remove_middle, remove_last, snoc-cases}

-- how often a hash is in a list
unfoldable pub count_hash : (Transaction → Hash) → Hash → List Transaction → ℕ
count_hash hash_of h [] = 0
count_hash hash_of h (tx ∷ txs) =
    let rest = count_hash hash_of h txs in if hash_of tx == h then suc rest else rest

-- The two views agree, and no hash is in the queue twice.
pub record Agrees {J : Type 0} (hash_of : Transaction → Hash) (p : TxPool J) : Type 0 where
  pub in_sync : InSync hash_of p
  pub once : (h : Hash) → count_hash hash_of h p.queue ≤ 1

module _ (hash_of : Transaction → Hash) where
  count-append :
      (h : Hash) (xs ys : List Transaction)
      → count_hash hash_of h (xs ++ ys) ≡ count_hash hash_of h xs + count_hash hash_of h ys
  unfolding count_hash
  count-append h [] ys = omega arith
  count-append h (x ∷ xs) ys = ground (arith, count-append h xs ys)

  find-none :
      (h : Hash) (xs : List Transaction)
      → count_hash hash_of h xs ≡ 0
      → find_hash hash_of h xs ≡ none
  unfolding count_hash
  find-none h [] e = refl
  find-none h (x ∷ xs) e = ground (arith, find-none h xs)

  count-none :
      (h : Hash) (xs : List Transaction)
      → find_hash hash_of h xs ≡ none
      → count_hash hash_of h xs ≡ 0
  unfolding count_hash
  count-none h [] e = refl
  count-none h (x ∷ xs) e = ground (arith, count-none h xs)

  -- a transaction with another hash makes no difference
  find-skip :
      (h : Hash) (xs : List Transaction) (y : Transaction) (zs : List Transaction)
      → (hash_of y == h) ≡ false
      → find_hash hash_of h (xs ++ y ∷ zs) ≡ find_hash hash_of h (xs ++ zs)
  find-skip h [] y zs e = rw e
  find-skip h (x ∷ xs) y zs e =
      ap (λ o. if hash_of x == h then some x else o) (find-skip h xs y zs e)

  -- nor does what stands before, where the hash is not in it
  find-after :
      (h : Hash) (xs ys : List Transaction)
      → count_hash hash_of h xs ≡ 0
      → find_hash hash_of h (xs ++ ys) ≡ find_hash hash_of h ys
  unfolding count_hash
  find-after h [] ys e = refl
  find-after h (x ∷ xs) ys e = ground (arith, find-after h xs ys)

  -- the slice after `Remove`, seen at a hash
  kept_middle :
      (h : Hash) (xs : List Transaction) (y : Transaction) (ws : List Transaction) (w : Transaction)
      → count_hash hash_of h (xs ++ y ∷ ws ++ w ∷ []) ≤ 1
      → find_hash hash_of h (xs ++ w ∷ ws)
        ≡ (if hash_of y == h then none else find_hash hash_of h (xs ++ y ∷ ws ++ w ∷ []))
  unfolding count_hash
  kept_middle h xs y ws w e =
      let c = count-append h (xs ++ y ∷ ws) (w ∷ []) in
      let c' = count-append h xs (y ∷ ws) in
      let c'' = count-append h xs (w ∷ ws) in
      elim (Bool-cases (hash_of y == h)) [
        | inl b ↦ rw b (find-none h (xs ++ w ∷ ws) (ground (arith, c, c', c'')))
        | inr b ↦ rw b (elim (Bool-cases (hash_of w == h)) [
          | inl d ↦
              let before : count_hash hash_of h xs ≡ 0 = ground (arith, c, c', c'') in
              let all_before : count_hash hash_of h (xs ++ y ∷ ws) ≡ 0 =
                ground (arith, c, c', c'') in
              let here : find_hash hash_of h (w ∷ ws) ≡ find_hash hash_of h (w ∷ []) = rw d in
              find-after h xs (w ∷ ws) before
              ∙ here
              ∙ sym (find-after h (xs ++ y ∷ ws) (w ∷ []) all_before)
          | inr d ↦
              find-skip h xs w ws d
              ∙ sym (find-skip h xs y ws b)
              ∙ sym (
                  find-skip h (xs ++ y ∷ ws) w [] d
                  ∙ ap (find_hash hash_of h) (append-nil (xs ++ y ∷ ws)))
        ])
      ]

  -- what `Remove` at `y` leaves
  count-remove :
      (h : Hash) (xs : List Transaction) (y : Transaction) (zs : List Transaction)
      → count_hash hash_of h (remove (xs ++ y ∷ zs) (length xs))
        ≤ count_hash hash_of h (xs ++ y ∷ zs)
  unfolding count_hash
  count-remove h xs y zs = elim (snoc-cases zs) [
    | inl e ↦ rw (e, remove_last xs y) (omega (arith, count-append h xs (y ∷ [])))
    | inr (ws, w, e) ↦
        rw (e, ← append_assoc xs (y ∷ ws) (w ∷ []), remove_middle xs y ws w)
          (ground (
            arith,
            count-append h (xs ++ y ∷ ws) (w ∷ []),
            count-append h xs (y ∷ ws),
            count-append h xs (w ∷ ws),
          ))
  ]

  find-remove :
      (h : Hash) (xs : List Transaction) (y : Transaction) (zs : List Transaction)
      → count_hash hash_of h (xs ++ y ∷ zs) ≤ 1
      → find_hash hash_of h (remove (xs ++ y ∷ zs) (length xs))
        ≡ (if hash_of y == h then none else find_hash hash_of h (xs ++ y ∷ zs))
  unfolding count_hash
  find-remove h xs y zs b = elim (snoc-cases zs) [
    | inl e ↦
        rw (e, remove_last xs y)
          (elim (Bool-cases (hash_of y == h)) [
            | inl d ↦
                rw d (find-none h xs (ground (arith, count-append h xs (y ∷ []), rw e at b, d)))
            | inr d ↦ rw d (sym (find-skip h xs y [] d ∙ ap (find_hash hash_of h) (append-nil xs)))
          ])
    | inr (ws, w, e) ↦
        let s : xs ++ y ∷ zs ≡ xs ++ y ∷ ws ++ w ∷ [] =
          ap (λ l. xs ++ y ∷ l) e ∙ sym (append_assoc xs (y ∷ ws) (w ∷ [])) in
        rw (s, remove_middle xs y ws w)
          (kept_middle h xs y ws w (subst (λ l. count_hash hash_of h l ≤ 1) s b))
  ]

  -- the offset that the loop of `removeTx` finds
  offset_of-found :
      (h : Hash) (txs : List Transaction) (tx : Transaction)
      → find_hash hash_of h txs ≡ some tx
      → (xs : List Transaction) × (y : Transaction) × (zs : List Transaction) × (txs ≡ xs ++ y ∷ zs)
        × (offset_of hash_of h txs ≡ some (length xs))
        × (hash_of y ≡ h)
  unfolding offset_of
  offset_of-found h [] tx e = absurd (cc e)
  offset_of-found h (y ∷ zs) tx e = elim (Bool-cases (hash_of y == h)) [
    | inl d ↦ ([], y, zs, refl, rw d, ground (arith, d))
    | inr d ↦
        let (xs, z, us, q, o, k) = offset_of-found h zs tx (rw d at e) in
        (y ∷ xs, z, us, ap (◌∷◌ y) q, rw (d, o), k)
  ]

  remove_at-found :
      (h k : Hash) (txs : List Transaction) (tx : Transaction)
      → ((i : Hash) → count_hash hash_of i txs ≤ 1)
      → find_hash hash_of h txs ≡ some tx
      → (find_hash hash_of k (remove_at (offset_of hash_of h txs) txs)
          ≡ (if h == k then none else find_hash hash_of k txs))
        × (count_hash hash_of k (remove_at (offset_of hash_of h txs) txs) ≤ 1)
  unfolding remove_at
  remove_at-found h k txs tx once e =
      let (xs, y, zs, q, o, same) = offset_of-found h txs tx e in
      let b = subst (λ l. count_hash hash_of k l ≤ 1) q (once k) in
      let r : remove_at (offset_of hash_of h txs) txs ≡ remove (xs ++ y ∷ zs) (length xs) =
        ap (λ i. remove_at i txs) o ∙ ap (λ l. remove l (length xs)) q in
      (
        ap (find_hash hash_of k) r
            ∙ find-remove k xs y zs b
            ∙ ap (λ (n : Hash). if n == k then none else find_hash hash_of k (xs ++ y ∷ zs)) same
            ∙ ap (λ l. if h == k then none else find_hash hash_of k l) (sym q),
        subst (λ l. count_hash hash_of k l ≤ 1) (sym r) (omega (arith, b, count-remove k xs y zs)),
      )

  -- a transaction that the map does not have can be queued
  pub count-snoc :
      (h : Hash) (tx : Transaction) (txs : List Transaction)
      → find_hash hash_of (hash_of tx) txs ≡ none
      → count_hash hash_of h txs ≤ 1
      → count_hash hash_of h (txs ++ tx ∷ []) ≤ 1
  unfolding count_hash
  count-snoc h tx txs e b = elim (Bool-cases (hash_of tx == h)) [
    | inl s ↦
        let same : hash_of tx ≡ h = ground (arith, s) in
        let z : count_hash hash_of h txs ≡ 0 =
          subst (λ n. count_hash hash_of n txs ≡ 0) same (count-none (hash_of tx) txs e) in
        ground (arith, s, z, count-append h txs (tx ∷ []))
    | inr s ↦ ground (arith, s, count-append h txs (tx ∷ []))
  ]

module _ {J : Type 0} (hash_of : Transaction → Hash) where
  remove_found-Agrees :
      (found : Option Transaction) (h : Hash) (p : TxPool J)
      → lookup_get h p.all ≡ found
      → Agrees hash_of p
      → Agrees hash_of (remove_found hash_of found h p)
        × ((k : Hash)
            → lookup_get k (remove_found hash_of found h p).all
              ≡ (if h == k then none else lookup_get k p.all))
  unfolding remove_found
  remove_found-Agrees none h p e a = (
    a,
    λ k. elim (Bool-cases (h == k)) [
      | inl s ↦
          let same : h ≡ k = ground (arith, s) in
          rw s (subst (λ n. lookup_get n p.all ≡ none) same e)
      | inr s ↦ rw s
    ],
  )
  remove_found-Agrees (some tx) h p e a =
      let found : find_hash hash_of h p.queue ≡ some tx = sym (a.in_sync h) ∙ e in
      let gone = λ (k : Hash). remove_at-found hash_of h k p.queue tx a.once found in
      (
        record {
          in_sync = λ k.
              get-remove h k p.all
              ∙ ap (λ o. if h == k then none else o) (a.in_sync k)
              ∙ sym (gone k).0;
          once = λ k. (gone k).1;
        },
        λ k. get-remove h k p.all,
      )

  -- Where the queue and the map by hash agree and no hash is in the queue twice, that is so after
  -- `removeTx`; the pool then finds nothing at that hash, and at every other what it found before.
  pub remove_tx-Agrees :
      (h : Hash) (p : TxPool J)
      → Agrees hash_of p
      → Agrees hash_of (remove_tx hash_of h p)
        × ((k : Hash)
            → get_pooled k (remove_tx hash_of h p) ≡ (if h == k then none else get_pooled k p))
  unfolding remove_tx get_pooled
  remove_tx-Agrees h p a = remove_found-Agrees (lookup_get h p.all) h p refl a
