-- ===== src/Types/Transaction/Remove.antt =====
-- `Transactions.Remove` takes one element out and keeps the others, in another order.
use mathlib.Core.List.{Perm, perm_middle, perm_append_singleton}
use plasma.Prelude.{
  ◌-◌, ◌≡◌, refl, sym, ap, ◌∙◌, ◌⊎◌, inl, inr, some, List, [], ◌∷◌, ◌++◌, arith, length,
  length-append, get_elem?, take-append, append_assoc,
}
use plasma.Types.Transaction.{set, set_option, remove}
use mathlib.Core.List.Perm

module _ {ℓ} {A : Type ℓ} where
  pub get_elem?-append :
      (xs : List A) (y : A) (zs : List A) → get_elem? (xs ++ y ∷ zs) (length xs) ≡ some y
  get_elem?-append [] y zs = refl
  get_elem?-append (x ∷ xs) y zs = get_elem?-append xs y zs

  set-append :
      (xs : List A) (y : A) (zs : List A) (v : A) → set (xs ++ y ∷ zs) (length xs) v ≡ xs ++ v ∷ zs
  unfolding set
  set-append [] y zs v = refl
  set-append (x ∷ xs) y zs v = ap (◌∷◌ x) (set-append xs y zs v)

  -- the list is empty, or has a last element
  pub snoc-cases : (zs : List A) → (zs ≡ []) ⊎ ((ws : List A) × (w : A) × (zs ≡ ws ++ w ∷ []))
  snoc-cases [] = inl refl
  snoc-cases (z ∷ zs) = elim (snoc-cases zs) [
    | inl e ↦ inr ([], z, ap (◌∷◌ z) e)
    | inr (ws, w, e) ↦ inr (z ∷ ws, w, ap (◌∷◌ z) e)
  ]

  -- At the last index `remove` cuts the slice.
  pub remove_last : (xs : List A) (y : A) → remove (xs ++ y ∷ []) (length xs) ≡ xs
  unfolding remove set_option
  remove_last xs y =
      let n : length (xs ++ y ∷ []) - 1 ≡ length xs = omega (arith, length-append xs (y ∷ [])) in
      rw (n, get_elem?-append xs y [], set-append xs y [] y, set-append xs y [] y)
        (take-append xs (y ∷ []))

  -- Elsewhere the last element takes the removed one's place.
  pub remove_middle :
      (xs : List A) (y : A) (ws : List A) (w : A)
      → remove (xs ++ y ∷ ws ++ w ∷ []) (length xs) ≡ xs ++ w ∷ ws
  unfolding remove set_option
  remove_middle xs y ws w =
      let e : xs ++ y ∷ ws ++ w ∷ [] ≡ xs ++ y ∷ (ws ++ w ∷ []) =
        append_assoc xs (y ∷ ws) (w ∷ []) in
      let n : length (xs ++ y ∷ ws ++ w ∷ []) - 1 ≡ length (xs ++ w ∷ ws) = omega (
        arith,
        length-append (xs ++ y ∷ ws) (w ∷ []),
        length-append xs (y ∷ ws),
        length-append xs (w ∷ ws),
      ) in
      let m : length (xs ++ w ∷ ws) ≡ length (xs ++ y ∷ ws) =
        omega (arith, length-append xs (y ∷ ws), length-append xs (w ∷ ws)) in
      let g : get_elem? (xs ++ y ∷ ws ++ w ∷ []) (length (xs ++ w ∷ ws)) ≡ some w =
        rw m (get_elem?-append (xs ++ y ∷ ws) w []) in
      let k : get_elem? (xs ++ y ∷ ws ++ w ∷ []) (length xs) ≡ some y =
        rw e (get_elem?-append xs y (ws ++ w ∷ [])) in
      let s : set (xs ++ y ∷ ws ++ w ∷ []) (length xs) w ≡ xs ++ w ∷ ws ++ w ∷ [] =
        rw e (set-append xs y (ws ++ w ∷ []) w ∙ sym (append_assoc xs (w ∷ ws) (w ∷ []))) in
      rw (n, g, k, s, set-append (xs ++ w ∷ ws) w [] y) (take-append (xs ++ w ∷ ws) (y ∷ []))

  -- What is removed together with what is kept is the old slice, in another order.
  pub remove-perm :
      (xs : List A) (y : A) (zs : List A)
      → Perm (y ∷ remove (xs ++ y ∷ zs) (length xs)) (xs ++ y ∷ zs)
  remove-perm xs y zs = elim (snoc-cases zs) [
    | inl e ↦ rw (e, remove_last xs y) (Perm.symm (perm_append_singleton y xs))
    | inr (ws, w, e) ↦ rw e (middle ws w)
  ]
    where
      middle :
          (ws : List A) (w : A)
          → Perm (y ∷ remove (xs ++ y ∷ (ws ++ w ∷ [])) (length xs)) (xs ++ y ∷ (ws ++ w ∷ []))
      middle ws w =
          rw (← append_assoc xs (y ∷ ws) (w ∷ []), remove_middle xs y ws w)
            (Perm.trans (Perm.cons y (perm_middle xs ws)) (
              Perm.trans (Perm.swap w y (xs ++ ws)) (
                Perm.trans (Perm.cons w (Perm.symm (perm_middle xs ws)))
                  (Perm.symm (perm_append_singleton w (xs ++ y ∷ ws))))))
