-- ===== src/BlockValidator/Distinct.antt =====
-- Lists of identities with no entry twice, as the keys of the map of spent outputs.
use mathlib.Core.Bool.{false≢true}
use plasma.BlockValidator.{is_spent}
use plasma.Prelude.{
  ◌≡◌, refl, sym, ◌∙◌, ◌≢◌, ◌↔◌, inl, inr, false, List, [], ◌∷◌, ◌++◌, Bool-cases, All, All-append,
}
use plasma.Types.Utxo.{id_equals→eq, id_equals_refl, id_equals, UtxoId}

-- no two entries are the same
abbrev pub Distinct : List UtxoId → Type 0
Distinct [] = Unit
Distinct (i ∷ is) = All (λ j. i ≢ j) is × Distinct is

pub not_spent : (i : UtxoId) (l : List UtxoId) → is_spent i l ≡ false → All (λ j. i ≢ j) l
unfolding is_spent
not_spent i [] h = tt
not_spent i (s ∷ l) h = elim (Bool-cases (id_equals s i)) [
  | inl e ↦ absurd (false≢true (sym (rw e at h)))
  | inr n ↦ (λ e. false≢true (sym n ∙ rw e (id_equals_refl s)), not_spent i l (rw n at h))
]

pub spent_not : (i : UtxoId) (l : List UtxoId) → All (λ j. i ≢ j) l → is_spent i l ≡ false
unfolding is_spent
spent_not i [] h = refl
spent_not i (s ∷ l) h = elim (Bool-cases (id_equals s i)) [
  | inl e ↦ absurd (h.0 (sym (id_equals→eq s i e)))
  | inr n ↦ rw n (spent_not i l h.1)
]

-- `rev_onto is s` is what the map holds after `is` were added one by one to `s`
unfoldable pub rev_onto : List UtxoId → List UtxoId → List UtxoId
rev_onto [] s = s
rev_onto (i ∷ is) s = rev_onto is (i ∷ s)

pub All-rev_onto {κ} :
    (P : UtxoId → Type κ) (is s : List UtxoId) → All P (rev_onto is s) ↔ (All P is × All P s)
unfolding rev_onto
All-rev_onto P [] s = (λ h. (tt, h), λ h. h.1)
All-rev_onto P (i ∷ is) s = (
  λ h. let r = (All-rev_onto P is (i ∷ s)).0 h in ((r.1.0, r.0), r.1.1),
  λ h. (All-rev_onto P is (i ∷ s)).1 (h.0.1, (h.0.0, h.1)),
)

-- no entry of one list is in the other
abbrev pub Apart : List UtxoId → List UtxoId → Type 0
Apart a b = All (λ i. All (λ j. i ≢ j) b) a

pub Apart-nil : (a : List UtxoId) → Apart a []
Apart-nil [] = tt
Apart-nil (i ∷ a) = (tt, Apart-nil a)

pub Apart-heads : (j : UtxoId) (a b : List UtxoId) → Apart a (j ∷ b) → All (λ i. j ≢ i) a
Apart-heads j [] b h = tt
Apart-heads j (i ∷ a) b h = (λ e. h.0.0 (sym e), Apart-heads j a b h.1)

pub Apart-tails : (j : UtxoId) (a b : List UtxoId) → Apart a (j ∷ b) → Apart a b
Apart-tails j [] b h = tt
Apart-tails j (i ∷ a) b h = (h.0.1, Apart-tails j a b h.1)

pub Apart-sym : (a b : List UtxoId) → Apart a b → Apart b a
Apart-sym a [] h = tt
Apart-sym a (j ∷ b) h = (Apart-heads j a b h, Apart-sym a b (Apart-tails j a b h))

pub All-split {κ} : (P : UtxoId → Type κ) (a b : List UtxoId) → All P (a ++ b) → All P a × All P b
All-split P [] b h = (tt, h)
All-split P (i ∷ a) b h = let r = All-split P a b h.1 in ((h.0, r.0), r.1)

pub Distinct-append :
    (a b : List UtxoId) → Distinct (a ++ b) ↔ (Distinct a × Distinct b × Apart a b)
Distinct-append [] b = (λ h. (tt, h, tt), λ h. h.1)
Distinct-append (i ∷ a) b = (
  λ h.
      let r = (Distinct-append a b).0 h.1 in
      let p = All-split (λ j. i ≢ j) a b h.0 in ((p.0, r.0), r.1, (p.1, r.2)),
  λ h. (All-append (λ j. i ≢ j) a b h.0.0 h.2.0, (Distinct-append a b).1 (h.0.1, h.1, h.2.1)),
)
