-- ===== src/Merkle/Proves.antt =====
-- In a tree over a power of two of hashes every proof is accepted.
use plasma.Bytes.{Bytes}
use plasma.Merkle.{
  merkle_proof, verify, new_merkle_tree, build_tree, right_of, MerkleTree, sibling, left_of, Parent,
  siblings, hang, climb, Leaf, join,
}
use plasma.Prelude.{
  take-append-drop, length-drop, length-take, ℕ, zero, suc, ◌+◌, ◌*◌, ◌/◌, ◌%◌, ◌^◌, ◌≤◌, ◌<◌, ◌≡◌,
  refl, ap, ◌∙◌, subst, true, false, some, List, [], ◌∷◌, ◌++◌, arith, ◌==◌, if◌then◌else◌,
  bytes_equal, bytes_equal_refl, length, get_elem?, take, drop, length-append,
}

module _ (keccak256 : Bytes → Bytes) where
  double : (n : ℕ) → 2 ^ suc n ≡ 2 * 2 ^ n
  double n = omega arith

  power_positive : (n : ℕ) → 1 ≤ 2 ^ n
  power_positive zero = omega arith
  power_positive (suc n) = omega (arith, power_positive n, double n)

  climb-left :
      (ps : List Bytes) (h : Bytes) (i : ℕ) (s : Bytes)
      → i < 2 ^ length ps
      → climb keccak256 h i (ps ++ s ∷ []) ≡ keccak256 (climb keccak256 h i ps ++ s)
  unfolding climb
  climb-left [] h i s b = let e : (i % 2 == 0) ≡ true = ground (arith, b) in rw e refl
  climb-left (p ∷ ps) h i s b =
      let b' : i / 2 < 2 ^ length ps = omega (arith, b, double (length ps)) in
      climb-left ps (if i % 2 == 0 then keccak256 (h ++ p) else keccak256 (p ++ h)) (i / 2) s b'

  climb-right :
      (ps : List Bytes) (h : Bytes) (i j : ℕ) (s : Bytes)
      → i < 2 ^ length ps
      → j ≡ 2 ^ length ps + i
      → climb keccak256 h j (ps ++ s ∷ []) ≡ keccak256 (s ++ climb keccak256 h i ps)
  unfolding climb
  climb-right [] h i j s b e = let o : (j % 2 == 0) ≡ false = ground (arith, b, e) in rw o refl
  climb-right (p ∷ ps) h i j s b e =
      let d = double (length ps) in
      let b' : i / 2 < 2 ^ length ps = omega (arith, b, d) in
      let m : j % 2 ≡ i % 2 = omega (arith, d, e) in
      let q : j / 2 ≡ 2 ^ length ps + i / 2 = omega (arith, d, e) in
      ap
        (λ n.
          climb keccak256 (if n == 0 then keccak256 (h ++ p) else keccak256 (p ++ h)) (j / 2)
            (ps ++ s ∷ []))
        m
      ∙ climb-right ps (if i % 2 == 0 then keccak256 (h ++ p) else keccak256 (p ++ h)) (i / 2)
          (j / 2) s b' q

  siblings-append :
      (ps : List Parent) (p : Parent) → siblings (ps ++ p ∷ []) ≡ siblings ps ++ sibling p ∷ []
  unfolding siblings
  siblings-append [] p = refl
  siblings-append (q ∷ ps) p = ap (◌∷◌ (sibling q)) (siblings-append ps p)

  -- the leaf at index `i` stands `k` below the root and its siblings lead there
  abbrev Leads : ℕ → Bytes → ℕ → Leaf → Bytes → Type 0
  Leads k root i l h =
      (l.hash ≡ h)
      × (length (siblings l.parents) ≡ k)
      × (climb keccak256 h i (siblings l.parents) ≡ root)

  -- likewise for consecutive leaves, beside their hashes
  abbrev AllLead : ℕ → Bytes → ℕ → List Leaf → List Bytes → Type 0
  AllLead k root i [] [] = Unit
  AllLead k root i [] (h ∷ hs) = ⊥
  AllLead k root i (l ∷ ls) [] = ⊥
  AllLead k root i (l ∷ ls) (h ∷ hs) = Leads k root i l h × AllLead k root (suc i) ls hs

  AllLead-left :
      (k : ℕ) (root s : Bytes) (i : ℕ) (ls : List Leaf) (hs : List Bytes)
      → AllLead k root i ls hs
      → i + length hs ≤ 2 ^ k
      → AllLead (suc k) (keccak256 (root ++ s)) i (hang (left_of s) ls) hs
  unfolding hang
  AllLead-left k root s i [] [] a b = tt
  AllLead-left k root s i [] (h ∷ hs) a b = a
  AllLead-left k root s i (l ∷ ls) [] a b = a
  AllLead-left k root s i (l ∷ ls) (h ∷ hs) ((e, n, c), a) b =
      let ps = siblings l.parents in
      let u = siblings-append l.parents (left_of s) in
      let m : length (ps ++ sibling (left_of s) ∷ []) ≡ suc k =
        omega (arith, length-append ps (sibling (left_of s) ∷ []), n) in
      let b' : i < 2 ^ length ps = rw n (omega (arith, b)) in
      (
        (
          e,
          rw u m,
          rw u (unfold sibling in climb-left ps h i s b' ∙ ap (λ r. keccak256 (r ++ s)) c),
        ),
        AllLead-left k root s (suc i) ls hs a (omega (arith, b)),
      )

  AllLead-right :
      (k : ℕ) (root s : Bytes) (i j : ℕ) (ls : List Leaf) (hs : List Bytes)
      → AllLead k root i ls hs
      → i + length hs ≤ 2 ^ k
      → j ≡ 2 ^ k + i
      → AllLead (suc k) (keccak256 (s ++ root)) j (hang (right_of s) ls) hs
  unfolding hang
  AllLead-right k root s i j [] [] a b f = tt
  AllLead-right k root s i j [] (h ∷ hs) a b f = a
  AllLead-right k root s i j (l ∷ ls) [] a b f = a
  AllLead-right k root s i j (l ∷ ls) (h ∷ hs) ((e, n, c), a) b f =
      let ps = siblings l.parents in
      let u = siblings-append l.parents (right_of s) in
      let m : length (ps ++ sibling (right_of s) ∷ []) ≡ suc k =
        omega (arith, length-append ps (sibling (right_of s) ∷ []), n) in
      let b' : i < 2 ^ length ps = rw n (omega (arith, b)) in
      (
        (
          e,
          rw u m,
          rw u (
              unfold sibling in
              climb-right ps h i j s b' (rw n f) ∙ ap (λ r. keccak256 (s ++ r)) c),
        ),
        AllLead-right k root s (suc i) (suc j) ls hs a (omega (arith, b)) (omega (arith, f)),
      )

  AllLead-append :
      (k : ℕ) (root : Bytes) (i : ℕ) (ls ms : List Leaf) (hs gs : List Bytes)
      → AllLead k root i ls hs
      → AllLead k root (i + length hs) ms gs
      → AllLead k root i (ls ++ ms) (hs ++ gs)
  AllLead-append k root i [] ms [] gs a c =
      let z : i + 0 ≡ i = omega arith in subst (λ n. AllLead k root n ms gs) z c
  AllLead-append k root i [] ms (h ∷ hs) gs a c = absurd a
  AllLead-append k root i (l ∷ ls) ms [] gs a c = absurd a
  AllLead-append k root i (l ∷ ls) ms (h ∷ hs) gs (a, more) c =
      let z : i + suc (length hs) ≡ suc i + length hs = omega arith in
      (a, AllLead-append k root (suc i) ls ms hs gs more (subst (λ n. AllLead k root n ms gs) z c))

  AllLead-join :
      (k : ℕ) (l r : MerkleTree) (hs gs : List Bytes)
      → length hs ≡ 2 ^ k
      → length gs ≡ 2 ^ k
      → AllLead k l.root 0 l.leaves hs
      → AllLead k r.root 0 r.leaves gs
      → AllLead (suc k) (join keccak256 l r).root 0 (join keccak256 l r).leaves (hs ++ gs)
  unfolding join
  AllLead-join k l r hs gs m n a c =
      let z : length hs ≡ 0 + length hs = omega arith in
      AllLead-append (suc k) _ 0 _ _ hs gs
        (AllLead-left k l.root r.root 0 l.leaves hs a (omega (arith, m)))
        (subst
          (λ n.
            AllLead (suc k) (keccak256 (l.root ++ r.root)) n (hang (right_of l.root) r.leaves) gs)
          z
          (AllLead-right k r.root l.root 0 (length hs) r.leaves gs c (omega (arith, n))
            (omega (arith, m))))

  get-Leads :
      (k : ℕ) (root : Bytes) (i j : ℕ) (ls : List Leaf) (hs : List Bytes) (h : Bytes)
      → AllLead k root i ls hs
      → get_elem? hs j ≡ some h
      → (l : Leaf) × (get_elem? ls j ≡ some l) × Leads k root (i + j) l h
  get-Leads k root i j [] [] h a g = absurd (cc g)
  get-Leads k root i j [] (g ∷ hs) h a e = absurd a
  get-Leads k root i j (l ∷ ls) [] h a e = absurd a
  get-Leads k root i zero (l ∷ ls) (g ∷ hs) h (a, more) e =
      let z : i ≡ i + 0 = omega arith in
      let same : g ≡ h = cc in
      (l, refl, subst (λ n. Leads k root n l h) z (subst (Leads k root i l) same a))
  get-Leads k root i (suc j) (l ∷ ls) (g ∷ hs) h (a, more) e =
      let z : suc i + j ≡ i + suc j = omega arith in
      let (m, f, p) = get-Leads k root (suc i) j ls hs h more e in
      (m, f, subst (λ n. Leads k root n m h) z p)

  -- `k` halvings of `2 ^ k` hashes
  build_tree-AllLead :
      (k fuel : ℕ) (hs : List Bytes)
      → length hs ≡ 2 ^ k
      → 2 ^ k ≤ fuel
      → AllLead k (build_tree keccak256 fuel hs).root 0 (build_tree keccak256 fuel hs).leaves hs
  unfolding build_tree siblings climb
  build_tree-AllLead zero zero hs e b = absurd (omega (arith, b))
  build_tree-AllLead zero (suc fuel) [] e b = absurd (omega (arith, e))
  build_tree-AllLead zero (suc fuel) (h ∷ []) e b = ((refl, refl, refl), tt)
  build_tree-AllLead zero (suc fuel) (h ∷ i ∷ hs) e b = absurd (omega (arith, e))
  build_tree-AllLead (suc k) zero hs e b = absurd (omega (arith, e, b, double k, power_positive k))
  build_tree-AllLead (suc k) (suc fuel) [] e b =
      absurd (omega (arith, e, b, double k, power_positive k))
  build_tree-AllLead (suc k) (suc fuel) (h ∷ []) e b =
      absurd (omega (arith, e, b, double k, power_positive k))
  build_tree-AllLead (suc k) (suc fuel) (h ∷ i ∷ rest) e b =
      let hs = h ∷ i ∷ rest in
      let n : length hs / 2 ≡ 2 ^ k = omega (arith, e, double k) in
      let l : length (take (length hs / 2) hs) ≡ 2 ^ k =
        length-take (length hs / 2) hs (omega arith) ∙ n in
      let r : length (drop (length hs / 2) hs) ≡ 2 ^ k =
        length-drop (length hs / 2) hs ∙ omega (arith, e, double k) in
      let f : 2 ^ k ≤ fuel = omega (arith, b, double k, power_positive k) in
      subst
        (λ gs.
          AllLead (suc k) (build_tree keccak256 (suc fuel) hs).root 0
            (build_tree keccak256 (suc fuel) hs).leaves gs)
        (take-append-drop (length hs / 2) hs)
        (AllLead-join k (build_tree keccak256 fuel (take (length hs / 2) hs))
          (build_tree keccak256 fuel (drop (length hs / 2) hs)) _ _ l r
          (build_tree-AllLead k fuel _ l f) (build_tree-AllLead k fuel _ r f))

  -- Over a number of hashes that is a power of two from 2 on, `NewMerkleTree` gives a tree, and for
  -- each hash of the list `Verify` accepts the `Proof` at its index against the root.
  pub verify-merkle_proof :
      (k : ℕ) (hashs : List Bytes) (j : ℕ) (h : Bytes)
      → length hashs ≡ 2 ^ suc k
      → get_elem? hashs j ≡ some h
      → (t : MerkleTree) × (new_merkle_tree keccak256 hashs ≡ some t)
        × (verify keccak256 h t.root j (merkle_proof keccak256 t j) ≡ true)
  unfolding new_merkle_tree verify merkle_proof
  verify-merkle_proof k [] j h e g = absurd (cc g)
  verify-merkle_proof k (i ∷ hs) j h e g =
      let hashs = i ∷ hs in
      let t = build_tree keccak256 (length hashs) hashs in
      let even : (length hashs % 2 == 0) ≡ true = ground (arith, e, double k) in
      let a = build_tree-AllLead (suc k) (length hashs) hashs e (omega (arith, e)) in
      let (l, f, p) = get-Leads (suc k) t.root 0 j t.leaves hashs h a g in
      let z : 0 + j ≡ j = omega arith in
      let c : climb keccak256 h j (siblings l.parents) ≡ t.root =
        subst (λ n. climb keccak256 h n (siblings l.parents) ≡ t.root) z p.2 in
      (t, rw even, rw f (ap (λ r. bytes_equal r t.root) c ∙ bytes_equal_refl t.root))
