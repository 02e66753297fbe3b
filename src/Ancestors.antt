-- ===== src/Ancestors.antt =====
-- Lines of ancestors, and where two of them meet. core/tx_pool.go's `reset` walks over blocks and
-- core/rawdb/accessors_chain.go's `FindCommonAncestor` over headers in the same way: down to one
-- number, then both by their parents up to one hash. Here the steps of such walks are put together.
use plasma.Prelude.{
  ℕ, ◌+◌, ◌≤◌, ◌<◌, ◌≡◌, ◌≢◌, refl, sym, ap, ◌∙◌, subst, ◌⊎◌, inl, inr, Option, none, some, List,
  [], ◌∷◌, ◌++◌, arith, length, length-append,
}

module _ {N : Type 0} (parent : N → Option N) (number hash : N → ℕ) where
  -- from one to another by the parents, those before the last one listed
  abbrev pub Line : N → List N → N → Type 0
  Line b [] c = b ≡ c
  Line b (y ∷ ys) c = (y ≡ b) × (p : N) × (parent b ≡ some p) × Line p ys c

  -- a parent that is found has the number before
  abbrev pub IsNumbered : Type 0
  IsNumbered = (b p : N) → parent b ≡ some p → number p + 1 ≡ number b

  -- two lines to one hash
  abbrev pub ForkAt : N → N → List N → List N → N → N → Type 0
  ForkAt b a os ns c e = Line b os c × Line a ns e × (hash c ≡ hash e)

  -- one hash on both lines stands for one number
  abbrev pub HashesApart : N → N → Type 0
  HashesApart b a =
      (os ns : List N) (c e : N) → Line b os c → Line a ns e → hash c ≡ hash e → number c ≡ number e

  abbrev pub NoFork : N → N → Type 0
  NoFork b a = (os ns : List N) (c e : N) → ForkAt b a os ns c e → ⊥

  -- no fork is nearer, on either line
  abbrev pub First : N → N → List N → List N → Type 0
  First b a os ns =
      (os' ns' : List N) (c e : N)
      → ForkAt b a os' ns' c e
      → (length os ≤ length os') × (length ns ≤ length ns')

  abbrev pub AllAbove : N → ℕ → Type 0
  AllAbove b n = (os : List N) (c : N) → Line b os c → n < number c

  pub Line-append : (b c e : N) (os ps : List N) → Line b os c → Line c ps e → Line b (os ++ ps) e
  Line-append b c e [] ps same more = subst (λ k. Line k ps e) (sym same) more
  Line-append b c e (o ∷ os) ps (same, p, up, rest) more =
      (same, p, up, Line-append p c e os ps rest more)

  some-injective : {x y : N} → some x ≡ some y → x ≡ y
  some-injective e = cc e

  Line-after : (b p c : N) (os : List N) → parent b ≡ some p → Line p os c → Line b (b ∷ os) c
  Line-after b p c os up line = (refl, p, up, line)

  -- the longer of two lines goes on from the end of the shorter one
  Line-split :
      (b c e : N) (os ps : List N)
      → Line b os c
      → Line b ps e
      → length os ≤ length ps
      → (rest : List N) × (ps ≡ os ++ rest) × Line c rest e
  Line-split b c e [] ps same line short = (ps, refl, subst (λ k. Line k ps e) same line)
  Line-split b c e (o ∷ os) [] line line' short = absurd (omega (arith, short))
  Line-split b c e (o ∷ os) (q ∷ ps) (same, p, up, line) (same', p', up', line') short =
      let one : p' ≡ p = some-injective (sym up' ∙ up) in
      let rest =
        Line-split p c e os ps line (subst (λ k. Line k ps e) one line') (omega (arith, short)) in
      (rest.0, rw (same, same', rest.1) refl, rest.2)

  module _ (numbered : IsNumbered) where
    Line-number : (b c : N) (os : List N) → Line b os c → number c + length os ≡ number b
    Line-number b c [] same = rw same (omega arith)
    Line-number b c (o ∷ os) (same, p, up, line) =
        omega (arith, Line-number p c os line, numbered b p up)

    AllAbove-here : (b : N) (n : ℕ) → n < number b → parent b ≡ none → AllAbove b n
    AllAbove-here b n above missing [] c same = rw (sym same) above
    AllAbove-here b n above missing (o ∷ os) c (same, p, up, line) = absurd (cc (sym missing ∙ up))

    AllAbove-parent :
        (b p : N) (n : ℕ) → n < number b → parent b ≡ some p → AllAbove p n → AllAbove b n
    AllAbove-parent b p n above up all [] c same = rw (sym same) above
    AllAbove-parent b p n above up all (o ∷ os) c (same, q, up', line) =
        all os c (subst (λ k. Line k os c) (some-injective (sym up' ∙ up)) line)

    -- what a walk down to a number comes to: nil where all of the line is above the number, else the
    -- first of the line that is not
    abbrev pub Walk : N → ℕ → Type 0 → (List N → N → Type 0) → Type 0
    Walk b n lost found =
        (lost × AllAbove b n)
        ⊎ ((os : List N) × (c : N) × found os c
            × Line b os c
            × ((number c ≤ n) × ((number c ≡ number b) ⊎ (number c ≡ n))))

    pub Walk-here :
        (b : N) (n : ℕ) {lost : Type 0} {found : List N → N → Type 0}
        → number b ≤ n
        → found [] b
        → Walk b n lost found
    Walk-here b n low f = inr ([], b, f, refl, (low, inl refl))

    pub Walk-missing :
        (b : N) (n : ℕ) {lost : Type 0} {found : List N → N → Type 0}
        → n < number b
        → parent b ≡ none
        → lost
        → Walk b n lost found
    Walk-missing b n above missing l = inl (l, AllAbove-here b n above missing)

    pub Walk-parent :
        (b p : N) (n : ℕ) {lost lost' : Type 0} {found found' : List N → N → Type 0}
        → n < number b
        → parent b ≡ some p
        → (lost → lost')
        → ((os : List N) (c : N) → found os c → found' (b ∷ os) c)
        → Walk p n lost found
        → Walk b n lost' found'
    Walk-parent b p n above up l f (inl (nil, all)) =
        inl (l nil, AllAbove-parent b p n above up all)
    Walk-parent b p n above up l f (inr (os, c, it, line, (low, inl level))) = inr (
      b ∷ os,
      c,
      f os c it,
      (refl, p, up, line),
      (low, inr (let below = numbered b p up in omega (arith, low, level, below, above))),
    )
    Walk-parent b p n above up l f (inr (os, c, it, line, (low, inr level))) =
        inr (b ∷ os, c, f os c it, (refl, p, up, line), (low, inr level))

    -- what the walk of both comes to: nil where no two of the lines have one hash, else the first two
    abbrev pub Meets : N → N → Type 0 → (List N → List N → N → N → Type 0) → Type 0
    Meets b a lost found =
        (lost × NoFork b a)
        ⊎ ((os : List N) × (ns : List N) × (c : N) × (e : N) × found os ns c e
            × ForkAt b a os ns c e
            × First b a os ns)

    pub Meets-here :
        (b a : N) {lost : Type 0} {found : List N → List N → N → N → Type 0}
        → hash b ≡ hash a
        → found [] [] b a
        → Meets b a lost found
    Meets-here b a same f =
        inr ([], [], b, a, f, (refl, refl, same), λ os' ns' c e fork. (omega arith, omega arith))

    -- a fork of two with one number, but not one hash, is a fork of their parents
    abbrev FromParents : N → N → List N → List N → N → N → Type 0
    FromParents b a os ns c e =
        (os1 : List N) × (ns1 : List N) × (p : N) × (q : N) × (os ≡ b ∷ os1)
        × (ns ≡ a ∷ ns1)
        × (parent b ≡ some p)
        × (parent a ≡ some q)
        × ForkAt p q os1 ns1 c e

    fork_above :
        (b a c e : N) (os ns : List N)
        → HashesApart b a
        → number b ≡ number a
        → hash b ≢ hash a
        → ForkAt b a os ns c e
        → FromParents b a os ns c e
    fork_above b a c e [] [] apart level differ (same, same', one) =
        absurd (differ (ap hash same ∙ one ∙ sym (ap hash same')))
    fork_above b a c e [] (n ∷ ns) apart level differ (same, line, one) =
        let together = apart [] (n ∷ ns) c e same line one in
        let below = Line-number a e (n ∷ ns) line in
        let here = ap number same in absurd (omega (arith, together, below, level, here))
    fork_above b a c e (o ∷ os) [] apart level differ (line, same, one) =
        let together = apart (o ∷ os) [] c e line same one in
        let below = Line-number b c (o ∷ os) line in
        let here = ap number same in absurd (omega (arith, together, below, level, here))
    fork_above b a c e (o ∷ os) (n ∷ ns) apart level differ
          ((at, p, up, line), (at', q, over, line'), one) =
        (os, ns, p, q, rw at refl, rw at' refl, up, over, (line, line', one))

    pub Meets-missing :
        (b a : N) {lost : Type 0} {found : List N → List N → N → N → Type 0}
        → HashesApart b a
        → number b ≡ number a
        → hash b ≢ hash a
        → (parent b ≡ none) ⊎ (parent a ≡ none)
        → lost
        → Meets b a lost found
    Meets-missing b a apart level differ (inl missing) l = inl (
      l,
      λ os ns c e fork.
          let from = fork_above b a c e os ns apart level differ fork in
          let up = from.6 in absurd (cc (sym missing ∙ up)),
    )
    Meets-missing b a apart level differ (inr missing) l = inl (
      l,
      λ os ns c e fork.
          let from = fork_above b a c e os ns apart level differ fork in
          let over = from.7 in absurd (cc (sym missing ∙ over)),
    )

    pub HashesApart-Line :
        (b a c e : N) (os ns : List N)
        → Line b os c
        → Line a ns e
        → HashesApart b a
        → HashesApart c e
    HashesApart-Line b a c e os ns line line' apart ps qs top top' up up' one =
        apart (os ++ ps) (ns ++ qs) top top' (Line-append b c top os ps line up)
          (Line-append a e top' ns qs line' up') one

    pub Meets-parent :
        (b a p q : N) {lost lost' : Type 0} {found found' : List N → List N → N → N → Type 0}
        → HashesApart b a
        → number b ≡ number a
        → hash b ≢ hash a
        → parent b ≡ some p
        → parent a ≡ some q
        → (lost → lost')
        → ((os ns : List N) (c e : N) → found os ns c e → found' (b ∷ os) (a ∷ ns) c e)
        → Meets p q lost found
        → Meets b a lost' found'
    Meets-parent b a p q apart level differ up over l f (inl (nil, none_there)) = inl (
      l nil,
      λ os ns c e fork.
          let from = fork_above b a c e os ns apart level differ fork in
          let one : from.2 ≡ p = some-injective (sym from.6 ∙ up) in
          let two : from.3 ≡ q = some-injective (sym from.7 ∙ over) in
          none_there from.0 from.1 c e (
            subst (λ k. ForkAt k q from.0 from.1 c e) one
              (subst (λ k. ForkAt from.2 k from.0 from.1 c e) two from.8)),
    )
    Meets-parent b a p q apart level differ up over l f
          (inr (os, ns, c, e, it, (line, line', same), nearest)) =
        inr (
          b ∷ os,
          a ∷ ns,
          c,
          e,
          f os ns c e it,
          ((refl, p, up, line), (refl, q, over, line'), same),
          λ os' ns' c' e' fork.
              let from = fork_above b a c' e' os' ns' apart level differ fork in
              let one : from.2 ≡ p = some-injective (sym from.6 ∙ up) in
              let two : from.3 ≡ q = some-injective (sym from.7 ∙ over) in
              let closer = nearest from.0 from.1 c' e' (
                subst (λ k. ForkAt k q from.0 from.1 c' e') one
                  (subst (λ k. ForkAt from.2 k from.0 from.1 c' e') two from.8)) in
              rw (from.4, from.5) (omega (arith, closer.0), omega (arith, closer.1)),
        )

    -- a fork passes by two of one number, of which one is as low as its end of the lines
    fork_below :
        (b a c e c' e' : N) (os ns os' ns' : List N)
        → HashesApart b a
        → Line b os c
        → Line a ns e
        → number c ≡ number e
        → (number c ≡ number b) ⊎ (number e ≡ number a)
        → ForkAt b a os' ns' c' e'
        → (ps : List N) × (qs : List N) × (os' ≡ os ++ ps)
          × (ns' ≡ ns ++ qs)
          × ForkAt c e ps qs c' e'
    fork_below b a c e c' e' os ns os' ns' apart line line' level end (up, up', same) =
        let together = apart os' ns' c' e' up up' same in
        let n1 = Line-number b c os line in
        let n2 = Line-number a e ns line' in
        let n3 = Line-number b c' os' up in
        let n4 = Line-number a e' ns' up' in
        let short : (length os ≤ length os') × (length ns ≤ length ns') = elim end [
          | inl low ↦ (
            omega (arith, together, level, n1, n2, n3, n4, low),
            omega (arith, together, level, n1, n2, n3, n4, low),
          )
          | inr low ↦ (
            omega (arith, together, level, n1, n2, n3, n4, low),
            omega (arith, together, level, n1, n2, n3, n4, low),
          )
        ] in
        let first = Line-split b c c' os os' line up short.0 in
        let second = Line-split a e e' ns ns' line' up' short.1 in
        (first.0, second.0, first.1, second.1, (first.2, second.2, same))

    pub Meets-Lines :
        (b a c e : N) (os ns : List N) {lost lost' : Type 0}
        {found found' : List N → List N → N → N → Type 0}
        → HashesApart b a
        → Line b os c
        → Line a ns e
        → number c ≡ number e
        → (number c ≡ number b) ⊎ (number e ≡ number a)
        → (lost → lost')
        → ((ps qs : List N) (top top' : N)
            → found ps qs top top'
            → found' (os ++ ps) (ns ++ qs) top top')
        → Meets c e lost found
        → Meets b a lost' found'
    Meets-Lines b a c e os ns apart line line' level end l f (inl (nil, none_there)) = inl (
      l nil,
      λ os' ns' c' e' fork.
          let on = fork_below b a c e c' e' os ns os' ns' apart line line' level end fork in
          none_there on.0 on.1 c' e' on.4,
    )
    Meets-Lines b a c e os ns apart line line' level end l f
          (inr (ps, qs, top, top', it, (up, up', same), nearest)) =
        inr (
          os ++ ps,
          ns ++ qs,
          top,
          top',
          f ps qs top top' it,
          (Line-append b c top os ps line up, Line-append a e top' ns qs line' up', same),
          λ os' ns' c' e' fork.
              let on = fork_below b a c e c' e' os ns os' ns' apart line line' level end fork in
              let closer = nearest on.0 on.1 c' e' on.4 in
              rw (on.2, on.3)
                (
                  omega (arith, closer.0, length-append os ps, length-append os on.0),
                  omega (arith, closer.1, length-append ns qs, length-append ns on.1),
                ),
        )

    -- all of the first line is above the second one's start
    pub NoFork-above : (b a : N) → HashesApart b a → AllAbove b (number a) → NoFork b a
    NoFork-above b a apart above os ns c e (line, line', same) =
        omega (arith, above os c line, apart os ns c e line line' same, Line-number a e ns line')

    -- all of the second line is above where the first one came to
    pub NoFork-below :
        (b a : N) (n : ℕ)
        → HashesApart b a
        → (n ≡ number b) ⊎ (n ≡ number a)
        → AllAbove a n
        → NoFork b a
    NoFork-below b a n apart (inr same_start) above os ns c e fork =
        omega (arith, same_start, above [] a refl)
    NoFork-below b a n apart (inl low) above os ns c e (line, line', same) =
        omega
          (arith, low, above ns e line', apart os ns c e line line' same, Line-number b c os line)
