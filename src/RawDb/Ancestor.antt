-- ===== src/RawDb/Ancestor.antt =====
-- core/rawdb/accessors_chain.go: `FindCommonAncestor`. Its three loops stand on fuel; `none` is that
-- the fuel ran out, `some none` is nil.
use mathlib.Core.Bool.{false≢true}
use plasma.Ancestors.{
  Line, IsNumbered, HashesApart, ForkAt, NoFork, First, Walk, Walk-here, Walk-missing, Walk-parent,
  Meets, Meets-here, Meets-missing, Meets-parent, Meets-Lines, HashesApart-Line, NoFork-above,
  NoFork-below,
}
use plasma.Prelude.{
  ==-refl, ==_iff, ◌⊎◌, ◌≢◌, sym, ◌∙◌, List, [], ◌∷◌, ℕ, zero, suc, ◌+◌, ◌-◌, ◌%◌, ◌^◌, ◌≤◌, ◌<◌,
  ◌≡◌, refl, inl, inr, Option, none, some, arith, ltb, ◌==◌, if◌then◌else◌, Bool-cases,
  Option-cases,
}
use plasma.RawDb.Accessors.{read_header}
use plasma.Store.{Database}
use plasma.Types.Block.{header_number, Header}
use plasma.Types.External.{header_hash, External}

module _ {S : Type 0} (d : Database S) (x : External) (s : S) where
  -- `ReadHeader` of the parent hash and the number before
  unfoldable pub parent_of : Header → Option Header
  parent_of h = read_header d x h.parent_hash ((header_number h + (2 ^ 64 - 1)) % 2 ^ 64) s

  -- the first two loops: up to a header that is not above the number
  unfoldable pub descend : ℕ → ℕ → Header → Option (Option Header)
  unfolding parent_of
  descend zero n h = none
  descend (suc fuel) n h =
      let next = descend fuel n in
      if ltb n (header_number h)
      then elim (parent_of h) [ none ↦ some none | some k ↦ next k ]
      else some (some h)

  -- the third loop: both go up until they have one hash
  unfoldable pub meet : ℕ → Header → Header → Option (Option Header)
  unfolding parent_of
  meet zero a b = none
  meet (suc fuel) a b =
      let next = meet fuel in
      if header_hash x a == header_hash x b then some (some a) else elim (parent_of a) [
        | none ↦ some none
        | some a' ↦ elim (parent_of b) [ none ↦ some none | some b' ↦ next a' b' ]
      ]

  meet_from : ℕ → Header → Option (Option Header) → Option (Option Header)
  unfolding meet
  meet_from fuel a none = none
  meet_from fuel a (some none) = some none
  meet_from fuel a (some (some b)) = meet fuel a b

  descend_other : ℕ → Header → Option (Option Header) → Option (Option Header)
  unfolding descend meet_from
  descend_other fuel b none = none
  descend_other fuel b (some none) = some none
  descend_other fuel b (some (some a)) = meet_from fuel a (descend fuel (header_number a) b)

  unfoldable pub find_common_ancestor : ℕ → Header → Header → Option (Option Header)
  unfolding descend descend_other
  find_common_ancestor fuel a b = descend_other fuel b (descend fuel (header_number b) a)

  -- the ancestors of a header, by the records in the database
  abbrev pub HeadersNumbered : Type 0
  HeadersNumbered = IsNumbered parent_of header_number (header_hash x)

  abbrev pub HeadersApart : Header → Header → Type 0
  HeadersApart a b = HashesApart parent_of header_number (header_hash x) a b

  -- nil where no ancestor of one, itself included, has the hash of one of the other; else one of the
  -- first with the hash of one of the second, and no other two are nearer
  abbrev pub IsLastCommon : Header → Header → Option Header → Type 0
  IsLastCommon a b r =
      ((r ≡ none) × NoFork parent_of header_number (header_hash x) a b)
      ⊎ ((os : List Header) × (ns : List Header) × (c : Header) × (e : Header) × (r ≡ some c)
          × ForkAt parent_of header_number (header_hash x) a b os ns c e
          × First parent_of header_number (header_hash x) a b os ns)

  module _ (numbered : HeadersNumbered) where
    -- the first two loops
    descend-Walk :
        (fuel n : ℕ) (h : Header)
        → header_number h < fuel
        → Walk parent_of header_number
            (header_hash x)
            numbered
            h
            n
            (descend fuel n h ≡ some none)
            (λ os c. descend fuel n h ≡ some (some c))
    unfolding descend
    descend-Walk zero n h enough = absurd (omega (arith, enough))
    descend-Walk (suc fuel) n h enough = elim (Bool-cases (ltb n (header_number h))) [
      | inr low ↦
          let same : descend (suc fuel) n h ≡ some (some h) = rw (descend, low) refl in
          Walk-here parent_of header_number (header_hash x) numbered h n (ground (arith, low)) same
      | inl high ↦
          let above : n < header_number h = ground (arith, high) in
          elim (Option-cases (parent_of h)) [
            | inl missing ↦
                let ended : descend (suc fuel) n h ≡ some none = rw (descend, high, missing) refl in
                Walk-missing parent_of header_number (header_hash x) numbered h n above missing
                  ended
            | inr up ↦
                let below = numbered h up.0 up.1 in
                let on : descend (suc fuel) n h ≡ descend fuel n up.0 =
                  rw (descend, high, up.1) refl in
                Walk-parent parent_of header_number (header_hash x) numbered h up.0 n above up.1
                  (λ r. on ∙ r) (λ os c r. on ∙ r)
                  (descend-Walk fuel n up.0 (omega (arith, below, enough)))
          ]
    ]

    abbrev Met : Header → Header → Option (Option Header) → Type 0
    Met a b run =
        Meets parent_of header_number (header_hash x) numbered a b (run ≡ some none)
          (λ os ns c e. run ≡ some (some c))

    -- the third loop
    meet-Met :
        (fuel : ℕ) (a b : Header)
        → HeadersApart a b
        → header_number a ≡ header_number b
        → header_number a < fuel
        → Met a b (meet fuel a b)
    unfolding meet
    meet-Met zero a b apart level enough = absurd (omega (arith, enough))
    meet-Met (suc fuel) a b apart level enough =
        elim (Bool-cases (header_hash x a == header_hash x b)) [
          | inl one ↦
              let met : meet (suc fuel) a b ≡ some (some a) = rw (meet, one) refl in
              Meets-here parent_of header_number (header_hash x) numbered a b ((==_iff _ _).0 one)
                met
          | inr two ↦
              let differ : header_hash x a ≢ header_hash x b =
                λ e. false≢true (sym two ∙ rw e (==-refl (header_hash x b))) in
              elim (Option-cases (parent_of a)) [
                | inl missing ↦
                    let ended : meet (suc fuel) a b ≡ some none = rw (meet, two, missing) refl in
                    Meets-missing parent_of header_number (header_hash x) numbered a b apart level
                      differ (inl missing) ended
                | inr up ↦ elim (Option-cases (parent_of b)) [
                  | inl missing ↦
                      let ended : meet (suc fuel) a b ≡ some none =
                        rw (meet, two, up.1, missing) refl in
                      Meets-missing parent_of header_number (header_hash x) numbered a b apart level
                        differ (inr missing) ended
                  | inr over ↦
                      let below = numbered a up.0 up.1 in
                      let below' = numbered b over.0 over.1 in
                      let on : meet (suc fuel) a b ≡ meet fuel up.0 over.0 =
                        rw (meet, two, up.1, over.1) refl in
                      let closer =
                        HashesApart-Line parent_of header_number (header_hash x) numbered a b up.0
                          over.0 (a ∷ []) (b ∷ []) (refl, up.0, up.1, refl)
                          (refl, over.0, over.1, refl) apart in
                      Meets-parent parent_of header_number (header_hash x) numbered a b up.0 over.0
                        apart level differ up.1 over.1 (λ r. on ∙ r) (λ os ns c e r. on ∙ r)
                        (meet-Met fuel up.0 over.0 closer (omega (arith, below, below', level))
                          (omega (arith, below, enough)))
                ]
              ]
        ]

    -- from where the first loop came to
    meet_from-Met :
        (fuel : ℕ) (a b c : Header) (os : List Header)
        → HeadersApart a b
        → header_number c < fuel
        → header_number b < fuel
        → Line parent_of header_number (header_hash x) a os c
        → header_number c ≤ header_number b
        → (header_number c ≡ header_number a) ⊎ (header_number c ≡ header_number b)
        → Met a b (meet_from fuel c (descend fuel (header_number c) b))
    unfolding meet_from
    meet_from-Met fuel a b c os apart enough enough' line low end =
        elim (descend-Walk fuel (header_number c) b enough') [
          | inl (ended, above) ↦ inl (
            rw ended refl,
            NoFork-below parent_of header_number (header_hash x) numbered a b (header_number c)
                apart end above,
          )
          | inr (ns, e, run, line', (low', stop)) ↦
              let level : header_number c ≡ header_number e = elim stop [
                | inl start ↦ omega (arith, start, low, low')
                | inr same ↦ omega (arith, same)
              ] in
              let either : (header_number c ≡ header_number a)
                  ⊎ (header_number e ≡ header_number b) =
                elim end [ inl at ↦ inl at | inr at ↦ inr (omega (arith, at, level)) ] in
              let closer =
                HashesApart-Line parent_of header_number (header_hash x) numbered a b c e os ns line
                  line' apart in
              let on : meet_from fuel c (descend fuel (header_number c) b) ≡ meet fuel c e =
                rw run refl in
              Meets-Lines parent_of header_number (header_hash x) numbered a b c e os ns apart line
                line' level either (λ r. on ∙ r) (λ ps qs top top' r. on ∙ r)
                (meet-Met fuel c e closer level enough)
        ]

    descend_other-Met :
        (fuel : ℕ) (a b : Header)
        → HeadersApart a b
        → header_number a < fuel
        → header_number b < fuel
        → Met a b (descend_other fuel b (descend fuel (header_number b) a))
    unfolding descend_other
    descend_other-Met fuel a b apart enough enough' =
        elim (descend-Walk fuel (header_number b) a enough) [
          | inl (ended, above) ↦ inl (
            rw ended refl,
            NoFork-above parent_of header_number (header_hash x) numbered a b apart above,
          )
          | inr (os, c, run, line, (low, end)) ↦
              rw run (
                meet_from-Met fuel a b c os apart (omega (arith, low, enough')) enough' line low
                  end)
        ]

  -- Where every header that is found as a parent has the number before, and no two of the ancestors
  -- with different numbers share a hash, FindCommonAncestor, on more fuel than both numbers, ends. It
  -- returns nil only if no ancestor of the one header, itself included, has the hash of one of the
  -- other; else it returns an ancestor of the first whose hash one of the second has, and no other
  -- two are nearer to the headers.
  pub find_common_ancestor-IsLastCommon :
      (fuel : ℕ) (a b : Header)
      → HeadersNumbered
      → HeadersApart a b
      → header_number a < fuel
      → header_number b < fuel
      → (r : Option Header) × (find_common_ancestor fuel a b ≡ some r) × IsLastCommon a b r
  unfolding find_common_ancestor
  find_common_ancestor-IsLastCommon fuel a b numbered apart enough enough' =
      elim (descend_other-Met numbered fuel a b apart enough enough') [
        | inl (ended, none_there) ↦ (none, ended, inl (refl, none_there))
        | inr (os, ns, c, e, run, fork, nearest) ↦
            (some c, run, inr (os, ns, c, e, refl, fork, nearest))
      ]
