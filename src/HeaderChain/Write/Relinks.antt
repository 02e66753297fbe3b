-- ===== src/HeaderChain/Write/Relinks.antt =====
-- core/headerchain.go: the loop of `WriteHeader` makes the ancestors of a header canonical.
use plasma.Bytes.{Bytes, Hash}
use plasma.HeaderChain.{pred_u64, get_header, HeaderChain, HeaderCaches}
use plasma.HeaderChain.Write.{relink}
use plasma.HeaderChain.Write.Ancestry.{SameTo, CanonTo, Rooted, Rooted-SameTo}
use plasma.HeaderChain.Write.Lookups.{
  IsLru, Coherent, get_header-Finds, Coherent-suc, Coherent-SameTo, pred_u64-suc,
}
use plasma.HeaderChain.Write.Stores.{
  put-IsClosed, canonical-write_canonical, header-write_canonical, canonical-write_canonical_ne,
  IsClosed,
}
use plasma.Prelude.{
  ℕ, zero, suc, ◌^◌, ◌<◌, ◌≡◌, refl, sym, ap, ◌∙◌, subst, ◌≢◌, inl, inr, Option, none, some, List,
  arith, ==-refl, ==_ne,
}
use plasma.Prelude.Outcome.{Outcome, ok}
use plasma.RawDb.Accessors.{write_canonical_hash, read_canonical_hash, read_header}
use plasma.Store.{Write, Database}
use plasma.Store.Laws.{IsStore, View}
use plasma.Types.Block.{Header, header_number}
use plasma.Types.External.{External}

module _ {S C : Type 0} (d : Database S) {Models : S → View → Option (List Write) → Type 0}
    (store : IsStore d Models) (puts : (k v : Bytes) (s : S) → (d.put k v s).0 ≡ none)
    (x : External) (lru : HeaderCaches C) {Has : C → Hash → Header → Type 0}
    (cache : IsLru lru Has) where
  -- what one write of a canonical number leaves as it was
  pub write_canonical-SameTo :
      (n : ℕ) (hash : Hash) (s : S)
      → IsClosed d store puts x s
      → suc n < 2 ^ 64
      → SameTo d x n s (write_canonical_hash d hash (suc n) s)
  write_canonical-SameTo n hash s closed small = record {
    canonical = λ m le.
        canonical-write_canonical_ne d store puts x hash (suc n) m s closed (omega (arith, small))
          (omega (arith, small, le)) (λ e. omega (arith, le, e));
    headers = λ k m le. header-write_canonical d store puts x hash (suc n) k m s closed;
  }

  pub write_canonical-IsClosed :
      (hash : Hash) (n : ℕ) (s : S)
      → IsClosed d store puts x s
      → IsClosed d store puts x (write_canonical_hash d hash n s)
  unfolding write_canonical_hash
  write_canonical-IsClosed hash n s closed = put-IsClosed d store puts x _ _ s closed

  -- The loop ends, with the canonical chain of `hash` up to `n` and all above it as before.
  abbrev pub Relinked : ℕ → Hash → HeaderChain S C → Option (Outcome (HeaderChain S C)) → Type 0
  Relinked n hash hc run =
      (hc' : HeaderChain S C) × (run ≡ some (ok hc'))
      × CanonTo d x hc'.chain_db n hash
      × IsClosed d store puts x hc'.chain_db
      × ((m : ℕ)
          → n < m
          → m < 2 ^ 64
          → read_canonical_hash d m hc'.chain_db ≡ read_canonical_hash d m hc.chain_db)
      × ((k : Hash) (m : ℕ) → read_header d x k m hc'.chain_db ≡ read_header d x k m hc.chain_db)

  relink-stops :
      (fuel n : ℕ) (hash : Hash) (header : Option Header) (hc : HeaderChain S C)
      → read_canonical_hash d n hc.chain_db ≡ hash
      → relink d lru x (suc fuel) hash n header hc ≡ some (ok hc)
  unfolding relink
  relink-stops fuel n hash header hc e = rw (relink, e, ==-refl hash) refl

  overwritten : ℕ → Hash → HeaderChain S C → HeaderChain S C
  overwritten n hash hc = record hc { chain_db = write_canonical_hash d hash (suc n) hc.chain_db }

  relink-steps :
      (fuel n : ℕ) (hash : Hash) (h : Header) (hc : HeaderChain S C)
      → read_canonical_hash d (suc n) hc.chain_db ≢ hash
      → header_number h ≡ suc n
      → suc n < 2 ^ 64
      → relink d lru x (suc fuel) hash (suc n) (some h) hc ≡ (
          let found = get_header d lru x h.parent_hash n (overwritten n hash hc) in
          relink d lru x fuel h.parent_hash n found.0 found.1)
  unfolding relink overwritten
  relink-steps fuel n hash h hc ne numbered small =
      let below : pred_u64 (header_number h) ≡ n = ap pred_u64 numbered ∙ pred_u64-suc n small in
      rw (relink, ==_ne _ hash ne, below) refl

  -- what the rest of the loop gives, from the parent on, is what the whole gives
  Relinked-suc :
      (n : ℕ) (hash : Hash) (h : Header) (hc hc2 : HeaderChain S C)
      (run : Option (Outcome (HeaderChain S C)))
      → IsClosed d store puts x hc.chain_db
      → suc n < 2 ^ 64
      → hash < 256 ^ 32
      → read_header d x hash (suc n) hc.chain_db ≡ some h
      → hc2.chain_db ≡ write_canonical_hash d hash (suc n) hc.chain_db
      → Relinked n h.parent_hash hc2 run
      → Relinked (suc n) hash hc run
  Relinked-suc n hash h hc hc2 run closed small whole found same
        (hc', ends, linked, closed', above, headers) =
      let written = write_canonical_hash d hash (suc n) hc.chain_db in
      let kept : (k : Hash) (m : ℕ)
          → read_header d x k m hc'.chain_db ≡ read_header d x k m hc.chain_db =
        λ k m.
          headers k m
          ∙ ap (read_header d x k m) same
          ∙ header-write_canonical d store puts x hash (suc n) k m hc.chain_db closed in
      (
        hc',
        ends,
        (
          above (suc n) (omega arith) small
              ∙ ap (read_canonical_hash d (suc n)) same
              ∙ canonical-write_canonical d store puts x hash (suc n) hc.chain_db closed whole,
          h,
          kept hash (suc n) ∙ found,
          linked,
        ),
        closed',
        λ m higher fits.
            above m (omega (arith, higher)) fits
            ∙ ap (read_canonical_hash d m) same
            ∙ canonical-write_canonical_ne d store puts x hash (suc n) m hc.chain_db closed
                (omega (arith, small)) (omega (arith, fits)) (λ e. omega (arith, e, higher)),
        kept,
      )

  Relinked-stops :
      (fuel n : ℕ) (hash : Hash) (header : Option Header) (hc : HeaderChain S C)
      → IsClosed d store puts x hc.chain_db
      → CanonTo d x hc.chain_db n hash
      → read_canonical_hash d n hc.chain_db ≡ hash
      → Relinked n hash hc (relink d lru x (suc fuel) hash n header hc)
  Relinked-stops fuel n hash header hc closed linked e =
      (hc, relink-stops fuel n hash header hc e, linked, closed, λ m higher fits. refl, λ k m. refl)

  pub relink-Relinked :
      (fuel n : ℕ) (hash : Hash) (header : Option Header) (hc : HeaderChain S C)
      → n < fuel
      → n < 2 ^ 64
      → IsClosed d store puts x hc.chain_db
      → Coherent d x lru cache n hc.chain_db hc.caches
      → Rooted d x hc.chain_db n hash
      → ((h : Header) → read_header d x hash n hc.chain_db ≡ some h → header ≡ some h)
      → Relinked n hash hc (relink d lru x fuel hash n header hc)
  relink-Relinked zero n hash header hc enough small closed good root found = absurd (omega arith)
  relink-Relinked (suc fuel) zero hash header hc enough small closed good root found =
      Relinked-stops fuel zero hash header hc closed root root
  relink-Relinked (suc fuel) (suc n) hash header hc enough small closed good (inl root) found =
      Relinked-stops fuel (suc n) hash header hc closed root root.0
  relink-Relinked (suc fuel) (suc n) hash header hc enough small closed good
        (inr (h, other, whole, stored, numbered, root)) found =
      let same = write_canonical-SameTo n hash hc.chain_db closed small in
      let hc1 = overwritten n hash hc in
      let next = get_header d lru x h.parent_hash n hc1 in
      let finds =
        get_header-Finds d x lru cache n hc1 h.parent_hash n
          (unfold overwritten in
            Coherent-SameTo d x lru cache n hc.chain_db hc1.chain_db hc.caches same
              (Coherent-suc d x lru cache n hc.chain_db hc.caches good))
          (omega arith) in
      let db : next.1.chain_db ≡ write_canonical_hash d hash (suc n) hc.chain_db =
        unfold overwritten in finds.1 in
      let rest =
        relink-Relinked fuel n h.parent_hash next.0 next.1 (omega (arith, enough))
          (omega (arith, small))
          (subst (IsClosed d store puts x) (sym db)
            (write_canonical-IsClosed hash (suc n) hc.chain_db closed))
          finds.2
          (subst (λ s. Rooted d x s n h.parent_hash) (sym db)
            (Rooted-SameTo d x n h.parent_hash same root))
          (λ g e. finds.0 g (sym (ap (read_header d x h.parent_hash n) finds.1) ∙ e)) in
      subst (Relinked (suc n) hash hc)
        (sym (
          ap (λ given. relink d lru x (suc fuel) hash (suc n) given hc) (found h stored)
          ∙ relink-steps fuel n hash h hc other numbered small))
        (Relinked-suc n hash h hc next.1 (relink d lru x fuel h.parent_hash n next.0 next.1) closed
          small whole stored db rest)
