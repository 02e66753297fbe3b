-- ===== src/HeaderChain/Write/Extends.antt =====
-- core/headerchain.go: after `WriteHeader` the canonical chain up to the new header is the chain of
-- its ancestors.
use plasma.Bytes.{Hash, Bytes}
use plasma.HeaderChain.{HeaderCaches, HeaderChain, get_header, pred_u64}
use plasma.HeaderChain.Write.{extend_linked, relink, extend_chain, write_chain_header}
use plasma.HeaderChain.Write.Ancestry.{SameTo, CanonTo, Rooted, CanonTo-SameTo, Rooted-SameTo}
use plasma.HeaderChain.Write.Lookups.{
  IsLru, Coherent, get_header-Finds, Coherent-SameTo, pred_u64-suc,
}
use plasma.HeaderChain.Write.Relinks.{
  relink-Relinked, write_canonical-IsClosed, write_canonical-SameTo,
}
use plasma.HeaderChain.Write.Stores.{
  IsClosed, canonical-write_canonical, canonical-write_canonical_ne, header-write_canonical,
  canonical-write_head, header-write_head, write_header-IsClosed, canonical-write_header,
  header-write_header_ne, header-write_header, read_head-write_head,
}
use plasma.Prelude.{
  ℕ, suc, ◌^◌, ◌<◌, ◌≡◌, refl, sym, ap, ◌∙◌, subst, ◌≢◌, Option, none, some, List, [], arith,
}
use plasma.Prelude.Outcome.{ok}
use plasma.RawDb.Accessors.{
  read_canonical_hash, write_canonical_hash, write_head_header_hash, read_head_header_hash,
  write_header, read_header,
}
use plasma.Store.{Database, Write}
use plasma.Store.Laws.{IsStore, View}
use plasma.Types.Block.{copy_header, Header, header_number}
use plasma.Types.External.{header_hash, External}

module _ {S C : Type 0} (d : Database S) (x : External) (n : ℕ) (header : Header) where
  -- what is shown of the state after `WriteHeader`
  abbrev pub Extended : HeaderChain S C → HeaderChain S C → Type 0
  Extended hc hc' =
      CanonTo d x hc'.chain_db (suc n) (header_hash x header)
      × (hc'.current_header ≡ header)
      × (hc'.current_header_hash ≡ header_hash x header)
      × (read_head_header_hash d hc'.chain_db ≡ header_hash x header)
      × ((m : ℕ)
          → suc n < m
          → m < 2 ^ 64
          → read_canonical_hash d m hc'.chain_db ≡ read_canonical_hash d m hc.chain_db)

  -- the database after it
  abbrev Stored : HeaderChain S C → S → Type 0
  Stored hc t =
      CanonTo d x t (suc n) (header_hash x header)
      × (read_head_header_hash d t ≡ header_hash x header)
      × ((m : ℕ)
          → suc n < m
          → m < 2 ^ 64
          → read_canonical_hash d m t ≡ read_canonical_hash d m hc.chain_db)

module _ {S C : Type 0} (d : Database S) {Models : S → View → Option (List Write) → Type 0}
    (store : IsStore d Models) (puts : (k v : Bytes) (s : S) → (d.put k v s).0 ≡ none)
    (x : External) (lru : HeaderCaches C) {Has : C → Hash → Header → Type 0} (cache : IsLru lru Has)
    (n : ℕ) (header : Header) (numbered : header_number header ≡ suc n)
    (small : suc n < 2 ^ 64) where
  write_header-SameTo :
      (s : S) → IsClosed d store puts x s → SameTo d x n s (write_header d x header s)
  write_header-SameTo s closed = record {
    canonical = λ m le. canonical-write_header d store puts x header m s closed;
    headers = λ k m le.
        header-write_header_ne d store puts x header k m s closed
          (λ e. omega (arith, e, numbered, le)) (omega (arith, small, le));
  }

  -- the last two writes
  canonical-Stored :
      (hc : HeaderChain S C) (s : S)
      → header_hash x header < 256 ^ 32
      → IsClosed d store puts x s
      → CanonTo d x s n header.parent_hash
      → read_header d x (header_hash x header) (suc n) s ≡ some header
      → ((m : ℕ)
          → n < m
          → m < 2 ^ 64
          → read_canonical_hash d m s ≡ read_canonical_hash d m hc.chain_db)
      → Stored d x n header hc (
          write_head_header_hash d
            (header_hash x header)
            (write_canonical_hash d (header_hash x header) (suc n) s))
  canonical-Stored hc s whole closed linked stored above =
      let hash = header_hash x header in
      let s1 = write_canonical_hash d hash (suc n) s in
      let closed1 = write_canonical-IsClosed d store puts x lru cache hash (suc n) s closed in
      let same1 = write_canonical-SameTo d store puts x lru cache n hash s closed small in
      let t = write_head_header_hash d hash s1 in
      let same : SameTo d x n s t = record {
        canonical =
            λ m le. canonical-write_head d store puts x hash m s1 closed1 ∙ same1.canonical m le;
        headers =
            λ k m le. header-write_head d store puts x hash k m s1 closed1 ∙ same1.headers k m le;
      } in
      (
        (
          canonical-write_head d store puts x hash (suc n) s1 closed1
              ∙ canonical-write_canonical d store puts x hash (suc n) s closed whole,
          header,
          header-write_head d store puts x hash hash (suc n) s1 closed1
              ∙ header-write_canonical d store puts x hash (suc n) hash (suc n) s closed
              ∙ stored,
          CanonTo-SameTo d x n header.parent_hash same linked,
        ),
        read_head-write_head d store puts x hash s1 closed1 whole,
        λ m higher fits.
            canonical-write_head d store puts x hash m s1 closed1
            ∙ canonical-write_canonical_ne d store puts x hash (suc n) m s closed
                (omega (arith, small)) (omega (arith, fits)) (λ e. omega (arith, e, higher))
            ∙ above m (omega (arith, higher)) fits,
      )

  extend_chain-Extended :
      (hc hc2 : HeaderChain S C)
      → Stored d x n header hc (
          write_head_header_hash d
            (header_hash x header)
            (write_canonical_hash d (header_hash x header) (suc n) hc2.chain_db))
      → Extended d x n header hc (extend_chain d lru x header hc2)
  unfolding extend_chain copy_header
  extend_chain-Extended hc hc2 at =
      let hash = header_hash x header in
      let stored =
        subst
          (λ k.
            Stored d x n header hc
              (write_head_header_hash d hash (write_canonical_hash d hash k hc2.chain_db)))
          (sym numbered) at in
      (stored.0, refl, refl, stored.1, stored.2)

  write_chain_header-eq :
      (fuel : ℕ) (hc : HeaderChain S C)
      → write_chain_header d lru x fuel header hc ≡ (
          let found =
            get_header d lru x header.parent_hash n
              (record hc { chain_db = write_header d x header hc.chain_db }) in
          extend_linked d lru x header (relink d lru x fuel header.parent_hash n found.0 found.1))
  unfolding write_chain_header
  write_chain_header-eq fuel hc =
      let below : pred_u64 (header_number header) ≡ n =
        ap pred_u64 numbered ∙ pred_u64-suc n small in
      rw (write_chain_header, below) refl

  -- WriteHeader of a header with a positive uint64 number, whose parent has stored ancestors down
  -- to a canonical one, ends on more fuel than the parent's number, outside a transaction in which
  -- no write fails, if the cache is an LRU that holds what is stored, no two stored headers share a
  -- hash and the header is decoded again from its encoding. It returns; the header is then the
  -- current one, the canonical hashes up to its number are those of itself, its parent, and so on
  -- down to 0, and those above its number are what they were.
  pub write_chain_header-Extended :
      (fuel : ℕ) (hc : HeaderChain S C)
      → n < fuel
      → header_hash x header < 256 ^ 32
      → IsClosed d store puts x hc.chain_db
      → Coherent d x lru cache n hc.chain_db hc.caches
      → x.decode_header (x.rlp_header header) ≡ some header
      → x.rlp_header header ≢ []
      → Rooted d x hc.chain_db n header.parent_hash
      → (hc' : HeaderChain S C) × (write_chain_header d lru x fuel header hc ≡ some (ok hc'))
        × Extended d x n header hc hc'
  unfolding extend_linked
  write_chain_header-Extended fuel hc enough whole closed good back ne root =
      let s1 = write_header d x header hc.chain_db in
      let hc1 : HeaderChain S C = record hc { chain_db = s1 } in
      let closed1 = write_header-IsClosed d store puts x header hc.chain_db closed in
      let same = write_header-SameTo hc.chain_db closed in
      let next = get_header d lru x header.parent_hash n hc1 in
      let finds =
        get_header-Finds d x lru cache n hc1 header.parent_hash n
          (Coherent-SameTo d x lru cache n hc.chain_db s1 hc.caches same good) (omega arith) in
      let linked =
        relink-Relinked d store puts x lru cache fuel n header.parent_hash next.0 next.1 enough
          (omega (arith, small)) (subst (IsClosed d store puts x) (sym finds.1) closed1) finds.2
          (subst (λ s. Rooted d x s n header.parent_hash) (sym finds.1)
            (Rooted-SameTo d x n header.parent_hash same root))
          (λ g e. finds.0 g (sym (ap (read_header d x header.parent_hash n) finds.1) ∙ e)) in
      let hc2 = linked.0 in
      let read_back : read_header d x (header_hash x header) (suc n) s1 ≡ some header =
        subst (λ k. read_header d x (header_hash x header) k s1 ≡ some header) numbered
          (header-write_header d store puts x header hc.chain_db closed back ne) in
      (
        extend_chain d lru x header hc2,
        write_chain_header-eq fuel hc ∙ ap (extend_linked d lru x header) linked.1,
        extend_chain-Extended hc hc2 (
            canonical-Stored hc hc2.chain_db whole linked.3 linked.2
              (linked.5 (header_hash x header) (suc n)
                ∙ ap (read_header d x (header_hash x header) (suc n)) finds.1
                ∙ read_back)
              (λ m higher fits.
                linked.4 m higher fits
                ∙ ap (read_canonical_hash d m) finds.1
                ∙ canonical-write_header d store puts x header m hc.chain_db closed)),
      )
