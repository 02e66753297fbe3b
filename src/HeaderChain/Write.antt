-- ===== src/HeaderChain/Write.antt =====
-- core/headerchain.go: `WriteHeader`, which makes the new header and its ancestors canonical. The
-- loop back to the canonical chain stands on fuel; `none` is that the fuel ran out. A nil header
-- panics where its fields are read. The error that is returned is always nil.
pub mod Stores
pub mod Ancestry
pub mod Lookups
pub mod Relinks
pub mod Extends
use mathlib.Core.Bool.{false≢true}
use plasma.Bytes.{Hash}
use plasma.HeaderChain.{HeaderCaches, HeaderChain, get_header, pred_u64}
use plasma.Prelude.{
  ℕ, zero, suc, ◌+◌, ◌-◌, ◌*◌, ◌/◌, ◌%◌, ◌^◌, ◌≤◌, ◌<◌, ◌≡◌, refl, sym, ap, ◌∙◌, subst, fun_ext,
  ◌≢◌, ◌↔◌, ◌⊎◌, inl, inr, Bool, true, false, ◌&&◌, ◌||◌, not, Option, none, some, List, [], ◌∷◌,
  ◌++◌, map, append_assoc, append-nil, arith, ltb, leb, ◌==◌, if◌then◌else◌, ==_iff, ==-refl,
  bytes_equal, bytes_equal_refl, bytes_equal→eq, bytes_equal_ne, Bool-cases, Option-cases, length,
  get_elem?, take, drop, All, length-append, All-append,
}
use plasma.Prelude.Outcome.{Outcome, ok, err, panic, ◌>>=◌, ◌>>◌, return_if, Error}
use plasma.RawDb.Accessors.{
  read_canonical_hash, write_canonical_hash, write_head_header_hash, write_header,
}
use plasma.Store.{Database}
use plasma.Types.Block.{Header, header_number, copy_header}
use plasma.Types.External.{header_hash, External}

module _ {S C : Type 0} (d : Database S) (lru : HeaderCaches C) (x : External) where
  -- the loop, with `headHash`, `headNumber` and `headHeader`
  unfoldable pub relink :
      ℕ → Hash → ℕ → Option Header → HeaderChain S C → Option (Outcome (HeaderChain S C))
  relink zero hash number header hc = none
  relink (suc fuel) hash number header hc =
      let hc1 : HeaderChain S C = record hc {
        chain_db = write_canonical_hash d hash number hc.chain_db;
      } in
      elim (read_canonical_hash d number hc.chain_db == hash) [
        | true ↦ some (ok hc)
        | false ↦ elim header [
          | none ↦ some panic
          | some h ↦
              let number' = pred_u64 (header_number h) in
              let found = get_header d lru x h.parent_hash number' hc1 in
              relink fuel h.parent_hash number' found.0 found.1
        ]
      ]

  -- what follows the loop
  unfoldable pub extend_chain : Header → HeaderChain S C → HeaderChain S C
  extend_chain header hc =
      let hash = header_hash x header in
      let number = header_number header in
      record {
        chain_db = write_head_header_hash d hash (write_canonical_hash d hash number hc.chain_db);
        caches = lru.add_number hash number (lru.add_header hash header hc.caches);
        current_header = copy_header header;
        current_header_hash = hash;
      }

  extend_linked : Header → Option (Outcome (HeaderChain S C)) → Option (Outcome (HeaderChain S C))
  unfolding extend_chain
  extend_linked header none = none
  extend_linked header (some linked) = some (linked >>= λ hc. ok (extend_chain header hc))

  -- `WriteHeader`
  unfoldable pub write_chain_header :
      ℕ → Header → HeaderChain S C → Option (Outcome (HeaderChain S C))
  unfolding relink extend_linked
  write_chain_header fuel header hc =
      let hc1 : HeaderChain S C = record hc { chain_db = write_header d x header hc.chain_db } in
      let number = pred_u64 (header_number header) in
      let found = get_header d lru x header.parent_hash number hc1 in
      extend_linked header (relink fuel header.parent_hash number found.0 found.1)
