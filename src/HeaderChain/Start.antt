-- ===== src/HeaderChain/Start.antt =====
-- core/headerchain.go: `NewHeaderChain`. The random seed is left out; the header that stands for the
-- current one before the first `Store` is never read.
use plasma.Bytes.{Hash, zero_hash}
use plasma.HeaderChain.{HeaderChain, HeaderCaches, get_header_by_number, get_header_by_hash}
use plasma.Prelude.{none, some, [], ◌==◌, if◌then◌else◌}
use plasma.Prelude.Outcome.{no_genesis, Outcome, ok, err}
use plasma.RawDb.Accessors.{read_head_block_hash}
use plasma.Store.{Database}
use plasma.Types.Block.{Header}
use plasma.Types.External.{header_hash, External}

blank_header : Header
blank_header = record {
  parent_hash = zero_hash;
  coinbase = 0;
  tx_hash = zero_hash;
  number = 0;
  time = 0;
  extra = [];
}

module _ {S C : Type 0} (d : Database S) (lru : HeaderCaches C) (x : External) where
  -- the header of the head block where it is named and found, else the one of block 0
  load_head : Hash → HeaderChain S C → HeaderChain S C
  load_head head hc =
      if head == zero_hash
      then hc
      else (let found = get_header_by_hash d lru x head hc in
          elim found.0 [ none ↦ found.1 | some h ↦ record (found.1) { current_header = h } ])

  with_hash : HeaderChain S C → HeaderChain S C
  with_hash hc = record hc { current_header_hash = header_hash x hc.current_header }

  unfoldable pub new_header_chain : S → C → Outcome (HeaderChain S C)
  unfolding blank_header load_head with_hash
  new_header_chain s caches =
      let genesis = get_header_by_number d lru x 0 (record {
        chain_db = s;
        caches = caches;
        current_header = blank_header;
        current_header_hash = zero_hash;
      }) in
      elim genesis.0 [
        | none ↦ err no_genesis
        | some h ↦ ok (
            with_hash
              (load_head (read_head_block_hash d s) (record (genesis.1) { current_header = h })))
      ]
