-- ===== src/Types/External.antt =====
-- The libraries that core/types calls: Keccak-256, the RLP codec, the Merkle-Patricia trie and the
-- curve. They are parameters; `rlpHash`, `DeriveSha`, `NewBlock` and the hash methods stand on
-- them.
use plasma.Bytes.{Bytes, Hash}
use plasma.Prelude.{ℕ, ◌+◌, ◌≡◌, Bool, Option, some, List, [], ◌∷◌, length, ◌==◌, if◌then◌else◌}
use plasma.Prelude.Outcome.{Outcome}
use plasma.Types.Block.{Header, Block, copy_header}
use plasma.Types.Transaction.{Transaction}

pub record External : Type 0 where
  -- crypto.Keccak256
  pub keccak : Bytes → Hash
  -- rlp.EncodeToBytes and rlp.Decode at each type
  pub rlp_uint : ℕ → Bytes
  pub rlp_header : Header → Bytes
  pub decode_header : Bytes → Option Header
  pub rlp_body : List Transaction → Bytes
  pub decode_body : Bytes → Option (List Transaction)
  pub rlp_tx : Transaction → Bytes
  -- trie.Hash after the updates, in order
  pub trie_hash : List (Bytes × Bytes) → Hash
  -- crypto.ValidateSignatureValues and crypto.Ecrecover
  pub valid_signature : ℕ → ℕ → ℕ → Bool
  pub ecrecover : Hash → Bytes → Outcome Bytes

-- What the code relies on of the codec: what was encoded is decoded again, and no encoding is
-- empty.
pub record Codec (x : External) : Type 0 where
  pub header_back : (h : Header) → x.decode_header (x.rlp_header h) ≡ some h
  pub header_some : (h : Header) → (x.rlp_header h ≡ [] → ⊥)
  pub body_back : (txs : List Transaction) → x.decode_body (x.rlp_body txs) ≡ some txs
  pub body_some : (txs : List Transaction) → (x.rlp_body txs ≡ [] → ⊥)

module _ (x : External) where
  -- `Header.Hash`
  unfoldable pub header_hash : Header → Hash
  header_hash h = x.keccak (x.rlp_header h)

  -- `Block.Hash`
  unfoldable pub block_hash : Block → Hash
  unfolding header_hash
  block_hash b = header_hash b.header

  -- `Transaction.Hash`
  unfoldable pub tx_hash : Transaction → Hash
  tx_hash tx = x.keccak (x.rlp_tx tx)

  -- `Transaction.Size`
  unfoldable pub tx_size : Transaction → ℕ
  tx_size tx = length (x.rlp_tx tx)

  trie_updates : ℕ → List Transaction → List (Bytes × Bytes)
  trie_updates i [] = []
  trie_updates i (tx ∷ txs) = (x.rlp_uint i, x.rlp_tx tx) ∷ trie_updates (i + 1) txs

  unfoldable pub derive_sha : List Transaction → Hash
  unfolding trie_updates
  derive_sha txs = x.trie_hash (trie_updates 0 txs)

  unfoldable pub new_block : Header → List Transaction → Block
  unfolding derive_sha copy_header
  new_block h txs =
      if length txs == 0
      then record { header = record (copy_header h) { tx_hash = derive_sha [] }; transactions = [] }
      else record {
        header = record (copy_header h) { tx_hash = derive_sha txs };
        transactions = txs;
      }
