-- ===== src/Merkle.antt =====
-- core/merkle.go: Merkle trees over hashes. A leaf carries what the code reads by climbing its
-- parent pointers: on which side each node of the way hangs, and the hash of the other child.
pub mod Proves
use plasma.Bytes.{put_uint, Bytes}
use plasma.Prelude.{
  ℕ, zero, suc, ◌+◌, ◌/◌, ◌%◌, Bool, Option, none, some, List, [], ◌∷◌, ◌++◌, ◌==◌, if◌then◌else◌,
  bytes_equal, length, get_elem?, take, drop,
}

-- `p` of a node: as the left child beside this right one, or the other way around
pub data Parent : Type 0 where
  left_of right_of : Bytes → Parent

pub record Leaf : Type 0 where
  pub hash : Bytes
  pub parents : List Parent

pub record MerkleTree : Type 0 where
  pub leaves : List Leaf
  pub root : Bytes

-- 32 zero bytes
unfoldable pub empty_hash : Bytes
empty_hash = put_uint 32 0

-- the new node on top of the way from a leaf
unfoldable pub hang : Parent → List Leaf → List Leaf
hang p [] = []
hang p (l ∷ ls) = record { hash = l.hash; parents = l.parents ++ p ∷ [] } ∷ hang p ls

unfoldable pub sibling : Parent → Bytes
sibling (left_of r) = r
sibling (right_of l) = l

-- the hashes of the siblings, from the leaf up
unfoldable pub siblings : List Parent → List Bytes
unfolding sibling
siblings [] = []
siblings (p ∷ ps) = sibling p ∷ siblings ps

module _ (keccak256 : Bytes → Bytes) where
  unfoldable pub join : MerkleTree → MerkleTree → MerkleTree
  unfolding hang
  join l r = record {
    leaves = hang (left_of r.root) l.leaves ++ hang (right_of l.root) r.leaves;
    root = keccak256 (l.root ++ r.root);
  }

  -- `buildTree`; the fuel is the number of hashes, which each half lessens. Without hashes the code
  -- would not end, and `NewMerkleTree` does not call it so.
  unfoldable pub build_tree : ℕ → List Bytes → MerkleTree
  unfolding join
  build_tree zero hashs = record { leaves = []; root = [] }
  build_tree (suc fuel) hashs =
      let l = build_tree fuel (take (length hashs / 2) hashs) in
      let r = build_tree fuel (drop (length hashs / 2) hashs) in
      elim hashs [
        | [] ↦ record { leaves = []; root = [] }
        | h ∷ [] ↦ record { leaves = record { hash = h; parents = [] } ∷ []; root = h }
        | h ∷ i ∷ rest ↦ join l r
      ]

  -- `NewMerkleTree`: nil without hashes, and a padding hash at an odd length
  unfoldable pub new_merkle_tree : List Bytes → Option MerkleTree
  unfolding build_tree empty_hash
  new_merkle_tree [] = none
  new_merkle_tree (h ∷ hs) =
      let hashs = h ∷ hs in
      if length hashs % 2 == 0
      then some (build_tree (length hashs) hashs)
      else some (build_tree (length hashs + 1) (hashs ++ empty_hash ∷ []))

  -- `Proof`, with nil past the last leaf
  unfoldable pub merkle_proof : MerkleTree → ℕ → List Bytes
  unfolding siblings
  merkle_proof t leaf_idx = elim (get_elem? t.leaves leaf_idx) [
    | none ↦ []
    | some l ↦ siblings l.parents
  ]

  -- the loop of `Verify`
  unfoldable pub climb : Bytes → ℕ → List Bytes → Bytes
  climb computed leaf_idx [] = computed
  climb computed leaf_idx (p ∷ proof) =
      climb (if leaf_idx % 2 == 0 then keccak256 (computed ++ p) else keccak256 (p ++ computed))
        (leaf_idx / 2) proof

  unfoldable pub verify : Bytes → Bytes → ℕ → List Bytes → Bool
  unfolding climb
  verify leaf_hash root_hash leaf_idx proof = bytes_equal (climb leaf_hash leaf_idx proof) root_hash
