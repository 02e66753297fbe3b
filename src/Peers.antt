-- ===== src/Peers.antt =====
-- network/p2p.go: what each connected peer is known to have. `fatih/set` is a parameter; the Go map
-- of the caches is the list of its entries, in the order in which a `range` meets them. The set-up
-- of the host and the configuration are left out.
pub mod Bounds
pub mod Broadcast
pub mod Blocks
pub mod Downloads
pub mod Requests
use plasma.Bytes.{Hash, Bytes}
use plasma.Prelude.{
  ℕ, zero, suc, ◌≤◌, ◌≡◌, Bool, true, not, List, [], ◌∷◌, leb, if◌then◌else◌, bytes_equal,
}
use plasma.Types.Block.{Block}
use plasma.Types.External.{tx_hash, block_hash, External}
use plasma.Types.Transaction.{Transaction}

-- an `ipeer.ID`
abbrev pub PeerId : Type 0
PeerId = Bytes

-- `set.Interface` of `set.NonThreadSafe`
pub record SetLibrary (K : Type 0) : Type 0 where
  pub empty : K
  pub size : K → ℕ
  pub has : Hash → K → Bool
  pub add : Hash → K → K
  pub pop : K → K

-- what its documentation says: `Add` adds the item, `Pop` deletes one item of a set that has any
pub record IsSetLibrary {K : Type 0} (lib : SetLibrary K) : Type 0 where
  pub size_empty : lib.size lib.empty ≡ 0
  pub size_add : (h : Hash) (s : K) → lib.size (lib.add h s) ≤ suc (lib.size s)
  pub size_pop : (s : K) → 1 ≤ lib.size s → suc (lib.size (lib.pop s)) ≡ lib.size s
  pub has_add : (h : Hash) (s : K) → lib.has h (lib.add h s) ≡ true

pub record RemotePeerCache (K : Type 0) : Type 0 where
  pub peerid : PeerId
  pub known_txs : K
  pub known_block : K

-- `RemotePeerCaches`
abbrev pub Caches : Type 0 → Type 0
Caches K = List (PeerId × RemotePeerCache K)

abbrev pub max_known_txs : ℕ
max_known_txs = 32768

abbrev pub max_known_blocks : ℕ
max_known_blocks = 1000

module _ {K : Type 0} where
  -- the assignment to a key of the map
  unfoldable pub set_cache : PeerId → RemotePeerCache K → Caches K → Caches K
  set_cache p c [] = (p, c) ∷ []
  set_cache p c ((q, old) ∷ rest) =
      let set_rest = set_cache p c rest in
      if bytes_equal q p then (q, c) ∷ rest else (q, old) ∷ set_rest

  -- the change of a cache through its pointer; nothing without one
  unfoldable pub update_cache :
      (RemotePeerCache K → RemotePeerCache K) → PeerId → Caches K → Caches K
  update_cache f p [] = []
  update_cache f p ((q, c) ∷ rest) =
      let updated = update_cache f p rest in
      if bytes_equal q p then (q, f c) ∷ rest else (q, c) ∷ updated

  unfoldable pub peer_ids : Caches K → List PeerId
  peer_ids [] = []
  peer_ids ((q, c) ∷ rest) = c.peerid ∷ peer_ids rest

module _ {K : Type 0} (lib : SetLibrary K) where
  -- `connectHandler`
  unfoldable pub connect_handler : PeerId → Caches K → Caches K
  unfolding set_cache
  connect_handler p caches =
      set_cache p (record { peerid = p; known_txs = lib.empty; known_block = lib.empty }) caches

  unfoldable pub peer_ids_without_tx : Hash → Caches K → List PeerId
  peer_ids_without_tx hash [] = []
  peer_ids_without_tx hash ((q, c) ∷ rest) =
      let others = peer_ids_without_tx hash rest in
      if not (lib.has hash c.known_txs) then c.peerid ∷ others else others

  unfoldable pub peer_ids_without_block : Hash → Caches K → List PeerId
  peer_ids_without_block hash [] = []
  peer_ids_without_block hash ((q, c) ∷ rest) =
      let others = peer_ids_without_block hash rest in
      if not (lib.has hash c.known_block) then c.peerid ∷ others else others

  -- `for Size() >= limit { Pop() }`, on fuel; one step for each item of the set is enough
  unfoldable pub pop_loop : ℕ → ℕ → K → K
  pop_loop limit zero s = s
  pop_loop limit (suc fuel) s =
      let rest = pop_loop limit fuel (lib.pop s) in if leb limit (lib.size s) then rest else s

  unfoldable pub mark : ℕ → Hash → K → K
  unfolding pop_loop
  mark limit hash s = lib.add hash (pop_loop limit (lib.size s) s)

  module _ (x : External) where
    unfoldable pub mark_each : List Transaction → K → K
    unfolding mark
    mark_each [] s = s
    mark_each (tx ∷ txs) s = mark_each txs (mark max_known_txs (tx_hash x tx) s)

    unfoldable pub mark_txs : PeerId → List Transaction → Caches K → Caches K
    unfolding mark_each update_cache
    mark_txs p txs caches =
        update_cache (λ c. record c { known_txs = mark_each txs c.known_txs }) p caches

    unfoldable pub mark_block : PeerId → Block → Caches K → Caches K
    unfolding mark update_cache
    mark_block p b caches =
        update_cache
          (λ c. record c { known_block = mark max_known_blocks (block_hash x b) c.known_block }) p
          caches
