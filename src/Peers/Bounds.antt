-- ===== src/Peers/Bounds.antt =====
-- The sets of a peer are bounded, whatever it sends.
use plasma.Bytes.{Hash}
use plasma.Peers.{
  SetLibrary, IsSetLibrary, RemotePeerCache, Caches, PeerId, max_known_txs, max_known_blocks,
  set_cache, update_cache, connect_handler, pop_loop, mark, mark_each, mark_txs, mark_block,
}
use plasma.Prelude.{
  ℕ, zero, suc, ◌≤◌, ◌<◌, inl, inr, List, [], ◌∷◌, arith, leb, bytes_equal, Bool-cases, All,
}
use plasma.Types.Block.{Block}
use plasma.Types.External.{tx_hash, block_hash, External}
use plasma.Types.Transaction.{Transaction}

module _ {K : Type 0} (lib : SetLibrary K) where
  abbrev WithinLimits : RemotePeerCache K → Type 0
  WithinLimits c =
      (lib.size c.known_txs ≤ max_known_txs) × (lib.size c.known_block ≤ max_known_blocks)

  abbrev pub AllWithinLimits : Caches K → Type 0
  AllWithinLimits caches = All (λ e. WithinLimits e.1) caches

  module _ (laws : IsSetLibrary lib) where
    pop_loop-makes_room :
        (limit fuel : ℕ) (s : K)
        → lib.size s ≤ fuel
        → 1 ≤ limit
        → lib.size (pop_loop lib limit fuel s) < limit
    unfolding pop_loop
    pop_loop-makes_room limit zero s f l = omega (arith, f, l)
    pop_loop-makes_room limit (suc fuel) s f l = elim (Bool-cases (leb limit (lib.size s))) [
      | inl b ↦ rw b (
          let full : limit ≤ lib.size s = ground (arith, b) in
          let one_less = laws.size_pop s (omega (arith, l, full)) in
          pop_loop-makes_room limit fuel (lib.pop s) (omega (arith, f, one_less)) l)
      | inr b ↦ rw b (ground (arith, b))
    ]

    mark-bounded :
        (limit : ℕ) (h : Hash) (s : K) → 1 ≤ limit → lib.size (mark lib limit h s) ≤ limit
    unfolding mark
    mark-bounded limit h s l =
        let room = pop_loop-makes_room limit (lib.size s) s (omega arith) l in
        let added = laws.size_add h (pop_loop lib limit (lib.size s) s) in
        omega (arith, room, added)

  module _ (x : External) where
    mark_each-bounded :
        (laws : IsSetLibrary lib) (txs : List Transaction) (s : K)
        → lib.size s ≤ max_known_txs
        → lib.size (mark_each lib x txs s) ≤ max_known_txs
    unfolding mark_each
    mark_each-bounded laws [] s b = b
    mark_each-bounded laws (tx ∷ txs) s b =
        mark_each-bounded laws txs (mark lib max_known_txs (tx_hash x tx) s)
          (mark-bounded laws max_known_txs (tx_hash x tx) s (omega arith))

update_cache-All :
    {K : Type 0} {P : RemotePeerCache K → Type 0} (f : RemotePeerCache K → RemotePeerCache K)
    (keep : (c : RemotePeerCache K) → P c → P (f c)) (p : PeerId) (caches : Caches K)
    → All (λ e. P e.1) caches
    → All (λ e. P e.1) (update_cache f p caches)
unfolding update_cache
update_cache-All f keep p [] a = a
update_cache-All f keep p ((q, c) ∷ rest) a = elim (Bool-cases (bytes_equal q p)) [
  | inl b ↦ rw b (keep c a.0, a.1)
  | inr b ↦ rw b (a.0, update_cache-All f keep p rest a.1)
]

set_cache-All :
    {K : Type 0} (P : RemotePeerCache K → Type 0) (p : PeerId) (new : RemotePeerCache K)
    (good : P new) (caches : Caches K)
    → All (λ e. P e.1) caches
    → All (λ e. P e.1) (set_cache p new caches)
unfolding set_cache
set_cache-All P p new good [] a = (good, tt)
set_cache-All P p new good ((q, c) ∷ rest) a = elim (Bool-cases (bytes_equal q p)) [
  | inl b ↦ rw b (good, a.1)
  | inr b ↦ rw b (a.0, set_cache-All P p new good rest a.1)
]

module _ {K : Type 0} (lib : SetLibrary K) (x : External) where
  -- what the network can make of the caches
  pub data PeersStep : Caches K → Caches K → Type 0 where
    connected : (caches : Caches K) (p : PeerId) → PeersStep caches (connect_handler lib p caches)
    txs_marked :
        (caches : Caches K) (p : PeerId) (txs : List Transaction)
        → PeersStep caches (mark_txs lib x p txs caches)
    block_marked :
        (caches : Caches K) (p : PeerId) (b : Block)
        → PeersStep caches (mark_block lib x p b caches)

  pub data PeersReach : Caches K → Caches K → Type 0 where
    here : (caches : Caches K) → PeersReach caches caches
    next :
        {start now then_ : Caches K}
        → PeersReach start now
        → PeersStep now then_
        → PeersReach start then_

  module _ (laws : IsSetLibrary lib) where
    PeersStep-WithinLimits :
        {now then_ : Caches K}
        → PeersStep now then_
        → AllWithinLimits lib now
        → AllWithinLimits lib then_
    unfolding connect_handler mark_txs mark_block
    PeersStep-WithinLimits (connected caches p) a =
        set_cache-All (WithinLimits lib) p
          (record { peerid = p; known_txs = lib.empty; known_block = lib.empty })
          (let e = laws.size_empty in (omega (arith, e), omega (arith, e))) caches a
    PeersStep-WithinLimits (txs_marked caches p txs) a =
        update_cache-All (λ c. record c { known_txs = mark_each lib x txs c.known_txs })
          (λ c w. (mark_each-bounded lib x laws txs c.known_txs w.0, w.1)) p caches a
    PeersStep-WithinLimits (block_marked caches p b) a =
        update_cache-All
          (λ c. record c { known_block = mark lib max_known_blocks (block_hash x b) c.known_block })
          (λ c w. (
            w.0,
            mark-bounded lib laws max_known_blocks (block_hash x b) c.known_block (omega arith),
          ))
          p caches a

    -- Whatever peers connect and whatever they send, no peer is ever kept with more than 32768
    -- transactions or more than 1000 blocks, if none was at the start.
    pub PeersReach-WithinLimits :
        {start now : Caches K}
        → AllWithinLimits lib start
        → PeersReach start now
        → AllWithinLimits lib now
    PeersReach-WithinLimits a (here caches) = a
    PeersReach-WithinLimits a (next reached step) =
        PeersStep-WithinLimits step (PeersReach-WithinLimits a reached)
