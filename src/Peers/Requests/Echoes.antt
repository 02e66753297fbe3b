-- ===== src/Peers/Requests/Echoes.antt =====
-- network/p2phandlers/tx.go: what a peer has sent is not sent back to it.
use plasma.Bytes.{Bytes, Hash}
use plasma.Peers.{
  SetLibrary, IsSetLibrary, RemotePeerCache, Caches, PeerId, max_known_txs, update_cache, pop_loop,
  mark, mark_each, mark_txs,
}
use plasma.Peers.Broadcast.{
  broadcast_txs, sent_to, IsMap, Fresh, find_cache, unknown_txs, sent_to-broadcast_txs,
}
use plasma.Peers.Requests.{recv_txs}
use plasma.Prelude.{
  ℕ, zero, suc, ◌+◌, ◌≤◌, ◌<◌, ◌≡◌, refl, ap, ◌∙◌, inl, inr, true, false, Option, some, List, [],
  ◌∷◌, arith, leb, bytes_equal, Bool-cases, length,
}
use plasma.Prelude.Outcome.{Outcome, ok}
use plasma.Types.External.{External, tx_hash}
use plasma.Types.Transaction.{Transaction}

find_cache-update_cache :
    {K : Type 0} (f : RemotePeerCache K → RemotePeerCache K) (p : PeerId) (caches : Caches K)
    (c : RemotePeerCache K)
    → find_cache p caches ≡ some c
    → find_cache p (update_cache f p caches) ≡ some (f c)
unfolding update_cache
find_cache-update_cache f p [] c e = absurd (cc e)
find_cache-update_cache f p ((q, old) ∷ rest) c e = elim (Bool-cases (bytes_equal q p)) [
  | inl b ↦ let same : old ≡ c = cc (rw b at e) in rw (b, same) (rw b refl)
  | inr b ↦ rw (b, b) (find_cache-update_cache f p rest c (rw b at e))
]

Fresh-update_cache :
    {K : Type 0} (f : RemotePeerCache K → RemotePeerCache K) (p q : PeerId) (caches : Caches K)
    → Fresh q caches
    → Fresh q (update_cache f p caches)
unfolding update_cache
Fresh-update_cache f p q [] fresh = tt
Fresh-update_cache f p q ((r, c) ∷ rest) fresh = elim (Bool-cases (bytes_equal r p)) [
  | inl b ↦ rw b fresh
  | inr b ↦ rw b (fresh.0, Fresh-update_cache f p q rest fresh.1)
]

IsMap-update_cache :
    {K : Type 0} (f : RemotePeerCache K → RemotePeerCache K) (p : PeerId) (caches : Caches K)
    → ((c : RemotePeerCache K) → (f c).peerid ≡ c.peerid)
    → IsMap caches
    → IsMap (update_cache f p caches)
unfolding update_cache
IsMap-update_cache f p [] same keyed = tt
IsMap-update_cache f p ((r, c) ∷ rest) same keyed = elim (Bool-cases (bytes_equal r p)) [
  | inl b ↦ rw b (same c ∙ keyed.0, keyed.1, keyed.2)
  | inr b ↦
      rw b
        (keyed.0, Fresh-update_cache f p r rest keyed.1, IsMap-update_cache f p rest same keyed.2)
]

module _ {K : Type 0} (lib : SetLibrary K) where
  pop_loop-below : (limit fuel : ℕ) (s : K) → lib.size s < limit → pop_loop lib limit fuel s ≡ s
  unfolding pop_loop
  pop_loop-below limit zero s room = refl
  pop_loop-below limit (suc fuel) s room =
      let below : leb limit (lib.size s) ≡ false = ground (arith, room) in rw below refl

  -- below the limit nothing is popped
  mark-below :
      (limit : ℕ) (h : Hash) (s : K) → lib.size s < limit → mark lib limit h s ≡ lib.add h s
  unfolding mark
  mark-below limit h s room = ap (lib.add h) (pop_loop-below limit (lib.size s) s room)

  module _ (laws : IsSetLibrary lib)
      (keeps : (h k : Hash) (s : K) → lib.has h s ≡ true → lib.has h (lib.add k s) ≡ true)
      (x : External) where
    mark_each-keeps :
        (txs : List Transaction) (s : K) (h : Hash)
        → lib.size s + length txs ≤ max_known_txs
        → lib.has h s ≡ true
        → lib.has h (mark_each lib x txs s) ≡ true
    unfolding mark_each
    mark_each-keeps [] s h room known = known
    mark_each-keeps (tx ∷ txs) s h room known =
        let added = mark-below max_known_txs (tx_hash x tx) s (omega (arith, room)) in
        rw added (
          mark_each-keeps txs (lib.add (tx_hash x tx) s) h
            (omega (arith, laws.size_add (tx_hash x tx) s, room)) (keeps h (tx_hash x tx) s known))

    -- with room for all of them, all are known afterwards
    unknown-mark_each :
        (txs : List Transaction) (c : RemotePeerCache K) (s : K)
        → lib.size s + length txs ≤ max_known_txs
        → c.known_txs ≡ mark_each lib x txs s
        → unknown_txs lib x c txs ≡ []
    unfolding mark_each
    unknown-mark_each [] c s room same = refl
    unknown-mark_each (tx ∷ txs) c s room same =
        let h = tx_hash x tx in
        let added = mark-below max_known_txs h s (omega (arith, room)) in
        let rest_room : lib.size (lib.add h s) + length txs ≤ max_known_txs =
          omega (arith, laws.size_add h s, room) in
        let rest : c.known_txs ≡ mark_each lib x txs (lib.add h s) =
          same ∙ ap (mark_each lib x txs) added in
        let known : lib.has h c.known_txs ≡ true =
          ap (lib.has h) rest ∙ mark_each-keeps txs (lib.add h s) h rest_room (laws.has_add h s) in
        rw known (unknown-mark_each txs c (lib.add h s) rest_room rest)

    -- After recvTxs of transactions from a connected peer, where there is room for them among the
    -- 32768 that it may be known to have, a set keeps what it has when something is added, and the
    -- node takes them without a panic, a broadcast of these transactions sends this peer nothing.
    pub recv_txs-no_echo :
        {N : Type 0} (decode : Bytes → Option (List Transaction))
        (process_remote_txs : List Transaction → N → Outcome N) (p : PeerId) (bytes : Bytes)
        (txs : List Transaction) (n n' : N) (caches : Caches K) (c : RemotePeerCache K)
        → decode bytes ≡ some txs
        → process_remote_txs txs n ≡ ok n'
        → IsMap caches
        → find_cache p caches ≡ some c
        → lib.size c.known_txs + length txs ≤ max_known_txs
        → (caches' : Caches K) × (recv_txs lib x decode process_remote_txs p bytes (n, caches)
            ≡ ok (n', caches'))
          × (sent_to p (broadcast_txs lib x caches' txs) ≡ [])
    unfolding recv_txs mark_txs
    recv_txs-no_echo decode process_remote_txs p bytes txs n n' caches c sent taken keyed found
          room =
        let marked =
          λ (k : RemotePeerCache K). record k { known_txs = mark_each lib x txs k.known_txs } in
        let caches' = update_cache marked p caches in
        (
          caches',
          rw (recv_txs, sent, taken) refl,
          sent_to-broadcast_txs lib x p caches' (marked c) txs
                (IsMap-update_cache marked p caches (λ k. refl) keyed)
                (find_cache-update_cache marked p caches c found)
              ∙ unknown-mark_each txs (marked c) c.known_txs room refl,
        )
