-- ===== src/Peers/Broadcast.antt =====
-- network/p2phandlers: what is sent to which peers. A message is the peer it goes to and what it
-- carries; the Go map of a broadcast is the list of its entries.
use mathlib.Core.Bool.{false≢true}
use plasma.Bytes.{Hash}
use plasma.Peers.{
  RemotePeerCache, SetLibrary, Caches, PeerId, peer_ids_without_tx, peer_ids_without_block,
}
use plasma.Prelude.{
  bytes_equal_ne, append_assoc, refl, inr, append-nil, ◌∙◌, sym, inl, some, none, Bool-cases,
  Option, ◌≡◌, false, List, [], ◌∷◌, ◌++◌, map, arith, if◌then◌else◌, bytes_equal, bytes_equal_refl,
  bytes_equal→eq,
}
use plasma.Types.Block.{Block}
use plasma.Types.External.{block_hash, tx_hash, External}
use plasma.Types.Transaction.{Transaction}

-- `txset[peerid] = append(txset[peerid], tx)`
append_tx :
    PeerId → Transaction → List (PeerId × List Transaction) → List (PeerId × List Transaction)
append_tx p tx [] = (p, tx ∷ []) ∷ []
append_tx p tx ((q, txs) ∷ rest) =
    let appended = append_tx p tx rest in
    if bytes_equal q p then (q, txs ++ tx ∷ []) ∷ rest else (q, txs) ∷ appended

-- the loop over the peers that do not know the transaction
append_each :
    List PeerId → Transaction → List (PeerId × List Transaction) → List (PeerId × List Transaction)
unfolding append_tx
append_each [] tx m = m
append_each (p ∷ ps) tx m = append_each ps tx (append_tx p tx m)

module _ {K : Type 0} (lib : SetLibrary K) (x : External) where
  tx_loop :
      Caches K
      → List Transaction
      → List (PeerId × List Transaction)
      → List (PeerId × List Transaction)
  unfolding append_each
  tx_loop caches [] m = m
  tx_loop caches (tx ∷ txs) m =
      tx_loop caches txs (append_each (peer_ids_without_tx lib (tx_hash x tx) caches) tx m)

  -- one turn of `broadcastTxs`: the messages, in some order
  unfoldable pub broadcast_txs : Caches K → List Transaction → List (PeerId × List Transaction)
  unfolding tx_loop
  broadcast_txs caches txs = tx_loop caches txs []

  -- one turn of `broadcastBlock`
  unfoldable pub broadcast_block : Caches K → Block → List (PeerId × Block)
  broadcast_block caches b = map (λ p. (p, b)) (peer_ids_without_block lib (block_hash x b) caches)

-- what a peer is sent, by all the messages to it
unfoldable pub sent_to : PeerId → List (PeerId × List Transaction) → List Transaction
sent_to p [] = []
sent_to p ((q, txs) ∷ rest) =
    let others = sent_to p rest in if bytes_equal q p then txs ++ others else others

-- each entry of the map names its own key, and no key stands twice
abbrev pub Fresh : {K : Type 0} → PeerId → Caches K → Type 0
Fresh p [] = Unit
Fresh p ((q, c) ∷ rest) = (bytes_equal q p ≡ false) × Fresh p rest

abbrev pub IsMap : {K : Type 0} → Caches K → Type 0
IsMap [] = Unit
IsMap ((q, c) ∷ rest) = (c.peerid ≡ q) × Fresh q rest × IsMap rest

-- no message to a peer
abbrev NoneTo : PeerId → List (PeerId × List Transaction) → Type 0
NoneTo p [] = Unit
NoneTo p ((q, txs) ∷ rest) = (bytes_equal q p ≡ false) × NoneTo p rest

-- at most one message to each peer
abbrev pub OnePerPeer : List (PeerId × List Transaction) → Type 0
OnePerPeer [] = Unit
OnePerPeer ((q, txs) ∷ rest) = NoneTo q rest × OnePerPeer rest

sent_to-NoneTo : (p : PeerId) (m : List (PeerId × List Transaction)) → NoneTo p m → sent_to p m ≡ []
unfolding sent_to
sent_to-NoneTo p [] none_to = refl
sent_to-NoneTo p ((q, txs) ∷ rest) (e, none_to) = rw e (sent_to-NoneTo p rest none_to)

NoneTo-append_tx :
    (p q : PeerId) (tx : Transaction) (m : List (PeerId × List Transaction))
    → bytes_equal q p ≡ false
    → NoneTo p m
    → NoneTo p (append_tx q tx m)
unfolding append_tx
NoneTo-append_tx p q tx [] differ none_to = (differ, tt)
NoneTo-append_tx p q tx ((r, txs) ∷ rest) differ (e, none_to) =
    elim (Bool-cases (bytes_equal r q)) [
      | inl b ↦ rw b (e, none_to)
      | inr b ↦ rw b (e, NoneTo-append_tx p q tx rest differ none_to)
    ]

OnePerPeer-append_tx :
    (q : PeerId) (tx : Transaction) (m : List (PeerId × List Transaction))
    → OnePerPeer m
    → OnePerPeer (append_tx q tx m)
unfolding append_tx
OnePerPeer-append_tx q tx [] one = (tt, tt)
OnePerPeer-append_tx q tx ((r, txs) ∷ rest) (fresh, one) = elim (Bool-cases (bytes_equal r q)) [
  | inl b ↦ rw b (fresh, one)
  | inr b ↦
      let differ : bytes_equal q r ≡ false =
        bytes_equal_ne q r (λ e. false≢true (sym b ∙ rw e (bytes_equal_refl r))) in
      rw b (NoneTo-append_tx r q tx rest differ fresh, OnePerPeer-append_tx q tx rest one)
]

OnePerPeer-append_each :
    (ps : List PeerId) (tx : Transaction) (m : List (PeerId × List Transaction))
    → OnePerPeer m
    → OnePerPeer (append_each ps tx m)
unfolding append_each
OnePerPeer-append_each [] tx m one = one
OnePerPeer-append_each (p ∷ ps) tx m one =
    OnePerPeer-append_each ps tx (append_tx p tx m) (OnePerPeer-append_tx p tx m one)

sent_to-append_tx :
    (p q : PeerId) (tx : Transaction) (m : List (PeerId × List Transaction))
    → OnePerPeer m
    → sent_to p (append_tx q tx m)
      ≡ (if bytes_equal q p then sent_to p m ++ tx ∷ [] else sent_to p m)
unfolding sent_to append_tx
sent_to-append_tx p q tx [] one = ground arith
sent_to-append_tx p q tx ((r, txs) ∷ rest) (fresh, one) = elim (Bool-cases (bytes_equal r q)) [
  | inl b ↦
      let same = bytes_equal→eq r q b in
      rw (b, same)
        (elim (Bool-cases (bytes_equal q p)) [
          | inl e ↦
              let nothing : sent_to p rest ≡ [] =
                sent_to-NoneTo p rest (rw (same, bytes_equal→eq q p e) at fresh) in
              rw (e, nothing, append-nil txs, append-nil (txs ++ tx ∷ [])) refl
          | inr e ↦ rw e refl
        ])
  | inr b ↦
      rw (b, sent_to-append_tx p q tx rest one)
        (elim (Bool-cases (bytes_equal r p)) [
          | inr e ↦ rw e refl
          | inl e ↦
              let other : bytes_equal q p ≡ false =
                bytes_equal_ne q p
                  (λ k. false≢true (sym b ∙ rw (k, bytes_equal→eq r p e) (bytes_equal_refl p))) in
              rw (e, other) refl
        ])
]

abbrev pub find_cache : {K : Type 0} → PeerId → Caches K → Option (RemotePeerCache K)
find_cache p [] = none
find_cache p ((q, c) ∷ rest) = if bytes_equal q p then some c else find_cache p rest

module _ {K : Type 0} (lib : SetLibrary K) (x : External) where
  -- the transactions that a peer is not known to have
  abbrev pub unknown_txs : RemotePeerCache K → List Transaction → List Transaction
  unknown_txs c [] = []
  unknown_txs c (tx ∷ txs) =
      if lib.has (tx_hash x tx) c.known_txs then unknown_txs c txs else tx ∷ unknown_txs c txs

module _ {K : Type 0} (lib : SetLibrary K) (hash : Hash) (p : PeerId) (tx : Transaction) where
  append_each-Fresh :
      (caches : Caches K) (m : List (PeerId × List Transaction))
      → IsMap caches
      → OnePerPeer m
      → Fresh p caches
      → sent_to p (append_each (peer_ids_without_tx lib hash caches) tx m) ≡ sent_to p m
  unfolding append_each peer_ids_without_tx
  append_each-Fresh [] m im one f = refl
  append_each-Fresh ((q, c) ∷ rest) m im one f = elim (Bool-cases (lib.has hash c.known_txs)) [
    | inl b ↦ rw b (append_each-Fresh rest m im.2 one f.1)
    | inr b ↦
        rw (b, im.0)
          (append_each-Fresh rest (append_tx q tx m) im.2 (OnePerPeer-append_tx q tx m one) f.1
            ∙ sent_to-append_tx p q tx m one
            ∙ rw f.0 refl)
  ]

  append_each-known :
      (caches : Caches K) (m : List (PeerId × List Transaction)) (c : RemotePeerCache K)
      → IsMap caches
      → OnePerPeer m
      → find_cache p caches ≡ some c
      → sent_to p (append_each (peer_ids_without_tx lib hash caches) tx m)
        ≡ (if lib.has hash c.known_txs then sent_to p m else sent_to p m ++ tx ∷ [])
  unfolding append_each peer_ids_without_tx
  append_each-known [] m c im one f = absurd (cc f)
  append_each-known ((q, c') ∷ rest) m c im one f = elim (Bool-cases (bytes_equal q p)) [
    | inl e ↦
        let same : c' ≡ c = cc (rw e at f) in
        let gone = rw (bytes_equal→eq q p e) at im.1 in
        rw (← same) (elim (Bool-cases (lib.has hash c'.known_txs)) [
          | inl b ↦ rw b (append_each-Fresh rest m im.2 one gone)
          | inr b ↦
              rw (b, im.0)
                (append_each-Fresh rest (append_tx q tx m) im.2 (OnePerPeer-append_tx q tx m one)
                    gone
                  ∙ sent_to-append_tx p q tx m one
                  ∙ rw e refl)
        ])
    | inr e ↦
        let found = rw e at f in
        elim (Bool-cases (lib.has hash c'.known_txs)) [
          | inl b ↦ rw b (append_each-known rest m c im.2 one found)
          | inr b ↦
              rw (b, im.0)
                (let skipped : sent_to p (append_tx q tx m) ≡ sent_to p m =
                    sent_to-append_tx p q tx m one ∙ rw e refl in
                  append_each-known rest (append_tx q tx m) c im.2 (OnePerPeer-append_tx q tx m one)
                    found
                  ∙ rw skipped refl)
        ]
  ]

module _ {K : Type 0} (lib : SetLibrary K) (x : External) (p : PeerId) (caches : Caches K)
    (c : RemotePeerCache K) where
  sent_to-tx_loop :
      (txs : List Transaction) (m : List (PeerId × List Transaction))
      → IsMap caches
      → OnePerPeer m
      → find_cache p caches ≡ some c
      → sent_to p (tx_loop lib x caches txs m) ≡ sent_to p m ++ unknown_txs lib x c txs
  unfolding tx_loop
  sent_to-tx_loop [] m im one f = sym (append-nil (sent_to p m))
  sent_to-tx_loop (tx ∷ txs) m im one f =
      let first = append_each-known lib (tx_hash x tx) p tx caches m c im one f in
      sent_to-tx_loop txs (append_each (peer_ids_without_tx lib (tx_hash x tx) caches) tx m) im
        (OnePerPeer-append_each (peer_ids_without_tx lib (tx_hash x tx) caches) tx m one) f
      ∙ rw first (elim (Bool-cases (lib.has (tx_hash x tx) c.known_txs)) [
        | inl b ↦ rw b refl
        | inr b ↦ rw b (append_assoc (sent_to p m) (tx ∷ []) (unknown_txs lib x c txs))
      ])

  -- All messages of a broadcast to a connected peer together hold exactly the transactions that it
  -- is not known to have, each as often as it is broadcast and in their order, if the map holds each
  -- peer once, under its own name.
  pub sent_to-broadcast_txs :
      (txs : List Transaction)
      → IsMap caches
      → find_cache p caches ≡ some c
      → sent_to p (broadcast_txs lib x caches txs) ≡ unknown_txs lib x c txs
  unfolding broadcast_txs
  sent_to-broadcast_txs txs im f = sent_to-tx_loop txs [] im tt f ∙ unfold sent_to in refl
