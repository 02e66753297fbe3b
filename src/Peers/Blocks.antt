-- ===== src/Peers/Blocks.antt =====
-- network/p2phandlers/block.go: blocks that come from peers. The root chain, the peers' answers, the
-- RLP codec and what `WriteBlock` does are parameters; the messages' transport is left out.
use plasma.Bytes.{zero_hash, Bytes, Hash}
use plasma.Peers.{Caches, PeerId, SetLibrary, peer_ids, mark_block}
use plasma.Prelude.{
  ℕ, zero, suc, ◌+◌, ◌-◌, ◌*◌, ◌/◌, Bool, true, false, Option, none, some, [], ◌∷◌, leb, ◌==◌,
  if◌then◌else◌,
}
use plasma.Prelude.Int.{◌+ℤ◌, pos, ◌-ℤ◌, ℤ}
use plasma.Prelude.Outcome.{external, Outcome, ok, err, ◌>>=◌, Error}
use plasma.Types.Block.{Block}
use plasma.Types.External.{External}

-- the 1000 numbers from one submitted block to the next
abbrev pub interval : ℕ
interval = 1000

-- `getMaxBlockNum`, of the two numbers that the contract gives; on `int64`, whose bounds they are
-- far below
unfoldable pub get_max_block_num : Option ℤ → Option ℤ → Outcome ℤ
get_max_block_num none deposit = err external
get_max_block_num (some child) none = err external
get_max_block_num (some child) (some deposit) = ok (((child -ℤ pos interval) +ℤ deposit) -ℤ pos 1)

module _ {T : Type 0} (root_at : ℕ → Hash) (fetch : ℕ → T → Outcome (Bool × T)) where
  unfoldable pub proceed : (T → Outcome (Bool × T)) → Bool × T → Outcome (Bool × T)
  proceed rest (true, t) = rest t
  proceed rest (false, t) = ok (false, t)

  -- the inner loop of `downloadBlocks`, on fuel: a number without a root jumps to the next
  -- submitted block, by one below it and the loop's own step; `false` is that the loop returned
  unfoldable pub download_loop : ℕ → ℕ → ℕ → T → Outcome (Bool × T)
  unfolding proceed
  download_loop zero block_num max t = ok (true, t)
  download_loop (suc fuel) block_num max t =
      let jumped = download_loop fuel (block_num / interval * interval + interval - 1 + 1) max in
      let rest = download_loop fuel (block_num + 1) max in
      if leb block_num max
      then if root_at block_num == zero_hash then jumped t else fetch block_num t >>= proceed rest
      else ok (true, t)

module _ {K N : Type 0} (lib : SetLibrary K) (x : External) (decode : Bytes → Option Block)
    (write_block : Block → N → Outcome (Option Error × N)) where
  -- the node, and the caches of its peers
  abbrev pub Node : Type 0
  Node = N × Caches K

  -- a decoded block is marked as known to the peer and written; `true` is that no error came
  unfoldable pub accept : PeerId → Block → Node → Outcome (Bool × Node)
  accept p b node = do
    written ← write_block b node.0
    ok (elim written.0 [ none ↦ true | some e ↦ false ], (written.1, mark_block lib x p b node.1))

  -- `recvBlock`: the block that is passed on to `broadcastBlock`, none after an error
  unfoldable pub recv_block : PeerId → Bytes → Node → Outcome (Option Block × Node)
  unfolding accept
  recv_block p bytes node = elim (decode bytes) [
    | none ↦ ok (none, node)
    | some b ↦ do done ← accept p b node; ok (if done.0 then some b else none, done.1)
  ]

  -- the rest of the inner loop's body: the first peer is asked; an error of the request leaves
  -- bytes that are decoded all the same
  unfoldable pub fetch_block : (PeerId → ℕ → Bytes) → ℕ → Node → Outcome (Bool × Node)
  unfolding accept
  fetch_block request block_num node = elim (peer_ids node.1) [
    | [] ↦ ok (true, node)
    | p ∷ others ↦ elim (decode (request p block_num)) [
      | none ↦ ok (false, node)
      | some b ↦ accept p b node
    ]
  ]

  -- one turn of `downloadBlocks` where `current` is below `max`
  unfoldable pub download_pass :
      (ℕ → Hash) → (PeerId → ℕ → Bytes) → ℕ → ℕ → Node → Outcome (Bool × Node)
  unfolding fetch_block download_loop
  download_pass root_at request current max node =
      download_loop root_at (fetch_block request) (max - current) (current + 1) max node
