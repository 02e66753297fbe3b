-- ===== src/Peers/Requests.antt =====
-- network/p2p.go and network/p2phandlers: messages, requests and their answers. The streams of the
-- host, on a state `W`, and the RLP codec are parameters; a stream that cannot be opened ends the
-- process. A handler's errors are only logged.
pub mod Echoes
use plasma.Bytes.{Bytes}
use plasma.Chain.{Chain, BlockCache, get_block_by_number}
use plasma.HeaderChain.{HeaderCaches}
use plasma.Peers.{Caches, PeerId, SetLibrary, mark_txs}
use plasma.Prelude.{ℕ, ◌%◌, ◌^◌, Option, none, some, List}
use plasma.Prelude.Outcome.{external, Outcome, ok, panic, Error, ◌>>=◌}
use plasma.Store.{Database}
use plasma.Types.Block.{Block}
use plasma.Types.External.{External}
use plasma.Types.Transaction.{Transaction}

-- the identifiers of the three protocols
pub data Proto : Type 0 where
  tx_proto block_proto get_block_proto : Proto

-- the host's streams with `msgio` on them; `none` is an error, and in a result it is none
pub record Transport (T W : Type 0) : Type 0 where
  pub new_stream : PeerId → Proto → W → Option T × W
  pub write_msg : T → Bytes → W → Option Error × W
  pub read_msg : T → W → Option Bytes × W

module _ {T W : Type 0} (host : Transport T W) where
  -- `Response`, of what is encoded
  unfoldable pub response : T → Option Bytes → W → Option Error × W
  response stream none w = (some external, w)
  response stream (some bytes) w = host.write_msg stream bytes w

  written_on : Bytes → Option T × W → Outcome (Option Error × W)
  written_on bytes (none, w) = panic
  written_on bytes (some stream, w) = ok (host.write_msg stream bytes w)

  unfoldable pub send_msg : Proto → PeerId → Option Bytes → W → Outcome (Option Error × W)
  unfolding written_on
  send_msg proto p none w = ok (some external, w)
  send_msg proto p (some bytes) w = written_on bytes (host.new_stream p proto w)

  answered : T → Option Error × W → Option Bytes × W
  answered stream (some e, w) = (none, w)
  answered stream (none, w) = host.read_msg stream w

  asked_on : Bytes → Option T × W → Outcome (Option Bytes × W)
  unfolding answered
  asked_on bytes (none, w) = panic
  asked_on bytes (some stream, w) = ok (answered stream (host.write_msg stream bytes w))

  -- `Request`, `none` for an error
  unfoldable pub request : Proto → PeerId → Option Bytes → W → Outcome (Option Bytes × W)
  unfolding asked_on
  request proto p none w = ok (none, w)
  request proto p (some bytes) w = asked_on bytes (host.new_stream p proto w)

  module _ {S C B : Type 0} (d : Database S) (lru : HeaderCaches C) (lrb : BlockCache B)
      (x : External) (decode_number : Bytes → Option ℕ) (encode_block : Block → Option Bytes) where
    sent_back : T → Option Block × Chain S C B → W → W × Chain S C B
    unfolding response
    sent_back stream (none, c) w = (w, c)
    sent_back stream (some b, c) w = ((response stream (encode_block b) w).1, c)

    found_number : T → Option ℕ → W × Chain S C B → W × Chain S C B
    unfolding sent_back
    found_number stream none node = node
    found_number stream (some n) node =
        sent_back stream (get_block_by_number d lru lrb x (n % 2 ^ 64) node.1) node.0

    -- `getBlock`, the handler of a request for a block by its number
    unfoldable pub answer_block : T → W × Chain S C B → W × Chain S C B
    unfolding found_number
    answer_block stream node =
        let asked = host.read_msg stream node.0 in
        elim asked.0 [
          | none ↦ (asked.1, node.1)
          | some bytes ↦ found_number stream (decode_number bytes) (asked.1, node.1)
        ]

module _ {K N : Type 0} (lib : SetLibrary K) (x : External)
    (decode : Bytes → Option (List Transaction))
    (process_remote_txs : List Transaction → N → Outcome N) where
  -- `recvTxs`: what a peer sends it is known to have, whether the node takes it or not
  unfoldable pub recv_txs : PeerId → Bytes → N × Caches K → Outcome (N × Caches K)
  recv_txs p bytes node = elim (decode bytes) [
    | none ↦ ok node
    | some txs ↦
        let marked = mark_txs lib x p txs node.1 in
        do n ← process_remote_txs txs node.0; ok (n, marked)
  ]
