-- ===== src/Tests/Network.antt =====
-- The theorems on peers, signatures, headers and the pool at concrete inputs: two peers, a signer
-- whose curve always signs the same, and two headers.
use plasma.Bytes.{put_uint, Hash}
use plasma.HeaderChain.Import.{validate_header_chain}
use plasma.HeaderChain.Linked.{IsLinked, validate_header_chain-IsLinked}
use plasma.Peers.{SetLibrary, IsSetLibrary, RemotePeerCache, Caches, connect_handler, mark_txs}
use plasma.Peers.Blocks.{download_loop}
use plasma.Peers.Bounds.{
  AllWithinLimits, here, next, connected, txs_marked, PeersReach-WithinLimits,
}
use plasma.Peers.Broadcast.{sent_to, broadcast_txs, unknown_txs, sent_to-broadcast_txs}
use plasma.Peers.Downloads.{published, fetch_each, IsContiguous, download_loop-fetches}
use plasma.Prelude.{
  ℕ, suc, ◌+◌, ◌-◌, ◌%◌, ◌^◌, ◌≤◌, ◌≡◌, refl, Bool, true, false, ◌||◌, ◌&&◌, Option, none, some,
  List, [], ◌∷◌, arith, leb, ◌==◌, if◌then◌else◌, bytes_equal, length, drop, All,
}
use plasma.Prelude.Outcome.{invalid_sig, invalid_chain_id, Outcome, ok, err, Error}
use plasma.Signing.{
  sign_second, with_signature, eip155_values, signature_values, Signer, sender, sign_tx,
  signed_hash,
}
use plasma.Signing.ChainZero.{sender-chain_zero}
use plasma.Signing.RoundTrip.{Signs, layout, sender-sign_tx, sender-other_chain}
use plasma.Tests.{
  empty_pool, keep_journal, validate_nothing, one_pooled, header_at, payment, libraries, hash_tx,
}
use plasma.TxPool.{lookup_add, add, remove_tx, get_pooled}
use plasma.TxPool.Reachable.{PoolReach, PoolStep, PoolReach-Agrees}
use plasma.TxPool.Removal.{Agrees, remove_tx-Agrees}
use plasma.Types.Block.{header_number, Header}
use plasma.Types.External.{header_hash}
use plasma.Types.Transaction.{Transaction}

abbrev pub member : ℕ → List ℕ → Bool
member n [] = false
member n (k ∷ ks) = (k == n) || member n ks

abbrev pub list_set : SetLibrary (List ℕ)
list_set = record { empty = []; size = length; has = member; add = λ h s. h ∷ s; pop = drop 1 }

size_tail : (s : List ℕ) → 1 ≤ length s → suc (length (drop 1 s)) ≡ length s
size_tail [] h = absurd (omega (arith, h))
size_tail (k ∷ ks) h = refl

pub list_set-laws : IsSetLibrary list_set
list_set-laws = record {
  size_empty = refl;
  size_add = λ h s. omega arith;
  size_pop = size_tail;
  has_add = λ h s. ground arith;
}

PeersReach-WithinLimits_example :
    AllWithinLimits list_set
      (mark_txs list_set libraries (7 ∷ []) (payment ∷ []) (connect_handler list_set (7 ∷ []) []))
PeersReach-WithinLimits_example = PeersReach-WithinLimits list_set libraries list_set-laws tt (
    next (next (here []) (connected [] (7 ∷ [])))
      (txs_marked (connect_handler list_set (7 ∷ []) []) (7 ∷ []) (payment ∷ [])))

-- the first peer has transaction 1001, the second nothing
abbrev pub idle_peer : RemotePeerCache (List ℕ)
idle_peer = record { peerid = 2 ∷ []; known_txs = []; known_block = [] }

abbrev pub two_peers : Caches (List ℕ)
two_peers =
    (1 ∷ [], record { peerid = 1 ∷ []; known_txs = 1001 ∷ []; known_block = [] })
    ∷ (2 ∷ [], idle_peer)
    ∷ []

sent_to-broadcast_txs_example :
    sent_to (2 ∷ []) (broadcast_txs list_set libraries two_peers (payment ∷ []))
    ≡ unknown_txs list_set libraries idle_peer (payment ∷ [])
unfolding bytes_equal
sent_to-broadcast_txs_example =
    sent_to-broadcast_txs list_set libraries (2 ∷ []) two_peers idle_peer (payment ∷ [])
      (refl, (refl, tt), (refl, tt, tt)) refl

-- the deposits 1 to 3 and the submitted block 1000
abbrev some_roots : ℕ → Hash
some_roots n = if (leb 1 n && leb n 3) || n == 1000 then 1 else 0

some_roots-IsContiguous : IsContiguous some_roots
some_roots-IsContiguous n m from none_at later same = ground (arith, from, none_at, later, same)

abbrev ask : ℕ → List ℕ → Outcome (Bool × List ℕ)
ask n asked = ok (true, n ∷ asked)

download_loop-fetches_example :
    download_loop some_roots ask 5 1 5 []
    ≡ fetch_each some_roots ask (published some_roots (5 + 1 - 1) 1) []
download_loop-fetches_example =
    download_loop-fetches some_roots ask 5 1 5 [] some_roots-IsContiguous (omega arith)
      (omega arith)

abbrev pub small_signer : Signer (Unit {0})
small_signer = record {
  libraries = record libraries {
    valid_signature = λ v r s. leb v 1;
    ecrecover = λ h b. ok (4 ∷ 9 ∷ []);
  };
  rlp_unsigned = λ ins outs fee chain. chain ∷ [];
  crypto_sign = λ h k. ok (layout 1 1 0);
}

small_signer-Signs : (chain : ℕ) → Signs small_signer (signed_hash small_signer chain payment) tt 9
small_signer-Signs chain = record {
  r = 1;
  s = 1;
  v = 0;
  r_fits = omega arith;
  s_fits = omega arith;
  bit = omega arith;
  signed = refl;
  valid = refl;
  public_key = 9 ∷ [];
  recovered = refl;
  addressed = refl;
}

sender-sign_tx_example :
    (t : Transaction) × (sign_tx small_signer 1 payment tt (some tt) ≡ ok t)
    × (sender small_signer 1 t ≡ ok (9, 9))
    × ((t.ins ≡ payment.ins) × (t.outs ≡ payment.outs) × (t.fee ≡ payment.fee))
sender-sign_tx_example =
    sender-sign_tx small_signer 1 payment tt tt (small_signer-Signs 1) (small_signer-Signs 1)
      (omega arith)

sign_run : (t : Transaction) × (sign_tx small_signer 1 payment tt (some tt) ≡ ok t)
sign_run =
    let signed =
      sender-sign_tx small_signer 1 payment tt tt (small_signer-Signs 1) (small_signer-Signs 1)
        (omega arith) in
    (signed.0, signed.1)

sender-other_chain_example : sender small_signer 2 sign_run.0 ≡ err invalid_chain_id
sender-other_chain_example =
    sender-other_chain small_signer 1 2 payment sign_run.0 tt tt (small_signer-Signs 1)
      (small_signer-Signs 1) (omega arith) (λ e. ground (arith, e)) sign_run.1

abbrev five_header : Header
five_header = header_at 5

-- the header after it
abbrev six_header : Header
six_header = record (header_at 6) { parent_hash = 6 }

validate_run :
    validate_header_chain libraries 1 (λ i. false) ((five_header, none) ∷ (six_header, none) ∷ [])
    ≡ ok (0, none)
unfolding validate_header_chain header_number header_hash
validate_run = refl

validate_header_chain-IsLinked_example :
    IsLinked libraries (five_header ∷ six_header ∷ [])
    × All (λ (r : Option Error). r ≡ none) (none ∷ none ∷ [])
    × (header_number six_header ≡ (header_number five_header + 1) % 2 ^ 64)
validate_header_chain-IsLinked_example =
    validate_header_chain-IsLinked libraries 1 (λ i. false)
      ((five_header, none) ∷ (six_header, none) ∷ []) 1 five_header six_header validate_run refl
      refl

pooled_run :
    add hash_tx validate_nothing keep_journal payment false empty_pool ≡ ok (none, one_pooled)
unfolding add lookup_add
pooled_run = refl

PoolReach-Agrees_example : Agrees hash_tx (remove_tx hash_tx 1000 one_pooled)
PoolReach-Agrees_example = PoolReach-Agrees hash_tx validate_nothing keep_journal refl refl (
    PoolReach.next (PoolReach.next PoolReach.here (PoolStep.added payment false none pooled_run))
      (PoolStep.removed 1000 refl))

one_pooled-Agrees : Agrees hash_tx one_pooled
one_pooled-Agrees =
    PoolReach-Agrees hash_tx validate_nothing keep_journal refl refl
      (PoolReach.next PoolReach.here (PoolStep.added payment false none pooled_run))

remove_tx-Agrees_example :
    Agrees hash_tx (remove_tx hash_tx 1000 one_pooled)
    × ((k : Hash)
        → get_pooled k (remove_tx hash_tx 1000 one_pooled)
          ≡ (if 1000 == k then none else get_pooled k one_pooled))
remove_tx-Agrees_example = remove_tx-Agrees hash_tx 1000 one_pooled one_pooled-Agrees

sign_zero_run : (t : Transaction) × (sign_tx small_signer 0 payment tt (some tt) ≡ ok t)
unfolding sign_tx sign_second with_signature eip155_values signature_values put_uint
sign_zero_run = (_, refl)

sender-chain_zero_example : sender small_signer 0 sign_zero_run.0 ≡ err invalid_sig
sender-chain_zero_example =
    sender-chain_zero small_signer payment sign_zero_run.0 tt tt (λ w r s e. ground (arith, e))
      (small_signer-Signs 0) (small_signer-Signs 0) sign_zero_run.1
