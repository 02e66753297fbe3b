-- ===== src/Tests/Requests.antt =====
-- The theorems on received transactions and on the actions of a user at concrete inputs: two peers,
-- and a client of the contract that counts the confirmations.
use plasma.Bytes.{Bytes}
use plasma.Peers.{Caches}
use plasma.Peers.Broadcast.{sent_to, broadcast_txs}
use plasma.Peers.Requests.{recv_txs}
use plasma.Peers.Requests.Echoes.{recv_txs-no_echo}
use plasma.Prelude.{
  ℕ, suc, ◌+◌, ◌≡◌, refl, true, Option, none, some, List, [], ◌∷◌, arith, bytes_equal, length,
}
use plasma.Prelude.Int.{pos}
use plasma.Prelude.Outcome.{Outcome, ok}
use plasma.RootChain.Contract.{
  call_deposit, deposit_response, deposit_action, after_sign_action, ContractClient, ActionRequest,
}
use plasma.RootChain.Contract.Signs.{after_sign_action-Confirms}
use plasma.Tests.{payment, libraries}
use plasma.Tests.Network.{member, list_set, list_set-laws, idle_peer, two_peers}
use plasma.Types.Transaction.{Transaction}

member-keeps : (h k : ℕ) (s : List ℕ) → member h s ≡ true → member h (k ∷ s) ≡ true
member-keeps h k s e = ground (arith, e)

-- the idle peer sends the payment that the first one has
abbrev sent_bytes : Bytes → Option (List Transaction)
sent_bytes b = some (payment ∷ [])

abbrev count_txs : List Transaction → ℕ → Outcome ℕ
count_txs txs n = ok (n + length txs)

recv_txs-no_echo_example :
    (caches' : Caches (List ℕ)) × (recv_txs list_set libraries sent_bytes count_txs
        (2 ∷ [])
        (0 ∷ [])
        (4, two_peers)
      ≡ ok (5, caches'))
    × (sent_to (2 ∷ []) (broadcast_txs list_set libraries caches' (payment ∷ [])) ≡ [])
unfolding bytes_equal
recv_txs-no_echo_example =
    recv_txs-no_echo list_set list_set-laws member-keeps libraries sent_bytes count_txs (2 ∷ [])
      (0 ∷ []) (payment ∷ []) 4 5 two_peers idle_peer refl refl (refl, (refl, tt), (refl, tt, tt))
      refl (omega arith)

-- a call of the contract gives its transaction, a confirmation counts it
abbrev small_client : ContractClient (Unit {0}) Bytes ℕ
small_client = record {
  decoded_address = some (9 ∷ []);
  hex_address = 9 ∷ [];
  query_number = λ a q. (some (pos 1000), none);
  query_child_chain = λ a n. (0, none);
  query_operator = λ a. (3, none);
  pub_key_to_address = λ k. 3 ∷ [];
  call_with_abi = λ from to call w. some (w ∷ from);
  transaction_hash = λ tx. tx;
  crypto_sign = λ b k. some b;
  confirm_trans = λ tx sig w. (none, suc w);
}

abbrev small_request : ActionRequest
small_request = record { owner = some (4 ∷ []); amount = pos 7; sig = some (1 ∷ 2 ∷ []) }

after_sign_action-Confirms_example :
    (from : Bytes) × (tx : Bytes) × (sig : Bytes) × (small_request.owner ≡ some from)
    × (small_request.sig ≡ some sig)
    × (small_client.call_with_abi from (9 ∷ []) (call_deposit (pos 7)) 6 ≡ some tx)
    × (small_client.confirm_trans tx sig 6 ≡ (none, 7))
    × (deposit_action (some small_client) (some small_request) 6 ≡ deposit_response tx)
unfolding after_sign_action
after_sign_action-Confirms_example = after_sign_action-Confirms small_client small_request 6 7 refl
