-- ===== src/RootChain/Contract.antt =====
-- core/rootchain.go: the calls of the contract. The client, with the keys `K`, its transactions `X`
-- and the root chain's state `W`, is a parameter; `none` for an error where a call has no other
-- result. network/httphandlers/action.go: the two actions of a user, which call the same client. A
-- request's body is what decoding it gives.
pub mod Signs
use plasma.Bytes.{Bytes, Hash, Address}
use plasma.Prelude.{ℕ, Bool, true, Option, none, some}
use plasma.Prelude.Int.{ℤ}
use plasma.Prelude.Outcome.{external, Error}
use plasma.Types.Block.{Block}

-- the methods that are called, with their data
pub data Call : Type 0 where
  call_submit_block : Hash → ℕ → Call
  call_deposit : ℤ → Call

pub data NumberQuery : Type 0 where
  current_child_block current_deposit_block : NumberQuery

pub record ContractClient (K X W : Type 0) : Type 0 where
  -- `hex.DecodeString` and `common.Hex2Bytes` of the contract's address
  pub decoded_address : Option Bytes
  pub hex_address : Bytes
  -- what a query leaves in its result, beside its error; `CallWithAbi` changes nothing
  pub query_number : Bytes → NumberQuery → Option ℤ × Option Error
  pub query_child_chain : Bytes → ℤ → Hash × Option Error
  pub query_operator : Bytes → Address × Option Error
  pub pub_key_to_address : K → Bytes
  pub call_with_abi : Bytes → Bytes → Call → W → Option X
  pub transaction_hash : X → Bytes
  pub crypto_sign : Bytes → K → Option Bytes
  pub confirm_trans : X → Bytes → W → Option Error × W

module _ {K X W : Type 0} (client : ContractClient K X W) where
  unfoldable pub get_number : NumberQuery → Option ℤ × Option Error
  get_number query = elim client.decoded_address [
    | none ↦ (none, some external)
    | some address ↦ client.query_number address query
  ]

  -- `GetCurrentChildBlock`
  unfoldable pub get_current_child_block : Option ℤ × Option Error
  unfolding get_number
  get_current_child_block = get_number current_child_block

  -- `GetCurrentDepositBlock`
  unfoldable pub get_current_deposit_block : Option ℤ × Option Error
  unfolding get_number
  get_current_deposit_block = get_number current_deposit_block

  -- `GetRootChainBlockByBlockNum`
  unfoldable pub get_root_chain_block_by_block_num : ℤ → Hash × Option Error
  get_root_chain_block_by_block_num block_num = elim client.decoded_address [
    | none ↦ (0, some external)
    | some address ↦ client.query_child_chain address block_num
  ]

  -- `GetOperatorAddress`
  unfoldable pub get_operator_address : Address × Option Error
  get_operator_address = elim client.decoded_address [
    | none ↦ (0, some external)
    | some address ↦ client.query_operator address
  ]

  confirm_signed : X → Option Bytes → W → Option Error × W
  confirm_signed tx none w = (some external, w)
  confirm_signed tx (some sig) w = client.confirm_trans tx sig w

  -- `SubmitBlock`
  unfoldable pub submit_to_contract : Block → K → W → Option Error × W
  unfolding confirm_signed
  submit_to_contract b key w =
      elim (client.call_with_abi (client.pub_key_to_address key) client.hex_address
        (call_submit_block b.header.tx_hash b.header.number) w) [
          | none ↦ (some external, w)
          | some tx ↦ confirm_signed tx (client.crypto_sign (client.transaction_hash tx) key) w
        ]

-- the body of a request: its owner as `hex.DecodeString` reads it, the amount, and for the second
-- action the signature as `hexutil.Decode` reads it
pub record ActionRequest : Type 0 where
  pub owner : Option Bytes
  pub amount : ℤ
  pub sig : Option Bytes

pub data Response : Type 0 where
  http_error : ℕ → Response
  deposit_response : Bytes → Response
  after_sign_response : Bool → Response

-- `chain.Get` may give no client
module _ {K X W : Type 0} (eth : Option (ContractClient K X W)) where
  deposit_call : ContractClient K X W → Bytes → ℤ → W → Option X
  deposit_call client from amount w =
      client.call_with_abi from client.hex_address (call_deposit amount) w

  prepared : ContractClient K X W → Option X → Response
  prepared client none = http_error 500
  prepared client (some tx) = deposit_response (client.transaction_hash tx)

  -- `Deposit`: the hash of the transaction that the user has to sign
  unfoldable pub deposit_action : Option ActionRequest → W → Response
  unfolding deposit_call prepared
  deposit_action none w = http_error 400
  deposit_action (some req) w = elim req.owner [
    | none ↦ http_error 400
    | some from ↦ elim eth [
      | none ↦ http_error 500
      | some client ↦ prepared client (deposit_call client from req.amount w)
    ]
  ]

  confirmed : Option Error × W → Response × W
  confirmed (some e, w) = (http_error 500, w)
  confirmed (none, w) = (after_sign_response true, w)

  signed_call : ContractClient K X W → Option X → Option Bytes → W → Response × W
  unfolding confirmed
  signed_call client none sig w = (http_error 500, w)
  signed_call client (some tx) none w = (http_error 500, w)
  signed_call client (some tx) (some sig) w = confirmed (client.confirm_trans tx sig w)

  -- `AfterSign`: the same transaction, made once more, with the user's signature
  unfoldable pub after_sign_action : Option ActionRequest → W → Response × W
  unfolding deposit_call signed_call
  after_sign_action none w = (http_error 400, w)
  after_sign_action (some req) w = elim eth [
    | none ↦ (http_error 500, w)
    | some client ↦ elim req.owner [
      | none ↦ (http_error 400, w)
      | some from ↦ signed_call client (deposit_call client from req.amount w) req.sig w
    ]
  ]
