-- ===== src/Env.antt =====
-- What the program does not implement, as one record of functions: the database engine, the node,
-- the signer, the notifier, the clock, and the crates for hashing and encoding. A function that may
-- answer differently from call to call takes the calls made so far, the latest first.
use ibc_solo_machine.Base.{ℕ, Bool, Text, Bytes, List, Option}
use ibc_solo_machine.PublicKey.{PublicKey}
use ibc_solo_machine.Chain.{DateTime, StdDuration, ChainConfig}
use ibc_solo_machine.Event.{Event, SignMessage, Action}
use ibc_solo_machine.Messages.{
  Any, Duration, Message, TendermintClientState, ConnectionEnd, Channel, BaseAccount,
  TokenTransferPacketData,
}

abbrev pub Trace : Type 0
Trace = List Action

-- `tendermint::abci`: an attribute's key and value are `none` where they are no UTF-8 text.
pub record EventAttribute : Type 0 where
  pub key_str : Option Text
  pub value_str : Option Text

pub record AbciEvent : Type 0 where
  pub kind : Text
  pub attributes : List EventAttribute

-- The response of `broadcast_tx_commit`.
pub record TxCommitResponse : Type 0 where
  pub check_tx_ok : Bool
  pub tx_result_ok : Bool
  pub tx_result_events : List AbciEvent
  pub hash : Text

pub record Status : Type 0 where
  pub catching_up : Bool
  pub network : Text
  pub node_id : Text
  pub latest_block_height : ℕ

-- The parts of a block header that the source reads.
pub record Header : Type 0 where
  pub height : ℕ
  pub seconds : ℕ
  pub nanos : ℕ
  pub app_hash : Bytes
  pub next_validators_hash : Bytes

pub record Env : Type 0 where
  -- The database: whether a call succeeds.
  pub begin_ok : Trace → Bool
  pub commit_ok : Trace → Bool
  pub statement_ok : Trace → Bool
  -- The signer.
  pub public_key : Option PublicKey
  pub account_address : Option Text
  pub sign : Trace → Option Text → SignMessage → Option Bytes
  -- The node.
  pub http_client_ok : Text → Bool
  pub broadcast : Trace → Bytes → Option TxCommitResponse
  pub status : Trace → Option Status
  pub grpc_connect_ok : Trace → Text → Bool
  -- The response's account, if it has one.
  pub query_account : Trace → Text → Option (Option Any)
  -- The response's parameters, if it has some, and their unbonding time.
  pub query_staking_params : Trace → Option (Option (Option Duration))
  -- The light client: `TrustThresholdFraction::new`, `trust_primary_at`, `verify_to_highest`.
  pub trust_threshold_ok : ℕ → ℕ → Bool
  pub trust_primary_ok : ChainConfig → Bool
  pub verify_to_highest : Trace → Option Header
  -- The notifier: whether there is one, and whether it takes the event.
  pub has_notifier : Bool
  pub notify_ok : Trace → Event → Bool
  -- The clock, and a random suffix of that many characters.
  pub now : Trace → DateTime
  pub random_suffix : Trace → ℕ → Text
  -- Encodings and hashes.
  pub encode : Message → Bytes
  pub decode_client_state : Bytes → Option TendermintClientState
  pub decode_connection : Bytes → Option ConnectionEnd
  pub decode_channel : Bytes → Option Channel
  pub decode_base_account : Bytes → Option BaseAccount
  pub utf8_bytes : Text → Bytes
  pub from_utf8 : Bytes → Option Text
  pub sha256 : Bytes → Bytes
  pub ripemd160 : Bytes → Bytes
  pub hex_upper : Bytes → Text
  pub hex_lower : Bytes → Text
  pub hex_decode : Text → Option Bytes
  pub bech32_encode : Text → Bytes → Option Text
  pub transfer_json : TokenTransferPacketData → Bytes
  pub ack_json : Bytes
  pub u256_to_string : ℕ → Text
  pub u256_to_big_endian : ℕ → Bytes
  pub u256_from_big_endian : Bytes → ℕ
  pub parse_bool : Text → Option Bool
  pub parse_node_id : Text → Option Text
  pub duration_to_proto : StdDuration → Option Duration
