-- ===== src/Chain.antt =====
-- solo-machine-core/src/model/chain/chain.rs: the data of a chain. A `DateTime<Utc>` is its Unix
-- timestamp in seconds, the only part of it that the source reads.
use ibc_solo_machine.Base.{ℕ, ℤ, Text, Bytes, Option}
use ibc_solo_machine.Identifier.{Identifier, ClientId, ConnectionId, ChannelId, PortId, ChainId}

abbrev pub DateTime : Type 0
DateTime = ℤ

-- `std::time::Duration`
pub record StdDuration : Type 0 where
  pub secs : ℕ
  pub nanos : ℕ

-- `Decimal` amounts are their decimal text.
pub record Fee : Type 0 where
  pub amount : Text
  pub denom : Identifier
  pub gas_limit : ℕ

pub record ChainConfig : Type 0 where
  pub grpc_addr : Text
  pub rpc_addr : Text
  pub fee : Fee
  pub trust_numer : ℕ
  pub trust_denom : ℕ
  pub trusting_period : StdDuration
  pub max_clock_drift : StdDuration
  pub rpc_timeout : StdDuration
  pub diversifier : Text
  pub port_id : PortId
  pub trusted_height : ℕ
  pub trusted_hash : Bytes

pub record ConnectionDetails : Type 0 where
  pub solo_machine_client_id : ClientId
  pub tendermint_client_id : ClientId
  pub solo_machine_connection_id : ConnectionId
  pub tendermint_connection_id : ConnectionId
  pub solo_machine_channel_id : Option ChannelId
  pub tendermint_channel_id : Option ChannelId

-- `sequence` and `packet_sequence` are `u32`.
pub record Chain : Type 0 where
  pub id : ChainId
  pub node_id : Text
  pub config : ChainConfig
  pub consensus_timestamp : DateTime
  pub sequence : ℕ
  pub packet_sequence : ℕ
  pub connection_details : Option ConnectionDetails
  pub created_at : DateTime
  pub updated_at : DateTime

-- A row of the table `chains`; `sequence` and `packet_sequence` are `i64`.
pub record RawChain : Type 0 where
  pub id : Text
  pub node_id : Text
  pub config : ChainConfig
  pub consensus_timestamp : DateTime
  pub sequence : ℤ
  pub packet_sequence : ℤ
  pub connection_details : Option ConnectionDetails
  pub created_at : DateTime
  pub updated_at : DateTime
