-- ===== src/Messages/Handshake.antt =====
-- Messages of connections and channels.
use ibc_solo_machine.Base.{ℕ, Text, Bytes, List, Option}
use ibc_solo_machine.Height.{Height}
use ibc_solo_machine.Messages.Client.{Any}

pub data ConnectionState : Type 0 where
  uninitialized init try_open open_state : ConnectionState

pub record ConnectionCounterparty : Type 0 where
  pub client_id : Text
  pub connection_id : Text
  pub prefix : Option Bytes

pub record ConnectionVersion : Type 0 where
  pub identifier : Text
  pub features : List Text

pub record ConnectionEnd : Type 0 where
  pub client_id : Text
  pub versions : List ConnectionVersion
  pub state : ConnectionState
  pub counterparty : Option ConnectionCounterparty
  pub delay_period : ℕ

pub data ChannelState : Type 0 where
  uninitialized init try_open open_state closed : ChannelState

pub data ChannelOrder : Type 0 where
  none_unspecified unordered ordered : ChannelOrder

pub record ChannelCounterparty : Type 0 where
  pub port_id : Text
  pub channel_id : Text

pub record Channel : Type 0 where
  pub state : ChannelState
  pub ordering : ChannelOrder
  pub counterparty : Option ChannelCounterparty
  pub connection_hops : List Text
  pub version : Text
  pub upgrade_sequence : ℕ

pub record MsgConnectionOpenInit : Type 0 where
  pub client_id : Text
  pub counterparty : Option ConnectionCounterparty
  pub version : Option ConnectionVersion
  pub delay_period : ℕ
  pub signer : Text

pub record MsgConnectionOpenAck : Type 0 where
  pub connection_id : Text
  pub counterparty_connection_id : Text
  pub version : Option ConnectionVersion
  pub client_state : Option Any
  pub proof_height : Option Height
  pub proof_try : Bytes
  pub proof_client : Bytes
  pub proof_consensus : Bytes
  pub consensus_height : Option Height
  pub signer : Text
  pub host_consensus_state_proof : Bytes

pub record MsgChannelOpenInit : Type 0 where
  pub port_id : Text
  pub channel : Option Channel
  pub signer : Text

pub record MsgChannelOpenAck : Type 0 where
  pub port_id : Text
  pub channel_id : Text
  pub counterparty_channel_id : Text
  pub counterparty_version : Text
  pub proof_height : Option Height
  pub proof_try : Bytes
  pub signer : Text

pub record MsgChannelCloseInit : Type 0 where
  pub port_id : Text
  pub channel_id : Text
  pub signer : Text
