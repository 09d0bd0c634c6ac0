-- ===== src/Messages/Transfer.antt =====
-- Messages of packets and token transfers.
use ibc_solo_machine.Base.{ℕ, Text, Bytes, Option}
use ibc_solo_machine.Height.{Height}

pub record Packet : Type 0 where
  pub sequence : ℕ
  pub source_port : Text
  pub source_channel : Text
  pub destination_port : Text
  pub destination_channel : Text
  pub payload : Bytes
  pub timeout_height : Option Height
  pub timeout_timestamp : ℕ

pub record Coin : Type 0 where
  pub denom : Text
  pub amount : Text

pub record MsgRecvPacket : Type 0 where
  pub packet : Option Packet
  pub proof_commitment : Bytes
  pub proof_height : Option Height
  pub signer : Text

pub record MsgTransfer : Type 0 where
  pub source_port : Text
  pub source_channel : Text
  pub token : Option Coin
  pub sender : Text
  pub receiver : Text
  pub timeout_height : Option Height
  pub timeout_timestamp : ℕ
  pub memo : Text

pub record MsgAcknowledgement : Type 0 where
  pub packet : Option Packet
  pub acknowledgement : Bytes
  pub proof_acked : Bytes
  pub proof_height : Option Height
  pub signer : Text

-- `TokenTransferPacketData` of transaction_builder.rs.
pub record TokenTransferPacketData : Type 0 where
  pub denom : Text
  pub amount : Text
  pub sender : Text
  pub receiver : Text
  pub memo : Text
