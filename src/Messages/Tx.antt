-- ===== src/Messages/Tx.antt =====
-- Messages of transactions, and the sum of the messages that are encoded.
use ibc_solo_machine.Base.{ℕ, Text, Bytes, List, Option}
use ibc_solo_machine.Messages.Client.{
  Any, PubKey, LegacyAminoPubKey, SoloMachineConsensusState, SoloMachineClientState,
  SoloMachineHeader, HeaderData, SignBytes, TimestampedSignatureData, SingleSignatureData,
  TendermintClientState, TendermintConsensusState, MsgCreateClient, MsgUpdateClient,
}
use ibc_solo_machine.Messages.Handshake.{
  ConnectionEnd, Channel, MsgConnectionOpenInit, MsgConnectionOpenAck, MsgChannelOpenInit,
  MsgChannelOpenAck, MsgChannelCloseInit,
}
use ibc_solo_machine.Messages.Transfer.{Coin, MsgRecvPacket, MsgTransfer, MsgAcknowledgement}

pub record TxBody : Type 0 where
  pub messages : List Any
  pub memo : Text
  pub timeout_height : ℕ

pub record TxFee : Type 0 where
  pub amount : List Coin
  pub gas_limit : ℕ
  pub payer : Text
  pub granter : Text

-- `mode` is the single sign mode of `mode_info`.
pub record SignerInfo : Type 0 where
  pub public_key : Option Any
  pub mode : ℕ
  pub sequence : ℕ

pub record AuthInfo : Type 0 where
  pub signer_infos : List SignerInfo
  pub fee : Option TxFee

pub record SignDoc : Type 0 where
  pub body_bytes : Bytes
  pub auth_info_bytes : Bytes
  pub chain_id : Text
  pub account_number : ℕ

pub record TxRaw : Type 0 where
  pub body_bytes : Bytes
  pub auth_info_bytes : Bytes
  pub signatures : List Bytes

pub record BaseAccount : Type 0 where
  pub address : Text
  pub account_number : ℕ
  pub sequence : ℕ

-- A message that `proto_encode` is called on.
pub data Message : Type 0 where
  pub_key : PubKey → Message
  legacy_amino_pub_key : LegacyAminoPubKey → Message
  solo_machine_consensus_state : SoloMachineConsensusState → Message
  solo_machine_client_state : SoloMachineClientState → Message
  solo_machine_header : SoloMachineHeader → Message
  header_data : HeaderData → Message
  sign_bytes : SignBytes → Message
  timestamped_signature_data : TimestampedSignatureData → Message
  signature_data : SingleSignatureData → Message
  tendermint_client_state : TendermintClientState → Message
  tendermint_consensus_state : TendermintConsensusState → Message
  connection_end : ConnectionEnd → Message
  channel : Channel → Message
  msg_create_client : MsgCreateClient → Message
  msg_update_client : MsgUpdateClient → Message
  msg_connection_open_init : MsgConnectionOpenInit → Message
  msg_connection_open_ack : MsgConnectionOpenAck → Message
  msg_channel_open_init : MsgChannelOpenInit → Message
  msg_channel_open_ack : MsgChannelOpenAck → Message
  msg_channel_close_init : MsgChannelCloseInit → Message
  msg_recv_packet : MsgRecvPacket → Message
  msg_transfer : MsgTransfer → Message
  msg_acknowledgement : MsgAcknowledgement → Message
  tx_body : TxBody → Message
  auth_info : AuthInfo → Message
  sign_doc : SignDoc → Message
  tx_raw : TxRaw → Message
