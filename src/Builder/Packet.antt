-- ===== src/Builder/Packet.antt =====
-- Packet messages of solo-machine-core/src/transaction_builder.rs.
use ibc_solo_machine.Base.{
  ℕ, ◌+◌, [], ◌∷◌, Option, some, Text, codes, connection_not_established, channel_already_closed,
  height_overflow,
}
use ibc_solo_machine.Height
use ibc_solo_machine.Identifier.{Identifier}
use ibc_solo_machine.PublicKey.Convert.{any_of}
use ibc_solo_machine.Chain.{Chain}
use ibc_solo_machine.Identifier.{ChannelId}
use ibc_solo_machine.Messages.{TxRaw, Packet, msg_recv_packet, msg_transfer, msg_acknowledgement}
use ibc_solo_machine.Env.{Env}
use ibc_solo_machine.Exec.{
  Exec, Executor, transaction, pure, lift, or_raise, ◌>>=◌, to_account_address,
}
use ibc_solo_machine.Store.Chains.{increment_sequence, increment_packet_sequence, get_ibc_denom}
use ibc_solo_machine.Builder.Tx.{build}
use ibc_solo_machine.Builder.Client.{get_latest_height}
use ibc_solo_machine.Builder.Proofs.{get_packet_commitment_proof, get_packet_acknowledgement_proof}

abbrev pub default_timeout_height_offset : ℕ
default_timeout_height_offset = 10

module _ ⦃env : Env⦄ where
  -- The packet of `msg_token_send`, between the two channels of an open connection.
  unfoldable pub transfer_packet :
      Chain → ChannelId → ChannelId → ℕ → Identifier → Text → Text → Text → Height.Height → Packet
  transfer_packet chain tendermint_channel_id solo_machine_channel_id amount denom sender receiver
        memo timeout_height =
      record {
        sequence = chain.packet_sequence;
        source_port = chain.config.port_id;
        source_channel = tendermint_channel_id;
        destination_port = chain.config.port_id;
        destination_channel = solo_machine_channel_id;
        payload = env.transfer_json (record {
          denom = denom;
          amount = env.u256_to_string amount;
          sender = sender;
          receiver = receiver;
          memo = memo;
        });
        timeout_height = some timeout_height;
        timeout_timestamp = 0;
      }

  unfoldable pub msg_token_send :
      Chain → ℕ → Identifier → Text → Text → Option Text → Exec (TxRaw × Chain)
  msg_token_send chain amount denom receiver memo request_id = do
    details ← or_raise chain.connection_details connection_not_established
    solo_machine_channel_id ← or_raise details.solo_machine_channel_id channel_already_closed
    tendermint_channel_id ← or_raise details.tendermint_channel_id channel_already_closed
    sender ← to_account_address
    latest ← get_latest_height
    timeout ← or_raise (Height.checked_add latest default_timeout_height_offset) height_overflow
    let packet =
        transfer_packet chain tendermint_channel_id solo_machine_channel_id amount denom sender
          receiver memo timeout
    proof_commitment ← get_packet_commitment_proof chain packet request_id
    let proof_height = Height.new 0 chain.sequence
    chain₁ ← increment_sequence transaction chain.id
    chain₂ ← increment_packet_sequence transaction chain₁.id
    tx ←
        build chain₂
          (any_of (codes "/ibc.core.channel.v1.MsgRecvPacket") (
              msg_recv_packet (record {
                packet = some packet;
                proof_commitment = proof_commitment;
                proof_height = some proof_height;
                signer = sender;
              }))
            ∷ [])
          memo request_id
    pure (tx, chain₂)

  unfoldable pub msg_token_receive : Chain → ℕ → Identifier → Text → Text → Option Text → Exec TxRaw
  msg_token_receive chain amount denom receiver memo request_id = do
    details ← or_raise chain.connection_details connection_not_established
    channel_id ← or_raise details.solo_machine_channel_id channel_already_closed
    ibc_denom ← lift (get_ibc_denom chain denom)
    sender ← to_account_address
    build chain
        (any_of (codes "/ibc.applications.transfer.v1.MsgTransfer") (
            msg_transfer (record {
              source_port = chain.config.port_id;
              source_channel = channel_id;
              token = some (record { denom = ibc_denom; amount = env.u256_to_string amount });
              sender = sender;
              receiver = receiver;
              timeout_height = some (Height.new 0 (chain.sequence + 1));
              timeout_timestamp = 0;
              memo = memo;
            }))
          ∷ [])
        memo request_id

  unfoldable pub msg_token_receive_ack :
      Executor → Chain → Packet → Text → Option Text → Exec (TxRaw × Chain)
  msg_token_receive_ack executor chain packet memo request_id = do
    let proof_height = Height.new 0 chain.sequence
    proof_acked ← get_packet_acknowledgement_proof chain env.ack_json packet.sequence request_id
    chain' ← increment_sequence executor chain.id
    signer ← to_account_address
    tx ←
        build chain'
          (any_of (codes "/ibc.core.channel.v1.MsgAcknowledgement") (
              msg_acknowledgement (record {
                packet = some packet;
                acknowledgement = env.ack_json;
                proof_acked = proof_acked;
                proof_height = some proof_height;
                signer = signer;
              }))
            ∷ [])
          memo request_id
    pure (tx, chain')
