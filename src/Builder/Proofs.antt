-- ===== src/Builder/Proofs.antt =====
-- The proofs of solo-machine-core/src/transaction_builder.rs: what a solo machine signs for a
-- header, a connection, a channel and a packet; and `commitment_bytes` of
-- ibc/core/ics04_channel/packet.rs.
use ibc_solo_machine.Base.{
  ℕ, zero, suc, ◌/◌, ◌%◌, ◌++◌, [], ◌∷◌, Option, Text, Bytes, codes, Result, ok, ok_or,
  ◌>>=◌ as ◌>>=ᵣ◌, invalid_path, missing_timeout_height, connection_not_established,
  channel_already_closed, channel_not_found, connection_not_found,
}
use ibc_solo_machine.Identifier.{ConnectionId, ChannelId}
use ibc_solo_machine.Path.{
  new_from_str, apply_prefix, get_key, connection_key, channel_key, packet_commitment_key,
  packet_acknowledgement_key,
}
use ibc_solo_machine.Chain.{Chain}
use ibc_solo_machine.Messages.{
  Any, SignBytes, Packet, sign_bytes, timestamped_signature_data, signature_data, header_data,
  connection_end, channel,
}
use ibc_solo_machine.Event
use ibc_solo_machine.Env.{Env}
use ibc_solo_machine.Exec.{Exec, Executor, pure, lift, or_raise, ◌>>=◌, sign_message}
use ibc_solo_machine.Store.IbcData.{get_connection, get_channel}
use ibc_solo_machine.Builder.Tx.{to_u64_timestamp}

unfoldable pub big_endian : ℕ → ℕ → Bytes → Bytes
big_endian zero n out = out
big_endian (suc k) n out = big_endian k (n / 256) ((n % 256) ∷ out)

-- `u64::to_be_bytes`
unfoldable pub to_be_bytes : ℕ → Bytes
to_be_bytes n = big_endian 8 n []

module _ ⦃env : Env⦄ where
  unfoldable pub commitment_bytes : Packet → Result Bytes
  commitment_bytes packet =
      ok_or packet.timeout_height missing_timeout_height >>=ᵣ λ timeout_height. ok (
        env.sha256 (
          to_be_bytes packet.timeout_timestamp
          ++ (to_be_bytes timeout_height.revision_number
              ++ (to_be_bytes timeout_height.revision_height ++ env.sha256 packet.payload))))

  -- `apply_prefix("ibc")` and `get_key(1)`.
  unfoldable pub prefixed_path : Text → Result Bytes
  prefixed_path key = apply_prefix (codes "ibc") (new_from_str key) >>=ᵣ λ path.
      ok_or (get_key path 1) invalid_path >>=ᵣ λ found. ok (env.utf8_bytes found)

  unfoldable pub sign : Option Text → SignBytes → Exec Bytes
  sign request_id bytes = do
    signature ← sign_message request_id (Event.sign_bytes (env.encode (sign_bytes bytes)))
    pure (env.encode (signature_data (record { signature = signature; mode = 0 })))

  unfoldable pub timestamped_sign : Chain → SignBytes → Option Text → Exec Bytes
  timestamped_sign chain bytes request_id = do
    signed ← sign request_id bytes
    timestamp ← lift (to_u64_timestamp chain.consensus_timestamp)
    pure (
        env.encode
          (timestamped_signature_data (record { signature_data = signed; timestamp = timestamp })))

  -- The bytes that are signed for `path` and `bytes` at the chain's sequence.
  unfoldable pub sign_bytes_of : Chain → Bytes → Bytes → Result SignBytes
  sign_bytes_of chain path bytes = to_u64_timestamp chain.consensus_timestamp >>=ᵣ λ timestamp.
      ok (record {
        sequence = chain.sequence;
        timestamp = timestamp;
        diversifier = chain.config.diversifier;
        path = path;
        data_bytes = bytes;
      })

  -- The end that the four proofs share.
  unfoldable pub prove_path : Chain → Text → Bytes → Option Text → Exec Bytes
  prove_path chain key bytes request_id = do
    path ← lift (prefixed_path key)
    to_sign ← lift (sign_bytes_of chain path bytes)
    timestamped_sign chain to_sign request_id

  unfoldable pub get_packet_acknowledgement_proof : Chain → Bytes → ℕ → Option Text → Exec Bytes
  get_packet_acknowledgement_proof chain acknowledgement packet_sequence request_id = do
    connection_details ← or_raise chain.connection_details connection_not_established
    channel_id ← or_raise connection_details.tendermint_channel_id channel_already_closed
    prove_path chain (packet_acknowledgement_key chain.config.port_id channel_id packet_sequence)
        (env.sha256 acknowledgement) request_id

  unfoldable pub get_packet_commitment_proof : Chain → Packet → Option Text → Exec Bytes
  get_packet_commitment_proof chain packet request_id = do
    bytes ← lift (commitment_bytes packet)
    connection_details ← or_raise chain.connection_details connection_not_established
    channel_id ← or_raise connection_details.tendermint_channel_id channel_already_closed
    prove_path chain (packet_commitment_key chain.config.port_id channel_id chain.packet_sequence)
        bytes request_id

  unfoldable pub get_channel_proof : Executor → Chain → ChannelId → Option Text → Exec Bytes
  get_channel_proof executor chain channel_id request_id = do
    found ← get_channel executor chain.config.port_id channel_id
    end ← or_raise found channel_not_found
    prove_path chain (channel_key chain.config.port_id channel_id) (env.encode (channel end))
        request_id

  unfoldable pub get_connection_proof : Executor → Chain → ConnectionId → Option Text → Exec Bytes
  get_connection_proof executor chain connection_id request_id = do
    found ← get_connection executor connection_id
    connection ← or_raise found connection_not_found
    prove_path chain (connection_key connection_id) (env.encode (connection_end connection))
        request_id

  unfoldable pub get_header_proof : Chain → Option Any → Text → Option Text → Exec Bytes
  get_header_proof chain new_public_key new_diversifier request_id = do
    let bytes =
        env.encode
          (header_data (record { new_pub_key = new_public_key; new_diversifier = new_diversifier }))
    to_sign ← lift (sign_bytes_of chain (env.utf8_bytes (codes "solomachine:header")) bytes)
    sign request_id to_sign
