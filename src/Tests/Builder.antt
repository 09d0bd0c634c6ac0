-- ===== src/Tests/Builder.antt =====
-- Messages that are built in the sample world.
use ibc_solo_machine.Base.{
  ok, ℕ, codes, ◌≡◌, refl, none, some, text_eq, is_whitespace, [], ◌∷◌, err, deliver_tx_failed, pos,
}
use ibc_solo_machine.Identifier.{
  parse, parse_chain_id, matches_id, is_empty, contains, validate_length, is_id_char,
}
use ibc_solo_machine.Chain.{Chain, RawChain, DateTime}
use ibc_solo_machine.Messages.{TxRaw}
use ibc_solo_machine.Exec.{
  World, transaction, ◌>>=◌, begin, commit, call, select, execute, now, sign_message,
  broadcast_tx_commit, lift, or_raise, pure, require,
}
use ibc_solo_machine.Exec.Runs.{Runs}
use ibc_solo_machine.Store.Query.{find_row, update_rows}
use ibc_solo_machine.Store.Chains.{
  row_id, u32_of_i64, chain_of_raw, next_sequence, update_returning, increment_sequence,
}
use ibc_solo_machine.Decimal.{print_u64, digits}
use ibc_solo_machine.Path.{
  apply_prefix, new_from_str, trim, packet_acknowledgement_key, channel_key, connection_key,
  client_state_key,
}
use ibc_solo_machine.PublicKey.Convert.{any_of, to_any}
use ibc_solo_machine.Builder.Tx.{
  to_u64_timestamp, account_from_any, build, build_auth_info, build_signature, build_tx_body,
  get_account_details,
}
use ibc_solo_machine.Builder.Proofs.{
  get_packet_acknowledgement_proof, prove_path, prefixed_path, sign_bytes_of, timestamped_sign,
  sign,
}
use ibc_solo_machine.Store.IbcData.{get, get_channel}
use ibc_solo_machine.Builder.Connection.{connection_open_ack_message}
use ibc_solo_machine.Builder.Channel.{channel_open_ack_message}
use ibc_solo_machine.Builder.Packet.{msg_token_receive_ack}
use ibc_solo_machine.Builder.Signing.{asked, prove_path_asks}
use ibc_solo_machine.Store.IbcData.{add, add_channel, insert_data}
use ibc_solo_machine.Store.IbcData.Laws.{get_channel-add_channel}
use ibc_solo_machine.Tests.Samples.{channel}
use ibc_solo_machine.Service.Response.{ensure_response_success}
use ibc_solo_machine.Service.Transfer.{acknowledge_packet}
use ibc_solo_machine.Service.Transfer.Acknowledge.{acknowledge_packet_commits_refused}
use ibc_solo_machine.Tests.Samples.{
  sample, handshake, chain_at, world_at, handshake_world, packet, refusal,
}

-- The chain after a message is built.
abbrev signed_chain : Chain
signed_chain = record (chain_at 9) { sequence = 10; updated_at = pos 1700000000 }

abbrev tx : TxRaw
tx = record { body_bytes = []; auth_info_bytes = []; signatures = (1 ∷ []) ∷ [] }

abbrev begun : World
begun = (begin ⦃env = sample⦄ (world_at 9)).1

begun-Runs : Runs (begin ⦃env = sample⦄) (world_at 9) tt begun
unfolding begin
begun-Runs = refl

abbrev built : World
built = (msg_token_receive_ack ⦃env = sample⦄ transaction (chain_at 9) packet [] none begun).1

built-Runs :
    Runs
      (msg_token_receive_ack ⦃env = sample⦄ transaction (chain_at 9) packet [] none)
      begun
      (tx, signed_chain)
      built
unfolding begin msg_token_receive_ack ◌>>=◌ get_packet_acknowledgement_proof prove_path
    prefixed_path apply_prefix is_whitespace new_from_str sign_bytes_of to_u64_timestamp
    timestamped_sign sign sign_message call increment_sequence now execute update_returning text_eq
    account_from_any build build_auth_info build_signature build_tx_body get_account_details digits
    print_u64 lift or_raise pure require contains is_empty is_id_char matches_id parse
    parse_chain_id validate_length packet_acknowledgement_key trim any_of to_any chain_of_raw
    next_sequence u32_of_i64 find_row update_rows
built-Runs = refl

abbrev sent : World
sent = (broadcast_tx_commit ⦃env = sample⦄ [] built).1

sent-Runs : Runs (broadcast_tx_commit ⦃env = sample⦄ []) built refusal sent
unfolding broadcast_tx_commit call ◌>>=◌
sent-Runs = refl

abbrev closed : World
closed = (commit ⦃env = sample⦄ sent).1

closed-Runs : Runs (commit ⦃env = sample⦄) sent tt closed
unfolding commit
closed-Runs = refl

refused : ensure_response_success refusal ≡ err deliver_tx_failed
unfolding ensure_response_success
refused = refl

acknowledge_packet_commits_refused_example :
    ((acknowledge_packet ⦃env = sample⦄ (chain_at 9) packet [] none (world_at 9)).0
      ≡ err deliver_tx_failed)
    × (row : RawChain) × (current : DateTime) × (find_row row_id
          (codes "testnet-1")
          (world_at 9).stored.chains
        ≡ some row)
    × (find_row row_id
          (codes "testnet-1")
          (acknowledge_packet ⦃env = sample⦄
            (chain_at 9)
            packet
            []
            none
            (world_at 9)).1.stored.chains
        ≡ some (next_sequence current row))
acknowledge_packet_commits_refused_example =
    acknowledge_packet_commits_refused ⦃env = sample⦄ (chain_at 9) packet [] none refusal tx
      signed_chain (world_at 9) begun built sent closed begun-Runs built-Runs sent-Runs closed-Runs
      deliver_tx_failed refused

abbrev transaction_chain : Chain
transaction_chain = chain_at 9

abbrev acknowledged : World
acknowledged =
    (channel_open_ack_message ⦃env = handshake⦄ transaction_chain (codes "channel-0")
      (codes "channel-abcd") [] none handshake_world).1

abbrev confirmed : World
confirmed =
    (connection_open_ack_message ⦃env = handshake⦄ transaction_chain (codes "connection-0")
      (codes "07-tendermint-abcd") (codes "connection-abcd") [] none handshake_world).1

abbrev proved : World
proved =
    (prove_path ⦃env = sample⦄ (chain_at 9) (codes "connections/connection-abcd") (5 ∷ []) none
      begun).1

path_proved :
    Runs
      (prove_path ⦃env = sample⦄ (chain_at 9) (codes "connections/connection-abcd") (5 ∷ []) none)
      begun
      []
      proved
unfolding begin prove_path ◌>>=◌ prefixed_path apply_prefix is_whitespace new_from_str trim
    sign_bytes_of to_u64_timestamp timestamped_sign sign sign_message call
path_proved = refl

prove_path_asks_example :
    (timestamp : ℕ) × (to_u64_timestamp (chain_at 9).consensus_timestamp ≡ ok timestamp)
    × (proved
        ≡ asked ⦃env = sample⦄ none
            (record {
              sequence = 9;
              timestamp = timestamp;
              diversifier = codes "solo-machine-diversifier";
              path = sample.utf8_bytes (codes "connections/connection-abcd");
              data_bytes = 5 ∷ [];
            })
            begun)
prove_path_asks_example =
    prove_path_asks ⦃env = sample⦄ (chain_at 9) (codes "connections/connection-abcd") (5 ∷ []) none
      begun [] proved path_proved

abbrev stored_channel : World
stored_channel =
    (add_channel ⦃env = handshake⦄ transaction (codes "transfer") (codes "channel-wxyz") channel
      handshake_world).1

channel_added :
    Runs
      (add_channel ⦃env = handshake⦄ transaction (codes "transfer") (codes "channel-wxyz") channel)
      handshake_world
      tt
      stored_channel
unfolding add_channel add ◌>>=◌ execute insert_data find_row text_eq client_state_key connection_key
    channel_key
channel_added = refl

abbrev found_channel : World
found_channel =
    (get_channel ⦃env = handshake⦄ transaction (codes "transfer") (codes "channel-wxyz")
      stored_channel).1

channel_found :
    Runs
      (get_channel ⦃env = handshake⦄ transaction (codes "transfer") (codes "channel-wxyz"))
      stored_channel
      (some channel)
      found_channel
unfolding add_channel add get_channel get select ◌>>=◌ execute insert_data find_row text_eq
    client_state_key connection_key channel_key
channel_found = refl

get_channel-add_channel_example : some channel ≡ some channel
get_channel-add_channel_example =
    get_channel-add_channel ⦃env = handshake⦄ (codes "transfer") (codes "channel-wxyz") channel
      handshake_world stored_channel found_channel tt (some channel) refl channel_added
      channel_found
