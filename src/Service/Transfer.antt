-- ===== src/Service/Transfer.antt =====
-- `IbcService::mint`, `burn`, `process_packets` and `history`.
pub mod Acknowledge
pub mod Listed
pub mod Outcome
use ibc_solo_machine.Base.{
  ℕ, ℤ, Bool, true, false, List, [], ◌∷◌, Option, some, none, Text, text_eq, codes, if◌then◌else◌,
  Result, ok, err, panic, chain_not_found, external, mint_failed, connection_not_established,
  channel_already_closed, invalid_source_port, invalid_source_channel, invalid_destination_port,
  invalid_destination_channel,
}
use ibc_solo_machine.Identifier.{Identifier, ChainId, ChannelId, PortId}
use ibc_solo_machine.Chain.{Chain, ConnectionDetails}
use ibc_solo_machine.Messages.{Packet, tx_raw}
use ibc_solo_machine.Event.{tokens_minted, tokens_burnt, warning}
use ibc_solo_machine.Env.{Env, TxCommitResponse}
use ibc_solo_machine.Database.{Operation, mint, burn}
use ibc_solo_machine.Exec.{
  Exec, pool, transaction, pure, lift, raise, or_raise, require, ◌>>=◌, ◌>>◌, begin, commit,
  http_client, broadcast_tx_commit, notify_event, to_account_address,
}
use ibc_solo_machine.Store.Chains.{get_chain}
use ibc_solo_machine.Store.Operations.{add_operation, get_operations}
use ibc_solo_machine.Builder.Packet.{msg_token_send, msg_token_receive, msg_token_receive_ack}
use ibc_solo_machine.Service.Response.{ensure_response_success, extract_attribute}
use ibc_solo_machine.Service.Packets.{extract_packets}

abbrev or_default : Option Text → Text → Text
or_default none d = d
or_default (some a) d = a

module _ ⦃env : Env⦄ where
  -- `mint` from the transaction that is committed to the result.
  unfoldable pub record_mint :
      ChainId → Option Text → ℕ → Identifier → Text → TxCommitResponse → Text → Exec Text
  record_mint chain_id request_id amount denom receiver response transaction_hash = do
    text ← lift (
        extract_attribute response.tx_result_events (codes "fungible_token_packet")
          (codes "success"))
    success ← or_raise (env.parse_bool text) external
    if success
        then (do
          add_operation pool request_id receiver denom amount (mint chain_id) transaction_hash
          notify_event (tokens_minted chain_id request_id receiver amount denom transaction_hash)
          pure transaction_hash)
        else (do
          ack ← lift (
              extract_attribute response.tx_result_events (codes "write_acknowledgement")
                (codes "packet_ack_hex"))
          bytes ← or_raise (env.hex_decode ack) external
          message ← or_raise (env.from_utf8 bytes) external
          raise mint_failed)

  -- `mint`
  unfoldable pub mint_tokens :
      ChainId → Option Text → ℕ → Identifier → Option Text → Text → Exec Text
  mint_tokens chain_id request_id amount denom receiver memo = do
    found ← get_chain pool chain_id
    chain ← or_raise found chain_not_found
    address ← to_account_address
    let receiver' = or_default receiver address
    http_client chain.config.rpc_addr
    begin
    (msg, chain') ← msg_token_send chain amount denom receiver' memo request_id
    response ← broadcast_tx_commit (env.encode (tx_raw msg))
    transaction_hash ← lift (ensure_response_success response)
    commit
    record_mint chain_id request_id amount denom receiver' response transaction_hash

  -- The checks of `process_packets` on a packet.
  unfoldable pub check_packet : Chain → ChannelId → ChannelId → Packet → Result (Unit {0})
  check_packet chain solo_machine_channel_id tendermint_channel_id packet =
      if text_eq chain.config.port_id packet.source_port
      then (if text_eq solo_machine_channel_id packet.source_channel
          then (if text_eq chain.config.port_id packet.destination_port
              then (if text_eq tendermint_channel_id packet.destination_channel
                  then ok tt
                  else err invalid_destination_channel)
              else err invalid_destination_port)
          else err invalid_source_channel)
      else err invalid_source_port

  -- A round of the loop behind the checks. The transaction is committed before the response is
  -- looked at.
  unfoldable pub acknowledge_packet : Chain → Packet → Text → Option Text → Exec Chain
  acknowledge_packet chain packet memo request_id = do
    begin
    (msg, chain') ← msg_token_receive_ack transaction chain packet memo request_id
    response ← broadcast_tx_commit (env.encode (tx_raw msg))
    commit
    transaction_hash ← lift (ensure_response_success response)
    pure chain'

  unfoldable pub process_each :
      Chain → ChannelId → ChannelId → List Packet → Text → Option Text → Exec (Unit {0})
  process_each chain solo_machine_channel_id tendermint_channel_id [] memo request_id = pure tt
  process_each chain solo_machine_channel_id tendermint_channel_id (packet ∷ packets) memo
        request_id =
      do
        lift (check_packet chain solo_machine_channel_id tendermint_channel_id packet)
        chain' ← acknowledge_packet chain packet memo request_id
        process_each chain' solo_machine_channel_id tendermint_channel_id packets memo request_id

  unfoldable pub process_packets : Chain → List Packet → Text → Option Text → Exec (Unit {0})
  process_packets chain packets memo request_id = do
    details ← or_raise chain.connection_details connection_not_established
    tendermint_channel_id ← or_raise details.tendermint_channel_id channel_already_closed
    solo_machine_channel_id ← or_raise details.solo_machine_channel_id channel_already_closed
    process_each chain solo_machine_channel_id tendermint_channel_id packets memo request_id

  -- `if let Err(e) = …`: an error is sent as a warning.
  unfoldable pub warn_result : Result (Unit {0}) → Exec (Unit {0})
  warn_result (ok _) = pure tt
  warn_result (err e) = notify_event warning
  warn_result panic = lift panic

  unfoldable pub or_warn : Exec (Unit {0}) → Exec (Unit {0})
  or_warn m w = warn_result (m w).0 (m w).1

  -- `burn`
  unfoldable pub burn_tokens : ChainId → Option Text → ℕ → Identifier → Text → Exec Text
  burn_tokens chain_id request_id amount denom memo = do
    found ← get_chain pool chain_id
    chain ← or_raise found chain_not_found
    http_client chain.config.rpc_addr
    address ← to_account_address
    msg ← msg_token_receive chain amount denom address memo request_id
    response ← broadcast_tx_commit (env.encode (tx_raw msg))
    transaction_hash ← lift (ensure_response_success response)
    add_operation pool request_id address denom amount (burn chain_id) transaction_hash
    notify_event (tokens_burnt chain_id request_id address amount denom transaction_hash)
    packets ← lift (extract_packets response)
    or_warn (process_packets chain packets memo request_id)
    pure transaction_hash

  unfoldable pub history : ℤ → ℤ → Exec (List Operation)
  history limit offset = do
    account_address ← to_account_address
    get_operations pool account_address limit offset
