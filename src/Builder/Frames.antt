-- ===== src/Builder/Frames.antt =====
-- The rules for the code that builds transactions.
use ibc_solo_machine.Base.{some, none, Text, Bytes, Option, ℕ, List}
use ibc_solo_machine.PublicKey.{PublicKey}
use ibc_solo_machine.Chain.{Chain}
use ibc_solo_machine.Messages.{Any, SignBytes, Packet}
use ibc_solo_machine.Env.{Env}
use ibc_solo_machine.Exec.{Executor, transaction}
use ibc_solo_machine.Exec.Keeps.{Frame, Keeps}
use ibc_solo_machine.Exec.Frames.{Reading}
use ibc_solo_machine.Store.Frames.{Writing}
use ibc_solo_machine.Store.Kept.{store_rules}
use ibc_solo_machine.Builder.Tx.{build_auth_info, build_signature, get_account_details, build}
use ibc_solo_machine.Builder.Proofs.{
  sign, timestamped_sign, prove_path, get_packet_acknowledgement_proof, get_packet_commitment_proof,
  get_channel_proof, get_connection_proof, get_header_proof,
}
use ibc_solo_machine.Builder.Client.{
  msg_create_solo_machine_client, announced_key, msg_update_solo_machine_client,
  get_unbonding_period, get_latest_height, get_latest_header, msg_create_tendermint_client,
}
use ibc_solo_machine.Builder.Connection.{connection_open_init_message, connection_open_ack_message}
use ibc_solo_machine.Builder.Channel.{
  channel_open_init_message, channel_close_init_message, channel_open_ack_message,
}
use ibc_solo_machine.Builder.Packet.{msg_token_send, msg_token_receive, msg_token_receive_ack}

module _ ⦃env : Env⦄ {F : Frame} ⦃reading : Reading F⦄ where
  pub build_auth_info-Keeps : (chain : Chain) (n : ℕ) → Keeps F (build_auth_info chain n)
  unfolding build_auth_info
  build_auth_info-Keeps chain n = search store_rules depth 60

  pub build_signature-Keeps :
      (body info : Bytes) (id : Text) (n : ℕ) (request_id : Option Text)
      → Keeps F (build_signature body info id n request_id)
  unfolding build_signature
  build_signature-Keeps body info id n request_id = search store_rules depth 60

  pub get_account_details-Keeps : (chain : Chain) → Keeps F (get_account_details chain)
  unfolding get_account_details
  get_account_details-Keeps chain = search store_rules depth 60

  pub build-Keeps :
      (chain : Chain) (messages : List Any) (memo : Text) (request_id : Option Text)
      → Keeps F (build chain messages memo request_id)
  unfolding build
  build-Keeps chain messages memo request_id =
      search (store_rules, build_auth_info-Keeps, build_signature-Keeps, get_account_details-Keeps)
        depth 60

  pub sign-Keeps : (request_id : Option Text) (bytes : SignBytes) → Keeps F (sign request_id bytes)
  unfolding sign
  sign-Keeps request_id bytes = search store_rules depth 60

  pub timestamped_sign-Keeps :
      (chain : Chain) (bytes : SignBytes) (request_id : Option Text)
      → Keeps F (timestamped_sign chain bytes request_id)
  unfolding timestamped_sign
  timestamped_sign-Keeps chain bytes request_id = search (store_rules, sign-Keeps) depth 60

  pub prove_path-Keeps :
      (chain : Chain) (key : Text) (bytes : Bytes) (request_id : Option Text)
      → Keeps F (prove_path chain key bytes request_id)
  unfolding prove_path
  prove_path-Keeps chain key bytes request_id =
      search (store_rules, timestamped_sign-Keeps) depth 60

  pub get_packet_acknowledgement_proof-Keeps :
      (chain : Chain) (ack : Bytes) (n : ℕ) (request_id : Option Text)
      → Keeps F (get_packet_acknowledgement_proof chain ack n request_id)
  unfolding get_packet_acknowledgement_proof
  get_packet_acknowledgement_proof-Keeps chain ack n request_id =
      search (store_rules, prove_path-Keeps) depth 60

  pub get_packet_commitment_proof-Keeps :
      (chain : Chain) (packet : Packet) (request_id : Option Text)
      → Keeps F (get_packet_commitment_proof chain packet request_id)
  unfolding get_packet_commitment_proof
  get_packet_commitment_proof-Keeps chain packet request_id =
      search (store_rules, prove_path-Keeps) depth 60

  pub get_channel_proof-Keeps :
      (x : Executor) (chain : Chain) (id : Text) (request_id : Option Text)
      → Keeps F (get_channel_proof x chain id request_id)
  unfolding get_channel_proof
  get_channel_proof-Keeps x chain id request_id = search (store_rules, prove_path-Keeps) depth 60

  pub get_connection_proof-Keeps :
      (x : Executor) (chain : Chain) (id : Text) (request_id : Option Text)
      → Keeps F (get_connection_proof x chain id request_id)
  unfolding get_connection_proof
  get_connection_proof-Keeps x chain id request_id = search (store_rules, prove_path-Keeps) depth 60

  pub get_header_proof-Keeps :
      (chain : Chain) (key : Option Any) (diversifier : Text) (request_id : Option Text)
      → Keeps F (get_header_proof chain key diversifier request_id)
  unfolding get_header_proof
  get_header_proof-Keeps chain key diversifier request_id =
      search (store_rules, sign-Keeps) depth 60

  pub msg_create_solo_machine_client-Keeps :
      (chain : Chain) (memo : Text) (request_id : Option Text)
      → Keeps F (msg_create_solo_machine_client chain memo request_id)
  unfolding msg_create_solo_machine_client
  msg_create_solo_machine_client-Keeps chain memo request_id =
      search (store_rules, build-Keeps) depth 60

  pub get_unbonding_period-Keeps : (chain : Chain) → Keeps F (get_unbonding_period chain)
  unfolding get_unbonding_period
  get_unbonding_period-Keeps chain = search store_rules depth 60

  pub get_latest_height-Keeps : Keeps F get_latest_height
  unfolding get_latest_height
  get_latest_height-Keeps = search store_rules depth 60

  pub get_latest_header-Keeps : Keeps F get_latest_header
  unfolding get_latest_header
  get_latest_header-Keeps = search store_rules depth 60

  pub msg_create_tendermint_client-Keeps :
      (chain : Chain) → Keeps F (msg_create_tendermint_client chain)
  unfolding msg_create_tendermint_client
  msg_create_tendermint_client-Keeps chain =
      search (store_rules, get_unbonding_period-Keeps, get_latest_header-Keeps) depth 60

  pub connection_open_init_message-Keeps :
      (chain : Chain) (s t memo : Text) (request_id : Option Text)
      → Keeps F (connection_open_init_message chain s t memo request_id)
  unfolding connection_open_init_message
  connection_open_init_message-Keeps chain s t memo request_id =
      search (store_rules, build-Keeps) depth 60

  pub channel_open_init_message-Keeps :
      (chain : Chain) (c memo : Text) (request_id : Option Text)
      → Keeps F (channel_open_init_message chain c memo request_id)
  unfolding channel_open_init_message
  channel_open_init_message-Keeps chain c memo request_id =
      search (store_rules, build-Keeps) depth 60

  pub channel_close_init_message-Keeps :
      (chain : Chain) (memo : Text) (request_id : Option Text)
      → Keeps F (channel_close_init_message chain memo request_id)
  unfolding channel_close_init_message
  channel_close_init_message-Keeps chain memo request_id =
      search (store_rules, build-Keeps) depth 60

  pub msg_token_receive-Keeps :
      (chain : Chain) (amount : ℕ) (denom receiver memo : Text) (request_id : Option Text)
      → Keeps F (msg_token_receive chain amount denom receiver memo request_id)
  unfolding msg_token_receive
  msg_token_receive-Keeps chain amount denom receiver memo request_id =
      search (store_rules, build-Keeps) depth 60

  pub announced_key-Keeps : (key : Option PublicKey) → Keeps F (announced_key key)
  unfolding announced_key
  announced_key-Keeps none = search store_rules
  announced_key-Keeps (some key) = search store_rules

module _ ⦃env : Env⦄ {F : Frame} ⦃reading : Reading F⦄ ⦃writing : Writing F⦄ where
  pub connection_open_ack_message-Keeps :
      (chain : Chain) (s t c memo : Text) (request_id : Option Text)
      → Keeps F (connection_open_ack_message chain s t c memo request_id)
  unfolding connection_open_ack_message
  connection_open_ack_message-Keeps chain s t c memo request_id =
      search (store_rules, build-Keeps, get_connection_proof-Keeps) depth 60

  pub channel_open_ack_message-Keeps :
      (chain : Chain) (s t memo : Text) (request_id : Option Text)
      → Keeps F (channel_open_ack_message chain s t memo request_id)
  unfolding channel_open_ack_message
  channel_open_ack_message-Keeps chain s t memo request_id =
      search (store_rules, build-Keeps, get_channel_proof-Keeps) depth 60

  pub msg_token_send-Keeps :
      (chain : Chain) (amount : ℕ) (denom receiver memo : Text) (request_id : Option Text)
      → Keeps F (msg_token_send chain amount denom receiver memo request_id)
  unfolding msg_token_send
  msg_token_send-Keeps chain amount denom receiver memo request_id =
      search (store_rules, build-Keeps, get_latest_height-Keeps, get_packet_commitment_proof-Keeps)
        depth 60

  pub msg_token_receive_ack-Keeps :
      (chain : Chain) (packet : Packet) (memo : Text) (request_id : Option Text)
      → Keeps F (msg_token_receive_ack transaction chain packet memo request_id)
  unfolding msg_token_receive_ack
  msg_token_receive_ack-Keeps chain packet memo request_id =
      search (store_rules, build-Keeps, get_packet_acknowledgement_proof-Keeps) depth 60

  pub msg_update_solo_machine_client-Keeps :
      (chain : Chain) (key : Option PublicKey) (memo : Text) (request_id : Option Text)
      → Keeps F (msg_update_solo_machine_client transaction chain key memo request_id)
  unfolding msg_update_solo_machine_client
  msg_update_solo_machine_client-Keeps chain key memo request_id =
      search (store_rules, build-Keeps, announced_key-Keeps, get_header_proof-Keeps) depth 60

pub ruleset builder_rules = (
  store_rules, announced_key-Keeps, msg_update_solo_machine_client-Keeps, build_auth_info-Keeps,
  build_signature-Keeps, get_account_details-Keeps, build-Keeps, sign-Keeps, timestamped_sign-Keeps,
  prove_path-Keeps, get_packet_acknowledgement_proof-Keeps, get_packet_commitment_proof-Keeps,
  get_channel_proof-Keeps, get_connection_proof-Keeps, get_header_proof-Keeps,
  msg_create_solo_machine_client-Keeps, get_unbonding_period-Keeps, get_latest_height-Keeps,
  get_latest_header-Keeps, msg_create_tendermint_client-Keeps, connection_open_init_message-Keeps,
  connection_open_ack_message-Keeps, channel_open_init_message-Keeps,
  channel_close_init_message-Keeps, channel_open_ack_message-Keeps, msg_token_send-Keeps,
  msg_token_receive-Keeps, msg_token_receive_ack-Keeps,
)
