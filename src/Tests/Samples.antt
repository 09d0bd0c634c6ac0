-- ===== src/Tests/Samples.antt =====
-- A world with one chain, and a node, a signer and a database that accept every request.
use ibc_solo_machine.Base.{ℕ, pos, true, false, [], ◌∷◌, none, some, codes}
use ibc_solo_machine.PublicKey.{secp256k1}
use ibc_solo_machine.Identifier.{ChainId, version_of}
use ibc_solo_machine.Chain.{ChainConfig, ConnectionDetails, RawChain, Chain}
use ibc_solo_machine.Messages.{
  Any, BaseAccount, Packet, TendermintClientState, ConnectionEnd, Channel, unordered,
}
use ibc_solo_machine.Messages
use ibc_solo_machine.Path.{client_state_key, connection_key, channel_key}
use ibc_solo_machine.Env.{Env, TxCommitResponse}
use ibc_solo_machine.Database.{Database, empty}
use ibc_solo_machine.Exec.{World}

abbrev pub config : ChainConfig
config = record {
  grpc_addr = codes "grpc";
  rpc_addr = codes "rpc";
  fee = record { amount = codes "1000"; denom = codes "stake"; gas_limit = 300000 };
  trust_numer = 1;
  trust_denom = 3;
  trusting_period = record { secs = 1209600; nanos = 0 };
  max_clock_drift = record { secs = 5; nanos = 0 };
  rpc_timeout = record { secs = 60; nanos = 0 };
  diversifier = codes "solo-machine-diversifier";
  port_id = codes "transfer";
  trusted_height = 1;
  trusted_hash = [];
}

abbrev pub details : ConnectionDetails
details = record {
  solo_machine_client_id = codes "06-solomachine-0";
  tendermint_client_id = codes "07-tendermint-abcd";
  solo_machine_connection_id = codes "connection-0";
  tendermint_connection_id = codes "connection-abcd";
  solo_machine_channel_id = some (codes "channel-0");
  tendermint_channel_id = some (codes "channel-abcd");
}

-- `sequence` is the sequence of the chain.
abbrev pub row_at : ℕ → RawChain
row_at sequence = record {
  id = codes "testnet-1";
  node_id = codes "node";
  config = config;
  consensus_timestamp = pos 1600000000;
  sequence = pos sequence;
  packet_sequence = pos 3;
  connection_details = some details;
  created_at = pos 1600000000;
  updated_at = pos 1600000000;
}

abbrev pub chain_id : ChainId
chain_id = record { id = codes "testnet-1"; version = version_of (codes "testnet-1") }

abbrev pub chain_at : ℕ → Chain
chain_at sequence = record {
  id = chain_id;
  node_id = codes "node";
  config = config;
  consensus_timestamp = pos 1600000000;
  sequence = sequence;
  packet_sequence = 3;
  connection_details = some details;
  created_at = pos 1600000000;
  updated_at = pos 1600000000;
}

abbrev pub database_at : ℕ → Database
database_at sequence = record empty { chains = row_at sequence ∷ [] }

abbrev pub world_at : ℕ → World
world_at sequence = record {
  stored = database_at sequence;
  working = database_at sequence;
  trace = [];
}

abbrev pub packet : Packet
packet = record {
  sequence = 1;
  source_port = codes "transfer";
  source_channel = codes "channel-0";
  destination_port = codes "transfer";
  destination_channel = codes "channel-abcd";
  payload = [];
  timeout_height = some (record { revision_number = 0; revision_height = 10 });
  timeout_timestamp = 0;
}

-- The node takes the transaction into its pool, and refuses it when it is executed.
abbrev pub refusal : TxCommitResponse
refusal = record {
  check_tx_ok = true;
  tx_result_ok = false;
  tx_result_events = [];
  hash = codes "0A";
}

abbrev pub account : BaseAccount
account = record { address = codes "cosmos1"; account_number = 7; sequence = 9 }

abbrev pub sample : Env
sample = record {
  begin_ok = λ t. true;
  commit_ok = λ t. true;
  statement_ok = λ t. true;
  public_key = some (secp256k1 (2 ∷ []));
  account_address = some (codes "cosmos1");
  sign = λ t r m. some (1 ∷ []);
  http_client_ok = λ a. true;
  broadcast = λ t b. some refusal;
  status = λ t. some (record {
    catching_up = false;
    network = codes "testnet-1";
    node_id = codes "node";
    latest_block_height = 5;
  });
  grpc_connect_ok = λ t a. true;
  query_account = λ t a.
      some (some (record { type_url = codes "/cosmos.auth.v1beta1.BaseAccount"; value = [] }));
  query_staking_params = λ t. some (some (some (record { seconds = 1814400; nanos = 0 })));
  trust_threshold_ok = λ n d. true;
  trust_primary_ok = λ c. true;
  verify_to_highest = λ t. none;
  has_notifier = false;
  notify_ok = λ t e. true;
  now = λ t. pos 1700000000;
  random_suffix = λ t n. codes "abcd";
  encode = λ m. [];
  decode_client_state = λ b. none;
  decode_connection = λ b. none;
  decode_channel = λ b. none;
  decode_base_account = λ b. some account;
  utf8_bytes = λ t. t;
  from_utf8 = λ b. some b;
  sha256 = λ b. b;
  ripemd160 = λ b. b;
  hex_upper = λ b. b;
  hex_lower = λ b. b;
  hex_decode = λ t. some t;
  bech32_encode = λ p b. some b;
  transfer_json = λ d. [];
  ack_json = codes "ok";
  u256_to_string = λ n. [];
  u256_to_big_endian = λ n. [];
  u256_from_big_endian = λ b. 0;
  parse_bool = λ t. some true;
  parse_node_id = λ t. some t;
  duration_to_proto = λ d. none;
}

abbrev pub client_state : TendermintClientState
client_state = record {
  chain_id = codes "testnet-1";
  trust_level = none;
  trusting_period = none;
  unbonding_period = none;
  max_clock_drift = none;
  frozen_height = none;
  latest_height = some (record { revision_number = 1; revision_height = 5 });
  proof_specs = [];
  upgrade_path = [];
  allow_update_after_expiry = false;
  allow_update_after_misbehaviour = false;
}

abbrev pub connection : ConnectionEnd
connection = record {
  client_id = codes "07-tendermint-abcd";
  versions = [];
  state = Messages.ConnectionState.try_open;
  counterparty = none;
  delay_period = 0;
}

abbrev pub channel : Channel
channel = record {
  state = Messages.ChannelState.try_open;
  ordering = unordered;
  counterparty = none;
  connection_hops = [];
  version = codes "ics20-1";
  upgrade_sequence = 0;
}

-- The table `ibc_data` holds a client, a connection and a channel.
abbrev pub handshake : Env
handshake = record sample {
  decode_client_state = λ b. some client_state;
  decode_connection = λ b. some connection;
  decode_channel = λ b. some channel;
}

abbrev pub handshake_database : Database
handshake_database = record (database_at 9) {
  ibc_data =
      record { path = client_state_key (codes "07-tendermint-abcd"); payload = [] }
      ∷ record { path = connection_key (codes "connection-abcd"); payload = [] }
      ∷ record { path = channel_key (codes "transfer") (codes "channel-abcd"); payload = [] }
      ∷ [];
}

abbrev pub handshake_world : World
handshake_world = record { stored = handshake_database; working = handshake_database; trace = [] }
