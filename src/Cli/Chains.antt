-- ===== src/Cli/Chains.antt =====
-- `ChainCommand` of solo-machine/src/command/chain.rs.
use ibc_solo_machine.Base.{
  ℕ, Option, none, some, List, [], ◌∷◌, ◌++◌, Text, Bytes, codes, length, ◌==◌, not, map, unwrap,
  Result, ok, ok_or, ensure, ◌>>=◌ as ◌>>=ᵣ◌, external, invalid_limit, invalid_offset,
  empty_trusted_hash, trusted_hash_length,
}
use ibc_solo_machine.Decimal.{print_u64}
use ibc_solo_machine.Identifier.{ChainId, Identifier, PortId, is_empty}
use ibc_solo_machine.PublicKey.Convert.{encode}
use ibc_solo_machine.Chain.{Chain, ChainConfig, StdDuration, ConnectionDetails}
use ibc_solo_machine.Database.{ChainKey}
use ibc_solo_machine.Env.{Env}
use ibc_solo_machine.Crates.{Crates}
use ibc_solo_machine.Exec
use ibc_solo_machine.Service.Signer
use ibc_solo_machine.Service.Balance
use ibc_solo_machine.Server.Ibc.{read_count}
use ibc_solo_machine.Cli.{
  OutputType, text, json, line, table, object, of_text, of_chain, of_keys, of_balance, Shell, ◌>>=◌,
  core, lift, print,
}
use ibc_solo_machine.Cli.Handler.{row}

-- The options of `chain add`, as they are parsed.
pub record AddOptions : Type 0 where
  pub grpc_addr : Text
  pub rpc_addr : Text
  pub fee_amount : Text
  pub fee_denom : Identifier
  pub gas_limit : ℕ
  pub trust_level : ℕ × ℕ
  pub trusting_period : StdDuration
  pub max_clock_drift : StdDuration
  pub rpc_timeout : StdDuration
  pub diversifier : Text
  pub port_id : PortId
  pub trusted_height : ℕ
  pub trusted_hash : Bytes

pub data ChainCommand : Type 0 where
  add : AddOptions → ChainCommand
  get : ChainId → ChainCommand
  -- With a limit and an offset.
  get_public_keys : ChainId → ℕ → ℕ → ChainCommand
  get_ibc_denom balance : ChainId → Identifier → ChainCommand

abbrev config_of : AddOptions → ChainConfig
config_of options = record {
  grpc_addr = options.grpc_addr;
  rpc_addr = options.rpc_addr;
  fee = record {
    amount = options.fee_amount;
    denom = options.fee_denom;
    gas_limit = options.gas_limit;
  };
  trust_numer = options.trust_level.0;
  trust_denom = options.trust_level.1;
  trusting_period = options.trusting_period;
  max_clock_drift = options.max_clock_drift;
  rpc_timeout = options.rpc_timeout;
  diversifier = options.diversifier;
  port_id = options.port_id;
  trusted_height = options.trusted_height;
  trusted_hash = options.trusted_hash;
}

module _ ⦃env : Env⦄ ⦃crates : Crates⦄ where
  unfoldable pub parse_trusted_hash : Text → Result Bytes
  parse_trusted_hash hash = ensure (not (is_empty hash)) empty_trusted_hash >>=ᵣ λ _.
      ok_or (env.hex_decode hash) external >>=ᵣ λ bytes.
      ensure (length bytes == 32) trusted_hash_length >>=ᵣ λ _. ok bytes

  -- The rows of the connection, whose two channels are unwrapped.
  unfoldable pub connection_rows : Option ConnectionDetails → Result (List (List Text))
  connection_rows none = ok (row "Connection status" (codes "Not Connected") ∷ [])
  connection_rows (some details) =
      unwrap details.solo_machine_channel_id >>=ᵣ λ solo_machine_channel_id.
      unwrap details.tendermint_channel_id >>=ᵣ λ tendermint_channel_id. ok (
        row "Connection status" (codes "Connected")
        ∷ row "Solo machine client ID" details.solo_machine_client_id
        ∷ row "Tendermint client ID" details.tendermint_client_id
        ∷ row "Solo machine connection ID" details.solo_machine_connection_id
        ∷ row "Tendermint connection ID" details.tendermint_connection_id
        ∷ row "Solo machine channel ID" solo_machine_channel_id
        ∷ row "Tendermint channel ID" tendermint_channel_id
        ∷ [])

  -- The trust level is a `Ratio<u64>`, a height a `u64`.
  unfoldable pub chain_rows : Chain → List (List Text)
  chain_rows chain =
      row "ID" chain.id.id
      ∷ row "Node ID" chain.node_id
      ∷ row "gRPC address" chain.config.grpc_addr
      ∷ row "RPC address" chain.config.rpc_addr
      ∷ row "Fee amount" chain.config.fee.amount
      ∷ row "Fee denom" chain.config.fee.denom
      ∷ row "Gas limit" (print_u64 chain.config.fee.gas_limit)
      ∷ row "Trust level" (crates.ratio_to_string chain.config.trust_numer chain.config.trust_denom)
      ∷ row "Trusting period" (crates.format_duration chain.config.trusting_period)
      ∷ row "Maximum clock drift" (crates.format_duration chain.config.max_clock_drift)
      ∷ row "RPC timeout" (crates.format_duration chain.config.rpc_timeout)
      ∷ row "Diversifier" chain.config.diversifier
      ∷ row "Port ID" chain.config.port_id
      ∷ row "Trusted height" (print_u64 chain.config.trusted_height)
      ∷ row "Trusted hash" (env.hex_upper chain.config.trusted_hash)
      ∷ row "Consensus timestamp" (crates.format_time chain.consensus_timestamp)
      ∷ row "Sequence" (print_u64 chain.sequence)
      ∷ row "Packet sequence" (print_u64 chain.packet_sequence)
      ∷ []

  abbrev not_found : ChainId → Text
  not_found id = codes "Chain with id `" ++ (id.id ++ codes "` not found!")

  unfoldable pub show_chain : OutputType → ChainId → Option Chain → Shell (Unit {0})
  show_chain text id none = print (line (not_found id))
  show_chain json id none = print (object (codes "error") (of_text (not_found id)))
  show_chain text id (some chain) = do
    connection ← lift (connection_rows chain.connection_details)
    print (
        table (
          chain_rows chain
          ++ (connection
              ++ (row "Created at" (crates.format_time chain.created_at)
                  ∷ row "Updated at" (crates.format_time chain.updated_at)
                  ∷ []))))
  show_chain json id (some chain) = print (object (codes "success") (of_chain chain))

  -- `into_row`
  abbrev key_row : ChainKey → List Text
  key_row key =
      print_u64 key.id ∷ key.chain_id.id ∷ key.public_key ∷ crates.format_time key.created_at ∷ []

  abbrev key_titles : List Text
  key_titles = codes "ID" ∷ codes "Chain ID" ∷ codes "Public key" ∷ codes "Created at" ∷ []

  unfoldable pub show_keys : OutputType → List ChainKey → Shell (Unit {0})
  show_keys text keys = print (table (key_titles ∷ map key_row keys))
  show_keys json keys = print (object (codes "success") (of_keys keys))

  unfoldable pub show_denom : OutputType → Text → Shell (Unit {0})
  show_denom text denom = print (table (row "IBC denom" denom ∷ []))
  show_denom json denom = print (object (codes "success") (of_text denom))

  unfoldable pub show_balance : OutputType → Text → Identifier → Shell (Unit {0})
  show_balance text amount denom =
      print (table (row "Balance" (amount ++ (codes " " ++ denom)) ∷ []))
  show_balance json amount denom = print (object (codes "success") (of_balance amount denom))

  unfoldable pub execute : ChainCommand → OutputType → Shell (Unit {0})
  execute (add options) output = do
    public_key ← core (Exec.or_raise env.public_key external)
    chain_id ← core (Signer.add (config_of options) (encode public_key))
    lift (ok tt)
  execute (get id) output = do chain ← core (Signer.get id); show_chain output id chain
  execute (get_public_keys id limit offset) output = do
    limit' ← lift (read_count invalid_limit limit)
    offset' ← lift (read_count invalid_offset offset)
    keys ← core (Signer.get_public_keys id limit' offset')
    show_keys output keys
  execute (get_ibc_denom id denom) output = do
    ibc_denom ← core (Signer.get_ibc_denom id denom)
    show_denom output ibc_denom
  execute (balance id denom) output = do
    amount ← core (Balance.balance id denom)
    show_balance output amount denom
