-- ===== src/Tests/Fronts.antt =====
-- The gRPC server and the command line in the sample world.
use ibc_solo_machine.Base.{
  ℕ, zero, suc, ℤ, pos, negsuc, [], ◌∷◌, List, codes, Option, none, some, true, ◌≡◌, refl, ok, err,
  external, is_whitespace, arith,
}
use ibc_solo_machine.Identifier.{
  parse, parse_id, parse_port_id, parse_chain_id, matches_id, is_empty, contains, validate_length,
  is_id_char,
}
use ibc_solo_machine.Chain.{StdDuration, ChainConfig}
use ibc_solo_machine.Event.{warning}
use ibc_solo_machine.Env.{Env}
use ibc_solo_machine.Crates.{Crates}
use ibc_solo_machine.Server.Config.{RequestConfig, core_config, response_config, write_duration}
use ibc_solo_machine.Server.RoundTrip.{core_config-response_config}
use ibc_solo_machine.Server.Ibc.{
  ConnectRequest, MintRequest, BurnRequest, QueryHistoryRequest, read_transfer, default_memo,
  query_history,
}
use ibc_solo_machine.Server.Ibc
use ibc_solo_machine.Cli.{text, Session, lift, ◌>>=◌}
use ibc_solo_machine.Cli.Chains
use ibc_solo_machine.Cli.Transfers.{connect, mint, burn}
use ibc_solo_machine.Cli.Transfers
use ibc_solo_machine.Cli.Display.{calm, get_never_panics}
use ibc_solo_machine.Cli.Fronts.{requests_match_commands}
use ibc_solo_machine.Cli.Registrar.{EventHandler, handle, receive}
use ibc_solo_machine.Cli.Order.{handle_stops}
use ibc_solo_machine.Tests.Samples.{sample, config, chain_id, world_at}
use ibc_solo_machine.Tests.Worlds.{nothing, closed, added_then_closed}

abbrev std_of : ℤ → ℤ → Option StdDuration
std_of (pos s) (pos n) = some (record { secs = s; nanos = n })
std_of (pos s) (negsuc n) = none
std_of (negsuc s) n = none

abbrev pub crates : Crates
crates = record {
  query_balance = λ t a d. none;
  parse_decimal = λ t. some t;
  parse_ratio = λ t. some (1, 3);
  ratio_to_string = λ n d. codes "1/3";
  parse_u256 = λ t. some 5;
  from_sec1_bytes = λ b. some b;
  duration_from_proto = λ d. std_of d.seconds d.nanos;
  format_duration = λ d. [];
  format_time = λ z. [];
  to_lowercase = λ t. t;
  stdout_ok = λ n. true;
  connect_db_ok = λ t. true;
  init_db_ok = λ t. true;
  migrations_ok = λ t. true;
  handlers_ok = λ ts. true;
  signer_ok = λ t. true;
  handlers_done = λ t. true;
  start_grpc_ok = λ t. true;
}

abbrev session_at : ℕ → Session
session_at n = record { world = world_at n; stdout = [] }

get_never_panics_example :
    calm
      (Chains.execute ⦃env = sample⦄ ⦃crates = crates⦄
        (Chains.ChainCommand.get chain_id)
        text
        (record { world = closed; stdout = [] })).0
    ≡ true
get_never_panics_example =
    get_never_panics ⦃env = sample⦄ ⦃crates = crates⦄ nothing closed chain_id text [] refl refl
      added_then_closed

-- Durations are written with the same numbers.
abbrev writing : Env
writing = record sample {
  duration_to_proto = λ d. some (record { seconds = d.secs; nanos = d.nanos });
}

abbrev pub zeros : ℕ → List ℕ
zeros zero = []
zeros (suc n) = 0 ∷ zeros n

abbrev hashed : ChainConfig
hashed = record config { trusted_hash = zeros 32 }

abbrev written : RequestConfig
written = record {
  grpc_addr = some hashed.grpc_addr;
  rpc_addr = some hashed.rpc_addr;
  fee_config = some (record {
    fee_amount = some hashed.fee.amount;
    fee_denom = some hashed.fee.denom;
    gas_limit = some hashed.fee.gas_limit;
  });
  trust_level = some (codes "1/3");
  trusting_period = some (record { seconds = pos 1209600; nanos = pos 0 });
  max_clock_drift = some (record { seconds = pos 5; nanos = pos 0 });
  rpc_timeout = some (record { seconds = pos 60; nanos = pos 0 });
  diversifier = some hashed.diversifier;
  port_id = some hashed.port_id;
  trusted_height = some hashed.trusted_height;
  trusted_hash = some hashed.trusted_hash;
}

core_config-response_config_example :
    core_config ⦃env = writing⦄ ⦃crates = crates⦄ (some written) ≡ ok hashed
unfolding parse parse_id parse_port_id matches_id is_empty contains validate_length is_id_char
    is_whitespace response_config write_duration
core_config-response_config_example =
    core_config-response_config ⦃env = writing⦄ ⦃crates = crates⦄ hashed written
      (record {
        amount = refl;
        denom = refl;
        trust_level = refl;
        port_id = refl;
        hash = refl;
        hash_text = refl;
        hash_length = refl;
      })
      (λ d p e. ground (arith, e)) refl

abbrev connect_request : ConnectRequest
connect_request = record {
  chain_id = codes "testnet-1";
  request_id = none;
  memo = none;
  force = true;
}

abbrev mint_request : MintRequest
mint_request = record {
  chain_id = codes "testnet-1";
  request_id = none;
  memo = some (codes "memo");
  amount = codes "5";
  denom = codes "gld";
  receiver_address = none;
}

abbrev burn_request : BurnRequest
burn_request = record {
  chain_id = codes "testnet-1";
  request_id = none;
  memo = some (codes "memo");
  amount = codes "5";
  denom = codes "gld";
}

requests_match_commands_example :
    ((Ibc.connect ⦃env = sample⦄ ⦃crates = crates⦄ connect_request (world_at 9)).1
      ≡ (Transfers.execute ⦃env = sample⦄ ⦃crates = crates⦄
          (connect chain_id default_memo none true)
          text
          (session_at 9)).1.world)
    × ((Ibc.mint ⦃env = sample⦄ ⦃crates = crates⦄ mint_request (world_at 9)).1
        ≡ (Transfers.execute ⦃env = sample⦄ ⦃crates = crates⦄
            (mint chain_id 5 (codes "gld") none (codes "memo") none)
            text
            (session_at 9)).1.world)
    × ((Ibc.burn ⦃env = sample⦄ ⦃crates = crates⦄ burn_request (world_at 9)).1
        ≡ (Transfers.execute ⦃env = sample⦄ ⦃crates = crates⦄
            (burn chain_id 5 (codes "gld") (codes "memo") none)
            text
            (session_at 9)).1.world)
unfolding parse parse_chain_id matches_id is_empty contains validate_length is_id_char is_whitespace
    read_transfer
requests_match_commands_example =
    requests_match_commands ⦃env = sample⦄ ⦃crates = crates⦄ connect_request mint_request
      burn_request chain_id chain_id chain_id 5 5 (codes "gld") (codes "gld") text (session_at 9)
      refl refl refl

abbrev silent : EventHandler
silent e s = (ok tt, s)

abbrev failing : EventHandler
failing e s = (err external, s)

handle_stops_example :
    (handle (silent ∷ failing ∷ silent ∷ []) warning (session_at 9) ≡ (err external, session_at 9))
    × (receive (silent ∷ failing ∷ silent ∷ []) (warning ∷ warning ∷ []) (session_at 9)
        ≡ (err external, session_at 9))
unfolding handle lift ◌>>=◌
handle_stops_example =
    handle_stops (silent ∷ []) (silent ∷ []) failing warning (warning ∷ []) (session_at 9)
      (session_at 9) (session_at 9) external refl refl
