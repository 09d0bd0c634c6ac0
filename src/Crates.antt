-- ===== src/Crates.antt =====
-- What the gRPC server and the command line take from other crates: the bank module of a node,
-- parsers and printers, and the standard output.
use ibc_solo_machine.Base.{ℕ, ℤ, Text, Bytes, Option, Bool, List}
use ibc_solo_machine.Chain.{StdDuration}
use ibc_solo_machine.Env.{Trace}

-- `prost_types::Duration`, whose fields may be negative.
pub record ProtoDuration : Type 0 where
  pub seconds : ℤ
  pub nanos : ℤ

pub record Crates : Type 0 where
  -- The coin of an address and a denomination, if the response has one: its amount.
  pub query_balance : Trace → Text → Text → Option (Option Text)
  -- `Decimal`: the text that its parsed value prints.
  pub parse_decimal : Text → Option Text
  -- `Ratio<u64>`: its numerator and its denominator.
  pub parse_ratio : Text → Option (ℕ × ℕ)
  pub ratio_to_string : ℕ → ℕ → Text
  -- `U256::from_dec_str`
  pub parse_u256 : Text → Option ℕ
  -- `VerifyingKey::from_sec1_bytes`: the key, as the bytes that it is encoded in.
  pub from_sec1_bytes : Bytes → Option Bytes
  -- `Duration::try_from` of a `prost_types::Duration`
  pub duration_from_proto : ProtoDuration → Option StdDuration
  -- `humantime::format_duration`, and `Display` of a timestamp.
  pub format_duration : StdDuration → Text
  pub format_time : ℤ → Text
  -- `str::to_lowercase`
  pub to_lowercase : Text → Text
  -- Whether the standard output takes the next item, after that many.
  pub stdout_ok : ℕ → Bool
  -- `connect_db`, `init_db` and `run_migrations`, of the database's address.
  pub connect_db_ok : Text → Bool
  pub init_db_ok : Text → Bool
  pub migrations_ok : Text → Bool
  -- Whether the libraries of the event handlers, and the one of the signer, are loaded.
  pub handlers_ok : List Text → Bool
  pub signer_ok : Text → Bool
  -- Whether the task of the event handlers ends well, and whether the gRPC server does.
  pub handlers_done : Trace → Bool
  pub start_grpc_ok : Text → Bool
