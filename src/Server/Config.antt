-- ===== src/Server/Config.antt =====
-- The chain configuration of a request, and the one of a response:
-- solo-machine/src/server/chain.rs.
use ibc_solo_machine.Base.{
  ℕ, pos, ◌*◌, Option, none, some, Text, Bytes, codes, length, leb, not, ◌==◌, unwrap_or, Result,
  ok, ok_or, ensure, ◌>>=◌, ◌>>◌, external, missing_config, missing_trusted_height,
  missing_trusted_hash, negative_duration, empty_trusted_hash, trusted_hash_length,
}
use ibc_solo_machine.Identifier.{parse, parse_port_id, is_empty}
use ibc_solo_machine.Messages.{Duration}
use ibc_solo_machine.Chain.{StdDuration, Fee, ChainConfig}
use ibc_solo_machine.Env.{Env}
use ibc_solo_machine.Crates.{Crates, ProtoDuration}
use ibc_solo_machine.Store.Chains.{max_u32}

-- `FeeConfig` and `ChainConfig` of solo-machine/proto/chain.proto: every field is optional.
pub record FeeConfig : Type 0 where
  pub fee_amount : Option Text
  pub fee_denom : Option Text
  pub gas_limit : Option ℕ

pub record RequestConfig : Type 0 where
  pub grpc_addr : Option Text
  pub rpc_addr : Option Text
  pub fee_config : Option FeeConfig
  pub trust_level : Option Text
  pub trusting_period : Option ProtoDuration
  pub max_clock_drift : Option ProtoDuration
  pub rpc_timeout : Option ProtoDuration
  pub diversifier : Option Text
  pub port_id : Option Text
  pub trusted_height : Option ℕ
  pub trusted_hash : Option Text

abbrev pub default_fee : FeeConfig
default_fee = record {
  fee_amount = some (codes "1000");
  fee_denom = some (codes "stake");
  gas_limit = some 300000;
}

abbrev pub default_trusting_period : StdDuration
default_trusting_period = record { secs = 336 * 60 * 60; nanos = 0 }

abbrev pub default_max_clock_drift : StdDuration
default_max_clock_drift = record { secs = 3; nanos = 0 }

abbrev pub default_rpc_timeout : StdDuration
default_rpc_timeout = record { secs = 60; nanos = 0 }

abbrev pub proto_of : Duration → ProtoDuration
proto_of d = record { seconds = pos d.seconds; nanos = pos d.nanos }

module _ ⦃env : Env⦄ ⦃crates : Crates⦄ where
  unfoldable pub read_fee : FeeConfig → Result Fee
  read_fee fee_config = do
    amount ← ok_or (crates.parse_decimal (unwrap_or fee_config.fee_amount (codes "1000"))) external
    denom ← parse (unwrap_or fee_config.fee_denom (codes "stake"))
    ok (record {
      amount = amount;
      denom = denom;
      gas_limit = unwrap_or fee_config.gas_limit 300000;
    })

  -- `map(Duration::try_from).transpose()`, and its default.
  unfoldable pub read_duration : Option ProtoDuration → StdDuration → Result StdDuration
  read_duration none default = ok default
  read_duration (some d) default = ok_or (crates.duration_from_proto d) negative_duration

  unfoldable pub read_hash : Text → Result Bytes
  read_hash trusted_hash = do
    ensure (not (is_empty trusted_hash)) empty_trusted_hash
    bytes ← ok_or (env.hex_decode trusted_hash) external
    ensure (length bytes == 32) trusted_hash_length
    ok bytes

  -- The configuration that `add` is called with.
  unfoldable pub core_config : Option RequestConfig → Result ChainConfig
  core_config request = do
    config ← ok_or request missing_config
    fee ← read_fee (unwrap_or config.fee_config default_fee)
    trust_level ← ok_or (crates.parse_ratio (unwrap_or config.trust_level (codes "1/3"))) external
    trusting_period ← read_duration config.trusting_period default_trusting_period
    max_clock_drift ← read_duration config.max_clock_drift default_max_clock_drift
    rpc_timeout ← read_duration config.rpc_timeout default_rpc_timeout
    port_id ← parse_port_id (unwrap_or config.port_id (codes "transfer"))
    trusted_height ← ok_or config.trusted_height missing_trusted_height
    trusted_hash_text ← ok_or config.trusted_hash missing_trusted_hash
    trusted_hash ← read_hash trusted_hash_text
    ok (record {
      grpc_addr = unwrap_or config.grpc_addr (codes "http://0.0.0.0:9090");
      rpc_addr = unwrap_or config.rpc_addr (codes "http://0.0.0.0:26657");
      fee = fee;
      trust_numer = trust_level.0;
      trust_denom = trust_level.1;
      trusting_period = trusting_period;
      max_clock_drift = max_clock_drift;
      rpc_timeout = rpc_timeout;
      diversifier = unwrap_or config.diversifier (codes "solo-machine-diversifier");
      port_id = port_id;
      trusted_height = trusted_height;
      trusted_hash = trusted_hash;
    })

  -- `prost_types::Duration::try_from`
  unfoldable pub write_duration : StdDuration → Result ProtoDuration
  write_duration d = ok_or (env.duration_to_proto d) external >>= λ p. ok (proto_of p)

  -- The configuration in the response of `query`.
  unfoldable pub response_config : ChainConfig → Result RequestConfig
  response_config config = do
    trusting_period ← write_duration config.trusting_period
    max_clock_drift ← write_duration config.max_clock_drift
    rpc_timeout ← write_duration config.rpc_timeout
    ensure (leb config.trusted_height max_u32) external
    ok (record {
      grpc_addr = some config.grpc_addr;
      rpc_addr = some config.rpc_addr;
      fee_config = some (record {
        fee_amount = some config.fee.amount;
        fee_denom = some config.fee.denom;
        gas_limit = some config.fee.gas_limit;
      });
      trust_level = some (crates.ratio_to_string config.trust_numer config.trust_denom);
      trusting_period = some trusting_period;
      max_clock_drift = some max_clock_drift;
      rpc_timeout = some rpc_timeout;
      diversifier = some config.diversifier;
      port_id = some config.port_id;
      trusted_height = some config.trusted_height;
      trusted_hash = some (env.hex_lower config.trusted_hash);
    })
