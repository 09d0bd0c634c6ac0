-- ===== src/Server/RoundTrip.antt =====
-- The configuration of a response, sent again in a request.
use ibc_solo_machine.Base.{
  some, length, false, ◌≡◌, refl, sym, arith, ok, ok_or, ensure, >>=-eq-ok, ok-injective, external,
  leb,
}
use ibc_solo_machine.Identifier.{parse, parse_port_id, is_empty}
use ibc_solo_machine.Messages.{Duration}
use ibc_solo_machine.Chain.{StdDuration, ChainConfig}
use ibc_solo_machine.Env.{Env}
use ibc_solo_machine.Crates.{Crates, ProtoDuration}
use ibc_solo_machine.Store.Chains.{max_u32}
use ibc_solo_machine.Server.Config.{
  RequestConfig, core_config, response_config, write_duration, proto_of, read_fee, read_duration,
  read_hash, default_trusting_period, default_max_clock_drift, default_rpc_timeout,
}

module _ ⦃env : Env⦄ ⦃crates : Crates⦄ where
  -- The values of a configuration that are read back from their texts.
  pub record Readable (config : ChainConfig) : Type 0 where
    pub amount : crates.parse_decimal config.fee.amount ≡ some config.fee.amount
    pub denom : parse config.fee.denom ≡ ok config.fee.denom
    pub trust_level :
        crates.parse_ratio (crates.ratio_to_string config.trust_numer config.trust_denom)
        ≡ some (config.trust_numer, config.trust_denom)
    pub port_id : parse_port_id config.port_id ≡ ok config.port_id
    pub hash : env.hex_decode (env.hex_lower config.trusted_hash) ≡ some config.trusted_hash
    pub hash_text : is_empty (env.hex_lower config.trusted_hash) ≡ false
    pub hash_length : length config.trusted_hash ≡ 32

  read_write_duration :
      (d default : StdDuration) (p : ProtoDuration)
      → ((d : StdDuration) (p : Duration)
          → env.duration_to_proto d ≡ some p
          → crates.duration_from_proto (proto_of p) ≡ some d)
      → write_duration d ≡ ok p
      → read_duration (some p) default ≡ ok d
  unfolding write_duration read_duration
  read_write_duration d default p back e =
      let (q, e₁, e₂) = >>=-eq-ok (ok_or (env.duration_to_proto d) external) _ e in
      let f = back d q (ground (arith, e₁)) in rw (sym (ok-injective e₂), f) refl

  -- Where the configuration of a chain is written into a response, a request with what was written
  -- is read as this configuration, if its amount, its fraction, its identifiers, its hash and each
  -- duration are read back from how they are written.
  pub core_config-response_config :
      (config : ChainConfig) (request : RequestConfig)
      → Readable config
      → ((d : StdDuration) (p : Duration)
          → env.duration_to_proto d ≡ some p
          → crates.duration_from_proto (proto_of p) ≡ some d)
      → response_config config ≡ ok request
      → core_config (some request) ≡ ok config
  unfolding core_config response_config read_fee read_hash
  core_config-response_config config request k back e =
      let (p₁, e₁, f₁) = >>=-eq-ok (write_duration config.trusting_period) _ e in
      let (p₂, e₂, f₂) = >>=-eq-ok (write_duration config.max_clock_drift) _ f₁ in
      let (p₃, e₃, f₃) = >>=-eq-ok (write_duration config.rpc_timeout) _ f₂ in
      let (u, e₄, f₄) = >>=-eq-ok (ensure (leb config.trusted_height max_u32) external) _ f₃ in
      let d₁ = read_write_duration config.trusting_period default_trusting_period p₁ back e₁ in
      let d₂ = read_write_duration config.max_clock_drift default_max_clock_drift p₂ back e₂ in
      let d₃ = read_write_duration config.rpc_timeout default_rpc_timeout p₃ back e₃ in
      rw
        (
          sym (ok-injective f₄),
          k.amount,
          k.denom,
          k.trust_level,
          d₁,
          d₂,
          d₃,
          k.port_id,
          k.hash_text,
          k.hash,
          k.hash_length,
        )
        refl
