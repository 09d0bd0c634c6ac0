-- ===== src/Server/Chain.antt =====
-- `ChainService` of solo-machine/src/server/chain.rs. A timestamp of a response is the model's.
use ibc_solo_machine.Base.{ℕ, Option, none, some, Text, Result, ok, ◌>>=◌ as ◌>>=ᵣ◌, external}
use ibc_solo_machine.Identifier.{ChainId, Identifier, parse, parse_chain_id}
use ibc_solo_machine.PublicKey.Convert.{encode}
use ibc_solo_machine.Chain.{Chain, ChainConfig, ConnectionDetails, DateTime}
use ibc_solo_machine.Env.{Env}
use ibc_solo_machine.Crates.{Crates}
use ibc_solo_machine.Exec.{World, Exec, or_raise, ◌>>=◌, pure}
use ibc_solo_machine.Service.Signer
use ibc_solo_machine.Service.Balance
use ibc_solo_machine.Server.{Reply, refused, not_found, or_internal, respond, then_reply}
use ibc_solo_machine.Server.Config.{RequestConfig, core_config, response_config}

pub record QueryChainResponse : Type 0 where
  pub chain_id : Text
  pub node_id : Text
  pub config : RequestConfig
  pub consensus_timestamp : DateTime
  pub sequence : ℕ
  pub packet_sequence : ℕ
  pub connection_details : Option ConnectionDetails
  pub created_at : DateTime
  pub updated_at : DateTime

module _ ⦃env : Env⦄ ⦃crates : Crates⦄ where
  abbrev add_with : ChainConfig → Exec Text
  add_with config = do
    public_key ← or_raise env.public_key external
    chain_id ← Signer.add config (encode public_key)
    pure chain_id.id

  unfoldable pub add : Option RequestConfig → World → Reply Text × World
  add request = respond (core_config request) add_with

  unfoldable pub chain_response : Chain → Result QueryChainResponse
  chain_response chain = response_config chain.config >>=ᵣ λ config. ok (record {
    chain_id = chain.id.id;
    node_id = chain.node_id;
    config = config;
    consensus_timestamp = chain.consensus_timestamp;
    sequence = chain.sequence;
    packet_sequence = chain.packet_sequence;
    connection_details = chain.connection_details;
    created_at = chain.created_at;
    updated_at = chain.updated_at;
  })

  abbrev found_response : Option Chain → Reply QueryChainResponse
  found_response none = refused not_found
  found_response (some chain) = or_internal (chain_response chain)

  unfoldable pub query : Text → World → Reply QueryChainResponse × World
  query chain_id w =
      let (reply, v) = respond (parse_chain_id chain_id) Signer.get w in
      (then_reply reply found_response, v)

  -- The arguments of `get_ibc_denom` and of `query_balance`.
  abbrev chain_and_denom : Text → Text → Result (ChainId × Identifier)
  chain_and_denom chain_id denom =
      parse_chain_id chain_id >>=ᵣ λ id. parse denom >>=ᵣ λ d. ok (id, d)

  unfoldable pub get_ibc_denom : Text → Text → World → Reply Text × World
  get_ibc_denom chain_id denom =
      respond (chain_and_denom chain_id denom) (λ a. Signer.get_ibc_denom a.0 a.1)

  unfoldable pub query_balance : Text → Text → World → Reply Text × World
  query_balance chain_id denom =
      respond (chain_and_denom chain_id denom) (λ a. Balance.balance a.0 a.1)
