-- ===== src/Builder/Client.antt =====
-- Client messages of solo-machine-core/src/transaction_builder.rs, `proof_specs` of
-- ibc/core/ics23_vector_commitments.rs and `from_block_header` of
-- ibc/client/ics07_tendermint/consensus_state.rs.
use ibc_solo_machine.Base.{
  ℕ, true, false, not, List, [], ◌∷◌, Option, none, some, is_some, Text, codes, external,
  connection_not_established, missing_staking_params, not_caught_up,
}
use ibc_solo_machine.Height
use ibc_solo_machine.Height.{Height}
use ibc_solo_machine.Identifier.{parse_chain_id}
use ibc_solo_machine.PublicKey.{PublicKey}
use ibc_solo_machine.PublicKey.Convert.{any_of, to_any}
use ibc_solo_machine.Chain.{Chain}
use ibc_solo_machine.Messages.{
  Duration, ProofSpec, LeafOp, hash_sha256, length_var_proto, number, TxRaw,
  SoloMachineConsensusState, SoloMachineClientState, TendermintClientState,
  TendermintConsensusState, solo_machine_consensus_state, solo_machine_client_state,
  solo_machine_header, msg_create_client, msg_update_client,
}
use ibc_solo_machine.Event.{queried}
use ibc_solo_machine.Env.{Env, Header}
use ibc_solo_machine.Exec.{
  Exec, Executor, pure, lift, or_raise, require, ◌>>=◌, ◌>>◌, call, to_account_address,
}
use ibc_solo_machine.Store.Chains.{increment_sequence}
use ibc_solo_machine.Builder.Tx.{build, to_u64_timestamp}
use ibc_solo_machine.Builder.Proofs.{get_header_proof}

-- What `tendermint_spec` and `iavl_spec` share.
abbrev leaf_op : LeafOp
leaf_op = record {
  hash = hash_sha256;
  prehash_key = number 0;
  prehash_value = hash_sha256;
  length = length_var_proto;
  prefix = 0 ∷ [];
}

abbrev spec : ℕ → ℕ → ℕ → ProofSpec
spec min_prefix_length max_prefix_length child_size = record {
  leaf_spec = some leaf_op;
  inner_spec = some (record {
    child_order = 0 ∷ 1 ∷ [];
    min_prefix_length = min_prefix_length;
    max_prefix_length = max_prefix_length;
    child_size = child_size;
    empty_child = [];
    hash = hash_sha256;
  });
  max_depth = 0;
  min_depth = 0;
  prehash_key_before_comparison = false;
}

abbrev pub tendermint_spec : ProofSpec
tendermint_spec = spec 1 1 32

abbrev pub iavl_spec : ProofSpec
iavl_spec = spec 4 12 33

abbrev pub proof_specs : List ProofSpec
proof_specs = iavl_spec ∷ tendermint_spec ∷ []

unfoldable pub from_block_header : Header → TendermintConsensusState
from_block_header header = record {
  root = some header.app_hash;
  timestamp = some (header.seconds, header.nanos);
  next_validators_hash = header.next_validators_hash;
}

unfoldable pub get_block_height : Chain → Header → Height
get_block_height chain header = Height.new chain.id.version header.height

module _ ⦃env : Env⦄ where
  unfoldable pub msg_create_solo_machine_client : Chain → Text → Option Text → Exec TxRaw
  msg_create_solo_machine_client chain memo request_id = do
    public_key ← or_raise env.public_key external
    timestamp ← lift (to_u64_timestamp chain.consensus_timestamp)
    let consensus_state : SoloMachineConsensusState = record {
      public_key = some (to_any public_key);
      diversifier = chain.config.diversifier;
      timestamp = timestamp;
    }
    let client_state : SoloMachineClientState = record {
      sequence = chain.sequence;
      is_frozen = false;
      consensus_state = some consensus_state;
    }
    signer ← to_account_address
    build chain
        (any_of (codes "/ibc.core.client.v1.MsgCreateClient") (
            msg_create_client (record {
              client_state = some (
                  any_of (codes "/ibc.lightclients.solomachine.v3.ClientState")
                    (solo_machine_client_state client_state));
              consensus_state = some (
                  any_of (codes "/ibc.lightclients.solomachine.v3.ConsensusState")
                    (solo_machine_consensus_state consensus_state));
              signer = signer;
            }))
          ∷ [])
        memo request_id

  -- The key that a header announces: the new one, or the signer's.
  unfoldable pub announced_key : Option PublicKey → Exec PublicKey
  announced_key (some new_public_key) = pure new_public_key
  announced_key none = or_raise env.public_key external

  unfoldable pub msg_update_solo_machine_client :
      Executor → Chain → Option PublicKey → Text → Option Text → Exec (TxRaw × Chain)
  msg_update_solo_machine_client executor chain new_public_key memo request_id = do
    require (is_some chain.connection_details) connection_not_established
    public_key ← announced_key new_public_key
    let any_public_key = to_any public_key
    signature ← get_header_proof chain (some any_public_key) chain.config.diversifier request_id
    chain' ← increment_sequence executor chain.id
    timestamp ← lift (to_u64_timestamp chain'.consensus_timestamp)
    connection_details ← or_raise chain'.connection_details connection_not_established
    signer ← to_account_address
    tx ←
        build chain'
          (any_of (codes "/ibc.core.client.v1.MsgUpdateClient") (
              msg_update_client (record {
                client_id = connection_details.solo_machine_client_id;
                client_message = some (
                    any_of (codes "/ibc.lightclients.solomachine.v3.Header") (
                      solo_machine_header (record {
                        timestamp = timestamp;
                        signature = signature;
                        new_public_key = some any_public_key;
                        new_diversifier = chain'.config.diversifier;
                      })));
                signer = signer;
              }))
            ∷ [])
          memo request_id
    pure (tx, chain')

  unfoldable pub get_unbonding_period : Chain → Exec Duration
  get_unbonding_period chain = do
    connected ← call (λ t. env.grpc_connect_ok t chain.config.grpc_addr) queried
    require connected external
    response ← call env.query_staking_params queried
    params ← or_raise response external
    found ← or_raise params missing_staking_params
    or_raise found missing_staking_params

  unfoldable pub get_latest_height : Exec Height
  get_latest_height = do
    response ← call env.status queried
    status ← or_raise response external
    require (not status.catching_up) not_caught_up
    id ← lift (parse_chain_id status.network)
    pure (Height.new id.version status.latest_block_height)

  unfoldable pub get_latest_header : Exec Header
  get_latest_header = do header ← call env.verify_to_highest queried; or_raise header external

  unfoldable pub msg_create_tendermint_client :
      Chain → Exec (TendermintClientState × TendermintConsensusState)
  msg_create_tendermint_client chain = do
    unbonding_period ← get_unbonding_period chain
    latest_header ← get_latest_header
    trusting_period ← or_raise (env.duration_to_proto chain.config.trusting_period) external
    max_clock_drift ← or_raise (env.duration_to_proto chain.config.max_clock_drift) external
    pure (
      record {
        chain_id = chain.id.id;
        trust_level = some (record {
          numerator = chain.config.trust_numer;
          denominator = chain.config.trust_denom;
        });
        trusting_period = some trusting_period;
        unbonding_period = some unbonding_period;
        max_clock_drift = some max_clock_drift;
        frozen_height = some Height.zero_height;
        latest_height = some (get_block_height chain latest_header);
        proof_specs = proof_specs;
        upgrade_path = codes "upgrade" ∷ codes "upgradedIBCState" ∷ [];
        allow_update_after_expiry = true;
        allow_update_after_misbehaviour = true;
      },
      from_block_header latest_header,
    )
