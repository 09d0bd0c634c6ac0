-- ===== src/Service/Client.antt =====
-- The creation of the two clients.
use ibc_solo_machine.Base.{
  Option, Text, codes, if◌then◌else◌, ok, panic, external, missing_latest_height,
}
use ibc_solo_machine.Identifier.{ClientId, parse_client_id, generate_client_id}
use ibc_solo_machine.Chain.{Chain}
use ibc_solo_machine.Messages.{TxRaw, tx_raw}
use ibc_solo_machine.Event.{sampled, created_solo_machine_client, created_tendermint_client}
use ibc_solo_machine.Env.{Env, TxCommitResponse}
use ibc_solo_machine.Exec.{
  Exec, transaction, pure, lift, or_raise, require, ◌>>=◌, ◌>>◌, call, broadcast_tx_commit,
  notify_event,
}
use ibc_solo_machine.Store.IbcData.{add_tendermint_client_state, add_tendermint_consensus_state}
use ibc_solo_machine.Builder.Client.{msg_create_solo_machine_client, msg_create_tendermint_client}
use ibc_solo_machine.Service.Response.{ensure_response_success, extract_attribute}

module _ ⦃env : Env⦄ where
  -- `rpc_client.broadcast_tx_commit(proto_encode(&msg)?)` and `ensure_response_success(&response)?`.
  unfoldable pub submit : TxRaw → Exec TxCommitResponse
  submit tx = do
    response ← broadcast_tx_commit (env.encode (tx_raw tx))
    hash ← lift (ensure_response_success response)
    pure response

  -- `prepare_light_client`: `TrustThresholdFraction::new(…).unwrap()` panics.
  unfoldable pub prepare_light_client : Chain → Exec (Unit {0})
  prepare_light_client chain = do
    lift (
        if env.trust_threshold_ok chain.config.trust_numer chain.config.trust_denom
        then ok tt
        else panic)
    require (env.trust_primary_ok chain.config) external

  unfoldable pub create_solo_machine_client : Chain → Text → Option Text → Exec ClientId
  create_solo_machine_client chain memo request_id = do
    msg ← msg_create_solo_machine_client chain memo request_id
    response ← submit msg
    client_id ←
        lift
          (extract_attribute response.tx_result_events (codes "create_client") (codes "client_id"))
    lift (parse_client_id client_id)

  unfoldable pub create_tendermint_client : Chain → Exec ClientId
  create_tendermint_client chain = do
    states ← msg_create_tendermint_client chain
    suffix ← call (λ t. env.random_suffix t 4) sampled
    client_id ← lift (generate_client_id suffix)
    latest_height ← or_raise (states.0).latest_height missing_latest_height
    add_tendermint_client_state transaction client_id states.0
    add_tendermint_consensus_state transaction client_id latest_height states.1
    pure client_id

  unfoldable pub create_new_client : Chain → Text → Option Text → Exec (ClientId × ClientId)
  create_new_client chain memo request_id = do
    prepare_light_client chain
    solo_machine_client_id ← create_solo_machine_client chain memo request_id
    notify_event (created_solo_machine_client solo_machine_client_id)
    tendermint_client_id ← create_tendermint_client chain
    notify_event (created_tendermint_client tendermint_client_id)
    pure (solo_machine_client_id, tendermint_client_id)
