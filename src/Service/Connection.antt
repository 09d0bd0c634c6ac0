-- ===== src/Service/Connection.antt =====
-- The connection handshake.
use ibc_solo_machine.Base.{[], ◌∷◌, Option, some, Text, codes, connection_not_found}
use ibc_solo_machine.Identifier.{
  ClientId, ConnectionId, parse_connection_id, generate_connection_id,
}
use ibc_solo_machine.Chain.{Chain}
use ibc_solo_machine.Messages
use ibc_solo_machine.Messages.{ConnectionEnd}
use ibc_solo_machine.Event.{
  sampled, initialized_connection_on_tendermint, initialized_connection_on_solo_machine,
  confirmed_connection_on_tendermint, confirmed_connection_on_solo_machine,
}
use ibc_solo_machine.Env.{Env}
use ibc_solo_machine.Exec.{Exec, transaction, pure, lift, or_raise, ◌>>=◌, ◌>>◌, call, notify_event}
use ibc_solo_machine.Store.IbcData.{add_connection, get_connection, update_connection}
use ibc_solo_machine.Builder.Connection.{
  connection_version, ibc_prefix, connection_open_init_message, connection_open_ack_message,
}
use ibc_solo_machine.Service.Response.{extract_attribute}
use ibc_solo_machine.Service.Client.{submit}

module _ ⦃env : Env⦄ where
  unfoldable pub connection_open_init :
      Chain → ClientId → ClientId → Text → Option Text → Exec ConnectionId
  connection_open_init chain solo_machine_client_id tendermint_client_id memo request_id = do
    msg ←
        connection_open_init_message chain solo_machine_client_id tendermint_client_id memo
          request_id
    response ← submit msg
    connection_id ← lift (
        extract_attribute response.tx_result_events (codes "connection_open_init")
          (codes "connection_id"))
    lift (parse_connection_id connection_id)

  -- The connection end that `connection_open_try` stores.
  unfoldable pub try_open_connection : ClientId → ClientId → ConnectionId → ConnectionEnd
  try_open_connection tendermint_client_id solo_machine_client_id solo_machine_connection_id =
      record {
        client_id = tendermint_client_id;
        versions = connection_version ∷ [];
        state = Messages.ConnectionState.try_open;
        counterparty = some (record {
          client_id = solo_machine_client_id;
          connection_id = solo_machine_connection_id;
          prefix = some ibc_prefix;
        });
        delay_period = 0;
      }

  unfoldable pub connection_open_try : ClientId → ClientId → ConnectionId → Exec ConnectionId
  connection_open_try tendermint_client_id solo_machine_client_id solo_machine_connection_id = do
    suffix ← call (λ t. env.random_suffix t 4) sampled
    connection_id ← lift (generate_connection_id suffix)
    add_connection transaction connection_id
        (try_open_connection tendermint_client_id solo_machine_client_id solo_machine_connection_id)
    pure connection_id

  unfoldable pub connection_open_ack :
      Chain → ConnectionId → ClientId → ConnectionId → Text → Option Text → Exec Chain
  connection_open_ack chain solo_machine_connection_id tendermint_client_id tendermint_connection_id
        memo request_id =
      do
        (msg, chain') ←
            connection_open_ack_message chain solo_machine_connection_id tendermint_client_id
              tendermint_connection_id memo request_id
        response ← submit msg
        pure chain'

  -- `connection.set_state(ConnectionState::Open)`
  unfoldable pub opened : ConnectionEnd → ConnectionEnd
  opened connection = record connection { state = Messages.ConnectionState.open_state }

  unfoldable pub connection_open_confirm : ConnectionId → Exec (Unit {0})
  connection_open_confirm connection_id = do
    found ← get_connection transaction connection_id
    connection ← or_raise found connection_not_found
    update_connection transaction connection_id (opened connection)

  unfoldable pub create_connection :
      Chain → ClientId → ClientId → Text → Option Text → Exec (ConnectionId × ConnectionId × Chain)
  create_connection chain solo_machine_client_id tendermint_client_id memo request_id = do
    solo_machine_connection_id ←
        connection_open_init chain solo_machine_client_id tendermint_client_id memo request_id
    notify_event (initialized_connection_on_tendermint solo_machine_connection_id)
    tendermint_connection_id ←
        connection_open_try tendermint_client_id solo_machine_client_id solo_machine_connection_id
    notify_event (initialized_connection_on_solo_machine tendermint_connection_id)
    chain' ←
        connection_open_ack chain solo_machine_connection_id tendermint_client_id
          tendermint_connection_id memo request_id
    notify_event (confirmed_connection_on_tendermint solo_machine_connection_id)
    connection_open_confirm tendermint_connection_id
    notify_event (confirmed_connection_on_solo_machine tendermint_connection_id)
    pure (solo_machine_connection_id, tendermint_connection_id, chain')
