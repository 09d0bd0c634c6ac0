-- ===== src/Service/Connect.antt =====
-- `IbcService::connect`.
pub mod Established
pub mod Atomicity
use ibc_solo_machine.Base.{
  Bool, true, false, not, ◌&&◌, ◌||◌, Option, some, none, Text, panic, if◌then◌else◌,
  chain_not_found, already_established, channel_not_found, external,
}
use ibc_solo_machine.Identifier.{ChainId, ClientId, ConnectionId, ChannelId}
use ibc_solo_machine.Chain.{Chain, ConnectionDetails}
use ibc_solo_machine.Messages.{ChannelState, closed}
use ibc_solo_machine.Messages
use ibc_solo_machine.Event.{connection_established}
use ibc_solo_machine.Env.{Env}
use ibc_solo_machine.Exec.{
  Exec, transaction, pure, lift, or_raise, require, ◌>>=◌, ◌>>◌, begin, commit, http_client,
  notify_event,
}
use ibc_solo_machine.Store.Chains.{get_chain, add_connection_details}
use ibc_solo_machine.Store.IbcData.{get_channel}
use ibc_solo_machine.Service.Client.{create_new_client}
use ibc_solo_machine.Service.Connection.{create_connection}
use ibc_solo_machine.Service.Channel.{open_channel}

-- `channel.state == ChannelState::Closed`
abbrev pub is_closed : ChannelState → Bool
is_closed Messages.ChannelState.closed = true
is_closed Messages.ChannelState.uninitialized = false
is_closed Messages.ChannelState.init = false
is_closed Messages.ChannelState.try_open = false
is_closed Messages.ChannelState.open_state = false

module _ ⦃env : Env⦄ where
  -- Whether a connection is established, and whether its channel is closed.
  unfoldable pub channel_status : Chain → Option ChannelId → Exec (Bool × Bool)
  channel_status chain none = pure (true, true)
  channel_status chain (some channel_id) = do
    found ← get_channel transaction chain.config.port_id channel_id
    channel ← or_raise found channel_not_found
    pure (true, is_closed channel.state)

  unfoldable pub details_status : Chain → Option ConnectionDetails → Exec (Bool × Bool)
  details_status chain none = pure (false, true)
  details_status chain (some details) = channel_status chain details.tendermint_channel_id

  -- `todo!` is a panic.
  unfoldable pub client_and_connection :
      Chain
      → Bool
      → Bool
      → Bool
      → Text
      → Option Text
      → Exec ((ClientId × ClientId) × (ConnectionId × ConnectionId × Chain))
  client_and_connection chain false channel_closed force memo request_id = do
    client_id ← create_new_client chain memo request_id
    connection_id ← create_connection chain client_id.0 client_id.1 memo request_id
    pure (client_id, connection_id)
  client_and_connection chain true channel_closed force memo request_id = do
    require (channel_closed || force) already_established
    lift panic

  -- The details that `connect` stores.
  abbrev pub details_of :
      ClientId × ClientId → ConnectionId × ConnectionId × Chain → Text × Text → ConnectionDetails
  details_of clients connections channels = record {
    solo_machine_client_id = clients.0;
    tendermint_client_id = clients.1;
    solo_machine_connection_id = connections.0;
    tendermint_connection_id = connections.1;
    solo_machine_channel_id = some channels.0;
    tendermint_channel_id = some channels.1;
  }

  -- `connect` between `begin` and `commit`.
  unfoldable pub connect_body : ChainId → Option Text → Text → Bool → Exec (Unit {0})
  connect_body chain_id request_id memo force = do
    found ← get_chain transaction chain_id
    chain ← or_raise found chain_not_found
    status ← details_status chain chain.connection_details
    require (not (status.0 && not status.1 && not force)) already_established
    http_client chain.config.rpc_addr
    ids ← client_and_connection chain status.0 status.1 force memo request_id
    channels ← open_channel (ids.1).2 (ids.1).0 (ids.1).1 memo request_id
    add_connection_details transaction (ids.1).2.id (details_of ids.0 ids.1 channels)
    notify_event (connection_established chain_id (details_of ids.0 ids.1 channels))

  unfoldable pub connect : ChainId → Option Text → Text → Bool → Exec (Unit {0})
  connect chain_id request_id memo force = do
    begin
    connect_body chain_id request_id memo force
    commit
