-- ===== src/Service/Channel.antt =====
-- The channel handshake, and the two halves of closing a channel.
use ibc_solo_machine.Base.{
  [], ◌∷◌, Option, some, is_some, Text, codes, channel_not_found, chain_not_found,
  connection_not_established,
}
use ibc_solo_machine.Identifier.{
  ChainId, ConnectionId, ChannelId, PortId, parse_channel_id, generate_channel_id,
}
use ibc_solo_machine.Chain.{Chain, ConnectionDetails}
use ibc_solo_machine.Messages
use ibc_solo_machine.Messages.{Channel, unordered}
use ibc_solo_machine.Event.{
  sampled, initialized_channel_on_tendermint, initialized_channel_on_solo_machine,
  confirmed_channel_on_tendermint, confirmed_channel_on_solo_machine,
}
use ibc_solo_machine.Env.{Env}
use ibc_solo_machine.Exec.{
  Exec, transaction, pure, lift, or_raise, require, ◌>>=◌, ◌>>◌, call, notify_event,
}
use ibc_solo_machine.Store.Chains.{get_chain, add_connection_details}
use ibc_solo_machine.Store.IbcData.{add_channel, get_channel, update_channel}
use ibc_solo_machine.Builder.Channel.{
  channel_open_init_message, channel_open_ack_message, channel_close_init_message,
}
use ibc_solo_machine.Service.Response.{extract_attribute}
use ibc_solo_machine.Service.Client.{submit}

-- The channel end that `channel_open_try` stores.
unfoldable pub try_open_channel : PortId → ChannelId → ConnectionId → Channel
try_open_channel port_id solo_machine_channel_id tendermint_connection_id = record {
  state = Messages.ChannelState.try_open;
  ordering = unordered;
  counterparty = some (record { port_id = port_id; channel_id = solo_machine_channel_id });
  connection_hops = tendermint_connection_id ∷ [];
  version = codes "ics20-1";
  upgrade_sequence = 0;
}

-- `channel.set_state(…)`
unfoldable pub with_state : Messages.ChannelState → Channel → Channel
with_state state channel = record channel { state = state }

module _ ⦃env : Env⦄ where
  unfoldable pub channel_open_init : Chain → ConnectionId → Text → Option Text → Exec ChannelId
  channel_open_init chain solo_machine_connection_id memo request_id = do
    msg ← channel_open_init_message chain solo_machine_connection_id memo request_id
    response ← submit msg
    channel_id ← lift (
        extract_attribute response.tx_result_events (codes "channel_open_init")
          (codes "channel_id"))
    lift (parse_channel_id channel_id)

  unfoldable pub channel_open_try : PortId → ChannelId → ConnectionId → Exec ChannelId
  channel_open_try port_id solo_machine_channel_id tendermint_connection_id = do
    suffix ← call (λ t. env.random_suffix t 4) sampled
    channel_id ← lift (generate_channel_id suffix)
    add_channel transaction port_id channel_id
        (try_open_channel port_id solo_machine_channel_id tendermint_connection_id)
    pure channel_id

  unfoldable pub channel_open_ack : Chain → ChannelId → ChannelId → Text → Option Text → Exec Chain
  channel_open_ack chain solo_machine_channel_id tendermint_channel_id memo request_id = do
    (msg, chain') ←
        channel_open_ack_message chain solo_machine_channel_id tendermint_channel_id memo request_id
    response ← submit msg
    pure chain'

  -- `get_channel`, `set_state` and `update_channel`.
  unfoldable pub set_channel_state : Messages.ChannelState → PortId → ChannelId → Exec (Unit {0})
  set_channel_state state port_id channel_id = do
    found ← get_channel transaction port_id channel_id
    channel ← or_raise found channel_not_found
    update_channel transaction port_id channel_id (with_state state channel)

  unfoldable pub channel_open_confirm : PortId → ChannelId → Exec (Unit {0})
  channel_open_confirm = set_channel_state Messages.ChannelState.open_state

  unfoldable pub open_channel :
      Chain → ConnectionId → ConnectionId → Text → Option Text → Exec (ChannelId × ChannelId)
  open_channel chain solo_machine_connection_id tendermint_connection_id memo request_id = do
    solo_machine_channel_id ← channel_open_init chain solo_machine_connection_id memo request_id
    notify_event (initialized_channel_on_tendermint solo_machine_channel_id)
    tendermint_channel_id ←
        channel_open_try chain.config.port_id solo_machine_channel_id tendermint_connection_id
    notify_event (initialized_channel_on_solo_machine tendermint_channel_id)
    chain' ← channel_open_ack chain solo_machine_channel_id tendermint_channel_id memo request_id
    notify_event (confirmed_channel_on_tendermint solo_machine_channel_id)
    channel_open_confirm chain'.config.port_id tendermint_channel_id
    notify_event (confirmed_channel_on_solo_machine tendermint_channel_id)
    pure (solo_machine_channel_id, tendermint_channel_id)

  unfoldable pub channel_close_init : ChainId → Option Text → Text → Exec Text
  channel_close_init chain_id request_id memo = do
    found ← get_chain transaction chain_id
    chain ← or_raise found chain_not_found
    require (is_some chain.connection_details) connection_not_established
    msg ← channel_close_init_message chain memo request_id
    response ← submit msg
    lift (
        extract_attribute response.tx_result_events (codes "channel_close_init")
          (codes "channel_id"))

  unfoldable pub close_channel_confirm :
      PortId → ChannelId → ChainId → ConnectionDetails → Exec (Unit {0})
  close_channel_confirm port_id channel_id chain_id new_connection_details = do
    set_channel_state Messages.ChannelState.closed port_id channel_id
    add_connection_details transaction chain_id new_connection_details
