-- ===== src/Service/Frames.antt =====
-- The rules for the steps of the service, inside a transaction.
use ibc_solo_machine.Base.{Bool, true, false, Option, none, some, Text, refl}
use ibc_solo_machine.Identifier.{ChainId}
use ibc_solo_machine.Chain.{Chain, ConnectionDetails}
use ibc_solo_machine.Messages.{TxRaw, ChannelState}
use ibc_solo_machine.Env.{Env}
use ibc_solo_machine.Exec.Keeps.{Frame, Keeps}
use ibc_solo_machine.Exec.Frames.{Reading}
use ibc_solo_machine.Store.Frames.{Writing, Detailing, HasChannels}
use ibc_solo_machine.Builder.Frames.{builder_rules}
use ibc_solo_machine.Service.Client.{
  submit, prepare_light_client, create_solo_machine_client, create_tendermint_client,
  create_new_client,
}
use ibc_solo_machine.Service.Connection.{
  connection_open_init, connection_open_try, connection_open_ack, connection_open_confirm,
  create_connection,
}
use ibc_solo_machine.Service.Channel.{
  channel_open_init, channel_open_try, channel_open_ack, set_channel_state, channel_open_confirm,
  open_channel, channel_close_init, close_channel_confirm,
}
use ibc_solo_machine.Identifier.{ChannelId, ClientId, ConnectionId}
use ibc_solo_machine.PublicKey.{PublicKey}
use ibc_solo_machine.Service.Connect.{
  channel_status, details_status, client_and_connection, connect_body, details_of,
}
use ibc_solo_machine.Service.Close.{close_channel_body}
use ibc_solo_machine.Service.Signer.{update_signer_body}

details_of-HasChannels :
    ⦃env : Env⦄ (clients : ClientId × ClientId) (connections : ConnectionId × ConnectionId × Chain)
    (channels : Text × Text)
    → HasChannels (details_of clients connections channels)
details_of-HasChannels clients connections channels = (refl, refl)

module _ ⦃env : Env⦄ {F : Frame} ⦃reading : Reading F⦄ where
  pub submit-Keeps : (tx : TxRaw) → Keeps F (submit tx)
  unfolding submit
  submit-Keeps tx = search builder_rules depth 60

  pub prepare_light_client-Keeps : (chain : Chain) → Keeps F (prepare_light_client chain)
  unfolding prepare_light_client
  prepare_light_client-Keeps chain = search builder_rules depth 60

  pub create_solo_machine_client-Keeps :
      (chain : Chain) (memo : Text) (request_id : Option Text)
      → Keeps F (create_solo_machine_client chain memo request_id)
  unfolding create_solo_machine_client
  create_solo_machine_client-Keeps chain memo request_id =
      search (builder_rules, submit-Keeps) depth 60

  pub connection_open_init-Keeps :
      (chain : Chain) (s t memo : Text) (request_id : Option Text)
      → Keeps F (connection_open_init chain s t memo request_id)
  unfolding connection_open_init
  connection_open_init-Keeps chain s t memo request_id =
      search (builder_rules, submit-Keeps) depth 60

  pub channel_open_init-Keeps :
      (chain : Chain) (c memo : Text) (request_id : Option Text)
      → Keeps F (channel_open_init chain c memo request_id)
  unfolding channel_open_init
  channel_open_init-Keeps chain c memo request_id = search (builder_rules, submit-Keeps) depth 60

  pub channel_close_init-Keeps :
      (id : ChainId) (request_id : Option Text) (memo : Text)
      → Keeps F (channel_close_init id request_id memo)
  unfolding channel_close_init
  channel_close_init-Keeps id request_id memo = search (builder_rules, submit-Keeps) depth 60

  channel_status-Keeps : (chain : Chain) (id : Option ChannelId) → Keeps F (channel_status chain id)
  unfolding channel_status
  channel_status-Keeps chain none = search builder_rules
  channel_status-Keeps chain (some id) = search builder_rules depth 60

  pub details_status-Keeps :
      (chain : Chain) (details : Option ConnectionDetails) → Keeps F (details_status chain details)
  unfolding details_status
  details_status-Keeps chain none = search builder_rules
  details_status-Keeps chain (some details) = channel_status-Keeps chain _

module _ ⦃env : Env⦄ {F : Frame} ⦃reading : Reading F⦄ ⦃writing : Writing F⦄ where
  pub create_tendermint_client-Keeps : (chain : Chain) → Keeps F (create_tendermint_client chain)
  unfolding create_tendermint_client
  create_tendermint_client-Keeps chain = search builder_rules depth 60

  pub create_new_client-Keeps :
      (chain : Chain) (memo : Text) (request_id : Option Text)
      → Keeps F (create_new_client chain memo request_id)
  unfolding create_new_client
  create_new_client-Keeps chain memo request_id =
      search
        (
          builder_rules, prepare_light_client-Keeps, create_solo_machine_client-Keeps,
          create_tendermint_client-Keeps,
        )
        depth 60

  pub connection_open_try-Keeps : (t s c : Text) → Keeps F (connection_open_try t s c)
  unfolding connection_open_try
  connection_open_try-Keeps t s c = search builder_rules depth 60

  pub connection_open_ack-Keeps :
      (chain : Chain) (s t c memo : Text) (request_id : Option Text)
      → Keeps F (connection_open_ack chain s t c memo request_id)
  unfolding connection_open_ack
  connection_open_ack-Keeps chain s t c memo request_id =
      search (builder_rules, submit-Keeps) depth 60

  pub connection_open_confirm-Keeps : (id : Text) → Keeps F (connection_open_confirm id)
  unfolding connection_open_confirm
  connection_open_confirm-Keeps id = search builder_rules depth 60

  pub create_connection-Keeps :
      (chain : Chain) (s t memo : Text) (request_id : Option Text)
      → Keeps F (create_connection chain s t memo request_id)
  unfolding create_connection
  create_connection-Keeps chain s t memo request_id =
      search
        (
          builder_rules, connection_open_init-Keeps, connection_open_try-Keeps,
          connection_open_ack-Keeps, connection_open_confirm-Keeps,
        )
        depth 60

  pub channel_open_try-Keeps : (p s c : Text) → Keeps F (channel_open_try p s c)
  unfolding channel_open_try
  channel_open_try-Keeps p s c = search builder_rules depth 60

  pub channel_open_ack-Keeps :
      (chain : Chain) (s t memo : Text) (request_id : Option Text)
      → Keeps F (channel_open_ack chain s t memo request_id)
  unfolding channel_open_ack
  channel_open_ack-Keeps chain s t memo request_id = search (builder_rules, submit-Keeps) depth 60

  pub set_channel_state-Keeps :
      (s : ChannelState) (p id : Text) → Keeps F (set_channel_state s p id)
  unfolding set_channel_state
  set_channel_state-Keeps s p id = search builder_rules depth 60

  pub channel_open_confirm-Keeps : (p id : Text) → Keeps F (channel_open_confirm p id)
  unfolding channel_open_confirm
  channel_open_confirm-Keeps p id = search (builder_rules, set_channel_state-Keeps) depth 60

  pub open_channel-Keeps :
      (chain : Chain) (s t memo : Text) (request_id : Option Text)
      → Keeps F (open_channel chain s t memo request_id)
  unfolding open_channel
  open_channel-Keeps chain s t memo request_id =
      search
        (
          builder_rules, channel_open_init-Keeps, channel_open_try-Keeps, channel_open_ack-Keeps,
          channel_open_confirm-Keeps,
        )
        depth 60

  client_and_connection-Keeps :
      (chain : Chain) (established closed force : Bool) (memo : Text) (request_id : Option Text)
      → Keeps F (client_and_connection chain established closed force memo request_id)
  unfolding client_and_connection
  client_and_connection-Keeps chain false closed force memo request_id =
      search (builder_rules, create_new_client-Keeps, create_connection-Keeps) depth 60
  client_and_connection-Keeps chain true closed force memo request_id =
      search builder_rules depth 60

  pub connect_body-Keeps :
      (chain_id : ChainId) (request_id : Option Text) (memo : Text) (force : Bool)
      → Keeps F (connect_body chain_id request_id memo force)
  unfolding connect_body
  connect_body-Keeps chain_id request_id memo force =
      search
        (
          builder_rules, details_of-HasChannels, details_status-Keeps, client_and_connection-Keeps,
          open_channel-Keeps,
        )
        depth 60

  pub update_signer_body-Keeps :
      (chain_id : ChainId) (request_id : Option Text) (key : PublicKey) (memo : Text)
      → Keeps F (update_signer_body chain_id request_id key memo)
  unfolding update_signer_body
  update_signer_body-Keeps chain_id request_id key memo =
      search (builder_rules, submit-Keeps) depth 60

module _ ⦃env : Env⦄ {F : Frame} ⦃reading : Reading F⦄ ⦃writing : Writing F⦄
    ⦃detailing : Detailing F⦄ where
  pub close_channel_confirm-Keeps :
      (p c : Text) (id : ChainId) (details : ConnectionDetails)
      → Keeps F (close_channel_confirm p c id details)
  unfolding close_channel_confirm
  close_channel_confirm-Keeps p c id details =
      search (builder_rules, set_channel_state-Keeps) depth 60

  pub close_channel_body-Keeps :
      (chain_id : ChainId) (request_id : Option Text) (memo : Text)
      → Keeps F (close_channel_body chain_id request_id memo)
  unfolding close_channel_body
  close_channel_body-Keeps chain_id request_id memo =
      search (builder_rules, close_channel_confirm-Keeps, channel_close_init-Keeps) depth 60

pub ruleset step_rules = (
  builder_rules, details_status-Keeps, connect_body-Keeps, close_channel_body-Keeps,
  update_signer_body-Keeps, submit-Keeps, prepare_light_client-Keeps,
  create_solo_machine_client-Keeps, create_tendermint_client-Keeps, create_new_client-Keeps,
  connection_open_init-Keeps, connection_open_try-Keeps, connection_open_ack-Keeps,
  connection_open_confirm-Keeps, create_connection-Keeps, channel_open_init-Keeps,
  channel_open_try-Keeps, channel_open_ack-Keeps, set_channel_state-Keeps,
  channel_open_confirm-Keeps, open_channel-Keeps, channel_close_init-Keeps,
  close_channel_confirm-Keeps,
)
