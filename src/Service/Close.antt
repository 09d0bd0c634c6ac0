-- ===== src/Service/Close.antt =====
-- `IbcService::close_channel`.
pub mod Never
use ibc_solo_machine.Base.{
  Option, some, none, is_some, Text, text_eq, unwrap, chain_not_found, connection_not_established,
  channel_already_closed, wrong_channel_closed,
}
use ibc_solo_machine.Identifier.{ChainId}
use ibc_solo_machine.Chain.{Chain, ConnectionDetails}
use ibc_solo_machine.Event.{close_channel_init_on_solo_machine}
use ibc_solo_machine.Env.{Env}
use ibc_solo_machine.Exec.{
  Exec, transaction, lift, or_raise, require, ◌>>=◌, ◌>>◌, begin, commit, http_client, notify_event,
}
use ibc_solo_machine.Store.Chains.{get_chain}
use ibc_solo_machine.Service.Channel.{close_channel_confirm, channel_close_init}

-- `new_connection_details`
abbrev pub without_channels : ConnectionDetails → ConnectionDetails
without_channels details = record details {
  solo_machine_channel_id = none;
  tendermint_channel_id = none;
}

module _ ⦃env : Env⦄ where
  -- `close_channel` between `begin` and `commit`.
  unfoldable pub close_channel_body : ChainId → Option Text → Text → Exec (Unit {0})
  close_channel_body chain_id request_id memo = do
    found ← get_chain transaction chain_id
    chain ← or_raise found chain_not_found
    details ← or_raise chain.connection_details connection_not_established
    solo_machine_channel_id ← or_raise details.solo_machine_channel_id channel_already_closed
    tendermint_channel_id ← lift (unwrap details.tendermint_channel_id)
    close_channel_confirm chain.config.port_id tendermint_channel_id chain.id
        (without_channels details)
    http_client chain.config.rpc_addr
    closed_id ← channel_close_init chain_id request_id memo
    require (text_eq solo_machine_channel_id closed_id) wrong_channel_closed
    notify_event (close_channel_init_on_solo_machine chain_id.id solo_machine_channel_id)

  unfoldable pub close_channel : ChainId → Option Text → Text → Exec (Unit {0})
  close_channel chain_id request_id memo = do
    begin
    close_channel_body chain_id request_id memo
    commit
