-- ===== src/Builder/Channel.antt =====
-- Channel messages of solo-machine-core/src/transaction_builder.rs.
use ibc_solo_machine.Base.{[], ◌∷◌, Option, some, Text, codes, unwrap, channel_already_closed}
use ibc_solo_machine.Height
use ibc_solo_machine.Identifier.{ConnectionId, ChannelId}
use ibc_solo_machine.PublicKey.Convert.{any_of}
use ibc_solo_machine.Chain.{Chain}
use ibc_solo_machine.Messages.{
  TxRaw, unordered, msg_channel_open_init, msg_channel_open_ack, msg_channel_close_init,
}
use ibc_solo_machine.Messages
use ibc_solo_machine.Env.{Env}
use ibc_solo_machine.Exec.{Exec, transaction, pure, lift, or_raise, ◌>>=◌, to_account_address}
use ibc_solo_machine.Store.Chains.{increment_sequence}
use ibc_solo_machine.Builder.Tx.{build}
use ibc_solo_machine.Builder.Proofs.{get_channel_proof}

module _ ⦃env : Env⦄ where
  unfoldable pub channel_open_init_message : Chain → ConnectionId → Text → Option Text → Exec TxRaw
  channel_open_init_message chain solo_machine_connection_id memo request_id = do
    signer ← to_account_address
    build chain
        (any_of (codes "/ibc.core.channel.v1.MsgChannelOpenInit") (
            msg_channel_open_init (record {
              port_id = chain.config.port_id;
              channel = some (record {
                state = Messages.ChannelState.init;
                ordering = unordered;
                counterparty = some (record { port_id = chain.config.port_id; channel_id = [] });
                connection_hops = solo_machine_connection_id ∷ [];
                version = codes "ics20-1";
                upgrade_sequence = 0;
              });
              signer = signer;
            }))
          ∷ [])
        memo request_id

  unfoldable pub channel_close_init_message : Chain → Text → Option Text → Exec TxRaw
  channel_close_init_message chain memo request_id = do
    connection_details ← lift (unwrap chain.connection_details)
    channel_id ← or_raise connection_details.solo_machine_channel_id channel_already_closed
    signer ← to_account_address
    build chain
        (any_of (codes "/ibc.core.channel.v1.MsgChannelCloseInit") (
            msg_channel_close_init
              (record { port_id = chain.config.port_id; channel_id = channel_id; signer = signer }))
          ∷ [])
        memo request_id

  unfoldable pub channel_open_ack_message :
      Chain → ChannelId → ChannelId → Text → Option Text → Exec (TxRaw × Chain)
  channel_open_ack_message chain solo_machine_channel_id tendermint_channel_id memo request_id = do
    let proof_height = Height.new 0 chain.sequence
    proof_try ← get_channel_proof transaction chain tendermint_channel_id request_id
    chain' ← increment_sequence transaction chain.id
    signer ← to_account_address
    tx ←
        build chain'
          (any_of (codes "/ibc.core.channel.v1.MsgChannelOpenAck") (
              msg_channel_open_ack (record {
                port_id = chain'.config.port_id;
                channel_id = solo_machine_channel_id;
                counterparty_channel_id = tendermint_channel_id;
                counterparty_version = codes "ics20-1";
                proof_height = some proof_height;
                proof_try = proof_try;
                signer = signer;
              }))
            ∷ [])
          memo request_id
    pure (tx, chain')
