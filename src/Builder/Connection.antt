-- ===== src/Builder/Connection.antt =====
-- Connection messages of solo-machine-core/src/transaction_builder.rs.
use ibc_solo_machine.Base.{[], ◌∷◌, Option, some, Text, Bytes, codes, client_not_found}
use ibc_solo_machine.Height
use ibc_solo_machine.Identifier.{ClientId, ConnectionId}
use ibc_solo_machine.PublicKey.Convert.{any_of}
use ibc_solo_machine.Chain.{Chain}
use ibc_solo_machine.Messages.{
  ConnectionVersion, TxRaw, tendermint_client_state, msg_connection_open_init,
  msg_connection_open_ack,
}
use ibc_solo_machine.Env.{Env}
use ibc_solo_machine.Exec.{Exec, transaction, pure, or_raise, ◌>>=◌, to_account_address}
use ibc_solo_machine.Store.Chains.{increment_sequence}
use ibc_solo_machine.Store.IbcData.{get_tendermint_client_state}
use ibc_solo_machine.Builder.Tx.{build}
use ibc_solo_machine.Builder.Proofs.{get_connection_proof}

abbrev pub connection_version : ConnectionVersion
connection_version = record {
  identifier = codes "1";
  features = codes "ORDER_ORDERED" ∷ codes "ORDER_UNORDERED" ∷ [];
}

module _ ⦃env : Env⦄ where
  abbrev pub ibc_prefix : Bytes
  ibc_prefix = env.utf8_bytes (codes "ibc")

  unfoldable pub connection_open_init_message :
      Chain → ClientId → ClientId → Text → Option Text → Exec TxRaw
  connection_open_init_message chain solo_machine_client_id tendermint_client_id memo request_id =
      do
        signer ← to_account_address
        build chain
            (any_of (codes "/ibc.core.connection.v1.MsgConnectionOpenInit") (
                msg_connection_open_init (record {
                  client_id = solo_machine_client_id;
                  counterparty = some (record {
                    client_id = tendermint_client_id;
                    connection_id = [];
                    prefix = some ibc_prefix;
                  });
                  version = some connection_version;
                  delay_period = 0;
                  signer = signer;
                }))
              ∷ [])
            memo request_id

  unfoldable pub connection_open_ack_message :
      Chain → ConnectionId → ClientId → ConnectionId → Text → Option Text → Exec (TxRaw × Chain)
  connection_open_ack_message chain solo_machine_connection_id tendermint_client_id
        tendermint_connection_id memo request_id =
      do
        found ← get_tendermint_client_state transaction tendermint_client_id
        client_state ← or_raise found client_not_found
        let proof_height = Height.new 0 chain.sequence
        proof_try ← get_connection_proof transaction chain tendermint_connection_id request_id
        chain' ← increment_sequence transaction chain.id
        signer ← to_account_address
        tx ←
            build chain'
              (any_of (codes "/ibc.core.connection.v1.MsgConnectionOpenAck") (
                  msg_connection_open_ack (record {
                    connection_id = solo_machine_connection_id;
                    counterparty_connection_id = tendermint_connection_id;
                    version = some connection_version;
                    client_state = some (
                        any_of (codes "/ibc.lightclients.tendermint.v1.ClientState")
                          (tendermint_client_state client_state));
                    proof_height = some proof_height;
                    proof_try = proof_try;
                    proof_client = [];
                    proof_consensus = [];
                    consensus_height = client_state.latest_height;
                    signer = signer;
                    host_consensus_state_proof = [];
                  }))
                ∷ [])
              memo request_id
        pure (tx, chain')
