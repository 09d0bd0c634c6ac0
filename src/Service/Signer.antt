-- ===== src/Service/Signer.antt =====
-- `IbcService::update_signer`, and `ChainService` of
-- solo-machine-core/src/service/chain_service.rs.
pub mod Added
use ibc_solo_machine.Base.{ℤ, List, Option, some, Text, chain_not_found, external}
use ibc_solo_machine.Identifier.{Identifier, ChainId, parse_chain_id}
use ibc_solo_machine.PublicKey.{PublicKey}
use ibc_solo_machine.PublicKey.Convert.{encode}
use ibc_solo_machine.Chain.{Chain, ChainConfig}
use ibc_solo_machine.Event.{signer_updated, chain_added, queried}
use ibc_solo_machine.Env.{Env}
use ibc_solo_machine.Database.{ChainKey}
use ibc_solo_machine.Exec.{
  Exec, pool, transaction, pure, lift, or_raise, ◌>>=◌, ◌>>◌, begin, commit, call, http_client,
  notify_event,
}
use ibc_solo_machine.Store.Chains.{get_chain, add_chain}
use ibc_solo_machine.Store.Chains
use ibc_solo_machine.Store.ChainKeys.{add_chain_key, get_chain_keys}
use ibc_solo_machine.Builder.Client.{msg_update_solo_machine_client}
use ibc_solo_machine.Service.Client.{submit}

module _ ⦃env : Env⦄ where
  -- `update_signer` between `begin` and `commit`.
  unfoldable pub update_signer_body : ChainId → Option Text → PublicKey → Text → Exec (Unit {0})
  update_signer_body chain_id request_id new_public_key memo = do
    found ← get_chain transaction chain_id
    chain ← or_raise found chain_not_found
    add_chain_key transaction chain_id (encode new_public_key)
    http_client chain.config.rpc_addr
    (msg, chain') ←
        msg_update_solo_machine_client transaction chain (some new_public_key) memo request_id
    response ← submit msg
    pure tt

  unfoldable pub update_signer : ChainId → Option Text → PublicKey → Text → Exec (Unit {0})
  update_signer chain_id request_id new_public_key memo = do
    begin
    update_signer_body chain_id request_id new_public_key memo
    commit
    old_public_key ← or_raise env.public_key external
    notify_event (signer_updated chain_id old_public_key new_public_key)

  -- `ChainService::add`
  unfoldable pub add : ChainConfig → Text → Exec ChainId
  add config public_key = do
    http_client config.rpc_addr
    response ← call env.status queried
    status ← or_raise response external
    chain_id ← lift (parse_chain_id status.network)
    begin
    add_chain transaction chain_id status.node_id config
    add_chain_key transaction chain_id public_key
    commit
    notify_event (chain_added chain_id)
    pure chain_id

  -- `ChainService::get_ibc_denom`
  unfoldable pub get_ibc_denom : ChainId → Identifier → Exec Text
  get_ibc_denom chain_id denom = do
    found ← get_chain pool chain_id
    chain ← or_raise found chain_not_found
    lift (Chains.get_ibc_denom chain denom)

  -- `ChainService::get` and `get_public_keys`
  unfoldable pub get : ChainId → Exec (Option Chain)
  get chain_id = get_chain pool chain_id

  unfoldable pub get_public_keys : ChainId → ℤ → ℤ → Exec (List ChainKey)
  get_public_keys chain_id limit offset = get_chain_keys pool chain_id limit offset
