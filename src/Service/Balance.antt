-- ===== src/Service/Balance.antt =====
-- `Chain::get_balance` of solo-machine-core/src/model/chain/chain.rs, and `ChainService::balance`.
use ibc_solo_machine.Base.{
  Option, none, some, Text, codes, Result, ok, ok_or, chain_not_found, external,
}
use ibc_solo_machine.Identifier.{Identifier, ChainId}
use ibc_solo_machine.Chain.{Chain}
use ibc_solo_machine.Event.{queried}
use ibc_solo_machine.Env.{Env}
use ibc_solo_machine.Crates.{Crates}
use ibc_solo_machine.Exec.{
  Exec, pool, lift, or_raise, require, ◌>>=◌, ◌>>◌, call, to_account_address,
}
use ibc_solo_machine.Store.Chains.{get_chain, get_ibc_denom}

module _ ⦃env : Env⦄ ⦃crates : Crates⦄ where
  -- `coin.amount.parse()`, or the default of `Decimal` where there is no coin.
  abbrev amount_of : Option Text → Result Text
  amount_of none = ok (codes "0")
  amount_of (some amount) = ok_or (crates.parse_decimal amount) external

  unfoldable pub get_balance : Chain → Identifier → Exec Text
  get_balance chain denom = do
    connected ← call (λ t. env.grpc_connect_ok t chain.config.grpc_addr) queried
    require connected external
    ibc_denom ← lift (get_ibc_denom chain denom)
    address ← to_account_address
    response ← call (λ t. crates.query_balance t address ibc_denom) queried
    coin ← or_raise response external
    lift (amount_of coin)

  unfoldable pub balance : ChainId → Identifier → Exec Text
  balance chain_id denom = do
    found ← get_chain pool chain_id
    chain ← or_raise found chain_not_found
    get_balance chain denom
