-- ===== src/Store/IbcData.antt =====
-- solo-machine-core/src/model/ibc.rs: the table `ibc_data`, with encoded client states, consensus
-- states, connections and channels under their keys.
pub mod Laws
pub mod PayloadMap
pub mod Refinement
use ibc_solo_machine.Base.{
  ℕ, Option, none, some, ◌∷◌, Text, Bytes, ◌==◌, if◌then◌else◌, is_some, Result, ok, ok_or,
  ◌>>=◌ as ◌>>=ᵣ◌, external, rows_affected,
}
use ibc_solo_machine.Height.{Height}
use ibc_solo_machine.Identifier.{ClientId, ConnectionId, ChannelId, PortId}
use ibc_solo_machine.Path.{client_state_key, consensus_state_key, connection_key, channel_key}
use ibc_solo_machine.Messages.{
  tendermint_client_state, tendermint_consensus_state, connection_end, channel,
  TendermintClientState, TendermintConsensusState, ConnectionEnd, Channel,
}
use ibc_solo_machine.Env.{Env}
use ibc_solo_machine.Database.{Database, IbcData}
use ibc_solo_machine.Exec.{Exec, Executor, lift, require, ◌>>=◌, select, execute}
use ibc_solo_machine.Store.Query.{find_row, update_rows, count_rows}

abbrev pub row_path : IbcData → Text
row_path row = row.path

unfoldable pub insert_data : Text → Bytes → Database → Option (ℕ × Database)
insert_data path bytes d =
    if is_some (find_row row_path path d.ibc_data)
    then none
    else some (1, record d { ibc_data = record { path = path; payload = bytes } ∷ d.ibc_data })

abbrev pub set_payload : Bytes → IbcData → IbcData
set_payload bytes row = record row { payload = bytes }

-- `UPDATE ibc_data SET data = … WHERE path = …`
abbrev pub update_data : Text → Bytes → Database → Option (ℕ × Database)
update_data path bytes d = some (
  count_rows row_path path d.ibc_data,
  record d { ibc_data = update_rows row_path (set_payload bytes) path d.ibc_data },
)

module _ {A : Type 0} (decode : Bytes → Option A) where
  abbrev pub decode_row : Option IbcData → Result (Option A)
  decode_row none = ok none
  decode_row (some row) = ok_or (decode row.payload) external >>=ᵣ λ a. ok (some a)

module _ ⦃env : Env⦄ where
  unfoldable pub add : Executor → Text → Bytes → Exec (Unit {0})
  add executor path bytes = do
    n ← execute executor (insert_data path bytes)
    require (n == 1) rows_affected

  unfoldable pub update : Executor → Text → Bytes → Exec (Unit {0})
  update executor path bytes = do
    n ← execute executor (update_data path bytes)
    require (n == 1) rows_affected

  unfoldable pub get : {A : Type 0} → (Bytes → Option A) → Executor → Text → Exec (Option A)
  get decode executor path = do
    row ← select executor (λ d. find_row row_path path d.ibc_data)
    lift (decode_row decode row)

  unfoldable pub add_tendermint_client_state :
      Executor → ClientId → TendermintClientState → Exec (Unit {0})
  add_tendermint_client_state executor client_id client_state =
      add executor (client_state_key client_id) (env.encode (tendermint_client_state client_state))

  unfoldable pub get_tendermint_client_state :
      Executor → ClientId → Exec (Option TendermintClientState)
  get_tendermint_client_state executor client_id =
      get env.decode_client_state executor (client_state_key client_id)

  unfoldable pub add_tendermint_consensus_state :
      Executor → ClientId → Height → TendermintConsensusState → Exec (Unit {0})
  add_tendermint_consensus_state executor client_id height consensus_state =
      add executor (consensus_state_key client_id height)
        (env.encode (tendermint_consensus_state consensus_state))

  unfoldable pub add_connection : Executor → ConnectionId → ConnectionEnd → Exec (Unit {0})
  add_connection executor connection_id connection =
      add executor (connection_key connection_id) (env.encode (connection_end connection))

  unfoldable pub get_connection : Executor → ConnectionId → Exec (Option ConnectionEnd)
  get_connection executor connection_id =
      get env.decode_connection executor (connection_key connection_id)

  unfoldable pub update_connection : Executor → ConnectionId → ConnectionEnd → Exec (Unit {0})
  update_connection executor connection_id connection =
      update executor (connection_key connection_id) (env.encode (connection_end connection))

  unfoldable pub add_channel : Executor → PortId → ChannelId → Channel → Exec (Unit {0})
  add_channel executor port_id channel_id end =
      add executor (channel_key port_id channel_id) (env.encode (channel end))

  unfoldable pub get_channel : Executor → PortId → ChannelId → Exec (Option Channel)
  get_channel executor port_id channel_id =
      get env.decode_channel executor (channel_key port_id channel_id)

  unfoldable pub update_channel : Executor → PortId → ChannelId → Channel → Exec (Unit {0})
  update_channel executor port_id channel_id end =
      update executor (channel_key port_id channel_id) (env.encode (channel end))
