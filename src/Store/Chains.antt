-- ===== src/Store/Chains.antt =====
-- solo-machine-core/src/model/chain/chain.rs: the table `chains`.
pub mod Decoded
pub mod Laws
pub mod Progress
use ibc_solo_machine.Base.{
  ℕ, ◌+◌, ◌-◌, ◌^◌, ℤ, pos, negsuc, add_one, Bool, true, false, Option, none, some, List, [], ◌∷◌,
  ◌++◌, Text, codes, leb, ◌==◌, if◌then◌else◌, is_some, Result, ok, err, ok_or, ensure, unwrap,
  ◌>>=◌ as ◌>>=ᵣ◌, external, rows_affected, invalid_node_id, connection_not_established,
  channel_already_closed,
}
use ibc_solo_machine.Identifier.{Identifier, ChainId, parse_chain_id}
use ibc_solo_machine.Path.{denom_trace_key}
use ibc_solo_machine.Chain.{Chain, ChainConfig, ConnectionDetails, RawChain, DateTime}
use ibc_solo_machine.Env.{Env}
use ibc_solo_machine.Database.{Database}
use ibc_solo_machine.Exec.{
  Exec, Executor, pure, lift, or_raise, require, ◌>>=◌, ◌>>◌, select, execute, now,
}
use ibc_solo_machine.Store.Query.{find_row, update_rows, count_rows}

abbrev pub max_u32 : ℕ
max_u32 = 2 ^ 32 - 1

-- `u32::try_from(i64)`
unfoldable pub u32_of_i64 : ℤ → Result ℕ
u32_of_i64 (pos n) = if leb n max_u32 then ok n else err external
u32_of_i64 (negsuc n) = err external

-- `From<Chain> for RawChain`
unfoldable pub raw_of_chain : Chain → RawChain
raw_of_chain chain = record {
  id = chain.id.id;
  node_id = chain.node_id;
  config = chain.config;
  consensus_timestamp = chain.consensus_timestamp;
  sequence = pos chain.sequence;
  packet_sequence = pos chain.packet_sequence;
  connection_details = chain.connection_details;
  created_at = chain.created_at;
  updated_at = chain.updated_at;
}

abbrev pub row_id : RawChain → Text
row_id row = row.id

-- `INSERT INTO chains`; the other columns have their defaults.
unfoldable pub insert_chain : RawChain → Database → Option (ℕ × Database)
insert_chain row d =
    if is_some (find_row row_id row.id d.chains)
    then none
    else some (1, record d { chains = row ∷ d.chains })

unfoldable pub set_details : ConnectionDetails → DateTime → RawChain → RawChain
set_details details current row = record row {
  connection_details = some details;
  updated_at = current;
}

unfoldable pub next_sequence : DateTime → RawChain → RawChain
next_sequence current row = record row { sequence = add_one row.sequence; updated_at = current }

unfoldable pub next_packet_sequence : DateTime → RawChain → RawChain
next_packet_sequence current row = record row {
  packet_sequence = add_one row.packet_sequence;
  updated_at = current;
}

-- `UPDATE chains SET … WHERE id = … RETURNING *`, and its first row.
unfoldable pub update_returning :
    (RawChain → RawChain) → Text → Database → Option (Option RawChain × Database)
update_returning f id d =
    let rows = update_rows row_id f id d.chains in
    some (find_row row_id id rows, record d { chains = rows })

-- `UPDATE chains SET connection_details = … WHERE id = …`
abbrev pub update_details : ConnectionDetails → DateTime → Text → Database → Option (ℕ × Database)
update_details details current id d = some (
  count_rows row_id id d.chains,
  record d { chains = update_rows row_id (set_details details current) id d.chains },
)

module _ ⦃env : Env⦄ where
  -- `TryFrom<RawChain> for Chain`
  unfoldable pub chain_of_raw : RawChain → Result Chain
  chain_of_raw raw = parse_chain_id raw.id >>=ᵣ λ id.
      ok_or (env.parse_node_id raw.node_id) invalid_node_id >>=ᵣ λ node_id.
      u32_of_i64 raw.sequence >>=ᵣ λ sequence.
      u32_of_i64 raw.packet_sequence >>=ᵣ λ packet_sequence. ok (record {
        id = id;
        node_id = node_id;
        config = raw.config;
        consensus_timestamp = raw.consensus_timestamp;
        sequence = sequence;
        packet_sequence = packet_sequence;
        connection_details = raw.connection_details;
        created_at = raw.created_at;
        updated_at = raw.updated_at;
      })

  -- `Chain::get_ibc_denom`
  unfoldable pub get_ibc_denom : Chain → Identifier → Result Text
  get_ibc_denom chain denom =
      ok_or chain.connection_details connection_not_established >>=ᵣ λ connection_details.
      ok_or connection_details.solo_machine_channel_id channel_already_closed >>=ᵣ λ channel_id.
      let trace = denom_trace_key chain.config.port_id channel_id denom in
      ok (codes "ibc/" ++ env.hex_upper (env.sha256 (env.utf8_bytes trace)))

  unfoldable pub add_chain : Executor → ChainId → Text → ChainConfig → Exec (Unit {0})
  add_chain executor id node_id config = do
    current ← now
    n ← execute executor (
        insert_chain (record {
          id = id.id;
          node_id = node_id;
          config = config;
          consensus_timestamp = current;
          sequence = pos 1;
          packet_sequence = pos 1;
          connection_details = none;
          created_at = current;
          updated_at = current;
        }))
    require (n == 1) rows_affected

  unfoldable pub transpose : Option RawChain → Result (Option Chain)
  transpose none = ok none
  transpose (some raw) = chain_of_raw raw >>=ᵣ λ chain. ok (some chain)

  unfoldable pub get_chain : Executor → ChainId → Exec (Option Chain)
  get_chain executor chain_id = do
    row ← select executor (λ d. find_row row_id chain_id.id d.chains)
    lift (transpose row)

  unfoldable pub add_connection_details : Executor → ChainId → ConnectionDetails → Exec (Unit {0})
  add_connection_details executor chain_id details = do
    current ← now
    n ← execute executor (update_details details current chain_id.id)
    require (n == 1) rows_affected

  unfoldable pub increment_sequence : Executor → ChainId → Exec Chain
  increment_sequence executor chain_id = do
    current ← now
    row ← execute executor (update_returning (next_sequence current) chain_id.id)
    raw ← or_raise row external
    lift (chain_of_raw raw)

  unfoldable pub increment_packet_sequence : Executor → ChainId → Exec Chain
  increment_packet_sequence executor chain_id = do
    current ← now
    row ← execute executor (update_returning (next_packet_sequence current) chain_id.id)
    raw ← or_raise row external
    lift (chain_of_raw raw)
