-- ===== src/Store/Chains/Progress.antt =====
-- When a sequence can be advanced.
use ibc_solo_machine.Base.{
  ℕ, true, ◌∷◌, ◌+◌, ◌≤◌, ◌<◌, pos, some, Text, ◌≡◌, refl, arith, ok, le→leb,
}
use ibc_solo_machine.Identifier.{ChainId, parse_chain_id}
use ibc_solo_machine.Chain.{Chain, RawChain, DateTime}
use ibc_solo_machine.Env.{Env}
use ibc_solo_machine.Event.{statement}
use ibc_solo_machine.Exec.{World, transaction, ◌>>=◌, execute, now}
use ibc_solo_machine.Exec.Runs.{Runs}
use ibc_solo_machine.Store.Query.{find_row, update_rows, find_row-update_self}
use ibc_solo_machine.Store.Chains.{
  row_id, max_u32, u32_of_i64, chain_of_raw, next_sequence, update_returning, increment_sequence,
}

next_sequence_key :
    (current : DateTime) (r : RawChain) → row_id (next_sequence current r) ≡ row_id r
unfolding next_sequence
next_sequence_key current r = refl

module _ ⦃env : Env⦄ where
  -- A row that `chain_of_raw` accepts, with its two sequences.
  pub record Acceptable (raw : RawChain) (n m : ℕ) : Type 0 where
    pub key : ChainId
    pub node_id : Text
    pub parses : parse_chain_id raw.id ≡ ok key
    pub parses_node : env.parse_node_id raw.node_id ≡ some node_id
    pub sequence : raw.sequence ≡ pos n
    pub packet_sequence : raw.packet_sequence ≡ pos m
    pub packet_bound : m ≤ max_u32

  chain_of_raw-next :
      (raw : RawChain) (n m : ℕ) (current : DateTime)
      → Acceptable raw n m
      → n < max_u32
      → (c : Chain) × (chain_of_raw (next_sequence current raw) ≡ ok c) × (c.sequence ≡ n + 1)
  unfolding chain_of_raw next_sequence u32_of_i64
  chain_of_raw-next raw n m current k h = (
    record {
      id = k.key;
      node_id = k.node_id;
      config = raw.config;
      consensus_timestamp = raw.consensus_timestamp;
      sequence = n + 1;
      packet_sequence = m;
      connection_details = raw.connection_details;
      created_at = raw.created_at;
      updated_at = current;
    },
    rw
        (
          k.parses,
          k.parses_node,
          k.sequence,
          k.packet_sequence,
          le→leb (n + 1) max_u32 (omega (arith, h)),
          le→leb m max_u32 k.packet_bound,
        )
        refl,
    refl,
  )

  -- Where the statement is accepted, the chain has a row in the transaction with an identifier and a
  -- node that are parsed, its packet sequence is a `u32`, and its sequence is below the largest
  -- `u32`, `increment_sequence` returns the chain with the next sequence.
  pub increment_sequence_returns :
      (id : ChainId) (w : World) (raw : RawChain) (n m : ℕ)
      → env.statement_ok w.trace ≡ true
      → find_row row_id id.id w.working.chains ≡ some raw
      → Acceptable raw n m
      → n < max_u32
      → (c : Chain) × (v : World) × Runs (increment_sequence transaction id) w c v
        × (c.sequence ≡ n + 1)
  unfolding increment_sequence ◌>>=◌ now execute update_returning
  increment_sequence_returns id w raw n m up found k h =
      let current = env.now w.trace in
      let (c, p, q) = chain_of_raw-next raw n m current k h in
      let row =
        find_row-update_self row_id (next_sequence current) id.id w.working.chains raw
          (next_sequence_key current) found in
      (
        c,
        record w {
          working = record w.working {
            chains = update_rows row_id (next_sequence current) id.id w.working.chains;
          };
          trace = statement ∷ w.trace;
        },
        rw (up, row, p) refl,
        q,
      )
