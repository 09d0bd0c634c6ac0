-- ===== src/Invariant/Registered.antt =====
-- Chains that were added, in the histories that follow.
use ibc_solo_machine.Base.{pos, some, Text, ◌≡◌, subst, ap, ◌∙◌, true}
use ibc_solo_machine.Identifier.{ChainId}
use ibc_solo_machine.Chain.{ChainConfig, RawChain}
use ibc_solo_machine.Env.{Env}
use ibc_solo_machine.Exec.{World}
use ibc_solo_machine.Exec.Runs.{Runs}
use ibc_solo_machine.Store.Query.{find_row}
use ibc_solo_machine.Store.Chains.{row_id}
use ibc_solo_machine.Store.ChainKeys.{has_key}
use ibc_solo_machine.Store.Insertions.{Fresh}
use ibc_solo_machine.Service.Signer.{add}
use ibc_solo_machine.Service.Signer.Added.{add_stores}
use ibc_solo_machine.Invariant.Tables.{Later, ◌≤ℤ◌}
use ibc_solo_machine.Invariant.Worlds.{Valid}
use ibc_solo_machine.Invariant.History.{History, starts, continues, adds, dropped, History-lawful}

-- The row of a chain that was added with `config`, some time later.
pub record Registered (config : ChainConfig) (row : RawChain) : Type 0 where
  pub config_of : row.config ≡ config
  pub sequence_of : pos 1 ≤ℤ row.sequence
  pub packet_sequence_of : pos 1 ≤ℤ row.packet_sequence

Later-Registered :
    (id node_id : Text) (config : ChainConfig) (row row' : RawChain)
    → Fresh id node_id config row
    → Later row row'
    → Registered config row'
Later-Registered id node_id config row row' fresh later = record {
  config_of = later.same_config ∙ fresh.config_of;
  sequence_of = subst (λ z. z ≤ℤ row'.sequence) fresh.sequence_of later.sequence;
  packet_sequence_of =
      subst (λ z. z ≤ℤ row'.packet_sequence) fresh.packet_sequence_of later.packet_sequence;
}

module _ ⦃env : Env⦄ where
  -- From a world where the constraints hold and the open transaction is ahead of the committed
  -- database: where `ChainService::add` returns, the committed database has, after each history that
  -- follows, a row of the chain with the configuration that was added and sequences of at least one,
  -- and the public key that was added, whichever calls failed.
  pub registration_lasts :
      (config : ChainConfig) (public_key : Text) (w : World) (id : ChainId) (v u : World)
      → Valid w
      → Runs (add config public_key) w id v
      → History (dropped v) u
      → (row : RawChain) × (find_row row_id id.id u.stored.chains ≡ some row)
        × Registered config row
        × (has_key id.id public_key u.stored.chain_keys ≡ true)
  registration_lasts config public_key w id v u valid e h =
      let added = add_stores config public_key w id v e in
      let step = History-lawful (continues starts (adds config public_key)) valid in
      let start : Valid (dropped v) = subst Valid (ap (λ r. dropped r.1) e) step.0 in
      let forward = (History-lawful h start).1 in
      let (row, found, later) = forward.chains id.id added.row added.found in
      (
        row,
        found,
        Later-Registered id.id added.status.node_id config added.row row added.fresh later,
        forward.chain_keys id.id public_key added.key_found,
      )
