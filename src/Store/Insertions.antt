-- ===== src/Store/Insertions.antt =====
-- What the insertions of a chain and of a chain key leave in the open transaction.
use ibc_solo_machine.Base.{
  ℕ, pos, none, some, Text, text_eq_refl, ◌≡◌, refl, sym, ap, ◌∙◌, arith, true,
}
use ibc_solo_machine.Identifier.{ChainId}
use ibc_solo_machine.Chain.{ChainConfig, RawChain, DateTime}
use ibc_solo_machine.Env.{Env}
use ibc_solo_machine.Database.{Database}
use ibc_solo_machine.Exec.{World, transaction}
use ibc_solo_machine.Exec.Runs.{Runs, bind-Runs, require-Runs, now-Runs, execute-Runs}
use ibc_solo_machine.Store.Query.{find_row}
use ibc_solo_machine.Store.Chains.{row_id, insert_chain, add_chain}
use ibc_solo_machine.Store.ChainKeys.{has_key, insert_chain_key, add_chain_key}

-- The row of a chain as it is added: it is not connected, and its sequences are at one.
pub record Fresh (id node_id : Text) (config : ChainConfig) (row : RawChain) : Type 0 where
  pub id_of : row.id ≡ id
  pub node_of : row.node_id ≡ node_id
  pub config_of : row.config ≡ config
  pub sequence_of : row.sequence ≡ pos 1
  pub packet_sequence_of : row.packet_sequence ≡ pos 1
  pub details_of : row.connection_details ≡ none

insert_chain-found :
    (row : RawChain) (d e : Database) (n : ℕ)
    → insert_chain row d ≡ some (n, e)
    → (find_row row_id row.id d.chains ≡ none) × (find_row row_id row.id e.chains ≡ some row)
unfolding insert_chain find_row
insert_chain-found row d e n h = ground (arith, text_eq_refl row.id)

insert_chain_key-found :
    (id public_key : Text) (current : DateTime) (d e : Database) (n : ℕ)
    → insert_chain_key id public_key current d ≡ some (n, e)
    → (e.chains ≡ d.chains) × (has_key id public_key e.chain_keys ≡ true)
unfolding insert_chain_key has_key
insert_chain_key-found id public_key current d e n h =
    ground (arith, text_eq_refl id, text_eq_refl public_key)

module _ ⦃env : Env⦄ where
  pub add_chain-Runs :
      (id : ChainId) (node_id : Text) (config : ChainConfig) (w : World) (a : Unit {0}) (v : World)
      → Runs (add_chain transaction id node_id config) w a v
      → (row : RawChain) × Fresh id.id node_id config row
        × (find_row row_id id.id w.working.chains ≡ none)
        × (find_row row_id id.id v.working.chains ≡ some row)
  unfolding add_chain
  add_chain-Runs id node_id config w a v e =
      let (current, w₁, e₁, f₁) = bind-Runs _ _ w a v e in
      let (n, w₂, e₂, f₂) = bind-Runs _ _ w₁ a v f₁ in
      let p = now-Runs w current w₁ e₁ in
      let q = insert_chain-found _ w₁.working w₂.working n (execute-Runs _ w₁ n w₂ e₂) in
      let s = (require-Runs _ _ w₂ a v f₂).1 in
      (
        _,
        record {
          id_of = refl;
          node_of = refl;
          config_of = refl;
          sequence_of = refl;
          packet_sequence_of = refl;
          details_of = refl;
        },
        ap (λ x. find_row row_id id.id x.working.chains) p ∙ q.0,
        ap (λ x. find_row row_id id.id x.working.chains) (sym s) ∙ q.1,
      )

  pub add_chain_key-Runs :
      (id : ChainId) (public_key : Text) (w : World) (a : Unit {0}) (v : World)
      → Runs (add_chain_key transaction id public_key) w a v
      → (v.working.chains ≡ w.working.chains)
        × (has_key id.id public_key v.working.chain_keys ≡ true)
  unfolding add_chain_key
  add_chain_key-Runs id public_key w a v e =
      let (current, w₁, e₁, f₁) = bind-Runs _ _ w a v e in
      let (n, w₂, e₂, f₂) = bind-Runs _ _ w₁ a v f₁ in
      let p = now-Runs w current w₁ e₁ in
      let q =
        insert_chain_key-found id.id public_key current w₁.working w₂.working n
          (execute-Runs _ w₁ n w₂ e₂) in
      let s = (require-Runs _ _ w₂ a v f₂).1 in
      (
        ap (λ x. x.working.chains) (sym s) ∙ (q.0 ∙ ap (λ x. x.working.chains) (sym p)),
        ap (λ x. has_key id.id public_key x.working.chain_keys) (sym s) ∙ q.1,
      )
