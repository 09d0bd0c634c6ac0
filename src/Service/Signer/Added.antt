-- ===== src/Service/Signer/Added.antt =====
-- What `ChainService::add` commits.
use ibc_solo_machine.Base.{none, some, Text, ◌≡◌, sym, subst, ap, ◌∙◌, arith, true, ok, external}
use ibc_solo_machine.Identifier.{ChainId, parse_chain_id}
use ibc_solo_machine.Chain.{ChainConfig, RawChain}
use ibc_solo_machine.Event.{Action, queried, chain_added}
use ibc_solo_machine.Env.{Env, Trace, Status}
use ibc_solo_machine.Exec.{World, Exec, call, notify_event}
use ibc_solo_machine.Exec.Keeps.{Keeps, same_stored}
use ibc_solo_machine.Exec.Frames.{notify_event-Keeps, reading_stored}
use ibc_solo_machine.Exec.Runs.{
  Runs, bind-Runs, lift-Runs, or_raise-Runs, pure-Runs, http_client-Runs, begin-Runs, commit-Runs,
}
use ibc_solo_machine.Store.Query.{find_row}
use ibc_solo_machine.Store.Chains.{row_id}
use ibc_solo_machine.Store.ChainKeys.{has_key}
use ibc_solo_machine.Store.Insertions.{Fresh, add_chain-Runs, add_chain_key-Runs}
use ibc_solo_machine.Service.Signer.{add}

module _ ⦃env : Env⦄ where
  stored-Runs :
      {A : Type 0} (m : Exec A) (w : World) (a : A) (v : World)
      → Keeps same_stored m
      → Runs m w a v
      → v.stored ≡ w.stored
  stored-Runs m w a v k e = ap (λ r. r.1.stored) (sym e) ∙ k.at w

  call-Runs :
      {A : Type 0} (f : Trace → A) (action : Action) (w : World) (a : A) (v : World)
      → Runs (call f action) w a v
      → (f w.trace ≡ a) × (v.stored ≡ w.stored)
  unfolding call
  call-Runs f action w a v e = ground (arith, e)

  -- The chain `id` was added between `w` and `v`: the node answered with its status, whose network is
  -- the name of the chain; the committed database had no row of that name and has a new one, with the
  -- node and the configuration; and the public key is a key of the chain.
  pub record Added (config : ChainConfig) (public_key : Text) (w v : World) (id : ChainId)
      : Type 0 where
    pub status : Status
    pub row : RawChain
    pub answered : env.status w.trace ≡ some status
    pub named : parse_chain_id status.network ≡ ok id
    pub fresh : Fresh id.id status.node_id config row
    pub absent : find_row row_id id.id w.stored.chains ≡ none
    pub found : find_row row_id id.id v.stored.chains ≡ some row
    pub key_found : has_key id.id public_key v.stored.chain_keys ≡ true

  -- Where `ChainService::add` returns, the node answered with a status that names the chain; the
  -- committed database had no row of this name before; it has one now, with the node of the status,
  -- the configuration of the request, both sequences at one and no connection details; and the public
  -- key of the request is a key of the chain.
  pub add_stores :
      (config : ChainConfig) (public_key : Text) (w : World) (chain_id : ChainId) (v : World)
      → Runs (add config public_key) w chain_id v
      → Added config public_key w v chain_id
  unfolding add
  add_stores config public_key w chain_id v e =
      let (_, w₁, e₁, f₁) = bind-Runs _ _ w chain_id v e in
      let (response, w₂, e₂, f₂) = bind-Runs _ _ w₁ chain_id v f₁ in
      let (status, w₃, e₃, f₃) = bind-Runs _ _ w₂ chain_id v f₂ in
      let (id, w₄, e₄, f₄) = bind-Runs _ _ w₃ chain_id v f₃ in
      let (_, w₅, e₅, f₅) = bind-Runs _ _ w₄ chain_id v f₄ in
      let (_, w₆, e₆, f₆) = bind-Runs _ _ w₅ chain_id v f₅ in
      let (_, w₇, e₇, f₇) = bind-Runs _ _ w₆ chain_id v f₆ in
      let (_, w₈, e₈, f₈) = bind-Runs _ _ w₇ chain_id v f₇ in
      let (_, w₉, e₉, f₉) = bind-Runs _ _ w₈ chain_id v f₈ in
      let same_world = http_client-Runs config.rpc_addr w _ w₁ e₁ in
      let (asked, kept) = call-Runs env.status queried w₁ response w₂ e₂ in
      let (answer, same_answered) = or_raise-Runs response external w₂ status w₃ e₃ in
      let (named, same_named) = lift-Runs (parse_chain_id status.network) w₃ id w₄ e₄ in
      let start =
        begin-Runs w₄ _ w₅ e₅
        ∙ (ap (λ x. x.stored) (sym (same_answered ∙ same_named))
            ∙ (kept ∙ ap (λ x. x.stored) (sym same_world))) in
      let (row, fresh, absent, found) = add_chain-Runs id status.node_id config w₅ _ w₆ e₆ in
      let (same_chains, key_found) = add_chain_key-Runs id public_key w₆ _ w₇ e₇ in
      let (returned, same_end) = pure-Runs id w₉ chain_id v f₉ in
      let end =
        ap (λ x. x.stored) (sym same_end)
        ∙ (stored-Runs (notify_event (chain_added id)) w₈ _ w₉ (notify_event-Keeps _) e₉
            ∙ commit-Runs w₇ _ w₈ e₈) in
      subst (λ (i : ChainId). Added config public_key w v i) returned
        (record {
          status = status;
          row = row;
          answered = ap (λ x. env.status x.trace) same_world ∙ (asked ∙ answer);
          named = named;
          fresh = fresh;
          absent = ap (λ d. find_row row_id id.id d.chains) (sym start) ∙ absent;
          found =
              ap (λ d. find_row row_id id.id d.chains) end
              ∙ (ap (λ rows. find_row row_id id.id rows) same_chains ∙ found);
          key_found = ap (λ d. has_key id.id public_key d.chain_keys) end ∙ key_found;
        })
