-- ===== src/Service/Close/Never.antt =====
-- `close_channel` and its two halves in one transaction.
use ibc_solo_machine.Base.{
  Option, some, none, some-injective, Text, ◌≡◌, refl, sym, ap, ◌∙◌, false, subst, arith, unwrap,
  chain_not_found, channel_already_closed,
}
use ibc_solo_machine.Identifier.{ChainId, ChannelId, PortId}
use ibc_solo_machine.Chain.{Chain, ConnectionDetails}
use ibc_solo_machine.Messages.{TxRaw}
use ibc_solo_machine.Env.{Env}
use ibc_solo_machine.Exec.{World, transaction}
use ibc_solo_machine.Exec.Runs.{Runs, bind-Runs, lift-Runs, or_raise-Runs, http_client-Runs}
use ibc_solo_machine.Exec.Atomic.{Atomic, Atomic-bind, Atomic-commit, Atomic-never, returned}
use ibc_solo_machine.Store.Chains.{get_chain, row_id}
use ibc_solo_machine.Store.Chains.Laws.{get_chain-add_connection_details}
use ibc_solo_machine.Store.Chains.Decoded.{get_chain-some, parse_chain_id-id}
use ibc_solo_machine.Store.Query.{find_row_key}
use ibc_solo_machine.Builder.Channel.{channel_close_init_message}
use ibc_solo_machine.Service.Frames.{step_rules}
use ibc_solo_machine.Service.Channel.{close_channel_confirm, channel_close_init}
use ibc_solo_machine.Service.Close.{without_channels, close_channel_body, close_channel}

module _ ⦃env : Env⦄ where
  -- A channel is not closed twice.
  channel_close_init_message-closed :
      (chain : Chain) (details : ConnectionDetails) (memo : Text) (request_id : Option Text)
      (w : World) (tx : TxRaw) (v : World)
      → chain.connection_details ≡ some details
      → details.solo_machine_channel_id ≡ none
      → ¬ Runs (channel_close_init_message chain memo request_id) w tx v
  unfolding channel_close_init_message
  channel_close_init_message-closed chain details memo request_id w tx v p q e =
      let (details', w₁, e₁, f₁) = bind-Runs _ _ w tx v e in
      let (id, w₂, e₂, f₂) = bind-Runs _ _ w₁ tx v f₁ in
      let r = (lift-Runs (unwrap chain.connection_details) w details' w₁ e₁).0 in
      let s =
        (or_raise-Runs details'.solo_machine_channel_id channel_already_closed w₁ id w₂ e₂).0 in
      ground (arith, p, q, r, s)

  close_channel_confirm-then-init :
      (port_id : PortId) (channel_id : ChannelId) (id key : ChainId) (details : ConnectionDetails)
      (request_id : Option Text) (memo closed_id : Text) (a : Unit {0}) (w u v : World)
      → id.id ≡ key.id
      → details.solo_machine_channel_id ≡ none
      → Runs (close_channel_confirm port_id channel_id id details) w a u
      → ¬ Runs (channel_close_init key request_id memo) u closed_id v
  unfolding close_channel_confirm channel_close_init
  close_channel_confirm-then-init port_id channel_id id key details request_id memo closed_id a w u
        v same none' e f =
      let (_, w₁, _, e₁) = bind-Runs _ _ w a u e in
      let (found, u₁, f₁, g₁) = bind-Runs _ _ u closed_id v f in
      let (chain, u₂, f₂, g₂) = bind-Runs _ _ u₁ closed_id v g₁ in
      let (_, u₃, f₃, g₃) = bind-Runs _ _ u₂ closed_id v g₂ in
      let (tx, u₄, f₄, g₄) = bind-Runs _ _ u₃ closed_id v g₃ in
      let (c, p, q, _) =
        get_chain-add_connection_details id key details w₁ u u₁ a found same e₁ f₁ in
      let r = (or_raise-Runs found chain_not_found u₁ chain u₂ f₂).0 in
      let s = some-injective (sym p ∙ r) in
      channel_close_init_message-closed chain details memo request_id u₃ tx u₄
        (ap (λ x. x.connection_details) (sym s) ∙ q) none' f₄

  close_channel_body-never :
      (chain_id : ChainId) (request_id : Option Text) (memo : Text) (w : World) (a : Unit {0})
      (v : World)
      → ¬ Runs (close_channel_body chain_id request_id memo) w a v
  unfolding close_channel_body
  close_channel_body-never chain_id request_id memo w a v e =
      let (found, w₁, e₁, f₁) = bind-Runs _ _ w a v e in
      let (chain, w₂, e₂, f₂) = bind-Runs _ _ w₁ a v f₁ in
      let (details, w₃, e₃, f₃) = bind-Runs _ _ w₂ a v f₂ in
      let (sm, w₄, e₄, f₄) = bind-Runs _ _ w₃ a v f₃ in
      let (tm, w₅, e₅, f₅) = bind-Runs _ _ w₄ a v f₄ in
      let (_, w₆, e₆, f₆) = bind-Runs _ _ w₅ a v f₅ in
      let (_, w₇, e₇, f₇) = bind-Runs _ _ w₆ a v f₆ in
      let (closed_id, w₈, e₈, f₈) = bind-Runs _ _ w₇ a v f₇ in
      let p = (or_raise-Runs found chain_not_found w₁ chain w₂ e₂).0 in
      let (raw, q, d, _) =
        get_chain-some chain_id w chain w₁
          (subst (λ (o : Option Chain). Runs (get_chain transaction chain_id) w o w₁) p e₁) in
      let same =
        parse_chain_id-id raw.id chain.id d.id_of ∙ find_row_key row_id chain_id.id _ raw q in
      let stay = http_client-Runs chain.config.rpc_addr w₆ _ w₇ e₇ in
      close_channel_confirm-then-init chain.config.port_id tm chain.id chain_id
        (without_channels details) request_id memo closed_id _ w₅ w₆ w₈ same refl e₆
        (subst (λ (x : World). Runs (channel_close_init chain_id request_id memo) x closed_id w₈)
          (sym stay) e₈)

  close_channel-Atomic :
      (chain_id : ChainId) (request_id : Option Text) (memo : Text)
      → Atomic (close_channel chain_id request_id memo)
  unfolding close_channel
  close_channel-Atomic chain_id request_id memo =
      search (Atomic-bind, Atomic-commit, step_rules) depth 60

  close_channel-Runs :
      (chain_id : ChainId) (request_id : Option Text) (memo : Text) (w : World) (a : Unit {0})
      (v : World)
      → ¬ Runs (close_channel chain_id request_id memo) w a v
  unfolding close_channel
  close_channel-Runs chain_id request_id memo w a v e =
      let (_, w₁, e₁, f₁) = bind-Runs _ _ w a v e in
      let (_, w₂, e₂, f₂) = bind-Runs _ _ w₁ a v f₁ in
      close_channel_body-never chain_id request_id memo w₁ _ w₂ e₂

  -- `close_channel` never returns: from every state of the database, and whatever the node, the
  -- signer and the notifier answer, it ends in an error or a panic, and the committed database is
  -- left alone.
  pub close_channel_never_returns :
      (chain_id : ChainId) (request_id : Option Text) (memo : Text) (w : World)
      → (returned (close_channel chain_id request_id memo w).0 ≡ false)
        × ((close_channel chain_id request_id memo w).1.stored ≡ w.stored)
  close_channel_never_returns chain_id request_id memo w =
      Atomic-never (close_channel chain_id request_id memo) w
        (close_channel-Atomic chain_id request_id memo)
        (close_channel-Runs chain_id request_id memo w)
