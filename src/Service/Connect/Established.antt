-- ===== src/Service/Connect/Established.antt =====
-- `connect` on a chain that has connection details.
use ibc_solo_machine.Base.{
  Bool, true, false, Option, none, some, some-injective, Text, ◌≡◌, sym, ap, ◌∙◌, subst, arith,
  panic, chain_not_found,
}
use ibc_solo_machine.Identifier.{ChainId, ClientId, ConnectionId, ChannelId}
use ibc_solo_machine.Chain.{Chain, ConnectionDetails, RawChain}
use ibc_solo_machine.Env.{Env}
use ibc_solo_machine.Exec.{World, transaction}
use ibc_solo_machine.Exec.Runs.{Runs, bind-Runs, lift-Runs, pure-Runs, or_raise-Runs, begin-Runs}
use ibc_solo_machine.Exec.Atomic.{Atomic-never, returned}
use ibc_solo_machine.Store.Query.{find_row}
use ibc_solo_machine.Store.Chains.{get_chain, row_id}
use ibc_solo_machine.Store.Chains.Decoded.{get_chain-some}
use ibc_solo_machine.Service.Connect.{
  is_closed, channel_status, details_status, client_and_connection, connect_body, connect,
}
use ibc_solo_machine.Service.Connect.Atomicity.{connect-Atomic}

module _ ⦃env : Env⦄ where
  -- Details mean that the connection is established, whatever its channel is.
  channel_status-established :
      (chain : Chain) (id : Option ChannelId) (w v : World) (s : Bool × Bool)
      → Runs (channel_status chain id) w s v
      → s.0 ≡ true
  unfolding channel_status
  channel_status-established chain none w v s e =
      ap (λ x. x.0) (sym (pure-Runs (true, true) w s v e).0)
  channel_status-established chain (some id) w v s e =
      let (found, w₁, _, f₁) = bind-Runs _ _ w s v e in
      let (channel, w₂, _, f₂) = bind-Runs _ _ w₁ s v f₁ in
      ap (λ x. x.0) (sym (pure-Runs (true, is_closed channel.state) w₂ s v f₂).0)

  details_status-established :
      (chain : Chain) (details : ConnectionDetails) (w v : World) (s : Bool × Bool)
      → Runs (details_status chain (some details)) w s v
      → s.0 ≡ true
  unfolding details_status
  details_status-established chain details w v s e = channel_status-established chain _ w v s e

  client_and_connection-established :
      (chain : Chain) (closed force : Bool) (memo : Text) (request_id : Option Text) (w v : World)
      (a : (ClientId × ClientId) × (ConnectionId × ConnectionId × Chain))
      → ¬ Runs (client_and_connection chain true closed force memo request_id) w a v
  unfolding client_and_connection
  client_and_connection-established chain closed force memo request_id w v a e =
      let (_, u, _, f) = bind-Runs _ _ w a v e in
      let p = (lift-Runs panic u a v f).0 in ground (arith, p)

  connect_body-established :
      (chain_id : ChainId) (request_id : Option Text) (memo : Text) (force : Bool) (w v : World)
      (a : Unit {0}) (row : RawChain) (details : ConnectionDetails)
      → find_row row_id chain_id.id w.working.chains ≡ some row
      → row.connection_details ≡ some details
      → ¬ Runs (connect_body chain_id request_id memo force) w a v
  unfolding connect_body
  connect_body-established chain_id request_id memo force w v a row details p q e =
      let (found, w₁, e₁, f₁) = bind-Runs _ _ w a v e in
      let (chain, w₂, e₂, f₂) = bind-Runs _ _ w₁ a v f₁ in
      let (status, w₃, e₃, f₃) = bind-Runs _ _ w₂ a v f₂ in
      let (_, w₄, _, f₄) = bind-Runs _ _ w₃ a v f₃ in
      let (_, w₅, _, f₅) = bind-Runs _ _ w₄ a v f₄ in
      let (ids, w₆, e₆, _) = bind-Runs _ _ w₅ a v f₅ in
      let r = (or_raise-Runs found chain_not_found w₁ chain w₂ e₂).0 in
      let (row', s, d, _) =
        get_chain-some chain_id w chain w₁
          (subst (λ (o : Option Chain). Runs (get_chain transaction chain_id) w o w₁) r e₁) in
      let same = some-injective (sym s ∙ p) in
      let has = d.details_of ∙ (ap (λ x. x.connection_details) same ∙ q) in
      let established = details_status-established chain details w₂ w₃ status (
        subst (λ (o : Option ConnectionDetails). Runs (details_status chain o) w₂ status w₃) has
          e₃) in
      client_and_connection-established chain status.1 force memo request_id w₅ w₆ ids (
        subst
          (λ (b : Bool).
            Runs (client_and_connection chain b status.1 force memo request_id) w₅ ids w₆)
          established e₆)

  connect-Runs :
      (chain_id : ChainId) (request_id : Option Text) (memo : Text) (force : Bool) (w v : World)
      (a : Unit {0}) (row : RawChain) (details : ConnectionDetails)
      → find_row row_id chain_id.id w.stored.chains ≡ some row
      → row.connection_details ≡ some details
      → ¬ Runs (connect chain_id request_id memo force) w a v
  unfolding connect
  connect-Runs chain_id request_id memo force w v a row details p q e =
      let (_, w₁, e₁, f₁) = bind-Runs _ _ w a v e in
      let (_, w₂, e₂, _) = bind-Runs _ _ w₁ a v f₁ in
      connect_body-established chain_id request_id memo force w₁ w₂ _ row details
        (ap (λ d. find_row row_id chain_id.id d.chains) (begin-Runs w _ w₁ e₁) ∙ p) q e₂

  -- On a chain whose row has connection details, `connect` never returns, with `force` or without
  -- it, and with an open channel or a closed one: it ends in an error or a panic, and the committed
  -- database is left alone.
  pub connect_established_never_returns :
      (chain_id : ChainId) (request_id : Option Text) (memo : Text) (force : Bool) (w : World)
      (row : RawChain) (details : ConnectionDetails)
      → find_row row_id chain_id.id w.stored.chains ≡ some row
      → row.connection_details ≡ some details
      → (returned (connect chain_id request_id memo force w).0 ≡ false)
        × ((connect chain_id request_id memo force w).1.stored ≡ w.stored)
  connect_established_never_returns chain_id request_id memo force w row details p q =
      Atomic-never (connect chain_id request_id memo force) w
        (connect-Atomic chain_id request_id memo force)
        (λ a v. connect-Runs chain_id request_id memo force w v a row details p q)
