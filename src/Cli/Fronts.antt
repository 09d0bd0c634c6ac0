-- ===== src/Cli/Fronts.antt =====
-- The command line beside the gRPC server.
use ibc_solo_machine.Base.{ℕ, Text, unwrap_or, ◌≡◌, refl, sym, Result, ok, err, panic}
use ibc_solo_machine.Identifier.{ChainId, Identifier, parse_chain_id}
use ibc_solo_machine.Env.{Env}
use ibc_solo_machine.Crates.{Crates}
use ibc_solo_machine.Service.Transfer
use ibc_solo_machine.Server.{respond}
use ibc_solo_machine.Server.Ibc.{
  ConnectRequest, MintRequest, BurnRequest, read_transfer, default_memo,
}
use ibc_solo_machine.Server.Ibc
use ibc_solo_machine.Cli.{OutputType, Session, core, lift, ◌>>=◌, continue_shell}
use ibc_solo_machine.Cli.Transfers.{connect, mint, burn, execute}

-- A result that is dropped.
same_session :
    (r : Result Text) (t : Session) → (continue_shell r (λ _. lift (ok tt)) t).1.world ≡ t.world
unfolding lift
same_session (ok a) t = refl
same_session (err e) t = refl
same_session panic t = refl

module _ ⦃env : Env⦄ ⦃crates : Crates⦄ where
  -- A gRPC request whose fields are read does to the world what the command with these values does,
  -- for `connect`, `mint` and `burn`, whatever the format of the output and what was printed before.
  pub requests_match_commands :
      (c : ConnectRequest) (m : MintRequest) (b : BurnRequest) (id mint_id burn_id : ChainId)
      (amount burnt : ℕ) (denom burnt_denom : Identifier) (output : OutputType) (s : Session)
      → parse_chain_id c.chain_id ≡ ok id
      → read_transfer m.chain_id m.amount m.denom ≡ ok (mint_id, amount, denom)
      → read_transfer b.chain_id b.amount b.denom ≡ ok (burn_id, burnt, burnt_denom)
      → ((Ibc.connect c s.world).1
          ≡ (execute
              (connect id (unwrap_or c.memo default_memo) c.request_id c.force)
              output
              s).1.world)
        × ((Ibc.mint m s.world).1
            ≡ (execute
                (mint mint_id amount denom m.receiver_address
                  (unwrap_or m.memo default_memo)
                  m.request_id)
                output
                s).1.world)
        × ((Ibc.burn b s.world).1
            ≡ (execute
                (burn burn_id burnt burnt_denom (unwrap_or b.memo default_memo) b.request_id)
                output
                s).1.world)
  unfolding Ibc.connect Ibc.mint Ibc.burn respond execute core lift ◌>>=◌
  requests_match_commands c m b id mint_id burn_id amount burnt denom burnt_denom output s p q r = (
    rw p refl,
    rw q (sym (same_session (Transfer.mint_tokens _ _ _ _ _ _ s.world).0 _)),
    rw r (sym (same_session (Transfer.burn_tokens _ _ _ _ _ s.world).0 _)),
  )
