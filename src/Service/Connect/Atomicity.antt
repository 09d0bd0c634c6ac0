-- ===== src/Service/Connect/Atomicity.antt =====
-- `connect` and the committed database.
use ibc_solo_machine.Base.{Bool, true, false, Option, Text, ◌≡◌, ◌⊎◌}
use ibc_solo_machine.Identifier.{ChainId}
use ibc_solo_machine.Env.{Env}
use ibc_solo_machine.Exec.{World}
use ibc_solo_machine.Exec.Atomic.{Atomic, Atomic-bind, Atomic-commit, returned}
use ibc_solo_machine.Service.Frames.{step_rules}
use ibc_solo_machine.Service.Connect.{connect}

module _ ⦃env : Env⦄ where
  pub connect-Atomic :
      (chain_id : ChainId) (request_id : Option Text) (memo : Text) (force : Bool)
      → Atomic (connect chain_id request_id memo force)
  unfolding connect
  connect-Atomic chain_id request_id memo force =
      search (Atomic-bind, Atomic-commit, step_rules) depth 60

  -- `connect` either returns, and what its transaction wrote is then the committed database, or it
  -- returns no value and the committed database is the one it started from.
  pub connect_is_atomic :
      (chain_id : ChainId) (request_id : Option Text) (memo : Text) (force : Bool) (w : World)
      → ((returned (connect chain_id request_id memo force w).0 ≡ true)
          × ((connect chain_id request_id memo force w).1.stored
              ≡ (connect chain_id request_id memo force w).1.working))
        ⊎ ((returned (connect chain_id request_id memo force w).0 ≡ false)
            × ((connect chain_id request_id memo force w).1.stored ≡ w.stored))
  connect_is_atomic chain_id request_id memo force w =
      (connect-Atomic chain_id request_id memo force).at w
