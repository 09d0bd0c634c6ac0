-- ===== src/Server/Rejection.antt =====
-- What a status of the gRPC server says of the database.
use ibc_solo_machine.Base.{Bool, true, false, ◌≡◌, refl, ◌⊎◌, inr, Result, ok, err, panic}
use ibc_solo_machine.Identifier.{parse_chain_id}
use ibc_solo_machine.Env.{Env}
use ibc_solo_machine.Crates.{Crates}
use ibc_solo_machine.Exec.{World, Exec}
use ibc_solo_machine.Exec.Atomic.{Atomic, returned}
use ibc_solo_machine.Service.Connect.Atomicity.{connect-Atomic}
use ibc_solo_machine.Server.{Reply, response, refused, crashed, or_internal, respond}
use ibc_solo_machine.Server.Ibc.{ConnectRequest, connect}

module _ {A : Type 0} where
  -- The request is answered by a response.
  abbrev pub answered : Reply A → Bool
  answered (response a) = true
  answered (refused s) = false
  answered crashed = false

  answered-or_internal : (r : Result A) → answered (or_internal r) ≡ returned r
  answered-or_internal (ok a) = refl
  answered-or_internal (err e) = refl
  answered-or_internal panic = refl

module _ {A B : Type 0} where
  respond-Atomic :
      (r : Result A) (service : A → Exec B) (w : World)
      → ((a : A) → Atomic (service a))
      → ((answered (respond r service w).0 ≡ true)
          × ((respond r service w).1.stored ≡ (respond r service w).1.working))
        ⊎ ((answered (respond r service w).0 ≡ false) × ((respond r service w).1.stored ≡ w.stored))
  unfolding respond
  respond-Atomic (ok a) service w k = rw (answered-or_internal (service a w).0) ((k a).at w)
  respond-Atomic (err e) service w k = inr (refl, refl)
  respond-Atomic panic service w k = inr (refl, refl)

module _ ⦃env : Env⦄ ⦃crates : Crates⦄ where
  -- The gRPC `connect` answers with a response where what it wrote is the committed database, and
  -- with a status, or by a panic, where the committed database is the one from before the request.
  pub connect_answers :
      (request : ConnectRequest) (w : World)
      → ((answered (connect request w).0 ≡ true)
          × ((connect request w).1.stored ≡ (connect request w).1.working))
        ⊎ ((answered (connect request w).0 ≡ false) × ((connect request w).1.stored ≡ w.stored))
  unfolding connect
  connect_answers request w =
      respond-Atomic (parse_chain_id request.chain_id) _ w (λ id. connect-Atomic id _ _ _)
