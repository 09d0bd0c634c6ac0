-- ===== src/Exec/Runs.antt =====
-- What a run that returns says of its parts, and of the transaction it saw.
use ibc_solo_machine.Base.{
  ◌≡◌, refl, sym, ◌∙◌, ap, ◌∷◌, arith, Bool, true, false, Option, some, none, Text, Result, ok, err,
  panic, Error, Bytes, external,
}
use ibc_solo_machine.Chain.{DateTime}
use ibc_solo_machine.Event.{SignMessage, signed}
use ibc_solo_machine.Env.{Env}
use ibc_solo_machine.Database.{Database}
use ibc_solo_machine.Exec.{
  World, Exec, pool, transaction, continue, ◌>>=◌, pure, lift, or_raise, require, select, execute,
  begin, commit, now, http_client, sign_message, call,
}

-- From `w`, `m` returns `a` and leaves the world `v`.
abbrev pub Runs : {A : Type 0} → Exec A → World → A → World → Type 0
Runs m w a v = m w ≡ (ok a, v)

module _ {A B : Type 0} where
  continue-Runs :
      (r : Result A) (f : A → Exec B) (u : World) (b : B) (v : World)
      → continue r f u ≡ (ok b, v)
      → (a : A) × (r ≡ ok a) × (f a u ≡ (ok b, v))
  continue-Runs (ok a) f u b v e = (a, refl, e)
  continue-Runs (err x) f u b v e = ground (arith, e)
  continue-Runs panic f u b v e = ground (arith, e)

  pub bind-Runs :
      (m : Exec A) (f : A → Exec B) (w : World) (b : B) (v : World)
      → Runs (m >>= f) w b v
      → (a : A) × (u : World) × Runs m w a u × Runs (f a) u b v
  unfolding ◌>>=◌
  bind-Runs m f w b v e =
      let (a, p, q) = continue-Runs (m w).0 f (m w).1 b v e in
      (a, (m w).1, ap (λ r. (r, (m w).1)) p, q)

  -- A run of the first part, followed by the second.
  pub Runs-bind :
      (m : Exec A) (f : A → Exec B) (w : World) (a : A) (u : World)
      → Runs m w a u
      → (m >>= f) w ≡ f a u
  unfolding ◌>>=◌
  Runs-bind m f w a u e = ap (λ r. continue r.0 f r.1) e

  pub lift_err-bind :
      (r : Result A) (f : A → Exec B) (x : Error) (w : World)
      → r ≡ err x
      → (lift r >>= f) w ≡ (err x, w)
  unfolding ◌>>=◌
  lift_err-bind r f x w e = ap (λ r. continue r f w) e

module _ {A : Type 0} where
  pub lift-Runs :
      (r : Result A) (w : World) (a : A) (v : World) → Runs (lift r) w a v → (r ≡ ok a) × (w ≡ v)
  unfolding lift
  lift-Runs r w a v e = (ap (λ x. x.0) e, ap (λ x. x.1) e)

  pub pure-Runs : (b : A) (w : World) (a : A) (v : World) → Runs (pure b) w a v → (b ≡ a) × (w ≡ v)
  unfolding pure
  pure-Runs b w a v e = ground (arith, e)

  pub or_raise-Runs :
      (o : Option A) (x : Error) (w : World) (a : A) (v : World)
      → Runs (or_raise o x) w a v
      → (o ≡ some a) × (w ≡ v)
  unfolding or_raise
  or_raise-Runs none x w a v e = ground (arith, e)
  or_raise-Runs (some b) x w a v e = ground (arith, e)

pub require-Runs :
    (b : Bool) (x : Error) (w : World) (a : Unit {0}) (v : World)
    → Runs (require b x) w a v
    → (b ≡ true) × (w ≡ v)
unfolding require
require-Runs true x w a v e = (refl, ap (λ r. r.1) e)
require-Runs false x w a v e = ground (arith, e)

module _ ⦃env : Env⦄ where
  pub http_client-Runs :
      (rpc_addr : Text) (w : World) (a : Unit {0}) (v : World)
      → Runs (http_client rpc_addr) w a v
      → w ≡ v
  unfolding http_client
  http_client-Runs rpc_addr w a v e = (require-Runs _ _ w a v e).1

  pub now-Runs : (w : World) (a : DateTime) (v : World) → Runs now w a v → w ≡ v
  unfolding now
  now-Runs w a v e = ap (λ r. r.1) e

  pub begin-Runs : (w : World) (a : Unit {0}) (v : World) → Runs begin w a v → v.working ≡ w.stored
  unfolding begin
  begin-Runs w a v e = ground (arith, e)

  pub commit-Runs :
      (w : World) (a : Unit {0}) (v : World) → Runs commit w a v → v.stored ≡ w.working
  unfolding commit
  commit-Runs w a v e = ground (arith, e)

  -- A signature is one call that leaves the program.
  pub sign_message-Runs :
      (request_id : Option Text) (message : SignMessage) (w : World) (a : Bytes) (v : World)
      → Runs (sign_message request_id message) w a v
      → v ≡ record w { trace = signed request_id message ∷ w.trace }
  unfolding sign_message call
  sign_message-Runs request_id message w a v e =
      let (signature, u, p, q) = bind-Runs _ _ w a v e in
      let r = or_raise-Runs signature external u a v q in sym r.1 ∙ ap (λ x. x.1) (sym p)

  pub select-Runs :
      {A : Type 0} (f : Database → A) (w : World) (a : A) (v : World)
      → Runs (select transaction f) w a v
      → (f w.working ≡ a) × (v.working ≡ w.working)
  unfolding select
  select-Runs f w a v e = ground (arith, e)

  pub select_pool-Runs :
      {A : Type 0} (f : Database → A) (w : World) (a : A) (v : World)
      → Runs (select pool f) w a v
      → f w.stored ≡ a
  unfolding select
  select_pool-Runs f w a v e = ground (arith, e)

  pub execute-Runs :
      {A : Type 0} (f : Database → Option (A × Database)) (w : World) (a : A) (v : World)
      → Runs (execute transaction f) w a v
      → (f w.working ≡ some (a, v.working))
  unfolding execute
  execute-Runs f w a v e = ground (arith, e)

pub some_pair :
    {A B : Type 0} {a c : A} {b d : B}
    → ◌≡◌ {A = Option (A × B)} (some (a, b)) (some (c, d))
    → (a ≡ c) × (b ≡ d)
some_pair e = (cc, cc)
