-- ===== src/Exec.antt =====
-- Code that runs against the world: it reads and writes the database, makes calls that leave the
-- program, and returns a result. What was written before an error stays written in the world; a
-- transaction that is not committed is dropped, since the next `begin` starts from the committed
-- database.
pub mod Keeps
pub mod Atomic
pub mod Frames
pub mod Runs
pub mod Reading
pub mod Growing
use ibc_solo_machine.Base.{
  ℕ, ◌+◌, Bool, true, false, Text, Bytes, List, [], ◌∷◌, Option, none, some, ◌≡◌, refl, Result, ok,
  err, panic, Error, external, notifier_closed, if◌then◌else◌,
}
use ibc_solo_machine.Event.{
  Event, SignMessage, Action, began, committed, statement, signed, broadcasted, queried, notified,
  sampled,
}
use ibc_solo_machine.Env.{Env, Trace, TxCommitResponse}
use ibc_solo_machine.Database.{Database}
use ibc_solo_machine.Chain.{DateTime}

-- `stored` is the committed database, `working` the one that the open transaction sees.
pub record World : Type 0 where
  pub stored : Database
  pub working : Database
  pub trace : Trace

abbrev pub Exec {ℓ} : Type ℓ → Type ℓ
Exec A = World → Result A × World

-- The argument `executor` of the model functions: the pool, or the open transaction.
pub data Executor : Type 0 where
  pool transaction : Executor

module _ {ℓ} {A : Type ℓ} where
  unfoldable pub pure : A → Exec A
  pure a w = (ok a, w)

  unfoldable pub raise : Error → Exec A
  raise e w = (err e, w)

  unfoldable pub lift : Result A → Exec A
  lift r w = (r, w)

  unfoldable pub or_raise : Option A → Error → Exec A
  or_raise none e w = (err e, w)
  or_raise (some a) e w = (ok a, w)

unfoldable pub require : Bool → Error → Exec (Unit {0})
require true e w = (ok tt, w)
require false e w = (err e, w)

module _ {ℓ κ} {A : Type ℓ} {B : Type κ} where
  abbrev pub continue : Result A → (A → Exec B) → World → Result B × World
  continue (ok a) f w = f a w
  continue (err e) f w = (err e, w)
  continue panic f w = (panic, w)

  infixl 5 ◌>>=◌
  -- Opening this opens `pure`, `raise`, `lift`, `or_raise` and `require` too.
  unfoldable pub ◌>>=◌ : Exec A → (A → Exec B) → Exec B
  unfolding pure raise lift or_raise require
  ◌>>=◌ m f w = continue (m w).0 f (m w).1

infixl 5 ◌>>◌
abbrev pub ◌>>◌ {κ} : {B : Type κ} → Exec (Unit {0}) → Exec B → Exec B
m >> n = m >>= λ _. n

module _ ⦃env : Env⦄ where
  -- A call that leaves the program: its answer depends on the calls before it.
  unfoldable pub call {ℓ} : {A : Type ℓ} → (Trace → A) → Action → Exec A
  call f a w = (ok (f w.trace), record w { trace = a ∷ w.trace })

  unfoldable pub begin : Exec (Unit {0})
  begin w =
      if env.begin_ok w.trace
      then (ok tt, record w { working = w.stored; trace = began ∷ w.trace })
      else (err external, record w { trace = began ∷ w.trace })

  unfoldable pub commit : Exec (Unit {0})
  commit w =
      if env.commit_ok w.trace
      then (ok tt, record w { stored = w.working; trace = committed ∷ w.trace })
      else (err external, record w { trace = committed ∷ w.trace })

  -- A statement that reads.
  unfoldable pub select {ℓ} : {A : Type ℓ} → Executor → (Database → A) → Exec A
  select pool f w =
      if env.statement_ok w.trace
      then (ok (f w.stored), record w { trace = statement ∷ w.trace })
      else (err external, record w { trace = statement ∷ w.trace })
  select transaction f w =
      if env.statement_ok w.trace
      then (ok (f w.working), record w { trace = statement ∷ w.trace })
      else (err external, record w { trace = statement ∷ w.trace })

  -- The end of a statement that writes; `none` is a violated constraint.
  abbrev pub write_back {ℓ} :
      {A : Type ℓ} → Executor → Option (A × Database) → World → Result A × World
  write_back executor none w = (err external, w)
  write_back pool (some (a, d)) w = (ok a, record w { stored = d })
  write_back transaction (some (a, d)) w = (ok a, record w { working = d })

  unfoldable pub execute {ℓ} : {A : Type ℓ} → Executor → (Database → Option (A × Database)) → Exec A
  execute pool f w =
      if env.statement_ok w.trace
      then write_back pool (f w.stored) (record w { trace = statement ∷ w.trace })
      else (err external, record w { trace = statement ∷ w.trace })
  execute transaction f w =
      if env.statement_ok w.trace
      then write_back transaction (f w.working) (record w { trace = statement ∷ w.trace })
      else (err external, record w { trace = statement ∷ w.trace })

  -- `Utc::now`
  unfoldable pub now : Exec DateTime
  now w = (ok (env.now w.trace), w)

  -- `notify_event` of solo-machine-core/src/event.rs.
  unfoldable pub notify_event : Event → Exec (Unit {0})
  notify_event event w =
      if env.has_notifier
      then (
        if env.notify_ok w.trace event then ok tt else err notifier_closed,
        record w { trace = notified event ∷ w.trace },
      )
      else (ok tt, w)

  -- `signer.sign(request_id, message)`
  unfoldable pub sign_message : Option Text → SignMessage → Exec Bytes
  sign_message request_id message = do
    signature ← call (λ t. env.sign t request_id message) (signed request_id message)
    or_raise signature external

  -- `rpc_client.broadcast_tx_commit(bytes)`
  unfoldable pub broadcast_tx_commit : Bytes → Exec TxCommitResponse
  broadcast_tx_commit bytes = do
    response ← call (λ t. env.broadcast t bytes) (broadcasted bytes)
    or_raise response external

  -- `HttpClient::new(rpc_addr)`
  unfoldable pub http_client : Text → Exec (Unit {0})
  http_client rpc_addr = require (env.http_client_ok rpc_addr) external

  -- `signer.to_account_address()` and `signer.to_public_key()`
  abbrev pub to_account_address : Exec Text
  to_account_address = or_raise env.account_address external
