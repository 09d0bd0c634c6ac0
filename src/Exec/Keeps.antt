-- ===== src/Exec/Keeps.antt =====
-- Relations between the world before and after, one rule for each way to build code.
use ibc_solo_machine.Base.{
  Bool, true, false, Option, some, none, ◌≡◌, refl, ◌∙◌, arith, Result, ok, err, panic, Error,
  if◌then◌else◌, Text,
}
use ibc_solo_machine.Event.{Event, Action}
use ibc_solo_machine.Env.{Env, Trace}
use ibc_solo_machine.Database.{Database}
use ibc_solo_machine.Exec.{
  World, Exec, Executor, pool, transaction, pure, raise, lift, or_raise, require, continue, ◌>>=◌,
  call, begin, select, execute, now, notify_event, http_client,
}

-- A reflexive and transitive relation between worlds.
pub record Frame : Type 1 where
  pub Related : World → World → Type 0
  pub reflexive : (w : World) → Related w w
  pub transitive : (u v w : World) → Related u v → Related v w → Related u w

-- `m` relates its two worlds, whether it returns, raises or panics.
pub record Keeps (F : Frame) {A : Type 0} (m : Exec A) : Type 0 where
  pub at : (w : World) → F.Related w (m w).1

module _ {F : Frame} {A : Type 0} where
  pub Keeps-pure : (a : A) → Keeps F (pure a)
  unfolding pure
  Keeps-pure a = record { at = λ w. F.reflexive w }

  pub Keeps-raise : (e : Error) → Keeps F (raise {A = A} e)
  unfolding raise
  Keeps-raise e = record { at = λ w. F.reflexive w }

  pub Keeps-lift : (r : Result A) → Keeps F (lift r)
  unfolding lift
  Keeps-lift r = record { at = λ w. F.reflexive w }

  pub Keeps-or_raise : (o : Option A) (e : Error) → Keeps F (or_raise o e)
  unfolding or_raise
  Keeps-or_raise none e = record { at = λ w. F.reflexive w }
  Keeps-or_raise (some a) e = record { at = λ w. F.reflexive w }

  pub Keeps-if : (b : Bool) (m n : Exec A) → Keeps F m → Keeps F n → Keeps F (if b then m else n)
  Keeps-if true m n km kn = km
  Keeps-if false m n km kn = kn

pub Keeps-require : {F : Frame} (b : Bool) (e : Error) → Keeps F (require b e)
unfolding require
Keeps-require {F} true e = record { at = λ w. F.reflexive w }
Keeps-require {F} false e = record { at = λ w. F.reflexive w }

pub Keeps-http_client : {F : Frame} ⦃env : Env⦄ (rpc_addr : Text) → Keeps F (http_client rpc_addr)
unfolding http_client
Keeps-http_client rpc_addr = Keeps-require _ _

pub Keeps-now : {F : Frame} ⦃env : Env⦄ → Keeps F now
unfolding now
Keeps-now {F} = record { at = λ w. F.reflexive w }

module _ {F : Frame} {A B : Type 0} where
  Keeps-continue :
      (r : Result A) (f : A → Exec B) (w : World)
      → ((a : A) → Keeps F (f a))
      → F.Related w (continue r f w).1
  Keeps-continue (ok a) f w k = (k a).at w
  Keeps-continue (err e) f w k = F.reflexive w
  Keeps-continue panic f w k = F.reflexive w

  pub Keeps-bind :
      (m : Exec A) (f : A → Exec B) → Keeps F m → ((a : A) → Keeps F (f a)) → Keeps F (m >>= f)
  unfolding ◌>>=◌
  Keeps-bind m f km kf = record {
    at = λ w. F.transitive w (m w).1 _ (km.at w) (Keeps-continue (m w).0 f (m w).1 kf);
  }

pub ruleset keeps_rules = (
  Keeps-pure, Keeps-raise, Keeps-lift, Keeps-or_raise, Keeps-if, Keeps-require, Keeps-http_client,
  Keeps-now, Keeps-bind,
)

-- The committed database is left alone.
abbrev pub same_stored : Frame
same_stored = record {
  Related = λ v w. w.stored ≡ v.stored;
  reflexive = λ w. refl;
  transitive = λ u v w p q. q ∙ p;
}

module _ ⦃env : Env⦄ where
  pub call-same_stored : {A : Type 0} (f : Trace → A) (a : Action) → Keeps same_stored (call f a)
  unfolding call
  call-same_stored f a = record { at = λ w. refl }

  pub begin-same_stored : Keeps same_stored begin
  unfolding begin
  begin-same_stored = record { at = λ w. ground arith }

  pub select-same_stored :
      {A : Type 0} (x : Executor) (f : Database → A) → Keeps same_stored (select x f)
  unfolding select
  select-same_stored pool f = record { at = λ w. ground arith }
  select-same_stored transaction f = record { at = λ w. ground arith }

  pub execute-same_stored :
      {A : Type 0} (f : Database → Option (A × Database))
      → Keeps same_stored (execute transaction f)
  unfolding execute
  execute-same_stored f = record { at = λ w. ground arith }

  pub notify_event-same_stored : (e : Event) → Keeps same_stored (notify_event e)
  unfolding notify_event
  notify_event-same_stored e = record { at = λ w. ground arith }
