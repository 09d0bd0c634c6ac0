-- ===== src/Exec/Reading.antt =====
-- The frame of code that only reads: the open transaction is left alone.
use ibc_solo_machine.Base.{◌≡◌, refl, ◌∙◌, arith}
use ibc_solo_machine.Event.{Event, Action}
use ibc_solo_machine.Env.{Env, Trace}
use ibc_solo_machine.Database.{Database}
use ibc_solo_machine.Exec.{Executor, pool, transaction, call, select, notify_event}
use ibc_solo_machine.Exec.Keeps.{Frame, Keeps}

abbrev pub same_working : Frame
same_working = record {
  Related = λ v w. w.working ≡ v.working;
  reflexive = λ w. refl;
  transitive = λ u v w p q. q ∙ p;
}

module _ ⦃env : Env⦄ where
  pub call-same_working : {A : Type 0} (f : Trace → A) (a : Action) → Keeps same_working (call f a)
  unfolding call
  call-same_working f a = record { at = λ w. refl }

  pub select-same_working :
      {A : Type 0} (x : Executor) (f : Database → A) → Keeps same_working (select x f)
  unfolding select
  select-same_working pool f = record { at = λ w. ground arith }
  select-same_working transaction f = record { at = λ w. ground arith }

  pub notify_event-same_working : (e : Event) → Keeps same_working (notify_event e)
  unfolding notify_event
  notify_event-same_working e = record { at = λ w. ground arith }
