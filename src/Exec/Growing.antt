-- ===== src/Exec/Growing.antt =====
-- The frame of all code: the calls made so far stay, and later calls are put in front of them.
use ibc_solo_machine.Base.{
  Option, [], ◌∷◌, ◌++◌, append_assoc, ◌≡◌, refl, sym, ap, ◌∙◌, arith, Bool, true, false,
  if◌then◌else◌,
}
use ibc_solo_machine.Event.{Event, Action, began, committed, statement, notified}
use ibc_solo_machine.Env.{Env, Trace}
use ibc_solo_machine.Database.{Database}
use ibc_solo_machine.Exec.{
  World, Executor, pool, transaction, call, begin, commit, select, execute, notify_event,
}
use ibc_solo_machine.Exec.Keeps.{Frame, Keeps}

-- `later` are the calls of `w` that `v` does not have.
pub record Grows (v w : World) : Type 0 where
  pub later : Trace
  pub extends : w.trace ≡ later ++ v.trace

abbrev pub growing : Frame
growing = record {
  Related = Grows;
  reflexive = λ w. record { later = []; extends = refl };
  transitive = λ u v w p q. record {
    later = q.later ++ p.later;
    extends =
        q.extends ∙ (ap (λ t. q.later ++ t) p.extends ∙ sym (append_assoc q.later p.later u.trace));
  };
}

one_call : (a : Action) (v w : World) → w.trace ≡ a ∷ v.trace → Grows v w
one_call a v w e = record { later = a ∷ []; extends = e }

module _ ⦃env : Env⦄ where
  pub call-growing : {A : Type 0} (f : Trace → A) (a : Action) → Keeps growing (call f a)
  unfolding call
  call-growing f a = record { at = λ w. one_call a w _ refl }

  pub begin-growing : Keeps growing begin
  unfolding begin
  begin-growing = record { at = λ w. one_call began w _ (ground arith) }

  pub commit-growing : Keeps growing commit
  unfolding commit
  commit-growing = record { at = λ w. one_call committed w _ (ground arith) }

  pub select-growing : {A : Type 0} (x : Executor) (f : Database → A) → Keeps growing (select x f)
  unfolding select
  select-growing pool f = record { at = λ w. one_call statement w _ (ground arith) }
  select-growing transaction f = record { at = λ w. one_call statement w _ (ground arith) }

  pub execute-growing :
      {A : Type 0} (x : Executor) (f : Database → Option (A × Database))
      → Keeps growing (execute x f)
  unfolding execute
  execute-growing pool f = record { at = λ w. one_call statement w _ (ground arith) }
  execute-growing transaction f = record { at = λ w. one_call statement w _ (ground arith) }

  notified-growing :
      (has : Bool) (e : Event) (w v : World)
      → v.trace ≡ (if has then notified e ∷ w.trace else w.trace)
      → Grows w v
  notified-growing true e w v p = one_call (notified e) w v p
  notified-growing false e w v p = record { later = []; extends = p }

  pub notify_event-growing : (e : Event) → Keeps growing (notify_event e)
  unfolding notify_event
  notify_event-growing e = record {
    at = λ w. notified-growing env.has_notifier e w _ (ground arith);
  }
