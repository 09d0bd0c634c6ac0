-- ===== src/Exec/Frames.antt =====
-- Frames that code which only reads keeps, and the rules for it.
use ibc_solo_machine.Base.{Option, Text, Bytes}
use ibc_solo_machine.Event.{Event, SignMessage, Action}
use ibc_solo_machine.Env.{Env, Trace}
use ibc_solo_machine.Database.{Database}
use ibc_solo_machine.Exec.{Executor, call, select, notify_event, sign_message, broadcast_tx_commit}
use ibc_solo_machine.Exec.Keeps.{
  Frame, Keeps, keeps_rules, same_stored, call-same_stored, select-same_stored,
  notify_event-same_stored,
}
use ibc_solo_machine.Exec.Reading.{
  same_working, call-same_working, select-same_working, notify_event-same_working,
}
use ibc_solo_machine.Exec.Growing.{growing, call-growing, select-growing, notify_event-growing}

module _ ⦃env : Env⦄ where
  -- A frame that is kept by each call that does not write.
  pub record Reading (F : Frame) : Type 1 where
    pub calls : {A : Type 0} (f : Trace → A) (a : Action) → Keeps F (call f a)
    pub selects : {A : Type 0} (x : Executor) (f : Database → A) → Keeps F (select x f)
    pub notifies : (e : Event) → Keeps F (notify_event e)

  module _ {F : Frame} ⦃reading : Reading F⦄ where
    pub call-Keeps : {A : Type 0} (f : Trace → A) (a : Action) → Keeps F (call f a)
    call-Keeps = reading.calls

    pub select-Keeps : {A : Type 0} (x : Executor) (f : Database → A) → Keeps F (select x f)
    select-Keeps = reading.selects

    pub notify_event-Keeps : (e : Event) → Keeps F (notify_event e)
    notify_event-Keeps = reading.notifies

    pub sign_message-Keeps : (r : Option Text) (m : SignMessage) → Keeps F (sign_message r m)
    unfolding sign_message
    sign_message-Keeps r m = search (keeps_rules, call-Keeps)

    pub broadcast-Keeps : (bytes : Bytes) → Keeps F (broadcast_tx_commit bytes)
    unfolding broadcast_tx_commit
    broadcast-Keeps bytes = search (keeps_rules, call-Keeps)

  instance abbrev pub reading_stored : Reading same_stored
  reading_stored = record {
    calls = call-same_stored;
    selects = select-same_stored;
    notifies = notify_event-same_stored;
  }

  instance abbrev pub reading_working : Reading same_working
  reading_working = record {
    calls = call-same_working;
    selects = select-same_working;
    notifies = notify_event-same_working;
  }

  instance abbrev pub reading_growing : Reading growing
  reading_growing = record {
    calls = call-growing;
    selects = select-growing;
    notifies = notify_event-growing;
  }

pub ruleset reading_rules = (
  keeps_rules, call-Keeps, select-Keeps, notify_event-Keeps, sign_message-Keeps, broadcast-Keeps,
  reading_stored, reading_working, reading_growing,
)
