-- ===== src/Cli/Registrar.antt =====
-- `HandlerRegistrar` of solo-machine/src/event.rs: the event handlers, in the order in which they
-- are registered, and the task that `spawn` starts. A handler is a function of an event.
use ibc_solo_machine.Base.{List, [], ◌∷◌, ◌++◌, ok}
use ibc_solo_machine.Event.{Event}
use ibc_solo_machine.Cli.{Shell, ◌>>◌, lift}

abbrev pub EventHandler : Type 0
EventHandler = Event → Shell (Unit {0})

-- `register`
unfoldable pub register : EventHandler → List EventHandler → List EventHandler
register handler handlers = handlers ++ handler ∷ []

unfoldable pub handle : List EventHandler → Event → Shell (Unit {0})
handle [] event = lift (ok tt)
handle (handler ∷ handlers) event = handler event >> handle handlers event

-- The task, on the events that are received until the senders are dropped.
unfoldable pub receive : List EventHandler → List Event → Shell (Unit {0})
receive handlers [] = lift (ok tt)
receive handlers (event ∷ events) = handle handlers event >> receive handlers events
