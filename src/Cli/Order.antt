-- ===== src/Cli/Order.antt =====
-- The order in which the event handlers run, and their errors.
use ibc_solo_machine.Base.{
  List, [], ◌∷◌, ◌++◌, ◌≡◌, refl, ap, ◌∙◌, Result, ok, err, panic, Error, arith,
}
use ibc_solo_machine.Event.{Event}
use ibc_solo_machine.Cli.{Session, Shell, ◌>>=◌, lift, continue_shell}
use ibc_solo_machine.Cli.Registrar.{EventHandler, handle, receive}

-- Code that fails after code that returns.
fails_after :
    {A B : Type 0} (m : Shell A) (f : A → Shell B) (s u : Session) (a : A) (r : Result B × Session)
    → m s ≡ (ok a, u)
    → f a u ≡ r
    → (m >>= f) s ≡ r
unfolding ◌>>=◌
fails_after m f s u a r p q = rw p q

fails_at :
    {A B : Type 0} (m : Shell A) (f : A → Shell B) (s v : Session) (e : Error)
    → m s ≡ (err e, v)
    → (m >>= f) s ≡ (err e, v)
unfolding ◌>>=◌
fails_at m f s v e p = rw p refl

-- A handler that returns is taken off the front.
runs_first :
    (h : EventHandler) (hs : List EventHandler) (event : Event) (s u : Session)
    → handle (h ∷ hs) event s ≡ (ok tt, u)
    → (t : Session) × (h event s ≡ (ok tt, t)) × (handle hs event t ≡ (ok tt, u))
unfolding handle ◌>>=◌
runs_first h hs event s u e = after (h event s) refl e
  where
    after :
        (r : Result (Unit {0}) × Session)
        → h event s ≡ r
        → continue_shell r.0 (λ _. handle hs event) r.1 ≡ (ok tt, u)
        → (t : Session) × (h event s ≡ (ok tt, t)) × (handle hs event t ≡ (ok tt, u))
    after (ok a, t) p q = (t, p, q)
    after (err x, t) p q = ground (arith, q)
    after (panic, t) p q = ground (arith, q)

-- Where the handlers in front handle an event and the next one then returns an error, the registrar
-- returns this error: the handlers behind it are not run on the event, and the task that receives
-- events ends with it, before the later events.
pub handle_stops :
    (before after : List EventHandler) (h : EventHandler) (event : Event) (events : List Event)
    (s u v : Session) (e : Error)
    → handle before event s ≡ (ok tt, u)
    → h event u ≡ (err e, v)
    → (handle (before ++ h ∷ after) event s ≡ (err e, v))
      × (receive (before ++ h ∷ after) (event ∷ events) s ≡ (err e, v))
unfolding receive handle lift
handle_stops before after h event events s u v e p q =
    let stops = go before s p in
    (stops, fails_at (handle (before ++ h ∷ after) event) _ s v e stops)
  where
    go :
        (hs : List EventHandler) (t : Session)
        → handle hs event t ≡ (ok tt, u)
        → handle (hs ++ h ∷ after) event t ≡ (err e, v)
    go [] t p = fails_at (h event) _ t v e (ap (h event) (ap (λ x. x.1) p) ∙ q)
    go (g ∷ gs) t p =
        let (t', e₁, e₂) = runs_first g gs event t u p in
        fails_after (g event) _ t t' tt (err e, v) e₁ (go gs t' e₂)
