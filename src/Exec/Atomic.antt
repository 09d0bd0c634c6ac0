-- ===== src/Exec/Atomic.antt =====
-- Code that either commits and returns, or leaves the committed database alone.
use ibc_solo_machine.Base.{
  ◌≡◌, refl, ap, ◌∙◌, ◌⊎◌, inl, inr, arith, Bool, true, false, Result, ok, err, panic,
}
use ibc_solo_machine.Env.{Env}
use ibc_solo_machine.Exec.{World, Exec, continue, ◌>>=◌, commit}
use ibc_solo_machine.Exec.Runs.{Runs}
use ibc_solo_machine.Exec.Keeps.{Keeps, same_stored}

module _ {A : Type 0} where
  -- The result is a value.
  abbrev pub returned : Result A → Bool
  returned (ok a) = true
  returned (err e) = false
  returned panic = false

-- From `w`, either `m` returns and the transaction it saw is the committed database, or it does not
-- return and the committed database is the one of `w`.
pub record Atomic {A : Type 0} (m : Exec A) : Type 0 where
  pub at :
      (w : World)
      → ((returned (m w).0 ≡ true) × ((m w).1.stored ≡ (m w).1.working))
        ⊎ ((returned (m w).0 ≡ false) × ((m w).1.stored ≡ w.stored))

module _ {A B : Type 0} where
  Atomic-continue :
      (r : Result A) (f : A → Exec B) (v w : World)
      → w.stored ≡ v.stored
      → ((a : A) → Atomic (f a))
      → ((returned (continue r f w).0 ≡ true)
          × ((continue r f w).1.stored ≡ (continue r f w).1.working))
        ⊎ ((returned (continue r f w).0 ≡ false) × ((continue r f w).1.stored ≡ v.stored))
  Atomic-continue (ok a) f v w p k = elim ((k a).at w) [
    | inl q ↦ inl q
    | inr q ↦ inr (q.0, q.1 ∙ p)
  ]
  Atomic-continue (err e) f v w p k = inr (refl, p)
  Atomic-continue panic f v w p k = inr (refl, p)

  -- Code that leaves the committed database alone, before code that is atomic.
  pub Atomic-bind :
      (m : Exec A) (f : A → Exec B)
      → Keeps same_stored m
      → ((a : A) → Atomic (f a))
      → Atomic (m >>= f)
  unfolding ◌>>=◌
  Atomic-bind m f km kf = record { at = λ w. Atomic-continue (m w).0 f w (m w).1 (km.at w) kf }

pub Atomic-commit : ⦃env : Env⦄ → Atomic commit
unfolding commit
Atomic-commit ⦃env⦄ = record { at = λ w. ground arith }

module _ {A : Type 0} where
  returned-value : (r : Result A) → returned r ≡ true → (a : A) × (r ≡ ok a)
  returned-value (ok a) e = (a, refl)
  returned-value (err x) e = ground (arith, e)
  returned-value panic e = ground (arith, e)

  -- Atomic code that does not return.
  pub Atomic-never :
      (m : Exec A) (w : World)
      → Atomic m
      → ((a : A) (v : World) → ¬ Runs m w a v)
      → (returned (m w).0 ≡ false) × ((m w).1.stored ≡ w.stored)
  Atomic-never m w k never = elim (k.at w) [
    | inl p ↦
        let (a, q) = returned-value (m w).0 p.0 in
        absurd (never a (m w).1 (ap (λ r. (r, (m w).1)) q))
    | inr p ↦ p
  ]
