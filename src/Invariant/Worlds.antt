-- ===== src/Invariant/Worlds.antt =====
-- The frame of all code: the constraints of the tables hold on, and the committed database only goes
-- forward.
use ibc_solo_machine.Base.{Option, none, some, ◌≡◌, refl, ◌∷◌, Bool-cases, inl, inr, arith}
use ibc_solo_machine.Event.{statement}
use ibc_solo_machine.Env.{Env}
use ibc_solo_machine.Database.{Database}
use ibc_solo_machine.Exec.{
  World, Executor, pool, transaction, call, begin, commit, select, execute, notify_event,
  write_back,
}
use ibc_solo_machine.Exec.Keeps.{Frame, Keeps}
use ibc_solo_machine.Exec.Frames.{Reading}
use ibc_solo_machine.Store.Frames.{Writing, Detailing, Committing}
use ibc_solo_machine.Invariant.Tables.{WellFormed, Forward, Forward-refl, Forward-trans, Lawful}
use ibc_solo_machine.Invariant.Statements.{
  insert_chain-Lawful, update_details-Lawful, update_returning-Lawful, next_sequence-Later,
  next_packet_sequence-Later, insert_chain_key-Lawful, insert_data-Lawful, update_data-Lawful,
  insert_operation-Lawful, insert_operation-ahead,
}

-- Both databases keep the constraints, and the open transaction is ahead of the committed database.
pub record Valid (w : World) : Type 0 where
  pub stored : WellFormed w.stored
  pub working : WellFormed w.working
  pub ahead : Forward w.stored w.working

abbrev Goes : World → World → Type 0
Goes v w = Valid v → Valid w × Forward v.stored w.stored

abbrev pub lawful : Frame
lawful = record {
  Related = Goes;
  reflexive = λ w k. (k, Forward-refl w.stored);
  transitive = λ u v w p q k.
      let (k₁, f₁) = p k in
      let (k₂, f₂) = q k₁ in (k₂, Forward-trans u.stored v.stored w.stored f₁ f₂);
}

-- The databases are left alone.
same_databases : (v w : World) → w.stored ≡ v.stored → w.working ≡ v.working → Goes v w
same_databases v w p q k = (
  record { stored = rw p k.stored; working = rw q k.working; ahead = rw (p, q) k.ahead },
  rw p (Forward-refl v.stored),
)

module _ ⦃env : Env⦄ {A : Type 0} where
  writes :
      (o : Option (A × Database)) (v w : World)
      → w.stored ≡ v.stored
      → w.working ≡ v.working
      → ((a : A) (e : Database)
          → o ≡ some (a, e)
          → WellFormed v.working
          → WellFormed e × Forward v.working e)
      → Goes v (write_back transaction o w).1
  writes none v w p q l k = same_databases v w p q k
  writes (some (a, e)) v w p q l k =
      let (good, forward) = l a e refl k.working in
      (
        record {
          stored = rw p k.stored;
          working = good;
          ahead = rw p (Forward-trans v.stored v.working e k.ahead forward);
        },
        rw p (Forward-refl v.stored),
      )

  writes_pool :
      (o : Option (A × Database)) (v w : World)
      → w.stored ≡ v.stored
      → w.working ≡ v.working
      → ((a : A) (e : Database)
          → o ≡ some (a, e)
          → WellFormed v.stored
          → WellFormed e × Forward v.stored e)
      → ((a : A) (e c : Database) → o ≡ some (a, e) → Forward v.stored c → Forward e c)
      → Goes v (write_back pool o w).1
  writes_pool none v w p q l h k = same_databases v w p q k
  writes_pool (some (a, e)) v w p q l h k =
      let (good, forward) = l a e refl k.stored in
      (
        record {
          stored = good;
          working = rw q k.working;
          ahead = rw q (h a e v.working refl k.ahead);
        },
        forward,
      )

module _ ⦃env : Env⦄ where
  select-lawful :
      {A : Type 0} (x : Executor) (f : Database → A) (w : World) → Goes w (select x f w).1
  unfolding select
  select-lawful pool f w = same_databases w _ (ground arith) (ground arith)
  select-lawful transaction f w = same_databases w _ (ground arith) (ground arith)

  begin-lawful : Keeps lawful begin
  unfolding begin
  begin-lawful = record {
    at = λ w. elim (Bool-cases (env.begin_ok w.trace)) [
      | inl b ↦ rw b (λ k. (
        record { stored = k.stored; working = k.stored; ahead = Forward-refl w.stored },
        Forward-refl w.stored,
      ))
      | inr b ↦ rw b (same_databases w _ refl refl)
    ];
  }

  commit-lawful : Keeps lawful commit
  unfolding commit
  commit-lawful = record {
    at = λ w. elim (Bool-cases (env.commit_ok w.trace)) [
      | inl b ↦ rw b (λ k. (
        record { stored = k.working; working = k.working; ahead = Forward-refl w.working },
        k.ahead,
      ))
      | inr b ↦ rw b (same_databases w _ refl refl)
    ];
  }

  execute-lawful :
      {A : Type 0} (f : Database → Option (A × Database))
      → Lawful f
      → Keeps lawful (execute transaction f)
  unfolding execute
  execute-lawful f l = record {
    at = λ w. elim (Bool-cases (env.statement_ok w.trace)) [
      | inl b ↦ rw b (
          writes (f w.working) w (record w { trace = statement ∷ w.trace }) refl refl (l w.working))
      | inr b ↦ rw b (same_databases w _ refl refl)
    ];
  }

  execute_pool-lawful :
      {A : Type 0} (f : Database → Option (A × Database))
      → Lawful f
      → ((d : Database) (a : A) (e c : Database) → f d ≡ some (a, e) → Forward d c → Forward e c)
      → Keeps lawful (execute pool f)
  unfolding execute
  execute_pool-lawful f l h = record {
    at = λ w. elim (Bool-cases (env.statement_ok w.trace)) [
      | inl b ↦ rw b (
          writes_pool (f w.stored) w (record w { trace = statement ∷ w.trace }) refl refl
            (l w.stored) (h w.stored))
      | inr b ↦ rw b (same_databases w _ refl refl)
    ];
  }

  instance pub reading_lawful : Reading lawful
  unfolding call select notify_event
  reading_lawful = record {
    calls = λ f a. record { at = λ w. same_databases w _ refl refl };
    selects = λ x f. record { at = λ w. select-lawful x f w };
    notifies = λ e. record { at = λ w. same_databases w _ (ground arith) (ground arith) };
  }

  instance pub writing_lawful : Writing lawful
  writing_lawful = record {
    begins = begin-lawful;
    adds_chain = λ row _. execute-lawful _ (insert_chain-Lawful row);
    completes = λ details current id _. execute-lawful _ (update_details-Lawful details current id);
    advances =
        λ current id. execute-lawful _ (update_returning-Lawful _ id (next_sequence-Later current));
    advances_packet = λ current id.
        execute-lawful _ (update_returning-Lawful _ id (next_packet_sequence-Later current));
    adds_key = λ id key current. execute-lawful _ (insert_chain_key-Lawful id key current);
    adds_data = λ path bytes. execute-lawful _ (insert_data-Lawful path bytes);
    replaces_data = λ path bytes. execute-lawful _ (update_data-Lawful path bytes);
  }

  instance pub detailing_lawful : Detailing lawful
  detailing_lawful = record {
    sets_details =
        λ details current id. execute-lawful _ (update_details-Lawful details current id);
  }

  instance pub committing_lawful : Committing lawful
  committing_lawful = record {
    commits = commit-lawful;
    adds_operation = λ r a d n t h c.
        execute_pool-lawful _ (insert_operation-Lawful r a d n t h c)
          (insert_operation-ahead r a d n t h c);
  }
