-- ===== src/Invariant/Channels.antt =====
-- Histories, and the connection details of the committed chains.
use ibc_solo_machine.Base.{
  Bool, true, false, Option, none, some, Text, ◌≡◌, refl, sym, ap, ◌∙◌, subst, arith,
  some-injective, Bool-cases, inl, inr, if◌then◌else◌,
}
use ibc_solo_machine.Chain.{RawChain}
use ibc_solo_machine.Database.{Database, empty}
use ibc_solo_machine.Store.Query.{find_row}
use ibc_solo_machine.Store.Chains.{
  row_id, insert_chain, set_details, next_sequence, next_packet_sequence, update_returning,
}
use ibc_solo_machine.Store.ChainKeys.{insert_chain_key}
use ibc_solo_machine.Store.IbcData.{insert_data}
use ibc_solo_machine.Store.Operations.{insert_operation}
use ibc_solo_machine.Env.{Env}
use ibc_solo_machine.Exec.{
  World, Executor, pool, transaction, call, begin, commit, select, execute, notify_event,
  write_back,
}
use ibc_solo_machine.Exec.Keeps.{Frame, Keeps}
use ibc_solo_machine.Exec.Frames.{Reading}
use ibc_solo_machine.Store.Frames.{HasChannels, Writing, Committing}
use ibc_solo_machine.Service.Close.Never.{close_channel_never_returns}
use ibc_solo_machine.Invariant.History.{History, History-Related}
use ibc_solo_machine.Invariant.Details.{Complete, Complete-empty, Complete-insert, Complete-update}

-- Both databases are complete.
abbrev pub Sound : World → Type 0
Sound w = Complete w.stored × Complete w.working

abbrev pub complete : Frame
complete = record {
  Related = λ v w. Sound v → Sound w;
  reflexive = λ w k. k;
  transitive = λ u v w p q k. q (p k);
}

same_databases : (v w : World) → w.stored ≡ v.stored → w.working ≡ v.working → Sound v → Sound w
same_databases v w p q k = (subst Complete (sym p) k.0, subst Complete (sym q) k.1)

module _ ⦃env : Env⦄ {A : Type 0} where
  writes :
      (o : Option (A × Database)) (w : World)
      → ((a : A) (e : Database) → o ≡ some (a, e) → Complete e)
      → Sound w
      → Sound (write_back transaction o w).1
  writes none w l k = k
  writes (some (a, e)) w l k = (k.0, l a e refl)

  writes_pool :
      (o : Option (A × Database)) (w : World)
      → ((a : A) (e : Database) → o ≡ some (a, e) → Complete e)
      → Sound w
      → Sound (write_back pool o w).1
  writes_pool none w l k = k
  writes_pool (some (a, e)) w l k = (l a e refl, k.1)

  execute-complete :
      (f : Database → Option (A × Database))
      → ((d : Database) (a : A) (e : Database) → f d ≡ some (a, e) → Complete d → Complete e)
      → Keeps complete (execute transaction f)
  unfolding execute
  execute-complete f l = record {
    at = λ w. elim (Bool-cases (env.statement_ok w.trace)) [
      | inl b ↦ rw b (λ k. writes (f w.working) _ (λ a e p. l w.working a e p k.1) k)
      | inr b ↦ rw b (λ k. k)
    ];
  }

  execute_pool-complete :
      (f : Database → Option (A × Database))
      → ((d : Database) (a : A) (e : Database) → f d ≡ some (a, e) → Complete d → Complete e)
      → Keeps complete (execute pool f)
  unfolding execute
  execute_pool-complete f l = record {
    at = λ w. elim (Bool-cases (env.statement_ok w.trace)) [
      | inl b ↦ rw b (λ k. writes_pool (f w.stored) _ (λ a e p. l w.stored a e p k.0) k)
      | inr b ↦ rw b (λ k. k)
    ];
  }

  select-complete : (x : Executor) (f : Database → A) → Keeps complete (select x f)
  unfolding select
  select-complete pool f = record {
    at = λ w. same_databases w (select pool f w).1 (ground arith) (ground arith);
  }
  select-complete transaction f = record {
    at = λ w. same_databases w (select transaction f w).1 (ground arith) (ground arith);
  }

-- A statement that inserts, where it succeeds.
inserted : {X : Type 0} (b : Bool) (x y : X) → (if b then none else some x) ≡ some y → x ≡ y
inserted true x y e = ground (arith, e)
inserted false x y e = some-injective e

Complete-chains : (d e : Database) → e.chains ≡ d.chains → Complete d → Complete e
Complete-chains d e p c k row q = c k row (ap (find_row row_id k) (sym p) ∙ q)

Complete-returning :
    (f : RawChain → RawChain) (k : Text)
    → ((r : RawChain) → row_id (f r) ≡ row_id r)
    → ((r : RawChain) → (f r).connection_details ≡ r.connection_details)
    → (d : Database) (a : Option RawChain) (e : Database) → update_returning f k d ≡ some (a, e)
    → Complete d
    → Complete e
unfolding update_returning
Complete-returning f k same details d a e p c =
    subst Complete (ap (λ x. x.1) (some-injective p))
      (Complete-update f k d same (λ r w x q. w x (sym (details r) ∙ q)) c)

module _ ⦃env : Env⦄ where
  begin-complete : Keeps complete begin
  unfolding begin
  begin-complete = record {
    at = λ w. elim (Bool-cases (env.begin_ok w.trace)) [
      | inl b ↦ rw b (λ k. (k.0, k.0))
      | inr b ↦ rw b (λ k. k)
    ];
  }

  commit-complete : Keeps complete commit
  unfolding commit
  commit-complete = record {
    at = λ w. elim (Bool-cases (env.commit_ok w.trace)) [
      | inl b ↦ rw b (λ k. (k.1, k.1))
      | inr b ↦ rw b (λ k. k)
    ];
  }

  instance pub reading_complete : Reading complete
  unfolding call notify_event
  reading_complete = record {
    calls = λ f a. record { at = λ w k. k };
    selects = select-complete;
    notifies = λ e. record {
      at = λ w. same_databases w (notify_event e w).1 (ground arith) (ground arith);
    };
  }

  instance pub writing_complete : Writing complete
  unfolding insert_chain insert_chain_key insert_data set_details next_sequence next_packet_sequence
  writing_complete = record {
    begins = begin-complete;
    adds_chain = λ row h. execute-complete _ (λ d a e p c.
        subst Complete (ap (λ x. x.1) (inserted _ _ _ p)) (Complete-insert row d h c));
    completes = λ details current id h. execute-complete _ (λ d a e p c.
        subst Complete (ap (λ x. x.1) (some-injective p)) (
          Complete-update (set_details details current) id d (λ r. refl)
            (λ r w x q. subst HasChannels (some-injective q) h) c));
    advances = λ current id.
        execute-complete _ (Complete-returning (next_sequence current) id (λ r. refl) (λ r. refl));
    advances_packet = λ current id.
        execute-complete _
          (Complete-returning (next_packet_sequence current) id (λ r. refl) (λ r. refl));
    adds_key = λ id key current.
        execute-complete _
          (λ d a e p c. Complete-chains d e (ap (λ x. x.1.chains) (sym (inserted _ _ _ p))) c);
    adds_data = λ path bytes.
        execute-complete _
          (λ d a e p c. Complete-chains d e (ap (λ x. x.1.chains) (sym (inserted _ _ _ p))) c);
    replaces_data = λ path bytes.
        execute-complete _
          (λ d a e p c. Complete-chains d e (ap (λ x. x.1.chains) (sym (some-injective p))) c);
  }

  instance pub committing_complete : Committing complete
  unfolding insert_operation
  committing_complete = record {
    commits = commit-complete;
    adds_operation = λ r a d n t h current.
        execute_pool-complete _
          (λ d a e p c. Complete-chains d e (ap (λ x. x.1.chains) (sym (some-injective p))) c);
  }

  -- Where both databases are empty at first, the committed connection details of a chain have both
  -- of their channels after each history, also where `close_channel` was called in it.
  pub History-Complete :
      (v w : World) → v.stored ≡ empty → v.working ≡ empty → History v w → Complete w.stored
  History-Complete v w p q h =
      (History-Related complete (λ w k. (k.0, k.0))
        (λ id r m w k.
          let same = (close_channel_never_returns id r m w).1 in
          (subst Complete (sym same) k.0, subst Complete (sym same) k.0))
        h (subst Complete (sym p) Complete-empty, subst Complete (sym q) Complete-empty)).0
