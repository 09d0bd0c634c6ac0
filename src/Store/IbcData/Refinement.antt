-- ===== src/Store/IbcData/Refinement.antt =====
-- The statements on the table `ibc_data`, beside the operations of a map.
use ibc_solo_machine.Base.{
  Option, none, some, Text, Bytes, ◌≡◌, refl, sym, ap, ◌∙◌, if◌then◌else◌, Bool-cases, Option-cases,
  inl, inr, Result, ok, err, external, rows_affected,
}
use ibc_solo_machine.Env.{Env}
use ibc_solo_machine.Database.{IbcData}
use ibc_solo_machine.Exec.{World, transaction, ◌>>=◌, select, execute}
use ibc_solo_machine.Store.Query.{find_row, count_rows-none}
use ibc_solo_machine.Store.IbcData.{row_path, insert_data, decode_row, add, update, get}
use ibc_solo_machine.Invariant.Rows.{Distinct}
use ibc_solo_machine.Store.IbcData.PayloadMap.{
  PayloadMap, put_new, replace, look_up, view, payload_of, put_new-none, put_new-some, replace-none,
  replace-some, count_rows-Distinct, view-insert, view-update, view-same,
}

look_up-decode_row :
    {A : Type 0} (decode : Bytes → Option A) (path : Text) (o : Option IbcData) (m : PayloadMap)
    → m path ≡ payload_of o
    → look_up decode path m ≡ decode_row decode o
look_up-decode_row decode path none m e = rw (look_up, e) refl
look_up-decode_row decode path (some row) m e = rw (look_up, e) refl

module _ ⦃env : Env⦄ where
  -- The result, and the map of the open transaction.
  abbrev pub seen : {A : Type 0} → Result A × World → Result A × PayloadMap
  seen p = (p.0, view p.1.working)

  add-refines :
      (path : Text) (bytes : Bytes) (w : World)
      → seen (add transaction path bytes w) ≡ (
          if env.statement_ok w.trace
          then put_new path bytes (view w.working)
          else (err external, view w.working))
  unfolding add ◌>>=◌ execute insert_data
  add-refines path bytes w = elim (Bool-cases (env.statement_ok w.trace)) [
    | inl b ↦ elim (Option-cases (find_row row_path path w.working.ibc_data)) [
      | inl p ↦
          rw (b, p)
            (ap (λ m. (ok tt, m)) (view-insert path bytes w.working)
              ∙ sym (put_new-none path bytes (view w.working) (ap payload_of p)))
      | inr (row, p) ↦
          rw (b, p) (sym (put_new-some path bytes (view w.working) row.payload (ap payload_of p)))
    ]
    | inr b ↦ rw b refl
  ]

  update-refines :
      (path : Text) (bytes : Bytes) (w : World)
      → Distinct row_path w.working.ibc_data
      → seen (update transaction path bytes w) ≡ (
          if env.statement_ok w.trace
          then replace path bytes (view w.working)
          else (err external, view w.working))
  unfolding update ◌>>=◌ execute
  update-refines path bytes w d = elim (Bool-cases (env.statement_ok w.trace)) [
    | inl b ↦ elim (Option-cases (find_row row_path path w.working.ibc_data)) [
      | inl p ↦
          rw (b, count_rows-none row_path path w.working.ibc_data p)
            (ap (λ m. (err rows_affected, m)) (view-same path bytes w.working p)
              ∙ sym (replace-none path bytes (view w.working) (ap payload_of p)))
      | inr (row, p) ↦
          rw (b, count_rows-Distinct row_path path w.working.ibc_data row d p)
            (ap (λ m. (ok tt, m)) (view-update path bytes w.working row p)
              ∙ sym (replace-some path bytes (view w.working) row.payload (ap payload_of p)))
    ]
    | inr b ↦ rw b refl
  ]

  get-refines :
      {A : Type 0} (decode : Bytes → Option A) (path : Text) (w : World)
      → seen (get decode transaction path w) ≡ (
        if env.statement_ok w.trace then look_up decode path (view w.working) else err external,
        view w.working,
      )
  unfolding get ◌>>=◌ select
  get-refines decode path w = elim (Bool-cases (env.statement_ok w.trace)) [
    | inl b ↦ rw b (
        ap (λ r. (r, view w.working))
          (sym (look_up-decode_row decode path _ (view w.working) refl)))
    | inr b ↦ rw b refl
  ]

  -- In the open transaction, `add`, `update` and `get` on `ibc_data` do to the map from paths to
  -- payloads what `put_new`, `replace` and `look_up` do, with their results, as long as no two rows
  -- have a path in common: a path is added only where it is free, and replaced only where it is
  -- taken. A statement that the engine refuses leaves the map alone.
  pub ibc_data_refines_map :
      {A : Type 0} (decode : Bytes → Option A) (path : Text) (bytes : Bytes) (w : World)
      → Distinct row_path w.working.ibc_data
      → (seen (add transaction path bytes w) ≡ (
          if env.statement_ok w.trace
          then put_new path bytes (view w.working)
          else (err external, view w.working)))
        × (seen (update transaction path bytes w) ≡ (
            if env.statement_ok w.trace
            then replace path bytes (view w.working)
            else (err external, view w.working)))
        × (seen (get decode transaction path w) ≡ (
          if env.statement_ok w.trace then look_up decode path (view w.working) else err external,
          view w.working,
        ))
  ibc_data_refines_map decode path bytes w d =
      (add-refines path bytes w, update-refines path bytes w d, get-refines decode path w)
