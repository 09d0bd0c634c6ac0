-- ===== src/Service/Transfer/Listed.antt =====
-- The operations that `history` returns.
use ibc_solo_machine.Base.{
  ℕ, ℤ, ◌≤◌, ◌≡◌, sym, ap, ◌∙◌, subst, List, [], ◌∷◌, All, some, Text, ok, length, ◌==◌, ensure,
  external, invalid_amount_length, >>=-eq-ok, ok-injective,
}
use ibc_solo_machine.Identifier.{parse}
use ibc_solo_machine.Database.{Operation, RawOperation}
use ibc_solo_machine.Env.{Env}
use ibc_solo_machine.Exec.{World}
use ibc_solo_machine.Exec.Runs.{Runs, bind-Runs, lift-Runs, or_raise-Runs, select_pool-Runs}
use ibc_solo_machine.Store.Query.{select_rows}
use ibc_solo_machine.Store.Order.{
  Descending, order_by_id-All, limit_rows-All, offset_rows-All, select_rows-All,
  order_by_id-Descending, limit_rows-Descending, offset_rows-Descending,
}
use ibc_solo_machine.Store.Operations.{
  row_id, row_address, operation_of_raw, collect_operations, get_operations,
}
use ibc_solo_machine.Service.Transfer.{history}

-- The identifier of an operation.
abbrev pub op_id : Operation → ℕ
op_id op = op.id

module _ ⦃env : Env⦄ where
  operation_of_raw-same :
      (raw : RawOperation) (op : Operation)
      → operation_of_raw raw ≡ ok op
      → (op.id ≡ raw.id) × (op.address ≡ raw.address)
  unfolding operation_of_raw
  operation_of_raw-same raw op e =
      let (_, _, f) = >>=-eq-ok (ensure (length raw.amount == 32) invalid_amount_length) _ e in
      let (denom, _, g) = >>=-eq-ok (parse raw.denom) _ f in
      let h = ok-injective g in (ap (λ x. x.id) (sym h), ap (λ x. x.address) (sym h))

  -- A property of rows that an operation takes over is one of all operations that are read.
  collect-All :
      (P : RawOperation → Type 0) (Q : Operation → Type 0)
      → ((raw : RawOperation) (op : Operation) → operation_of_raw raw ≡ ok op → P raw → Q op)
      → (rs : List RawOperation) (os : List Operation) → collect_operations rs ≡ ok os
      → All P rs
      → All Q os
  unfolding collect_operations
  collect-All P Q k [] os e h = subst (All Q) (ok-injective e) tt
  collect-All P Q k (r ∷ rs) os e (p, h) =
      let (o, d, f) = >>=-eq-ok (operation_of_raw r) _ e in
      let (ps, g, same) = >>=-eq-ok (collect_operations rs) _ f in
      subst (All Q) (ok-injective same) (k r o d p, collect-All P Q k rs ps g h)

  collect-Descending :
      (rs : List RawOperation) (os : List Operation)
      → collect_operations rs ≡ ok os
      → Descending row_id rs
      → Descending op_id os
  unfolding collect_operations
  collect-Descending [] os e h = subst (Descending op_id) (ok-injective e) tt
  collect-Descending (r ∷ rs) os e (p, h) =
      let (o, d, f) = >>=-eq-ok (operation_of_raw r) _ e in
      let (ps, g, same) = >>=-eq-ok (collect_operations rs) _ f in
      let below =
        collect-All (λ s. row_id s ≤ row_id r) (λ x. op_id x ≤ op_id o)
          (λ raw op read le.
            rw ((operation_of_raw-same raw op read).0, (operation_of_raw-same r o d).0) le)
          rs ps g p in
      subst (Descending op_id) (ok-injective same) (below, collect-Descending rs ps g h)

  -- Where `history` returns, its operations are operations of the signer's account, and their identifiers
  -- do not go up along the list.
  pub history_listed :
      (limit offset : ℤ) (w : World) (ops : List Operation) (v : World)
      → Runs (history limit offset) w ops v
      → (address : Text) × (env.account_address ≡ some address)
        × All (λ (op : Operation). op.address ≡ address) ops
        × Descending op_id ops
  unfolding history get_operations
  history_listed limit offset w ops v e =
      let (address, w₁, e₁, f₁) = bind-Runs _ _ w ops v e in
      let (rows, w₂, e₂, f₂) = bind-Runs _ _ w₁ ops v f₁ in
      let known = (or_raise-Runs env.account_address external w address w₁ e₁).0 in
      let read = select_pool-Runs _ w₁ rows w₂ e₂ in
      let collected = (lift-Runs (collect_operations rows) w₂ ops v f₂).0 in
      let selected = select_rows row_address address w₁.stored.operations in
      let owned =
        limit_rows-All (λ r. row_address r ≡ address) limit _
          (offset_rows-All _ offset _
            (order_by_id-All _ row_id selected (select_rows-All row_address address _))) in
      let descending =
        limit_rows-Descending row_id limit _
          (offset_rows-Descending row_id offset _ (order_by_id-Descending row_id selected)) in
      (
        address,
        known,
        collect-All (λ r. row_address r ≡ address) (λ op. op.address ≡ address)
            (λ raw op d p. (operation_of_raw-same raw op d).1 ∙ p) rows ops collected
            (subst (All (λ r. row_address r ≡ address)) read owned),
        collect-Descending rows ops collected (subst (Descending row_id) read descending),
      )
