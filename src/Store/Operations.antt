-- ===== src/Store/Operations.antt =====
-- solo-machine-core/src/model/operation.rs: the table `operations`.
use ibc_solo_machine.Base.{
  ℕ, ◌+◌, ℤ, Option, some, List, [], ◌∷◌, ◌++◌, Text, Bytes, codes, length, ◌==◌, Result, ok,
  ensure, ◌>>=◌ as ◌>>=ᵣ◌, rows_affected, invalid_amount_length,
}
use ibc_solo_machine.Identifier.{Identifier, parse}
use ibc_solo_machine.Chain.{DateTime}
use ibc_solo_machine.Env.{Env}
use ibc_solo_machine.Database.{Database, Operation, RawOperation, OperationType, mint, burn}
use ibc_solo_machine.Exec.{Exec, Executor, lift, require, ◌>>=◌, select, execute, now}
use ibc_solo_machine.Store.Query.{select_rows, order_by_id, limit_rows, offset_rows}

-- `Display for OperationType`
abbrev pub display : OperationType → Text
display (mint chain_id) = codes "mint [" ++ (chain_id.id ++ codes "]")
display (burn chain_id) = codes "burn [" ++ (chain_id.id ++ codes "]")

abbrev pub row_address : RawOperation → Text
row_address row = row.address

abbrev pub row_id : RawOperation → ℕ
row_id row = row.id

unfoldable pub insert_operation :
    Option Text
    → Text
    → Text
    → Bytes
    → OperationType
    → Text
    → DateTime
    → Database
    → Option (ℕ × Database)
insert_operation request_id address denom amount operation_type transaction_hash current d = some (
  1,
  record d {
    operations =
        record {
          id = d.next_operation;
          request_id = request_id;
          address = address;
          denom = denom;
          amount = amount;
          operation_type = operation_type;
          transaction_hash = transaction_hash;
          created_at = current;
        }
        ∷ d.operations;
    next_operation = d.next_operation + 1;
  },
)

module _ ⦃env : Env⦄ where
  -- `From<Operation> for RawOperation`
  unfoldable pub raw_of_operation : Operation → RawOperation
  raw_of_operation op = record {
    id = op.id;
    request_id = op.request_id;
    address = op.address;
    denom = op.denom;
    amount = env.u256_to_big_endian op.amount;
    operation_type = op.operation_type;
    transaction_hash = op.transaction_hash;
    created_at = op.created_at;
  }

  -- `TryFrom<RawOperation> for Operation`
  unfoldable pub operation_of_raw : RawOperation → Result Operation
  operation_of_raw op = ensure (length op.amount == 32) invalid_amount_length >>=ᵣ λ _.
      parse op.denom >>=ᵣ λ denom. ok (record {
        id = op.id;
        request_id = op.request_id;
        address = op.address;
        denom = denom;
        amount = env.u256_from_big_endian op.amount;
        operation_type = op.operation_type;
        transaction_hash = op.transaction_hash;
        created_at = op.created_at;
      })

  unfoldable pub collect_operations : List RawOperation → Result (List Operation)
  collect_operations [] = ok []
  collect_operations (r ∷ rs) =
      operation_of_raw r >>=ᵣ λ o. collect_operations rs >>=ᵣ λ os. ok (o ∷ os)

  unfoldable pub add_operation :
      Executor → Option Text → Text → Identifier → ℕ → OperationType → Text → Exec (Unit {0})
  add_operation executor request_id address denom amount operation_type transaction_hash = do
    current ← now
    n ← execute executor (
        insert_operation request_id address denom (env.u256_to_big_endian amount) operation_type
          transaction_hash current)
    require (n == 1) rows_affected

  unfoldable pub get_operations : Executor → Text → ℤ → ℤ → Exec (List Operation)
  get_operations executor address limit offset = do
    rows ← select executor (λ d.
        limit_rows limit
          (offset_rows offset (order_by_id row_id (select_rows row_address address d.operations))))
    lift (collect_operations rows)
