-- ===== src/Tests/Listings.antt =====
-- Lists of operations in the sample world.
use ibc_solo_machine.Base.{
  Text, All, ℕ, ◌≤◌, pos, [], ◌∷◌, List, codes, none, some, ◌≡◌, refl, length, is_whitespace,
  text_eq,
}
use ibc_solo_machine.Identifier.{parse, matches_id, is_empty, contains, validate_length, is_id_char}
use ibc_solo_machine.Database.{empty, Operation, RawOperation, burn as burn_on}
use ibc_solo_machine.Exec.{World, select}
use ibc_solo_machine.Exec
use ibc_solo_machine.Exec.Runs.{Runs}
use ibc_solo_machine.Store.Query.{limit_rows, offset_rows, order_by_id, insert_row, select_rows}
use ibc_solo_machine.Store.Operations.{get_operations, collect_operations, operation_of_raw}
use ibc_solo_machine.Service.Transfer.{history}
use ibc_solo_machine.Service.Transfer.Listed.{history_listed, op_id}
use ibc_solo_machine.Store.Order.{Descending}
use ibc_solo_machine.Server.{response, respond}
use ibc_solo_machine.Server.Ibc.{
  ConnectRequest, MintRequest, BurnRequest, QueryHistoryRequest, read_transfer, default_memo,
  query_history,
}
use ibc_solo_machine.Server.Ibc
use ibc_solo_machine.Server.Paging.{query_history_bounded}
use ibc_solo_machine.Tests.Samples.{sample, chain_id}
use ibc_solo_machine.Tests.Worlds.{nothing}
use ibc_solo_machine.Tests.Fronts.{crates, zeros}

abbrev first_page : QueryHistoryRequest
first_page = record { limit = some 5; offset = none }

-- An operation of the signer's account.
abbrev listing : World
listing = record nothing {
  stored = record empty {
    operations =
        record {
          id = 1;
          request_id = none;
          address = codes "cosmos1";
          denom = codes "gld";
          amount = zeros 32;
          operation_type = burn_on chain_id;
          transaction_hash = codes "0A";
          created_at = pos 1600000000;
        }
        ∷ [];
  };
}

abbrev listed : List Ibc.OperationResponse
listed =
    record {
      id = 1;
      request_id = none;
      address = codes "cosmos1";
      denom = codes "gld";
      amount = [];
      operation_type = codes "burn [testnet-1]";
      transaction_hash = codes "0A";
      created_at = pos 1600000000;
    }
    ∷ []

one_listed : (query_history ⦃env = sample⦄ ⦃crates = crates⦄ first_page listing).0 ≡ response listed
unfolding query_history respond Ibc.read_page Ibc.read_count history Exec.◌>>=◌ get_operations
    select collect_operations limit_rows offset_rows order_by_id select_rows operation_of_raw
    Ibc.operation_response parse matches_id is_empty contains validate_length is_id_char
    is_whitespace text_eq
one_listed = refl

query_history_bounded_example : length listed ≤ 5
query_history_bounded_example =
    query_history_bounded ⦃env = sample⦄ ⦃crates = crates⦄ first_page listing listed one_listed

-- An operation of an address, in its row and as it is read.
abbrev stored_operation : ℕ → Text → RawOperation
stored_operation id address = record {
  id = id;
  request_id = none;
  address = address;
  denom = codes "gld";
  amount = zeros 32;
  operation_type = burn_on chain_id;
  transaction_hash = codes "0A";
  created_at = pos 1600000000;
}

abbrev read_operation : ℕ → Text → Operation
read_operation id address = record {
  id = id;
  request_id = none;
  address = address;
  denom = codes "gld";
  amount = sample.u256_from_big_endian (zeros 32);
  operation_type = burn_on chain_id;
  transaction_hash = codes "0A";
  created_at = pos 1600000000;
}

-- Three operations, one of them of another account.
abbrev mixed : World
mixed = record nothing {
  stored = record empty {
    operations =
        stored_operation 1 (codes "cosmos1")
        ∷ stored_operation 2 (codes "cosmos2")
        ∷ stored_operation 3 (codes "cosmos1")
        ∷ [];
  };
}

abbrev own : List Operation
own = read_operation 3 (codes "cosmos1") ∷ read_operation 1 (codes "cosmos1") ∷ []

own_listed :
    Runs
      (history ⦃env = sample⦄ (pos 5) (pos 0))
      mixed
      own
      (history ⦃env = sample⦄ (pos 5) (pos 0) mixed).1
unfolding history Exec.◌>>=◌ Exec.or_raise Exec.lift get_operations select collect_operations
    limit_rows offset_rows order_by_id insert_row select_rows operation_of_raw parse matches_id
    is_empty contains validate_length is_id_char is_whitespace text_eq
own_listed = refl

history_listed_example :
    (address : Text) × (sample.account_address ≡ some address)
    × All (λ (op : Operation). op.address ≡ address) own
    × Descending op_id own
history_listed_example =
    history_listed ⦃env = sample⦄ (pos 5) (pos 0) mixed own
      (history ⦃env = sample⦄ (pos 5) (pos 0) mixed).1 own_listed
