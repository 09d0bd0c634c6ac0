-- ===== src/Database.antt =====
-- solo-machine-core/sqlite-migrations and the records of solo-machine-core/src/model: the four
-- tables. A `Json` column is the value that it holds.
use ibc_solo_machine.Base.{ℕ, Text, Bytes, List, Option, []}
use ibc_solo_machine.Identifier.{Identifier, ChainId}
use ibc_solo_machine.Chain.{DateTime, RawChain}

-- `IbcData`
pub record IbcData : Type 0 where
  pub path : Text
  pub payload : Bytes

pub record RawChainKey : Type 0 where
  pub id : ℕ
  pub chain_id : Text
  pub public_key : Text
  pub created_at : DateTime

pub record ChainKey : Type 0 where
  pub id : ℕ
  pub chain_id : ChainId
  pub public_key : Text
  pub created_at : DateTime

pub data OperationType : Type 0 where
  mint burn : ChainId → OperationType

pub record RawOperation : Type 0 where
  pub id : ℕ
  pub request_id : Option Text
  pub address : Text
  pub denom : Text
  pub amount : Bytes
  pub operation_type : OperationType
  pub transaction_hash : Text
  pub created_at : DateTime

pub record Operation : Type 0 where
  pub id : ℕ
  pub request_id : Option Text
  pub address : Text
  pub denom : Identifier
  pub amount : ℕ
  pub operation_type : OperationType
  pub transaction_hash : Text
  pub created_at : DateTime

-- The rows of each table, the latest first, and the next values of the two `AUTOINCREMENT` keys.
pub record Database : Type 0 where
  pub chains : List RawChain
  pub ibc_data : List IbcData
  pub chain_keys : List RawChainKey
  pub operations : List RawOperation
  pub next_chain_key : ℕ
  pub next_operation : ℕ

abbrev pub empty : Database
empty = record {
  chains = [];
  ibc_data = [];
  chain_keys = [];
  operations = [];
  next_chain_key = 1;
  next_operation = 1;
}
