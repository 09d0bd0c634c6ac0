-- ===== src/Server/Ibc.antt =====
-- `IbcService` of solo-machine/src/server/ibc.rs.
use ibc_solo_machine.Base.{
  ℕ, ℤ, pos, ◌-◌, ◌^◌, Bool, Option, none, some, List, Text, codes, text_eq, leb, if◌then◌else◌,
  unwrap_or, map, Result, ok, err, Error, ok_or, ensure, ◌>>=◌, ◌>>◌, external, invalid_limit,
  invalid_offset, invalid_public_key_algo,
}
use ibc_solo_machine.Identifier.{ChainId, Identifier, parse, parse_chain_id}
use ibc_solo_machine.PublicKey.{PublicKey, secp256k1}
use ibc_solo_machine.Chain.{DateTime}
use ibc_solo_machine.Database.{Operation}
use ibc_solo_machine.Env.{Env}
use ibc_solo_machine.Crates.{Crates}
use ibc_solo_machine.Exec.{World}
use ibc_solo_machine.Store.Operations.{display}
use ibc_solo_machine.Service.Connect
use ibc_solo_machine.Service.Transfer
use ibc_solo_machine.Service.Signer
use ibc_solo_machine.Server.{Reply, respond, map_reply}

pub record ConnectRequest : Type 0 where
  pub chain_id : Text
  pub request_id : Option Text
  pub memo : Option Text
  pub force : Bool

pub record MintRequest : Type 0 where
  pub chain_id : Text
  pub request_id : Option Text
  pub memo : Option Text
  pub amount : Text
  pub denom : Text
  pub receiver_address : Option Text

pub record BurnRequest : Type 0 where
  pub chain_id : Text
  pub request_id : Option Text
  pub memo : Option Text
  pub amount : Text
  pub denom : Text

pub record UpdateSignerRequest : Type 0 where
  pub chain_id : Text
  pub request_id : Option Text
  pub memo : Option Text
  pub new_public_key : Text
  pub public_key_algo : Option Text

pub record QueryHistoryRequest : Type 0 where
  pub limit : Option ℕ
  pub offset : Option ℕ

-- `Operation` of solo-machine/proto/ibc.proto.
pub record OperationResponse : Type 0 where
  pub id : ℕ
  pub request_id : Option Text
  pub address : Text
  pub denom : Text
  pub amount : Text
  pub operation_type : Text
  pub transaction_hash : Text
  pub created_at : DateTime

abbrev pub default_memo : Text
default_memo = codes "solo-machine-memo"

abbrev pub max_i32 : ℕ
max_i32 = 2 ^ 31 - 1

-- `i32::try_from`
unfoldable pub read_count : Error → ℕ → Result ℤ
read_count e n = if leb n max_i32 then ok (pos n) else err e

-- `PublicKeyAlgo::from_str`; it has one value without the feature `ethermint`.
unfoldable pub parse_algo : Text → Result (Unit {0})
parse_algo s = ensure (text_eq s (codes "secp256k1")) invalid_public_key_algo

unfoldable pub read_algo : Option Text → Result (Unit {0})
read_algo none = ok tt
read_algo (some s) = parse_algo s

module _ ⦃env : Env⦄ ⦃crates : Crates⦄ where
  unfoldable pub connect : ConnectRequest → World → Reply (Unit {0}) × World
  connect request = respond (parse_chain_id request.chain_id) (λ id.
      Connect.connect id request.request_id (unwrap_or request.memo default_memo) request.force)

  -- The chain, the amount and the denomination of a transfer.
  unfoldable pub read_transfer : Text → Text → Text → Result (ChainId × ℕ × Identifier)
  read_transfer chain_id amount denom = do
    id ← parse_chain_id chain_id
    n ← ok_or (crates.parse_u256 amount) external
    d ← parse denom
    ok (id, n, d)

  unfoldable pub mint : MintRequest → World → Reply Text × World
  mint request =
      respond (read_transfer request.chain_id request.amount request.denom) (λ (id, amount, denom).
        Transfer.mint_tokens id request.request_id amount denom request.receiver_address
          (unwrap_or request.memo default_memo))

  unfoldable pub burn : BurnRequest → World → Reply Text × World
  burn request =
      respond (read_transfer request.chain_id request.amount request.denom) (λ (id, amount, denom).
        Transfer.burn_tokens id request.request_id amount denom
          (unwrap_or request.memo default_memo))

  unfoldable pub read_key : UpdateSignerRequest → Result (ChainId × PublicKey)
  read_key request = do
    id ← parse_chain_id request.chain_id
    bytes ← ok_or (env.hex_decode request.new_public_key) external
    key ← ok_or (crates.from_sec1_bytes bytes) external
    read_algo request.public_key_algo
    ok (id, secp256k1 key)

  unfoldable pub update_signer : UpdateSignerRequest → World → Reply (Unit {0}) × World
  update_signer request = respond (read_key request) (λ (id, key).
      Signer.update_signer id request.request_id key (unwrap_or request.memo default_memo))

  unfoldable pub read_page : QueryHistoryRequest → Result (ℤ × ℤ)
  read_page request = do
    limit ← read_count invalid_limit (unwrap_or request.limit 10)
    offset ← read_count invalid_offset (unwrap_or request.offset 0)
    ok (limit, offset)

  unfoldable pub operation_response : Operation → OperationResponse
  operation_response op = record {
    id = op.id;
    request_id = op.request_id;
    address = op.address;
    denom = op.denom;
    amount = env.u256_to_string op.amount;
    operation_type = display op.operation_type;
    transaction_hash = op.transaction_hash;
    created_at = op.created_at;
  }

  unfoldable pub query_history :
      QueryHistoryRequest → World → Reply (List OperationResponse) × World
  query_history request w =
      let (reply, v) = respond (read_page request) (λ p. Transfer.history p.0 p.1) w in
      (map_reply (map operation_response) reply, v)
