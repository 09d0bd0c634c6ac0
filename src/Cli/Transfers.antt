-- ===== src/Cli/Transfers.antt =====
-- `IbcCommand` of solo-machine/src/command/ibc.rs.
use ibc_solo_machine.Base.{
  ℕ, Bool, Option, List, [], ◌∷◌, Text, codes, unwrap_or, map, Result, ok, ok_or, ◌>>=◌ as ◌>>=ᵣ◌,
  external, invalid_limit, invalid_offset,
}
use ibc_solo_machine.Decimal.{print_u64}
use ibc_solo_machine.Identifier.{ChainId, Identifier}
use ibc_solo_machine.PublicKey.{PublicKey, secp256k1}
use ibc_solo_machine.Database.{Operation}
use ibc_solo_machine.Env.{Env}
use ibc_solo_machine.Crates.{Crates}
use ibc_solo_machine.Store.Operations.{display}
use ibc_solo_machine.Service.Connect
use ibc_solo_machine.Service.Close
use ibc_solo_machine.Service.Transfer
use ibc_solo_machine.Service.Signer
use ibc_solo_machine.Server.Ibc.{read_count}
use ibc_solo_machine.Cli.{
  OutputType, text, json, table, object, of_operations, Shell, ◌>>=◌, core, lift, print,
}

-- The options as they are parsed; a memo has a default. `PublicKeyAlgo` has one value.
pub data IbcCommand : Type 0 where
  connect :
      (chain_id : ChainId) (memo : Text) (request_id : Option Text) (force : Bool) → IbcCommand
  close_channel : (chain_id : ChainId) (memo : Text) (request_id : Option Text) → IbcCommand
  mint :
      (chain_id : ChainId) (amount : ℕ) (denom : Identifier) (receiver : Option Text) (memo : Text)
      (request_id : Option Text)
      → IbcCommand
  burn :
      (chain_id : ChainId) (amount : ℕ) (denom : Identifier) (memo : Text)
      (request_id : Option Text)
      → IbcCommand
  update_signer :
      (chain_id : ChainId) (new_public_key memo : Text) (request_id : Option Text) → IbcCommand
  history : (limit offset : ℕ) → IbcCommand

module _ ⦃env : Env⦄ ⦃crates : Crates⦄ where
  unfoldable pub read_key : Text → Result PublicKey
  read_key new_public_key = ok_or (env.hex_decode new_public_key) external >>=ᵣ λ bytes.
      ok_or (crates.from_sec1_bytes bytes) external >>=ᵣ λ key. ok (secp256k1 key)

  -- `into_row`
  abbrev operation_row : Operation → List Text
  operation_row op =
      print_u64 op.id
      ∷ unwrap_or op.request_id (codes "-")
      ∷ op.address
      ∷ op.denom
      ∷ env.u256_to_string op.amount
      ∷ display op.operation_type
      ∷ op.transaction_hash
      ∷ crates.format_time op.created_at
      ∷ []

  abbrev titles : List Text
  titles =
      codes "ID"
      ∷ codes "Request ID"
      ∷ codes "Address"
      ∷ codes "Denom"
      ∷ codes "Amount"
      ∷ codes "Type"
      ∷ codes "Transaction Hash"
      ∷ codes "Time"
      ∷ []

  unfoldable pub show_history : OutputType → List Operation → Shell (Unit {0})
  show_history text operations = print (table (titles ∷ map operation_row operations))
  show_history json operations = print (object (codes "success") (of_operations operations))

  unfoldable pub execute : IbcCommand → OutputType → Shell (Unit {0})
  execute (connect chain_id memo request_id force) output =
      core (Connect.connect chain_id request_id memo force)
  execute (close_channel chain_id memo request_id) output =
      core (Close.close_channel chain_id request_id memo)
  execute (mint chain_id amount denom receiver memo request_id) output = do
    hash ← core (Transfer.mint_tokens chain_id request_id amount denom receiver memo)
    lift (ok tt)
  execute (burn chain_id amount denom memo request_id) output = do
    hash ← core (Transfer.burn_tokens chain_id request_id amount denom memo)
    lift (ok tt)
  execute (update_signer chain_id new_public_key memo request_id) output = do
    key ← lift (read_key new_public_key)
    core (Signer.update_signer chain_id request_id key memo)
  execute (history limit offset) output = do
    limit' ← lift (read_count invalid_limit limit)
    offset' ← lift (read_count invalid_offset offset)
    operations ← core (Transfer.history limit' offset')
    show_history output operations
