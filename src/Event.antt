-- ===== src/Event.antt =====
-- solo-machine-core/src/event.rs and the `Message` of solo-machine-core/src/signer.rs: the events
-- that are sent to the notifier, and the calls that leave the program.
use ibc_solo_machine.Base.{ℕ, Text, Bytes, codes, Option}
use ibc_solo_machine.Identifier.{Identifier, ClientId, ConnectionId, ChannelId, ChainId}
use ibc_solo_machine.PublicKey.{PublicKey}
use ibc_solo_machine.Chain.{ConnectionDetails}

-- A `U256` amount is a number. The text of a `Warning` is left out.
pub data Event : Type 0 where
  -- Chain, request, address, amount, denomination, transaction hash.
  tokens_minted tokens_burnt : ChainId → Option Text → Text → ℕ → Identifier → Text → Event
  -- Chain, old and new key.
  signer_updated : ChainId → PublicKey → PublicKey → Event
  created_solo_machine_client created_tendermint_client : ClientId → Event
  initialized_connection_on_tendermint initialized_connection_on_solo_machine : ConnectionId → Event
  confirmed_connection_on_tendermint confirmed_connection_on_solo_machine : ConnectionId → Event
  initialized_channel_on_tendermint initialized_channel_on_solo_machine : ChannelId → Event
  confirmed_channel_on_tendermint confirmed_channel_on_solo_machine : ChannelId → Event
  close_channel_init_on_solo_machine : Text → ChannelId → Event
  connection_established : ChainId → ConnectionDetails → Event
  chain_added : ChainId → Event
  warning : Event

-- What a signer is given.
pub data SignMessage : Type 0 where
  sign_bytes sign_doc : Bytes → SignMessage

abbrev pub message_type : SignMessage → Text
message_type (sign_bytes bytes) = codes "sign-bytes"
message_type (sign_doc bytes) = codes "sign-doc"

abbrev pub message_bytes : SignMessage → Bytes
message_bytes (sign_bytes bytes) = bytes
message_bytes (sign_doc bytes) = bytes

-- A call that leaves the program, in the order in which they are made.
pub data Action : Type 0 where
  -- `begin` and `commit` of a transaction, and a statement.
  began committed statement : Action
  -- A request to the signer, with the request's identifier.
  signed : Option Text → SignMessage → Action
  -- `broadcast_tx_commit` of an encoded transaction.
  broadcasted : Bytes → Action
  -- A query to a node: its status, an account, the staking parameters, a verified header.
  queried : Action
  -- An event that is sent to the notifier.
  notified : Event → Action
  -- A random identifier.
  sampled : Action
