-- ===== src/Store/Frames.antt =====
-- Frames that the statements of a transaction keep, and the rules for code that runs in one.
use ibc_solo_machine.Base.{ℕ, ℤ, Text, Bytes, Option, none, is_some, true, ◌≡◌}
use ibc_solo_machine.Height.{Height}
use ibc_solo_machine.Identifier.{ChainId}
use ibc_solo_machine.Chain.{ChainConfig, ConnectionDetails, RawChain, DateTime}
use ibc_solo_machine.Messages.{
  TendermintClientState, TendermintConsensusState, ConnectionEnd, Channel,
}
use ibc_solo_machine.Env.{Env}
use ibc_solo_machine.Database.{OperationType}
use ibc_solo_machine.Exec.{Executor, pool, transaction, begin, commit, execute}
use ibc_solo_machine.Exec.Keeps.{Frame, Keeps}
use ibc_solo_machine.Exec.Frames.{Reading, reading_rules}
use ibc_solo_machine.Store.Chains.{
  add_chain, get_chain, add_connection_details, increment_sequence, increment_packet_sequence,
  insert_chain, update_details, update_returning, next_sequence, next_packet_sequence,
}
use ibc_solo_machine.Store.ChainKeys.{add_chain_key, get_chain_keys, insert_chain_key}
use ibc_solo_machine.Store.IbcData.{
  add, update, get, add_tendermint_client_state, get_tendermint_client_state,
  add_tendermint_consensus_state, add_connection, get_connection, update_connection, add_channel,
  get_channel, update_channel, insert_data, update_data,
}
use ibc_solo_machine.Store.Operations.{add_operation, get_operations, insert_operation}

-- Both channels are there.
abbrev pub HasChannels : ConnectionDetails → Type 0
HasChannels details =
    (is_some details.solo_machine_channel_id ≡ true)
    × (is_some details.tendermint_channel_id ≡ true)

module _ ⦃env : Env⦄ where
  -- A frame that is kept by the start of a transaction and by each statement in one.
  pub record Writing (F : Frame) : Type 1 where
    pub begins : Keeps F begin
    pub adds_chain :
        (row : RawChain)
        → row.connection_details ≡ none
        → Keeps F (execute transaction (insert_chain row))
    pub completes :
        (details : ConnectionDetails) (current : DateTime) (id : Text)
        → HasChannels details
        → Keeps F (execute transaction (update_details details current id))
    pub advances :
        (current : DateTime) (id : Text)
        → Keeps F (execute transaction (update_returning (next_sequence current) id))
    pub advances_packet :
        (current : DateTime) (id : Text)
        → Keeps F (execute transaction (update_returning (next_packet_sequence current) id))
    pub adds_key :
        (id public_key : Text) (current : DateTime)
        → Keeps F (execute transaction (insert_chain_key id public_key current))
    pub adds_data :
        (path : Text) (bytes : Bytes) → Keeps F (execute transaction (insert_data path bytes))
    pub replaces_data :
        (path : Text) (bytes : Bytes) → Keeps F (execute transaction (update_data path bytes))

  -- A frame that is kept where connection details without channels are stored too.
  pub record Detailing (F : Frame) : Type 1 where
    pub sets_details :
        (details : ConnectionDetails) (current : DateTime) (id : Text)
        → Keeps F (execute transaction (update_details details current id))

  -- A frame that is kept by commits too, and by the statement that is run outside of transactions.
  pub record Committing (F : Frame) : Type 1 where
    pub commits : Keeps F commit
    pub adds_operation :
        (request_id : Option Text) (address denom : Text) (amount : Bytes) (type : OperationType)
        (hash : Text) (current : DateTime)
        → Keeps F
            (execute pool (insert_operation request_id address denom amount type hash current))

  module _ {F : Frame} ⦃reading : Reading F⦄ where
    pub get_chain-Keeps : (x : Executor) (id : ChainId) → Keeps F (get_chain x id)
    unfolding get_chain
    get_chain-Keeps x id = search reading_rules depth 60

    pub get-Keeps :
        {A : Type 0} (decode : Bytes → Option A) (x : Executor) (path : Text)
        → Keeps F (get decode x path)
    unfolding get
    get-Keeps decode x path = search reading_rules depth 60

    pub get_tendermint_client_state-Keeps :
        (x : Executor) (id : Text) → Keeps F (get_tendermint_client_state x id)
    unfolding get_tendermint_client_state
    get_tendermint_client_state-Keeps x id = search (reading_rules, get-Keeps) depth 60

    pub get_connection-Keeps : (x : Executor) (id : Text) → Keeps F (get_connection x id)
    unfolding get_connection
    get_connection-Keeps x id = search (reading_rules, get-Keeps) depth 60

    pub get_channel-Keeps : (x : Executor) (p id : Text) → Keeps F (get_channel x p id)
    unfolding get_channel
    get_channel-Keeps x p id = search (reading_rules, get-Keeps) depth 60

    pub get_operations-Keeps :
        (x : Executor) (address : Text) (limit offset : ℤ)
        → Keeps F (get_operations x address limit offset)
    unfolding get_operations
    get_operations-Keeps x address limit offset = search reading_rules depth 60

    pub get_chain_keys-Keeps :
        (x : Executor) (id : ChainId) (limit offset : ℤ)
        → Keeps F (get_chain_keys x id limit offset)
    unfolding get_chain_keys
    get_chain_keys-Keeps x id limit offset = search reading_rules depth 60

  module _ {F : Frame} ⦃reading : Reading F⦄ ⦃writing : Writing F⦄ where
    pub begin-Keeps : Keeps F begin
    begin-Keeps = writing.begins

    pub add_chain-Keeps :
        (id : ChainId) (node_id : Text) (config : ChainConfig)
        → Keeps F (add_chain transaction id node_id config)
    unfolding add_chain
    add_chain-Keeps id node_id config = search (reading_rules, writing.adds_chain) depth 60

    pub complete_details-Keeps :
        (id : ChainId) (details : ConnectionDetails)
        → HasChannels details
        → Keeps F (add_connection_details transaction id details)
    unfolding add_connection_details
    complete_details-Keeps id details h =
        search (reading_rules, λ (c : DateTime). writing.completes details c id.id h) depth 60

    pub increment_sequence-Keeps : (id : ChainId) → Keeps F (increment_sequence transaction id)
    unfolding increment_sequence
    increment_sequence-Keeps id = search (reading_rules, writing.advances) depth 60

    pub increment_packet_sequence-Keeps :
        (id : ChainId) → Keeps F (increment_packet_sequence transaction id)
    unfolding increment_packet_sequence
    increment_packet_sequence-Keeps id = search (reading_rules, writing.advances_packet) depth 60

    pub add_chain_key-Keeps :
        (id : ChainId) (public_key : Text) → Keeps F (add_chain_key transaction id public_key)
    unfolding add_chain_key
    add_chain_key-Keeps id public_key = search (reading_rules, writing.adds_key) depth 60

    pub add-Keeps : (path : Text) (bytes : Bytes) → Keeps F (add transaction path bytes)
    unfolding add
    add-Keeps path bytes = search (reading_rules, writing.adds_data) depth 60

    pub update-Keeps : (path : Text) (bytes : Bytes) → Keeps F (update transaction path bytes)
    unfolding update
    update-Keeps path bytes = search (reading_rules, writing.replaces_data) depth 60

    pub add_tendermint_client_state-Keeps :
        (id : Text) (s : TendermintClientState)
        → Keeps F (add_tendermint_client_state transaction id s)
    unfolding add_tendermint_client_state
    add_tendermint_client_state-Keeps id s = search (reading_rules, add-Keeps) depth 60

    pub add_tendermint_consensus_state-Keeps :
        (id : Text) (h : Height) (s : TendermintConsensusState)
        → Keeps F (add_tendermint_consensus_state transaction id h s)
    unfolding add_tendermint_consensus_state
    add_tendermint_consensus_state-Keeps id h s = search (reading_rules, add-Keeps) depth 60

    pub add_connection-Keeps :
        (id : Text) (c : ConnectionEnd) → Keeps F (add_connection transaction id c)
    unfolding add_connection
    add_connection-Keeps id c = search (reading_rules, add-Keeps) depth 60

    pub update_connection-Keeps :
        (id : Text) (c : ConnectionEnd) → Keeps F (update_connection transaction id c)
    unfolding update_connection
    update_connection-Keeps id c = search (reading_rules, update-Keeps) depth 60

    pub add_channel-Keeps : (p id : Text) (c : Channel) → Keeps F (add_channel transaction p id c)
    unfolding add_channel
    add_channel-Keeps p id c = search (reading_rules, add-Keeps) depth 60

    pub update_channel-Keeps :
        (p id : Text) (c : Channel) → Keeps F (update_channel transaction p id c)
    unfolding update_channel
    update_channel-Keeps p id c = search (reading_rules, update-Keeps) depth 60

  module _ {F : Frame} ⦃reading : Reading F⦄ ⦃detailing : Detailing F⦄ where
    pub add_connection_details-Keeps :
        (id : ChainId) (details : ConnectionDetails)
        → Keeps F (add_connection_details transaction id details)
    unfolding add_connection_details
    add_connection_details-Keeps id details =
        search (reading_rules, detailing.sets_details) depth 60

  module _ {F : Frame} ⦃reading : Reading F⦄ ⦃committing : Committing F⦄ where
    pub commit-Keeps : Keeps F commit
    commit-Keeps = committing.commits

    pub add_operation-Keeps :
        (request_id : Option Text) (address denom : Text) (amount : ℕ) (type : OperationType)
        (hash : Text)
        → Keeps F (add_operation pool request_id address denom amount type hash)
    unfolding add_operation
    add_operation-Keeps request_id address denom amount type hash =
        search (reading_rules, committing.adds_operation) depth 60
