-- ===== src/Store/Kept.antt =====
-- The statements of a transaction keep three frames, and the ruleset for code that runs them.
use ibc_solo_machine.Env.{Env}
use ibc_solo_machine.Exec.{pool, transaction}
use ibc_solo_machine.Exec.Keeps.{same_stored, begin-same_stored, execute-same_stored}
use ibc_solo_machine.Exec.Growing.{growing, begin-growing, commit-growing, execute-growing}
use ibc_solo_machine.Exec.Frames.{Reading, reading_rules}
use ibc_solo_machine.Store.Frames.{
  Writing, Detailing, Committing, get_chain-Keeps, get-Keeps, get_tendermint_client_state-Keeps,
  get_connection-Keeps, get_channel-Keeps, get_operations-Keeps, get_chain_keys-Keeps, begin-Keeps,
  add_chain-Keeps, complete_details-Keeps, increment_sequence-Keeps,
  increment_packet_sequence-Keeps, add_chain_key-Keeps, add-Keeps, update-Keeps,
  add_tendermint_client_state-Keeps, add_tendermint_consensus_state-Keeps, add_connection-Keeps,
  update_connection-Keeps, add_channel-Keeps, update_channel-Keeps, add_connection_details-Keeps,
  commit-Keeps, add_operation-Keeps,
}

module _ ⦃env : Env⦄ where
  instance abbrev pub writing_stored : Writing same_stored
  writing_stored = record {
    begins = begin-same_stored;
    adds_chain = λ _ _. execute-same_stored _;
    completes = λ _ _ _ _. execute-same_stored _;
    advances = λ _ _. execute-same_stored _;
    advances_packet = λ _ _. execute-same_stored _;
    adds_key = λ _ _ _. execute-same_stored _;
    adds_data = λ _ _. execute-same_stored _;
    replaces_data = λ _ _. execute-same_stored _;
  }

  instance abbrev pub writing_growing : Writing growing
  writing_growing = record {
    begins = begin-growing;
    adds_chain = λ _ _. execute-growing transaction _;
    completes = λ _ _ _ _. execute-growing transaction _;
    advances = λ _ _. execute-growing transaction _;
    advances_packet = λ _ _. execute-growing transaction _;
    adds_key = λ _ _ _. execute-growing transaction _;
    adds_data = λ _ _. execute-growing transaction _;
    replaces_data = λ _ _. execute-growing transaction _;
  }

  instance abbrev pub detailing_stored : Detailing same_stored
  detailing_stored = record { sets_details = λ _ _ _. execute-same_stored _ }

  instance abbrev pub detailing_growing : Detailing growing
  detailing_growing = record { sets_details = λ _ _ _. execute-growing transaction _ }

  instance abbrev pub committing_growing : Committing growing
  committing_growing = record {
    commits = commit-growing;
    adds_operation = λ _ _ _ _ _ _ _. execute-growing pool _;
  }

pub ruleset store_rules = (
  reading_rules, get_chain-Keeps, get-Keeps, get_tendermint_client_state-Keeps,
  get_connection-Keeps, get_channel-Keeps, get_operations-Keeps, get_chain_keys-Keeps, begin-Keeps,
  add_chain-Keeps, complete_details-Keeps, add_connection_details-Keeps, increment_sequence-Keeps,
  increment_packet_sequence-Keeps, add_chain_key-Keeps, add-Keeps, update-Keeps,
  add_tendermint_client_state-Keeps, add_tendermint_consensus_state-Keeps, add_connection-Keeps,
  update_connection-Keeps, add_channel-Keeps, update_channel-Keeps, commit-Keeps,
  add_operation-Keeps, writing_stored, writing_growing, detailing_stored, detailing_growing,
  committing_growing,
)
