-- ===== src/Service/Operations.antt =====
-- The rules for the operations of the two services, with their transactions.
use ibc_solo_machine.Base.{ℕ, ℤ, Bool, List, [], ◌∷◌, Option, Text, Result, ok, err, panic}
use ibc_solo_machine.Identifier.{ChainId, Identifier}
use ibc_solo_machine.PublicKey.{PublicKey}
use ibc_solo_machine.Chain.{Chain, ChainConfig}
use ibc_solo_machine.Messages.{Packet}
use ibc_solo_machine.Env.{Env, TxCommitResponse}
use ibc_solo_machine.Exec.{Exec}
use ibc_solo_machine.Exec.Keeps.{Frame, Keeps}
use ibc_solo_machine.Exec.Frames.{Reading}
use ibc_solo_machine.Store.Frames.{Writing, Detailing, Committing}
use ibc_solo_machine.Service.Frames.{step_rules}
use ibc_solo_machine.Service.Connect.{connect}
use ibc_solo_machine.Service.Close.{close_channel}
use ibc_solo_machine.Service.Transfer.{
  record_mint, mint_tokens, acknowledge_packet, process_each, process_packets, warn_result, or_warn,
  burn_tokens, history,
}
use ibc_solo_machine.Service.Signer.{update_signer, add, get_ibc_denom, get, get_public_keys}

module _ ⦃env : Env⦄ {F : Frame} ⦃reading : Reading F⦄ ⦃writing : Writing F⦄
    ⦃committing : Committing F⦄ where
  pub connect-Keeps :
      (chain_id : ChainId) (request_id : Option Text) (memo : Text) (force : Bool)
      → Keeps F (connect chain_id request_id memo force)
  unfolding connect
  connect-Keeps chain_id request_id memo force = search step_rules depth 20

  pub record_mint-Keeps :
      (id : ChainId) (request_id : Option Text) (amount : ℕ) (denom receiver : Text)
      (response : TxCommitResponse) (hash : Text)
      → Keeps F (record_mint id request_id amount denom receiver response hash)
  unfolding record_mint
  record_mint-Keeps id request_id amount denom receiver response hash = search step_rules depth 40

  pub mint_tokens-Keeps :
      (chain_id : ChainId) (request_id : Option Text) (amount : ℕ) (denom : Identifier)
      (receiver : Option Text) (memo : Text)
      → Keeps F (mint_tokens chain_id request_id amount denom receiver memo)
  unfolding mint_tokens
  mint_tokens-Keeps chain_id request_id amount denom receiver memo =
      search (step_rules, record_mint-Keeps) depth 40

  pub acknowledge_packet-Keeps :
      (chain : Chain) (packet : Packet) (memo : Text) (request_id : Option Text)
      → Keeps F (acknowledge_packet chain packet memo request_id)
  unfolding acknowledge_packet
  acknowledge_packet-Keeps chain packet memo request_id = search step_rules depth 40

  process_each-Keeps :
      (chain : Chain) (s t : Text) (packets : List Packet) (memo : Text) (request_id : Option Text)
      → Keeps F (process_each chain s t packets memo request_id)
  unfolding process_each
  process_each-Keeps chain s t [] memo request_id = search step_rules
  process_each-Keeps chain s t (packet ∷ packets) memo request_id =
      search
        (
          step_rules,
          acknowledge_packet-Keeps,
          λ (c : Chain). process_each-Keeps c s t packets memo request_id,
        )
        depth 20

  pub process_packets-Keeps :
      (chain : Chain) (packets : List Packet) (memo : Text) (request_id : Option Text)
      → Keeps F (process_packets chain packets memo request_id)
  unfolding process_packets
  process_packets-Keeps chain packets memo request_id =
      search (step_rules, process_each-Keeps) depth 20

  warn_result-Keeps : (r : Result (Unit {0})) → Keeps F (warn_result r)
  unfolding warn_result
  warn_result-Keeps (ok a) = search step_rules
  warn_result-Keeps (err e) = search step_rules
  warn_result-Keeps panic = search step_rules

  pub or_warn-Keeps : (m : Exec (Unit {0})) → Keeps F m → Keeps F (or_warn m)
  unfolding or_warn
  or_warn-Keeps m k = record {
    at = λ w. F.transitive w (m w).1 _ (k.at w) ((warn_result-Keeps (m w).0).at (m w).1);
  }

  pub burn_tokens-Keeps :
      (chain_id : ChainId) (request_id : Option Text) (amount : ℕ) (denom : Identifier)
      (memo : Text)
      → Keeps F (burn_tokens chain_id request_id amount denom memo)
  unfolding burn_tokens
  burn_tokens-Keeps chain_id request_id amount denom memo =
      search (step_rules, or_warn-Keeps, process_packets-Keeps) depth 40

  pub history-Keeps : (limit offset : ℤ) → Keeps F (history limit offset)
  unfolding history
  history-Keeps limit offset = search step_rules

  pub update_signer-Keeps :
      (chain_id : ChainId) (request_id : Option Text) (key : PublicKey) (memo : Text)
      → Keeps F (update_signer chain_id request_id key memo)
  unfolding update_signer
  update_signer-Keeps chain_id request_id key memo = search step_rules depth 40

  pub add-Keeps : (config : ChainConfig) (public_key : Text) → Keeps F (add config public_key)
  unfolding add
  add-Keeps config public_key = search step_rules depth 40

  pub get_ibc_denom-Keeps : (id : ChainId) (denom : Identifier) → Keeps F (get_ibc_denom id denom)
  unfolding get_ibc_denom
  get_ibc_denom-Keeps id denom = search step_rules depth 20

  pub get-Keeps : (id : ChainId) → Keeps F (get id)
  unfolding get
  get-Keeps id = search step_rules

  pub get_public_keys-Keeps :
      (id : ChainId) (limit offset : ℤ) → Keeps F (get_public_keys id limit offset)
  unfolding get_public_keys
  get_public_keys-Keeps id limit offset = search step_rules

module _ ⦃env : Env⦄ {F : Frame} ⦃reading : Reading F⦄ ⦃writing : Writing F⦄
    ⦃detailing : Detailing F⦄ ⦃committing : Committing F⦄ where
  pub close_channel-Keeps :
      (chain_id : ChainId) (request_id : Option Text) (memo : Text)
      → Keeps F (close_channel chain_id request_id memo)
  unfolding close_channel
  close_channel-Keeps chain_id request_id memo = search step_rules depth 20

pub ruleset operation_rules = (
  step_rules, connect-Keeps, close_channel-Keeps, record_mint-Keeps, mint_tokens-Keeps,
  acknowledge_packet-Keeps, process_packets-Keeps, or_warn-Keeps, burn_tokens-Keeps, history-Keeps,
  update_signer-Keeps, add-Keeps, get_ibc_denom-Keeps, get-Keeps, get_public_keys-Keeps,
)
