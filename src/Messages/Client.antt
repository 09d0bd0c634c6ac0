-- ===== src/Messages/Client.antt =====
-- Messages of clients, and what a solo machine signs.
use ibc_solo_machine.Base.{ℕ, Bool, Text, Bytes, List, Option}
use ibc_solo_machine.Height.{Height}

-- `google.protobuf.Any`
pub record Any : Type 0 where
  pub type_url : Text
  pub value : Bytes

-- `google.protobuf.Duration`
pub record Duration : Type 0 where
  pub seconds : ℕ
  pub nanos : ℕ

-- The three `PubKey` messages have one field.
pub record PubKey : Type 0 where
  pub key : Bytes

pub record LegacyAminoPubKey : Type 0 where
  pub threshold : ℕ
  pub public_keys : List Any

pub record SoloMachineConsensusState : Type 0 where
  pub public_key : Option Any
  pub diversifier : Text
  pub timestamp : ℕ

pub record SoloMachineClientState : Type 0 where
  pub sequence : ℕ
  pub is_frozen : Bool
  pub consensus_state : Option SoloMachineConsensusState

pub record SoloMachineHeader : Type 0 where
  pub timestamp : ℕ
  pub signature : Bytes
  pub new_public_key : Option Any
  pub new_diversifier : Text

pub record HeaderData : Type 0 where
  pub new_pub_key : Option Any
  pub new_diversifier : Text

pub record SignBytes : Type 0 where
  pub sequence : ℕ
  pub timestamp : ℕ
  pub diversifier : Text
  pub path : Bytes
  pub data_bytes : Bytes

pub record TimestampedSignatureData : Type 0 where
  pub signature_data : Bytes
  pub timestamp : ℕ

-- The signature data of one signature, with the mode `SignMode::Unspecified`.
pub record SingleSignatureData : Type 0 where
  pub signature : Bytes
  pub mode : ℕ

pub record Fraction : Type 0 where
  pub numerator : ℕ
  pub denominator : ℕ

-- An `i32` of `ics23` that stands for an operation, as the source writes it: `HashOp::Sha256.into()`,
-- `LengthOp::VarProto.into()` or a number.
pub data Op : Type 0 where
  hash_sha256 length_var_proto : Op
  number : ℕ → Op

pub record LeafOp : Type 0 where
  pub hash : Op
  pub prehash_key : Op
  pub prehash_value : Op
  pub length : Op
  pub prefix : Bytes

pub record InnerSpec : Type 0 where
  pub child_order : List ℕ
  pub min_prefix_length : ℕ
  pub max_prefix_length : ℕ
  pub child_size : ℕ
  pub empty_child : Bytes
  pub hash : Op

pub record ProofSpec : Type 0 where
  pub leaf_spec : Option LeafOp
  pub inner_spec : Option InnerSpec
  pub max_depth : ℕ
  pub min_depth : ℕ
  pub prehash_key_before_comparison : Bool

pub record TendermintClientState : Type 0 where
  pub chain_id : Text
  pub trust_level : Option Fraction
  pub trusting_period : Option Duration
  pub unbonding_period : Option Duration
  pub max_clock_drift : Option Duration
  pub frozen_height : Option Height
  pub latest_height : Option Height
  pub proof_specs : List ProofSpec
  pub upgrade_path : List Text
  pub allow_update_after_expiry : Bool
  pub allow_update_after_misbehaviour : Bool

pub record TendermintConsensusState : Type 0 where
  pub root : Option Bytes
  pub timestamp : Option (ℕ × ℕ)
  pub next_validators_hash : Bytes

pub record MsgCreateClient : Type 0 where
  pub client_state : Option Any
  pub consensus_state : Option Any
  pub signer : Text

pub record MsgUpdateClient : Type 0 where
  pub client_id : Text
  pub client_message : Option Any
  pub signer : Text
