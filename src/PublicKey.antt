-- ===== src/PublicKey.antt =====
-- solo-machine-core/src/cosmos/crypto.rs, cosmos/crypto/multisig.rs and the `to_any` of
-- cosmos/crypto/{secp256k1, ed25519}.rs and cosmos/account/: public keys, their addresses, and the
-- verification of signatures. The default build is modelled, without the feature `ethermint`. A
-- verifying key is the bytes that it is encoded in.
pub mod Multisig
pub mod Convert
pub mod Decode
use ibc_solo_machine.Base.{
  ℕ, zero, suc, ◌+◌, ◌≤◌, Bool, true, false, ◌&&◌, List, [], ◌∷◌, Option, none, some, length,
  get_elem?, take, ltb, leb, ◌==◌, if◌then◌else◌, Text, Bytes, codes, Result, ok, err, panic,
  unwrap, ok_or, ensure, ◌>>=◌, ◌>>◌, external, missing_bit_array, bit_array_size, signature_size,
  too_few_signatures, missing_signature_data, signature_length, invalid_signature_type,
}
use ibc_solo_machine.BitArray
use ibc_solo_machine.BitArray.{CompactBitArray, num_true_bits_before}

mutual
  pub data PublicKey : Type 0 where
    secp256k1 ed25519 : Bytes → PublicKey
    multisig : ℕ → PublicKeys → PublicKey

  -- `public_keys` of a multisig key.
  pub data PublicKeys : Type 0 where
    nil : PublicKeys
    cons : PublicKey → PublicKeys → PublicKeys

mutual
  -- The `sum` of a signature descriptor's data.
  pub data SignatureData : Type 0 where
    single : Bytes → SignatureData
    multi : Option CompactBitArray → Signatures → SignatureData

  -- The signatures of a multisig, each with its `sum` or with none.
  pub data Signatures : Type 0 where
    nil : Signatures
    absent : Signatures → Signatures
    present : SignatureData → Signatures → Signatures

abbrev pub size : PublicKeys → ℕ
size PublicKeys.nil = 0
size (cons k ks) = suc (size ks)

abbrev pub count : Signatures → ℕ
count Signatures.nil = 0
count (absent ss) = suc (count ss)
count (present s ss) = suc (count ss)

-- `signatures[index]`, with the `sum` of the entry.
abbrev pub signature_at : Signatures → ℕ → Option (Option SignatureData)
signature_at Signatures.nil i = none
signature_at (absent ss) zero = some none
signature_at (present s ss) zero = some (some s)
signature_at (absent ss) (suc i) = signature_at ss i
signature_at (present s ss) (suc i) = signature_at ss i

-- The cryptographic crates.
pub record Crypto : Type 0 where
  -- `k256::ecdsa::Signature::try_from`
  pub parse_signature : Bytes → Option Bytes
  -- The two `Verifier::verify`, of a key, a message and a signature.
  pub secp256k1_verify : Bytes → Bytes → Bytes → Bool
  pub ed25519_verify : Bytes → Bytes → Bytes → Bool

-- A round of the loop at a set bit, on `signatures[signature_index]`.
abbrev pub verify_with :
    (SignatureData → Result (Unit {0})) → Option (Option SignatureData) → Result (Unit {0})
verify_with verify entry = do
  signature ← unwrap entry
  data' ← ok_or signature missing_signature_data
  verify data'

module _ ⦃crypto : Crypto⦄ (message : Bytes) where
  unfoldable pub verify_secp256k1 : Bytes → Bytes → Result (Unit {0})
  verify_secp256k1 key bytes = do
    signature ← ok_or (crypto.parse_signature bytes) external
    ensure (crypto.secp256k1_verify key message signature) external

  unfoldable pub verify_ed25519 : Bytes → Bytes → Result (Unit {0})
  verify_ed25519 key bytes = do
    ensure (length bytes == 64) signature_length
    ensure (crypto.ed25519_verify key message bytes) external

  -- The checks of `verify_multi_signature` in front of its loop.
  unfoldable pub check_multisig : ℕ → ℕ → CompactBitArray → ℕ → Result (Unit {0})
  check_multisig threshold keys bits signatures = do
    size ← BitArray.len bits
    ensure (keys == size) bit_array_size
    ensure (leb threshold signatures && leb signatures size) signature_size
    set ← num_true_bits_before bits size
    ensure (leb threshold set) too_few_signatures

  unfoldable mutual
    pub verify_signature : PublicKey → SignatureData → Result (Unit {0})
    verify_signature (secp256k1 key) (single bytes) = verify_secp256k1 key bytes
    verify_signature (ed25519 key) (single bytes) = verify_ed25519 key bytes
    verify_signature (multisig threshold keys) (multi bits signatures) = do
      bits ← ok_or bits missing_bit_array
      check_multisig threshold (size keys) bits (count signatures)
      verify_loop keys bits signatures 0 0
    verify_signature _ _ = err invalid_signature_type

    -- The loop over the keys from index `i` on; `signature_index` counts the signatures used.
    pub verify_loop : PublicKeys → CompactBitArray → Signatures → ℕ → ℕ → Result (Unit {0})
    verify_loop PublicKeys.nil bits signatures i signature_index = ok tt
    verify_loop (cons key keys) bits signatures i signature_index = do
      set ← BitArray.get bits i
      if set
          then (verify_with (verify_signature key) (signature_at signatures signature_index)
              >> verify_loop keys bits signatures (i + 1) (signature_index + 1))
          else verify_loop keys bits signatures (i + 1) signature_index
