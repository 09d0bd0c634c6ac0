-- ===== src/PublicKey/Decode.antt =====
-- `from_any` of solo-machine-core/src/cosmos/crypto.rs and crypto/{secp256k1, ed25519, multisig}.rs.
-- The keys of a multisig key are messages inside of its bytes; `fuel` bounds how deep they are nested.
pub mod RoundTrip
use ibc_solo_machine.Base.{
  ℕ, zero, suc, List, [], ◌∷◌, Option, Text, Bytes, codes, text_eq, length, ◌==◌, if◌then◌else◌,
  Result, ok, err, panic, ok_or, ensure, ◌>>=◌, ◌>>◌, external, unknown_type_url,
  invalid_key_length,
}
use ibc_solo_machine.PublicKey.{PublicKey, PublicKeys, secp256k1, ed25519, multisig, cons}
use ibc_solo_machine.Messages.{Any, PubKey, LegacyAminoPubKey}

-- The crates that decode messages and keys; a key is the bytes that it is encoded in.
pub record Decoders : Type 0 where
  pub decode_pub_key : Bytes → Option PubKey
  pub decode_legacy_amino_pub_key : Bytes → Option LegacyAminoPubKey
  -- `VerifyingKey::from_sec1_bytes`
  pub from_sec1_bytes : Bytes → Option Bytes
  -- `VerifyingKey::from_bytes` of ed25519
  pub ed25519_from_bytes : Bytes → Option Bytes

-- `iter().map(AnyConvert::from_any).collect()`
unfoldable pub collect_keys : (Any → Result PublicKey) → List Any → Result PublicKeys
collect_keys from [] = ok PublicKeys.nil
collect_keys from (any ∷ anys) = do
  key ← from any
  keys ← collect_keys from anys
  ok (cons key keys)

module _ ⦃decoders : Decoders⦄ where
  unfoldable pub secp256k1_from : Bytes → Result PublicKey
  secp256k1_from value = do
    message ← ok_or (decoders.decode_pub_key value) external
    key ← ok_or (decoders.from_sec1_bytes message.key) external
    ok (secp256k1 key)

  unfoldable pub ed25519_from : Bytes → Result PublicKey
  ed25519_from value = do
    message ← ok_or (decoders.decode_pub_key value) external
    ensure (length message.key == 32) invalid_key_length
    key ← ok_or (decoders.ed25519_from_bytes message.key) external
    ok (ed25519 key)

  unfoldable pub multisig_from : (Any → Result PublicKey) → Bytes → Result PublicKey
  multisig_from from value = do
    message ← ok_or (decoders.decode_legacy_amino_pub_key value) external
    keys ← collect_keys from message.public_keys
    ok (multisig message.threshold keys)

  -- `PublicKey::from_any`; without fuel the stack overflows.
  unfoldable pub from_any : ℕ → Any → Result PublicKey
  from_any zero any = panic
  from_any (suc fuel) any =
      let nested = multisig_from (from_any fuel) any.value in
      if text_eq any.type_url (codes "/cosmos.crypto.secp256k1.PubKey")
      then secp256k1_from any.value
      else (if text_eq any.type_url (codes "/cosmos.crypto.ed25519.PubKey")
          then ed25519_from any.value
          else (if text_eq any.type_url (codes "/cosmos.crypto.multisig.LegacyAminoPubKey")
              then nested
              else err unknown_type_url))
