-- ===== src/PublicKey/Convert.antt =====
-- `AnyConvert`, `encode` and the addresses of solo-machine-core/src/cosmos/crypto.rs, and the type
-- URLs of the messages. Encoding into a growing buffer does not fail, so `to_any` is total.
use ibc_solo_machine.Base.{List, [], ◌∷◌, take, Text, Bytes, codes, Result, ok_or, external}
use ibc_solo_machine.PublicKey.{PublicKey, PublicKeys, secp256k1, ed25519, multisig, cons}
use ibc_solo_machine.Messages.{Any, Message, pub_key, legacy_amino_pub_key}
use ibc_solo_machine.Env.{Env}

module _ ⦃env : Env⦄ where
  -- `to_any` of the macro `impl_any_conversion!`.
  unfoldable pub any_of : Text → Message → Any
  any_of type_url message = record { type_url = type_url; value = env.encode message }

  unfoldable mutual
    unfolding any_of

    -- `PublicKey::to_any`
    pub to_any : PublicKey → Any
    to_any (secp256k1 key) =
        any_of (codes "/cosmos.crypto.secp256k1.PubKey") (pub_key (record { key = key }))
    to_any (ed25519 key) =
        any_of (codes "/cosmos.crypto.ed25519.PubKey") (pub_key (record { key = key }))
    to_any (multisig threshold keys) =
        any_of (codes "/cosmos.crypto.multisig.LegacyAminoPubKey")
          (legacy_amino_pub_key (record { threshold = threshold; public_keys = keys_to_any keys }))

    pub keys_to_any : PublicKeys → List Any
    keys_to_any PublicKeys.nil = []
    keys_to_any (cons key keys) = to_any key ∷ keys_to_any keys

  -- `PublicKey::encode`
  unfoldable pub encode : PublicKey → Text
  encode (secp256k1 key) = env.hex_upper key
  encode (ed25519 key) = env.hex_upper key
  encode (multisig threshold keys) = codes "unsupported key type"

  unfoldable pub address_bytes : PublicKey → Bytes
  unfolding keys_to_any
  address_bytes (secp256k1 key) = env.ripemd160 (env.sha256 key)
  address_bytes (ed25519 key) = env.sha256 key
  address_bytes (multisig threshold keys) = take 20 (
      env.sha256 (
        env.encode (
          legacy_amino_pub_key (record { threshold = threshold; public_keys = keys_to_any keys }))))

  -- `PublicKey::address`
  unfoldable pub address : PublicKey → Text
  unfolding address_bytes
  address key = env.hex_lower (address_bytes key)

  unfoldable pub account_address : Text → PublicKey → Result Text
  unfolding address_bytes
  account_address prefix key = ok_or (env.bech32_encode prefix (address_bytes key)) external
