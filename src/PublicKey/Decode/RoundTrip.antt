-- ===== src/PublicKey/Decode/RoundTrip.antt =====
-- Public keys that are encoded and decoded again.
use ibc_solo_machine.Base.{ℕ, zero, suc, ◌+◌, ◌≤◌, some, text_eq, length, ◌≡◌, refl, arith, ok}
use ibc_solo_machine.PublicKey.{PublicKey, PublicKeys, secp256k1, ed25519, multisig, cons}
use ibc_solo_machine.PublicKey.Convert.{any_of, to_any, keys_to_any}
use ibc_solo_machine.PublicKey.Decode.{
  Decoders, collect_keys, secp256k1_from, ed25519_from, multisig_from, from_any,
}
use ibc_solo_machine.Messages.{pub_key, legacy_amino_pub_key}
use ibc_solo_machine.Env.{Env}

abbrev mutual
  -- The number of keys in a key, itself included.
  pub weight : PublicKey → ℕ
  weight (secp256k1 key) = 1
  weight (ed25519 key) = 1
  weight (multisig threshold keys) = suc (weights keys)

  pub weights : PublicKeys → ℕ
  weights PublicKeys.nil = 0
  weights (cons key keys) = weight key + weights keys

module _ ⦃env : Env⦄ ⦃decoders : Decoders⦄ where
  abbrev mutual
    -- The messages of a key are decoded from their encodings, and its verifying keys from their bytes.
    pub IsReadable : PublicKey → Type 0
    IsReadable (secp256k1 key) =
        (decoders.decode_pub_key (env.encode (pub_key (record { key = key })))
          ≡ some (record { key = key }))
        × (decoders.from_sec1_bytes key ≡ some key)
    IsReadable (ed25519 key) =
        (decoders.decode_pub_key (env.encode (pub_key (record { key = key })))
          ≡ some (record { key = key }))
        × (length key ≡ 32)
        × (decoders.ed25519_from_bytes key ≡ some key)
    IsReadable (multisig threshold keys) =
        (decoders.decode_legacy_amino_pub_key (
            env.encode (
              legacy_amino_pub_key
                (record { threshold = threshold; public_keys = keys_to_any keys })))
          ≡ some (record { threshold = threshold; public_keys = keys_to_any keys }))
        × AreReadable keys

    pub AreReadable : PublicKeys → Type 0
    AreReadable PublicKeys.nil = Unit
    AreReadable (cons key keys) = IsReadable key × AreReadable keys

  mutual
    unfolding from_any to_any any_of secp256k1_from ed25519_from multisig_from text_eq collect_keys

    key_read_back :
        (fuel : ℕ) (k : PublicKey)
        → weight k ≤ fuel
        → IsReadable k
        → from_any fuel (to_any k) ≡ ok k
    key_read_back zero (secp256k1 key) h r = absurd (omega (arith, h))
    key_read_back zero (ed25519 key) h r = absurd (omega (arith, h))
    key_read_back zero (multisig threshold keys) h r = absurd (omega (arith, h))
    key_read_back (suc fuel) (secp256k1 key) h r = rw (r.0, r.1) refl
    key_read_back (suc fuel) (ed25519 key) h (p, q, r) = rw (p, q, r) refl
    key_read_back (suc fuel) (multisig threshold keys) h r =
        rw (r.0, keys_read_back fuel keys (omega (arith, h)) r.1) refl

    keys_read_back :
        (fuel : ℕ) (ks : PublicKeys)
        → weights ks ≤ fuel
        → AreReadable ks
        → collect_keys (from_any fuel) (keys_to_any ks) ≡ ok ks
    keys_read_back fuel PublicKeys.nil h r = refl
    keys_read_back fuel (cons key keys) h r =
        rw
          (
            key_read_back fuel key (omega (arith, h)) r.0,
            keys_read_back fuel keys (omega (arith, h)) r.1,
          )
          refl

  -- A public key is read back from the message that it is converted into, with as much fuel as it
  -- has keys in it, itself included, if its messages are decoded from their encodings and its
  -- verifying keys from their bytes.
  pub from_any-to_any :
      (fuel : ℕ) (k : PublicKey) → weight k ≤ fuel → IsReadable k → from_any fuel (to_any k) ≡ ok k
  from_any-to_any fuel k h r = key_read_back fuel k h r
