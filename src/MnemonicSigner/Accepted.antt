-- ===== src/MnemonicSigner/Accepted.antt =====
-- The signatures of the signer, under its own public key.
use ibc_solo_machine.Base.{Option, some, Text, Bytes, true, ◌≡◌, refl, ok}
use ibc_solo_machine.PublicKey.{
  PublicKey, secp256k1, Crypto, single, verify_signature, verify_secp256k1,
}
use ibc_solo_machine.Event.{SignMessage, message_bytes}
use ibc_solo_machine.MnemonicSigner.{Wallet, MnemonicSigner, get_signing_key, to_public_key, sign}

module _ ⦃wallet : Wallet⦄ ⦃crypto : Crypto⦄ where
  -- Where the path of a signer is parsed and a key is derived along it, the signer has a public key
  -- and signs each message, of both kinds and for every request, and `verify_signature` accepts the
  -- signature of the message's bytes under this public key, if a signature is read back from its
  -- bytes and is verified under the verifying key of the key that made it.
  pub signature_accepted :
      (signer : MnemonicSigner) (request_id : Option Text) (message : SignMessage) (path : Text)
      (secret : Bytes)
      → wallet.parse_path signer.hd_path ≡ some path
      → wallet.derive_from_path (wallet.to_seed signer.mnemonic) path ≡ some secret
      → ((k m : Bytes) → crypto.parse_signature (wallet.sign k m) ≡ some (wallet.sign k m))
      → ((k m : Bytes)
          → crypto.secp256k1_verify (wallet.verifying_key k) m (wallet.sign k m) ≡ true)
      → (key : PublicKey) × (signature : Bytes) × (to_public_key signer ≡ ok key)
        × (sign signer request_id message ≡ ok signature)
        × (verify_signature (message_bytes message) key (single signature) ≡ ok tt)
  unfolding to_public_key sign get_signing_key verify_signature verify_secp256k1
  signature_accepted signer request_id message path secret p q parses verifies = (
    secp256k1 (wallet.verifying_key secret),
    wallet.sign secret (message_bytes message),
    rw (p, q) refl,
    rw (p, q) refl,
    rw (parses secret (message_bytes message), verifies secret (message_bytes message)) refl,
  )
