-- ===== src/Tests/Signers.antt =====
-- Public keys as messages, and a signer.
use ibc_solo_machine.Base.{
  ◌≡◌, refl, ok, true, some, none, [], ◌∷◌, codes, Bytes, arith, text_eq, text_eq_refl,
}
use ibc_solo_machine.PublicKey.{
  PublicKey, PublicKeys, Crypto, secp256k1, multisig, cons, single, verify_signature,
}
use ibc_solo_machine.PublicKey.Convert.{to_any, keys_to_any}
use ibc_solo_machine.PublicKey.Decode.{Decoders, from_any}
use ibc_solo_machine.PublicKey.Decode.RoundTrip.{from_any-to_any}
use ibc_solo_machine.Messages.{Message, pub_key}
use ibc_solo_machine.Event.{sign_doc}
use ibc_solo_machine.Env.{Env}
use ibc_solo_machine.MnemonicSigner.{Wallet, MnemonicSigner, to_public_key, sign}
use ibc_solo_machine.MnemonicSigner.Accepted.{signature_accepted}
use ibc_solo_machine.Tests.Samples.{sample}

-- A key is its own encoding.
abbrev encode_key : Message → Bytes
encode_key (pub_key m) = m.key
encode_key _ = 9 ∷ []

abbrev encoding : Env
encoding = record sample { encode = encode_key }

abbrev inner : PublicKeys
inner = cons (secp256k1 (2 ∷ [])) PublicKeys.nil

abbrev decoders : Decoders
decoders = record {
  decode_pub_key = λ b. some (record { key = b });
  decode_legacy_amino_pub_key =
      λ b. some (record { threshold = 1; public_keys = keys_to_any ⦃env = encoding⦄ inner });
  from_sec1_bytes = λ b. some b;
  ed25519_from_bytes = λ b. some b;
}

from_any-to_any_example :
    from_any ⦃decoders = decoders⦄ 2 (to_any ⦃env = encoding⦄ (multisig 1 inner))
    ≡ ok (multisig 1 inner)
from_any-to_any_example =
    from_any-to_any ⦃env = encoding⦄ ⦃decoders = decoders⦄ 2 (multisig 1 inner) (omega arith)
      (refl, ((refl, refl), tt))

abbrev wallet : Wallet
wallet = record {
  env_var = λ t. none;
  parse_mnemonic = λ t. some t;
  to_seed = λ t. t;
  parse_path = λ t. some t;
  derive_from_path = λ s p. some s;
  verifying_key = λ k. k;
  sign = λ k m. m;
}

abbrev crypto : Crypto
crypto = record {
  parse_signature = λ b. some b;
  secp256k1_verify = λ k m s. text_eq m s;
  ed25519_verify = λ k m s. true;
}

abbrev signer : MnemonicSigner
signer = record { mnemonic = 3 ∷ []; hd_path = codes "m"; account_prefix = codes "cosmos" }

signature_accepted_example :
    (key : PublicKey) × (signature : Bytes) × (to_public_key ⦃wallet = wallet⦄ signer ≡ ok key)
    × (sign ⦃wallet = wallet⦄ signer none (sign_doc (7 ∷ [])) ≡ ok signature)
    × (verify_signature ⦃crypto = crypto⦄ (7 ∷ []) key (single signature) ≡ ok tt)
signature_accepted_example =
    signature_accepted ⦃wallet = wallet⦄ ⦃crypto = crypto⦄ signer none (sign_doc (7 ∷ []))
      (codes "m") (3 ∷ []) refl refl (λ k m. refl) (λ k m. text_eq_refl m)
