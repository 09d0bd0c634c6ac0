-- ===== src/Tests/Keys.antt =====
-- Multisig signatures.
use ibc_solo_machine.Base.{
  ℕ, zero, suc, ◌<◌, ◌≡◌, refl, ◌≤◌, ok, panic, true, some, [], ◌∷◌, Bytes, arith,
}
use ibc_solo_machine.BitArray.{CompactBitArray, len, get, count_from, num_true_bits_before}
use ibc_solo_machine.PublicKey.{
  PublicKeys, SignatureData, Signatures, secp256k1, multisig, cons, single, multi, present, size,
  count, signature_at, Crypto, check_multisig, verify_secp256k1, verify_signature,
}
use ibc_solo_machine.PublicKey.Multisig.{multisig_sound, multisig_panics, SignedFrom, AllAccept}

-- Cryptography that takes the signature of a key to be the key.
abbrev crypto : Crypto
crypto = record {
  parse_signature = λ b. some b;
  secp256k1_verify = λ k m s. true;
  ed25519_verify = λ k m s. true;
}

abbrev keys : PublicKeys
keys = cons (secp256k1 (1 ∷ [])) (cons (secp256k1 (2 ∷ [])) PublicKeys.nil)

-- Both bits are set.
abbrev both : CompactBitArray
both = record { extra_bits_stored = 2; elems = 192 ∷ [] }

abbrev two_signatures : Signatures
two_signatures = present (single (1 ∷ [])) (present (single (2 ∷ [])) Signatures.nil)

two_accepted :
    verify_signature ⦃crypto = crypto⦄ (7 ∷ []) (multisig 2 keys) (multi (some both) two_signatures)
    ≡ ok tt
unfolding verify_signature check_multisig len num_true_bits_before count_from get verify_secp256k1
two_accepted = refl

multisig_sound_example :
    (bits : CompactBitArray) × (c : ℕ) × (some both ≡ some bits)
    × (len bits ≡ ok (size keys))
    × (num_true_bits_before bits (size keys) ≡ ok c)
    × (2 ≤ c)
    × SignedFrom ⦃crypto = crypto⦄ (7 ∷ []) keys bits two_signatures 0
multisig_sound_example =
    multisig_sound ⦃crypto = crypto⦄ (7 ∷ []) 2 keys (some both) two_signatures two_accepted

abbrev one_signature : Signatures
one_signature = present (single (1 ∷ [])) Signatures.nil

first_accepted :
    (key : Bytes) (j : ℕ)
    → j < count one_signature
    → (s : SignatureData) × (signature_at one_signature j ≡ some (some s))
      × (verify_signature ⦃crypto = crypto⦄ (7 ∷ []) (secp256k1 key) s ≡ ok tt)
unfolding verify_signature verify_secp256k1
first_accepted key zero h = (single (1 ∷ []), refl, refl)
first_accepted key (suc j) h = absurd (omega arith)

one_accepted : AllAccept ⦃crypto = crypto⦄ (7 ∷ []) keys one_signature
one_accepted = (first_accepted (1 ∷ []), (first_accepted (2 ∷ []), tt))

both-len : len both ≡ ok (size keys)
unfolding len
both-len = refl

both-set : num_true_bits_before both (size keys) ≡ ok 2
unfolding num_true_bits_before count_from get len
both-set = refl

multisig_panics_example :
    verify_signature ⦃crypto = crypto⦄ (7 ∷ []) (multisig 1 keys) (multi (some both) one_signature)
    ≡ panic
multisig_panics_example =
    multisig_panics ⦃crypto = crypto⦄ (7 ∷ []) 1 keys both one_signature 2
      (record { within_byte = omega arith; has_byte = λ _. omega arith }) both-len both-set
      (omega arith) (omega arith) (omega arith) one_accepted
