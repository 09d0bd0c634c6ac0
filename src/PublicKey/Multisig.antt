-- ===== src/PublicKey/Multisig.antt =====
-- The loop of `verify_multi_signature` (solo-machine-core/src/cosmos/crypto/multisig.rs).
use ibc_solo_machine.Base.{
  ℕ, ◌+◌, ◌≤◌, ◌<◌, ◌≡◌, refl, sym, subst, ◌∙◌, ap, arith, Bool, true, false, Option, some, none,
  Bytes, Result, ok, panic, >>=-eq-ok, leb, ◌==◌, ==_iff, le→leb, ◌&&◌, ensure, bit_array_size,
  signature_size, ◌>>=◌, ◌>>◌, if◌then◌else◌,
}
use native.Mathlib.Nat.{zero-add}
use native.Mathlib.Decide.{dec_lt}
use ibc_solo_machine.BitArray
use ibc_solo_machine.BitArray.{CompactBitArray, num_true_bits_before, bool_to_nat}
use ibc_solo_machine.BitArray.Count.{
  IsWellFormed, get-total, num_true_bits_before-suc, num_true_bits_before-zero,
}
use ibc_solo_machine.PublicKey.{
  PublicKey, PublicKeys, SignatureData, Signatures, multisig, cons, multi, absent, present, size,
  count, signature_at, Crypto, check_multisig, verify_with, verify_signature, verify_loop,
}

module _ ⦃crypto : Crypto⦄ (message : Bytes) where
  -- Each key from index `i` on whose bit is set has verified the signature that stands at the
  -- number of bits set before its own.
  abbrev pub SignedFrom : PublicKeys → CompactBitArray → Signatures → ℕ → Type 0
  SignedFrom PublicKeys.nil bits signatures i = Unit
  SignedFrom (cons key keys) bits signatures i =
      (BitArray.get bits i ≡ ok true
        → (j : ℕ) × (s : SignatureData) × (num_true_bits_before bits i ≡ ok j)
          × (signature_at signatures j ≡ some (some s))
          × (verify_signature message key s ≡ ok tt))
      × SignedFrom keys bits signatures (i + 1)

  next_index :
      (bits : CompactBitArray) (i j : ℕ) (b : Bool)
      → num_true_bits_before bits i ≡ ok j
      → BitArray.get bits i ≡ ok b
      → num_true_bits_before bits (i + 1) ≡ ok (j + bool_to_nat b)
  next_index bits i j b h e =
      subst (λ (k : ℕ). num_true_bits_before bits k ≡ ok (j + bool_to_nat b)) (omega arith)
        (num_true_bits_before-suc bits i j b h e)

  -- One round.
  verify_loop_step :
      (key : PublicKey) (keys : PublicKeys) (bits : CompactBitArray) (ss : Signatures) (i j : ℕ)
      → verify_loop message (cons key keys) bits ss i j ≡ (
          BitArray.get bits i >>= λ set.
          if set
          then (verify_with (verify_signature message key) (signature_at ss j)
              >> verify_loop message keys bits ss (i + 1) (j + 1))
          else verify_loop message keys bits ss (i + 1) j)
  unfolding verify_loop verify_signature
  verify_loop_step key keys bits ss i j = refl

  verify_with-ok :
      (verify : SignatureData → Result (Unit {0})) (entry : Option (Option SignatureData))
      → verify_with verify entry ≡ ok tt
      → (s : SignatureData) × (entry ≡ some (some s)) × (verify s ≡ ok tt)
  verify_with-ok verify none h = cc
  verify_with-ok verify (some none) h = cc
  verify_with-ok verify (some (some s)) h = (s, refl, h)

  loop_sound :
      (keys : PublicKeys) (bits : CompactBitArray) (ss : Signatures) (i j : ℕ)
      → num_true_bits_before bits i ≡ ok j
      → verify_loop message keys bits ss i j ≡ ok tt
      → SignedFrom keys bits ss i
  loop_sound PublicKeys.nil bits ss i j n h = tt
  loop_sound (cons key keys) bits ss i j n h =
      let h' = sym (verify_loop_step key keys bits ss i j) ∙ h in
      let (b, read, rest) = >>=-eq-ok (BitArray.get bits i) _ h' in
      round b read rest (loop_sound keys bits ss (i + 1))
    where
      round :
          (b : Bool)
          → BitArray.get bits i ≡ ok b
          → (if b
              then (verify_with (verify_signature message key) (signature_at ss j)
                  >> verify_loop message keys bits ss (i + 1) (j + 1))
              else verify_loop message keys bits ss (i + 1) j)
            ≡ ok tt
          → ((k : ℕ)
              → num_true_bits_before bits (i + 1) ≡ ok k
              → verify_loop message keys bits ss (i + 1) k ≡ ok tt
              → SignedFrom keys bits ss (i + 1))
          → SignedFrom (cons key keys) bits ss i
      round true read rest ih =
          let (_, used, later) =
            >>=-eq-ok (verify_with (verify_signature message key) (signature_at ss j)) _ rest in
          let (s, found, good) = verify_with-ok _ _ used in
          (λ _. (j, s, n, found, good), ih (j + 1) (next_index bits i j true n read) later)
      round false read rest ih =
          (λ set. cc, ih j (next_index bits i j false n read ∙ ap ok (omega arith)) rest)

  check_sound :
      (threshold keys signatures : ℕ) (bits : CompactBitArray)
      → check_multisig message threshold keys bits signatures ≡ ok tt
      → (c : ℕ) × (BitArray.len bits ≡ ok keys)
        × (num_true_bits_before bits keys ≡ ok c)
        × (threshold ≤ c)
  unfolding check_multisig
  check_sound threshold keys signatures bits h =
      let (n, sized, rest) = >>=-eq-ok (BitArray.len bits) _ h in
      let (_, same, rest₁) = >>=-eq-ok (ensure (keys == n) bit_array_size) _ rest in
      let (_, _, rest₂) =
        >>=-eq-ok (ensure (leb threshold signatures && leb signatures n) signature_size) _ rest₁ in
      let (c, counted, rest₃) = >>=-eq-ok (num_true_bits_before bits n) _ rest₂ in
      let keys_n : keys ≡ n = ground arith in
      (
        c,
        subst (λ (k : ℕ). BitArray.len bits ≡ ok k) (sym keys_n) sized,
        subst (λ (k : ℕ). num_true_bits_before bits k ≡ ok c) (sym keys_n) counted,
        ground arith,
      )

  -- A multisig signature is accepted only with a bit array that has as many bits as there are keys,
  -- at least `threshold` of them set, and only if each key whose bit is set has verified the signature that
  -- stands at the number of bits set before its own.
  pub multisig_sound :
      (threshold : ℕ) (keys : PublicKeys) (array : Option CompactBitArray) (ss : Signatures)
      → verify_signature message (multisig threshold keys) (multi array ss) ≡ ok tt
      → (bits : CompactBitArray) × (c : ℕ) × (array ≡ some bits)
        × (BitArray.len bits ≡ ok (size keys))
        × (num_true_bits_before bits (size keys) ≡ ok c)
        × (threshold ≤ c)
        × SignedFrom keys bits ss 0
  unfolding verify_signature
  multisig_sound threshold keys none ss h = cc
  multisig_sound threshold keys (some bits) ss h =
      let (_, checked, run) =
        >>=-eq-ok (check_multisig message threshold (size keys) bits (count ss)) _ h in
      let (c, sized, counted, enough) = check_sound threshold (size keys) (count ss) bits checked in
      let start = num_true_bits_before-zero bits in
      (bits, c, refl, sized, counted, enough, loop_sound keys bits ss 0 0 start run)

  -- The keys verify each of the signatures, whose data is there.
  abbrev pub AllAccept : PublicKeys → Signatures → Type 0
  AllAccept PublicKeys.nil ss = Unit
  AllAccept (cons key keys) ss =
      ((j : ℕ)
        → j < count ss
        → (s : SignatureData) × (signature_at ss j ≡ some (some s))
          × (verify_signature message key s ≡ ok tt))
      × AllAccept keys ss

  signature_at-count : (ss : Signatures) → signature_at ss (count ss) ≡ none
  signature_at-count Signatures.nil = refl
  signature_at-count (absent ss) = signature_at-count ss
  signature_at-count (present s ss) = signature_at-count ss

  loop_panics :
      (keys : PublicKeys) (bits : CompactBitArray) (ss : Signatures) (i j c : ℕ)
      → IsWellFormed bits
      → AllAccept keys ss
      → num_true_bits_before bits i ≡ ok j
      → num_true_bits_before bits (i + size keys) ≡ ok c
      → j ≤ count ss
      → count ss < c
      → verify_loop message keys bits ss i j ≡ panic
  loop_panics PublicKeys.nil bits ss i j c v accept start stop le lt =
      let stop' : num_true_bits_before bits i ≡ ok c =
        subst (λ (k : ℕ). num_true_bits_before bits k ≡ ok c) (omega arith) stop in
      absurd (ground arith)
  loop_panics (cons key keys) bits ss i j c v accept start stop le lt =
      let (b, read) = get-total bits i v in
      round b read (λ k started fits.
        loop_panics keys bits ss (i + 1) k c v accept.1 started
          (subst (λ (k : ℕ). num_true_bits_before bits k ≡ ok c) (omega arith) stop) fits lt)
    where
      round :
          (b : Bool)
          → BitArray.get bits i ≡ ok b
          → ((k : ℕ)
              → num_true_bits_before bits (i + 1) ≡ ok k
              → k ≤ count ss
              → verify_loop message keys bits ss (i + 1) k ≡ panic)
          → verify_loop message (cons key keys) bits ss i j ≡ panic
      round false read ih =
          let n = next_index bits i j false start read ∙ ap ok (omega arith) in
          rw (verify_loop_step, read) (ih j n le)
      round true read ih = elim (dec_lt j (count ss)) [
        | yes inside ↦
            let (s, found, good) = accept.0 j inside in
            rw (verify_loop_step, read, found, good)
              (ih (j + 1) (next_index bits i j true start read) (omega arith))
        | no outside ↦
            let last : j ≡ count ss = omega arith in
            rw (verify_loop_step, read, last, signature_at-count ss)
      ]

  -- The checks accept fewer signatures than bits that are set: with a well-formed bit array for the
  -- keys, between `threshold` and all signatures, and more bits set than signatures, all of which
  -- every key verifies, the loop reads behind the signatures and panics.
  pub multisig_panics :
      (threshold : ℕ) (keys : PublicKeys) (bits : CompactBitArray) (ss : Signatures) (c : ℕ)
      → IsWellFormed bits
      → BitArray.len bits ≡ ok (size keys)
      → num_true_bits_before bits (size keys) ≡ ok c
      → threshold ≤ count ss
      → count ss < c
      → c ≤ size keys
      → AllAccept keys ss
      → verify_signature message (multisig threshold keys) (multi (some bits) ss) ≡ panic
  unfolding verify_signature check_multisig
  multisig_panics threshold keys bits ss c v sized counted enough fewer most accept =
      let loop =
        loop_panics keys bits ss 0 0 c v accept (num_true_bits_before-zero bits)
          (rw zero-add counted) (omega arith) fewer in
      let t : leb threshold (count ss) ≡ true = le→leb _ _ enough in
      let u : leb (count ss) (size keys) ≡ true = le→leb _ _ (omega arith) in
      let w : leb threshold c ≡ true = le→leb _ _ (omega arith) in
      let e : (size keys == size keys) ≡ true = (==_iff _ _).1 refl in
      rw (sized, e, t, u, counted, w) loop
