-- ===== src/BitArray/Count.antt =====
-- The count of the bits that are set.
use ibc_solo_machine.Base.{
  ℕ, zero, suc, ◌+◌, ◌-◌, ◌*◌, ◌/◌, ◌%◌, ◌≤◌, ◌<◌, ◌≡◌, ◌≢◌, refl, subst, arith, Bool, false,
  length, get_elem?, List, [], ◌∷◌, some, ok, >>=-eq-ok, Bool-cases, inl, inr, ◌==◌, leb,
}
use native.Mathlib.Nat.{zero-add}
use ibc_solo_machine.BitArray.{
  CompactBitArray, len, get, bit, bool_to_nat, count_from, num_true_bits_before,
}

-- The extra bits are part of a last byte that is there.
pub record IsWellFormed (bits : CompactBitArray) : Type 0 where
  pub within_byte : bits.extra_bits_stored ≤ 8
  pub has_byte : bits.extra_bits_stored ≢ 0 → 0 < length bits.elems

module _ {ℓ} {A : Type ℓ} where
  pub get_elem?-inside : (xs : List A) (i : ℕ) → i < length xs → (x : A) × (get_elem? xs i ≡ some x)
  get_elem?-inside [] i h = elim h [ ]
  get_elem?-inside (x ∷ xs) zero h = (x, refl)
  get_elem?-inside (x ∷ xs) (suc i) h = get_elem?-inside xs i (omega arith)

pub len-ok :
    (bits : CompactBitArray)
    → IsWellFormed bits
    → (n : ℕ) × (len bits ≡ ok n) × (n ≤ length bits.elems * 8)
unfolding len
len-ok bits v = elim (Bool-cases (bits.extra_bits_stored == 0)) [
  | inl full ↦ (length bits.elems * 8, rw full, omega arith)
  | inr extra ↦
      let some_byte : 0 < length bits.elems = v.has_byte (ground arith) in
      (
        (length bits.elems - 1) * 8 + bits.extra_bits_stored,
        ground arith,
        omega (arith, v.within_byte, some_byte),
      )
]

-- On a well-formed array reading a bit never panics, at any index.
pub get-total :
    (bits : CompactBitArray) (i : ℕ) → IsWellFormed bits → (b : Bool) × (get bits i ≡ ok b)
unfolding get
get-total bits i v =
    let (n, e, fits) = len-ok bits v in
    elim (Bool-cases (leb n i)) [
      | inl beyond ↦ (false, rw (e, beyond))
      | inr inside ↦
          let (x, found) = get_elem?-inside bits.elems (i / 8) (ground arith) in
          (bit x (i % 8), rw (e, inside, found))
    ]

-- One more round adds the bit behind the ones counted so far.
pub count_from-suc :
    (bits : CompactBitArray) (i r n c : ℕ) (b : Bool)
    → count_from bits i r n ≡ ok c
    → get bits (i + r) ≡ ok b
    → count_from bits i (suc r) n ≡ ok (c + bool_to_nat b)
unfolding count_from
count_from-suc bits i zero n c b h e =
    let e' : get bits i ≡ ok b = subst (λ (k : ℕ). get bits k ≡ ok b) (omega arith) e in rw e' (cc)
count_from-suc bits i (suc r) n c b h e =
    let (b₀, first, rest) = >>=-eq-ok (get bits i) _ h in
    let more =
      count_from-suc bits (i + 1) r (n + bool_to_nat b₀) c b rest
        (subst (λ (k : ℕ). get bits k ≡ ok b) (omega arith) e) in
    rw first more

pub num_true_bits_before-suc :
    (bits : CompactBitArray) (i c : ℕ) (b : Bool)
    → num_true_bits_before bits i ≡ ok c
    → get bits i ≡ ok b
    → num_true_bits_before bits (suc i) ≡ ok (c + bool_to_nat b)
unfolding num_true_bits_before
num_true_bits_before-suc bits i c b h e = count_from-suc bits 0 i 0 c b h (rw zero-add e)

pub num_true_bits_before-zero : (bits : CompactBitArray) → num_true_bits_before bits 0 ≡ ok 0
unfolding num_true_bits_before
num_true_bits_before-zero bits = refl
